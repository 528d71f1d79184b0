-- ===== src/Common/Errors.antt =====
-- A call that may raise: its value, or the text of the exception.
use Prim.Native.String.{String}
use mathlib.Core.Path.{◌≡◌, refl}
use mathlib.Core.Logic.{◌≢◌, ◌⊎◌, inl, inr}
use mathlib.Core.Bool.{Bool, true, false}

pub data Attempt {ℓ} (A : Type ℓ) : Type ℓ where
  ok : A → Attempt A
  raise : String → Attempt A

infixl 5 ◌>>=◌ ◌>>◌
abbrev pub ◌>>=◌ {ℓ κ} : {A : Type ℓ} {B : Type κ} → Attempt A → (A → Attempt B) → Attempt B
ok a >>= f = f a
raise e >>= f = raise e

abbrev pub ◌>>◌ {ℓ} : {B : Type ℓ} → Attempt (Unit {0}) → Attempt B → Attempt B
m >> k = m >>= λ _. k

-- `if not test: raise ...`
abbrev pub require : Bool → String → Attempt (Unit {0})
require true e = ok tt
require false e = raise e

-- a call that succeeds is one of the first part and then one of the rest
pub bind_ok {ℓ κ} :
    {A : Type ℓ} {B : Type κ} (m : Attempt A) (f : A → Attempt B) (b : B)
    → (m >>= f) ≡ ok b
    → (a : A) × (m ≡ ok a) × (f a ≡ ok b)
bind_ok (ok a) f b h = (a, refl, h)
bind_ok (raise e) f b h = cc

pub require_ok : (b : Bool) (e : String) → require b e ≡ ok tt → b ≡ true
require_ok true e h = refl
require_ok false e h = cc

pub ok_injective {ℓ} : {A : Type ℓ} {a b : A} → ok a ≡ ok b → a ≡ b
ok_injective h = cc

pub raise_not_ok {ℓ} : {A : Type ℓ} (e : String) (a : A) → raise e ≢ ok a
raise_not_ok e a h = cc

-- what a check that passed leaves
pub after_check {ℓ} :
    {B : Type ℓ} (test : Bool) (e : String) (k : Attempt B) (b : B)
    → (require test e >> k) ≡ ok b
    → (test ≡ true) × (k ≡ ok b)
after_check true e k b h = (refl, h)
after_check false e k b h = cc

pub Attempt-cases {ℓ} :
    {A : Type ℓ} (m : Attempt A) → ((e : String) × (m ≡ raise e)) ⊎ ((a : A) × (m ≡ ok a))
Attempt-cases (ok a) = inr (a, refl)
Attempt-cases (raise e) = inl (e, refl)
