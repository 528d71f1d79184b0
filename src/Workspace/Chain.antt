-- ===== src/Workspace/Chain.antt =====
-- The hash chain of workspace/repository.py: what `verify` checks of it, and that it is tamper
-- evident.
use rfi.Common.Lists.{is_empty}
use rfi.Common.{
  ◌⊎◌, inl, inr, ℕ, ◌+◌, String, ◌≡◌, ◌↔◌, ◌≢◌, refl, sym, ap, ◌∙◌, Bool, true, false, Option, none,
  some, List, [], ◌∷◌, ◌++◌, arith, ◌==◌, eq_iff, ◌&&◌, not, eqb, eq_of_eqb, eqb_of_eq,
}
use rfi.Common.Lists.{length}
use rfi.Workspace.State.{Material, JournalEvent, Failure}
use rfi.Workspace.Verify.{check_chain, same_option, when}
use rfi.Workspace.Journal.{last_hash}

pub is_empty-when :
    (b : Bool) (f : Failure) (ys : List Failure)
    → is_empty (when (not b) f ++ ys) ≡ (b && is_empty ys)
is_empty-when true f ys = refl
is_empty-when false f ys = refl

pub split_and : (a b : Bool) → (a && b) ≡ true → (a ≡ true) × (b ≡ true)
split_and a b h = ground arith

pub split_empty :
    (xs ys : List Failure)
    → is_empty (xs ++ ys) ≡ true
    → (is_empty xs ≡ true) × (is_empty ys ≡ true)
split_empty [] ys h = (refl, h)
split_empty (x ∷ xs) ys h = cc

pub join_empty :
    (xs ys : List Failure) → is_empty xs ≡ true → is_empty ys ≡ true → is_empty (xs ++ ys) ≡ true
join_empty [] ys h k = k
join_empty (x ∷ xs) ys h k = h

-- the hash behind a list of events, or the one before it
abbrev pub hash_after : Option String → List JournalEvent → Option String
hash_after previous [] = previous
hash_after previous (e ∷ es) = hash_after (some e.event_hash) es

pub last_hash-eq-hash_after : (es : List JournalEvent) → last_hash es ≡ hash_after none es
last_hash-eq-hash_after [] = refl
last_hash-eq-hash_after (e ∷ []) = refl
last_hash-eq-hash_after (e ∷ f ∷ es) = last_hash-eq-hash_after (f ∷ es)

-- every event's material is in `P`
abbrev pub AllMaterials : (Material → Type 0) → List JournalEvent → Type 0
AllMaterials P [] = Unit
AllMaterials P (e ∷ es) = P e.material × AllMaterials P es

-- the material is that of one of the events
abbrev pub IsMaterialOf : Material → List JournalEvent → Type 0
IsMaterialOf m [] = ⊥
IsMaterialOf m (e ∷ es) = (e.material ≡ m) ⊎ IsMaterialOf m es

pub all_materials :
    (P : Material → Type 0) (es : List JournalEvent)
    → ((m : Material) → IsMaterialOf m es → P m)
    → AllMaterials P es
all_materials P [] each = tt
all_materials P (e ∷ es) each =
    (each e.material (inl refl), all_materials P es (λ m there. each m (inr there)))

same_option_iff : (a b : Option String) → (same_option a b ≡ true) ↔ (a ≡ b)
same_option_iff none none = (λ _. refl, λ _. refl)
same_option_iff none (some b) = (λ h. cc, λ h. cc)
same_option_iff (some a) none = (λ h. cc, λ h. cc)
same_option_iff (some a) (some b) = (λ h. ap some ((eq_iff a b).0 h), λ h. (eq_iff a b).1 (cc))

module _ (digest : Material → String) where
  -- The sequence numbers count up, each event names the hash before it, and each hash is the digest
  -- of its event.
  abbrev pub IsChain : ℕ → Option String → List JournalEvent → Type 0
  IsChain n previous [] = Unit
  IsChain n previous (e ∷ es) =
      (e.sequence ≡ n)
      × (e.previous_hash ≡ previous)
      × (e.event_hash ≡ digest e.material)
      × IsChain (n + 1) (some e.event_hash) es

  is_empty-check_chain :
      (n : ℕ) (previous : Option String) (e : JournalEvent) (es : List JournalEvent)
      → is_empty (check_chain digest n previous (e ∷ es)) ≡ (
          eqb e.sequence n
          && (same_option e.previous_hash previous
              && ((e.event_hash == digest e.material)
                  && is_empty (check_chain digest (n + 1) (some e.event_hash) es))))
  unfolding check_chain
  is_empty-check_chain n previous e es = simp is_empty-when

  -- the loop of `verify` finds no failure exactly in a chain
  pub check_chain_sound :
      (n : ℕ) (previous : Option String) (es : List JournalEvent)
      → is_empty (check_chain digest n previous es) ≡ true
      → IsChain n previous es
  check_chain_sound n previous [] h = tt
  check_chain_sound n previous (e ∷ es) h =
      let (a, r) = split_and _ _ (sym (is_empty-check_chain n previous e es) ∙ h) in
      let (b, s) = split_and _ _ r in
      let (d, t) = split_and _ _ s in
      (
        eq_of_eqb e.sequence n a,
        (same_option_iff e.previous_hash previous).0 b,
        (eq_iff e.event_hash (digest e.material)).0 d,
        check_chain_sound (n + 1) (some e.event_hash) es t,
      )

  pub check_chain_complete :
      (n : ℕ) (previous : Option String) (es : List JournalEvent)
      → IsChain n previous es
      → is_empty (check_chain digest n previous es) ≡ true
  unfolding check_chain
  check_chain_complete n previous [] h = refl
  check_chain_complete n previous (e ∷ es) h =
      is_empty-check_chain n previous e es
      ∙ ground (
        arith,
        eqb_of_eq e.sequence n h.0,
        (same_option_iff e.previous_hash previous).1 h.1,
        (eq_iff e.event_hash (digest e.material)).1 h.2,
        check_chain_complete (n + 1) (some e.event_hash) es h.3,
      )

  -- a chain is extended by the event that follows it
  pub IsChain-append_one :
      (n : ℕ) (previous : Option String) (es : List JournalEvent) (e : JournalEvent)
      → IsChain n previous es
      → e.sequence ≡ n + length es
      → e.previous_hash ≡ hash_after previous es
      → e.event_hash ≡ digest e.material
      → IsChain n previous (es ++ e ∷ [])
  IsChain-append_one n previous [] e h s p d = (omega arith, p, d, tt)
  IsChain-append_one n previous (f ∷ es) e h s p d =
      (h.0, h.1, h.2, IsChain-append_one (n + 1) (some f.event_hash) es e h.3 (omega arith) p d)

  -- the last hash of a chain is the digest of one of its events, which has the last number
  last_of_chain :
      (P : Material → Type 0) (n : ℕ) (previous : Option String) (e : JournalEvent)
      (es : List JournalEvent)
      → IsChain n previous (e ∷ es)
      → AllMaterials P (e ∷ es)
      → (m : Material) × P m
        × (hash_after (some e.event_hash) es ≡ some (digest m))
        × (m.sequence ≡ n + length es)
  last_of_chain P n previous e [] h a = (e.material, a.0, ap some h.2, omega arith)
  last_of_chain P n previous e (f ∷ es) h a =
      let (m, am, d, s) = last_of_chain P (n + 1) (some e.event_hash) f es h.3 a.1 in
      (m, am, d, omega arith)

-- The digest tells the materials in `P` apart.
module _ (digest : Material → String) (P : Material → Type 0)
    (collision_free : (a b : Material) → P a → P b → digest a ≡ digest b → a ≡ b) where
  same_event :
      (e f : JournalEvent)
      → P e.material
      → P f.material
      → e.event_hash ≡ digest e.material
      → f.event_hash ≡ digest f.material
      → e.event_hash ≡ f.event_hash
      → e ≡ f
  same_event e f a b p q h =
      let m = collision_free e.material f.material a b (sym p ∙ h ∙ q) in
      λ i. record { material = m i; event_hash = h i }

  -- a longer chain does not end in the hash of a shorter one
  ends_apart :
      (n : ℕ) (p q : Option String) (e f : JournalEvent) (g : JournalEvent) (fs : List JournalEvent)
      → IsChain digest n p (e ∷ [])
      → IsChain digest n q (f ∷ g ∷ fs)
      → P e.material
      → AllMaterials P (f ∷ g ∷ fs)
      → some e.event_hash ≢ hash_after (some f.event_hash) (g ∷ fs)
  ends_apart n p q e f g fs he hf a b same =
      let (m, am, d, s) = last_of_chain digest P n q f (g ∷ fs) hf b in
      let eq : e.material ≡ m = collision_free e.material m a am (cc (he.2, same, d)) in
      let numbers = ap (λ (x : Material). x.sequence) eq in absurd (omega arith)

  -- Two chains with the same first number that end in the same hash are the same events.
  pub same_chain :
      (n : ℕ) (p q : Option String) (e f : JournalEvent) (es fs : List JournalEvent)
      → IsChain digest n p (e ∷ es)
      → IsChain digest n q (f ∷ fs)
      → AllMaterials P (e ∷ es)
      → AllMaterials P (f ∷ fs)
      → hash_after (some e.event_hash) es ≡ hash_after (some f.event_hash) fs
      → (e ∷ es) ≡ (f ∷ fs)
  same_chain n p q e f [] [] he hf a b same =
      ap (λ x. x ∷ []) (same_event e f a.0 b.0 he.2 hf.2 (cc))
  same_chain n p q e f [] (g ∷ fs) he hf a b same =
      absurd (ends_apart n p q e f g fs he hf a.0 b same)
  same_chain n p q e f (g ∷ es) [] he hf a b same =
      absurd (ends_apart n q p f e g es hf he b.0 a (sym same))
  same_chain n p q e f (g ∷ es) (g' ∷ fs) he hf a b same =
      let rest =
        same_chain (n + 1) (some e.event_hash) (some f.event_hash) g g' es fs he.3 hf.3 a.1 b.1
          same in
      let heads : e.event_hash ≡ f.event_hash = cc (rest, he.3.1, hf.3.1) in
      λ i. same_event e f a.0 b.0 he.2 hf.2 heads i ∷ rest i
