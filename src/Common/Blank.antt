-- ===== src/Common/Blank.antt =====
-- Blank texts, those that `str.strip` leaves nothing of.
use Prim.Native.Char.{Char}
use Prim.Native.String.append
use Prim.Native.String.{String}
use mathlib.Core.Path.{◌≡◌, refl, sym, ◌∙◌, subst}
use mathlib.Core.Logic.{inl, inr}
use mathlib.Core.Bool.{true, false}
use text.Mathlib.Text.{◌==◌}
use text.Mathlib.TextEquality.{eq_iff}
use rfi.Common.Tests.{Bool-cases, if◌then◌else◌}
use rfi.Common.Text.{is_space, strip_left, keep_before, strip_right, strip, is_blank, join}

-- every character is a white space
abbrev AllSpace : String → Type 0
AllSpace String.[] = Unit
AllSpace (String.◌∷◌ c s) = (is_space c ≡ true) × AllSpace s

keep_before_nil :
    (c : Char) (t : String) → keep_before c t ≡ String.[] → (is_space c ≡ true) × (t ≡ String.[])
keep_before_nil c String.[] h = elim (Bool-cases (is_space c)) [
  | inl space ↦ (space, refl)
  | inr other ↦
      let kept : String.◌∷◌ c String.[] ≡ String.[] =
        subst (λ b. (if b then String.[] else String.◌∷◌ c String.[]) ≡ String.[]) other h in
      cc
]
keep_before_nil c (String.◌∷◌ d t) h = cc

strip_right-AllSpace : (s : String) → strip_right s ≡ String.[] → AllSpace s
unfolding strip_right
strip_right-AllSpace String.[] h = tt
strip_right-AllSpace (String.◌∷◌ c s) h =
    let (space, rest) = keep_before_nil c (strip_right s) h in (space, strip_right-AllSpace s rest)

strip_left-AllSpace : (s : String) → AllSpace (strip_left s) → AllSpace s
unfolding strip_left
strip_left-AllSpace String.[] h = tt
strip_left-AllSpace (String.◌∷◌ c s) h = elim (Bool-cases (is_space c)) [
  | inl space ↦ (
    space,
    strip_left-AllSpace s
        (subst (λ b. AllSpace (if b then strip_left s else String.◌∷◌ c s)) space h),
  )
  | inr other ↦ subst (λ b. AllSpace (if b then strip_left s else String.◌∷◌ c s)) other h
]

strip-AllSpace : (s : String) → strip s ≡ "" → AllSpace s
unfolding strip
strip-AllSpace s h = strip_left-AllSpace s (strip_right-AllSpace (strip_left s) h)

AllSpace-strip_left : (s : String) → AllSpace s → strip_left s ≡ String.[]
unfolding strip_left
AllSpace-strip_left String.[] h = refl
AllSpace-strip_left (String.◌∷◌ c s) h = rw (h.0, if◌then◌else◌) (AllSpace-strip_left s h.1)

AllSpace-strip : (s : String) → AllSpace s → strip s ≡ ""
unfolding strip strip_right
AllSpace-strip s h = rw (AllSpace-strip_left s h) refl

AllSpace-prefix : (s t : String) → AllSpace (join s t) → AllSpace s
unfolding join
AllSpace-prefix String.[] t h = tt
AllSpace-prefix (String.◌∷◌ c s) t h =
    let shown = subst AllSpace (append.cons c s t) h in (shown.0, AllSpace-prefix s t shown.1)

-- A text with a beginning that is not blank is not blank.
pub is_blank-join : (s t : String) → is_blank s ≡ false → is_blank (join s t) ≡ false
is_blank-join s t h = elim (Bool-cases (is_blank (join s t))) [
  | inr filled ↦ filled
  | inl blank ↦
      let beginning =
        AllSpace-prefix s t (strip-AllSpace (join s t) ((eq_iff (strip (join s t)) "").0 blank)) in
      let empty = (eq_iff (strip s) "").1 (AllSpace-strip s beginning) in cc
]

-- A text that begins with a character is not empty.
pub join-filled : (c : Char) (s t : String) → (join (String.◌∷◌ c s) t == "") ≡ false
unfolding join
join-filled c s t = elim (Bool-cases (join (String.◌∷◌ c s) t == "")) [
  | inr filled ↦ filled
  | inl empty ↦
      let same = sym (append.cons c s t) ∙ (eq_iff (join (String.◌∷◌ c s) t) "").0 empty in cc
]
