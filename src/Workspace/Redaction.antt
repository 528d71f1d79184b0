-- ===== src/Workspace/Redaction.antt =====
-- What `_redact` of workspace/repository.py leaves of a configuration.
use rfi.Common.{
  String, ◌≡◌, refl, ap, sym, ◌∙◌, Bool, true, false, List, [], ◌∷◌, arith, if◌then◌else◌,
}
use rfi.Common.Text.{contains}
use rfi.Workspace.State.{
  Json, Items, Fields, null, bool, number, text, array, object, nil, cons, end, field,
}
use rfi.Workspace.Redact.{is_secret, redact, redact_items, redact_fields}

-- the value below a key, secret or not, where `clean` says that the value is clean inside
abbrev pub IsCleanValue : Bool → Json → Type 0 → Type 0
IsCleanValue true v clean = v ≡ text "[REDACTED]"
IsCleanValue false v clean = clean

-- the words that mark a key as the name of a credential
abbrev pub credential_words : List String
credential_words = "secret" ∷ "token" ∷ "password" ∷ "api_key" ∷ []

-- one of the words stands in the text
abbrev pub has_word : List String → String → Bool
has_word [] k = false
has_word (word ∷ words) k = if contains word k then true else has_word words k

module _ (lower : String → String) where
  -- the key, in lower case, has a word of a credential
  abbrev pub names_credential : String → Bool
  names_credential key = has_word credential_words (lower key)

  names_credential-is_secret : (key : String) → names_credential key ≡ is_secret lower key
  unfolding is_secret
  names_credential-is_secret key = ground arith

  -- Below a key that names a credential stands nothing but the marker, at every depth.
  unfoldable mutual
    pub IsClean : Json → Type 0
    IsClean null = Unit
    IsClean (bool b) = Unit
    IsClean (number n) = Unit
    IsClean (text s) = Unit
    IsClean (array xs) = IsCleanItems xs
    IsClean (object fs) = IsCleanFields fs

    pub IsCleanItems : Items → Type 0
    IsCleanItems nil = Unit
    IsCleanItems (cons x xs) = IsClean x × IsCleanItems xs

    pub IsCleanFields : Fields → Type 0
    IsCleanFields end = Unit
    IsCleanFields (field key v fs) =
        IsCleanValue (names_credential key) v (IsClean v) × IsCleanFields fs

  value-IsClean :
      (b : Bool) (v : Json)
      → IsClean v
      → let w = if b then text "[REDACTED]" else v in IsCleanValue b w (IsClean w)
  value-IsClean true v c = refl
  value-IsClean false v c = c

  value_kept :
      (b : Bool) (v w : Json)
      → (IsClean v → w ≡ v)
      → IsCleanValue b v (IsClean v)
      → (if b then text "[REDACTED]" else w) ≡ v
  value_kept true v w keep c = sym c
  value_kept false v w keep c = keep c

  kept_value :
      (key : String) (v w : Json)
      → (IsClean v → w ≡ v)
      → IsCleanValue (names_credential key) v (IsClean v)
      → (if is_secret lower key then text "[REDACTED]" else w) ≡ v
  kept_value key v w keep c =
      ap (λ b. if b then text "[REDACTED]" else w) (sym (names_credential-is_secret key))
      ∙ value_kept (names_credential key) v w keep c

  mutual
    unfolding redact IsClean

    cleaned : (j : Json) → IsClean (redact lower j)
    cleaned null = tt
    cleaned (bool b) = tt
    cleaned (number n) = tt
    cleaned (text s) = tt
    cleaned (array xs) = cleaned_items xs
    cleaned (object fs) = cleaned_fields fs

    cleaned_items : (xs : Items) → IsCleanItems (redact_items lower xs)
    cleaned_items nil = tt
    cleaned_items (cons x xs) = (cleaned x, cleaned_items xs)

    cleaned_fields : (fs : Fields) → IsCleanFields (redact_fields lower fs)
    cleaned_fields end = tt
    cleaned_fields (field key v fs) = (
      rw (sym (names_credential-is_secret key))
          (value-IsClean (names_credential key) (redact lower v) (cleaned v)),
      cleaned_fields fs,
    )

  mutual
    unfolding redact IsClean

    kept : (j : Json) → IsClean j → redact lower j ≡ j
    kept null c = refl
    kept (bool b) c = refl
    kept (number n) c = refl
    kept (text s) c = refl
    kept (array xs) c = ap array (kept_items xs c)
    kept (object fs) c = ap object (kept_fields fs c)

    kept_items : (xs : Items) → IsCleanItems xs → redact_items lower xs ≡ xs
    kept_items nil c = refl
    kept_items (cons x xs) (c, cs) = λ i. cons (kept x c i) (kept_items xs cs i)

    kept_fields : (fs : Fields) → IsCleanFields fs → redact_fields lower fs ≡ fs
    kept_fields end c = refl
    kept_fields (field key v fs) (c, cs) =
        λ i. field key (kept_value key v (redact lower v) (kept v) c i) (kept_fields fs cs i)

  -- No value below a key that has, in lower case, one of the words secret, token, password and
  -- api_key survives the redaction, at any depth, and a configuration without such values is not
  -- changed.
  pub redact-IsClean : (j : Json) → IsClean (redact lower j) × (IsClean j → redact lower j ≡ j)
  redact-IsClean j = (cleaned j, kept j)
