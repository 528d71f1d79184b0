-- ===== src/Workspace/Redact.antt =====
-- `_redact` of workspace/repository.py. `lower` is `str.lower`.
use rfi.Common.{String, Bool, ◌||◌, if◌then◌else◌}
use rfi.Common.Text.{contains}
use rfi.Workspace.State.{
  Json, Items, Fields, null, bool, number, text, array, object, nil, cons, end, field,
}

module _ (lower : String → String) where
  -- a key that is likely to name a credential
  unfoldable pub is_secret : String → Bool
  is_secret key =
      let k = lower key in
      contains "secret" k || contains "token" k || contains "password" k || contains "api_key" k

  unfoldable mutual
    pub redact : Json → Json
    redact null = null
    redact (bool b) = bool b
    redact (number n) = number n
    redact (text s) = text s
    redact (array xs) = array (redact_items xs)
    redact (object fs) = object (redact_fields fs)

    pub redact_items : Items → Items
    redact_items nil = nil
    redact_items (cons x xs) = cons (redact x) (redact_items xs)

    pub redact_fields : Fields → Fields
    redact_fields end = end
    redact_fields (field key v fs) =
        field key (if is_secret key then text "[REDACTED]" else redact v) (redact_fields fs)
