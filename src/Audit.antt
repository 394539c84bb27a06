-- ===== src/Audit.antt =====
-- audit/audit.service.ts: the audit log, and the redaction of what its metadata may not hold.
pub mod Redaction
use Prim.Native.Char.{code}
use oid.Shared.{
  ℕ, ◌+◌, String, Bool, true, false, ◌||◌, ◌&&◌, leb, Option, none, some, List, [], ◌∷◌, ◌++◌,
  if◌then◌else◌,
}
use oid.Json.{Json, str, arr, obj, Items, nil, cons, Fields, end, field}
use oid.Store.{Action, Store, modify, AuditEvent, AuditSeverity}

-- The pattern's /i: the letters A to Z match as a to z. No other character folds to ASCII.
abbrev fold_case : ℕ → ℕ
fold_case c = if leb 65 c && leb c 90 then c + 32 else c

abbrev same_letter : ℕ → ℕ → Bool
same_letter a b = leb (fold_case a) b && leb b (fold_case a)

-- The text begins with the word, in any case.
begins_with : String → String → Bool
begins_with String.[] s = true
begins_with (String.◌∷◌ w ws) String.[] = false
begins_with (String.◌∷◌ w ws) (String.◌∷◌ c s) = same_letter (code c) (code w) && begins_with ws s

-- The word stands somewhere in the text, in any case.
pub occurs : String → String → Bool
unfolding begins_with
occurs w String.[] = begins_with w String.[]
occurs w (String.◌∷◌ c s) = begins_with w (String.◌∷◌ c s) || occurs w s

-- sensitiveMetadataKeyPattern.test(key)
unfoldable pub is_sensitive : String → Bool
unfolding occurs
is_sensitive key =
    occurs "authorization" key
    || occurs "bearer" key
    || occurs "code" key
    || occurs "cookie" key
    || occurs "password" key
    || occurs "secret" key
    || occurs "token" key

abbrev pub redacted : Json
redacted = str "[REDACTED]"

-- `redactValue`: with no key on a value and on the items of an array, with the key in an object.
unfoldable mutual
  unfolding is_sensitive

  pub redact_value : Json → Json
  redact_value (arr items) = arr (redact_items items)
  redact_value (obj fields) = obj (redact_fields fields)
  redact_value v = v

  pub redact_items : Items → Items
  redact_items nil = nil
  redact_items (cons v vs) = cons (redact_value v) (redact_items vs)

  pub redact_fields : Fields → Fields
  redact_fields end = end
  redact_fields (field k v fs) =
      field k (if is_sensitive k then redacted else redact_value v) (redact_fields fs)

-- redactMetadata
abbrev pub redact_metadata : Option Json → Option Json
redact_metadata none = none
redact_metadata (some v) = some (redact_value v)

abbrev pub no_event : AuditEvent
no_event = record {
  event_type = "";
  severity = AuditSeverity.info;
  actor_user_id = none;
  target_user_id = none;
  client_id = none;
  provider_session_id = none;
  ip_address = none;
  user_agent = none;
  metadata_json = none;
}

-- `auditService.record(input)`: the event is added with its metadata redacted.
unfoldable pub record_event : AuditEvent → Action (Unit {0})
record_event input = modify (λ s. record s {
  audit_events =
      s.audit_events ++ record input { metadata_json = redact_metadata input.metadata_json } ∷ [];
})
