-- ===== src/Audit/Redaction.antt =====
-- What redaction leaves of audit metadata.
use oid.Shared.{◌≡◌, refl, true, inl, inr, Bool-cases, Option, none, some, All, List, [], ◌∷◌, ◌++◌}
use oid.Store.{Store, AuditEvent}
use oid.Json.{Json, null, bool, num, str, arr, obj, Items, nil, cons, Fields, end, field}
use oid.Audit.{
  redact_value, redact_items, redact_fields, is_sensitive, redacted, redact_metadata, record_event,
}

-- No field under a sensitive key holds anything but the mark, at any depth.
abbrev mutual
  pub IsClean : Json → Type 0
  IsClean (arr items) = AreClean items
  IsClean (obj fields) = FieldsClean fields
  IsClean v = Unit

  pub AreClean : Items → Type 0
  AreClean nil = Unit
  AreClean (cons v vs) = IsClean v × AreClean vs

  pub FieldsClean : Fields → Type 0
  FieldsClean end = Unit
  FieldsClean (field k v fs) = (is_sensitive k ≡ true → v ≡ redacted) × IsClean v × FieldsClean fs

abbrev pub NullableIsClean : Option Json → Type 0
NullableIsClean none = Unit
NullableIsClean (some v) = IsClean v

mutual
  unfolding redact_value

  redact_value-IsClean : (v : Json) → IsClean (redact_value v)
  redact_value-IsClean (arr items) = redact_items-AreClean items
  redact_value-IsClean (obj fields) = redact_fields-FieldsClean fields
  redact_value-IsClean null = tt
  redact_value-IsClean (bool b) = tt
  redact_value-IsClean (num n) = tt
  redact_value-IsClean (str s) = tt

  redact_items-AreClean : (vs : Items) → AreClean (redact_items vs)
  redact_items-AreClean nil = tt
  redact_items-AreClean (cons v vs) = (redact_value-IsClean v, redact_items-AreClean vs)

  redact_fields-FieldsClean : (fs : Fields) → FieldsClean (redact_fields fs)
  redact_fields-FieldsClean end = tt
  redact_fields-FieldsClean (field k v fs) = elim (Bool-cases (is_sensitive k)) [
    | inl e ↦ rw e (λ _. refl, tt, redact_fields-FieldsClean fs)
    | inr e ↦ rw e ((λ t. cc), redact_value-IsClean v, redact_fields-FieldsClean fs)
  ]

redact_metadata-NullableIsClean : (m : Option Json) → NullableIsClean (redact_metadata m)
redact_metadata-NullableIsClean none = tt
redact_metadata-NullableIsClean (some v) = redact_value-IsClean v

All-append :
    (P : AuditEvent → Type 0) (events : List AuditEvent) (e : AuditEvent)
    → All P events
    → P e
    → All P (events ++ e ∷ [])
All-append P [] e h h' = (h', tt)
All-append P (x ∷ events) e (h, hs) h' = (h, All-append P events e hs h')

-- If no event of the audit log shows a value under a sensitive key, at any depth of its metadata,
-- then neither does one after any event is recorded.
pub record_event-clean :
    (input : AuditEvent) (s : Store)
    → All (λ e. NullableIsClean e.metadata_json) s.audit_events
    → All (λ e. NullableIsClean e.metadata_json) (record_event input s).1.audit_events
unfolding record_event
record_event-clean input s h =
    All-append (λ e. NullableIsClean e.metadata_json) s.audit_events _ h
      (redact_metadata-NullableIsClean input.metadata_json)
