-- ===== src/Examples/SealingRuns.antt =====
-- A sealed text, and a recorded event.
use oid.Shared.{ℕ, List, [], ◌∷◌, ◌≡◌, refl, ◌≢◌, some, arith, All}
use oid.Json.{str, obj, end, field}
use oid.Store.{ok, unexpected}
use oid.Audit.{no_event, record_event}
use oid.Audit.Redaction.{record_event-clean, NullableIsClean}
use oid.Sealing.{seal, unseal}
use oid.Sealing.RoundTrip.{IsSealable, unseal-seal}
use oid.Examples.Host.{host, host-IsLawful}
use oid.Examples.Rows.{rows}

cons-≢-nil : (n : ℕ) (ns : List ℕ) → (n ∷ ns) ≢ []
cons-≢-nil n ns e = cc

abc-IsSealable : IsSealable host (3 ∷ 200 ∷ []) "abc"
abc-IsSealable = record {
  iv_bytes = (omega arith, (omega arith, tt));
  iv_full = cons-≢-nil _ _;
  ciphertext_bytes = (omega arith, (omega arith, (omega arith, tt)));
  ciphertext_full = cons-≢-nil _ _;
  tag_bytes = (omega arith, tt);
  tag_full = cons-≢-nil _ _;
  decrypts = refl;
  readable = refl;
}

unseal-seal_example : unseal host unexpected (seal host (3 ∷ 200 ∷ []) "abc") ≡ ok "abc"
unseal-seal_example = unseal-seal host unexpected (3 ∷ 200 ∷ []) "abc" host-IsLawful abc-IsSealable

record_event-clean_example :
    All
      (λ e. NullableIsClean e.metadata_json)
      (record_event
        (record no_event { metadata_json = some (obj (field "clientSecret" (str "abc") end)) })
        rows).1.audit_events
record_event-clean_example =
    record_event-clean
      (record no_event { metadata_json = some (obj (field "clientSecret" (str "abc") end)) }) rows
      tt
