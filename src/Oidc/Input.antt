-- ===== src/Oidc/Input.antt =====
-- The normalisers of request fields in oidc/oidc-token.service.ts and
-- oidc/oidc-authorization.service.ts.
use oid.Shared.{String, Option, none, some, is_empty, trim, concat, if◌then◌else◌}
use oid.Store.{Result, ok, err, bad_request}

-- `value?.trim() ?? ''`
abbrev pub trimmed : Option String → String
trimmed none = ""
trimmed (some v) = trim v

unfoldable pub normalize_required : Option String → String → Result String
normalize_required value field_name =
    if is_empty (trimmed value)
    then err (bad_request (concat field_name " is required."))
    else ok (trimmed value)

unfoldable pub normalize_optional : Option String → Option String
normalize_optional value = if is_empty (trimmed value) then none else some (trimmed value)
