-- ===== src/Web/Users/Scopes.antt =====
-- internal/web/access_tokens.go: the scopes of an access token.
use Prim.Native.Char.{Char}
use gpuardian.Base.{
  String, Bool, not, List, [], ◌∷◌, ◌==◌, string_eq, nat_eq, if◌then◌else◌, ok, err, ◌>>=◌, any,
  trim_space, to_lower, sort_by, text_below,
}
use gpuardian.Web.Users.{Checked, unsupported_scope}

abbrev pub access_token_default_scopes : List String
access_token_default_scopes =
    "nodes:read" ∷ "reservations:write" ∷ "authorizations:write" ∷ "resources:revoke" ∷ "keys:read"
    ∷ "history:read" ∷ []

abbrev pub access_token_supported_scopes : List String
access_token_supported_scopes =
    "nodes:read" ∷ "reservations:write" ∷ "authorizations:write" ∷ "resources:revoke" ∷ "keys:read"
    ∷ "keys:reveal" ∷ "keys:rotate" ∷ "history:read" ∷ "history:write" ∷ []

abbrev pub in_list : List String → String → Bool
in_list xs x = any (λ y. y == x) xs

-- The loop over the scopes, with those that were seen.
unfoldable pub collect_scopes : (Char → Char) → List String → List String → Checked (List String)
collect_scopes lower seen [] = ok []
collect_scopes lower seen (raw ∷ scopes) =
    let scope = to_lower lower (trim_space raw) in
    let skipped = collect_scopes lower seen scopes in
    let rest = collect_scopes lower (scope ∷ seen) scopes in
    if not (in_list access_token_supported_scopes scope)
    then err unsupported_scope
    else if in_list seen scope
    then skipped
    else rest >>= λ out. ok (scope ∷ out)

abbrev pub or_default : List String → List String
or_default [] = access_token_default_scopes
or_default (s ∷ ss) = s ∷ ss

unfoldable pub normalize_access_token_scopes : (Char → Char) → List String → Checked (List String)
normalize_access_token_scopes lower scopes =
    collect_scopes lower [] (or_default scopes) >>= λ out. ok (sort_by text_below out)
