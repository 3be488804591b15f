-- ===== src/Store/Tokens.antt =====
-- internal/store/store.go: making, registering and checking tokens.
pub mod Admission
pub mod Keeps
use Prim.Native.String.{◌++◌ as text_append}
use gpuardian.Base.{
  ℕ, ◌+◌, ◌*◌, String, ℤ, Bool, not, ◌&&◌, List, [], ◌∷◌, ◌++◌, Option, none, some, ◌==◌, nat_eq,
  string_eq, ltb, if◌then◌else◌, find, ok, err, ◌>>=◌, ◌>>◌, trim_space, is_empty, true, false,
}
use gpuardian.Model.{Token, State, token_mode_claimed}
use gpuardian.Store.Errors.{
  Error, Fallible, bad_duration, ttl_not_positive, ttl_too_long, token_not_found, token_revoked,
  token_expired,
}
use gpuardian.Store.Persist.{Platform, Io, Store, Plan, keep, write, transact, checked}
use gpuardian.Store.Validity.{
  token_expired as is_expired, time_is_set, normalize_token_mode, check_token_capacity,
}
use gpuardian.Store.RootKey.{with_root_key}

abbrev pub seconds : ℕ → ℕ
seconds n = n * 1000000000

abbrev pub default_token_ttl : ℕ
default_token_ttl = seconds 7200

abbrev pub max_token_ttl : ℕ
max_token_ttl = seconds 86400

abbrev pub default_hard_ttl : ℕ
default_hard_ttl = seconds 7200

abbrev pub max_hard_ttl : ℕ
max_hard_ttl = seconds 2592000

-- HashToken
abbrev pub hash_token : Platform → String → String
hash_token u token = u.sha256_hex token

unfoldable pub bounded_ttl : ℤ → ℕ → Fallible ℕ
bounded_ttl (ℤ.negsuc n) max = err ttl_not_positive
bounded_ttl (ℤ.pos n) max =
    if n == 0
    then err ttl_not_positive
    else if ltb 0 max && ltb max n
    then err ttl_too_long
    else ok n

unfoldable pub parse_ttl : Platform → String → ℕ → ℕ → Fallible ℕ
parse_ttl u value default max =
    if is_empty (trim_space value)
    then ok default
    else elim (u.parse_duration value) [ none ↦ err bad_duration | some ttl ↦ bounded_ttl ttl max ]

unfoldable pub new_token : Platform → Io → String → String → ℕ → ℕ → String × Token
new_token u io mode name expires_at now =
    let secret = text_append "gk_" (io.draw 1) in
    let trimmed = trim_space name in
    (
      secret,
      record {
        id = text_append "tok_" (io.draw 2);
        hash = hash_token u secret;
        secret = secret;
        name = if is_empty trimmed then "anonymous" else trimmed;
        mode = normalize_token_mode u mode;
        version = ℤ.pos 0;
        managed = false;
        created_at = now;
        expires_at = expires_at;
        revoked = false;
      },
    )

unfoldable pub add_token : Platform → ℕ → String × Token → State → Fallible (Plan (String × Token))
add_token u now (secret, token) s = do
  check_token_capacity u s token now
  ok (write (record s { tokens = s.tokens ++ token ∷ [] }) (secret, token))

unfoldable pub register_soft_token :
    Platform → Io → String → String → ℕ → Store → Store × Fallible (String × Token)
register_soft_token u io root_key name now =
    with_root_key io root_key
      (transact u io (add_token u now (new_token u io token_mode_claimed name 0 now)))

unfoldable pub register_token :
    Platform → Io → String → String → String → ℕ → Store → Store × Fallible (String × Token)
register_token u io root_key name ttl_text now =
    checked (parse_ttl u ttl_text default_token_ttl max_token_ttl) λ ttl.
      with_root_key io root_key
        (transact u io (add_token u now (new_token u io token_mode_claimed name (now + ttl) now)))

-- What ValidateToken makes of the first token with the hash.
unfoldable pub judge_token : Platform → ℕ → Option Token → Fallible Token
judge_token u now none = err token_not_found
judge_token u now (some token) =
    if token.revoked
    then err token_revoked
    else if time_is_set token.expires_at && not (ltb now token.expires_at)
    then err token_expired
    else ok (record token { mode = normalize_token_mode u token.mode })

unfoldable pub find_valid_token : Platform → String → ℕ → State → Fallible Token
find_valid_token u secret now s =
    judge_token u now (find (λ t. t.hash == hash_token u (trim_space secret)) s.tokens)

unfoldable pub validate_token : Platform → Io → String → ℕ → Store → Store × Fallible Token
validate_token u io secret now =
    transact u io (λ s. find_valid_token u secret now s >>= λ t. ok (keep t))

unfoldable pub is_managed_by_id : String → ℕ → Token → Bool
is_managed_by_id id now t =
    t.id == trim_space id && t.managed && not t.revoked && not (is_expired t now)

unfoldable pub managed_token_by_id : Platform → Io → String → ℕ → Store → Store × Fallible Token
managed_token_by_id u io id now = transact u io λ s.
    elim (find (is_managed_by_id id now) s.tokens) [
      | none ↦ err token_not_found
      | some t ↦ ok (keep t)
    ]

unfoldable pub managed_keys_enabled : Platform → Io → Store → Store × Fallible Bool
managed_keys_enabled u io = transact u io λ s. ok (keep s.managed_keys)
