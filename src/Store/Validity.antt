-- ===== src/Store/Validity.antt =====
-- internal/store/store.go: when a token or an authorization is live, how names and modes are
-- normalised, and the limits on live rows.
pub mod Capacity
use gpuardian.Base.{
  ℕ, String, Bool, not, ◌&&◌, List, [], ◌∷◌, ◌==◌, nat_eq, string_eq, ltb, leb, if◌then◌else◌,
  count_if, ok, ◌>>=◌, ◌>>◌, refuse_if, trim_space, is_empty, to_lower, length, true, false,
}
use gpuardian.Model.{Token, Authorization, State, token_mode_claimed}
use gpuardian.Store.Errors.{Error, Fallible, holder_limit, authorization_limit}
use gpuardian.Store.Bounds.{check_total_capacity, max_total_tokens, max_total_authorizations}
use gpuardian.Store.Persist.{Platform}

abbrev pub max_active_tokens_per_holder : ℕ
max_active_tokens_per_holder = 8

abbrev pub max_active_authorizations_per_token : ℕ
max_active_authorizations_per_token = 64

unfoldable pub time_is_set : ℕ → Bool
time_is_set value = not (value == 0)

unfoldable pub token_expired : Token → ℕ → Bool
unfolding time_is_set
token_expired token now = time_is_set token.expires_at && not (ltb now token.expires_at)

unfoldable pub token_active_at : Token → ℕ → Bool
token_active_at token now = not token.revoked && not (token_expired token now)

unfoldable pub authorization_expired : Authorization → ℕ → Bool
unfolding time_is_set
authorization_expired a now = time_is_set a.expires_at && not (ltb now a.expires_at)

unfoldable pub authorization_active_at : Authorization → ℕ → Bool
authorization_active_at a now = a.active && not a.revoked && not (authorization_expired a now)

unfoldable pub normalize_holder : Platform → String → String
normalize_holder u holder =
    let name = to_lower u.lower_beyond (trim_space holder) in
    if is_empty name then "anonymous" else name

unfoldable pub normalize_token_mode : Platform → String → String
normalize_token_mode u mode =
    let name = trim_space (to_lower u.lower_beyond mode) in
    if is_empty name then token_mode_claimed else name

abbrev pub holder_is_active : Platform → String → ℕ → Token → Bool
holder_is_active u holder now token =
    token_active_at token now && normalize_holder u token.name == holder

unfoldable pub check_token_capacity : Platform → State → Token → ℕ → Fallible (Unit {0})
check_token_capacity u s candidate now = do
  check_total_capacity "token" (length s.tokens) 1 max_total_tokens
  if not (token_active_at candidate now)
      then ok tt
      else let holder = normalize_holder u candidate.name in
        refuse_if
          (leb max_active_tokens_per_holder (count_if (holder_is_active u holder now) s.tokens))
          (holder_limit holder)

abbrev pub counts_for : Authorization → ℕ → Authorization → Bool
counts_for candidate now a = a.token_hash == candidate.token_hash && authorization_active_at a now

-- `others` are the rows at an index other than excludeIndex: all of them for -1.
unfoldable pub check_active_authorization_capacity :
    List Authorization → Authorization → ℕ → Fallible (Unit {0})
check_active_authorization_capacity others candidate now =
    if not (authorization_active_at candidate now)
    then ok tt
    else refuse_if
        (leb max_active_authorizations_per_token (count_if (counts_for candidate now) others))
        authorization_limit
