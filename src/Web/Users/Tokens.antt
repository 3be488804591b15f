-- ===== src/Web/Users/Tokens.antt =====
-- internal/web/access_tokens.go: the access tokens of a user, their limits and their use.
pub mod Admission
pub mod Cut
pub mod Lasting
pub mod Later
pub mod Renewed
pub mod Revoked
use Prim.Native.Char.{Char}
use Prim.Native.String.{len, ◌++◌ as text_append}
use gpuardian.Base.{
  ℕ, suc, ◌+◌, ◌-◌, ◌*◌, String, Bool, true, false, not, ◌&&◌, ◌||◌, List, [], ◌∷◌, ◌++◌, Option,
  none, some, ◌==◌, string_eq, nat_eq, ltb, leb, if◌then◌else◌, length, Result, ok, err, ◌>>=◌,
  ◌>>◌, or_fail, refuse_if, any, find, keep_if, count_if, map, update_first, trim_space, to_lower,
  is_empty, has_prefix, sort_by, text_below,
}
use gpuardian.Web.PrivateFile.{Io}
use gpuardian.Web.Passwords.{Crypto}
use gpuardian.Web.Users.{
  User, AccessToken, UserStore, UserError, Checked, Outcome, keep, save, with_users, load_users,
  save_users, normalize_username, is_active_named, user_not_found, token_name_required,
  token_name_too_long, unsupported_scope, expiry_past, expiry_far, too_many_tokens,
  token_id_required, token_not_found, no_randomness,
}
use gpuardian.Web.Users.Keys.{Backend, digest, given}
use gpuardian.Web.Users.Scopes.{normalize_access_token_scopes}

abbrev pub access_token_max_name_bytes : ℕ
access_token_max_name_bytes = 80

abbrev pub access_token_max_per_user : ℕ
access_token_max_per_user = 32

abbrev pub access_token_max_stored : ℕ
access_token_max_stored = 128

abbrev pub day : ℕ
day = 86_400_000_000_000

abbrev pub access_token_max_days : ℕ
access_token_max_days = 365

abbrev pub access_token_last_used_write_interval : ℕ
access_token_last_used_write_interval = 300_000_000_000

abbrev pub access_token_inactive_retention : ℕ
access_token_inactive_retention = 90 * day

-- The id and the secret of a new token, from random bytes.
pub record TokenDraw : Type 0 where
  pub id : String
  pub secret : String

abbrev pub is_revoked : AccessToken → Bool
is_revoked t = elim t.revoked_at [ none ↦ false | some at ↦ true ]

abbrev pub is_live : ℕ → AccessToken → Bool
is_live now t = not (is_revoked t) && ltb now t.expires_at

abbrev pub inactive_at : AccessToken → ℕ
inactive_at t = elim t.revoked_at [ none ↦ t.expires_at | some at ↦ at ]

-- Inactive for longer than the retention.
abbrev pub is_stale : ℕ → AccessToken → Bool
is_stale now t = not (is_live now t) && ltb access_token_inactive_retention (now - inactive_at t)

-- The second loop of compactAccessTokens: the first `drop` inactive tokens go.
unfoldable pub drop_inactive : ℕ → ℕ → List AccessToken → List AccessToken
drop_inactive now drop [] = []
drop_inactive now drop (t ∷ ts) =
    let fewer = drop_inactive now (drop - 1) ts in
    let rest = drop_inactive now drop ts in
    if ltb 0 drop && not (is_live now t) then fewer else t ∷ rest

unfoldable pub compact_access_tokens : ℕ → List AccessToken → List AccessToken
compact_access_tokens now tokens =
    let kept = keep_if (λ t. not (is_stale now t)) tokens in
    if ltb (length kept) access_token_max_stored
    then kept
    else drop_inactive now (length kept - (access_token_max_stored - 1)) kept

abbrev pub new_token : Crypto → TokenDraw → String → List String → ℕ → ℕ → AccessToken
new_token c draw name scopes now expires_at = record {
  id = text_append "at_" draw.id;
  name = name;
  hash = digest c (text_append "ga_" draw.secret);
  scopes = scopes;
  created_at = now;
  expires_at = expires_at;
  last_used_at = none;
  revoked_at = none;
}

-- What CreateAccessToken does before it takes the lock.
unfoldable pub prepare_token :
    Backend → ℕ → Option TokenDraw → String → List String → ℕ → Checked AccessToken
prepare_token b now draw raw_name raw_scopes expires_at =
    let name = trim_space raw_name in
    refuse_if (is_empty name) token_name_required
    >> refuse_if (ltb access_token_max_name_bytes (len name)) token_name_too_long
    >> (normalize_access_token_scopes b.lower raw_scopes >>= λ scopes.
        refuse_if (not (ltb now expires_at)) expiry_past
        >> refuse_if (ltb (now + access_token_max_days * day) expires_at) expiry_far
        >> (or_fail draw no_randomness >>= λ d.
            ok (new_token b.crypto d name scopes now expires_at)))

abbrev pub with_tokens : List AccessToken → User → User
with_tokens tokens u = record u { access_tokens = tokens }

unfoldable pub create_token_body :
    ℕ → String → AccessToken → List User → Checked (Outcome AccessToken)
create_token_body now name token users =
    or_fail (find (is_active_named name) users) user_not_found >>= λ u.
    let tokens = compact_access_tokens now u.access_tokens in
    refuse_if (leb access_token_max_per_user (count_if (is_live now) tokens)) too_many_tokens
    >> (or_fail (update_first (is_active_named name) (with_tokens (tokens ++ token ∷ [])) users)
          user_not_found
        >>= λ changed. ok (save changed token))

-- CreateAccessToken; the caller gets the record and the secret that was drawn.
unfoldable pub create_access_token :
    Backend
    → Io
    → Option TokenDraw
    → String
    → String
    → List String
    → ℕ
    → UserStore
    → UserStore × Checked AccessToken
create_access_token b io draw username name scopes expires_at s =
    given (normalize_username b.lower username) s λ user.
      given (prepare_token b io.now draw name scopes expires_at) s
        λ token. with_users io b.codec (create_token_body io.now user token) s

unfoldable pub list_access_tokens :
    Backend → Io → String → UserStore → UserStore × Checked (List AccessToken)
list_access_tokens b io username s = given (normalize_username b.lower username) s λ name.
    with_users io b.codec
      (λ users. or_fail (find (is_active_named name) users) user_not_found >>= λ u.
        ok (keep (sort_by (λ (t o : AccessToken). ltb o.created_at t.created_at) u.access_tokens)))
      s

abbrev pub or_now : ℕ → Option ℕ → Option ℕ
or_now now none = some now
or_now now (some at) = some at

abbrev pub revoke_at : ℕ → AccessToken → AccessToken
revoke_at now t = record t { revoked_at = or_now now t.revoked_at }

unfoldable pub revoke_token_body : ℕ → String → String → List User → Checked (Outcome (Unit {0}))
revoke_token_body now name id users =
    or_fail (find (is_active_named name) users) user_not_found >>= λ u.
    or_fail (update_first (λ t. t.id == id) (revoke_at now) u.access_tokens) token_not_found
    >>= λ tokens.
        or_fail (update_first (is_active_named name) (with_tokens tokens) users) user_not_found
        >>= λ changed. ok (save changed tt)

unfoldable pub revoke_access_token :
    Backend → Io → String → String → UserStore → UserStore × Checked (Unit {0})
revoke_access_token b io username raw_id s =
    let id = trim_space raw_id in
    given (normalize_username b.lower username) s λ name.
      given (refuse_if (is_empty id) token_id_required) s
        λ _. with_users io b.codec (revoke_token_body io.now name id) s

pub record AuthenticatedAccessToken : Type 0 where
  pub user : String
  pub role : String
  pub id : String
  pub scopes : List String

abbrev pub authenticated : User → AccessToken → AuthenticatedAccessToken
authenticated u t = record { user = u.username; role = u.role; id = t.id; scopes = t.scopes }

abbrev pub holds_hash : String → User → Bool
holds_hash want u = not u.disabled && any (λ t. t.hash == want) u.access_tokens

-- The first token with the hash among the users that are not disabled.
unfoldable pub find_token : String → List User → Option (User × AccessToken)
find_token want [] = none
find_token want (u ∷ us) =
    let others = find_token want us in
    if u.disabled
    then others
    else elim (find (λ t. t.hash == want) u.access_tokens) [ some t ↦ some (u, t) | none ↦ others ]

abbrev pub is_due : ℕ → AccessToken → Bool
is_due now t = elim t.last_used_at [
  | none ↦ true
  | some at ↦ leb access_token_last_used_write_interval (now - at)
]

abbrev pub touch : ℕ → AccessToken → AccessToken
touch now t = record t { last_used_at = some now }

abbrev pub or_same : {A : Type 0} → A → Option A → A
or_same a none = a
or_same a (some b) = b

abbrev pub touch_user : ℕ → String → User → User
touch_user now want u =
    with_tokens
      (or_same u.access_tokens (update_first (λ t. t.hash == want) (touch now) u.access_tokens)) u

-- The users with the time of use written at the token that was found.
unfoldable pub touch_users : ℕ → String → List User → List User
touch_users now want users =
    or_same users (update_first (holds_hash want) (touch_user now want) users)

unfoldable pub use_token :
    Backend
    → Io
    → String
    → List User
    → UserStore
    → Option (User × AccessToken)
    → UserStore × Option AuthenticatedAccessToken
use_token b io want users s none = (s, none)
use_token b io want users s (some (u, t)) = if not (is_live io.now t) then (s, none) else (
  if is_due io.now t then (save_users io b.codec (touch_users io.now want users) s).0 else s,
  some (authenticated u t),
)

abbrev pub on_users :
    Backend
    → Io
    → String
    → UserStore × Checked (List User)
    → UserStore × Option AuthenticatedAccessToken
on_users b io want (s, err e) = (s, none)
on_users b io want (s, ok users) = use_token b io want users s (find_token want users)

-- AuthenticateAccessToken: a save that fails is not reported.
unfoldable pub authenticate_access_token :
    Backend → Io → String → UserStore → UserStore × Option AuthenticatedAccessToken
authenticate_access_token b io raw s =
    let secret = trim_space raw in
    if not (has_prefix secret "ga_") || ltb 256 (len secret)
    then (s, none)
    else on_users b io (digest b.crypto secret) (load_users io b.codec s)
