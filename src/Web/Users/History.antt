-- ===== src/Web/Users/History.antt =====
-- internal/web/users.go, access_tokens.go and user_keys.go: however the methods are called and whatever
-- they meet, the users stay sound.
use Prim.Native.String.{len}
use gpuardian.Base.{
  ℕ, ◌≡◌, refl, sym, subst, String, Bool, not, ◌||◌, List, [], ◌∷◌, Option, none, some, string_eq,
  ok, err, OnSome, update_first, on_if, trim_space, has_prefix, ltb,
}
use gpuardian.Web.PrivateFile.{Io}
use gpuardian.Web.Passwords.{Bytes}
use gpuardian.Web.Users.{User, UserStore, Checked, with_users, AccessToken}
use gpuardian.Web.Users.Keys.{
  Backend, KeyDraw, Aead, initialize_fixed_keys, regenerate_body, regenerate_fixed_key,
  reveal_saved, given, digest,
}
use gpuardian.Web.Users.Accounts.{bootstrap_admin, create, delete_user, change_body, confirm_body}
use gpuardian.Web.Users.Tokens.{
  TokenDraw, create_access_token, revoke_access_token, authenticate_access_token, use_token,
  on_users, touch_user, touch_users, holds_hash, find_token, AuthenticatedAccessToken, or_same,
  is_live, is_due,
}
use gpuardian.Web.Users.Sound.{
  identities, IsSound, update_first-identities, IsKept, save_users-IsKept, with_users-IsKept,
  load_users-loaded,
}
use gpuardian.Web.Users.Bodies.{
  create_body-Keeps, bootstrap_body-Keeps, change_body-Keeps, confirm_body-Keeps,
  create_token_body-Keeps, revoke_token_body-Keeps, delete_body-Keeps,
}
use gpuardian.Web.Users.KeyBodies.{initialize_body-Keeps, regenerate_body-Keeps}

touch_users-identities :
    (now : ℕ) (want : String) (users : List User)
    → identities (touch_users now want users) ≡ identities users
unfolding touch_users
touch_users-identities now want users =
    go (update_first (holds_hash want) (touch_user now want) users)
      (update_first-identities (holds_hash want) (touch_user now want) (λ u. refl) users)
  where
    go :
        (o : Option (List User))
        → OnSome (λ changed. identities changed ≡ identities users) o
        → identities (or_same users o) ≡ identities users
    go none k = refl
    go (some changed) k = k

use_token-IsKept :
    (b : Backend) (io : Io) (want : String) (s : UserStore) (found : Option (User × AccessToken))
    → IsKept s
    → IsKept (use_token b io want s.cached.value s found).0
unfolding use_token
use_token-IsKept b io want s none h = h
use_token-IsKept b io want s (some (u, t)) h =
    let P : UserStore × Option AuthenticatedAccessToken → Type 0 = λ r. IsKept r.0 in
    on_if P (not (is_live io.now t)) _ _ (λ _. h)
      (λ _.
        on_if IsKept (is_due io.now t) _ _
          (λ _.
            save_users-IsKept io b.codec (touch_users io.now want s.cached.value) s h
              (subst IsSound (sym (touch_users-identities io.now want s.cached.value)) h.sound))
          (λ _. h))

authenticate_access_token-IsKept :
    (b : Backend) (io : Io) (raw : String) (s : UserStore)
    → IsKept s
    → IsKept (authenticate_access_token b io raw s).0
unfolding authenticate_access_token
authenticate_access_token-IsKept b io raw s h =
    let P : UserStore × Option AuthenticatedAccessToken → Type 0 = λ r. IsKept r.0 in
    let want = digest b.crypto (trim_space raw) in
    on_if P (not (has_prefix (trim_space raw) "ga_") || ltb 256 (len (trim_space raw))) _ _ (λ _. h)
      (λ _.
        subst (λ r. IsKept (on_users b io want r).0) (sym (load_users-loaded io b.codec s h.loaded))
          (use_token-IsKept b io want s (find_token want s.cached.value) h))

given-IsKept :
    {P A : Type 0} (r : Checked P) (s : UserStore) (section : P → UserStore × Checked A)
    → IsKept s
    → ((p : P) → IsKept (section p).0)
    → IsKept (given r s section).0
unfolding given
given-IsKept (err e) s section h k = h
given-IsKept (ok p) s section h k = k p

reveal_saved-0 : (b : Backend) (r : UserStore × Checked User) → (reveal_saved b r).0 ≡ r.0
reveal_saved-0 b (s, err e) = refl
reveal_saved-0 b (s, ok u) = refl

-- One call that may change the users. Of the two methods that check a password, the section that
-- writes, with whatever was checked before it.
pub data Call : Type 0 where
  bootstraps : Option Bytes → String → String → Call
  creates : Bool → Option Bytes → Option KeyDraw → String → String → String → Call
  deletes : String → Call
  changes : String → User → String → Call
  confirms : String → User × Option String → Call
  initializes : Aead → (ℕ → Option KeyDraw) → Call
  regenerates : Option KeyDraw → String → Call
  creates_token : Option TokenDraw → String → String → List String → ℕ → Call
  revokes_token : String → String → Call
  uses_token : String → Call

unfoldable pub perform : Backend → Io → Call → UserStore → UserStore
perform b io (bootstraps salt username password) s =
    (bootstrap_admin b io salt username password s).0
perform b io (creates busy salt draw username password role) s =
    (create b io busy salt draw username password role s).0
perform b io (deletes username) s = (delete_user b io username s).0
perform b io (changes name candidate hash) s =
    (with_users io b.codec (change_body io.now name candidate hash) s).0
perform b io (confirms name checked) s =
    (with_users io b.codec (confirm_body io.now name checked) s).0
perform b io (initializes aead draws) s = (initialize_fixed_keys b io aead draws s).0
perform b io (regenerates draw username) s = (regenerate_fixed_key b io draw username s).0
perform b io (creates_token draw username name scopes expires_at) s =
    (create_access_token b io draw username name scopes expires_at s).0
perform b io (revokes_token username id) s = (revoke_access_token b io username id s).0
perform b io (uses_token secret) s = (authenticate_access_token b io secret s).0

unfoldable pub perform_all : Backend → List (Io × Call) → UserStore → UserStore
perform_all b [] s = s
perform_all b ((io, call) ∷ calls) s = perform_all b calls (perform b io call s)

perform-IsKept :
    (b : Backend) (io : Io) (call : Call) (s : UserStore) → IsKept s → IsKept (perform b io call s)
unfolding perform bootstrap_admin create delete_user initialize_fixed_keys regenerate_fixed_key
    create_access_token revoke_access_token
perform-IsKept b io (bootstraps salt username password) s h =
    with_users-IsKept io b.codec _ s (bootstrap_body-Keeps b io.now salt username password) h
perform-IsKept b io (creates busy salt draw username password role) s h =
    given-IsKept _ s _ h λ u. with_users-IsKept io b.codec _ s (create_body-Keeps u) h
perform-IsKept b io (deletes username) s h =
    given-IsKept _ s _ h λ name. with_users-IsKept io b.codec _ s (delete_body-Keeps io.now name) h
perform-IsKept b io (changes name candidate hash) s h =
    with_users-IsKept io b.codec _ s (change_body-Keeps io.now name candidate hash) h
perform-IsKept b io (confirms name checked) s h =
    with_users-IsKept io b.codec _ s (confirm_body-Keeps io.now name checked) h
perform-IsKept b io (initializes aead draws) s h =
    with_users-IsKept io b.codec _ s (initialize_body-Keeps b aead io.now draws) h
perform-IsKept b io (regenerates draw username) s h = given-IsKept _ s _ h λ name.
    subst IsKept
      (sym (reveal_saved-0 b (with_users io b.codec (regenerate_body b io.now draw name) s)))
      (with_users-IsKept io b.codec _ s (regenerate_body-Keeps b io.now draw name) h)
perform-IsKept b io (creates_token draw username name scopes expires_at) s h =
    given-IsKept _ s _ h λ user.
      given-IsKept _ s _ h
        λ token. with_users-IsKept io b.codec _ s (create_token_body-Keeps io.now user token) h
perform-IsKept b io (revokes_token username id) s h = given-IsKept _ s _ h λ name.
    given-IsKept _ s _ h
      λ _. with_users-IsKept io b.codec _ s (revoke_token_body-Keeps io.now name _) h
perform-IsKept b io (uses_token secret) s h = authenticate_access_token-IsKept b io secret s h

-- Whatever is called in whatever order, and whatever fails on the way: in a store that has loaded them,
-- the users stay at most 256, no two of them share a name, deleted ones included, and one of them is
-- an administrator who is not deleted.
pub perform_all-IsKept :
    (b : Backend) (calls : List (Io × Call)) (s : UserStore)
    → IsKept s
    → IsKept (perform_all b calls s)
unfolding perform_all
perform_all-IsKept b [] s h = h
perform_all-IsKept b ((io, call) ∷ calls) s h =
    perform_all-IsKept b calls (perform b io call s) (perform-IsKept b io call s h)
