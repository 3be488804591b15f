-- ===== src/Web/Users/Tokens/Later.antt =====
-- internal/web/users.go, access_tokens.go and user_keys.go: over every sequence of later calls a token that
-- is revoked stays so.
use Prim.Native.String.{len, ◌++◌ as text_append}
use gpuardian.Base.{
  some_injective, ℕ, ◌≡◌, refl, sym, subst, String, false, not, ◌||◌, List, [], ◌∷◌, Option, none,
  some, ◌==◌, string_eq, nat_eq, ltb, ok, err, OnOk, All, on_if, trim_space, has_prefix,
}
use gpuardian.Web.PrivateFile.{Io}
use gpuardian.Web.Users.{User, AccessToken, UserStore, Checked, with_users}
use gpuardian.Web.Users.Keys.{
  Backend, regenerate_body, initialize_fixed_keys, regenerate_fixed_key, reveal_saved, digest,
}
use gpuardian.Web.Users.Accounts.{bootstrap_admin, create, delete_user, prepare}
use gpuardian.Web.Users.Tokens.{
  is_live, TokenDraw, prepare_token, create_access_token, revoke_access_token,
  authenticate_access_token, use_token, on_users, touch_users, find_token, AuthenticatedAccessToken,
  is_due,
}
use gpuardian.Web.Users.Tokens.Lasting.{
  HasCut, change_body-Stands, confirm_body-Stands, delete_body-Stands, create_token_body-Stands,
  revoke_token_body-Stands, touch_users-All,
}
use gpuardian.Web.Users.Tokens.Renewed.{
  IsBare, prepare-IsBare, IsDrawn, prepare_token-IsDrawn, create_body-Stands, bootstrap_body-Stands,
  initialize_body-Stands, regenerate_body-Stands,
}
use gpuardian.Web.Users.Sound.{load_users-loaded}
use gpuardian.Web.Users.Standing.{
  IsStanding, save_users-IsStanding, with_users-IsStanding, given-IsStanding,
}
use gpuardian.Web.Users.History.{
  Call, perform, perform_all, bootstraps, creates, deletes, changes, confirms, initializes,
  regenerates, creates_token, revokes_token, uses_token,
}

-- Where the call makes a token, its id is drawn apart from `id`.
abbrev pub IsApart : String → Call → Type 0
IsApart id (creates_token (some draw) username name scopes expires_at) =
    (text_append "at_" draw.id == id) ≡ false
IsApart id call = Unit

module _ (name id : String) where
  use_token-IsStanding :
      (b : Backend) (io : Io) (want : String) (s : UserStore) (found : Option (User × AccessToken))
      → IsStanding (HasCut name id) s
      → IsStanding (HasCut name id) (use_token b io want s.cached.value s found).0
  unfolding use_token
  use_token-IsStanding b io want s none h = h
  use_token-IsStanding b io want s (some (u, t)) h =
      let P : UserStore × Option AuthenticatedAccessToken → Type 0 =
        λ r. IsStanding (HasCut name id) r.0 in
      on_if P (not (is_live io.now t)) _ _ (λ _. h)
        λ _.
          on_if (IsStanding (HasCut name id)) (is_due io.now t) _ _
            (λ _.
              save_users-IsStanding (HasCut name id) io b.codec
                (touch_users io.now want s.cached.value) s h
                (touch_users-All name id io.now want s.cached.value h.each))
            (λ _. h)

  authenticate-IsStanding :
      (b : Backend) (io : Io) (raw : String) (s : UserStore)
      → IsStanding (HasCut name id) s
      → IsStanding (HasCut name id) (authenticate_access_token b io raw s).0
  unfolding authenticate_access_token
  authenticate-IsStanding b io raw s h =
      let P : UserStore × Option AuthenticatedAccessToken → Type 0 =
        λ r. IsStanding (HasCut name id) r.0 in
      let want = digest b.crypto (trim_space raw) in
      on_if P (not (has_prefix (trim_space raw) "ga_") || ltb 256 (len (trim_space raw))) _ _
        (λ _. h)
        λ _.
          subst (λ r. P (on_users b io want r)) (sym (load_users-loaded io b.codec s h.loaded))
            (use_token-IsStanding b io want s (find_token want s.cached.value) h)

reveal_saved-keeps : (b : Backend) (r : UserStore × Checked User) → (reveal_saved b r).0 ≡ r.0
reveal_saved-keeps b (s, err e) = refl
reveal_saved-keeps b (s, ok u) = refl

drawn_apart :
    (b : Backend) (io : Io) (draw : Option TokenDraw) (username name id : String)
    (scopes : List String) (expires_at : ℕ) (t : AccessToken)
    → IsApart id (creates_token draw username name scopes expires_at)
    → IsDrawn draw t
    → (t.id == id) ≡ false
drawn_apart b io none username name id scopes expires_at t apart (d, e, k) = cc
drawn_apart b io (some draw) username name id scopes expires_at t apart (d, e, k) =
    let same : draw ≡ d = some_injective e in
    subst (λ i. (i == id) ≡ false) (sym k)
      (subst (λ (x : TokenDraw). (text_append "at_" x.id == id) ≡ false) same apart)

perform-IsStanding :
    (name id : String) (b : Backend) (io : Io) (call : Call) (s : UserStore)
    → IsApart id call
    → IsStanding (HasCut name id) s
    → IsStanding (HasCut name id) (perform b io call s)
unfolding perform bootstrap_admin create delete_user initialize_fixed_keys regenerate_fixed_key
    create_access_token revoke_access_token
perform-IsStanding name id b io (bootstraps salt username password) s a h =
    with_users-IsStanding (HasCut name id) io b.codec _ s
      (bootstrap_body-Stands name id b io.now salt username password) h
perform-IsStanding name id b io (creates busy salt draw username password role) s a h =
    let record_of = prepare b io.now busy salt draw username password role in
    given-IsStanding (HasCut name id) record_of s _ h λ u e.
      let bare =
        subst (OnOk IsBare) e (prepare-IsBare b io.now busy salt draw username password role) in
      with_users-IsStanding (HasCut name id) io b.codec _ s
        (λ users. create_body-Stands name id u users bare) h
perform-IsStanding name id b io (deletes username) s a h =
    given-IsStanding (HasCut name id) _ s _ h λ user _.
      with_users-IsStanding (HasCut name id) io b.codec _ s (delete_body-Stands name id io.now user)
        h
perform-IsStanding name id b io (changes user candidate hash) s a h =
    with_users-IsStanding (HasCut name id) io b.codec _ s
      (change_body-Stands name id io.now user candidate hash) h
perform-IsStanding name id b io (confirms user checked) s a h =
    with_users-IsStanding (HasCut name id) io b.codec _ s
      (confirm_body-Stands name id io.now user checked) h
perform-IsStanding name id b io (initializes aead draws) s a h =
    with_users-IsStanding (HasCut name id) io b.codec _ s
      (initialize_body-Stands name id b aead io.now draws) h
perform-IsStanding name id b io (regenerates draw username) s a h =
    given-IsStanding (HasCut name id) _ s _ h λ user _.
      subst (IsStanding (HasCut name id))
        (sym (reveal_saved-keeps b (with_users io b.codec (regenerate_body b io.now draw user) s)))
        (with_users-IsStanding (HasCut name id) io b.codec _ s
          (regenerate_body-Stands name id b io.now draw user) h)
perform-IsStanding name id b io (creates_token draw username label scopes expires_at) s a h =
    given-IsStanding (HasCut name id) _ s _ h λ user _.
      let made = prepare_token b io.now draw label scopes expires_at in
      given-IsStanding (HasCut name id) made s _ h λ token e.
        let drawn =
          subst (OnOk (IsDrawn draw)) e
            (prepare_token-IsDrawn b io.now draw label scopes expires_at) in
        with_users-IsStanding (HasCut name id) io b.codec _ s
          (λ users.
            create_token_body-Stands name id io.now user token users
              (drawn_apart b io draw username label id scopes expires_at token a drawn))
          h
perform-IsStanding name id b io (revokes_token username key) s a h =
    given-IsStanding (HasCut name id) _ s _ h λ user _.
      given-IsStanding (HasCut name id) _ s _ h λ _ _.
        with_users-IsStanding (HasCut name id) io b.codec _ s
          (revoke_token_body-Stands name id io.now user (trim_space key)) h
perform-IsStanding name id b io (uses_token secret) s a h =
    authenticate-IsStanding name id b io secret s h

-- The calls that come later keep each token with the id, of the enabled user with the name, revoked.
pub perform_all-IsStanding :
    (name id : String) (b : Backend) (calls : List (Io × Call)) (s : UserStore)
    → All (λ (c : Io × Call). IsApart id c.1) calls
    → IsStanding (HasCut name id) s
    → IsStanding (HasCut name id) (perform_all b calls s)
unfolding perform_all
perform_all-IsStanding name id b [] s a h = h
perform_all-IsStanding name id b ((io, call) ∷ calls) s a h =
    perform_all-IsStanding name id b calls (perform b io call s) a.1
      (perform-IsStanding name id b io call s a.0 h)
