-- ===== src/Web/Users/Tokens/Lasting.antt =====
-- internal/web/access_tokens.go: a token that is revoked stays so, whatever methods of the users are called
-- next.
use gpuardian.Base.{
  ℕ, ◌-◌, ◌≡◌, sym, ◌∙◌, subst, String, true, false, not, ◌&&◌, List, [], ◌∷◌, ◌++◌, Option, none,
  some, ◌==◌, string_eq, nat_eq, ltb, leb, length, ◌>>◌, OnOk, OnOk->>=, OnOk->>, OnSome, or_fail,
  or_fail-ok, refuse_if, find, find-some, count_if, keep_if, update_first, All, All-append,
  All-keep_if, on_if, arith,
}
use gpuardian.Web.Requests.{role_admin}
use gpuardian.Web.Users.{
  User, AccessToken, is_active_named, user_not_found, last_admin, invalid_password,
  invalid_credentials, too_many_tokens, token_not_found, PublicUser,
}
use gpuardian.Web.Users.Keys.Named.{active_name}
use gpuardian.Web.Users.Accounts.{
  delete_body, change_body, confirm_body, keep_or_put, put_hash, with_hash, retire, has_username,
  is_active_admin, is_same_record,
}
use gpuardian.Web.Users.Tokens.{
  create_token_body, revoke_token_body, with_tokens, compact_access_tokens, drop_inactive,
  access_token_max_per_user, access_token_max_stored, is_live, is_stale, revoke_at, touch,
  touch_user, touch_users, holds_hash, or_same,
}
use gpuardian.Web.Users.Tokens.Cut.{IsCut, revoke_at-is_revoked}
use gpuardian.Web.Users.Standing.{Stands, update_first-All, find-All, saved-Stands}

-- Where the user has the name and is enabled, each of its tokens with the id is revoked.
abbrev pub HasCut : String → String → User → Type 0
HasCut name id u = is_active_named name u ≡ true → IsCut id u.access_tokens

drop_inactive-IsCut :
    (id : String) (now drop : ℕ) (ts : List AccessToken)
    → IsCut id ts
    → IsCut id (drop_inactive now drop ts)
unfolding drop_inactive
drop_inactive-IsCut id now drop [] h = tt
drop_inactive-IsCut id now drop (t ∷ ts) h =
    on_if (IsCut id) (ltb 0 drop && not (is_live now t)) _ _
      (λ _. drop_inactive-IsCut id now (drop - 1) ts h.1)
      (λ _. (h.0, drop_inactive-IsCut id now drop ts h.1))

compact-IsCut :
    (id : String) (now : ℕ) (ts : List AccessToken)
    → IsCut id ts
    → IsCut id (compact_access_tokens now ts)
unfolding compact_access_tokens
compact-IsCut id now ts h =
    let kept = All-keep_if _ (λ t. not (is_stale now t)) ts h in
    on_if (IsCut id) (ltb (length (keep_if (λ t. not (is_stale now t)) ts)) access_token_max_stored)
      _ _ (λ _. kept) (λ _. drop_inactive-IsCut id now _ _ kept)

or_same-All :
    {A : Type 0} (P : A → Type 0) (xs : List A) (o : Option (List A))
    → All P xs
    → OnSome (All P) o
    → All P (or_same xs o)
or_same-All P xs none h k = h
or_same-All P xs (some ys) h k = k

module _ (name id : String) where
  -- A list of tokens that is given to the user found is fit for whoever it is written to.
  given_tokens :
      (user : String) (u v : User) (tokens : List AccessToken)
      → is_active_named user u ≡ true
      → is_active_named user v ≡ true
      → (is_active_named name u ≡ true → IsCut id tokens)
      → HasCut name id (with_tokens tokens v)
  given_tokens user u v tokens e f h k =
      let same : name ≡ user = sym (active_name name v k) ∙ active_name user v f in
      h (subst (λ n. is_active_named n u ≡ true) (sym same) e)

  pub put_hash-Stands :
      (now : ℕ) (user hash : String) (u : User) (users : List User)
      → All (HasCut name id) users
      → OnOk (Stands (HasCut name id)) (put_hash now user hash u users)
  unfolding put_hash
  put_hash-Stands now user hash u users h =
      saved-Stands (HasCut name id) (update_first (is_active_named user) (with_hash now hash) users)
        _ user_not_found
        (update_first-All (HasCut name id) (is_active_named user) (with_hash now hash) (λ x _ k. k)
          users h)

  pub change_body-Stands :
      (now : ℕ) (user : String) (candidate : User) (hash : String) (users : List User)
      → All (HasCut name id) users
      → OnOk (Stands (HasCut name id)) (change_body now user candidate hash users)
  unfolding change_body
  change_body-Stands now user candidate hash users h =
      let P = Stands (HasCut name id) {A = PublicUser} in
      OnOk->>= P (or_fail (find (is_active_named user) users) user_not_found) _ λ u _.
        OnOk->> P (refuse_if (not (is_same_record u candidate)) invalid_password) _
          λ _. put_hash-Stands now user hash u users h

  pub confirm_body-Stands :
      (now : ℕ) (user : String) (checked : User × Option String) (users : List User)
      → All (HasCut name id) users
      → OnOk (Stands (HasCut name id)) (confirm_body now user checked users)
  unfolding confirm_body keep_or_put
  confirm_body-Stands now user (candidate, none) users h =
      let P = Stands (HasCut name id) {A = PublicUser} in
      OnOk->>= P (or_fail (find (is_active_named user) users) invalid_credentials) _ λ u _.
        OnOk->> P (refuse_if (not (is_same_record u candidate)) invalid_credentials) _ λ _. tt
  confirm_body-Stands now user (candidate, some hash) users h =
      let P = Stands (HasCut name id) {A = PublicUser} in
      OnOk->>= P (or_fail (find (is_active_named user) users) invalid_credentials) _ λ u _.
        OnOk->> P (refuse_if (not (is_same_record u candidate)) invalid_credentials) _
          λ _. put_hash-Stands now user hash u users h

  pub delete_body-Stands :
      (now : ℕ) (user : String) (users : List User)
      → All (HasCut name id) users
      → OnOk (Stands (HasCut name id)) (delete_body now user users)
  unfolding delete_body
  delete_body-Stands now user users h =
      let P = Stands (HasCut name id) {A = Unit {0}} in
      OnOk->>= P (or_fail (find (has_username user) users) user_not_found) _ λ u _.
        OnOk->> P
          (refuse_if u.disabled user_not_found
            >> refuse_if (u.role == role_admin && (count_if is_active_admin users == 1)) last_admin)
          _
          λ _.
            saved-Stands (HasCut name id) (update_first (has_username user) (retire now) users) tt
              user_not_found
              (update_first-All (HasCut name id) (has_username user) (retire now) (λ x _ _ _. tt)
                users h)

  pub create_token_body-Stands :
      (now : ℕ) (user : String) (token : AccessToken) (users : List User)
      → (token.id == id) ≡ false
      → All (HasCut name id) users
      → OnOk (Stands (HasCut name id)) (create_token_body now user token users)
  unfolding create_token_body
  create_token_body-Stands now user token users new h =
      let P = Stands (HasCut name id) {A = AccessToken} in
      OnOk->>= P (or_fail (find (is_active_named user) users) user_not_found) _ λ u e.
        let found = or_fail-ok _ user_not_found e in
        let active = find-some (is_active_named user) u users found in
        let cut = find-All (HasCut name id) (is_active_named user) u users found h in
        let kept = compact_access_tokens now u.access_tokens in
        let fresh : IsCut id (token ∷ []) = (λ k. absurd (ground (arith, new, k)), tt) in
        OnOk->> P
          (refuse_if (leb access_token_max_per_user (count_if (is_live now) kept)) too_many_tokens)
          _
          λ _.
            saved-Stands (HasCut name id)
              (update_first (is_active_named user) (with_tokens (kept ++ token ∷ [])) users) token
              user_not_found
              (update_first-All (HasCut name id) (is_active_named user)
                (with_tokens (kept ++ token ∷ []))
                (λ x f _. given_tokens user u x (kept ++ token ∷ []) active f λ k.
                  All-append _ kept (token ∷ []) (compact-IsCut id now u.access_tokens (cut k))
                    fresh)
                users h)

  pub revoke_token_body-Stands :
      (now : ℕ) (user key : String) (users : List User)
      → All (HasCut name id) users
      → OnOk (Stands (HasCut name id)) (revoke_token_body now user key users)
  unfolding revoke_token_body
  revoke_token_body-Stands now user key users h =
      let P = Stands (HasCut name id) {A = Unit {0}} in
      OnOk->>= P (or_fail (find (is_active_named user) users) user_not_found) _ λ u e.
        let found = or_fail-ok _ user_not_found e in
        let active = find-some (is_active_named user) u users found in
        let cut = find-All (HasCut name id) (is_active_named user) u users found h in
        let change = update_first (λ t. t.id == key) (revoke_at now) u.access_tokens in
        OnOk->>= P (or_fail change token_not_found) _ λ tokens g.
          let still : is_active_named name u ≡ true → IsCut id tokens = λ k.
            subst (OnSome (IsCut id)) (or_fail-ok change token_not_found g) (
              update_first-All _ (λ t. t.id == key) (revoke_at now)
                (λ t _ _ _. revoke_at-is_revoked now t) u.access_tokens (cut k)) in
          saved-Stands (HasCut name id)
            (update_first (is_active_named user) (with_tokens tokens) users) tt user_not_found
            (update_first-All (HasCut name id) (is_active_named user) (with_tokens tokens)
              (λ x f _. given_tokens user u x tokens active f still) users h)

  pub touch_users-All :
      (now : ℕ) (want : String) (users : List User)
      → All (HasCut name id) users
      → All (HasCut name id) (touch_users now want users)
  unfolding touch_users
  touch_users-All now want users h =
      or_same-All (HasCut name id) users
        (update_first (holds_hash want) (touch_user now want) users) h
        (update_first-All (HasCut name id) (holds_hash want) (touch_user now want)
          (λ u _ cut k.
            or_same-All _ u.access_tokens
              (update_first (λ t. t.hash == want) (touch now) u.access_tokens) (cut k)
              (update_first-All _ (λ t. t.hash == want) (touch now) (λ t _ r. r) u.access_tokens
                (cut k)))
          users h)
