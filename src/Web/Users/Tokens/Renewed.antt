-- ===== src/Web/Users/Tokens/Renewed.antt =====
-- internal/web/users.go and user_keys.go: new records and new keys leave a token that is revoked so.
use Prim.Native.String.{len, ◌++◌ as text_append}
use gpuardian.Base.{
  ℕ, suc, ◌≡◌, refl, sym, subst, String, Bool, true, false, not, ◌&&◌, List, [], ◌∷◌, Option, none,
  some, ◌==◌, string_eq, nat_eq, ltb, leb, if◌then◌else◌, length, ℤ, ◌>>◌, OnOk, OnOk->>=, OnOk->>,
  or_fail, or_fail-ok, refuse_if, find, update_first, All, All-append, on_if, trim_space, is_empty,
  any, ◌+◌, ◌*◌,
}
use gpuardian.Web.Requests.{role_admin}
use gpuardian.Web.Passwords.{Bytes, hash_password, validate_password}
use gpuardian.Web.Users.{
  User, AccessToken, is_active_named, normalize_username, username_in_use, user_limit_reached,
  user_not_found, PublicUser, max_users, no_randomness, expiry_past, expiry_far,
  token_name_required, token_name_too_long, password_work_busy,
}
use gpuardian.Web.Users.Keys.{
  Backend, KeyDraw, Aead, assign, reveal, initialize_one, initialize_all, initialize_body,
  regenerate_body, next_version,
}
use gpuardian.Web.Users.Accounts.{
  bootstrap_body, create_body, has_username, prepare, new_user_record, of_password, assign_if,
}
use gpuardian.Web.Users.Tokens.{
  access_token_max_name_bytes, access_token_max_days, day, TokenDraw, prepare_token,
}
use gpuardian.Web.Users.Tokens.Cut.{IsCut}
use gpuardian.Web.Users.Tokens.Lasting.{HasCut}
use gpuardian.Web.Users.Scopes.{normalize_access_token_scopes}
use gpuardian.Web.Users.Standing.{Stands, update_first-All, find-All, saved-Stands}

-- A record that has no tokens.
abbrev pub IsBare : User → Type 0
IsBare u = u.access_tokens ≡ []

new_user_record-IsBare :
    (b : Backend) (now : ℕ) (salt : Option Bytes) (username password role : String)
    → OnOk IsBare (new_user_record b now salt username password role)
unfolding new_user_record
new_user_record-IsBare b now salt username password role =
    OnOk->>= IsBare (normalize_username b.lower username) _ λ name _.
      OnOk->> IsBare (of_password (validate_password password)) _
        λ _. OnOk->>= IsBare (of_password (hash_password b.crypto salt password)) _ λ hash _. refl

-- A new key leaves the tokens, the name and whether the record is disabled.
assign-kept :
    (P : User → Type 0) (b : Backend) (aead : Option Aead) (now : ℕ) (draw : Option KeyDraw)
    (version : ℤ) (u : User)
    → ((key : User)
        → key.access_tokens ≡ u.access_tokens
        → key.username ≡ u.username
        → key.disabled ≡ u.disabled
        → P key)
    → OnOk P (assign b.crypto aead now draw version u)
unfolding assign
assign-kept P b none now draw version u k = tt
assign-kept P b (some aead) now none version u k = tt
assign-kept P b (some aead) now (some draw) version u k = k _ refl refl refl

assign_if-IsBare :
    (b : Backend) (now : ℕ) (draw : Option KeyDraw) (aead : Option Aead) (u : User)
    → IsBare u
    → OnOk IsBare (assign_if b now draw aead u)
assign_if-IsBare b now draw none u h = h
assign_if-IsBare b now draw (some aead) u h =
    assign-kept IsBare b (some aead) now draw (ℤ.pos 1) u
      (λ v e _ _. subst (λ ts. ts ≡ []) (sym e) h)

pub prepare-IsBare :
    (b : Backend) (now : ℕ) (busy : Bool) (salt : Option Bytes) (draw : Option KeyDraw)
    (username password role : String)
    → OnOk IsBare (prepare b now busy salt draw username password role)
unfolding prepare
prepare-IsBare b now busy salt draw username password role =
    OnOk->> IsBare (refuse_if busy password_work_busy) _ λ _.
      OnOk->>= IsBare (new_user_record b now salt username password role) _ λ u e.
        assign_if-IsBare b now draw b.key_cipher u
          (subst (OnOk IsBare) e (new_user_record-IsBare b now salt username password role))

-- The token is made of a draw, from which its id comes.
abbrev pub IsDrawn : Option TokenDraw → AccessToken → Type 0
IsDrawn draw t = (d : TokenDraw) × (draw ≡ some d) × (t.id ≡ text_append "at_" d.id)

pub prepare_token-IsDrawn :
    (b : Backend) (now : ℕ) (draw : Option TokenDraw) (name : String) (scopes : List String)
    (expires_at : ℕ)
    → OnOk (IsDrawn draw) (prepare_token b now draw name scopes expires_at)
unfolding prepare_token
prepare_token-IsDrawn b now draw raw scopes expires_at =
    let P = IsDrawn draw in
    let name = trim_space raw in
    let given_name =
      refuse_if (is_empty name) token_name_required
      >> refuse_if (ltb access_token_max_name_bytes (len name)) token_name_too_long in
    let in_time =
      refuse_if (not (ltb now expires_at)) expiry_past
      >> refuse_if (ltb (now + access_token_max_days * day) expires_at) expiry_far in
    OnOk->> P given_name _ λ _.
      OnOk->>= P (normalize_access_token_scopes b.lower scopes) _ λ fine _. OnOk->> P in_time _ λ _.
        OnOk->>= P (or_fail draw no_randomness) _ λ d e. (d, or_fail-ok draw no_randomness e, refl)

module _ (name id : String) where
  bare-HasCut : (u : User) → IsBare u → HasCut name id u
  bare-HasCut u h k = subst (IsCut id) (sym h) tt

  -- A record whose tokens, name and state are those of another one.
  same-HasCut :
      (u v : User)
      → v.access_tokens ≡ u.access_tokens
      → v.username ≡ u.username
      → v.disabled ≡ u.disabled
      → HasCut name id u
      → HasCut name id v
  same-HasCut u v tokens named state h k =
      let active : is_active_named name u ≡ true =
        subst (λ n. (n == name && (if u.disabled then false else true)) ≡ true) named
          (subst (λ d. (v.username == name && (if d then false else true)) ≡ true) state k) in
      subst (IsCut id) (sym tokens) (h active)

  pub create_body-Stands :
      (u : User) (users : List User)
      → IsBare u
      → All (HasCut name id) users
      → OnOk (Stands (HasCut name id)) (create_body u users)
  unfolding create_body
  create_body-Stands u users bare h =
      let P = Stands (HasCut name id) {A = PublicUser} in
      OnOk->> P
        (refuse_if (any (has_username u.username) users) username_in_use
          >> refuse_if (leb max_users (length users)) user_limit_reached)
        _ λ _. All-append (HasCut name id) users (u ∷ []) h (bare-HasCut u bare, tt)

  pub bootstrap_body-Stands :
      (b : Backend) (now : ℕ) (salt : Option Bytes) (username password : String) (users : List User)
      → All (HasCut name id) users
      → OnOk (Stands (HasCut name id)) (bootstrap_body b now salt username password users)
  unfolding bootstrap_body
  bootstrap_body-Stands b now salt username password users h =
      let P = Stands (HasCut name id) {A = Unit {0}} in
      on_if (OnOk P) (ltb 0 (length users)) _ _ (λ _. tt)
        λ _. OnOk->>= P (new_user_record b now salt username password role_admin) _ λ u e.
          let bare =
            subst (OnOk IsBare) e
              (new_user_record-IsBare b now salt username password role_admin) in
          (bare-HasCut u bare, tt)

  assign-HasCut :
      (b : Backend) (aead : Option Aead) (now : ℕ) (draw : Option KeyDraw) (version : ℤ) (u : User)
      → HasCut name id u
      → OnOk (HasCut name id) (assign b.crypto aead now draw version u)
  assign-HasCut b aead now draw version u h =
      assign-kept (HasCut name id) b aead now draw version u
        (λ v tokens named state. same-HasCut u v tokens named state h)

  initialize_one-HasCut :
      (b : Backend) (aead : Aead) (now : ℕ) (draw : Option KeyDraw) (u : User)
      → HasCut name id u
      → OnOk (λ (r : User × Bool). HasCut name id r.0) (initialize_one b.crypto aead now draw u)
  unfolding initialize_one
  initialize_one-HasCut b aead now draw u h =
      let P : User × Bool → Type 0 = λ r. HasCut name id r.0 in
      on_if (OnOk P) u.disabled _ _ (λ _. h)
        λ _.
          on_if (OnOk P) (is_empty u.key_id) _ _
            (λ _.
              let first = ℤ.pos 1 in
              OnOk->>= P (assign b.crypto (some aead) now draw first u) _ λ v e.
                subst (OnOk (HasCut name id)) e (assign-HasCut b (some aead) now draw first u h))
            (λ _. OnOk->>= P (reveal (some aead) u) _ λ _ _. h)

  initialize_all-HasCut :
      (b : Backend) (aead : Aead) (now : ℕ) (draws : ℕ → Option KeyDraw) (i : ℕ) (users : List User)
      → All (HasCut name id) users
      → OnOk
          (λ (r : List User × Bool). All (HasCut name id) r.0)
          (initialize_all b.crypto aead now draws i users)
  unfolding initialize_all
  initialize_all-HasCut b aead now draws i [] h = tt
  initialize_all-HasCut b aead now draws i (u ∷ us) h =
      let P : List User × Bool → Type 0 = λ r. All (HasCut name id) r.0 in
      OnOk->>= P (initialize_one b.crypto aead now (draws i) u) _ λ (first, changed) e.
        OnOk->>= P (initialize_all b.crypto aead now draws (suc i) us) _ λ (others, more) f. (
          subst (OnOk (λ (r : User × Bool). HasCut name id r.0)) e
              (initialize_one-HasCut b aead now (draws i) u h.0),
          subst (OnOk P) f (initialize_all-HasCut b aead now draws (suc i) us h.1),
        )

  pub initialize_body-Stands :
      (b : Backend) (aead : Aead) (now : ℕ) (draws : ℕ → Option KeyDraw) (users : List User)
      → All (HasCut name id) users
      → OnOk (Stands (HasCut name id)) (initialize_body b.crypto aead now draws users)
  unfolding initialize_body
  initialize_body-Stands b aead now draws users h =
      let P = Stands (HasCut name id) {A = Unit {0}} in
      OnOk->>= P (initialize_all b.crypto aead now draws 0 users) _ λ (others, changed) e.
        let kept =
          subst (OnOk (λ (r : List User × Bool). All (HasCut name id) r.0)) e
            (initialize_all-HasCut b aead now draws 0 users h) in
        on_if P changed _ _ (λ _. kept) (λ _. tt)

  pub regenerate_body-Stands :
      (b : Backend) (now : ℕ) (draw : Option KeyDraw) (user : String) (users : List User)
      → All (HasCut name id) users
      → OnOk (Stands (HasCut name id)) (regenerate_body b now draw user users)
  unfolding regenerate_body
  regenerate_body-Stands b now draw user users h =
      let P = Stands (HasCut name id) {A = User} in
      let test = is_active_named user in
      OnOk->>= P (or_fail (find test users) user_not_found) _ λ u found.
        let version = next_version u.key_version in
        let old = find-All (HasCut name id) test u users (or_fail-ok _ user_not_found found) h in
        OnOk->>= P (assign b.crypto b.key_cipher now draw version u) _ λ assigned e.
          let new =
            subst (OnOk (HasCut name id)) e (assign-HasCut b b.key_cipher now draw version u old) in
          saved-Stands (HasCut name id) (update_first test (λ _. assigned) users) assigned
            user_not_found
            (update_first-All (HasCut name id) test (λ _. assigned) (λ _ _ _. new) users h)
