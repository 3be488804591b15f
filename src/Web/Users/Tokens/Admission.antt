-- ===== src/Web/Users/Tokens/Admission.antt =====
-- internal/web/access_tokens.go, CreateAccessToken: how many tokens a user has then.
use gpuardian.Base.{
  ℕ, ◌-◌, ◌≤◌, ◌<◌, ◌≡◌, refl, sym, ap, ◌∙◌, subst, String, Bool, true, false, not, ◌&&◌, List, [],
  ◌∷◌, ◌++◌, Option, none, some, ltb, leb, if◌then◌else◌, length, length-append, ok, ◌>>=◌, OnOk,
  OnOk->>=, OnOk->>, OnSome, or_fail, or_fail-ok, refuse_if, refuse_if-passed, ok_injective,
  find-some, find, keep_if, count_if, count_if-append, update_first, arith, Bool-cases, inl, inr,
  on_if, some_injective,
}
use gpuardian.Web.Users.{
  User, AccessToken, save, is_active_named, user_not_found, too_many_tokens, UserStore,
  normalize_username,
}
use gpuardian.Web.PrivateFile.{Io}
use gpuardian.Web.Users.Keys.{Backend}
use gpuardian.Web.Users.Saves.{OnSaved, Answers, with_users-Answers, given-Answers}
use gpuardian.Web.Users.Tokens.{
  is_live, is_stale, drop_inactive, compact_access_tokens, with_tokens, create_token_body,
  access_token_max_per_user, TokenDraw, prepare_token, create_access_token,
}

live_le : (now : ℕ) (ts : List AccessToken) → count_if (is_live now) ts ≤ length ts
live_le now [] = omega arith
live_le now (t ∷ ts) = ground (arith, live_le now ts)

-- No live token is dropped, and of the others as many as there are, up to `drop`.
record Drops (now drop : ℕ) (ts kept : List AccessToken) : Type 0 where
  live : count_if (is_live now) kept ≡ count_if (is_live now) ts
  size : length kept ≡ (
      if ltb (length ts - count_if (is_live now) ts) drop
      then count_if (is_live now) ts
      else length ts - drop)

drop_inactive-Drops :
    (now drop : ℕ) (ts : List AccessToken) → Drops now drop ts (drop_inactive now drop ts)
unfolding drop_inactive
drop_inactive-Drops now drop [] = record { live = refl; size = ground arith }
drop_inactive-Drops now drop (t ∷ ts) =
    let fewer = drop_inactive-Drops now (drop - 1) ts in
    let rest = drop_inactive-Drops now drop ts in
    let le = live_le now ts in
    on_if (Drops now drop (t ∷ ts)) (ltb 0 drop && not (is_live now t)) _ _
      (λ h. record {
        live = ground (arith, h, fewer.live);
        size = ground (arith, h, fewer.size, le);
      })
      (λ h. record { live = ground (arith, rest.live); size = ground (arith, h, rest.size, le) })

-- A list that is compacted has at most 127 tokens, or none but live ones.
compacted_size :
    (now : ℕ) (ts : List AccessToken)
    → count_if (is_live now) (compact_access_tokens now ts) < 32
    → length (compact_access_tokens now ts) ≤ 127
unfolding compact_access_tokens
compacted_size now ts =
    let kept = keep_if (λ t. not (is_stale now t)) ts in
    let d = drop_inactive-Drops now (length kept - 127) kept in
    let le = live_le now kept in
    on_if (λ (xs : List AccessToken). count_if (is_live now) xs < 32 → length xs ≤ 127)
      (ltb (length kept) 128) _ _ (λ h few. ground (arith, h))
      (λ h few. ground (arith, h, d.live, d.size, le, few))

-- A user's tokens are within the limits, and hold the new one.
pub record HasRoom (now : ℕ) (token : AccessToken) (u : User) : Type 0 where
  pub stored : length u.access_tokens ≤ 128
  pub live : count_if (is_live now) u.access_tokens ≤ 32
  pub before : List AccessToken
  pub holds : u.access_tokens ≡ before ++ token ∷ []

-- The user with the name is found with room for the token.
pub record Admits (now : ℕ) (name : String) (users : List User) (token : AccessToken) : Type 0 where
  pub user : User
  pub found : find (is_active_named name) users ≡ some user
  pub room : HasRoom now token user

-- The record at which the first change is made is found behind it.
found_again :
    (test : User → Bool) (f : User → User) (u : User) (users : List User)
    → find test users ≡ some u
    → test (f u) ≡ true
    → OnSome (λ changed. find test changed ≡ some (f u)) (update_first test f users)
found_again test f u [] found there = tt
found_again test f u (v ∷ vs) found there = elim (Bool-cases (test v)) [
  | inl e ↦
      let here : v ≡ u = some_injective (rw e at found) in
      let passes : test (f v) ≡ true = ap (λ w. test (f w)) here ∙ there in
      rw e (rw passes (ap (λ w. some (f w)) here))
  | inr e ↦ rw e (go e (update_first test f vs) (found_again test f u vs (rw e at found) there))
]
  where
    go :
        test v ≡ false
        → (o : Option (List User)) → OnSome (λ changed. find test changed ≡ some (f u)) o
        → OnSome
            (λ changed. find test changed ≡ some (f u))
            (elim o [ none ↦ none | some ys ↦ some (v ∷ ys) ])
    go e none k = tt
    go e (some ys) k = rw e k

new_room :
    (now : ℕ) (token : AccessToken) (u : User)
    → leb 32 (count_if (is_live now) (compact_access_tokens now u.access_tokens)) ≡ false
    → HasRoom now token (with_tokens (compact_access_tokens now u.access_tokens ++ token ∷ []) u)
new_room now token u few =
    let tokens = compact_access_tokens now u.access_tokens in
    let below : count_if (is_live now) tokens < 32 = ground (arith, few) in
    let size = length-append tokens (token ∷ []) in
    let live = count_if-append (is_live now) tokens (token ∷ []) in
    record {
      stored = omega (arith, size, compacted_size now u.access_tokens below);
      live = ground (arith, live, below);
      before = tokens;
      holds = refl;
    }

create_token_body-Admits :
    (now : ℕ) (name : String) (token : AccessToken) (users : List User)
    → OnOk (OnSaved (Admits now name)) (create_token_body now name token users)
unfolding create_token_body
create_token_body-Admits now name token users =
    let P = OnSaved (Admits now name) in
    OnOk->>= P (or_fail (find (is_active_named name) users) user_not_found) _ λ u found.
      let tokens = compact_access_tokens now u.access_tokens in
      let full = leb access_token_max_per_user (count_if (is_live now) tokens) in
      OnOk->> P (refuse_if full too_many_tokens) _ λ passed.
        let u' = with_tokens (tokens ++ token ∷ []) u in
        let here = or_fail-ok (find (is_active_named name) users) user_not_found found in
        let active : is_active_named name u ≡ true =
          find-some (is_active_named name) u users here in
        let room = new_room now token u (refuse_if-passed full too_many_tokens passed) in
        go u' room (update_first (is_active_named name) (with_tokens (tokens ++ token ∷ [])) users)
          (found_again (is_active_named name) (with_tokens (tokens ++ token ∷ [])) u users here
            active)
  where
    go :
        (u : User)
        → HasRoom now token u
        → (o : Option (List User))
        → OnSome (λ changed. find (is_active_named name) changed ≡ some u) o
        → OnOk
            (OnSaved (Admits now name))
            (or_fail o user_not_found >>= λ changed. ok (save changed token))
    go u room none k = tt
    go u room (some changed) k = record { user = u; found = k; room = room }

-- A token that is created: its user, found by the name in the users that are stored, has at most 128
-- tokens, the new one at their end, and at most 32 that are neither revoked nor expired, however many
-- there were before, also in a file with more.
pub create_access_token-Admits :
    (b : Backend) (io : Io) (draw : Option TokenDraw) (username name token_name : String)
    (scopes : List String) (expires_at : ℕ) (s : UserStore)
    → normalize_username b.lower username ≡ ok name
    → Answers
        (Admits io.now name)
        (create_access_token b io draw username token_name scopes expires_at s)
unfolding create_access_token
create_access_token-Admits b io draw username name token_name scopes expires_at s known =
    let Q = Admits io.now name in
    given-Answers Q (normalize_username b.lower username) s _ λ other e.
      given-Answers Q (prepare_token b io.now draw token_name scopes expires_at) s _ λ token _.
        let same : other ≡ name = ok_injective (sym e ∙ known) in
        with_users-Answers Q io b.codec (create_token_body io.now other token) s λ users _.
          subst (λ n. OnOk (OnSaved Q) (create_token_body io.now n token users)) (sym same)
            (create_token_body-Admits io.now name token users)
