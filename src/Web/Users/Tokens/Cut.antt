-- ===== src/Web/Users/Tokens/Cut.antt =====
-- internal/web/access_tokens.go, RevokeAccessToken: what it leaves of a token.
use gpuardian.Base.{
  ℕ, ◌≡◌, refl, sym, ◌∙◌, subst, String, true, false, List, [], ◌∷◌, Option, none, some, ◌==◌,
  string_eq, nat_eq, ==→eq, ==_refl, ok, ◌>>=◌, OnOk, OnOk->>=, OnSome, or_fail, or_fail-ok,
  some_injective, find, update_first, All, Pairwise, Bool-cases, inl, inr, arith,
}
use gpuardian.Web.Users.{User, AccessToken, save, is_active_named, user_not_found, token_not_found}
use gpuardian.Web.Users.Keys.Named.{active_name}
use gpuardian.Web.Users.Sound.{identities, names, Differs}
use gpuardian.Web.Users.Saves.{OnSaved}
use gpuardian.Web.Users.Tokens.{is_revoked, or_now, revoke_at, with_tokens, revoke_token_body}

-- No two tokens with one id.
abbrev pub HasOwnIds : List AccessToken → Type 0
HasOwnIds tokens = Pairwise (λ t o. (t.id == o.id) ≡ false) tokens

-- Whatever has the id is revoked.
abbrev pub IsCut : String → List AccessToken → Type 0
IsCut id tokens = All (λ t. (t.id == id) ≡ true → is_revoked t ≡ true) tokens

pub revoke_at-is_revoked : (now : ℕ) (t : AccessToken) → is_revoked (revoke_at now t) ≡ true
revoke_at-is_revoked now t = go t.revoked_at
  where
    go : (o : Option ℕ) → is_revoked (record t { revoked_at = or_now now o }) ≡ true
    go none = refl
    go (some at) = refl

other_ids :
    (id : String) (t : AccessToken) (ts : List AccessToken)
    → (t.id == id) ≡ true
    → All (λ o. (t.id == o.id) ≡ false) ts
    → IsCut id ts
other_ids id t [] e h = tt
other_ids id t (o ∷ os) e h = (
  λ f.
      let same : t.id ≡ o.id = ==→eq t.id id e ∙ sym (==→eq o.id id f) in
      let no = subst (λ i. (t.id == i) ≡ false) (sym same) h.0 in
      absurd (ground (arith, no, ==_refl t.id)),
  other_ids id t os e h.1,
)

update_first-IsCut :
    (now : ℕ) (id : String) (tokens : List AccessToken)
    → HasOwnIds tokens
    → OnSome (IsCut id) (update_first (λ t. t.id == id) (revoke_at now) tokens)
update_first-IsCut now id [] own = tt
update_first-IsCut now id (t ∷ ts) own = elim (Bool-cases (t.id == id)) [
  | inl e ↦ rw e (λ _. revoke_at-is_revoked now t, other_ids id t ts e own.0)
  | inr e ↦ rw e (
      go e (update_first (λ o. o.id == id) (revoke_at now) ts) (update_first-IsCut now id ts own.1))
]
  where
    go :
        (t.id == id) ≡ false
        → (o : Option (List AccessToken)) → OnSome (IsCut id) o
        → OnSome (IsCut id) (elim o [ none ↦ none | some ys ↦ some (t ∷ ys) ])
    go e none k = tt
    go e (some ys) k = (λ f. absurd (ground (arith, e, f)), k)

-- Of the enabled users, the one with the name has no token with the id that is not revoked.
abbrev pub IsCutOff : String → String → List User → Type 0
IsCutOff name id users = All (λ u. is_active_named name u ≡ true → IsCut id u.access_tokens) users

other_names :
    (name id : String) (users : List User)
    → All (Differs name) (names (identities users))
    → IsCutOff name id users
other_names name id [] h = tt
other_names name id (w ∷ ws) h = (
  λ e.
      let no = subst (λ n. (name == n) ≡ false) (active_name name w e) h.0 in
      absurd (ground (arith, no, ==_refl name)),
  other_names name id ws h.1,
)

put-IsCutOff :
    (name id : String) (tokens : List AccessToken) (users : List User)
    → Pairwise Differs (names (identities users))
    → IsCut id tokens
    → OnSome (IsCutOff name id) (update_first (is_active_named name) (with_tokens tokens) users)
put-IsCutOff name id tokens [] unique cut = tt
put-IsCutOff name id tokens (w ∷ ws) unique cut = elim (Bool-cases (is_active_named name w)) [
  | inl e ↦
      let others =
        subst (λ n. All (Differs n) (names (identities ws))) (active_name name w e) unique.0 in
      rw e (λ _. cut, other_names name id ws others)
  | inr e ↦ rw e (
      go e (update_first (is_active_named name) (with_tokens tokens) ws)
        (put-IsCutOff name id tokens ws unique.1 cut))
]
  where
    go :
        is_active_named name w ≡ false
        → (o : Option (List User)) → OnSome (IsCutOff name id) o
        → OnSome (IsCutOff name id) (elim o [ none ↦ none | some ys ↦ some (w ∷ ys) ])
    go e none k = tt
    go e (some ys) k = (λ f. absurd (ground (arith, e, f)), k)

pub revoke_token_body-IsCutOff :
    (now : ℕ) (name id : String) (u : User) (users : List User)
    → Pairwise Differs (names (identities users))
    → find (is_active_named name) users ≡ some u
    → HasOwnIds u.access_tokens
    → OnOk (OnSaved (λ changed _. IsCutOff name id changed)) (revoke_token_body now name id users)
unfolding revoke_token_body
revoke_token_body-IsCutOff now name id u users unique found own =
    let P = OnSaved {A = Unit {0}} (λ changed _. IsCutOff name id changed) in
    OnOk->>= P (or_fail (find (is_active_named name) users) user_not_found) _ λ v e.
      let here = or_fail-ok (find (is_active_named name) users) user_not_found e in
      let same : u ≡ v = some_injective (sym found ∙ here) in
      let change = update_first (λ t. t.id == id) (revoke_at now) v.access_tokens in
      OnOk->>= P (or_fail change token_not_found) _ λ tokens f.
        let cut = subst (OnSome (IsCut id)) (or_fail-ok change token_not_found f) (
          update_first-IsCut now id v.access_tokens
            (subst (λ x. HasOwnIds x.access_tokens) same own)) in
        go (update_first (is_active_named name) (with_tokens tokens) users)
          (put-IsCutOff name id tokens users unique cut)
  where
    go :
        (o : Option (List User))
        → OnSome (IsCutOff name id) o
        → OnOk
            (OnSaved (λ changed _. IsCutOff name id changed))
            (or_fail o user_not_found >>= λ changed. ok (save changed tt))
    go none k = tt
    go (some changed) k = k
