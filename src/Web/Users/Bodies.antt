-- ===== src/Web/Users/Bodies.antt =====
-- internal/web/users.go and access_tokens.go: the body of each method keeps the users sound.
use gpuardian.Base.{
  ℕ, suc, ◌+◌, ◌≡◌, refl, sym, ap, ◌∙◌, subst, String, false, not, ◌&&◌, List, [], ◌∷◌, ◌++◌,
  Option, none, some, ◌==◌, string_eq, nat_eq, leb, if◌then◌else◌, length, length-append, ok, ◌>>=◌,
  ◌>>◌, OnOk, OnOk->>=, OnOk->>, OnSome, or_fail, refuse_if, refuse_if-passed, any, find, count_if,
  count_if-append, update_first, All, Pairwise, Pairwise-append, arith, Bool-cases, inl, inr,
  lt→ltb, >>-eq-ok, length-map, map-append, some_injective, or_fail-ok,
}
use gpuardian.Web.Requests.{role_admin}
use gpuardian.Web.Passwords.{Bytes}
use gpuardian.Web.Users.{
  User, PublicUser, public_user, save, is_active_named, max_users, AccessToken, username_in_use,
  user_limit_reached, user_not_found, last_admin, invalid_password, invalid_credentials,
  too_many_tokens, token_not_found,
}
use gpuardian.Web.Users.Keys.{Backend}
use gpuardian.Web.Users.Accounts.{
  bootstrap_body, create_body, delete_body, change_body, confirm_body, keep_or_put, put_hash,
  with_hash, retire, has_username, is_active_admin, is_same_record,
}
use gpuardian.Web.Users.Tokens.{
  create_token_body, revoke_token_body, with_tokens, compact_access_tokens,
  access_token_max_per_user, is_live,
}
use gpuardian.Web.Users.Sound.{identity, identities, names, Differs, IsSound, Keeps, update-Keeps}

new_name :
    (u : User) (users : List User)
    → any (has_username u.username) users ≡ false
    → All (λ a. All (Differs a) (u.username ∷ [])) (names (identities users))
new_name u [] h = tt
new_name u (v ∷ vs) h =
    let other : (v.username == u.username) ≡ false = ground (arith, h) in
    ((other, tt), new_name u vs (ground (arith, h)))

appended-IsSound :
    (u : User) (users : List User)
    → any (has_username u.username) users ≡ false
    → leb max_users (length users) ≡ false
    → IsSound (identities users)
    → IsSound (identities (users ++ u ∷ []))
appended-IsSound u users fresh room h =
    let ids = identities users in
    let more = length-append ids (identity u ∷ []) in
    let admins = count_if-append (λ a. a.is_active_admin) ids (identity u ∷ []) in
    let size = length-map identity users in
    subst IsSound (sym (map-append identity users (u ∷ []))) (record {
      unique = subst (Pairwise Differs) (sym (map-append (λ i. i.name) ids (identity u ∷ []))) (
          Pairwise-append Differs (names ids) (u.username ∷ []) h.unique (tt, tt)
            (new_name u users fresh));
      within = ground (arith, more, size, room);
      governed = omega (arith, admins, h.governed);
    })

pub create_body-Keeps :
    (u : User) (users : List User) → IsSound (identities users) → OnOk Keeps (create_body u users)
unfolding create_body
create_body-Keeps u users h =
    let taken = refuse_if (any (has_username u.username) users) username_in_use in
    let full = refuse_if (leb max_users (length users)) user_limit_reached in
    OnOk->> (Keeps {A = PublicUser}) (taken >> full) _ λ passed.
      let (fresh, room) = >>-eq-ok taken full passed in
      appended-IsSound u users (refuse_if-passed _ username_in_use fresh)
        (refuse_if-passed _ user_limit_reached room) h

pub bootstrap_body-Keeps :
    (b : Backend) (now : ℕ) (salt : Option Bytes) (username password : String) (users : List User)
    → IsSound (identities users)
    → OnOk Keeps (bootstrap_body b now salt username password users)
unfolding bootstrap_body
bootstrap_body-Keeps b now salt username password [] h = absurd (omega (arith, h.governed))
bootstrap_body-Keeps b now salt username password (u ∷ us) h =
    rw (lt→ltb 0 (suc (length us)) (omega arith)) tt

put_hash-Keeps :
    (now : ℕ) (name hash : String) (u : User) (users : List User)
    → IsSound (identities users)
    → OnOk Keeps (put_hash now name hash u users)
unfolding put_hash
put_hash-Keeps now name hash u users h =
    update-Keeps (is_active_named name) (with_hash now hash) (public_user (with_hash now hash u))
      user_not_found users (λ v. refl) h

pub change_body-Keeps :
    (now : ℕ) (name : String) (candidate : User) (hash : String) (users : List User)
    → IsSound (identities users)
    → OnOk Keeps (change_body now name candidate hash users)
unfolding change_body
change_body-Keeps now name candidate hash users h =
    OnOk->>= Keeps (or_fail (find (is_active_named name) users) user_not_found) _ λ u _.
      OnOk->> Keeps (refuse_if (not (is_same_record u candidate)) invalid_password) _
        λ _. put_hash-Keeps now name hash u users h

pub confirm_body-Keeps :
    (now : ℕ) (name : String) (checked : User × Option String) (users : List User)
    → IsSound (identities users)
    → OnOk Keeps (confirm_body now name checked users)
unfolding confirm_body keep_or_put
confirm_body-Keeps now name (candidate, none) users h =
    OnOk->>= Keeps (or_fail (find (is_active_named name) users) invalid_credentials) _ λ u _.
      OnOk->> Keeps (refuse_if (not (is_same_record u candidate)) invalid_credentials) _ λ _. tt
confirm_body-Keeps now name (candidate, some hash) users h =
    OnOk->>= Keeps (or_fail (find (is_active_named name) users) invalid_credentials) _ λ u _.
      OnOk->> Keeps (refuse_if (not (is_same_record u candidate)) invalid_credentials) _
        λ _. put_hash-Keeps now name hash u users h

pub create_token_body-Keeps :
    (now : ℕ) (name : String) (token : AccessToken) (users : List User)
    → IsSound (identities users)
    → OnOk Keeps (create_token_body now name token users)
unfolding create_token_body
create_token_body-Keeps now name token users h =
    OnOk->>= Keeps (or_fail (find (is_active_named name) users) user_not_found) _ λ u _.
      let tokens = compact_access_tokens now u.access_tokens in
      OnOk->> Keeps
        (refuse_if (leb access_token_max_per_user (count_if (is_live now) tokens)) too_many_tokens)
        _
        λ _.
          update-Keeps (is_active_named name) (with_tokens (tokens ++ token ∷ [])) token
            user_not_found users (λ v. refl) h

pub revoke_token_body-Keeps :
    (now : ℕ) (name id : String) (users : List User)
    → IsSound (identities users)
    → OnOk Keeps (revoke_token_body now name id users)
unfolding revoke_token_body
revoke_token_body-Keeps now name id users h =
    OnOk->>= Keeps (or_fail (find (is_active_named name) users) user_not_found) _ λ u _.
      OnOk->>= Keeps (or_fail (update_first _ _ u.access_tokens) token_not_found) _ λ tokens _.
        update-Keeps (is_active_named name) (with_tokens tokens) tt user_not_found users (λ v. refl)
          h

-- How a table changes where a found record is retired.
record Retires (u : User) (users changed : List User) : Type 0 where
  same_names : names (identities changed) ≡ names (identities users)
  fewer_admins :
      count_if is_active_admin changed + (if is_active_admin u then 1 else 0)
      ≡ count_if is_active_admin users

update_first-Retires :
    (name : String) (u : User) (now : ℕ) (users : List User)
    → find (has_username name) users ≡ some u
    → OnSome (Retires u users) (update_first (has_username name) (retire now) users)
update_first-Retires name u now [] e = tt
update_first-Retires name u now (v ∷ vs) e = elim (Bool-cases (v.username == name)) [
  | inl f ↦
      let same : v ≡ u = some_injective (rw f at e) in
      rw f (record { same_names = refl; fewer_admins = rw⁻¹ same (ground arith) })
  | inr f ↦ rw f (
      go (update_first (has_username name) (retire now) vs)
        (update_first-Retires name u now vs (rw f at e)))
]
  where
    go :
        (o : Option (List User))
        → OnSome (Retires u vs) o
        → OnSome (Retires u (v ∷ vs)) (elim o [ none ↦ none | some ys ↦ some (v ∷ ys) ])
    go none k = tt
    go (some ys) k = record {
      same_names = ap (λ ns. v.username ∷ ns) k.same_names;
      fewer_admins = ground (arith, k.fewer_admins);
    }

count-identities :
    (users : List User)
    → count_if (λ a. a.is_active_admin) (identities users) ≡ count_if is_active_admin users
count-identities [] = refl
count-identities (u ∷ us) = ground (arith, count-identities us)

-- An administrator who is not the last one, or who is none, can go.
retired-IsSound :
    (u : User) (users changed : List User)
    → Retires u users changed
    → u.disabled ≡ false
    → (u.role == role_admin && (count_if is_active_admin users == 1)) ≡ false
    → IsSound (identities users)
    → IsSound (identities changed)
retired-IsSound u users changed r active more h =
    let old = count-identities users in
    let new = count-identities changed in
    let size =
      sym (length-map (λ i. i.name) (identities changed))
      ∙ ap length r.same_names
      ∙ length-map (λ i. i.name) (identities users) in
    record {
      unique = subst (Pairwise Differs) (sym r.same_names) h.unique;
      within = omega (arith, size, h.within);
      governed = ground (arith, old, new, r.fewer_admins, active, more, h.governed);
    }

pub delete_body-Keeps :
    (now : ℕ) (name : String) (users : List User)
    → IsSound (identities users)
    → OnOk Keeps (delete_body now name users)
unfolding delete_body
delete_body-Keeps now name users h =
    OnOk->>= Keeps (or_fail (find (has_username name) users) user_not_found) _ λ u found.
      let gone = refuse_if u.disabled user_not_found in
      let sole =
        refuse_if (u.role == role_admin && (count_if is_active_admin users == 1)) last_admin in
      OnOk->> (Keeps {A = Unit {0}}) (gone >> sole) _ λ passed.
        let (active, more) = >>-eq-ok gone sole passed in
        go u (update_first-Retires name u now users (or_fail-ok _ user_not_found found))
          (refuse_if-passed _ user_not_found active) (refuse_if-passed _ last_admin more)
  where
    go :
        (u : User)
        → OnSome (Retires u users) (update_first (has_username name) (retire now) users)
        → u.disabled ≡ false
        → (u.role == role_admin && (count_if is_active_admin users == 1)) ≡ false
        → OnOk (Keeps {A = Unit {0}}) (
            or_fail (update_first (has_username name) (retire now) users) user_not_found
            >>= λ changed. ok (save changed tt))
    go u r active more = settled (update_first (has_username name) (retire now) users) r
      where
        settled :
            (o : Option (List User))
            → OnSome (Retires u users) o
            → OnOk
                (Keeps {A = Unit {0}})
                (or_fail o user_not_found >>= λ changed. ok (save changed tt))
        settled none k = tt
        settled (some changed) k = retired-IsSound u users changed k active more h
