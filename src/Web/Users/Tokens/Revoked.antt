-- ===== src/Web/Users/Tokens/Revoked.antt =====
-- internal/web/access_tokens.go, RevokeAccessToken and AuthenticateAccessToken: a token that is revoked is
-- refused.
use Prim.Native.String.{len}
use gpuardian.Base.{
  All, ◌≡◌, refl, sym, ap, ◌∙◌, subst, String, true, false, not, ◌&&◌, ◌||◌, List, [], ◌∷◌, Option,
  none, some, ◌==◌, string_eq, nat_eq, ltb, ok, err, OnOk, OnOk-mono, OnSome, ok_injective,
  some_injective, find, Bool-cases, inl, inr, on_if, arith, trim_space, is_empty, has_prefix,
  refuse_if,
}
use gpuardian.Web.PrivateFile.{Io}
use gpuardian.Web.Users.{
  User, AccessToken, UserStore, Checked, with_users, normalize_username, is_active_named,
  token_id_required,
}
use gpuardian.Web.Users.Keys.{Backend, digest, given}
use gpuardian.Web.Users.Sound.{IsKept, load_users-loaded, with_users-IsKept}
use gpuardian.Web.Users.Bodies.{revoke_token_body-Keeps}
use gpuardian.Web.Users.Saves.{OnSaved, with_users-Answers}
use gpuardian.Web.Users.Tokens.{
  is_revoked, is_live, revoke_token_body, revoke_access_token, AuthenticatedAccessToken, find_token,
  use_token, on_users, authenticate_access_token,
}
use gpuardian.Web.Users.Tokens.Later.{IsApart, perform_all-IsStanding}
use gpuardian.Web.Users.History.{Call, perform_all}
use gpuardian.Web.Users.Tokens.Cut.{HasOwnIds, IsCut, IsCutOff, revoke_token_body-IsCutOff}

found_revoked :
    (want name id : String) (users : List User) (u : User) (t : AccessToken)
    → IsCutOff name id users
    → find_token want users ≡ some (u, t)
    → (u.username == name) ≡ true
    → (t.id == id) ≡ true
    → is_revoked t ≡ true
unfolding find_token
found_revoked want name id [] u t h found e f = cc
found_revoked want name id (w ∷ ws) u t h found e f = elim (Bool-cases w.disabled) [
  | inl d ↦ found_revoked want name id ws u t h.1 (rw d at found) e f
  | inr d ↦
      go d (λ k. found_revoked want name id ws u t h.1 k e f)
        (find (λ o. o.hash == want) w.access_tokens) refl (rw d at found)
]
  where
    among :
        (tokens : List AccessToken)
        → IsCut id tokens
        → find (λ o. o.hash == want) tokens ≡ some t
        → is_revoked t ≡ true
    among [] cut here = cc
    among (o ∷ os) cut here = elim (Bool-cases (o.hash == want)) [
      | inl g ↦
          let same : o ≡ t = some_injective (rw g at here) in
          subst (λ x. (x.id == id) ≡ true → is_revoked x ≡ true) same cut.0 f
      | inr g ↦ among os cut.1 (rw g at here)
    ]

    go :
        w.disabled ≡ false
        → (find_token want ws ≡ some (u, t) → is_revoked t ≡ true)
        → (o : Option AccessToken) → find (λ x. x.hash == want) w.access_tokens ≡ o
        → elim o as (λ x. Option (User × AccessToken)) [
          | some x ↦ some (w, x)
          | none ↦ find_token want ws
        ]
          ≡ some (u, t)
        → is_revoked t ≡ true
    go d behind none here k = behind k
    go d behind (some x) here k =
        let pair = some_injective k in
        let user : w ≡ u = ap (λ p. p.0) pair in
        let token : x ≡ t = ap (λ p. p.1) pair in
        let named = subst (λ v. (v.username == name) ≡ true) (sym user) e in
        let active : is_active_named name w ≡ true = ground (arith, named, d) in
        among w.access_tokens (h.0 active) (here ∙ ap (λ y. some y) token)

abbrev IsOther : String → String → AuthenticatedAccessToken → Type 0
IsOther name id a = (a.user == name && (a.id == id)) ≡ false

use_token-IsOther :
    (b : Backend) (io : Io) (want name id : String) (users : List User) (s : UserStore)
    (o : Option (User × AccessToken))
    → IsCutOff name id users
    → find_token want users ≡ o
    → OnSome (IsOther name id) (use_token b io want users s o).1
unfolding use_token
use_token-IsOther b io want name id users s none h found = tt
use_token-IsOther b io want name id users s (some (u, t)) h found =
    let P : UserStore × Option AuthenticatedAccessToken → Type 0 =
      λ r. OnSome (IsOther name id) r.1 in
    let cut = found_revoked want name id users u t h found in
    on_if P (not (is_live io.now t)) _ _ (λ _. tt)
      (λ live. elim (Bool-cases (u.username == name && (t.id == id))) [
        | inl e ↦
            let dead = cut (ground (arith, e)) (ground (arith, e)) in
            absurd (ground (arith, live, dead))
        | inr e ↦ e
      ])

refused_token :
    (b : Backend) (io : Io) (secret name id : String) (s : UserStore)
    → s.cached.loaded ≡ true
    → IsCutOff name id s.cached.value
    → OnSome (IsOther name id) (authenticate_access_token b io secret s).1
unfolding authenticate_access_token
refused_token b io secret name id s loaded h =
    let P : UserStore × Option AuthenticatedAccessToken → Type 0 =
      λ r. OnSome (IsOther name id) r.1 in
    let want = digest b.crypto (trim_space secret) in
    on_if P (not (has_prefix (trim_space secret) "ga_") || ltb 256 (len (trim_space secret))) _ _
      (λ _. tt)
      (λ _.
        subst (λ r. P (on_users b io want r)) (sym (load_users-loaded io b.codec s loaded))
          (use_token-IsOther b io want name id s.cached.value s (find_token want s.cached.value) h
            refl))

-- A token of a user, none of whose other tokens has its id, is revoked. Whatever methods of the users are
-- called next, in whatever order, with whatever failures and at whatever times, if none of them makes
-- a token whose id is drawn the same: whatever secret is presented then, at any time, it is not
-- accepted as the token with that id of that user.
pub revoke_access_token-refused :
    (b : Backend) (io io' : Io) (username name id secret : String) (u : User) (s : UserStore)
    (calls : List (Io × Call))
    → IsKept s
    → normalize_username b.lower username ≡ ok name
    → find (is_active_named name) s.cached.value ≡ some u
    → HasOwnIds u.access_tokens
    → All (λ (c : Io × Call). IsApart (trim_space id) c.1) calls
    → OnOk
        (λ _.
          OnSome
            (λ a. (a.user == name && (a.id == trim_space id)) ≡ false)
            (authenticate_access_token b io' secret
              (perform_all b calls (revoke_access_token b io username id s).0)).1)
        (revoke_access_token b io username id s).1
unfolding revoke_access_token given
revoke_access_token-refused b io io' username name id secret u s calls kept known found own apart =
    subst Refused (sym known) (checked (refuse_if (is_empty key) token_id_required))
  where
    key : String
    key = trim_space id

    IsRefused : UserStore × Checked (Unit {0}) → Type 0
    IsRefused r =
        OnOk
          (λ _.
            OnSome (IsOther name key)
              (authenticate_access_token b io' secret (perform_all b calls r.0)).1)
          r.1

    section : String → UserStore × Checked (Unit {0})
    section n = with_users io b.codec (revoke_token_body io.now n key) s

    Refused : Checked String → Type 0
    Refused r =
        IsRefused
          (given r s λ n. given (refuse_if (is_empty key) token_id_required) s λ _. section n)

    later :
        IsKept (section name).0
        → IsCutOff name key (section name).0.cached.value
        → OnSome
            (IsOther name key)
            (authenticate_access_token b io' secret (perform_all b calls (section name).0)).1
    later still cut =
        let standing =
          perform_all-IsStanding name key b calls (section name).0 apart
            (record { loaded = still.loaded; each = cut }) in
        refused_token b io' secret name key (perform_all b calls (section name).0) standing.loaded
          standing.each

    body_refused : IsRefused (section name)
    body_refused =
        let body = revoke_token_body io.now name key in
        let still =
          with_users-IsKept io b.codec body s (revoke_token_body-Keeps io.now name key) kept in
        OnOk-mono (λ _ cut. later still cut) (section name).1
          (with_users-Answers (λ changed _. IsCutOff name key changed) io b.codec body s
            λ users loaded.
              let same : s.cached.value ≡ users =
                ok_injective
                  (sym (ap (λ r. r.1) (load_users-loaded io b.codec s kept.loaded)) ∙ loaded) in
              subst (λ us. OnOk (OnSaved (λ changed _. IsCutOff name key changed)) (body us)) same
                (revoke_token_body-IsCutOff io.now name key u s.cached.value kept.sound.unique found
                  own))

    checked : (c : Checked (Unit {0})) → IsRefused (given c s λ _. section name)
    checked (err e) = tt
    checked (ok x) = body_refused
