-- ===== src/Web/Users/Accounts/Verified.antt =====
-- internal/web/users.go, authenticate: whose password was checked, whatever happens meanwhile.
use gpuardian.Base.{
  ℕ, ◌≡◌, refl, sym, ◌∙◌, subst, String, true, not, List, Option, none, some, string_eq, nat_eq,
  ==→eq, ok, err, OnOk, OnOk->>=, OnOk->>, OnOk-mono, or_fail, or_fail-ok, refuse_if,
  refuse_if-passed, ok_injective, find, update_first, on_if, arith,
}
use gpuardian.Web.PrivateFile.{Io}
use gpuardian.Web.Passwords.{Bytes, verify_password_hash}
use gpuardian.Web.Users.{
  User, PublicUser, UserStore, UserError, Checked, Outcome, load_users, with_users,
  normalize_username, is_active_named, invalid_credentials, user_not_found,
}
use gpuardian.Web.Users.Keys.{Backend, given}
use gpuardian.Web.Users.Accounts.{
  has_username, is_same_record, with_hash, put_hash, unless_disabled, upgrade, verify, keep_or_put,
  confirm_body, on_read, authenticate,
}
use gpuardian.Web.Users.Saves.{answer, with_users-Returns, given-Returns}

-- The user who is answered is among the users, is not disabled, and has a hash that the password
-- verifies.
pub record Verified (b : Backend) (name password : String) (users : List User) (p : PublicUser)
    : Type 0 where
  pub user : User
  pub found : find (is_active_named name) users ≡ some user
  pub verified : verify_password_hash b.crypto user.password_hash password ≡ true
  pub same_name : p.username ≡ user.username
  pub same_role : p.role ≡ user.role

abbrev IsChecked : Backend → String → User × Option String → Type 0
IsChecked b password (u, upgraded) = verify_password_hash b.crypto u.password_hash password ≡ true

verify-IsChecked :
    (b : Backend) (salt : Option Bytes) (password : String) (candidate : Option User)
    → OnOk (IsChecked b password) (verify b salt password candidate)
unfolding verify
verify-IsChecked b salt password none = tt
verify-IsChecked b salt password (some u) =
    let P = IsChecked b password in
    on_if (OnOk P) (verify_password_hash b.crypto u.password_hash password) _ _
      (λ h. OnOk->>= P (upgrade b salt password u.password_hash) _ λ _ _. h) (λ _. tt)

put_hash-Verified :
    (b : Backend) (now : ℕ) (name hash password : String) (u : User) (users : List User)
    → find (is_active_named name) users ≡ some u
    → verify_password_hash b.crypto u.password_hash password ≡ true
    → OnOk (λ out. Verified b name password users (answer out)) (put_hash now name hash u users)
unfolding put_hash
put_hash-Verified b now name hash password u users found h =
    OnOk->>= (λ (out : Outcome PublicUser). Verified b name password users (answer out))
      (or_fail (update_first (is_active_named name) (with_hash now hash) users) user_not_found) _
      λ _ _. record { user = u; found = found; verified = h; same_name = refl; same_role = refl }

keep_or_put-Verified :
    (b : Backend) (now : ℕ) (name password : String) (u : User) (users : List User)
    (upgraded : Option String)
    → find (is_active_named name) users ≡ some u
    → verify_password_hash b.crypto u.password_hash password ≡ true
    → OnOk
        (λ out. Verified b name password users (answer out))
        (keep_or_put now name u users upgraded)
unfolding keep_or_put
keep_or_put-Verified b now name password u users none found h = record {
  user = u;
  found = found;
  verified = h;
  same_name = refl;
  same_role = refl;
}
keep_or_put-Verified b now name password u users (some hash) found h =
    put_hash-Verified b now name hash password u users found h

confirm_body-Verified :
    (b : Backend) (now : ℕ) (name password : String) (checked : User × Option String)
    (users : List User)
    → IsChecked b password checked
    → OnOk
        (λ out. Verified b name password users (answer out))
        (confirm_body now name checked users)
unfolding confirm_body
confirm_body-Verified b now name password (candidate, upgraded) users h =
    let P : Outcome PublicUser → Type 0 = λ out. Verified b name password users (answer out) in
    OnOk->>= P (or_fail (find (is_active_named name) users) invalid_credentials) _ λ u found.
      OnOk->> P (refuse_if (not (is_same_record u candidate)) invalid_credentials) _ λ passed.
        let same = refuse_if-passed (not (is_same_record u candidate)) invalid_credentials passed in
        let hash : u.password_hash ≡ candidate.password_hash =
          ==→eq u.password_hash candidate.password_hash (ground (arith, same)) in
        let verified = subst (λ x. verify_password_hash b.crypto x password ≡ true) (sym hash) h in
        keep_or_put-Verified b now name password u users upgraded
          (or_fail-ok (find (is_active_named name) users) invalid_credentials found) verified

-- What a section that checked a password answers: about the users that it has loaded itself.
abbrev pub VerifiedIn : Backend → Io → String → String → UserStore → PublicUser → Type 0
VerifiedIn b io name password s p =
    (users : List User) × ((load_users io b.codec s).1 ≡ ok users)
    × Verified b name password users p

abbrev worked :
    Backend
    → Option Bytes
    → String
    → Option UserError
    → Option User
    → Checked (User × Option String)
worked b salt password waiting candidate = elim waiting [
  | some e ↦ err e
  | none ↦ verify b salt password candidate
]

worked-IsChecked :
    (b : Backend) (salt : Option Bytes) (password : String) (waiting : Option UserError)
    (candidate : Option User)
    → OnOk (IsChecked b password) (worked b salt password waiting candidate)
worked-IsChecked b salt password (some e) candidate = tt
worked-IsChecked b salt password none candidate = verify-IsChecked b salt password candidate

-- A name and a password that are accepted, whatever other calls do to the users while the password is
-- checked: the users that are loaded at the end have an active user of that name, whose hash the
-- password verifies, and it is that user's name and role that are answered.
pub authenticate-Verified :
    (b : Backend) (io : Io) (waiting : Option UserError) (salt : Option Bytes)
    (others : UserStore → UserStore) (username name password : String) (s : UserStore)
    → normalize_username b.lower username ≡ ok name
    → OnOk
        (VerifiedIn b io name password (others (load_users io b.codec s).0))
        (authenticate b io waiting salt others username password s).1
unfolding authenticate
authenticate-Verified b io waiting salt others username name password s known =
    given-Returns R (normalize_username b.lower username) s _
      λ other e. go other (ok_injective (sym e ∙ known)) (load_users io b.codec s) refl
  where
    R : PublicUser → Type 0
    R = VerifiedIn b io name password (others (load_users io b.codec s).0)

    go :
        (other : String)
        → other ≡ name
        → (r : UserStore × Checked (List User)) → r.0 ≡ (load_users io b.codec s).0
        → OnOk R
            (on_read r λ t users.
              given
                (worked b salt password waiting (unless_disabled (find (has_username other) users)))
                (others t)
                (λ checked. with_users io b.codec (confirm_body io.now other checked) (others t))).1
    go other same (t, err e) at = tt
    go other same (t, ok users) at =
        let candidate = unless_disabled (find (has_username other) users) in
        given-Returns R (worked b salt password waiting candidate) (others t) _ λ checked e.
          let h =
            subst (OnOk (IsChecked b password)) e
              (worked-IsChecked b salt password waiting candidate) in
          with_users-Returns R io b.codec (confirm_body io.now other checked) (others t)
            λ latest loaded.
              OnOk-mono
                (λ (out : Outcome PublicUser) v. (
                  latest,
                  subst (λ u. (load_users io b.codec (others u)).1 ≡ ok latest) at loaded,
                  subst (λ n. Verified b n password latest (answer out)) same v,
                ))
                (confirm_body io.now other checked latest)
                (confirm_body-Verified b io.now other password checked latest h)
