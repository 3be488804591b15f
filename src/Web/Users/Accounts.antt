-- ===== src/Web/Users/Accounts.antt =====
-- internal/web/users.go: the methods of UserStore on accounts, from the first administrator to the
-- password that is checked while others change the users.
pub mod Verified
use Prim.Native.Char.{Char}
use gpuardian.Base.{
  ℕ, String, Bool, true, false, not, ◌&&◌, List, [], ◌∷◌, ◌++◌, Option, none, some, ◌==◌, string_eq,
  nat_eq, ltb, leb, if◌then◌else◌, length, ℤ, Result, ok, err, ◌>>=◌, ◌>>◌, or_fail, refuse_if, any,
  find, keep_if, count_if, map, update_first, trim_space, is_empty,
}
use gpuardian.Web.PrivateFile.{Io}
use gpuardian.Web.Requests.{role_admin}
use gpuardian.Web.Passwords.{
  Bytes, Crypto, PasswordError, validate_password, hash_password, hash_password_for_migration,
  verify_password_hash, password_hash_needs_upgrade,
}
use gpuardian.Web.Users.{
  User, PublicUser, public_user, UserStore, UserError, Checked, Outcome, keep, save, with_users,
  load_users, normalize_username, normalize_role, is_active_named, max_users, password_error,
  password_work_busy, username_in_use, user_limit_reached, user_not_found, last_admin,
  invalid_credentials, invalid_password, new_password_required,
}
use gpuardian.Web.Users.Keys.{Backend, KeyDraw, Aead, assign, given}

abbrev pub of_password : {A : Type 0} → Result PasswordError A → Checked A
of_password (ok a) = ok a
of_password (err e) = err (password_error e)

abbrev pub fresh_record : String → String → String → ℕ → User
fresh_record name role hash now = record {
  username = name;
  role = role;
  password_hash = hash;
  key_id = "";
  key_hash = "";
  key_version = ℤ.pos 0;
  key_cipher = "";
  key_created_at = 0;
  access_tokens = [];
  legacy_access_tokens = [];
  created_at = now;
  updated_at = now;
  disabled = false;
}

unfoldable pub new_user_record :
    Backend → ℕ → Option Bytes → String → String → String → Checked User
new_user_record b now salt username password role = normalize_username b.lower username >>= λ name.
    of_password (validate_password password)
    >> (of_password (hash_password b.crypto salt password) >>= λ hash.
        ok (fresh_record name (normalize_role b.lower role) hash now))

unfoldable pub bootstrap_body :
    Backend → ℕ → Option Bytes → String → String → List User → Checked (Outcome (Unit {0}))
bootstrap_body b now salt username password users =
    if ltb 0 (length users)
    then ok (keep tt)
    else (new_user_record b now salt username password role_admin >>= λ u. ok (save (u ∷ []) tt))

unfoldable pub bootstrap_admin :
    Backend → Io → Option Bytes → String → String → UserStore → UserStore × Checked (Unit {0})
bootstrap_admin b io salt username password s =
    with_users io b.codec (bootstrap_body b io.now salt username password) s

unfoldable pub list : Backend → Io → UserStore → UserStore × Checked (List PublicUser)
list b io s =
    with_users io b.codec
      (λ users. ok (keep (map public_user (keep_if (λ u. not u.disabled) users)))) s

-- An unknown name, and one that is no name, give no user and no error.
abbrev pub get_named : Backend → Io → UserStore → Checked String → UserStore × Checked (Option User)
get_named b io s (err e) = (s, ok none)
get_named b io s (ok name) =
    with_users io b.codec (λ users. ok (keep (find (is_active_named name) users))) s

unfoldable pub get_user : Backend → Io → String → UserStore → UserStore × Checked (Option User)
get_user b io username s = get_named b io s (normalize_username b.lower username)

abbrev pub assign_if : Backend → ℕ → Option KeyDraw → Option Aead → User → Checked User
assign_if b now draw none u = ok u
assign_if b now draw (some aead) u = assign b.crypto (some aead) now draw (ℤ.pos 1) u

abbrev pub has_username : String → User → Bool
has_username name u = u.username == name

unfoldable pub create_body : User → List User → Checked (Outcome PublicUser)
create_body u users =
    refuse_if (any (has_username u.username) users) username_in_use
    >> refuse_if (leb max_users (length users)) user_limit_reached
    >> ok (save (users ++ u ∷ []) (public_user u))

-- The record of Create, made outside the critical section. `busy`: no slot for the hashing was free.
unfoldable pub prepare :
    Backend → ℕ → Bool → Option Bytes → Option KeyDraw → String → String → String → Checked User
prepare b now busy salt draw username password role =
    refuse_if busy password_work_busy
    >> (new_user_record b now salt username password role >>= λ u.
        assign_if b now draw b.key_cipher u)

unfoldable pub create :
    Backend
    → Io
    → Bool
    → Option Bytes
    → Option KeyDraw
    → String
    → String
    → String
    → UserStore
    → UserStore × Checked PublicUser
create b io busy salt draw username password role s =
    given (prepare b io.now busy salt draw username password role) s
      λ u. with_users io b.codec (create_body u) s

abbrev pub is_active_admin : User → Bool
is_active_admin u = u.role == role_admin && not u.disabled

abbrev pub retire : ℕ → User → User
retire now u = record u {
  password_hash = "";
  key_cipher = "";
  access_tokens = [];
  disabled = true;
  updated_at = now;
}

unfoldable pub delete_body : ℕ → String → List User → Checked (Outcome (Unit {0}))
delete_body now name users = or_fail (find (has_username name) users) user_not_found >>= λ u.
    refuse_if u.disabled user_not_found
    >> refuse_if (u.role == role_admin && (count_if is_active_admin users == 1)) last_admin
    >> (or_fail (update_first (has_username name) (retire now) users) user_not_found >>= λ changed.
        ok (save changed tt))

unfoldable pub delete_user : Backend → Io → String → UserStore → UserStore × Checked (Unit {0})
delete_user b io username s =
    given (normalize_username b.lower username) s
      λ name. with_users io b.codec (delete_body io.now name) s

-- The second section of a method that checked a password: the record must be the one that was checked.
abbrev pub is_same_record : User → User → Bool
is_same_record u candidate =
    (u.password_hash == candidate.password_hash) && (u.updated_at == candidate.updated_at)

abbrev pub with_hash : ℕ → String → User → User
with_hash now hash u = record u { password_hash = hash; updated_at = now }

unfoldable pub put_hash : ℕ → String → String → User → List User → Checked (Outcome PublicUser)
put_hash now name hash u users =
    or_fail (update_first (is_active_named name) (with_hash now hash) users) user_not_found
    >>= λ changed. ok (save changed (public_user (with_hash now hash u)))

unfoldable pub change_body : ℕ → String → User → String → List User → Checked (Outcome PublicUser)
change_body now name candidate hash users =
    or_fail (find (is_active_named name) users) user_not_found >>= λ u.
    refuse_if (not (is_same_record u candidate)) invalid_password >> put_hash now name hash u users

-- The work between the sections: the old password is verified, the new one is hashed.
unfoldable pub renew :
    Backend → Bool → Option Bytes → String → String → Option User → Checked (User × String)
renew b busy salt current next none = refuse_if busy password_work_busy >> err user_not_found
renew b busy salt current next (some u) =
    refuse_if busy password_work_busy
    >> (if verify_password_hash b.crypto u.password_hash current
        then (of_password (hash_password b.crypto salt next) >>= λ hash. ok (u, hash))
        else err invalid_password)

-- The users of a section that only reads.
abbrev pub on_read :
    {A : Type 0}
    → UserStore × Checked (List User)
    → (UserStore → List User → UserStore × Checked A)
    → UserStore × Checked A
on_read (s, err e) next = (s, err e)
on_read (s, ok users) next = next s users

unfoldable pub check_new_password : String → Checked (Unit {0})
check_new_password password =
    refuse_if (is_empty (trim_space password)) new_password_required
    >> of_password (validate_password password)

-- `others` is what other calls do to the store between the two sections.
unfoldable pub change_password :
    Backend
    → Io
    → Bool
    → Option Bytes
    → (UserStore → UserStore)
    → String
    → String
    → String
    → UserStore
    → UserStore × Checked PublicUser
change_password b io busy salt others username current next s =
    given (normalize_username b.lower username) s λ name. given (check_new_password next) s λ _.
      on_read (load_users io b.codec s) λ t users.
        given (renew b busy salt current next (find (is_active_named name) users)) (others t)
          λ (candidate, hash).
            with_users io b.codec (change_body io.now name candidate hash) (others t)

-- The record whose password is checked: none for a name that is unknown or disabled.
abbrev pub unless_disabled : Option User → Option User
unless_disabled none = none
unless_disabled (some u) = if u.disabled then none else some u

abbrev pub upgrade : Backend → Option Bytes → String → String → Checked (Option String)
upgrade b salt password hash =
    if password_hash_needs_upgrade b.crypto hash
    then (of_password (hash_password_for_migration b.crypto salt password) >>= λ new. ok (some new))
    else ok none

unfoldable pub verify :
    Backend → Option Bytes → String → Option User → Checked (User × Option String)
verify b salt password none = err invalid_credentials
verify b salt password (some u) =
    if verify_password_hash b.crypto u.password_hash password
    then (upgrade b salt password u.password_hash >>= λ upgraded. ok (u, upgraded))
    else err invalid_credentials

unfoldable pub keep_or_put :
    ℕ → String → User → List User → Option String → Checked (Outcome PublicUser)
keep_or_put now name u users none = ok (keep (public_user u))
keep_or_put now name u users (some hash) = put_hash now name hash u users

unfoldable pub confirm_body :
    ℕ → String → User × Option String → List User → Checked (Outcome PublicUser)
confirm_body now name (candidate, upgraded) users =
    or_fail (find (is_active_named name) users) invalid_credentials >>= λ u.
    refuse_if (not (is_same_record u candidate)) invalid_credentials
    >> keep_or_put now name u users upgraded

-- authenticate. `waiting` is the error with which the wait for a slot ends, if it does.
unfoldable pub authenticate :
    Backend
    → Io
    → Option UserError
    → Option Bytes
    → (UserStore → UserStore)
    → String
    → String
    → UserStore
    → UserStore × Checked PublicUser
authenticate b io waiting salt others username password s =
    given (normalize_username b.lower username) s λ name.
      on_read (load_users io b.codec s) λ t users.
        given
          (elim waiting [
            | some e ↦ err e
            | none ↦ verify b salt password (unless_disabled (find (has_username name) users))
          ])
          (others t) λ checked. with_users io b.codec (confirm_body io.now name checked) (others t)
