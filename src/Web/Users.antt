-- ===== src/Web/Users.antt =====
-- internal/web/users.go: the users of the gateway, in one private file: their records, the load and the
-- save, and what each method of UserStore has in common.
pub mod Keys
pub mod Accounts
pub mod Scopes
pub mod Tokens
pub mod Sound
pub mod Saves
pub mod Standing
pub mod Bodies
pub mod KeyBodies
pub mod History
use Prim.Native.Char.{Char, code}
use Prim.Native.Nat.{◌%◌}
use Prim.Native.String.{len, ◌++◌ as text_append}
use gpuardian.Base.{
  ℕ, suc, ◌+◌, String, Bool, true, false, ◌&&◌, ◌||◌, List, [], Option, none, some, ◌==◌, string_eq,
  nat_eq, ltb, leb, if◌then◌else◌, length, ℤ, Result, ok, err, ◌>>=◌, ◌>>◌, refuse_if, trim_space,
  to_lower, is_empty, is_space, map,
}
use gpuardian.Web.PrivateFile.{
  Io, Cached, FileRead, missing, unreadable, content, read_private_file, Writing, refused, unsynced,
  written, FileError, read_failed, bad_json, encode_failed, write_failed, replaced,
}
use gpuardian.Web.Passwords.{PasswordError}

abbrev pub role_user : String
role_user = "user"

abbrev pub max_username_bytes : ℕ
max_username_bytes = 64

abbrev pub max_users_file_bytes : ℕ
max_users_file_bytes = 10_485_760

abbrev pub max_users : ℕ
max_users = 256

pub record AccessToken : Type 0 where
  pub id : String
  pub name : String
  pub hash : String
  pub scopes : List String
  pub created_at : ℕ
  pub expires_at : ℕ
  pub last_used_at : Option ℕ
  pub revoked_at : Option ℕ

pub record User : Type 0 where
  pub username : String
  pub role : String
  pub password_hash : String
  pub key_id : String
  pub key_hash : String
  pub key_version : ℤ
  pub key_cipher : String
  pub key_created_at : ℕ
  pub access_tokens : List AccessToken
  pub legacy_access_tokens : List AccessToken
  pub created_at : ℕ
  pub updated_at : ℕ
  pub disabled : Bool

pub record PublicUser : Type 0 where
  pub username : String
  pub role : String
  pub created_at : ℕ
  pub updated_at : ℕ

abbrev pub public_user : User → PublicUser
public_user u = record {
  username = u.username;
  role = u.role;
  created_at = u.created_at;
  updated_at = u.updated_at;
}

pub data UserError : Type 0 where
  username_required username_too_long username_has_space : UserError
  password_error : PasswordError → UserError
  password_work_busy username_in_use user_limit_reached user_not_found last_admin : UserError
  invalid_credentials invalid_password new_password_required : UserError
  file_error : FileError → UserError
  too_many_records : UserError
  token_name_required token_name_too_long unsupported_scope expiry_past expiry_far : UserError
  too_many_tokens token_id_required token_not_found no_randomness : UserError
  cipher_unavailable bad_stored_key decrypt_failed key_not_found : UserError

abbrev pub Checked {ℓ} : Type ℓ → Type ℓ
Checked = Result UserError

-- encoding/json on the records.
pub record Codec : Type 0 where
  pub encode : List User → Option String
  pub decode : String → Option (List User)

-- `generation` changes with the users; it is a uint64.
pub record UserStore : Type 0 where
  pub cached : Cached (List User)
  pub generation : ℕ

abbrev pub bump : ℕ → ℕ
bump n = (n + 1) % 18_446_744_073_709_551_616

abbrev pub adopt : List AccessToken → List AccessToken → List AccessToken
adopt [] legacy = legacy
adopt tokens legacy = tokens

-- Tokens under the old name in the file are taken over where there are none under the new one.
abbrev pub adopt_legacy : User → User
adopt_legacy u = record u {
  access_tokens = adopt u.access_tokens u.legacy_access_tokens;
  legacy_access_tokens = [];
}

abbrev pub hold : List User → UserStore → UserStore
hold users s = record s { cached = record s.cached { loaded = true; value = users } }

unfoldable pub take_users : Option (List User) → UserStore → UserStore × Checked (List User)
take_users none s = (s, err (file_error bad_json))
take_users (some users) s =
    if ltb max_users (length users)
    then (s, err too_many_records)
    else let adopted = map adopt_legacy users in
      (hold adopted (record s { generation = bump s.generation }), ok adopted)

unfoldable pub accept_users : Codec → FileRead → UserStore → UserStore × Checked (List User)
accept_users codec missing s = (hold [] s, ok [])
accept_users codec unreadable s = (s, err (file_error read_failed))
accept_users codec (content text) s =
    if is_empty (trim_space text) then (hold [] s, ok []) else take_users (codec.decode text) s

unfoldable pub load_users : Io → Codec → UserStore → UserStore × Checked (List User)
load_users io codec s =
    if s.cached.loaded
    then (s, ok s.cached.value)
    else accept_users codec (read_private_file io max_users_file_bytes s.cached.file) s

abbrev pub stored : List User → String → UserStore → UserStore
stored users text s = record {
  cached = replaced s.cached users text;
  generation = bump s.generation;
}

-- The copy follows the file, also where the write is reported as failed behind the rename.
abbrev pub write_users : Writing → List User → String → UserStore → UserStore × Checked (Unit {0})
write_users refused users text s = (s, err (file_error write_failed))
write_users unsynced users text s = (stored users text s, err (file_error write_failed))
write_users written users text s = (stored users text s, ok tt)

unfoldable pub save_users : Io → Codec → List User → UserStore → UserStore × Checked (Unit {0})
save_users io codec users s = elim (codec.encode users) [
  | none ↦ (s, err (file_error encode_failed))
  | some text ↦ write_users io.writing users text s
]

-- What a method does with the users that are loaded: it returns at once, or it saves and returns.
pub data Outcome (A : Type 0) : Type 0 where
  keep : A → Outcome A
  save : List User → A → Outcome A

abbrev pub answered : {A : Type 0} → A → UserStore × Checked (Unit {0}) → UserStore × Checked A
answered a (s, ok _) = (s, ok a)
answered a (s, err e) = (s, err e)

unfoldable pub settle :
    {A : Type 0} → Io → Codec → Checked (Outcome A) → UserStore → UserStore × Checked A
settle io codec (err e) s = (s, err e)
settle io codec (ok (keep a)) s = (s, ok a)
settle io codec (ok (save users a)) s = answered a (save_users io codec users s)

unfoldable pub on_loaded :
    {A : Type 0}
    → Io
    → Codec
    → (List User → Checked (Outcome A))
    → UserStore × Checked (List User)
    → UserStore × Checked A
on_loaded io codec body (s, err e) = (s, err e)
on_loaded io codec body (s, ok users) = settle io codec (body users) s

-- The critical section of a method: load, the body, save.
unfoldable pub with_users :
    {A : Type 0}
    → Io
    → Codec
    → (List User → Checked (Outcome A))
    → UserStore
    → UserStore × Checked A
with_users io codec body s = on_loaded io codec body (load_users io codec s)

-- unicode.IsSpace or unicode.IsControl.
abbrev pub is_blank : Char → Bool
is_blank r = is_space (code r) || ltb (code r) 32 || (leb 127 (code r) && leb (code r) 159)

abbrev pub has_blank : String → Bool
has_blank String.[] = false
has_blank (String.◌∷◌ r s) = is_blank r || has_blank s

unfoldable pub check_username : String → Checked String
check_username username =
    refuse_if (is_empty username) username_required
    >> refuse_if (ltb max_username_bytes (len username)) username_too_long
    >> refuse_if (has_blank username) username_has_space
    >> ok username

unfoldable pub normalize_username : (Char → Char) → String → Checked String
normalize_username lower username = check_username (to_lower lower (trim_space username))

unfoldable pub normalize_role : (Char → Char) → String → String
normalize_role lower role =
    if to_lower lower (trim_space role) == "admin" then "admin" else role_user

-- The first record with the name that is not disabled: where the methods stop.
abbrev pub is_active_named : String → User → Bool
is_active_named username u = u.username == username && (if u.disabled then false else true)
