-- ===== src/Web/Users/Keys.antt =====
-- internal/web/user_keys.go: the fixed key of each user, encrypted in the user's record.
pub mod Named
pub mod Matches
use Prim.Native.Char.{Char}
use Prim.Native.String.{◌++◌ as text_append}
use gpuardian.Base.{
  length, take, drop, leb, ◌++◌, ℕ, suc, String, Bool, true, false, not, ◌&&◌, ◌||◌, List, [], ◌∷◌,
  Option, none, some, ◌==◌, string_eq, nat_eq, ltb, if◌then◌else◌, ℤ, ok, err, ◌>>=◌, ◌>>◌, or_fail,
  trim_space, to_lower, is_empty, map, any, find, keep_if, update_first, sort_by, text_below,
}
use gpuardian.Web.PrivateFile.{Io}
use gpuardian.Web.Passwords.{Bytes, Crypto}
use gpuardian.Web.Users.{
  User, UserStore, UserError, Checked, Codec, Outcome, keep, save, with_users, normalize_username,
  is_active_named, user_not_found, no_randomness, cipher_unavailable, bad_stored_key,
  decrypt_failed, key_not_found,
}

-- fixedKeyAAD: what a ciphertext is bound to.
pub record KeyLabel : Type 0 where
  pub username : String
  pub key_id : String
  pub key_version : ℤ

-- crypto/cipher's AES-GCM: the length of a nonce, Seal and Open; and encoding/base64.
pub record Aead : Type 0 where
  pub nonce_size : ℕ
  pub seal : Bytes → String → KeyLabel → Bytes
  pub open_sealed : Bytes → Bytes → KeyLabel → Option String
  pub encode64 : Bytes → String
  pub decode64 : String → Option Bytes

-- The random texts of one key: the hexadecimal digits of its id and its secret, and the nonce.
pub record KeyDraw : Type 0 where
  pub id : String
  pub secret : String
  pub nonce : Bytes

-- What the methods use of the outside: Unicode's lower case, cryptography, encoding/json and the cipher
-- of the keys, once InitializeFixedKeys has set it.
pub record Backend : Type 0 where
  pub lower : Char → Char
  pub crypto : Crypto
  pub codec : Codec
  pub key_cipher : Option Aead

abbrev pub digest : Crypto → String → String
digest c secret = c.hex (c.sha256 (c.bytes_of secret))

abbrev pub fixed_key_aad : User → KeyLabel
fixed_key_aad u = record { username = u.username; key_id = u.key_id; key_version = u.key_version }

abbrev pub key_secret : KeyDraw → String
key_secret draw = text_append "gk_" draw.secret

-- The record with the names of the new key, before it is encrypted.
abbrev pub with_key : Crypto → ℕ → KeyDraw → ℤ → User → User
with_key c now draw version u = record u {
  key_id = text_append "uk_" draw.id;
  key_version = version;
  key_created_at = now;
  key_hash = digest c (key_secret draw);
}

abbrev pub sealed : Aead → KeyDraw → User → User
sealed aead draw u = record u {
  key_cipher =
      aead.encode64 (draw.nonce ++ aead.seal draw.nonce (key_secret draw) (fixed_key_aad u));
}

unfoldable pub assign : Crypto → Option Aead → ℕ → Option KeyDraw → ℤ → User → Checked User
assign c none now draw version u = err cipher_unavailable
assign c (some aead) now none version u = err no_randomness
assign c (some aead) now (some draw) version u =
    ok (sealed aead draw (with_key c now draw version u))

-- Behind the decoding of base64: the nonce, and the ciphertext, of which something must be there.
unfoldable pub open_key : Aead → User → Option Bytes → Checked String
open_key aead u none = err bad_stored_key
open_key aead u (some raw) =
    if leb (length raw) aead.nonce_size
    then err bad_stored_key
    else or_fail
        (aead.open_sealed (take aead.nonce_size raw) (drop aead.nonce_size raw) (fixed_key_aad u))
        decrypt_failed

unfoldable pub reveal : Option Aead → User → Checked String
reveal none u = err cipher_unavailable
reveal (some aead) u = open_key aead u (aead.decode64 u.key_cipher)

-- One user of InitializeFixedKeys, and whether the record has changed.
unfoldable pub initialize_one : Crypto → Aead → ℕ → Option KeyDraw → User → Checked (User × Bool)
initialize_one c aead now draw u =
    if u.disabled
    then ok (u, false)
    else if is_empty u.key_id
    then (assign c (some aead) now draw (ℤ.pos 1) u >>= λ assigned. ok (assigned, true))
    else (reveal (some aead) u >>= λ _. ok (u, false))

-- The loop; `draws` gives the random texts of each place.
unfoldable pub initialize_all :
    Crypto → Aead → ℕ → (ℕ → Option KeyDraw) → ℕ → List User → Checked (List User × Bool)
initialize_all c aead now draws i [] = ok ([], false)
initialize_all c aead now draws i (u ∷ us) =
    let rest = initialize_all c aead now draws (suc i) us in
    initialize_one c aead now (draws i) u >>= λ (first, changed).
    rest >>= λ (others, more). ok (first ∷ others, changed || more)

unfoldable pub initialize_body :
    Crypto → Aead → ℕ → (ℕ → Option KeyDraw) → List User → Checked (Outcome (Unit {0}))
initialize_body c aead now draws users =
    initialize_all c aead now draws 0 users >>= λ (all_users, changed).
    ok (if changed then save all_users tt else keep tt)

unfoldable pub initialize_fixed_keys :
    Backend → Io → Aead → (ℕ → Option KeyDraw) → UserStore → UserStore × Checked (Unit {0})
initialize_fixed_keys b io aead draws s =
    with_users io b.codec (initialize_body b.crypto aead io.now draws) s

unfoldable pub has_encrypted_fixed_keys : Backend → Io → UserStore → UserStore × Checked Bool
has_encrypted_fixed_keys b io s =
    with_users io b.codec
      (λ users. ok (keep (any (λ u. not u.disabled && not (is_empty u.key_cipher)) users))) s

pub record FixedUserKey : Type 0 where
  pub id : String
  pub owner : String
  pub version : ℤ
  pub created_at : ℕ
  pub secret : String

abbrev pub fixed_user_key : User → String → FixedUserKey
fixed_user_key u secret = record {
  id = u.key_id;
  owner = u.username;
  version = u.key_version;
  created_at = u.key_created_at;
  secret = secret;
}

pub record FixedUserKeyVerifier : Type 0 where
  pub id : String
  pub owner : String
  pub version : ℤ
  pub hash : String

abbrev pub verifier_of : User → FixedUserKeyVerifier
verifier_of u = record {
  id = u.key_id;
  owner = u.username;
  version = u.key_version;
  hash = u.key_hash;
}

abbrev pub has_key : User → Bool
has_key u = not (u.disabled || is_empty u.key_id)

unfoldable pub fixed_keys : Backend → Io → UserStore → UserStore × Checked (List FixedUserKey)
fixed_keys b io s =
    with_users io b.codec
      (λ users. ok (
        keep (
          sort_by (λ (k l : FixedUserKey). text_below k.owner l.owner)
            (map (λ u. fixed_user_key u "") (keep_if has_key users)))))
      s

abbrev pub verifiers_of : List User → List FixedUserKeyVerifier
verifiers_of users =
    sort_by (λ (k l : FixedUserKeyVerifier). text_below k.id l.id)
      (map verifier_of (keep_if has_key users))

unfoldable pub fixed_key_verifiers :
    Backend → Io → UserStore → UserStore × Checked (List FixedUserKeyVerifier)
fixed_key_verifiers b io s = with_users io b.codec (λ users. ok (keep (verifiers_of users))) s

-- What follows the name of a request: refused, or the method's section.
unfoldable pub given :
    {P A : Type 0} → Checked P → UserStore → (P → UserStore × Checked A) → UserStore × Checked A
given (err e) s section = (s, err e)
given (ok p) s section = section p

unfoldable pub reveal_body : Backend → String → List User → Checked (Outcome FixedUserKey)
reveal_body b name users = or_fail (find (is_active_named name) users) user_not_found >>= λ u.
    reveal b.key_cipher u >>= λ secret. ok (keep (fixed_user_key u secret))

unfoldable pub reveal_fixed_key :
    Backend → Io → String → UserStore → UserStore × Checked FixedUserKey
reveal_fixed_key b io username s =
    given (normalize_username b.lower username) s
      λ name. with_users io b.codec (reveal_body b name) s

-- The version of the next key, at least 1; an int64 that ends is put to 1 too.
abbrev pub next_version : ℤ → ℤ
next_version (ℤ.pos n) = if n == 9_223_372_036_854_775_807 then ℤ.pos 1 else ℤ.pos (suc n)
next_version (ℤ.negsuc n) = ℤ.pos 1

unfoldable pub regenerate_body :
    Backend → ℕ → Option KeyDraw → String → List User → Checked (Outcome User)
regenerate_body b now draw name users =
    or_fail (find (is_active_named name) users) user_not_found >>= λ u.
    assign b.crypto b.key_cipher now draw (next_version u.key_version) u >>= λ assigned.
    or_fail (update_first (is_active_named name) (λ _. assigned) users) user_not_found
    >>= λ changed. ok (save changed assigned)

abbrev pub reveal_saved : Backend → UserStore × Checked User → UserStore × Checked FixedUserKey
reveal_saved b (s, err e) = (s, err e)
reveal_saved b (s, ok u) = (s, reveal b.key_cipher u >>= λ secret. ok (fixed_user_key u secret))

unfoldable pub regenerate_fixed_key :
    Backend → Io → Option KeyDraw → String → UserStore → UserStore × Checked FixedUserKey
regenerate_fixed_key b io draw username s =
    given (normalize_username b.lower username) s
      λ name. reveal_saved b (with_users io b.codec (regenerate_body b io.now draw name) s)

abbrev pub pick_verifier :
    String
    → UserStore × Checked (List FixedUserKeyVerifier)
    → UserStore × Checked FixedUserKeyVerifier
pick_verifier owner (s, err e) = (s, err e)
pick_verifier owner (s, ok verifiers) =
    (s, or_fail (find (λ v. v.owner == owner) verifiers) key_not_found)

unfoldable pub fixed_key_for_user :
    Backend → Io → String → UserStore → UserStore × Checked FixedUserKeyVerifier
fixed_key_for_user b io username s =
    pick_verifier (to_lower b.lower (trim_space username)) (fixed_key_verifiers b io s)
