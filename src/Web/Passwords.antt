-- ===== src/Web/Passwords.antt =====
-- internal/web/users.go: what a password must be, how its hash is made and how it is verified.
pub mod Fresh
use Prim.Native.Nat.{bit_xor, ◌/◌, ◌%◌}
use Prim.Native.Char.{code}
use Prim.Native.String.{len}
use gpuardian.Base.{
  take, ℕ, zero, suc, ◌+◌, ◌-◌, String, Bool, true, false, not, ◌&&◌, ◌||◌, List, [], ◌∷◌, ◌++◌,
  Option, none, some, ◌==◌, nat_eq, string_eq, ltb, if◌then◌else◌, length, ℤ, Result, ok, err, ◌>>◌,
  refuse_if, trim_space, is_empty, joined,
}

abbrev pub Bytes : Type 0
Bytes = List ℕ

-- Go's standard library: HMAC-SHA-256 under a key, SHA-256, the bytes of a text, encoding/hex and
-- strconv.Atoi.
pub record Crypto : Type 0 where
  pub mac : Bytes → Bytes → Bytes
  pub sha256 : Bytes → Bytes
  pub bytes_of : String → Bytes
  pub hex : Bytes → String
  pub unhex : String → Option Bytes
  pub atoi : String → Option ℤ

pub data PasswordError : Type 0 where
  password_required password_too_short password_too_long no_salt : PasswordError

abbrev pub password_hash_scheme : String
password_hash_scheme = "pbkdf2-sha256"

abbrev pub legacy_password_hash_scheme : String
legacy_password_hash_scheme = "sha256"

abbrev pub password_hash_iterations : ℕ
password_hash_iterations = 600_000

abbrev pub password_salt_bytes : ℕ
password_salt_bytes = 16

abbrev pub password_key_bytes : ℕ
password_key_bytes = 32

abbrev pub min_password_bytes : ℕ
min_password_bytes = 12

abbrev pub max_password_bytes : ℕ
max_password_bytes = 1024

unfoldable pub validate_password : String → Result PasswordError (Unit {0})
validate_password password = do
  refuse_if (is_empty (trim_space password)) password_required
  refuse_if (ltb (len password) min_password_bytes) password_too_short
  refuse_if (ltb max_password_bytes (len password)) password_too_long

-- `t[j] ^= u[j]`, for texts of one length.
abbrev pub xor_bytes : Bytes → Bytes → Bytes
xor_bytes [] us = []
xor_bytes (t ∷ ts) [] = t ∷ ts
xor_bytes (t ∷ ts) (u ∷ us) = bit_xor t u ∷ xor_bytes ts us

-- The four bytes of a block's number, the highest first.
abbrev pub counter : ℕ → Bytes
counter i = i / 16777216 % 256 ∷ i / 65536 % 256 ∷ i / 256 % 256 ∷ i % 256 ∷ []

-- The inner loop: `n` more rounds.
unfoldable pub rounds : Crypto → Bytes → ℕ → Bytes → Bytes → Bytes
rounds c password zero u t = t
rounds c password (suc n) u t =
    let next = c.mac password u in rounds c password n next (xor_bytes t next)

unfoldable pub block : Crypto → Bytes → Bytes → ℕ → ℕ → Bytes
block c password salt iterations i =
    let u = c.mac password (salt ++ counter i) in rounds c password (iterations - 1) u u

-- The blocks from number `i` on, `n` of them.
unfoldable pub blocks : Crypto → Bytes → Bytes → ℕ → ℕ → ℕ → Bytes
blocks c password salt iterations i zero = []
blocks c password salt iterations i (suc n) =
    block c password salt iterations i ++ blocks c password salt iterations (suc i) n

unfoldable pub pbkdf2_sha256 : Crypto → Bytes → Bytes → ℕ → ℕ → Bytes
pbkdf2_sha256 c password salt iterations key_len =
    take key_len (blocks c password salt iterations 1 ((key_len + 31) / 32))

-- encodePasswordHash with the salt that rand.Read gives.
unfoldable pub encode_password_hash : Crypto → Option Bytes → String → Result PasswordError String
encode_password_hash c none password = err no_salt
encode_password_hash c (some salt) password =
    let sum =
      pbkdf2_sha256 c (c.bytes_of password) salt password_hash_iterations password_key_bytes in
    ok (joined "pbkdf2-sha256$600000$" (joined (c.hex salt) (joined "$" (c.hex sum))))

unfoldable pub hash_password : Crypto → Option Bytes → String → Result PasswordError String
hash_password c salt password = validate_password password >> encode_password_hash c salt password

unfoldable pub hash_password_for_migration :
    Crypto → Option Bytes → String → Result PasswordError String
hash_password_for_migration c salt password =
    refuse_if (ltb max_password_bytes (len password)) password_too_long
    >> encode_password_hash c salt password

abbrev pub onto_first : String → List String → List String
onto_first s [] = s ∷ []
onto_first s (part ∷ parts) = joined s part ∷ parts

-- strings.Split(encoded, "$")
unfoldable pub split_dollar : String → List String
split_dollar String.[] = String.[] ∷ []
split_dollar (String.◌∷◌ r s) =
    let rest = split_dollar s in
    if code r == 36 then String.[] ∷ rest else onto_first (String.◌∷◌ r String.[]) rest

abbrev pub same_bytes : Bytes → Bytes → Bool
same_bytes [] [] = true
same_bytes [] (b ∷ bs) = false
same_bytes (a ∷ rest) [] = false
same_bytes (a ∷ rest) (b ∷ bs) = (a == b) && same_bytes rest bs

unfoldable pub check_legacy : Crypto → String → Option Bytes → Option Bytes → Bool
check_legacy c password none want = false
check_legacy c password (some salt) none = false
check_legacy c password (some salt) (some want) =
    same_bytes want (c.sha256 (salt ++ c.bytes_of password))

-- The branch for the legacy scheme: three parts.
unfoldable pub verify_legacy_password_hash : Crypto → String → List String → Bool
verify_legacy_password_hash c password (scheme ∷ salt ∷ want ∷ []) =
    check_legacy c password (c.unhex salt) (c.unhex want)
verify_legacy_password_hash c password _ = false

abbrev pub is_allowed : ℕ → Bool
is_allowed n = not (ltb n 100_000) && not (ltb 2_000_000 n)

unfoldable pub check_current : Crypto → String → Option ℤ → Option Bytes → Option Bytes → Bool
check_current c password (some (ℤ.pos n)) (some salt) (some want) =
    if is_allowed n
      && not (ltb (length salt) password_salt_bytes)
      && (length want == password_key_bytes)
    then same_bytes want (pbkdf2_sha256 c (c.bytes_of password) salt n (length want))
    else false
check_current c password _ _ _ = false

-- The other branch: four parts, the first of them the scheme's name.
unfoldable pub verify_current_password_hash : Crypto → String → List String → Bool
verify_current_password_hash c password (scheme ∷ iterations ∷ salt ∷ want ∷ []) =
    if scheme == password_hash_scheme
    then check_current c password (c.atoi iterations) (c.unhex salt) (c.unhex want)
    else false
verify_current_password_hash c password _ = false

abbrev pub is_legacy : List String → Bool
is_legacy [] = false
is_legacy (part ∷ parts) = part == legacy_password_hash_scheme

-- verifyPasswordHash. Its dummy work on a failure changes nothing but the time it takes.
unfoldable pub verify_password_hash : Crypto → String → String → Bool
verify_password_hash c encoded password =
    let parts = split_dollar encoded in
    if is_legacy parts
    then verify_legacy_password_hash c password parts
    else verify_current_password_hash c password parts

abbrev pub below_iterations : Option ℤ → Bool
below_iterations none = true
below_iterations (some (ℤ.negsuc n)) = true
below_iterations (some (ℤ.pos n)) = ltb n password_hash_iterations

abbrev pub parts_need_upgrade : Crypto → List String → Bool
parts_need_upgrade c (scheme ∷ iterations ∷ salt ∷ want ∷ []) =
    not (scheme == password_hash_scheme) || below_iterations (c.atoi iterations)
parts_need_upgrade c _ = true

unfoldable pub password_hash_needs_upgrade : Crypto → String → Bool
password_hash_needs_upgrade c encoded = parts_need_upgrade c (split_dollar encoded)
