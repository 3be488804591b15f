-- ===== src/Witness/Passwords.antt =====
-- A password's hash, at a concrete cryptography.
use Prim.Native.Char.{code}
use mathlib.Core.Option
use gpuardian.Base.{
  ℕ, zero, suc, ◌+◌, ◌≡◌, refl, ap, ◌∙◌, String, true, false, [], ◌∷◌, Option, some, ◌==◌, nat_eq,
  if◌then◌else◌, pos, OnOk, arith,
}
use gpuardian.Web.Passwords.{
  Bytes, Crypto, encode_password_hash, verify_password_hash, password_hash_needs_upgrade,
}
use gpuardian.Web.Passwords.Fresh.{IsStandard, has_no_dollar, encode_password_hash-verifies}

-- A byte as that many letters `a` and one `b`.
letters : ℕ → String → String
letters zero rest = String.◌∷◌ "b" rest
letters (suc n) rest = String.◌∷◌ "a" (letters n rest)

pub as_letters : Bytes → String
as_letters [] = String.[]
as_letters (n ∷ ns) = letters n (as_letters ns)

pub read_letters : ℕ → String → Option Bytes
read_letters n String.[] = some []
read_letters n (String.◌∷◌ c s) =
    let more = read_letters (suc n) s in
    let rest = read_letters 0 s in if code c == 97 then more else Option.map (λ ns. n ∷ ns) rest

read-letters :
    (k n : ℕ) (s : String)
    → read_letters k (letters n s) ≡ Option.map (λ ns. (k + n) ∷ ns) (read_letters 0 s)
unfolding letters read_letters
read-letters k zero s = ap (λ m. Option.map (λ ns. m ∷ ns) (read_letters 0 s)) (omega arith)
read-letters k (suc n) s =
    read-letters (suc k) n s ∙ ap (λ m. Option.map (λ ns. m ∷ ns) (read_letters 0 s)) (omega arith)

pub letters_back : (bs : Bytes) → read_letters 0 (as_letters bs) ≡ some bs
unfolding as_letters read_letters
letters_back [] = refl
letters_back (n ∷ ns) =
    read-letters 0 n (as_letters ns)
    ∙ ap (Option.map (λ ms. (0 + n) ∷ ms)) (letters_back ns)
    ∙ ap (λ m. some (m ∷ ns)) (omega arith)

letters_plain : (n : ℕ) (s : String) → has_no_dollar s ≡ true → has_no_dollar (letters n s) ≡ true
unfolding letters
letters_plain zero s h = h
letters_plain (suc n) s h = letters_plain n s h

all_plain : (bs : Bytes) → has_no_dollar (as_letters bs) ≡ true
unfolding as_letters
all_plain [] = refl
all_plain (n ∷ ns) = letters_plain n (as_letters ns) (all_plain ns)

abbrev sixteen : Bytes
sixteen = 1 ∷ 2 ∷ 3 ∷ 4 ∷ 5 ∷ 6 ∷ 7 ∷ 8 ∷ 1 ∷ 2 ∷ 3 ∷ 4 ∷ 5 ∷ 6 ∷ 7 ∷ 8 ∷ []

abbrev pub thirty_two : Bytes
thirty_two = 1 ∷ 2 ∷ 3 ∷ 4 ∷ 5 ∷ 6 ∷ 7 ∷ 8 ∷ 1 ∷ 2 ∷ 3 ∷ 4 ∷ 5 ∷ 6 ∷ 7 ∷ 8 ∷ sixteen

abbrev pub simple : Crypto
simple = record {
  mac = λ key message. thirty_two;
  sha256 = λ message. thirty_two;
  bytes_of = λ text. 1 ∷ [];
  hex = as_letters;
  unhex = read_letters 0;
  atoi = λ text. some (pos 600_000);
}

simple-IsStandard : IsStandard simple
simple-IsStandard = record {
  mac_size = λ key message. refl;
  hex_back = letters_back;
  hex_plain = all_plain;
  number = refl;
}

encode_password_hash-verifies_example :
    OnOk
      (λ hash.
        (verify_password_hash simple hash "correct horse" ≡ true)
        × (password_hash_needs_upgrade simple hash ≡ false))
      (encode_password_hash simple (some sixteen) "correct horse")
encode_password_hash-verifies_example =
    encode_password_hash-verifies simple sixteen "correct horse" simple-IsStandard refl
