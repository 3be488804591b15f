-- ===== src/Web/Passwords/Fresh.antt =====
-- internal/web/users.go: a password's hash is verified by the password.
use Prim.Native.Char.{code}
use gpuardian.Base.{
  take, ℕ, zero, suc, ◌-◌, ◌≤◌, ◌≡◌, refl, ap, ◌∙◌, String, Bool, true, false, not, ◌&&◌, [], ◌∷◌,
  ◌++◌, some, ◌==◌, ==_refl, nat_eq, string_eq, length, length-append, ℤ, OnOk, joined, arith,
  Bool-cases, inl, inr,
}
use gpuardian.Web.Passwords.{
  Bytes, Crypto, xor_bytes, counter, rounds, block, blocks, pbkdf2_sha256, encode_password_hash,
  onto_first, split_dollar, same_bytes, check_current, verify_current_password_hash,
  verify_password_hash, password_hash_needs_upgrade,
}

abbrev pub has_no_dollar : String → Bool
has_no_dollar String.[] = true
has_no_dollar (String.◌∷◌ r s) = not (code r == 36) && has_no_dollar s

-- What the standard library promises: a MAC has 32 bytes, hexadecimal digits can be read back and
-- hold no `$`, and the number that is written is read.
pub record IsStandard (c : Crypto) : Type 0 where
  pub mac_size : (key message : Bytes) → length (c.mac key message) ≡ 32
  pub hex_back : (bs : Bytes) → c.unhex (c.hex bs) ≡ some bs
  pub hex_plain : (bs : Bytes) → has_no_dollar (c.hex bs) ≡ true
  pub number : c.atoi "600000" ≡ some (ℤ.pos 600_000)

same_bytes_refl : (bs : Bytes) → same_bytes bs bs ≡ true
same_bytes_refl [] = refl
same_bytes_refl (b ∷ bs) = rw (==_refl b) (same_bytes_refl bs)

length-xor_bytes : (ts us : Bytes) → length (xor_bytes ts us) ≡ length ts
length-xor_bytes [] us = refl
length-xor_bytes (t ∷ ts) [] = refl
length-xor_bytes (t ∷ ts) (u ∷ us) = ap (λ n. suc n) (length-xor_bytes ts us)

length-rounds :
    (c : Crypto) (password : Bytes) (n : ℕ) (u t : Bytes)
    → length (rounds c password n u t) ≡ length t
unfolding rounds
length-rounds c password zero u t = refl
length-rounds c password (suc n) u t =
    length-rounds c password n (c.mac password u) (xor_bytes t (c.mac password u))
    ∙ length-xor_bytes t (c.mac password u)

length-take : (n : ℕ) (bs : Bytes) → n ≤ length bs → length (take n bs) ≡ n
length-take zero bs h = refl
length-take (suc n) [] h = absurd (omega (arith, h))
length-take (suc n) (b ∷ bs) h = ap (λ k. suc k) (length-take n bs (omega (arith, h)))

-- A key of 32 bytes takes one block.
length-pbkdf2_sha256 :
    (c : Crypto) (password salt : Bytes) (iterations : ℕ)
    → IsStandard c
    → length (pbkdf2_sha256 c password salt iterations 32) ≡ 32
unfolding pbkdf2_sha256 blocks block
length-pbkdf2_sha256 c password salt iterations s =
    let u = c.mac password (salt ++ counter 1) in
    let one =
      length-rounds c password (iterations - 1) u u ∙ s.mac_size password (salt ++ counter 1) in
    length-take 32 _ (omega (arith, length-append (rounds c password (iterations - 1) u u) [], one))

-- A text without `$`, alone and before one.
split_plain : (s : String) → has_no_dollar s ≡ true → split_dollar s ≡ s ∷ []
unfolding split_dollar
split_plain String.[] h = refl
split_plain (String.◌∷◌ r s) h = elim (Bool-cases (code r == 36)) [
  | inl e ↦ absurd (ground (arith, e, h))
  | inr e ↦ rw e (ap (onto_first (String.◌∷◌ r String.[])) (split_plain s (ground (arith, e, h))))
]

split_joined :
    (s t : String)
    → has_no_dollar s ≡ true
    → split_dollar (joined s (String.◌∷◌ "$" t)) ≡ s ∷ split_dollar t
unfolding split_dollar
split_joined String.[] t h = refl
split_joined (String.◌∷◌ r s) t h = elim (Bool-cases (code r == 36)) [
  | inl e ↦ absurd (ground (arith, e, h))
  | inr e ↦
      rw e (ap (onto_first (String.◌∷◌ r String.[])) (split_joined s t (ground (arith, e, h))))
]

abbrev encoded : Crypto → Bytes → String → String
encoded c salt password =
    let sum = pbkdf2_sha256 c (c.bytes_of password) salt 600_000 32 in
    joined "pbkdf2-sha256$600000$" (joined (c.hex salt) (joined "$" (c.hex sum)))

split-encoded :
    (c : Crypto) (salt : Bytes) (password : String)
    → IsStandard c
    → split_dollar (encoded c salt password)
      ≡ "pbkdf2-sha256"
        ∷ "600000"
        ∷ c.hex salt
        ∷ c.hex (pbkdf2_sha256 c (c.bytes_of password) salt 600_000 32)
        ∷ []
split-encoded c salt password s =
    let sum = c.hex (pbkdf2_sha256 c (c.bytes_of password) salt 600_000 32) in
    let rest = joined (c.hex salt) (String.◌∷◌ "$" sum) in
    split_joined "pbkdf2-sha256" (joined "600000" (String.◌∷◌ "$" rest)) refl
    ∙ ap (λ ps. "pbkdf2-sha256" ∷ ps)
        (split_joined "600000" rest refl
          ∙ ap (λ ps. "600000" ∷ ps)
              (split_joined (c.hex salt) sum (s.hex_plain salt)
                ∙ ap (λ ps. c.hex salt ∷ ps) (split_plain sum (s.hex_plain _))))

check_fresh :
    (c : Crypto) (salt : Bytes) (password : String)
    → IsStandard c
    → length salt ≡ 16
    → check_current c password
        (some (ℤ.pos 600_000))
        (some salt)
        (some (pbkdf2_sha256 c (c.bytes_of password) salt 600_000 32))
      ≡ true
unfolding check_current
check_fresh c salt password s sixteen =
    let bs = c.bytes_of password in
    let size = length-pbkdf2_sha256 c bs salt 600_000 s in
    rw sixteen (rw size (same_bytes_refl (pbkdf2_sha256 c bs salt 600_000 32)))

-- The hash that is made for a password with 16 bytes of salt is verified by the password, and does not
-- ask to be made anew.
pub encode_password_hash-verifies :
    (c : Crypto) (salt : Bytes) (password : String)
    → IsStandard c
    → length salt ≡ 16
    → OnOk
        (λ hash.
          (verify_password_hash c hash password ≡ true)
          × (password_hash_needs_upgrade c hash ≡ false))
        (encode_password_hash c (some salt) password)
unfolding encode_password_hash verify_password_hash verify_current_password_hash
    password_hash_needs_upgrade
encode_password_hash-verifies c salt password s sixteen =
    let sum = pbkdf2_sha256 c (c.bytes_of password) salt 600_000 32 in
    let parts = split-encoded c salt password s in
    (
      rw parts (
          rw s.number
            (rw (s.hex_back salt) (rw (s.hex_back sum) (check_fresh c salt password s sixteen)))),
      rw parts (rw s.number refl),
    )
