-- ===== src/Base/Text.antt =====
-- What the source takes from Go's `strings`: TrimSpace, ToLower, EqualFold, HasPrefix and the zero
-- string. A text is the sequence of its runes.
use Prim.Native.Nat.{ℕ, Ordering}
use Prim.Native.Char.{Char, code}
use Prim.Native.String.{String, compare}
use mathlib.Core.Path.{◌≡◌, refl}
use mathlib.Core.Bool.{Bool, true, false, ◌&&◌, ◌||◌}
use native.Mathlib.Omega.{arith}
use gpuardian.Base.Tests.{if◌then◌else◌, ◌==◌, nat_eq, string_eq, leb, ltb}

abbrev pub is_empty : String → Bool
is_empty String.[] = true
is_empty (String.◌∷◌ c s) = false

-- unicode.IsSpace, by code point.
pub is_space : ℕ → Bool
is_space c =
    (leb 9 c && leb c 13)
    || c == 32
    || c == 0x85
    || c == 0xa0
    || c == 0x1680
    || (leb 0x2000 c && leb c 0x200a)
    || c == 0x2028
    || c == 0x2029
    || c == 0x202f
    || c == 0x205f
    || c == 0x3000

trim_left : String → String
trim_left String.[] = String.[]
trim_left (String.◌∷◌ c s) = if is_space (code c) then trim_left s else String.◌∷◌ c s

-- A rune is dropped where it and all behind it are spaces.
trim_right : String → String
trim_right String.[] = String.[]
trim_right (String.◌∷◌ c s) =
    let rest = trim_right s in
    if is_space (code c) && is_empty rest then String.[] else String.◌∷◌ c rest

unfoldable pub trim_space : String → String
unfolding trim_left trim_right is_space
trim_space s = trim_right (trim_left s)

trim_right_idem : (s : String) → trim_right (trim_right s) ≡ trim_right s
unfolding trim_right
trim_right_idem String.[] = refl
trim_right_idem (String.◌∷◌ c s) = ground (arith, trim_right_idem s)

-- The first rune is no space.
abbrev starts_solid : String → Bool
starts_solid String.[] = true
starts_solid (String.◌∷◌ c s) = if is_space (code c) then false else true

trim_left-starts_solid : (s : String) → starts_solid (trim_left s) ≡ true
unfolding trim_left
trim_left-starts_solid String.[] = refl
trim_left-starts_solid (String.◌∷◌ c s) = ground (arith, trim_left-starts_solid s)

trim_left_of_trimmed : (s : String) → starts_solid s ≡ true → trim_left s ≡ s
unfolding trim_left
trim_left_of_trimmed String.[] h = refl
trim_left_of_trimmed (String.◌∷◌ c s) h = ground arith

trim_right-starts_solid : (s : String) → starts_solid s ≡ true → starts_solid (trim_right s) ≡ true
unfolding trim_right
trim_right-starts_solid String.[] h = refl
trim_right-starts_solid (String.◌∷◌ c s) h = ground arith

-- Trimming twice changes nothing.
pub trim_space_idem : (s : String) → trim_space (trim_space s) ≡ trim_space s
unfolding trim_space
trim_space_idem s =
    rw
      (trim_left_of_trimmed (trim_right (trim_left s))
        (trim_right-starts_solid (trim_left s) (trim_left-starts_solid s)))
      (trim_right_idem (trim_left s))

-- The rune of `to` at the place where `from` has `c`, or `c`.
replace_in : String → String → Char → Char
replace_in (String.◌∷◌ a from) (String.◌∷◌ b to) c =
    if code a == code c then b else replace_in from to c
replace_in String.[] to c = c
replace_in (String.◌∷◌ a from) String.[] c = c

-- unicode.ToLower: ASCII is written out, the rest is the table `beyond` of Unicode.
lower_rune : (Char → Char) → Char → Char
unfolding replace_in
lower_rune beyond c =
    if ltb (code c) 128
    then replace_in "ABCDEFGHIJKLMNOPQRSTUVWXYZ" "abcdefghijklmnopqrstuvwxyz" c
    else beyond c

-- strings.ToLower
unfoldable pub to_lower : (Char → Char) → String → String
unfolding lower_rune
to_lower beyond String.[] = String.[]
to_lower beyond (String.◌∷◌ c s) = String.◌∷◌ (lower_rune beyond c) (to_lower beyond s)

-- strings.HasPrefix, rune by rune.
abbrev pub has_prefix : String → String → Bool
has_prefix s String.[] = true
has_prefix String.[] (String.◌∷◌ b t) = false
has_prefix (String.◌∷◌ a s) (String.◌∷◌ b t) = (code a == code b) && has_prefix s t

-- strings.EqualFold: both texts with each rune put for its class under simple case folding.
unfoldable pub equal_fold : (Char → Char) → String → String → Bool
unfolding to_lower
equal_fold fold s t = to_lower fold s == to_lower fold t

trimmed : trim_space "  Ada L.\t\n" ≡ "Ada L."
unfolding trim_space
trimmed = refl

lowered : to_lower (λ c. c) "Key-ÄB" ≡ "key-Äb"
unfolding to_lower
lowered = refl

-- `a < b` on strings: by bytes, which is by runes in UTF-8.
abbrev pub text_below : String → String → Bool
text_below a b = elim (compare a b) [ Ordering.lt ↦ true | _ ↦ false ]
