-- ===== src/Base/Parts.antt =====
-- Taking texts apart, as Go's `strings` does: Split, Index, HasSuffix, CutPrefix.
use Prim.Native.Char.{Char, code}
use Prim.Native.String.{String}
use mathlib.Core.Bool.{Bool, false, ◌||◌}
use mathlib.Core.Option.{Option, none, some}
use mathlib.Core.List.{List, [], ◌∷◌}
use gpuardian.Base.Tests.{if◌then◌else◌, ◌==◌, nat_eq, string_eq}

abbrev pub is_rune : Char → Char → Bool
is_rune a b = code a == code b

-- The first part with one more rune in front.
abbrev pub onto_first : Char → List String → List String
onto_first c [] = String.◌∷◌ c String.[] ∷ []
onto_first c (p ∷ ps) = String.◌∷◌ c p ∷ ps

-- strings.Split at a separator of one rune.
unfoldable pub split_at : Char → String → List String
split_at sep String.[] = String.[] ∷ []
split_at sep (String.◌∷◌ c s) =
    let rest = split_at sep s in if is_rune c sep then String.[] ∷ rest else onto_first c rest

abbrev pub contains_rune : Char → String → Bool
contains_rune sep String.[] = false
contains_rune sep (String.◌∷◌ c s) = is_rune c sep || contains_rune sep s

-- The text behind the first separator.
unfoldable pub after_rune : Char → String → Option String
after_rune sep String.[] = none
after_rune sep (String.◌∷◌ c s) = if is_rune c sep then some s else after_rune sep s

-- The text behind a prefix.
unfoldable pub after_start : String → String → Option String
after_start String.[] s = some s
after_start (String.◌∷◌ b p) String.[] = none
after_start (String.◌∷◌ b p) (String.◌∷◌ a s) = if is_rune a b then after_start p s else none

-- The text behind the first place where the part stands.
unfoldable pub after_first : String → String → Option String
after_first part String.[] = after_start part String.[]
after_first part (String.◌∷◌ a s) = elim (after_start part (String.◌∷◌ a s)) [
  | some rest ↦ some rest
  | none ↦ after_first part s
]

-- strings.HasSuffix
unfoldable pub has_suffix : String → String → Bool
has_suffix String.[] t = String.[] == t
has_suffix (String.◌∷◌ a s) t = (String.◌∷◌ a s == t) || has_suffix s t
