-- ===== src/Base/Pieces.antt =====
-- Where a text stands in another one: what the functions of Parts find, and that they find it.
use Prim.Native.Char.{Char, code}
use Prim.Native.Nat.{ℕ, suc, ◌+◌, ◌≤◌}
use Prim.Native.String.{String}
use mathlib.Core.Path.{◌≡◌, refl, sym, ap, ◌∙◌, subst}
use mathlib.Core.Logic.{inl, inr}
use mathlib.Core.Option.{none, some}
use native.Mathlib.Omega.{arith}
use text.Mathlib.TextEquality.{Char-path}
use gpuardian.Base.Tests.{
  if◌then◌else◌, nat_eq, string_eq, ==→eq, ==_refl, Bool-cases, Option-cases, some_injective,
}
use gpuardian.Base.Parts.{is_rune, after_start, after_first}

-- The first text and the second one behind it.
abbrev pub joined : String → String → String
joined String.[] t = t
joined (String.◌∷◌ c s) t = String.◌∷◌ c (joined s t)

-- The number of runes.
abbrev pub size : String → ℕ
size String.[] = 0
size (String.◌∷◌ c s) = suc (size s)

pub joined_assoc : (s t u : String) → joined (joined s t) u ≡ joined s (joined t u)
joined_assoc String.[] t u = refl
joined_assoc (String.◌∷◌ c s) t u = ap (λ x. String.◌∷◌ c x) (joined_assoc s t u)

pub joined_nil : (s : String) → joined s String.[] ≡ s
joined_nil String.[] = refl
joined_nil (String.◌∷◌ c s) = ap (λ x. String.◌∷◌ c x) (joined_nil s)

pub size-joined : (s t : String) → size (joined s t) ≡ size s + size t
size-joined String.[] t = omega arith
size-joined (String.◌∷◌ c s) t = omega (arith, size-joined s t)

tails_equal : (c d : Char) (s t : String) → String.◌∷◌ c s ≡ String.◌∷◌ d t → s ≡ t
tails_equal c d s t h = cc

-- Of two ends of one text, the shorter one is an end of the longer one.
pub end_of_end :
    (u r z q : String) → joined u r ≡ joined z q → size q ≤ size r → (w : String) × (r ≡ joined w q)
end_of_end String.[] r z q h short = (z, h)
end_of_end (String.◌∷◌ c u) r String.[] q h short =
    let long = ap size h in let sum = size-joined u r in absurd (ground (arith, long, sum, short))
end_of_end (String.◌∷◌ c u) r (String.◌∷◌ d z) q h short =
    end_of_end u r z q (tails_equal c d (joined u r) (joined z q) h) short

pub after_start_sound : (p s r : String) → after_start p s ≡ some r → s ≡ joined p r
unfolding after_start
after_start_sound String.[] s r h = some_injective h
after_start_sound (String.◌∷◌ b p) String.[] r h = cc
after_start_sound (String.◌∷◌ b p) (String.◌∷◌ a s) r h = elim (Bool-cases (is_rune a b)) [
  | inl e ↦
      let same = Char-path a b (==→eq (code a) (code b) e) in
      let rest =
        after_start_sound p s r (subst (λ t. (if t then after_start p s else none) ≡ some r) e h) in
      subst (λ x. String.◌∷◌ a s ≡ String.◌∷◌ x (joined p r)) same (ap (λ x. String.◌∷◌ a x) rest)
  | inr e ↦ let no = subst (λ t. (if t then after_start p s else none) ≡ some r) e h in cc
]

pub after_start_complete : (p r : String) → after_start p (joined p r) ≡ some r
unfolding after_start
after_start_complete String.[] r = refl
after_start_complete (String.◌∷◌ b p) r =
    let same = ==_refl (code b) in rw same (after_start_complete p r)

-- What is found: the part, behind some text.
pub after_first_sound :
    (part s r : String)
    → after_first part s ≡ some r
    → (w : String) × (s ≡ joined w (joined part r))
unfolding after_first
after_first_sound part String.[] r h = (String.[], after_start_sound part String.[] r h)
after_first_sound part (String.◌∷◌ a s) r h =
    elim (Option-cases (after_start part (String.◌∷◌ a s))) [
      | inl e ↦
          let (w, same) =
            after_first_sound part s r (
              subst (λ o. (elim o [ some x ↦ some x | none ↦ after_first part s ]) ≡ some r) e h) in
          (String.◌∷◌ a w, ap (λ x. String.◌∷◌ a x) same)
      | inr (x, e) ↦
          let same =
            some_injective (
              subst (λ o. (elim o [ some x ↦ some x | none ↦ after_first part s ]) ≡ some r) e h) in
          (String.[], after_start_sound part (String.◌∷◌ a s) r (e ∙ ap (λ y. some y) same))
    ]

-- A part at the start leaves at least as much as the same part further on.
start_leaves_more :
    (part s w r x : String)
    → s ≡ joined w (joined part r)
    → after_start part s ≡ some x
    → (y : String) × (x ≡ joined y r)
start_leaves_more part s w r x h e =
    let front = after_start_sound part s x e in
    let both = sym front ∙ h ∙ sym (joined_assoc w part r) in
    let sizes = ap size both in
    let left = size-joined part x in
    let right = size-joined (joined w part) r in
    let inner = size-joined w part in
    end_of_end part x (joined w part) r both (omega (arith, sizes, left, right, inner))

first_here :
    (part : String) (a : Char) (s x : String)
    → after_start part (String.◌∷◌ a s) ≡ some x
    → after_first part (String.◌∷◌ a s) ≡ some x
unfolding after_first
first_here part a s x e = ap (λ o. elim o [ some y ↦ some y | none ↦ after_first part s ]) e

first_later :
    (part : String) (a : Char) (s : String)
    → after_start part (String.◌∷◌ a s) ≡ none
    → after_first part (String.◌∷◌ a s) ≡ after_first part s
unfolding after_first
first_later part a s e = ap (λ o. elim o [ some y ↦ some y | none ↦ after_first part s ]) e

-- The first place leaves at least as much as any other place does.
pub after_first_complete :
    (part s w r : String)
    → s ≡ joined w (joined part r)
    → (x : String) × (after_first part s ≡ some (joined x r))
unfolding after_first after_start
after_first_complete String.[] String.[] String.[] r h = (String.[], ap (λ y. some y) h)
after_first_complete (String.◌∷◌ b part) String.[] String.[] r h = cc
after_first_complete part String.[] (String.◌∷◌ c w) r h = cc
after_first_complete part (String.◌∷◌ a s) w r h =
    elim (Option-cases (after_start part (String.◌∷◌ a s))) [
      | inr (x, e) ↦
          let (y, more) = start_leaves_more part (String.◌∷◌ a s) w r x h e in
          (y, first_here part a s x e ∙ ap (λ z. some z) more)
      | inl e ↦
          let (y, later) = behind (λ v. after_first_complete part s v r) w h e in
          (y, first_later part a s e ∙ later)
    ]
  where
    behind :
        ((v : String)
          → s ≡ joined v (joined part r)
          → (x : String) × (after_first part s ≡ some (joined x r)))
        → (v : String) → String.◌∷◌ a s ≡ joined v (joined part r)
        → after_start part (String.◌∷◌ a s) ≡ none
        → (x : String) × (after_first part s ≡ some (joined x r))
    behind again String.[] k e =
        let found = ap (after_start part) k ∙ after_start_complete part r in cc
    behind again (String.◌∷◌ c v) k e = again v (tails_equal a c s _ k)
