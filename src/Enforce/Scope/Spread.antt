-- ===== src/Enforce/Scope/Spread.antt =====
-- The parts of a pattern in wildcardMatch of internal/enforce/enforce.go: the loop that looks for them
-- one by one finds them exactly where they are spread over the text.
use mathlib.Core.Bool.{false≢true}
use gpuardian.Base.{
  ◌≤◌, ◌≡◌, ◌↔◌, ◌≢◌, refl, sym, ap, ◌∙◌, subst, inl, inr, String, Bool, true, false, ◌||◌, Option,
  none, some, List, [], ◌∷◌, ◌==◌, string_eq, ==_refl, ==→eq, Bool-cases, Option-cases, is_empty,
  after_start, after_first, has_suffix, joined, size, joined_assoc, joined_nil, size-joined,
  end_of_end, after_start_sound, after_start_complete, after_first_sound, after_first_complete,
  arith,
}
use gpuardian.Enforce.Scope.{last_of, find_parts, match_parts}

-- The text is made of the parts, in their order, with any text between two of them.
abbrev pub IsSpread : List String → String → Type 0
IsSpread [] s = s ≡ ""
IsSpread (p ∷ []) s = s ≡ p
IsSpread (p ∷ q ∷ ps) s =
    (w : String) × (rest : String) × (s ≡ joined p (joined w rest)) × IsSpread (q ∷ ps) rest

-- A text that ends with another one, as the source tests it.
has_suffix_sound : (s t : String) → has_suffix s t ≡ true → (z : String) × (s ≡ joined z t)
unfolding has_suffix
has_suffix_sound String.[] t h = (String.[], ==→eq String.[] t h)
has_suffix_sound (String.◌∷◌ a s) t h = elim (Bool-cases (String.◌∷◌ a s == t)) [
  | inl e ↦ (String.[], ==→eq (String.◌∷◌ a s) t e)
  | inr e ↦
      let (z, same) = has_suffix_sound s t (subst (λ b. (b || has_suffix s t) ≡ true) e h) in
      (String.◌∷◌ a z, ap (λ x. String.◌∷◌ a x) same)
]

has_suffix_complete : (z t : String) → has_suffix (joined z t) t ≡ true
unfolding has_suffix
has_suffix_complete String.[] String.[] = refl
has_suffix_complete String.[] (String.◌∷◌ c t) =
    let same = ==_refl (String.◌∷◌ c t) in ground (arith, same)
has_suffix_complete (String.◌∷◌ a z) t = let rest = has_suffix_complete z t in ground (arith, rest)

spread-suffix :
    (p : String) (ps : List String) (s : String)
    → IsSpread (p ∷ ps) s
    → (z : String) × (s ≡ joined z (last_of (p ∷ ps)))
spread-suffix p [] s h = (String.[], h)
spread-suffix p (q ∷ ps) s (w, rest, same, more) =
    let (z, e) = spread-suffix q ps rest more in
    (
      joined p (joined w z),
      same
          ∙ ap (λ x. joined p (joined w x)) e
          ∙ sym (
              joined_assoc p (joined w z) (last_of (q ∷ ps))
              ∙ ap (joined p) (joined_assoc w z (last_of (q ∷ ps)))),
    )

is_empty_nil : (s : String) → is_empty s ≡ true → s ≡ String.[]
is_empty_nil String.[] h = refl
is_empty_nil (String.◌∷◌ c s) h = cc

-- The steps of find_parts, as equations.
skip_empty :
    (part : String) (ps : List String) (r : String)
    → is_empty part ≡ true
    → find_parts (part ∷ ps) r ≡ find_parts ps r
unfolding find_parts
skip_empty part ps r e = rw e refl

find_next :
    (part : String) (ps : List String) (r left : String)
    → is_empty part ≡ false
    → after_first part r ≡ some left
    → find_parts (part ∷ ps) r ≡ find_parts ps left
unfolding find_parts
find_next part ps r left e h = rw (e, h) refl

find_fails :
    (part : String) (ps : List String) (r : String)
    → is_empty part ≡ false
    → after_first part r ≡ none
    → find_parts (part ∷ ps) r ≡ none
unfolding find_parts
find_fails part ps r e h = rw (e, h) refl

none≢some : {A : Type 0} {a : A} → none ≢ some a
none≢some h = cc

part_fits : (q w l r : String) → r ≡ joined w (joined q l) → size q ≤ size r
part_fits q w l r same =
    let sizes = ap size same in
    let outer = size-joined w (joined q l) in
    let inner = size-joined q l in omega (arith, sizes, outer, inner)

regroup :
    (u w q l r : String) → r ≡ joined w (joined q l) → joined (joined u (joined w q)) l ≡ joined u r
regroup u w q l r same =
    joined_assoc u (joined w q) l ∙ ap (joined u) (joined_assoc w q l) ∙ ap (joined u) (sym same)

-- The text behind the first part, where it is found: the whole ends with the last part, and what is
-- before it is spread.
found-IsSpread :
    (q : String) (ps : List String) (u r left : String)
    → find_parts (q ∷ ps) r ≡ some left
    → (z : String) × (joined u r ≡ joined z (last_of (q ∷ ps)))
    → (w : String) × (rest : String) × (r ≡ joined w rest) × IsSpread (q ∷ ps) rest
found-IsSpread q [] u r left h (z, k) = elim (Bool-cases (is_empty q)) [
  | inl e ↦ (r, "", sym (joined_nil r), sym (is_empty_nil q e))
  | inr e ↦ elim (Option-cases (after_first q r)) [
    | inl lost ↦ absurd (none≢some (sym (find_fails q [] r e lost) ∙ h))
    | inr (l, at) ↦
        let (w, same) = after_first_sound q r l at in
        let (v, end) = end_of_end u r z q k (part_fits q w l r same) in (v, q, end, refl)
  ]
]
found-IsSpread q (q₂ ∷ ps) u r left h (z, k) = elim (Bool-cases (is_empty q)) [
  | inl e ↦
      let (w, rest, same, more) =
        found-IsSpread q₂ ps u r left (sym (skip_empty q (q₂ ∷ ps) r e) ∙ h) (z, k) in
      let front = ap (λ x. joined x (joined w rest)) (sym (is_empty_nil q e)) in
      ("", r, refl, (w, rest, same ∙ front, more))
  | inr e ↦ elim (Option-cases (after_first q r)) [
    | inl lost ↦ absurd (none≢some (sym (find_fails q (q₂ ∷ ps) r e lost) ∙ h))
    | inr (l, at) ↦
        let (w, same) = after_first_sound q r l at in
        let (v, rest, behind, more) =
          found-IsSpread q₂ ps (joined u (joined w q)) l left
            (sym (find_next q (q₂ ∷ ps) r l e at) ∙ h) (z, regroup u w q l r same ∙ k) in
        (w, joined q l, same, (v, rest, ap (joined q) behind, more))
  ]
]

-- Parts that are spread over a text are found in it, whatever stands in front.
spread-found :
    (q : String) (ps : List String) (w rest : String)
    → IsSpread (q ∷ ps) rest
    → (left : String) × (find_parts (q ∷ ps) (joined w rest) ≡ some left)
unfolding find_parts
spread-found q [] w rest h = elim (Bool-cases (is_empty q)) [
  | inl e ↦ (joined w rest, skip_empty q [] (joined w rest) e)
  | inr e ↦
      let (x, at) =
        after_first_complete q (joined w rest) w "" (ap (joined w) (h ∙ sym (joined_nil q))) in
      (joined x "", find_next q [] (joined w rest) (joined x "") e at)
]
spread-found q (q₂ ∷ ps) w rest (w₂, rest₂, same, more) = elim (Bool-cases (is_empty q)) [
  | inl e ↦
      let (left, found) = spread-found q₂ ps (joined w w₂) rest₂ more in
      let front = same ∙ ap (λ x. joined x (joined w₂ rest₂)) (is_empty_nil q e) in
      (
        left,
        skip_empty q (q₂ ∷ ps) (joined w rest) e
            ∙ ap (find_parts (q₂ ∷ ps)) (ap (joined w) front ∙ sym (joined_assoc w w₂ rest₂))
            ∙ found,
      )
  | inr e ↦
      let (x, at) =
        after_first_complete q (joined w rest) w (joined w₂ rest₂) (ap (joined w) same) in
      let (left, found) = spread-found q₂ ps (joined x w₂) rest₂ more in
      (
        left,
        find_next q (q₂ ∷ ps) (joined w rest) _ e at
            ∙ ap (find_parts (q₂ ∷ ps)) (sym (joined_assoc x w₂ rest₂))
            ∙ found,
      )
]

-- The nested tests of match_parts, as functions of what was found.
abbrev judge_parts : List String → String → Option String → Bool
judge_parts parts v found = elim found [
  | none ↦ false
  | some left ↦ let last = last_of parts in is_empty last || has_suffix v last
]

abbrev judge_start : String → String → List String → String → Option String → Bool
judge_start p q ps v found = elim found [
  | none ↦ false
  | some r ↦ judge_parts (p ∷ q ∷ ps) v (find_parts (q ∷ ps) r)
]

ends_with :
    (v last : String)
    → (is_empty last || has_suffix v last) ≡ true
    → (z : String) × (v ≡ joined z last)
ends_with v String.[] h = (v, sym (joined_nil v))
ends_with v (String.◌∷◌ c s) h = has_suffix_sound v (String.◌∷◌ c s) h

end_accepted : (v z last : String) → v ≡ joined z last → (is_empty last || has_suffix v last) ≡ true
end_accepted v z String.[] h = refl
end_accepted v z (String.◌∷◌ c s) h =
    ap (λ x. has_suffix x (String.◌∷◌ c s)) h ∙ has_suffix_complete z (String.◌∷◌ c s)

-- What match_parts asks, part by part.
pub match_parts-IsSpread :
    (p q : String) (ps : List String) (v : String)
    → (match_parts (p ∷ q ∷ ps) v ≡ true) ↔ IsSpread (p ∷ q ∷ ps) v
unfolding match_parts
match_parts-IsSpread p q ps v = (
  λ h. elim (Option-cases (after_start p v)) [
    | inl lost ↦ absurd (false≢true (sym (ap (judge_start p q ps v) lost) ∙ h))
    | inr (r, front) ↦ elim (Option-cases (find_parts (q ∷ ps) r)) [
      | inl lost ↦ absurd (
          false≢true
            (sym (ap (judge_start p q ps v) front ∙ ap (judge_parts (p ∷ q ∷ ps) v) lost) ∙ h))
      | inr (left, at) ↦
          let start = after_start_sound p v r front in
          let (z, end) =
            ends_with v (last_of (q ∷ ps))
              (sym (ap (judge_start p q ps v) front ∙ ap (judge_parts (p ∷ q ∷ ps) v) at) ∙ h) in
          let (w, rest, same, more) = found-IsSpread q ps p r left at (z, sym start ∙ end) in
          (w, rest, start ∙ ap (joined p) same, more)
    ]
  ],
  λ (w, rest, same, more).
      let (z, end) = spread-suffix p (q ∷ ps) v (w, rest, same, more) in
      let (left, at) = spread-found q ps w rest more in
      let front = ap (after_start p) same ∙ after_start_complete p (joined w rest) in
      ap (judge_start p q ps v) front
      ∙ ap (judge_parts (p ∷ q ∷ ps) v) at
      ∙ end_accepted v z (last_of (q ∷ ps)) end,
)
