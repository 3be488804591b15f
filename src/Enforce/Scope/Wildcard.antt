-- ===== src/Enforce/Scope/Wildcard.antt =====
-- wildcardMatch of internal/enforce/enforce.go against the meaning of a pattern with stars.
use gpuardian.Base.{
  ◌≡◌, ◌↔◌, refl, sym, ap, ◌∙◌, subst, inl, inr, String, Bool, true, false, not, ◌||◌, List, [],
  ◌∷◌, ◌==◌, string_eq, ==→eq, if◌then◌else◌, Bool-cases, is_empty, split_at, contains_rune,
  is_rune, onto_first, trim_space, joined_nil, arith,
}
use gpuardian.Enforce.Scope.{match_parts, wildcard_match}
use gpuardian.Enforce.Scope.Spread.{IsSpread, match_parts-IsSpread}

or_false : (a b : Bool) → (a || b) ≡ false → (a ≡ false) × (b ≡ false)
or_false a b h = (ground arith, ground arith)

split_plain : (s : String) → contains_rune "*" s ≡ false → split_at "*" s ≡ s ∷ []
unfolding split_at
split_plain String.[] h = refl
split_plain (String.◌∷◌ c s) h =
    let plain = or_false (is_rune c "*") (contains_rune "*" s) h in
    rw (plain.0, split_plain s plain.1) refl

split_some : (s : String) → (p : String) × (ps : List String) × (split_at "*" s ≡ p ∷ ps)
unfolding split_at
split_some String.[] = (String.[], [], refl)
split_some (String.◌∷◌ c s) =
    let (p, ps, e) = split_some s in
    elim (Bool-cases (is_rune c "*")) [
      | inl star ↦ (String.[], split_at "*" s, rw star refl)
      | inr plain ↦ (String.◌∷◌ c p, ps, rw plain (ap (onto_first c) e))
    ]

split_star :
    (s : String)
    → contains_rune "*" s ≡ true
    → (p : String) × (q : String) × (ps : List String) × (split_at "*" s ≡ p ∷ q ∷ ps)
unfolding split_at
split_star String.[] h = cc
split_star (String.◌∷◌ c s) h = elim (Bool-cases (is_rune c "*")) [
  | inl star ↦
      let (p, ps, e) = split_some s in (String.[], p, ps, rw star (ap (λ x. String.[] ∷ x) e))
  | inr plain ↦
      let (p, q, ps, e) = split_star s (subst (λ b. (b || contains_rune "*" s) ≡ true) plain h) in
      (String.◌∷◌ c p, q, ps, rw plain (ap (onto_first c) e))
]

-- The tests of wildcardMatch on the trimmed texts, and what they come to in each case.
abbrev trimmed_match : String → String → Bool
trimmed_match p v =
    if is_empty p
    then false
    else if not (contains_rune "*" p)
    then p == v
    else if p == "*"
    then true
    else match_parts (split_at "*" p) v

plain_case :
    (p v : String) → is_empty p ≡ false → contains_rune "*" p ≡ false → trimmed_match p v ≡ (p == v)
plain_case p v e c = rw (e, c) refl

any_case :
    (p v : String)
    → is_empty p ≡ false
    → contains_rune "*" p ≡ true
    → (p == "*") ≡ true
    → trimmed_match p v ≡ true
any_case p v e c s = rw (e, c, s) refl

parts_case :
    (p v : String)
    → is_empty p ≡ false
    → contains_rune "*" p ≡ true
    → (p == "*") ≡ false
    → trimmed_match p v ≡ match_parts (split_at "*" p) v
parts_case p v e c s = rw (e, c, s) refl

star-IsSpread : (p v : String) → p ≡ "*" → IsSpread (split_at "*" p) v
unfolding split_at
star-IsSpread p v same =
    subst (λ x. IsSpread (split_at "*" x) v) (sym same) (v, "", sym (joined_nil v), refl)

trimmed_iff :
    (p v : String) → is_empty p ≡ false → (trimmed_match p v ≡ true) ↔ IsSpread (split_at "*" p) v
trimmed_iff p v e = elim (Bool-cases (contains_rune "*" p)) [
  | inr c ↦
      let spread = split_plain p c in
      (
        λ h.
            subst (λ ps. IsSpread ps v) (sym spread)
              (sym (==→eq p v (sym (plain_case p v e c) ∙ h))),
        λ h.
            plain_case p v e c
            ∙ string_eq.complete p v (sym (subst (λ ps. IsSpread ps v) spread h)),
      )
  | inl c ↦ elim (Bool-cases (p == "*")) [
    | inl s ↦ (λ _. star-IsSpread p v (==→eq p "*" s), λ _. any_case p v e c s)
    | inr s ↦
        let (a, b, ps, spread) = split_star p c in
        let (there, back) = match_parts-IsSpread a b ps v in
        let same = parts_case p v e c s ∙ ap (λ x. match_parts x v) spread in
        (
          λ h. subst (λ x. IsSpread x v) (sym spread) (there (sym same ∙ h)),
          λ h. same ∙ back (subst (λ x. IsSpread x v) spread h),
        )
  ]
]

-- A pattern that is not blank matches a value exactly when the trimmed value is made of the parts of
-- the trimmed pattern between its stars, in their order, with any text between two of them.
pub wildcard_match-IsSpread :
    (pattern value : String)
    → is_empty (trim_space pattern) ≡ false
    → (wildcard_match pattern value ≡ true)
      ↔ IsSpread (split_at "*" (trim_space pattern)) (trim_space value)
unfolding wildcard_match
wildcard_match-IsSpread pattern value solid =
    trimmed_iff (trim_space pattern) (trim_space value) solid
