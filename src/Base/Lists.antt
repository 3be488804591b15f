-- ===== src/Base/Lists.antt =====
-- Lists with Boolean tests: the loops of the source over slices, and what carries over them.
use Prim.Native.Nat.{ℕ, zero, suc, ◌+◌, ◌≤◌}
use mathlib.Core.Path.{◌≡◌, refl, ap, subst}
use mathlib.Core.Logic.{inl, inr}
use mathlib.Core.Bool.{Bool, true, false, ◌&&◌, ◌||◌}
use mathlib.Core.Option.{Option, none, some}
use mathlib.Core.List.{List, [], ◌∷◌, ◌++◌, map}
use native.Mathlib.Omega.{arith}
use gpuardian.Base.Tests.{if◌then◌else◌, Bool-cases, some_injective}

module _ {ℓ} {A : Type ℓ} where
  abbrev pub length : List A → ℕ
  length [] = 0
  length (x ∷ xs) = suc (length xs)

  -- `for _, x := range xs { if test(x) { kept = append(kept, x) } }`
  abbrev pub keep_if : (A → Bool) → List A → List A
  keep_if test [] = []
  keep_if test (x ∷ xs) = if test x then x ∷ keep_if test xs else keep_if test xs

  abbrev pub any : (A → Bool) → List A → Bool
  any test [] = false
  any test (x ∷ xs) = test x || any test xs

  abbrev pub all : (A → Bool) → List A → Bool
  all test [] = true
  all test (x ∷ xs) = test x && all test xs

  abbrev pub count_if : (A → Bool) → List A → ℕ
  count_if test [] = 0
  count_if test (x ∷ xs) = let rest = count_if test xs in if test x then suc rest else rest

  -- `for _, x := range xs { if test(x) { return x } }`
  abbrev pub find : (A → Bool) → List A → Option A
  find test [] = none
  find test (x ∷ xs) = if test x then some x else find test xs

  -- `for i := range xs { if test(xs[i]) { change(&xs[i]); return } }`; `none` where no entry fits.
  abbrev pub take : ℕ → List A → List A
  take zero xs = []
  take (suc n) [] = []
  take (suc n) (x ∷ xs) = x ∷ take n xs

  abbrev pub drop : ℕ → List A → List A
  drop zero xs = xs
  drop (suc n) [] = []
  drop (suc n) (x ∷ xs) = drop n xs

  pub take-append : (xs ys : List A) → take (length xs) (xs ++ ys) ≡ xs
  take-append [] ys = refl
  take-append (x ∷ xs) ys = ap (λ zs. x ∷ zs) (take-append xs ys)

  pub drop-append : (xs ys : List A) → drop (length xs) (xs ++ ys) ≡ ys
  drop-append [] ys = refl
  drop-append (x ∷ xs) ys = drop-append xs ys

  abbrev pub update_first : (A → Bool) → (A → A) → List A → Option (List A)
  update_first test change [] = none
  update_first test change (x ∷ xs) =
      if test x
      then some (change x ∷ xs)
      else elim (update_first test change xs) [ none ↦ none | some ys ↦ some (x ∷ ys) ]

  abbrev pub All {κ} : (A → Type κ) → List A → Type κ
  All P [] = Unit
  All P (x ∷ xs) = P x × All P xs

  -- Every earlier entry stands in `R` to every later one.
  abbrev pub Pairwise {κ} : (A → A → Type κ) → List A → Type κ
  Pairwise R [] = Unit
  Pairwise R (x ∷ xs) = All (R x) xs × Pairwise R xs

  pub length-append : (xs ys : List A) → length (xs ++ ys) ≡ length xs + length ys
  length-append [] ys = omega arith
  length-append (x ∷ xs) ys = omega (arith, length-append xs ys)

  pub length-keep_if-le : (test : A → Bool) (xs : List A) → length (keep_if test xs) ≤ length xs
  length-keep_if-le test [] = omega arith
  length-keep_if-le test (x ∷ xs) = ground (arith, length-keep_if-le test xs)

  pub count_if-append :
      (test : A → Bool) (xs ys : List A)
      → count_if test (xs ++ ys) ≡ count_if test xs + count_if test ys
  count_if-append test [] ys = omega arith
  count_if-append test (x ∷ xs) ys = ground (arith, count_if-append test xs ys)

  pub All-map_self {κ} :
      (P : A → Type κ) (f : A → A) (keep : (x : A) → P x → P (f x)) (xs : List A)
      → All P xs
      → All P (map f xs)
  All-map_self P f keep [] h = tt
  All-map_self P f keep (x ∷ xs) h = (keep x h.0, All-map_self P f keep xs h.1)

  pub All-keep_if {κ} :
      (P : A → Type κ) (test : A → Bool) (xs : List A) → All P xs → All P (keep_if test xs)
  All-keep_if P test [] h = tt
  All-keep_if P test (x ∷ xs) h = ground (arith, All-keep_if P test xs h.1)

  -- What is kept passes the test.
  pub keep_if-All : (test : A → Bool) (xs : List A) → All (λ x. test x ≡ true) (keep_if test xs)
  keep_if-All test [] = tt
  keep_if-All test (x ∷ xs) = ground (arith, keep_if-All test xs)

  pub All-append {κ} : (P : A → Type κ) (xs ys : List A) → All P xs → All P ys → All P (xs ++ ys)
  All-append P [] ys h k = k
  All-append P (x ∷ xs) ys h k = (h.0, All-append P xs ys h.1 k)

  pub All-mono {κ ν} :
      {P : A → Type κ} {Q : A → Type ν} (f : (x : A) → P x → Q x) (xs : List A)
      → All P xs
      → All Q xs
  All-mono f [] h = tt
  All-mono f (x ∷ xs) h = (f x h.0, All-mono f xs h.1)

  pub Pairwise-append {κ} :
      (R : A → A → Type κ) (xs ys : List A)
      → Pairwise R xs
      → Pairwise R ys
      → All (λ x. All (R x) ys) xs
      → Pairwise R (xs ++ ys)
  Pairwise-append R [] ys p q h = q
  Pairwise-append R (x ∷ xs) ys p q h =
      (All-append (R x) xs ys p.0 h.0, Pairwise-append R xs ys p.1 q h.1)

  pub Pairwise-keep_if {κ} :
      (R : A → A → Type κ) (test : A → Bool) (xs : List A)
      → Pairwise R xs
      → Pairwise R (keep_if test xs)
  Pairwise-keep_if R test [] p = tt
  Pairwise-keep_if R test (x ∷ xs) p = elim (Bool-cases (test x)) [
    | inl e ↦ rw e (All-keep_if (R x) test xs p.0, Pairwise-keep_if R test xs p.1)
    | inr e ↦ rw e (Pairwise-keep_if R test xs p.1)
  ]

  pub All-map_mono {κ ν} :
      {P : A → Type κ} (Q : A → Type ν) (f : A → A) (keep : (x : A) → P x → Q (f x)) (xs : List A)
      → All P xs
      → All Q (map f xs)
  All-map_mono Q f keep [] h = tt
  All-map_mono Q f keep (x ∷ xs) h = (keep x h.0, All-map_mono Q f keep xs h.1)

  pub Pairwise-map {κ} :
      (R : A → A → Type κ) (f : A → A) (keep : (x y : A) → R x y → R (f x) (f y)) (xs : List A)
      → Pairwise R xs
      → Pairwise R (map f xs)
  Pairwise-map R f keep [] p = tt
  Pairwise-map R f keep (x ∷ xs) p =
      (All-map_mono (R (f x)) f (keep x) xs p.0, Pairwise-map R f keep xs p.1)

  -- Nothing found: every entry fails the test.
  pub find-none :
      (test : A → Bool) (xs : List A) → find test xs ≡ none → All (λ x. test x ≡ false) xs
  find-none test [] h = tt
  find-none test (x ∷ xs) h = ground (arith, find-none test xs)

  pub All-true {κ} : {P : A → Type κ} (p : (x : A) → P x) (xs : List A) → All P xs
  All-true p [] = tt
  All-true p (x ∷ xs) = (p x, All-true p xs)

  -- A statement about what is there, if something is.
  abbrev pub OnSome {κ} : (A → Type κ) → Option A → Type κ
  OnSome P none = Unit
  OnSome P (some x) = P x

module _ {ℓ κ ν} {A : Type ℓ} {B : Type κ} (R : A → B → Type ν) where
  pub All-cons :
      (y : B) (ys : List B) (xs : List A)
      → All (λ x. R x y) xs
      → All (λ x. All (R x) ys) xs
      → All (λ x. All (R x) (y ∷ ys)) xs
  All-cons y ys [] h k = tt
  All-cons y ys (x ∷ xs) h k = ((h.0, k.0), All-cons y ys xs h.1 k.1)

  -- The order of two quantifiers does not matter.
  pub All-swap :
      (xs : List A) (ys : List B) → All (λ y. All (λ x. R x y) xs) ys → All (λ x. All (R x) ys) xs
  All-swap xs [] h = All-true (λ x. tt) xs
  All-swap xs (y ∷ ys) h = All-cons y ys xs h.0 (All-swap xs ys h.1)

module _ {ℓ κ} {A : Type ℓ} (P : A → Type κ) (test : A → Bool) (f : A → A)
    (keep : (x : A) → P x → P (f x)) where
  pub All-update_first : (xs : List A) → All P xs → OnSome (All P) (update_first test f xs)
  All-update_first [] h = tt
  All-update_first (x ∷ xs) h = elim (Bool-cases (test x)) [
    | inl e ↦ rw e (keep x h.0, h.1)
    | inr e ↦ rw e (go (update_first test f xs) (All-update_first xs h.1))
  ]
    where
      go :
          (o : Option (List A))
          → OnSome (All P) o
          → OnSome (All P) (elim o [ none ↦ none | some ys ↦ some (x ∷ ys) ])
      go none k = tt
      go (some ys) k = (h.0, k)

-- `sort.Slice` by an order: an insertion sort. Entries that stand in no order keep theirs.
module _ {ℓ} {A : Type ℓ} (below : A → A → Bool) where
  abbrev pub insert_by : A → List A → List A
  insert_by x [] = x ∷ []
  insert_by x (y ∷ ys) = if below y x then y ∷ insert_by x ys else x ∷ y ∷ ys

  abbrev pub sort_by : List A → List A
  sort_by [] = []
  sort_by (x ∷ xs) = insert_by x (sort_by xs)

module _ {ℓ κ} {A : Type ℓ} {B : Type κ} (f : A → B) where
  pub length-map : (xs : List A) → length (map f xs) ≡ length xs
  length-map [] = refl
  length-map (x ∷ xs) = ap (λ n. suc n) (length-map xs)

  pub map-append : (xs ys : List A) → map f (xs ++ ys) ≡ map f xs ++ map f ys
  map-append [] ys = refl
  map-append (x ∷ xs) ys = ap (λ zs. f x ∷ zs) (map-append xs ys)

module _ {ℓ} {A : Type ℓ} where
  -- What is found passes the test.
  pub find-some : (test : A → Bool) (x : A) (xs : List A) → find test xs ≡ some x → test x ≡ true
  find-some test x [] found = cc
  find-some test x (y ∷ ys) found = elim (Bool-cases (test y)) [
    | inl e ↦ subst (λ z. test z ≡ true) (some_injective (rw e at found)) e
    | inr e ↦ find-some test x ys (rw e at found)
  ]
