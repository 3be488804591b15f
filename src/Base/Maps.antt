-- ===== src/Base/Maps.antt =====
-- Go's `map[string]V` as the list of its entries: lookup, assignment, delete, and their laws.
use Prim.Native.Nat.{◌+◌, ◌≤◌}
use Prim.Native.String.{String}
use mathlib.Core.Path.{◌≡◌, refl, subst}
use mathlib.Core.Logic.{inl, inr}
use mathlib.Core.Bool.{Bool, true, false, ◌||◌}
use mathlib.Core.Option.{Option, none, some}
use mathlib.Core.List.{List, [], ◌∷◌}
use native.Mathlib.Omega.{arith}
use text.Mathlib.TextEquality.{eq_iff}
use gpuardian.Base.Tests.{if◌then◌else◌, ◌==◌, string_eq, Bool-cases, ==→eq}
use gpuardian.Base.Lists.{length, All}

abbrev pub Map {ℓ} : Type ℓ → Type ℓ
Map V = List (String × V)

module _ {ℓ} {V : Type ℓ} where
  abbrev pub lookup : String → Map V → Option V
  lookup k [] = none
  lookup k ((j, v) ∷ m) = if j == k then some v else lookup k m

  -- `m[k] = v`
  abbrev pub put : String → V → Map V → Map V
  put k v [] = (k, v) ∷ []
  put k v ((j, w) ∷ m) = if j == k then (k, v) ∷ m else (j, w) ∷ put k v m

  -- `delete(m, k)`
  abbrev pub delete : String → Map V → Map V
  delete k [] = []
  delete k ((j, w) ∷ m) = if j == k then delete k m else (j, w) ∷ delete k m

  abbrev pub is_key : String → Map V → Bool
  is_key k [] = false
  is_key k ((j, w) ∷ m) = j == k || is_key k m

  -- Keeps the entries whose value passes.
  abbrev pub keep_values : (V → Bool) → Map V → Map V
  keep_values test [] = []
  keep_values test ((j, w) ∷ m) = if test w then (j, w) ∷ keep_values test m else keep_values test m

  pub lookup-put :
      (k j : String) (v : V) (m : Map V)
      → lookup j (put k v m) ≡ (if k == j then some v else lookup j m)
  lookup-put k j v [] = refl
  lookup-put k j v ((i, w) ∷ m) =
      ground (arith, eq_iff k j, eq_iff i k, eq_iff i j, lookup-put k j v m)

  pub lookup-delete :
      (k j : String) (m : Map V) → lookup j (delete k m) ≡ (if k == j then none else lookup j m)
  lookup-delete k j [] = ground arith
  lookup-delete k j ((i, w) ∷ m) =
      ground (arith, eq_iff k j, eq_iff i k, eq_iff i j, lookup-delete k j m)

  pub length-put :
      (k : String) (v : V) (m : Map V)
      → length (put k v m) ≡ length m + (if is_key k m then 0 else 1)
  length-put k v [] = omega arith
  length-put k v ((j, w) ∷ m) = ground (arith, length-put k v m)

  pub length-delete-le : (k : String) (m : Map V) → length (delete k m) ≤ length m
  length-delete-le k [] = omega arith
  length-delete-le k ((j, w) ∷ m) = ground (arith, length-delete-le k m)

  pub is_key-put :
      (k j : String) (v : V) (m : Map V) → is_key j (put k v m) ≡ (k == j || is_key j m)
  is_key-put k j v [] = refl
  is_key-put k j v ((i, w) ∷ m) =
      ground (arith, eq_iff k j, eq_iff i k, eq_iff i j, is_key-put k j v m)

  abbrev pub is_some : Option V → Bool
  is_some none = false
  is_some (some v) = true

  pub is_key-lookup : (k : String) (m : Map V) → is_key k m ≡ is_some (lookup k m)
  is_key-lookup k [] = refl
  is_key-lookup k ((j, w) ∷ m) = ground (arith, is_key-lookup k m)

  -- The values all have a property.
  abbrev pub AllValues {κ} : (V → Type κ) → Map V → Type κ
  AllValues P m = All (λ e. P e.1) m

  module _ {κ} (P : V → Type κ) where
    pub AllValues-put :
        (k : String) (v : V) (m : Map V) → P v → AllValues P m → AllValues P (put k v m)
    AllValues-put k v [] p h = (p, tt)
    AllValues-put k v ((j, w) ∷ m) p h = elim (Bool-cases (j == k)) [
      | inl e ↦ rw e (p, h.1)
      | inr e ↦ rw e (h.0, AllValues-put k v m p h.1)
    ]

    pub AllValues-delete : (k : String) (m : Map V) → AllValues P m → AllValues P (delete k m)
    AllValues-delete k [] h = tt
    AllValues-delete k ((j, w) ∷ m) h = elim (Bool-cases (j == k)) [
      | inl e ↦ rw e (AllValues-delete k m h.1)
      | inr e ↦ rw e (h.0, AllValues-delete k m h.1)
    ]

    pub AllValues-keep_values :
        (test : V → Bool) (m : Map V) → AllValues P m → AllValues P (keep_values test m)
    AllValues-keep_values test [] h = tt
    AllValues-keep_values test ((j, w) ∷ m) h = elim (Bool-cases (test w)) [
      | inl e ↦ rw e (h.0, AllValues-keep_values test m h.1)
      | inr e ↦ rw e (AllValues-keep_values test m h.1)
    ]

  -- No key twice.
  abbrev pub IsUnique : Map V → Type 0
  IsUnique [] = Unit
  IsUnique ((j, w) ∷ m) = (is_key j m ≡ false) × IsUnique m

  pub put-IsUnique : (k : String) (v : V) (m : Map V) → IsUnique m → IsUnique (put k v m)
  put-IsUnique k v [] u = (refl, tt)
  put-IsUnique k v ((j, w) ∷ m) u = elim (Bool-cases (j == k)) [
    | inl e ↦ let same = ==→eq j k e in rw e (rw same at u)
    | inr e ↦
        let other = is_key-put k j v m in
        rw e (ground (arith, other, u.0, eq_iff j k, eq_iff k j), put-IsUnique k v m u.1)
  ]

  is_key-delete : (k j : String) (m : Map V) → is_key j m ≡ false → is_key j (delete k m) ≡ false
  is_key-delete k j [] h = refl
  is_key-delete k j ((i, w) ∷ m) h = ground (arith, is_key-delete k j m)

  pub delete-IsUnique : (k : String) (m : Map V) → IsUnique m → IsUnique (delete k m)
  delete-IsUnique k [] u = tt
  delete-IsUnique k ((j, w) ∷ m) u = elim (Bool-cases (j == k)) [
    | inl e ↦ rw e (delete-IsUnique k m u.1)
    | inr e ↦ rw e (is_key-delete k j m u.0, delete-IsUnique k m u.1)
  ]

  is_key-keep_values :
      (test : V → Bool) (j : String) (m : Map V)
      → is_key j m ≡ false
      → is_key j (keep_values test m) ≡ false
  is_key-keep_values test j [] h = refl
  is_key-keep_values test j ((i, w) ∷ m) h = ground (arith, is_key-keep_values test j m)

  pub keep_values-IsUnique :
      (test : V → Bool) (m : Map V) → IsUnique m → IsUnique (keep_values test m)
  keep_values-IsUnique test [] u = tt
  keep_values-IsUnique test ((j, w) ∷ m) u = elim (Bool-cases (test w)) [
    | inl e ↦ rw e (is_key-keep_values test j m u.0, keep_values-IsUnique test m u.1)
    | inr e ↦ rw e (keep_values-IsUnique test m u.1)
  ]

  pub lookup-absent : (k : String) (m : Map V) → is_key k m ≡ false → lookup k m ≡ none
  lookup-absent k [] h = refl
  lookup-absent k ((j, w) ∷ m) h = ground (arith, lookup-absent k m)

  abbrev pub passing : (V → Bool) → Option V → Option V
  passing test none = none
  passing test (some v) = if test v then some v else none

  pub lookup-keep_values :
      (test : V → Bool) (k : String) (m : Map V)
      → IsUnique m
      → lookup k (keep_values test m) ≡ passing test (lookup k m)
  lookup-keep_values test k [] u = refl
  lookup-keep_values test k ((j, w) ∷ m) u =
      let rest = lookup-keep_values test k m u.1 in
      elim (Bool-cases (j == k)) [
        | inl e ↦
            let same = ==→eq j k e in
            let gone = lookup-absent k m (subst (λ x. is_key x m ≡ false) same u.0) in
            ground (arith, rest, gone, e)
        | inr e ↦ ground (arith, rest, e)
      ]
