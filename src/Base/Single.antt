-- ===== src/Base/Single.antt =====
-- The only entry of a list that passes a test: what loops and sorts make of it.
use mathlib.Core.Path.{◌≡◌, refl, ap, ◌∙◌}
use mathlib.Core.Logic.{inl, inr}
use mathlib.Core.Bool.{Bool, true, false, ◌||◌}
use mathlib.Core.Option.{some}
use mathlib.Core.List.{List, [], ◌∷◌, map}
use native.Mathlib.Omega.{arith}
use gpuardian.Base.Tests.{Bool-cases, on_if}
use gpuardian.Base.Lists.{All, any, find, keep_if, insert_by, sort_by, All-keep_if}

module _ {ℓ} {A : Type ℓ} where
  -- `x` stands in the list, and whatever passes is `x`.
  pub record Sole (test : A → Bool) (x : A) (xs : List A) : Type ℓ where
    pub present : any test xs ≡ true
    pub only : All (λ y. test y ≡ true → y ≡ x) xs

  pub find-Sole : (test : A → Bool) (x : A) (xs : List A) → Sole test x xs → find test xs ≡ some x
  find-Sole test x [] s = absurd (go s.present)
    where
      go : false ≡ true → ⊥
      go e = cc
  find-Sole test x (y ∷ ys) s = elim (Bool-cases (test y)) [
    | inl e ↦ rw e (ap (λ z. some z) (s.only.0 e))
    | inr e ↦ rw e (find-Sole test x ys (record { present = rw e at s.present; only = s.only.1 }))
  ]

  any-insert_by :
      (below : A → A → Bool) (test : A → Bool) (x : A) (xs : List A)
      → any test (insert_by below x xs) ≡ (test x || any test xs)
  any-insert_by below test x [] = refl
  any-insert_by below test x (y ∷ ys) =
      let rest = any-insert_by below test x ys in
      on_if (λ zs. any test zs ≡ (test x || (test y || any test ys))) (below y x) _ _
        (λ _. ground (arith, rest)) (λ _. refl)

  All-insert_by :
      (P : A → Type ℓ) (below : A → A → Bool) (x : A) (xs : List A)
      → P x
      → All P xs
      → All P (insert_by below x xs)
  All-insert_by P below x [] p h = (p, tt)
  All-insert_by P below x (y ∷ ys) p h =
      on_if (All P) (below y x) _ _ (λ _. (h.0, All-insert_by P below x ys p h.1)) (λ _. (p, h))

  any-sort_by :
      (below : A → A → Bool) (test : A → Bool) (xs : List A)
      → any test (sort_by below xs) ≡ any test xs
  any-sort_by below test [] = refl
  any-sort_by below test (x ∷ xs) =
      any-insert_by below test x (sort_by below xs)
      ∙ ap (λ b. test x || b) (any-sort_by below test xs)

  All-sort_by :
      (P : A → Type ℓ) (below : A → A → Bool) (xs : List A) → All P xs → All P (sort_by below xs)
  All-sort_by P below [] h = tt
  All-sort_by P below (x ∷ xs) h = All-insert_by P below x _ h.0 (All-sort_by P below xs h.1)

  pub sort_by-Sole :
      (below : A → A → Bool) (test : A → Bool) (x : A) (xs : List A)
      → Sole test x xs
      → Sole test x (sort_by below xs)
  sort_by-Sole below test x xs s = record {
    present = any-sort_by below test xs ∙ s.present;
    only = All-sort_by _ below xs s.only;
  }

  any-keep_if :
      (test keep : A → Bool) (x : A) (xs : List A)
      → keep x ≡ true
      → any test xs ≡ true
      → All (λ y. test y ≡ true → y ≡ x) xs
      → any test (keep_if keep xs) ≡ true
  any-keep_if test keep x [] k p o = p
  any-keep_if test keep x (y ∷ ys) k p o = elim (Bool-cases (test y)) [
    | inl e ↦ let kept : keep y ≡ true = ap keep (o.0 e) ∙ k in rw kept (rw e refl)
    | inr e ↦
        let rest = any-keep_if test keep x ys k (rw e at p) o.1 in
        on_if (λ zs. any test zs ≡ true) (keep y) _ _ (λ _. rw e rest) (λ _. rest)
  ]

  pub keep_if-Sole :
      (test keep : A → Bool) (x : A) (xs : List A)
      → keep x ≡ true
      → Sole test x xs
      → Sole test x (keep_if keep xs)
  keep_if-Sole test keep x xs k s = record {
    present = any-keep_if test keep x xs k s.present s.only;
    only = All-keep_if _ keep xs s.only;
  }

module _ {ℓ κ} {A : Type ℓ} {B : Type κ} (f : A → B) (test : B → Bool) where
  any-map : (xs : List A) → any test (map f xs) ≡ any (λ x. test (f x)) xs
  any-map [] = refl
  any-map (x ∷ xs) = ap (λ b. test (f x) || b) (any-map xs)

  only-map :
      (x : A) (xs : List A)
      → All (λ y. test (f y) ≡ true → y ≡ x) xs
      → All (λ z. test z ≡ true → z ≡ f x) (map f xs)
  only-map x [] h = tt
  only-map x (y ∷ ys) h = (λ e. ap f (h.0 e), only-map x ys h.1)

  pub map-Sole : (x : A) (xs : List A) → Sole (λ y. test (f y)) x xs → Sole test (f x) (map f xs)
  map-Sole x xs s = record { present = any-map xs ∙ s.present; only = only-map x xs s.only }
