-- ===== src/Base/Tests.antt =====
-- Boolean tests on the native numbers and on texts, equality as an interface, the conditional.
use Prim.Native.Nat.{ℕ, ◌<◌, compare, Ordering}
use Prim.Native.String.{String}
use mathlib.Core.Path.{◌≡◌, refl}
use mathlib.Core.Logic.{◌⊎◌, inl, inr}
use mathlib.Core.Bool.{Bool, true, false}
use mathlib.Core.Option.{Option, none, some}
use native.Mathlib.Omega.{arith}
use text.Mathlib.Text.{◌==◌ as str_eq}
use text.Mathlib.TextEquality.{eq_iff}

abbrev pub ltb : ℕ → ℕ → Bool
ltb a b = elim (compare a b) [ Ordering.lt ↦ true | _ ↦ false ]

abbrev pub leb : ℕ → ℕ → Bool
leb a b = elim (compare a b) [ Ordering.gt ↦ false | _ ↦ true ]

abbrev pub nat_beq : ℕ → ℕ → Bool
nat_beq a b = elim (compare a b) [ Ordering.eq ↦ true | _ ↦ false ]

infix 1 if◌then◌else◌
abbrev pub if◌then◌else◌ {ℓ} : {A : Type ℓ} → Bool → A → A → A
if true then x else y = x
if false then x else y = y

-- A type whose values a test can tell apart.
pub record Equality {ℓ} (A : Type ℓ) : Type ℓ where
  pub test : A → A → Bool
  -- A test that passes gives the equation, and equal values pass.
  pub sound : (a b : A) → test a b ≡ true → a ≡ b
  pub complete : (a b : A) → a ≡ b → test a b ≡ true

pub ltb→lt : (a b : ℕ) → ltb a b ≡ true → a < b
ltb→lt a b h = ground arith

pub lt→ltb : (a b : ℕ) → a < b → ltb a b ≡ true
lt→ltb a b h = ground arith

-- To split on a computed value and keep the equation.
pub Bool-cases : (b : Bool) → (b ≡ true) ⊎ (b ≡ false)
Bool-cases true = inl refl
Bool-cases false = inr refl

-- What holds of both branches, each under its test, holds of the conditional.
pub on_if {ℓ κ} :
    {A : Type ℓ} (P : A → Type κ) (b : Bool) (x y : A)
    → (b ≡ true → P x)
    → (b ≡ false → P y)
    → P (if b then x else y)
on_if P true x y p q = p refl
on_if P false x y p q = q refl

pub Option-cases {ℓ} : {A : Type ℓ} (o : Option A) → (o ≡ none) ⊎ ((a : A) × (o ≡ some a))
Option-cases none = inl refl
Option-cases (some a) = inr (a, refl)

pub nat_beq_sound : (a b : ℕ) → nat_beq a b ≡ true → a ≡ b
nat_beq_sound a b h = ground arith

pub nat_beq_complete : (a b : ℕ) → a ≡ b → nat_beq a b ≡ true
nat_beq_complete a b h = ground arith

instance abbrev pub nat_eq : Equality ℕ
nat_eq = record { test = nat_beq; sound = nat_beq_sound; complete = nat_beq_complete }

instance abbrev pub string_eq : Equality String
string_eq = record {
  test = str_eq;
  sound = λ a b. (eq_iff a b).0;
  complete = λ a b. (eq_iff a b).1;
}

module _ {ℓ} {A : Type ℓ} ⦃e : Equality A⦄ where
  infix 50 ◌==◌
  abbrev pub ◌==◌ : A → A → Bool
  a == b = e.test a b

  pub ==→eq : (a b : A) → (a == b) ≡ true → a ≡ b
  ==→eq = e.sound

  pub ==_refl : (a : A) → (a == a) ≡ true
  ==_refl a = e.complete a a refl

pub some_injective {ℓ} : {A : Type ℓ} {a b : A} → some a ≡ some b → a ≡ b
some_injective h = cc
