-- ===== src/Base/Results.antt =====
-- Go's `(value, error)`: a value or an error, chained by `do`.
use mathlib.Core.Path.{◌≡◌, refl}
use mathlib.Core.Logic.{◌⊎◌, inl, inr}
use mathlib.Core.Bool.{Bool, true, false}
use mathlib.Core.Option.{Option, none, some}

pub data Result {ℓ} (E : Type 0) (A : Type ℓ) : Type ℓ where
  ok : A → Result E A
  err : E → Result E A

infixl 5 ◌>>=◌ ◌>>◌
abbrev pub ◌>>=◌ {ℓ κ} :
    {E : Type 0} {A : Type ℓ} {B : Type κ} → Result E A → (A → Result E B) → Result E B
ok a >>= f = f a
err e >>= f = err e

abbrev pub ◌>>◌ {ℓ} : {E : Type 0} {B : Type ℓ} → Result E (Unit {0}) → Result E B → Result E B
m >> k = m >>= λ _. k

-- `if bad { return e }`
abbrev pub refuse_if : {E : Type 0} → Bool → E → Result E (Unit {0})
refuse_if true e = err e
refuse_if false e = ok tt

-- `if e != nil { return e }`
abbrev pub refuse : {E : Type 0} → Option E → Result E (Unit {0})
refuse none = ok tt
refuse (some e) = err e

abbrev pub or_fail {ℓ} : {E : Type 0} {A : Type ℓ} → Option A → E → Result E A
or_fail none e = err e
or_fail (some a) e = ok a

-- A statement about the value, if there is one.
abbrev pub OnOk {ℓ κ} : {E : Type 0} {A : Type ℓ} → (A → Type κ) → Result E A → Type κ
OnOk P (ok a) = P a
OnOk P (err e) = Unit

-- The rule for a chain: what the rest gives for each value holds of the whole.
pub OnOk->>= {ℓ κ ν} :
    {E : Type 0} {A : Type ℓ} {B : Type κ} (P : B → Type ν) (m : Result E A) (f : A → Result E B)
    → ((a : A) → m ≡ ok a → OnOk P (f a))
    → OnOk P (m >>= f)
OnOk->>= P (ok a) f h = h a refl
OnOk->>= P (err e) f h = tt

-- A passed guard did not refuse.
pub refuse_if-passed :
    {E : Type 0} (b : Bool) (e : E) {u : Unit {0}} → refuse_if b e ≡ ok u → b ≡ false
refuse_if-passed true e h = cc
refuse_if-passed false e h = refl

-- Both halves of a check that passed, and back.
module _ {ℓ} {E : Type 0} {B : Type ℓ} where
  pub >>-eq-ok :
      (m : Result E (Unit {0})) (k : Result E B) {b : B}
      → (m >> k) ≡ ok b
      → (m ≡ ok tt) × (k ≡ ok b)
  >>-eq-ok (ok u) k h = (refl, h)
  >>-eq-ok (err e) k h = cc

  pub >>-ok :
      (m : Result E (Unit {0})) (k : Result E B) {b : B} → m ≡ ok tt → k ≡ ok b → (m >> k) ≡ ok b
  >>-ok m k p q = rw p q

pub Result-cases {ℓ} :
    {E : Type 0} {A : Type ℓ} (r : Result E A) → ((e : E) × (r ≡ err e)) ⊎ ((a : A) × (r ≡ ok a))
Result-cases (ok a) = inr (a, refl)
Result-cases (err e) = inl (e, refl)

-- The rule for a guard: what follows it may use that it passed.
pub OnOk->> {ℓ κ} :
    {E : Type 0} {B : Type ℓ} (P : B → Type κ) (m : Result E (Unit {0})) (k : Result E B)
    → (m ≡ ok tt → OnOk P k)
    → OnOk P (m >> k)
OnOk->> P (ok u) k h = h refl
OnOk->> P (err e) k h = tt

pub OnOk-mono {ℓ κ ν} :
    {E : Type 0} {A : Type ℓ} {P : A → Type κ} {Q : A → Type ν}
    → ((a : A) → P a → Q a)
    → (m : Result E A) → OnOk P m
    → OnOk Q m
OnOk-mono f (ok a) h = f a h
OnOk-mono f (err e) h = tt

pub or_fail-ok {ℓ} :
    {E : Type 0} {A : Type ℓ} (o : Option A) (e : E) {a : A} → or_fail o e ≡ ok a → o ≡ some a
or_fail-ok none e h = cc
or_fail-ok (some b) e h = cc

pub ok_injective {ℓ} :
    {E : Type 0} {A : Type ℓ} {a b : A} → ◌≡◌ {A = Result E A} (ok a) (ok b) → a ≡ b
ok_injective h = cc
