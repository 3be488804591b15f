-- ===== src/Store/Exclusive.antt =====
-- What the reservations of internal/store/store.go promise: a GPU is never held twice at one time.
use gpuardian.Base.{
  ℕ, ◌≡◌, refl, ◌∙◌, sym, Bool, true, List, [], ◌∷◌, map, keep_if, Pairwise, All, update_first,
  OnSome, Option, none, some, Bool-cases, inl, inr, Pairwise-keep_if,
}
use gpuardian.Model.{Reservation, State, reservation_active_at}

-- At no instant do both hold the same GPU.
abbrev pub NoClash : Reservation → Reservation → Type 0
NoClash a b =
    (t : ℕ)
    → a.gpu ≡ b.gpu
    → reservation_active_at a t ≡ true
    → reservation_active_at b t ≡ true
    → ⊥

-- No two stored reservations of one GPU are active at the same instant, whichever it is.
abbrev pub IsExclusive : State → Type 0
IsExclusive s = Pairwise NoClash s.reservations

pub keep_if-NoClash :
    (test : Reservation → Bool) (rs : List Reservation)
    → Pairwise NoClash rs
    → Pairwise NoClash (keep_if test rs)
keep_if-NoClash test rs = Pairwise-keep_if NoClash test rs

-- `y` is on the same GPU as `x` and active at most when `x` is.
pub record NarrowsTo (x y : Reservation) : Type 0 where
  pub gpu : y.gpu ≡ x.gpu
  pub active : (t : ℕ) → reservation_active_at y t ≡ true → reservation_active_at x t ≡ true

abbrev pub Narrows : List Reservation → List Reservation → Type 0
Narrows [] [] = Unit {0}
Narrows (x ∷ xs) (y ∷ ys) = NarrowsTo x y × Narrows xs ys
Narrows _ _ = ⊥

Narrows-All :
    (x y : Reservation) (xs ys : List Reservation)
    → NarrowsTo x y
    → Narrows xs ys
    → All (NoClash x) xs
    → All (NoClash y) ys
Narrows-All x y [] [] n ns h = tt
Narrows-All x y (a ∷ xs) (b ∷ ys) n ns h = (
  λ t g p q. h.0 t (sym n.gpu ∙ g ∙ ns.0.gpu) (n.active t p) (ns.0.active t q),
  Narrows-All x y xs ys n ns.1 h.1,
)
Narrows-All x y [] (b ∷ ys) n ns h = absurd ns
Narrows-All x y (a ∷ xs) [] n ns h = absurd ns

pub Narrows-NoClash :
    (xs ys : List Reservation) → Narrows xs ys → Pairwise NoClash xs → Pairwise NoClash ys
Narrows-NoClash [] [] ns h = tt
Narrows-NoClash (x ∷ xs) (y ∷ ys) ns h =
    (Narrows-All x y xs ys ns.0 ns.1 h.0, Narrows-NoClash xs ys ns.1 h.1)
Narrows-NoClash [] (y ∷ ys) ns h = absurd ns
Narrows-NoClash (x ∷ xs) [] ns h = absurd ns

pub NarrowsTo-refl : (r : Reservation) → NarrowsTo r r
NarrowsTo-refl r = record { gpu = refl; active = λ t p. p }

pub Narrows-refl : (rs : List Reservation) → Narrows rs rs
Narrows-refl [] = tt
Narrows-refl (r ∷ rs) = (NarrowsTo-refl r, Narrows-refl rs)

pub Narrows-map :
    (f : Reservation → Reservation)
    → ((r : Reservation) → NarrowsTo r (f r))
    → (rs : List Reservation) → Narrows rs (map f rs)
Narrows-map f v [] = tt
Narrows-map f v (r ∷ rs) = (v r, Narrows-map f v rs)

pub Narrows-update_first :
    (test : Reservation → Bool) (f : Reservation → Reservation)
    → ((r : Reservation) → NarrowsTo r (f r))
    → (rs : List Reservation) → OnSome (Narrows rs) (update_first test f rs)
Narrows-update_first test f v [] = tt
Narrows-update_first test f v (r ∷ rs) = elim (Bool-cases (test r)) [
  | inl e ↦ rw e (v r, Narrows-refl rs)
  | inr e ↦ rw e (go (update_first test f rs) (Narrows-update_first test f v rs))
]
  where
    go :
        (o : Option (List Reservation))
        → OnSome (Narrows rs) o
        → OnSome (Narrows (r ∷ rs)) (elim o [ none ↦ none | some ys ↦ some (r ∷ ys) ])
    go none k = tt
    go (some ys) k = (NarrowsTo-refl r, k)
