-- ===== src/Model/Instants.antt =====
-- The overlap test of internal/model/model.go, read as a statement about instants.
use gpuardian.Base.{ℕ, ◌≤◌, ◌<◌, ◌≡◌, ◌↔◌, true, arith, ltb, if◌then◌else◌}
use gpuardian.Model.{
  Reservation, reservation_starts_at, reservation_active_at, reservation_overlaps,
}

-- An instant of the interval from `a` up to `b` at which the reservation is active.
abbrev pub Shares : Reservation → ℕ → ℕ → Type 0
Shares r a b = (t : ℕ) × (a ≤ t) × (t < b) × (reservation_active_at r t ≡ true)

-- The later of the two starts.
abbrev later : ℕ → ℕ → ℕ
later a b = if ltb a b then b else a

-- A stored reservation that ends after it starts is in the way of an interval that ends after it
-- starts exactly when it is active at some instant of the interval.
pub reservation_overlaps_iff :
    (r : Reservation) (a b : ℕ)
    → reservation_starts_at r < r.expires_at
    → a < b
    → (reservation_overlaps r a b ≡ true) ↔ Shares r a b
unfolding reservation_overlaps reservation_active_at
reservation_overlaps_iff r a b proper ab = (
  λ h. (later a (reservation_starts_at r), ground arith, ground arith, ground arith),
  λ (t, from, to, active). ground arith,
)
