-- ===== src/Store/Revoke/Exclusive.antt =====
-- Revoking (internal/store/store.go) never makes a reservation active.
use gpuardian.Base.{
  ℕ, true, false, Bool, ok, err, OnOk, arith, String, if◌then◌else◌, is_empty, Bool-cases, inl, inr,
}
use gpuardian.Model.{Reservation, State, reservation_active_at}
use gpuardian.Store.Errors.{not_found}
use gpuardian.Store.Persist.{Platform, write}
use gpuardian.Store.Persist.Transact.{PlanKeeps, write_if-keeps}
use gpuardian.Store.Exclusive.{IsExclusive, NarrowsTo, Narrows-NoClash, Narrows-map}
use gpuardian.Store.Revoke.{
  revoke_in_group, revoke_group, revoke_if_reservation, revoke_rows, revoke_tokens, managed_group,
  target_hash, revoke_body,
}

revoke_in_group-NarrowsTo :
    (group : String) (r : Reservation) → NarrowsTo r (revoke_in_group group r)
unfolding reservation_active_at
revoke_in_group-NarrowsTo group r = ground arith

revoke_if-NarrowsTo :
    (id hash : String) (r : Reservation) → NarrowsTo r (revoke_if_reservation id hash r)
unfolding reservation_active_at
revoke_if-NarrowsTo id hash r = ground arith

revoke_group-Exclusive :
    (group : String) (s : State)
    → IsExclusive s
    → OnOk (PlanKeeps IsExclusive) (revoke_group group s)
unfolding revoke_group
revoke_group-Exclusive group s h = write_if-keeps IsExclusive _ _ tt (
    Narrows-NoClash s.reservations _
      (Narrows-map (revoke_in_group group) (revoke_in_group-NarrowsTo group) s.reservations) h)

found-keeps :
    (P : State → Type 0) (changed : Bool) (s : State) (id : String)
    → P s
    → OnOk (PlanKeeps P) (if changed then ok (write s tt) else err (not_found id))
found-keeps P true s id h = h
found-keeps P false s id h = tt

revoke_rows-Exclusive :
    (clock : ℕ) (id start : String) (s : State)
    → IsExclusive s
    → OnOk (PlanKeeps IsExclusive) (revoke_rows clock id start s)
unfolding revoke_rows
revoke_rows-Exclusive clock id start s h =
    let hash = (revoke_tokens id start s.tokens).0 in
    found-keeps IsExclusive _ _ id (
      Narrows-NoClash s.reservations _
        (Narrows-map (revoke_if_reservation id hash) (revoke_if-NarrowsTo id hash) s.reservations)
        h)

pub revoke_body-Exclusive :
    (u : Platform) (clock : ℕ) (id : String) (s : State)
    → IsExclusive s
    → OnOk (PlanKeeps IsExclusive) (revoke_body u clock id s)
unfolding revoke_body
revoke_body-Exclusive u clock id s h = elim (Bool-cases (is_empty (managed_group id s))) [
  | inl e ↦ rw e (revoke_rows-Exclusive clock id (target_hash u id s) s h)
  | inr e ↦ rw e (revoke_group-Exclusive (managed_group id s) s h)
]
