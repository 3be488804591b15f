-- ===== src/Store/Sync/Exclusive.antt =====
-- A key snapshot (internal/store/store.go) attaches reservations to other keys and moves none.
use gpuardian.Base.{ℕ, suc, refl, Bool, List, [], ◌∷◌, ok, err, OnOk, arith, String, ◌>>=◌}
use gpuardian.Model.{Token, Reservation, State, reservation_active_at}
use gpuardian.Store.Errors.{Fallible}
use gpuardian.Store.Persist.{Platform, Io}
use gpuardian.Store.Persist.Transact.{PlanKeeps}
use gpuardian.Store.Exclusive.{IsExclusive, NarrowsTo, Narrows, Narrows-NoClash}
use gpuardian.Store.Sync.{
  Snapshot, rebind, rebind_all, sync_rows, sync_plan, check_authority, sync_body,
}

rebind-NarrowsTo :
    (u : Platform) (io : Io) (old new : List Token) (n : ℕ) (r : Reservation)
    → NarrowsTo r (rebind u io old new n r)
unfolding rebind reservation_active_at
rebind-NarrowsTo u io old new n r = record { gpu = refl; active = λ t p. p }

rebind_all-Narrows :
    (u : Platform) (io : Io) (old new : List Token) (n : ℕ) (rs : List Reservation)
    → Narrows rs (rebind_all u io old new n rs)
unfolding rebind_all
rebind_all-Narrows u io old new n [] = tt
rebind_all-Narrows u io old new n (r ∷ rs) =
    (rebind-NarrowsTo u io old new n r, rebind_all-Narrows u io old new (suc n) rs)

sync_rows-Exclusive :
    (u : Platform) (io : Io) (p : Snapshot) (managed : List Token) (s : State)
    → IsExclusive s
    → IsExclusive (sync_rows u io p managed s)
unfolding sync_rows
sync_rows-Exclusive u io p managed s h =
    Narrows-NoClash s.reservations _ (rebind_all-Narrows u io s.tokens managed 1 s.reservations) h

sync_plan-Exclusive :
    (u : Platform) (io : Io) (p : Snapshot) (managed : List Token) (s : State) (changed : Bool)
    → IsExclusive s
    → PlanKeeps IsExclusive (sync_plan u io p managed s changed)
unfolding sync_plan
sync_plan-Exclusive u io p managed s changed h =
    let synced = sync_rows-Exclusive u io p managed s h in ground (arith, synced)

pub sync_body-Exclusive :
    (u : Platform) (io : Io) (p : Snapshot) (managed : List Token) (s : State)
    → IsExclusive s
    → OnOk (PlanKeeps IsExclusive) (sync_body u io p managed s)
unfolding sync_body
sync_body-Exclusive u io p managed s h = go (check_authority s.managed_key_authority p.authority_id)
  where
    go :
        (r : Fallible (String × Bool))
        → OnOk (PlanKeeps IsExclusive) (
            r >>= λ (authority, changed).
            ok (sync_plan u io p managed (record s { managed_key_authority = authority }) changed))
    go (ok (authority, changed)) =
        sync_plan-Exclusive u io p managed (record s { managed_key_authority = authority }) changed
          h
    go (err e) = tt
