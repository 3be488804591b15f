-- ===== src/Store/Rows/Exclusive.antt =====
-- Releasing rows (internal/store/store.go) never makes a reservation active.
use gpuardian.Base.{
  ℕ, ℤ, refl, List, Option, none, some, OnSome, update_first, OnOk, arith, String, ◌==◌, string_eq,
}
use gpuardian.Model.{
  Reservation, Authorization, SoftClaim, Lease, BypassRule, State, reservation_active_at,
}
use gpuardian.Store.Persist.Transact.{PlanKeeps, write_if-keeps}
use gpuardian.Store.Exclusive.{
  IsExclusive, NarrowsTo, Narrows, Narrows-NoClash, Narrows-map, Narrows-update_first,
}
use gpuardian.Store.Rows.{
  write_found, deactivate_reservation, release_if_reservation, release_reservation_body,
  release_scopes_body, add_lease_body, update_lease_body, release_lease_body,
  add_authorization_body, update_authorization_body, activate_body, release_authorization_body,
  upsert_claim_body, release_claim_body, add_bypass_body,
}

deactivate-NarrowsTo : (r : Reservation) → NarrowsTo r (deactivate_reservation r)
unfolding reservation_active_at
deactivate-NarrowsTo r = record { gpu = refl; active = λ t p. ground arith }

release_if-NarrowsTo :
    (ids : List String) (r : Reservation) → NarrowsTo r (release_if_reservation ids r)
unfolding reservation_active_at
release_if-NarrowsTo ids r = ground arith

write_found-Exclusive :
    (s : State) (o : Option (List Reservation))
    → IsExclusive s
    → OnSome (Narrows s.reservations) o
    → OnOk (PlanKeeps IsExclusive) (write_found (λ rs. record s { reservations = rs }) o)
unfolding write_found
write_found-Exclusive s none h n = tt
write_found-Exclusive s (some rs) h n = Narrows-NoClash s.reservations rs n h

pub release_reservation-Exclusive :
    (id : String) (s : State)
    → IsExclusive s
    → OnOk (PlanKeeps IsExclusive) (release_reservation_body id s)
unfolding release_reservation_body
release_reservation-Exclusive id s h =
    write_found-Exclusive s (update_first (λ r. r.id == id) deactivate_reservation s.reservations) h
      (Narrows-update_first _ deactivate_reservation deactivate-NarrowsTo s.reservations)

pub release_scopes-Exclusive :
    (reservation_ids authorization_ids lease_ids : List String) (s : State)
    → IsExclusive s
    → OnOk
        (PlanKeeps IsExclusive)
        (release_scopes_body reservation_ids authorization_ids lease_ids s)
unfolding release_scopes_body
release_scopes-Exclusive reservation_ids authorization_ids lease_ids s h =
    write_if-keeps IsExclusive _ _ tt (
      Narrows-NoClash s.reservations _
        (Narrows-map (release_if_reservation reservation_ids) (release_if-NarrowsTo reservation_ids)
          s.reservations)
        h)

-- The operations on the other rows leave the reservations alone.
module _ (s : State) (h : IsExclusive s) where
  pub add_lease-Exclusive : (lease : Lease) → OnOk (PlanKeeps IsExclusive) (add_lease_body lease s)
  unfolding add_lease_body
  add_lease-Exclusive lease = h

  pub update_lease-Exclusive :
      (lease : Lease) → OnOk (PlanKeeps IsExclusive) (update_lease_body lease s)
  unfolding update_lease_body
  update_lease-Exclusive lease = ground (arith, h)

  pub release_lease-Exclusive :
      (id : String) → OnOk (PlanKeeps IsExclusive) (release_lease_body id s)
  unfolding release_lease_body write_found
  release_lease-Exclusive id = ground (arith, h)

  pub add_authorization-Exclusive :
      (clock : ℕ) (a : Authorization)
      → OnOk (PlanKeeps IsExclusive) (add_authorization_body clock a s)
  unfolding add_authorization_body
  add_authorization-Exclusive clock a = ground (arith, h)

  pub update_authorization-Exclusive :
      (clock : ℕ) (a : Authorization)
      → OnOk (PlanKeeps IsExclusive) (update_authorization_body clock a s)
  unfolding update_authorization_body
  update_authorization-Exclusive clock a = ground (arith, h)

  pub activate-Exclusive :
      (id : String) (root_pid : ℤ) → OnOk (PlanKeeps IsExclusive) (activate_body id root_pid s)
  unfolding activate_body
  activate-Exclusive id root_pid = ground (arith, h)

  pub release_authorization-Exclusive :
      (id : String) → OnOk (PlanKeeps IsExclusive) (release_authorization_body id s)
  unfolding release_authorization_body write_found
  release_authorization-Exclusive id = ground (arith, h)

  pub upsert_claim-Exclusive :
      (claim : SoftClaim) → OnOk (PlanKeeps IsExclusive) (upsert_claim_body claim s)
  unfolding upsert_claim_body
  upsert_claim-Exclusive claim = h

  pub release_claim-Exclusive :
      (id : String) → OnOk (PlanKeeps IsExclusive) (release_claim_body id s)
  unfolding release_claim_body
  release_claim-Exclusive id = write_if-keeps IsExclusive _ _ tt h

  pub add_bypass-Exclusive :
      (rule : BypassRule) → OnOk (PlanKeeps IsExclusive) (add_bypass_body rule s)
  unfolding add_bypass_body
  add_bypass-Exclusive rule = ground (arith, h)
