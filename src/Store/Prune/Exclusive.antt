-- ===== src/Store/Prune/Exclusive.antt =====
-- Pruning (internal/store/store.go) only takes reservations away.
use gpuardian.Base.{ℕ, not, List, String, OnOk}
use gpuardian.Model.{State}
use gpuardian.Store.Persist.{Platform}
use gpuardian.Store.Persist.Transact.{PlanKeeps, write_if-keeps}
use gpuardian.Store.Exclusive.{IsExclusive, keep_if-NoClash}
use gpuardian.Store.Prune.{
  reservation_is_dead, prune_expired, prune_body, prune_scopes_body, reservation_is_over,
  prune_entitlements_body,
}

pub prune_body-Exclusive :
    (u : Platform) (now : ℕ) (s : State)
    → IsExclusive s
    → OnOk (PlanKeeps IsExclusive) (prune_body u now s)
unfolding prune_body prune_expired
prune_body-Exclusive u now s h =
    write_if-keeps IsExclusive _ _ tt
      (keep_if-NoClash (λ r. not (reservation_is_dead u s now r)) s.reservations h)

pub prune_scopes-Exclusive :
    (authorization_ids lease_ids : List String) (s : State)
    → IsExclusive s
    → OnOk (PlanKeeps IsExclusive) (prune_scopes_body authorization_ids lease_ids s)
unfolding prune_scopes_body
prune_scopes-Exclusive authorization_ids lease_ids s h = write_if-keeps IsExclusive _ _ tt h

pub prune_entitlements-Exclusive :
    (now : ℕ) (s : State)
    → IsExclusive s
    → OnOk (PlanKeeps IsExclusive) (prune_entitlements_body now s)
unfolding prune_entitlements_body
prune_entitlements-Exclusive now s h =
    write_if-keeps IsExclusive _ _ tt
      (keep_if-NoClash (λ r. not (reservation_is_over s now r)) s.reservations h)
