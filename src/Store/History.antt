-- ===== src/Store/History.antt =====
-- The store of internal/store/store.go over a history of calls. The mutex makes each call one step.
-- AddReservation, which has no caller in the program, is left out.
pub mod Exclusive
pub mod Failed
use gpuardian.Base.{
  Option, none, some, ℕ, ℤ, String, Bool, List, [], ◌∷◌, OnOk, ok, err, ◌≡◌, refl, Bool-cases, inl,
  inr,
}
use gpuardian.Model.{Token, Authorization, SoftClaim, Lease, BypassRule, State}
use gpuardian.Store.Errors.{Error, Fallible}
use gpuardian.Store.Persist.{Platform, Io, Store}
use gpuardian.Store.Persist.Transact.{IsSettled, transact-IsSettled}
use gpuardian.Store.Exclusive.{IsExclusive}
use gpuardian.Store.Tokens.{
  register_soft_token, register_token, validate_token, managed_token_by_id, managed_keys_enabled,
}
use gpuardian.Store.Reserve.{
  Request, register_scheduled_reservations, register_hard_reservations,
  register_managed_reservations,
}
use gpuardian.Store.Sync.{Snapshot, sync_managed_user_keys}
use gpuardian.Store.Rows.{
  add_lease, update_lease, release_lease, release_reservation, add_authorization,
  update_authorization, activate_authorization, release_authorization, release_scopes,
  upsert_soft_claim, release_soft_claim, add_bypass,
}
use gpuardian.Store.Revoke.{revoke}
use gpuardian.Store.Prune.{
  prune, prune_inactive_managed_scopes, prune_unreferenced_invalid_entitlements,
}

pub data Op : Type 0 where
  registers_soft : String → String → ℕ → Op
  registers_token : String → String → String → ℕ → Op
  schedules : String → Request → Op
  reserves_hard : String → String → List ℤ → String → ℕ → Op
  reserves_managed : String → String → Request → Op
  syncs : String → Snapshot → ℕ → Op
  validates : String → ℕ → Op
  looks_up : String → ℕ → Op
  adds_lease : Lease → Op
  updates_lease : Lease → Op
  releases_lease : String → Op
  releases_reservation : String → Op
  adds_authorization : Authorization → Op
  updates_authorization : Authorization → Op
  activates : String → ℤ → Op
  releases_authorization : String → Op
  releases_scopes : List String → List String → List String → Op
  upserts_claim : SoftClaim → ℕ → Op
  releases_claim : String → Op
  adds_bypass : BypassRule → Op
  revokes : String → Op
  prunes : ℕ → Op
  prunes_scopes : List String → List String → Op
  prunes_entitlements : ℕ → Op

abbrev pub error_of : {A : Type 0} → Fallible A → Option Error
error_of (ok a) = none
error_of (err e) = some e

abbrev pub report : {A : Type 0} → Store × Fallible A → Store × Option Error
report r = (r.0, error_of r.1)

-- The store after a call, and its error, if it returns one.
unfoldable pub call : Platform → Io × Op → Store → Store × Option Error
call u (io, registers_soft key name now) s = report (register_soft_token u io key name now s)
call u (io, registers_token key name ttl now) s = report (register_token u io key name ttl now s)
call u (io, schedules key q) s = report (register_scheduled_reservations u io key q s)
call u (io, reserves_hard key name gpus ttl now) s =
    report (register_hard_reservations u io key name gpus ttl now s)
call u (io, reserves_managed key user_key q) s =
    report (register_managed_reservations u io key user_key q s)
call u (io, syncs key p now) s = report (sync_managed_user_keys u io key p now s)
call u (io, validates secret now) s = report (validate_token u io secret now s)
call u (io, looks_up id now) s = report (managed_token_by_id u io id now s)
call u (io, adds_lease l) s = report (add_lease u io l s)
call u (io, updates_lease l) s = report (update_lease u io l s)
call u (io, releases_lease id) s = report (release_lease u io id s)
call u (io, releases_reservation id) s = report (release_reservation u io id s)
call u (io, adds_authorization a) s = report (add_authorization u io a s)
call u (io, updates_authorization a) s = report (update_authorization u io a s)
call u (io, activates id pid) s = report (activate_authorization u io id pid s)
call u (io, releases_authorization id) s = report (release_authorization u io id s)
call u (io, releases_scopes rs auths ls) s = report (release_scopes u io rs auths ls s)
call u (io, upserts_claim c now) s = report (upsert_soft_claim u io c now s)
call u (io, releases_claim id) s = report (release_soft_claim u io id s)
call u (io, adds_bypass b) s = report (add_bypass u io b s)
call u (io, revokes id) s = report (revoke u io id s)
call u (io, prunes now) s = report (prune u io now s)
call u (io, prunes_scopes auths ls) s = report (prune_inactive_managed_scopes u io auths ls s)
call u (io, prunes_entitlements now) s = report (prune_unreferenced_invalid_entitlements u io now s)

-- The store after a call, whose answer is dropped.
unfoldable pub step : Platform → Io × Op → Store → Store
step u c s = (call u c s).0

unfoldable pub run : Platform → List (Io × Op) → Store → Store
run u [] s = s
run u (c ∷ cs) s = run u cs (step u c s)
