-- ===== src/Store/History/Exclusive.antt =====
-- No history of calls lets a GPU be held twice at one time, nor memory and disk drift apart.
use gpuardian.Base.{ℕ, ℤ, String, List, [], ◌∷◌, arith, OnOk}
use gpuardian.Model.{State}
use gpuardian.Store.Errors.{Fallible}
use gpuardian.Store.Persist.{Platform, Io, Store, Plan, transact}
use gpuardian.Store.Persist.Transact.{PlanKeeps, IsSettled, transact-IsSettled, checked-IsSettled}
use gpuardian.Store.Exclusive.{IsExclusive}
use gpuardian.Store.RootKey.Settled.{with_root_key-IsSettled}
use gpuardian.Store.Tokens.{parse_ttl, default_hard_ttl, max_hard_ttl}
use gpuardian.Store.Tokens.Keeps.{
  register_soft_token-IsSettled, register_token-IsSettled, validate_token-IsSettled,
  managed_token_by_id-IsSettled,
}
use gpuardian.Store.Reserve.{
  Request, check_scheduled_request, check_managed_request, register_scheduled_request,
  register_scheduled_reservations, register_hard_reservations, register_managed_reservations,
}
use gpuardian.Store.Reserve.Exclusive.{
  schedule_body-Exclusive, managed_body-Exclusive, check_scheduled_request-gpus,
  check_managed_request-gpus,
}
use gpuardian.Store.Sync.{Snapshot, sync_managed_user_keys, check_snapshot}
use gpuardian.Store.Sync.Exclusive.{sync_body-Exclusive}
use gpuardian.Store.Rows.{
  add_lease, update_lease, release_lease, release_reservation, add_authorization,
  update_authorization, activate_authorization, release_authorization, release_scopes,
  upsert_soft_claim, release_soft_claim, add_bypass,
}
use gpuardian.Store.Revoke.{revoke}
use gpuardian.Store.Rows.Exclusive
use gpuardian.Store.Revoke.Exclusive.{revoke_body-Exclusive}
use gpuardian.Store.Prune.{
  prune, prune_unreferenced_invalid_entitlements, prune_inactive_managed_scopes,
}
use gpuardian.Store.Prune.Exclusive.{
  prune_body-Exclusive, prune_scopes-Exclusive, prune_entitlements-Exclusive,
}
use gpuardian.Store.History.{
  Op, step, call, run, registers_soft, registers_token, schedules, reserves_hard, reserves_managed,
  syncs, validates, looks_up, adds_lease, updates_lease, releases_lease, releases_reservation,
  adds_authorization, updates_authorization, activates, releases_authorization, releases_scopes,
  upserts_claim, releases_claim, adds_bypass, revokes, prunes, prunes_scopes, prunes_entitlements,
}

module _ (u : Platform) (io : Io) where
  scheduled-IsSettled :
      (root_key : String) (q : Request) (s : Store)
      → IsSettled IsExclusive s
      → IsSettled IsExclusive (register_scheduled_request u io root_key q s).0
  unfolding register_scheduled_request
  scheduled-IsSettled root_key q s h =
      checked-IsSettled IsExclusive (check_scheduled_request q) _ s
        (λ _ t fine k.
          with_root_key-IsSettled IsExclusive io root_key _ t
            (λ t' k'.
              transact-IsSettled IsExclusive u io _ t'
                (λ state e.
                  schedule_body-Exclusive u q io _ _ state (check_scheduled_request-gpus q fine) e)
                k')
            k)
        h

  hard-IsSettled :
      (root_key name : String) (gpus : List ℤ) (ttl_text : String) (now : ℕ) (s : Store)
      → IsSettled IsExclusive s
      → IsSettled IsExclusive (register_hard_reservations u io root_key name gpus ttl_text now s).0
  unfolding register_hard_reservations register_scheduled_reservations
  hard-IsSettled root_key name gpus ttl_text now s h =
      checked-IsSettled IsExclusive (parse_ttl u ttl_text default_hard_ttl max_hard_ttl) _ s
        (λ ttl t _ k. scheduled-IsSettled root_key _ t k) h

  managed-IsSettled :
      (root_key user_key : String) (q : Request) (s : Store)
      → IsSettled IsExclusive s
      → IsSettled IsExclusive (register_managed_reservations u io root_key user_key q s).0
  unfolding register_managed_reservations
  managed-IsSettled root_key user_key q s h =
      with_root_key-IsSettled IsExclusive io root_key _ s
        (λ t k.
          checked-IsSettled IsExclusive (check_managed_request _) _ t
            (λ _ t' fine k'.
              transact-IsSettled IsExclusive u io _ t'
                (λ state e.
                  managed_body-Exclusive u _ io user_key _ state (check_managed_request-gpus _ fine)
                    e)
                k')
            k)
        h

  sync-IsSettled :
      (root_key : String) (p : Snapshot) (now : ℕ) (s : Store)
      → IsSettled IsExclusive s
      → IsSettled IsExclusive (sync_managed_user_keys u io root_key p now s).0
  unfolding sync_managed_user_keys
  sync-IsSettled root_key p now s h =
      with_root_key-IsSettled IsExclusive io root_key _ s
        (λ t k.
          checked-IsSettled IsExclusive (check_snapshot u now _) _ t
            (λ managed t' _ k'.
              transact-IsSettled IsExclusive u io _ t' (sync_body-Exclusive u io _ managed) k')
            k)
        h

  activate-IsSettled :
      (id : String) (root_pid : ℤ) (s : Store)
      → IsSettled IsExclusive s
      → IsSettled IsExclusive (activate_authorization u io id root_pid s).0
  unfolding activate_authorization
  activate-IsSettled id root_pid s h =
      let done =
        transact-IsSettled IsExclusive u io _ s
          (λ state e. Exclusive.activate-Exclusive state e id root_pid) h in
      ground (arith, done)

  scopes-IsSettled :
      (rs auths ls : List String) (s : Store)
      → IsSettled IsExclusive s
      → IsSettled IsExclusive (release_scopes u io rs auths ls s).0
  unfolding release_scopes
  scopes-IsSettled rs auths ls s h =
      let done =
        transact-IsSettled IsExclusive u io _ s (Exclusive.release_scopes-Exclusive rs auths ls)
          h in
      ground (arith, done)

  prune_scopes-IsSettled :
      (auths ls : List String) (s : Store)
      → IsSettled IsExclusive s
      → IsSettled IsExclusive (prune_inactive_managed_scopes u io auths ls s).0
  unfolding prune_inactive_managed_scopes
  prune_scopes-IsSettled auths ls s h =
      let done = transact-IsSettled IsExclusive u io _ s (prune_scopes-Exclusive auths ls) h in
      ground (arith, done)

  -- An operation that is one critical section and keeps the reservations exclusive.
  section-IsSettled :
      {A : Type 0} (body : State → Fallible (Plan A)) (s : Store)
      → ((state : State) → IsExclusive state → OnOk (PlanKeeps IsExclusive) (body state))
      → IsSettled IsExclusive s
      → IsSettled IsExclusive (transact u io body s).0
  section-IsSettled body s k h = transact-IsSettled IsExclusive u io body s k h

step-IsSettled :
    (u : Platform) (c : Io × Op) (s : Store)
    → IsSettled IsExclusive s
    → IsSettled IsExclusive (step u c s)
unfolding step call register_scheduled_reservations add_lease update_lease release_lease
    release_reservation add_authorization update_authorization release_authorization
    upsert_soft_claim release_soft_claim add_bypass revoke prune
    prune_unreferenced_invalid_entitlements
step-IsSettled u (io, registers_soft key name now) s h =
    register_soft_token-IsSettled u io s h key name now
step-IsSettled u (io, registers_token key name ttl now) s h =
    register_token-IsSettled u io s h key name ttl now
step-IsSettled u (io, schedules key q) s h = scheduled-IsSettled u io key _ s h
step-IsSettled u (io, reserves_hard key name gpus ttl now) s h =
    hard-IsSettled u io key name gpus ttl now s h
step-IsSettled u (io, reserves_managed key user_key q) s h =
    managed-IsSettled u io key user_key q s h
step-IsSettled u (io, syncs key p now) s h = sync-IsSettled u io key p now s h
step-IsSettled u (io, validates secret now) s h = validate_token-IsSettled u io s h secret now
step-IsSettled u (io, looks_up id now) s h = managed_token_by_id-IsSettled u io s h id now
step-IsSettled u (io, adds_lease l) s h =
    section-IsSettled u io _ s (λ t e. Exclusive.add_lease-Exclusive t e l) h
step-IsSettled u (io, updates_lease l) s h =
    section-IsSettled u io _ s (λ t e. Exclusive.update_lease-Exclusive t e l) h
step-IsSettled u (io, releases_lease id) s h =
    section-IsSettled u io _ s (λ t e. Exclusive.release_lease-Exclusive t e id) h
step-IsSettled u (io, releases_reservation id) s h =
    section-IsSettled u io _ s (Exclusive.release_reservation-Exclusive id) h
step-IsSettled u (io, adds_authorization a) s h =
    section-IsSettled u io _ s (λ t e. Exclusive.add_authorization-Exclusive t e io.clock a) h
step-IsSettled u (io, updates_authorization a) s h =
    section-IsSettled u io _ s (λ t e. Exclusive.update_authorization-Exclusive t e io.clock a) h
step-IsSettled u (io, activates id pid) s h = activate-IsSettled u io id pid s h
step-IsSettled u (io, releases_authorization id) s h =
    section-IsSettled u io _ s (λ t e. Exclusive.release_authorization-Exclusive t e id) h
step-IsSettled u (io, releases_scopes rs auths ls) s h = scopes-IsSettled u io rs auths ls s h
step-IsSettled u (io, upserts_claim c now) s h =
    section-IsSettled u io _ s (λ t e. Exclusive.upsert_claim-Exclusive t e _) h
step-IsSettled u (io, releases_claim id) s h =
    section-IsSettled u io _ s (λ t e. Exclusive.release_claim-Exclusive t e id) h
step-IsSettled u (io, adds_bypass b) s h =
    section-IsSettled u io _ s (λ t e. Exclusive.add_bypass-Exclusive t e b) h
step-IsSettled u (io, revokes id) s h =
    section-IsSettled u io _ s (revoke_body-Exclusive u io.clock _) h
step-IsSettled u (io, prunes now) s h = section-IsSettled u io _ s (prune_body-Exclusive u now) h
step-IsSettled u (io, prunes_scopes auths ls) s h = prune_scopes-IsSettled u io auths ls s h
step-IsSettled u (io, prunes_entitlements now) s h =
    section-IsSettled u io _ s (prune_entitlements-Exclusive now) h

-- Over every history of the daemon's calls, with any failures of the operating system on the way, a
-- loaded store whose reservations are exclusive keeps them so, and ends with its memory equal to the
-- committed copy: at no instant are two of the stored reservations of one GPU active.
pub run-IsSettled :
    (u : Platform) (cs : List (Io × Op)) (s : Store)
    → IsSettled IsExclusive s
    → IsSettled IsExclusive (run u cs s)
unfolding run
run-IsSettled u [] s h = h
run-IsSettled u (c ∷ cs) s h = run-IsSettled u cs (step u c s) (step-IsSettled u c s h)
