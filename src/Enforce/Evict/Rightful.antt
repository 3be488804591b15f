-- ===== src/Enforce/Evict/Rightful.antt =====
-- Whom the eviction of internal/enforce/enforce.go terminates.
use gpuardian.Base.{
  ℕ, ◌≡◌, refl, sym, ap, some_injective, ◌⊎◌, inl, inr, ℤ, false, not, ◌&&◌, ◌||◌, Option, none,
  some, List, [], ◌∷◌, All, All-append, length, leb, exceeds, Result, ok, err, ◌>>=◌, on_if, arith,
}
use gpuardian.Model.{Authorization, Lease, State}
use gpuardian.Model.Processes.{GpuProcess, ProcInfo}
use gpuardian.Enforce.Scope.{Fault}
use gpuardian.Enforce.Entitlement.{Known, know_reservations, stale_eviction_possible}
use gpuardian.Enforce.Kills.{
  ProcessView, Blame, PendingKill, Pass, Means, awaiting, decide, plan_kill, is_targeted,
}
use gpuardian.Enforce.Kills.Orderly.{IsOrderly, Spares, plan_kill-IsOrderly}
use gpuardian.Enforce.Run.Orderly.{IsSpared, start-IsOrderly}
use gpuardian.Enforce.Decide.{Surroundings}
use gpuardian.Enforce.Run.{Reader, Sample, known, gone, unreadable, start, see}
use gpuardian.Enforce.Evict.{
  Asked, scan, ask_authorizations, ask_leases, Stale, pair_stale, stale_behind, find_stale,
  Eviction, note_fault, is_none_stale, evict_process, judge_stale, evict_sample, evict_all,
  evict_expired_reserved_processes,
}
use gpuardian.Enforce.Evict.Scan.{Misses, Hits, ok_injective, scan_lem}

-- The process is in the scope of no authorization and no lease that entitles to the GPU, and it is in
-- the scope of one that has gone stale there.
pub record IsRightful (v : Surroundings) (s : State) (facts : Known) (gpu : ℤ) (info : ProcInfo)
    : Type 0 where
  pub authorizations : All (Misses (ask_authorizations v s facts gpu info)) s.authorizations
  pub leases : All (Misses (ask_leases v s gpu info)) s.leases
  pub stale :
      ((a : Authorization) × Hits (ask_authorizations v s facts gpu info) a)
      ⊎ ((l : Lease) × Hits (ask_leases v s gpu info) l)

found_stale :
    {P : Authorization → Type 0} {Q : Lease → Type 0} (stale : Stale)
    → is_none_stale stale ≡ false
    → All P stale.0
    → All Q stale.1
    → ((a : Authorization) × P a) ⊎ ((l : Lease) × Q l)
found_stale ([], []) e h k = cc
found_stale ([], l ∷ ls) e h k = inr (l, k.0)
found_stale (a ∷ auths, ls) e h k = inl (a, h.0)

leases_behind :
    (q : Asked Lease) (leases : List Lease) (auths : List Authorization)
    (r : Result Fault (Option (List Lease))) (stale : Stale)
    → (r >>= λ found. ok (pair_stale auths found)) ≡ ok (some stale)
    → (r ≡ ok (some stale.1)) × (stale.0 ≡ auths)
leases_behind q leases auths (err f) stale h = cc
leases_behind q leases auths (ok none) stale h = cc
leases_behind q leases auths (ok (some ls)) stale h =
    let same = some_injective (ok_injective h) in
    (ap (λ (x : Stale). ok (some x.1)) same, ap (λ (x : Stale). x.0) (sym same))

both_scans :
    (q : Asked Lease) (leases : List Lease) (r : Result Fault (Option (List Authorization)))
    (stale : Stale)
    → (r >>= stale_behind q leases) ≡ ok (some stale)
    → (r ≡ ok (some stale.0)) × (scan q leases ≡ ok (some stale.1))
unfolding stale_behind
both_scans q leases (err f) stale h = cc
both_scans q leases (ok none) stale h = cc
both_scans q leases (ok (some auths)) stale h =
    let (right, left) = leases_behind q leases auths (scan q leases) stale h in
    (ap (λ x. ok (some x)) (sym left), right)

found-IsRightful :
    (v : Surroundings) (s : State) (facts : Known) (gpu : ℤ) (info : ProcInfo) (stale : Stale)
    → find_stale v s facts gpu info ≡ ok (some stale)
    → is_none_stale stale ≡ false
    → IsRightful v s facts gpu info
unfolding find_stale
found-IsRightful v s facts gpu info stale h some_found =
    let (left, right) = both_scans (ask_leases v s gpu info) s.leases _ stale h in
    let (auths_miss, auths_hit) =
      scan_lem (ask_authorizations v s facts gpu info) s.authorizations stale.0 left in
    let (leases_miss, leases_hit) = scan_lem (ask_leases v s gpu info) s.leases stale.1 right in
    record {
      authorizations = auths_miss;
      leases = leases_miss;
      stale = found_stale stale some_found auths_hit leases_hit;
    }

plan_kill-All :
    (P : PendingKill → Type 0) (m : Means) (w : ProcessView) (b : Blame) (now : ℕ) (p : Pass)
    → P (record { view = w; blame = b; now = now })
    → All P p.pending
    → All P (plan_kill m w b now p).pending
unfolding plan_kill decide
plan_kill-All P m w b now p new h =
    let Q = λ (q : Pass). All P q.pending in
    on_if Q (awaiting m w.process.pid w.info.start_time) _ _ (λ _. h)
      λ _.
        on_if Q (not m.dry_run && leb 8 (length p.pending)) _ _ (λ _. h)
          λ _.
            on_if Q m.dry_run _ _ (λ _. h)
              λ _.
                All-append P p.pending (record { view = w; blame = b; now = now } ∷ []) h (new, tt)

-- The planned terminations are orderly, each of a process that no bypass rule exempts, and each is
-- rightful on the GPU that its process uses.
pub record IsSound (v : Surroundings) (r : Reader) (s : State) (facts : Known) (p : Pass)
    : Type 0 where
  pub orderly : IsOrderly (IsSpared v r s) p
  pub rightful : All (λ k. IsRightful v s facts k.view.process.gpu k.view.info) p.pending

process-IsSound :
    (v : Surroundings) (r : Reader) (s : State) (facts : Known) (w : ProcessView) (stale : Stale)
    (e : Eviction)
    → Spares (IsSpared v r s) w
    → is_targeted w.process.pid e.pass.targeted ≡ false
    → IsRightful v s facts w.process.gpu w.info
    → IsSound v r s facts e.pass
    → IsSound v r s facts (evict_process v s w stale e).pass
unfolding evict_process
process-IsSound v r s facts w stale e exempt fresh right h =
    on_if {A = Eviction} (λ o. IsSound v r s facts o.pass) w.bypassed _ _ (λ _. h)
      λ spared. record {
        orderly = plan_kill-IsOrderly v.means w _ v.now e.pass (exempt spared) fresh h.orderly;
        rightful =
            plan_kill-All (λ k. IsRightful v s facts k.view.process.gpu k.view.info) v.means w _
              v.now _ right h.rightful;
      }

judge-IsSound :
    (v : Surroundings) (r : Reader) (s : State) (facts : Known) (w : ProcessView)
    (found : Result Fault (Option Stale)) (e : Eviction)
    → Spares (IsSpared v r s) w
    → is_targeted w.process.pid e.pass.targeted ≡ false
    → ((stale : Stale)
        → found ≡ ok (some stale)
        → is_none_stale stale ≡ false
        → IsRightful v s facts w.process.gpu w.info)
    → IsSound v r s facts e.pass
    → IsSound v r s facts (judge_stale v s w found e).pass
unfolding judge_stale note_fault
judge-IsSound v r s facts w (err f) e exempt fresh right h = h
judge-IsSound v r s facts w (ok none) e exempt fresh right h = h
judge-IsSound v r s facts w (ok (some stale)) e exempt fresh right h =
    on_if {A = Eviction} (λ o. IsSound v r s facts o.pass) (is_none_stale stale) e _ (λ _. h)
      λ hit. process-IsSound v r s facts w stale e exempt fresh (right stale refl hit) h

sample-IsSound :
    (v : Surroundings) (r : Reader) (s : State) (facts : Known) (f : Fault) (g : GpuProcess)
    (x : Sample) (e : Eviction)
    → r.info g.pid ≡ x
    → is_targeted g.pid e.pass.targeted ≡ false
    → IsSound v r s facts e.pass
    → IsSound v r s facts (evict_sample v r s facts f g x e).pass
unfolding evict_sample note_fault
sample-IsSound v r s facts f g (known info) e same fresh h =
    judge-IsSound v r s facts (see v r s g info) (find_stale v s facts g.gpu info) e
      (λ spared. (same, spared)) fresh (λ stale. found-IsRightful v s facts g.gpu info stale) h
sample-IsSound v r s facts f g gone e same fresh h = h
sample-IsSound v r s facts f g unreadable e same fresh h = h

all-IsSound :
    (v : Surroundings) (r : Reader) (s : State) (facts : Known) (f : Fault) (gs : List GpuProcess)
    (e : Eviction)
    → IsSound v r s facts e.pass
    → IsSound v r s facts (evict_all v r s facts f gs e).pass
unfolding evict_all note_fault
all-IsSound v r s facts f [] e h = h
all-IsSound v r s facts f (g ∷ gs) e h =
    let P = λ (o : Eviction). IsSound v r s facts o.pass in
    on_if P (v.done_at g) _ _ (λ _. h)
      λ _. all-IsSound v r s facts f gs _ (
        on_if P (not (exceeds g.pid 0) || is_targeted g.pid e.pass.targeted) e _ (λ _. h)
          λ free. sample-IsSound v r s facts f g (r.info g.pid) e refl (ground (arith, free)) h)

start-IsSound :
    (v : Surroundings) (r : Reader) (s : State) (facts : Known) → IsSound v r s facts start
start-IsSound v r s facts = record { orderly = start-IsOrderly (IsSpared v r s); rightful = tt }

-- Whatever the sample and the faults on the way: the eviction plans at most eight terminations, each
-- of another process id, only of processes that are as /proc showed them and that no bypass rule of
-- the state exempts, and only of processes that are in the scope of an authorization or lease that has
-- gone stale on the GPU and of none that entitles to it.
pub evict_expired_reserved_processes-IsSound :
    (v : Surroundings) (r : Reader) (s : State) (f : Fault) (gs : List GpuProcess)
    → IsSound v r s
        (know_reservations v.platform s v.now)
        (evict_expired_reserved_processes v r s f gs).pass
unfolding evict_expired_reserved_processes
evict_expired_reserved_processes-IsSound v r s f gs =
    let facts = know_reservations v.platform s v.now in
    let P = λ (o : Eviction). IsSound v r s facts o.pass in
    let begun = start-IsSound v r s facts in
    on_if P (not r.has_proc) _ _ (λ _. begun)
      λ _.
        on_if P (not (stale_eviction_possible v.platform s facts v.now)) _ _ (λ _. begun)
          λ _. all-IsSound v r s facts f gs _ begun
