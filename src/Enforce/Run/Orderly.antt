-- ===== src/Enforce/Run/Orderly.antt =====
-- Over a whole enforcement pass of internal/enforce/enforce.go the planned terminations stay orderly.
use gpuardian.Base.{
  All, All-append, All-keep_if, ◌≡◌, refl, ℤ, Bool, true, false, not, List, [], ◌∷◌, Result, ok,
  err, string_eq, on_if, arith,
}
use gpuardian.Model.{SoftClaim, State}
use gpuardian.Model.Processes.{GpuProcess}
use gpuardian.Enforce.Scope.{Fault, bypass_match}
use gpuardian.Enforce.Kills.{
  ProcessView, Pass, decide, bare_decision, allow, bypass, pass_over, no_usage, stale_pid,
}
use gpuardian.Enforce.Kills.Orderly.{IsOrderly, Spares, decide-IsOrderly}
use gpuardian.Enforce.Decide.{
  Surroundings, Outcome, enforce_hard, enforce_legacy_leases, active_reservations_for_gpu,
  active_leases_for_gpu,
}
use gpuardian.Enforce.Soft.{enforce_soft}
use gpuardian.Enforce.Run.{
  Reader, Sample, known, gone, unreadable, Inspected, inspect_sample, inspect, inspect_all,
  enforce_gpu, enforce_gpus, release_if_gone, release_claims, finish_pass, enforce_inspected,
  enforce, start, views_of, Ended, see, uses_gpu_resources,
}
use gpuardian.Enforce.Decide.Orderly.{
  each_view-IsOrderly, hard_view-IsOrderly, leased_view-IsOrderly,
}
use gpuardian.Enforce.Soft.Orderly.{soft-IsOrderly}

-- What /proc shows for the process of a view, and the bypass rules do not exempt it.
abbrev pub IsSpared : Surroundings → Reader → State → ProcessView → Type 0
IsSpared v r s w =
    (r.info w.process.pid ≡ known w.info) × (bypass_match s.bypasses w.info v.now r.boot_id ≡ false)

pub start-IsOrderly : (Q : ProcessView → Type 0) → IsOrderly Q start
start-IsOrderly Q = record { budget = omega arith; distinct = tt; targeted = tt; spared = tt }

module _ {Q : ProcessView → Type 0} where
  gpu-IsOrderly :
      (v : Surroundings) (s : State) (gpu : ℤ) (ws : List ProcessView) (p : Pass)
      → All (Spares Q) ws
      → IsOrderly Q p
      → IsOrderly Q (enforce_gpu v s gpu ws p).0
  unfolding enforce_gpu enforce_hard enforce_legacy_leases
  gpu-IsOrderly v s gpu ws p k h =
      elim (active_reservations_for_gpu s.reservations gpu v.now)
        as (λ rs.
          IsOrderly Q
            (elim rs as (λ _. Outcome) [
              | r ∷ more ↦ enforce_hard s (r ∷ more) v ws p
              | [] ↦ elim (active_leases_for_gpu s.leases gpu v.now) as (λ _. Outcome) [
                | l ∷ ls ↦ enforce_legacy_leases (l ∷ ls) v ws p
                | [] ↦ enforce_soft v s gpu ws p
              ]
            ]).0) [
              | r ∷ more ↦ each_view-IsOrderly _ v (hard_view-IsOrderly s (r ∷ more) v) ws p k h
              | [] ↦
                  elim (active_leases_for_gpu s.leases gpu v.now)
                    as (λ ls.
                      IsOrderly Q
                        (elim ls as (λ _. Outcome) [
                          | l ∷ more ↦ enforce_legacy_leases (l ∷ more) v ws p
                          | [] ↦ enforce_soft v s gpu ws p
                        ]).0) [
                          | l ∷ more ↦
                              each_view-IsOrderly _ v (leased_view-IsOrderly (l ∷ more) v) ws p k h
                          | [] ↦ soft-IsOrderly v s gpu ws p k h
                        ]
            ]

  gpus-IsOrderly :
      (v : Surroundings) (s : State) (ws : List ProcessView) (gpus : List ℤ) (p : Pass)
      (fs : List Fault)
      → All (Spares Q) ws
      → IsOrderly Q p
      → IsOrderly Q (enforce_gpus v s ws gpus p fs).0.0
  unfolding enforce_gpus
  gpus-IsOrderly v s ws [] p fs k h = h
  gpus-IsOrderly v s ws (gpu ∷ gpus) p fs k h =
      on_if {A = Ended} (λ o. IsOrderly Q o.0.0) (v.done_gpu gpu) _ _ (λ _. h)
        λ _.
          gpus-IsOrderly v s ws gpus _ _ k
            (gpu-IsOrderly v s gpu (views_of gpu ws) p (All-keep_if (Spares Q) _ ws k) h)

  if_gone-IsOrderly :
      (c : SoftClaim) (r : Result (List Fault) Bool) (o : Outcome)
      → IsOrderly Q o.0
      → IsOrderly Q (release_if_gone c r o).0
  unfolding release_if_gone
  if_gone-IsOrderly c (err fs) o h = h
  if_gone-IsOrderly c (ok true) o h = h
  if_gone-IsOrderly c (ok false) o h = decide-IsOrderly _ o.0 h

  claims-IsOrderly :
      (v : Surroundings) (s : State) (ws : List ProcessView) (cs : List SoftClaim) (o : Outcome)
      → IsOrderly Q o.0
      → IsOrderly Q (release_claims v s ws cs o).0
  unfolding release_claims
  claims-IsOrderly v s ws [] o h = h
  claims-IsOrderly v s ws (c ∷ cs) o h =
      on_if {A = Outcome} (λ r. IsOrderly Q r.0) (v.done_claim c) _ _ (λ _. h)
        λ _. claims-IsOrderly v s ws cs _ (if_gone-IsOrderly c _ o h)

  sample-IsOrderly :
      (v : Surroundings) (r : Reader) (s : State) (g : GpuProcess) (x : Sample) (acc : Inspected)
      → IsOrderly Q acc.1
      → IsOrderly Q (inspect_sample v r s g x acc).1
  unfolding inspect_sample
  sample-IsOrderly v r s g (known info) acc h =
      let w = see v r s g info in
      let allowed = bare_decision (allow w bypass) in
      on_if (IsOrderly Q) w.bypassed (decide allowed acc.1) acc.1
        (λ _. decide-IsOrderly allowed acc.1 h) (λ _. h)
  sample-IsOrderly v r s g gone acc h = decide-IsOrderly _ acc.1 h
  sample-IsOrderly v r s g unreadable acc h = decide-IsOrderly _ acc.1 h

  inspect-IsOrderly :
      (v : Surroundings) (r : Reader) (s : State) (g : GpuProcess) (acc : Inspected)
      → IsOrderly Q acc.1
      → IsOrderly Q (inspect v r s g acc).1
  unfolding inspect
  inspect-IsOrderly v r s g acc h =
      let idle = bare_decision (pass_over g no_usage) in
      let stale = bare_decision (pass_over g stale_pid) in
      on_if {A = Inspected} (λ o. IsOrderly Q o.1) (not (uses_gpu_resources g))
        (acc.0, decide idle acc.1) _ (λ _. decide-IsOrderly idle acc.1 h)
        λ _.
          on_if {A = Inspected} (λ o. IsOrderly Q o.1) (not r.has_proc) (acc.0, decide stale acc.1)
            _ (λ _. decide-IsOrderly stale acc.1 h)
            λ _. sample-IsOrderly v r s g (r.info g.pid) acc h

  inspect_all-IsOrderly :
      (v : Surroundings) (r : Reader) (s : State) (gs : List GpuProcess) (acc : Inspected)
      → IsOrderly Q acc.1
      → IsOrderly Q (inspect_all v r s gs acc).0.1
  unfolding inspect_all
  inspect_all-IsOrderly v r s [] acc h = h
  inspect_all-IsOrderly v r s (g ∷ gs) acc h =
      on_if {A = Inspected × Bool} (λ o. IsOrderly Q o.0.1) (v.done_at g) _ _ (λ _. h)
        λ _. inspect_all-IsOrderly v r s gs _ (inspect-IsOrderly v r s g acc h)

  finish-IsOrderly :
      (v : Surroundings) (s : State) (ws : List ProcessView) (e : Ended)
      → IsOrderly Q e.0.0
      → IsOrderly Q (finish_pass v s ws e).0
  unfolding finish_pass
  finish-IsOrderly v s ws (o, true) h = claims-IsOrderly v s ws s.soft_claims o h
  finish-IsOrderly v s ws (o, false) h = h

  inspected-IsOrderly :
      (v : Surroundings) (s : State) (order : List ℤ) (i : Inspected × Bool)
      → All (Spares Q) i.0.0
      → IsOrderly Q i.0.1
      → IsOrderly Q (enforce_inspected v s order i).0
  unfolding enforce_inspected
  inspected-IsOrderly v s order ((ws, p), true) k h =
      finish-IsOrderly v s ws _ (gpus-IsOrderly v s ws order p [] k h)
  inspected-IsOrderly v s order ((ws, p), false) k h = h

module _ (v : Surroundings) (r : Reader) (s : State) where
  sample-Spares :
      (g : GpuProcess) (x : Sample) (acc : Inspected)
      → r.info g.pid ≡ x
      → All (Spares (IsSpared v r s)) acc.0
      → All (Spares (IsSpared v r s)) (inspect_sample v r s g x acc).0
  unfolding inspect_sample
  sample-Spares g (known info) acc same h =
      All-append (Spares (IsSpared v r s)) acc.0 (see v r s g info ∷ []) h (λ e. (same, e), tt)
  sample-Spares g gone acc same h = h
  sample-Spares g unreadable acc same h = h

  inspect-Spares :
      (g : GpuProcess) (acc : Inspected)
      → All (Spares (IsSpared v r s)) acc.0
      → All (Spares (IsSpared v r s)) (inspect v r s g acc).0
  unfolding inspect
  inspect-Spares g acc h =
      let P = λ (o : Inspected). All (Spares (IsSpared v r s)) o.0 in
      on_if P (not (uses_gpu_resources g)) _ _ (λ _. h)
        λ _. on_if P (not r.has_proc) _ _ (λ _. h) λ _. sample-Spares g (r.info g.pid) acc refl h

  inspect_all-Spares :
      (gs : List GpuProcess) (acc : Inspected)
      → All (Spares (IsSpared v r s)) acc.0
      → All (Spares (IsSpared v r s)) (inspect_all v r s gs acc).0.0
  unfolding inspect_all
  inspect_all-Spares [] acc h = h
  inspect_all-Spares (g ∷ gs) acc h =
      on_if {A = Inspected × Bool} (λ o. All (Spares (IsSpared v r s)) o.0.0) (v.done_at g) _ _
        (λ _. h) λ _. inspect_all-Spares gs _ (inspect-Spares g acc h)

-- Whatever the sample, the state, the order of the GPUs and the faults on the way: an enforcement
-- pass plans at most eight terminations, each of another process id, and each of a process that is as
-- /proc showed it and that no bypass rule of the state exempts.
pub enforce-IsOrderly :
    (v : Surroundings) (r : Reader) (s : State) (order : List ℤ) (gs : List GpuProcess)
    → IsOrderly (IsSpared v r s) (enforce v r s order gs).0
unfolding enforce
enforce-IsOrderly v r s order gs =
    inspected-IsOrderly v s order _ (inspect_all-Spares v r s gs ([], start) tt)
      (inspect_all-IsOrderly v r s gs ([], start) (start-IsOrderly (IsSpared v r s)))
