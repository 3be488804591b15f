-- ===== src/Enforce/Run.antt =====
-- internal/enforce/enforce.go: a whole enforcement pass over the sampled processes (enforce).
pub mod Orderly
use gpuardian.Base.{
  ℕ, String, ℤ, Bool, true, false, not, ◌&&◌, ◌||◌, List, [], ◌∷◌, ◌++◌, keep_if, ◌==◌, nat_eq,
  int_eq, ltb, if◌then◌else◌, Result, ok, err,
}
use gpuardian.Model.{SoftClaim, State}
use gpuardian.Model.Processes.{GpuProcess, ProcInfo}
use gpuardian.Enforce.Scope.{Fault, cancelled, bypass_match}
use gpuardian.Enforce.Kills.{
  ProcessView, Reason, Decision, Pass, decide, bare_decision, allow, pass_over, release_claim,
  bypass, no_usage, stale_pid, no_info, no_process,
}
use gpuardian.Enforce.Decide.{
  Surroundings, Outcome, active_reservations_for_gpu, active_leases_for_gpu, enforce_hard,
  enforce_legacy_leases,
}
use gpuardian.Enforce.Soft.{enforce_soft, claim_has_matching_process}

-- What /proc answers for a process id.
pub data Sample : Type 0 where
  known : ProcInfo → Sample
  gone unreadable : Sample

-- The reader of /proc, if there is one, and the boot id.
pub record Reader : Type 0 where
  pub has_proc : Bool
  pub info : ℤ → Sample
  pub exists : ℤ → Bool
  pub boot_id : String

abbrev pub uses_gpu_resources : GpuProcess → Bool
uses_gpu_resources g = g.mem_bytes_unknown || ltb 0 g.mem_bytes

-- The processes that are looked at further, and what was decided on the way.
abbrev pub Inspected : Type 0
Inspected = List ProcessView × Pass

abbrev pub see : Surroundings → Reader → State → GpuProcess → ProcInfo → ProcessView
see v r s g info = record {
  process = g;
  info = info;
  bypassed = bypass_match s.bypasses info v.now r.boot_id;
}

abbrev pub mark_bypass : ProcessView → Pass → Pass
mark_bypass w p = if w.bypassed then decide (bare_decision (allow w bypass)) p else p

unfoldable pub inspect_sample :
    Surroundings → Reader → State → GpuProcess → Sample → Inspected → Inspected
inspect_sample v r s g (known info) (views, p) =
    let w = see v r s g info in (views ++ w ∷ [], mark_bypass w p)
inspect_sample v r s g gone (views, p) = (views, decide (bare_decision (pass_over g stale_pid)) p)
inspect_sample v r s g unreadable (views, p) =
    (views, decide (bare_decision (pass_over g (if r.exists g.pid then no_info else stale_pid))) p)

unfoldable pub inspect : Surroundings → Reader → State → GpuProcess → Inspected → Inspected
inspect v r s g (views, p) =
    if not (uses_gpu_resources g)
    then (views, decide (bare_decision (pass_over g no_usage)) p)
    else if not r.has_proc
    then (views, decide (bare_decision (pass_over g stale_pid)) p)
    else inspect_sample v r s g (r.info g.pid) (views, p)

-- The loop over the sample; the context that is done ends the pass with the decisions so far.
unfoldable pub inspect_all :
    Surroundings → Reader → State → List GpuProcess → Inspected → Inspected × Bool
inspect_all v r s [] acc = (acc, true)
inspect_all v r s (g ∷ gs) acc =
    let rest = inspect_all v r s gs (inspect v r s g acc) in
    if v.done_at g then (acc, false) else rest

abbrev pub views_of : ℤ → List ProcessView → List ProcessView
views_of gpu = keep_if (λ w. w.process.gpu == gpu)

unfoldable pub enforce_gpu : Surroundings → State → ℤ → List ProcessView → Pass → Outcome
enforce_gpu v s gpu views p = elim (active_reservations_for_gpu s.reservations gpu v.now) [
  | r ∷ rs ↦ enforce_hard s (r ∷ rs) v views p
  | [] ↦ elim (active_leases_for_gpu s.leases gpu v.now) [
    | l ∷ ls ↦ enforce_legacy_leases (l ∷ ls) v views p
    | [] ↦ enforce_soft v s gpu views p
  ]
]

-- The loops that end the pass where the context is done hand on whether they came to their end.
abbrev pub Ended : Type 0
Ended = Outcome × Bool

-- The loop over the map byGPU, whose GPUs come in any order.
unfoldable pub enforce_gpus :
    Surroundings → State → List ProcessView → List ℤ → Pass → List Fault → Ended
enforce_gpus v s views [] p fs = ((p, fs), true)
enforce_gpus v s views (gpu ∷ gpus) p fs =
    let (q, more) = enforce_gpu v s gpu (views_of gpu views) p in
    let rest = enforce_gpus v s views gpus q (fs ++ more) in
    if v.done_gpu gpu then ((p, fs ++ cancelled ∷ []), false) else rest

abbrev pub releasing : SoftClaim → Decision
releasing c = record (bare_decision (release_claim no_process)) { claim_id = c.id }

unfoldable pub release_if_gone : SoftClaim → Result (List Fault) Bool → Outcome → Outcome
release_if_gone c (err more) (p, fs) = (p, fs ++ more)
release_if_gone c (ok true) (p, fs) = (p, fs)
release_if_gone c (ok false) (p, fs) = (decide (releasing c) p, fs)

unfoldable pub release_claims :
    Surroundings → State → List ProcessView → List SoftClaim → Outcome → Outcome
release_claims v s views [] o = o
release_claims v s views (c ∷ cs) o =
    let matching = claim_has_matching_process v s c (views_of c.gpu views) in
    let rest = release_claims v s views cs (release_if_gone c matching o) in
    if v.done_claim c then (o.0, o.1 ++ cancelled ∷ []) else rest

abbrev pub start : Pass
start = record { decisions = []; pending = []; targeted = [] }

unfoldable pub finish_pass : Surroundings → State → List ProcessView → Ended → Outcome
finish_pass v s views (o, true) = release_claims v s views s.soft_claims o
finish_pass v s views (o, false) = o

unfoldable pub enforce_inspected : Surroundings → State → List ℤ → Inspected × Bool → Outcome
enforce_inspected v s order ((views, p), true) =
    finish_pass v s views (enforce_gpus v s views order p [])
enforce_inspected v s order ((views, p), false) = (p, cancelled ∷ [])

-- `order` is the order in which the GPUs of the sample come.
unfoldable pub enforce : Surroundings → Reader → State → List ℤ → List GpuProcess → Outcome
enforce v r s order processes =
    enforce_inspected v s order (inspect_all v r s processes ([], start))
