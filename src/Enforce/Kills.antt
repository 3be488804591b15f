-- ===== src/Enforce/Kills.antt =====
-- internal/enforce/enforce.go: the decisions of a pass, and the planning of terminations (kill,
-- killOnce) with their budget. The audit events, which go to a callback, are left out. Enforce plans
-- terminations unless it is a dry run, and a dry run performs none, so that `kill` does not fail.
pub mod Orderly
use gpuardian.Base.{
  ℕ, String, ℤ, Bool, true, false, not, ◌&&◌, Option, none, some, List, [], ◌∷◌, ◌++◌, any, length,
  ◌==◌, nat_eq, int_eq, leb, if◌then◌else◌,
}
use gpuardian.Model.{SoftClaim}
use gpuardian.Model.Processes.{GpuProcess, ProcInfo}

pub record ProcessView : Type 0 where
  pub process : GpuProcess
  pub info : ProcInfo
  pub bypassed : Bool

-- The text that a decision gives for its action; `unauthorized` and `entitlement_over` stand for the
-- two formatted messages.
pub data Reason : Type 0 where
  no_usage stale_pid no_info bypass authorization lease claimed : Reason
  authorization_unresolved lease_unresolved claim_gone no_claim no_process : Reason
  unauthorized entitlement_over budget_exhausted already_targeted : Reason

pub data Action : Type 0 where
  -- A process is left alone, is passed over, or is to be terminated.
  allow skip kill : ProcessView → Reason → Action
  -- A sampled process that was not looked at further.
  pass_over : GpuProcess → Reason → Action
  claim : SoftClaim → Action
  release_claim : Reason → Action

pub record Decision : Type 0 where
  pub action : Action
  pub lease_id : String
  pub auth_id : String
  pub claim_id : String
  pub holder : String
  pub token_hash : String

-- A decision about a process that no row stands behind.
abbrev pub bare_decision : Action → Decision
bare_decision action = record {
  action = action;
  lease_id = "";
  auth_id = "";
  claim_id = "";
  holder = "";
  token_hash = "";
}

-- On whose behalf a process is terminated.
pub record Blame : Type 0 where
  pub reason : Reason
  pub lease_id : String
  pub auth_id : String
  pub holder : String
  pub token_hash : String

pub record PendingKill : Type 0 where
  pub view : ProcessView
  pub blame : Blame
  pub now : ℕ

-- What a pass has decided, planned and targeted so far.
pub record Pass : Type 0 where
  pub decisions : List Decision
  pub pending : List PendingKill
  pub targeted : List ℤ

-- How a pass terminates: whether it is a dry run, and, where a staged killer and Terminations are
-- set, the process ids and start times that await their end.
pub record Means : Type 0 where
  pub dry_run : Bool
  pub terminations : Option (List (ℤ × ℕ))

abbrev pub max_kills_per_enforcement_pass : ℕ
max_kills_per_enforcement_pass = 8

-- stagedKiller and Terminations.awaiting
unfoldable pub awaiting : Means → ℤ → ℕ → Bool
awaiting means pid start_time = not means.dry_run && elim means.terminations [
  | none ↦ false
  | some keys ↦ any (λ k. (k.0 == pid) && k.1 == start_time) keys
]

unfoldable pub decide : Decision → Pass → Pass
decide d p = record p { decisions = p.decisions ++ d ∷ [] }

abbrev pub kill_decision : ProcessView → Blame → Decision
kill_decision view b = record {
  action = kill view b.reason;
  lease_id = b.lease_id;
  auth_id = b.auth_id;
  claim_id = "";
  holder = b.holder;
  token_hash = b.token_hash;
}

-- The same decision, not carried out.
abbrev pub postpone : ProcessView → Blame → Decision
postpone view b = record (kill_decision view b) { action = skip view budget_exhausted }

unfoldable pub plan_kill : Means → ProcessView → Blame → ℕ → Pass → Pass
unfolding decide
plan_kill means view b now p =
    if awaiting means view.process.pid view.info.start_time
    then decide (kill_decision view b) p
    else if not means.dry_run && leb max_kills_per_enforcement_pass (length p.pending)
    then decide (postpone view b) p
    else if means.dry_run
    then decide (kill_decision view b) p
    else decide (kill_decision view b)
        (record p { pending = p.pending ++ record { view = view; blame = b; now = now } ∷ [] })

abbrev pub is_targeted : ℤ → List ℤ → Bool
is_targeted pid = any (λ q. q == pid)

unfoldable pub kill_once : Means → ProcessView → Blame → ℕ → Pass → Pass
kill_once means view b now p =
    if is_targeted view.process.pid p.targeted
    then decide (bare_decision (skip view already_targeted)) p
    else plan_kill means view b now (record p { targeted = view.process.pid ∷ p.targeted })
