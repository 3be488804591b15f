-- ===== src/Witness/Passes.antt =====
-- Enforcement and eviction passes over concrete processes.
use gpuardian.Base.{
  ℕ, ◌≡◌, refl, ℤ, true, false, List, [], ◌∷◌, none, All, map, if◌then◌else◌, ◌==◌, int_eq,
  trim_space, to_lower, ◌↔◌, split_at, after_start, after_first, has_suffix,
}
use gpuardian.Model.{
  State, empty_state, token_mode_reserved, reservation_active_at, reservation_starts_at,
}
use gpuardian.Model.Processes.{GpuProcess, ProcInfo}
use gpuardian.Store.Validity.{normalize_token_mode, time_is_set, authorization_expired}
use gpuardian.Enforce.Scope.{
  Resolver, missing, cancelled, authorization_scope_matches, user_matches, bypass_match,
  wildcard_match, match_parts, find_parts,
}
use gpuardian.Enforce.Scope.Spread.{IsSpread}
use gpuardian.Enforce.Scope.Wildcard.{wildcard_match-IsSpread}
use gpuardian.Enforce.Entitlement.{
  know_reservations, stale_eviction_possible, authorization_globally_valid,
  authorization_eviction_mode, token_by_hash, token_backs, may_be_stale,
}
use gpuardian.Enforce.Entitlement.Shortcut.{IsCurrent, stale_eviction_possible-IsCurrent}
use gpuardian.Enforce.Kills.{ProcessView, is_targeted, kill_once, plan_kill, decide, awaiting}
use gpuardian.Enforce.Kills.Orderly.{IsOrderly, pid_of}
use gpuardian.Enforce.Decide.{
  Surroundings, enforce_hard, each_view, enforce_hard_view, judge_hard, match_any_authorization,
  is_candidate, or_next, mode_fits,
}
use gpuardian.Enforce.Decide.Intruders.{IsIntruder, Adds, enforce_hard-Adds}
use gpuardian.Enforce.Decide.Caught.{IsResolvable, enforce_hard-is_targeted}
use gpuardian.Enforce.Run.{
  Reader, known, start, enforce, inspect_all, inspect, inspect_sample, enforce_inspected,
  enforce_gpus, enforce_gpu, finish_pass, release_claims,
}
use gpuardian.Enforce.Run.Orderly.{IsSpared, enforce-IsOrderly}
use gpuardian.Enforce.Evict.{evict_expired_reserved_processes}
use gpuardian.Enforce.Evict.Rightful.{IsSound, evict_expired_reserved_processes-IsSound}
use gpuardian.Witness.Samples.{braces}
use gpuardian.Witness.Calls.{booking, key, grant}

abbrev bare_node : Resolver
bare_node = record {
  has_runtime = false;
  docker_container_name = λ id. missing;
  namespace_for_container = λ id. missing;
  lookup_username = λ uid. none;
}

abbrev quiet_pass : ℕ → Surroundings
quiet_pass now = record {
  platform = braces;
  resolver = bare_node;
  means = record { dry_run = false; terminations = none };
  now = now;
  done_at = λ g. false;
  done_view = λ g. false;
  done_matching = λ info id. false;
  done_gpu = λ gpu. false;
  done_claim = λ c. false;
}

abbrev used_by : ℕ → GpuProcess
used_by pid = record {
  gpu = ℤ.pos 0;
  pid = ℤ.pos pid;
  name = "train";
  mem_bytes = 4096;
  mem_bytes_unknown = false;
}

abbrev run_by : ℕ → ℤ → ProcInfo
run_by uid pid = record {
  pid = pid;
  start_time = 77;
  uid = ℤ.pos uid;
  username = "ada";
  cmdline = [];
  command_path = "/usr/bin/train";
  cgroup = "";
  container_id = "";
  stderr_path = "";
}

-- The holder's process and another user's, on the GPU that is reserved from 10 to 20.
abbrev sample : List GpuProcess
sample = used_by 7 ∷ used_by 8 ∷ []

abbrev owner_of : ℤ → ℕ
owner_of pid = if pid == ℤ.pos 7 then 1000 else 2000

abbrev reader : Reader
reader = record {
  has_proc = true;
  info = λ pid. known (run_by (owner_of pid) pid);
  exists = λ pid. true;
  boot_id = "boot";
}

abbrev held : State
held = record empty_state {
  tokens = record key { mode = token_mode_reserved } ∷ [];
  reservations = booking ∷ [];
  authorizations = grant ∷ [];
}

enforce-IsOrderly_example :
    IsOrderly
      (IsSpared (quiet_pass 15) reader held)
      (enforce (quiet_pass 15) reader held (ℤ.pos 0 ∷ []) sample).0
enforce-IsOrderly_example = enforce-IsOrderly (quiet_pass 15) reader held (ℤ.pos 0 ∷ []) sample

abbrev view_of : ℕ → ℕ → ProcessView
view_of pid uid = record { process = used_by pid; info = run_by uid (ℤ.pos pid); bypassed = false }

abbrev views : List ProcessView
views = view_of 7 1000 ∷ view_of 8 2000 ∷ []

enforce_hard-Adds_example :
    Adds
      (λ k. IsIntruder (quiet_pass 15) held (booking ∷ []) k.view.info)
      start
      (enforce_hard held (booking ∷ []) (quiet_pass 15) views start).0
enforce_hard-Adds_example = enforce_hard-Adds held (booking ∷ []) (quiet_pass 15) views start

resolvable :
    (uid pid : ℕ) → IsResolvable (quiet_pass 15) held.authorizations (run_by uid (ℤ.pos pid))
unfolding authorization_scope_matches user_matches
resolvable uid pid = record { awake = λ id. refl; answered = ((_, refl), tt) }

enforce_hard-is_targeted_example :
    All
      (λ w.
        w.bypassed ≡ false
        → IsIntruder (quiet_pass 15) held (booking ∷ []) w.info
        → is_targeted w.process.pid
            (enforce_hard held (booking ∷ []) (quiet_pass 15) views start).0.targeted
          ≡ true)
      views
enforce_hard-is_targeted_example =
    enforce_hard-is_targeted held (booking ∷ []) (quiet_pass 15) views start (λ g. refl)
      (resolvable 1000 7, (resolvable 2000 8, tt))

-- The holder's process stays, and the other one is to be terminated.
intruder_is_planned :
    map pid_of (enforce (quiet_pass 15) reader held (ℤ.pos 0 ∷ []) sample).0.pending ≡ ℤ.pos 8 ∷ []
unfolding enforce inspect_all inspect inspect_sample bypass_match enforce_inspected enforce_gpus
    enforce_gpu enforce_hard each_view enforce_hard_view judge_hard kill_once plan_kill decide
    awaiting finish_pass release_claims match_any_authorization is_candidate or_next mode_fits
    token_by_hash token_backs authorization_expired authorization_scope_matches user_matches
    normalize_token_mode time_is_set reservation_active_at reservation_starts_at trim_space to_lower
intruder_is_planned = refl

-- At 25 the reservation is over, and its holder's process is stale.
evict_expired_reserved_processes-IsSound_example :
    IsSound
      (quiet_pass 25)
      reader
      held
      (know_reservations braces held 25)
      (evict_expired_reserved_processes (quiet_pass 25) reader held cancelled sample).pass
evict_expired_reserved_processes-IsSound_example =
    evict_expired_reserved_processes-IsSound (quiet_pass 25) reader held cancelled sample

abbrev free : State
free = record empty_state { tokens = key ∷ []; authorizations = grant ∷ [] }

nothing_stale : stale_eviction_possible braces free (know_reservations braces free 15) 15 ≡ false
unfolding stale_eviction_possible may_be_stale authorization_globally_valid
    authorization_eviction_mode token_by_hash token_backs know_reservations normalize_token_mode
    time_is_set authorization_expired trim_space to_lower
nothing_stale = refl

stale_eviction_possible-IsCurrent_example :
    IsCurrent braces free (know_reservations braces free 15) 15 (ℤ.pos 0)
stale_eviction_possible-IsCurrent_example =
    stale_eviction_possible-IsCurrent braces free (know_reservations braces free 15) 15
      nothing_stale (ℤ.pos 0)

wildcard_match-IsSpread_example :
    (wildcard_match " job-*-gpu* " "job-17-gpu0" ≡ true)
    ↔ IsSpread (split_at "*" (trim_space " job-*-gpu* ")) (trim_space "job-17-gpu0")
unfolding trim_space
wildcard_match-IsSpread_example = wildcard_match-IsSpread " job-*-gpu* " "job-17-gpu0" refl

matches_name : wildcard_match " job-*-gpu* " "job-17-gpu0" ≡ true
unfolding wildcard_match match_parts find_parts split_at after_start after_first has_suffix
    trim_space
matches_name = refl

-- The two stars may not share the text of one part.
misses_name : wildcard_match "*ab*ab" "xab" ≡ false
unfolding wildcard_match match_parts find_parts split_at after_start after_first has_suffix
    trim_space
misses_name = refl
