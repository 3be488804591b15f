-- ===== src/Enforce/Soft.antt =====
-- internal/enforce/enforce.go: the decisions about the processes of a GPU that is neither reserved
-- nor leased: who holds its claim, and who is terminated for it.
pub mod Orderly
use gpuardian.Base.{
  ℕ, String, ℤ, Bool, true, false, not, ◌&&◌, ◌||◌, Option, none, some, List, [], ◌∷◌, ◌++◌, any,
  keep_if, find, map, ◌==◌, nat_eq, string_eq, int_eq, ltb, if◌then◌else◌, is_empty, Result, ok,
  err, ◌>>=◌,
}
use gpuardian.Model.{
  Token, Authorization, SoftClaim, State, mode_bare, mode_docker, mode_k8s, token_mode_claimed,
  token_mode_managed,
}
use gpuardian.Model.Processes.{ProcInfo}
use gpuardian.Store.Persist.{Platform}
use gpuardian.Store.Validity.{token_expired, normalize_token_mode}
use gpuardian.Enforce.Scope.{
  Fault, cancelled, soft_claim_runtime_matches, bare_cgroup_matches, normalize_cgroup_path,
  normalize_cgroup_mount_path,
}
use gpuardian.Enforce.Kills.{
  ProcessView, Decision, skip, claim, bare_decision, Blame, Pass, decide, kill_once, claimed,
  claim_gone, no_claim, unauthorized,
}
use gpuardian.Enforce.Decide.{
  Surroundings, Matched, match_any_authorization, Outcome, allow_authorized,
}

-- activeTokenByHash: the first token with the hash that stands.
abbrev pub active_token_by_hash : String → ℕ → List Token → Option Token
active_token_by_hash hash now =
    find (λ t. (t.hash == hash) && not t.revoked && not (token_expired t now))

abbrev pub may_claim : Platform → Option Token → Bool
may_claim u none = false
may_claim u (some t) =
    (normalize_token_mode u t.mode == token_mode_claimed)
    || normalize_token_mode u t.mode == token_mode_managed

unfoldable pub active_soft_claims_for_gpu : Platform → State → ℤ → ℕ → List SoftClaim
active_soft_claims_for_gpu u s gpu now =
    keep_if (λ c. (c.gpu == gpu) && may_claim u (active_token_by_hash c.token_hash now s.tokens))
      s.soft_claims

-- A claimed authorization of the holder of the claim, for the process.
abbrev pub match_claimed : Surroundings → State → List String → ProcInfo → Matched Authorization
match_claimed v s hashes info =
    match_any_authorization v s.tokens (some hashes) token_mode_claimed info s.authorizations

unfoldable pub is_some {ℓ} : {A : Type ℓ} → Option A → Bool
is_some none = false
is_some (some a) = true

unfoldable pub claim_matches_view :
    Surroundings → State → SoftClaim → ProcessView → Result (List Fault) Bool
claim_matches_view v s c w =
    if v.done_view w.process
    then err (cancelled ∷ [])
    else if w.bypassed || not (soft_claim_runtime_matches v.platform c w.info)
    then ok false
    else match_claimed v s (c.token_hash ∷ []) w.info >>= λ found. ok (is_some found)

-- The first process for which it is so, or that cannot be judged, ends the loop.
unfoldable pub first_true :
    (ProcessView → Result (List Fault) Bool) → List ProcessView → Result (List Fault) Bool
first_true test [] = ok false
first_true test (w ∷ ws) = elim (test w) [
  | err fs ↦ err fs
  | ok b ↦ let rest = first_true test ws in if b then ok true else rest
]

unfoldable pub claim_has_matching_process :
    Surroundings → State → SoftClaim → List ProcessView → Result (List Fault) Bool
claim_has_matching_process v s c views =
    if is_empty c.token_hash then ok false else first_true (claim_matches_view v s c) views

unfoldable pub set_soft_claim_runtime_identity : Authorization → ProcInfo → SoftClaim → SoftClaim
set_soft_claim_runtime_identity a info c =
    let by_process = record c { runtime_pid = info.pid; runtime_start_time = info.start_time } in
    let relative = normalize_cgroup_path a.cgroup_rel in
    let target =
      if is_empty relative then normalize_cgroup_mount_path a.cgroup_path else relative in
    if (a.mode == mode_docker) || a.mode == mode_k8s
    then if is_empty info.container_id
      then by_process
      else record c { runtime_container_id = info.container_id }
    else if a.mode == mode_bare
    then if not (is_empty target) && bare_cgroup_matches info.cgroup target ""
      then record c { runtime_cgroup = target }
      else by_process
    else by_process

-- The loop over the processes that ends at a fault, with what was decided before it.
unfoldable pub until_fault :
    (ProcessView → Pass → Result (List Fault) Pass) → List ProcessView → Pass → Outcome
until_fault step [] p = (p, [])
until_fault step (w ∷ ws) p = elim (step w p) [ err fs ↦ (p, fs) | ok q ↦ until_fault step ws q ]

abbrev pub blame_claim : SoftClaim → Blame
blame_claim c = record {
  reason = unauthorized;
  lease_id = "";
  auth_id = c.authorization_id;
  holder = c.holder;
  token_hash = c.token_hash;
}

-- A process on a claimed GPU, by what its authorization was found to be.
unfoldable pub judge_claimed :
    Surroundings → SoftClaim → ProcessView → Pass → Option Authorization → Pass
judge_claimed v c w p (some a) = decide (allow_authorized w claimed c.id a) p
judge_claimed v c w p none = kill_once v.means w (blame_claim c) v.now p

unfoldable pub enforce_claimed_view :
    Surroundings → State → SoftClaim → ProcessView → Pass → Result (List Fault) Pass
enforce_claimed_view v s c w p =
    if v.done_view w.process
    then err (cancelled ∷ [])
    else if w.bypassed
    then ok p
    else match_claimed v s (c.token_hash ∷ []) w.info >>= λ found. ok (judge_claimed v c w p found)

-- Each process is passed over that is not bypassed.
unfoldable pub pass_over_views : List ProcessView → (ProcessView → Decision) → Pass → Pass
pass_over_views [] d p = p
pass_over_views (w ∷ ws) d p = pass_over_views ws d (if w.bypassed then p else decide (d w) p)

-- The processes with an authorization that may claim, and the ones without.
abbrev pub Sorted : Type 0
Sorted = List (ProcessView × Authorization) × List ProcessView

abbrev pub sort_in : ProcessView → Option Authorization → Sorted → Sorted
sort_in w (some a) (with, without) = ((w, a) ∷ with, without)
sort_in w none (with, without) = (with, w ∷ without)

unfoldable pub sort_views : Surroundings → State → List ProcessView → Result (List Fault) Sorted
sort_views v s [] = ok ([], [])
sort_views v s (w ∷ ws) =
    let rest = sort_views v s ws in
    let found =
      match_any_authorization v s.tokens none token_mode_claimed w.info s.authorizations in
    if v.done_view w.process
    then err (cancelled ∷ [])
    else if w.bypassed
    then rest
    else found >>= λ m. rest >>= λ sorted. ok (sort_in w m sorted)

abbrev pub new_claim : ℤ → ℕ → Authorization → ProcInfo → SoftClaim
new_claim gpu now a info = set_soft_claim_runtime_identity a info (record {
  id = "";
  gpu = gpu;
  token_hash = a.token_hash;
  authorization_id = a.id;
  holder = a.holder;
  runtime_container_id = "";
  runtime_cgroup = "";
  runtime_pid = ℤ.pos 0;
  runtime_start_time = 0;
  created_at = now;
  updated_at = now;
})

abbrev pub claim_decision : Authorization → SoftClaim → Decision
claim_decision a c = record {
  action = claim c;
  lease_id = "";
  auth_id = a.id;
  claim_id = "";
  holder = a.holder;
  token_hash = a.token_hash;
}

-- The authorized processes once a claim is made: the ones of its token are allowed.
unfoldable pub judge_authorized :
    Surroundings → Blame → List (ProcessView × Authorization) → Pass → Pass
judge_authorized v b [] p = p
judge_authorized v b ((w, a) ∷ ws) p = judge_authorized v b ws (
    if a.token_hash == b.token_hash
    then decide (allow_authorized w claimed "" a) p
    else kill_once v.means w b v.now p)

unfoldable pub kill_all : Surroundings → Blame → List ProcessView → Pass → Pass
kill_all v b [] p = p
kill_all v b (w ∷ ws) p = kill_all v b ws (kill_once v.means w b v.now p)

abbrev pub blame_authorization : Authorization → Blame
blame_authorization a = record {
  reason = unauthorized;
  lease_id = "";
  auth_id = a.id;
  holder = a.holder;
  token_hash = a.token_hash;
}

-- A GPU without a claim is claimed for the first authorized process.
unfoldable pub settle : Surroundings → ℤ → Sorted → Pass → Pass
settle v gpu ([], without) p = pass_over_views without (λ w. bare_decision (skip w no_claim)) p
settle v gpu ((w, a) ∷ with, without) p =
    let c = new_claim gpu v.now a w.info in
    let b = blame_authorization a in
    kill_all v b without (judge_authorized v b ((w, a) ∷ with) (decide (claim_decision a c) p))

unfoldable pub enforce_unclaimed : Surroundings → ℤ → Result (List Fault) Sorted → Pass → Outcome
enforce_unclaimed v gpu (err fs) p = (p, fs)
enforce_unclaimed v gpu (ok sorted) p = (settle v gpu sorted p, [])

-- A claim whose process is gone is kept from being inherited in this pass.
unfoldable pub enforce_claim :
    Surroundings → State → SoftClaim → List ProcessView → Result (List Fault) Bool → Pass → Outcome
enforce_claim v s c views (err fs) p = (p, fs)
enforce_claim v s c views (ok true) p = until_fault (enforce_claimed_view v s c) views p
enforce_claim v s c views (ok false) p =
    (pass_over_views views (λ w. bare_decision (skip w claim_gone)) p, [])

unfoldable pub enforce_soft : Surroundings → State → ℤ → List ProcessView → Pass → Outcome
enforce_soft v s gpu views p = elim (active_soft_claims_for_gpu v.platform s gpu v.now) [
  | [] ↦ enforce_unclaimed v gpu (sort_views v s views) p
  | c ∷ more ↦ enforce_claim v s c views (claim_has_matching_process v s c views) p
]
