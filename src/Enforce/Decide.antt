-- ===== src/Enforce/Decide.antt =====
-- internal/enforce/enforce.go: the decisions about the processes of one GPU, where it is reserved,
-- leased or neither.
pub mod Orderly
pub mod Intruders
pub mod Caught
use Prim.Native.String.{◌++◌ as text_append}
use gpuardian.Base.{
  ℕ, String, ℤ, Bool, true, false, not, ◌&&◌, ◌||◌, Option, none, some, List, [], ◌∷◌, ◌++◌, any,
  keep_if, find, map, ◌==◌, nat_eq, string_eq, int_eq, ltb, if◌then◌else◌, is_empty, trim_space,
  Result, ok, err, ◌>>=◌,
}
use gpuardian.Model.{
  Token, Reservation, Authorization, SoftClaim, Lease, State, reservation_active_at, mode_bare,
  mode_docker, mode_k8s, token_mode_claimed, token_mode_managed,
}
use gpuardian.Model.Processes.{GpuProcess, ProcInfo}
use gpuardian.Store.Persist.{Platform}
use gpuardian.Store.Validity.{token_expired, authorization_expired, normalize_token_mode}
use gpuardian.Enforce.Scope.{
  Fault, cancelled, Resolver, authorization_scope_matches, lease_scope_matches,
  soft_claim_runtime_matches, bare_cgroup_matches, normalize_cgroup_path,
  normalize_cgroup_mount_path,
}
use gpuardian.Enforce.Entitlement.{token_by_hash, token_backs}
use gpuardian.Enforce.Kills.{
  ProcessView, Reason, Decision, Action, allow, skip, claim, bare_decision, Blame, Pass, Means,
  decide, kill_once, authorization, lease, claimed, authorization_unresolved, lease_unresolved,
  claim_gone, no_claim, unauthorized,
}

-- What one pass works with. The context may be found done before a process of the sample is inspected,
-- before one that was inspected is looked at, or before an authorization or a lease is compared with
-- a process.
pub record Surroundings : Type 0 where
  pub platform : Platform
  pub resolver : Resolver
  pub means : Means
  pub now : ℕ
  pub done_at : GpuProcess → Bool
  pub done_view : GpuProcess → Bool
  pub done_matching : ProcInfo → String → Bool
  -- Or before a GPU, or at the end of the pass a claim, is looked at.
  pub done_gpu : ℤ → Bool
  pub done_claim : SoftClaim → Bool

-- The first match, or the faults met on the way where there is none.
abbrev pub Matched : Type 0 → Type 0
Matched A = Result (List Fault) (Option A)

unfoldable pub after_fault : {A : Type 0} → Fault → Matched A → Matched A
after_fault f (ok (some a)) = ok (some a)
after_fault f (ok none) = err (f ∷ [])
after_fault f (err fs) = err (f ∷ fs)

-- tokenFilter, a nil map letting every hash pass.
abbrev pub passes : Option (List String) → String → Bool
passes none hash = true
passes (some hashes) hash = any (λ h. h == hash) hashes

unfoldable pub mode_fits : String → String → Bool
mode_fits wanted mode =
    is_empty wanted
    || mode == wanted
    || (wanted == token_mode_claimed) && mode == token_mode_managed

abbrev pub mode_of : Platform → Option Token → String
mode_of u none = ""
mode_of u (some t) = normalize_token_mode u t.mode

-- The tests before the scope of an authorization is compared.
unfoldable pub is_candidate :
    Surroundings → List Token → Option (List String) → String → Authorization → Bool
is_candidate v tokens filter wanted a =
    let token = token_by_hash a.token_hash tokens in
    a.active
    && not a.revoked
    && not (authorization_expired a v.now)
    && passes filter a.token_hash
    && token_backs a v.now token
    && mode_fits wanted (mode_of v.platform token)

abbrev pub with_mode : Platform → Option Token → Authorization → Authorization
with_mode u token a = record a { token_mode = mode_of u token }

-- The outcome for one authorization, before the ones behind it.
unfoldable pub or_next : {A : Type 0} → Result Fault Bool → A → Matched A → Matched A
or_next (err f) a rest = after_fault f rest
or_next (ok true) a rest = ok (some a)
or_next (ok false) a rest = rest

unfoldable pub match_any_authorization :
    Surroundings
    → List Token
    → Option (List String)
    → String
    → ProcInfo
    → List Authorization
    → Matched Authorization
match_any_authorization v tokens filter wanted info [] = ok none
match_any_authorization v tokens filter wanted info (a ∷ rows) =
    let rest = match_any_authorization v tokens filter wanted info rows in
    if v.done_matching info a.id
    then err (cancelled ∷ [])
    else if not (is_candidate v tokens filter wanted a)
    then rest
    else or_next (authorization_scope_matches v.platform v.resolver a info)
        (with_mode v.platform (token_by_hash a.token_hash tokens) a) rest

unfoldable pub matches_any_lease : Surroundings → ProcInfo → List Lease → Matched String
matches_any_lease v info [] = ok none
matches_any_lease v info (l ∷ ls) =
    let rest = matches_any_lease v info ls in
    if v.done_matching info l.id
    then err (cancelled ∷ [])
    else if not l.active || not (ltb v.now l.expires_at)
    then rest
    else or_next (lease_scope_matches v.platform v.resolver l info) l.id rest

-- A pass over some processes, and the faults that it reports.
abbrev pub Outcome : Type 0
Outcome = Pass × List Fault

-- `for _, view := range views`, which a context that is done ends.
unfoldable pub each_view :
    (Surroundings → ProcessView → Pass → Outcome) → Surroundings → List ProcessView → Pass → Outcome
each_view judge v [] p = (p, [])
each_view judge v (w ∷ ws) p =
    let (first, faults) = judge v w p in
    let (last, more) = each_view judge v ws first in
    if v.done_view w.process then (p, cancelled ∷ []) else (last, faults ++ more)

abbrev pub active_reservations_for_gpu : List Reservation → ℤ → ℕ → List Reservation
active_reservations_for_gpu rs gpu now =
    keep_if (λ r. (r.gpu == gpu) && reservation_active_at r now) rs

abbrev pub active_leases_for_gpu : List Lease → ℤ → ℕ → List Lease
active_leases_for_gpu ls gpu now =
    keep_if (λ l. (l.gpu == gpu) && l.active && ltb now l.expires_at) ls

-- A row in the text of the holders: "ada (reservation=res_1)".
abbrev pub holder_text : String → String → String → String
holder_text kind holder id =
    let name = if is_empty (trim_space holder) then "unknown" else trim_space holder in
    if is_empty id then name else text_append name (text_append (text_append kind id) ")")

abbrev pub join_holders : List String → String
join_holders [] = "unknown"
join_holders (h ∷ []) = h
join_holders (h ∷ k ∷ hs) = text_append h (text_append ", " (join_holders (k ∷ hs)))

unfoldable pub reservation_holder : List Reservation → String
reservation_holder rs = join_holders (map (λ r. holder_text " (reservation=" r.holder r.id) rs)

unfoldable pub lease_holder : List Lease → String
lease_holder ls = join_holders (map (λ l. holder_text " (lease=" l.holder l.id) ls)

abbrev pub blame_reservations : List Reservation → Blame
blame_reservations rs = record {
  reason = unauthorized;
  lease_id = elim rs [ [] ↦ "" | r ∷ more ↦ r.id ];
  auth_id = "";
  holder = reservation_holder rs;
  token_hash = elim rs [ [] ↦ "" | r ∷ more ↦ r.token_hash ];
}

abbrev pub allow_authorized : ProcessView → Reason → String → Authorization → Decision
allow_authorized w reason claim_id a = record {
  action = allow w reason;
  lease_id = "";
  auth_id = a.id;
  claim_id = claim_id;
  holder = a.holder;
  token_hash = a.token_hash;
}

abbrev pub map_hash : List Reservation → List String
map_hash = map (λ r. r.token_hash)

-- A process on a reserved GPU, by what its authorization was found to be.
unfoldable pub judge_hard :
    Surroundings → List Reservation → ProcessView → Matched Authorization → Pass → Outcome
judge_hard v reservations w (err faults) p =
    (decide (bare_decision (skip w authorization_unresolved)) p, faults)
judge_hard v reservations w (ok (some a)) p = (decide (allow_authorized w authorization "" a) p, [])
judge_hard v reservations w (ok none) p =
    (kill_once v.means w (blame_reservations reservations) v.now p, [])

unfoldable pub enforce_hard_view :
    State → List Reservation → Surroundings → ProcessView → Pass → Outcome
enforce_hard_view s reservations v w p =
    let hashes = some (map_hash reservations) in
    let found = match_any_authorization v s.tokens hashes "" w.info s.authorizations in
    if w.bypassed then (p, []) else judge_hard v reservations w found p

unfoldable pub enforce_hard :
    State → List Reservation → Surroundings → List ProcessView → Pass → Outcome
enforce_hard s reservations = each_view (enforce_hard_view s reservations)

abbrev pub blame_leases : List Lease → Blame
blame_leases ls = record {
  reason = unauthorized;
  lease_id = elim ls [ [] ↦ "" | l ∷ more ↦ l.id ];
  auth_id = "";
  holder = lease_holder ls;
  token_hash = "";
}

abbrev pub allow_leased : ProcessView → String → String → Decision
allow_leased w id holder = record {
  action = allow w lease;
  lease_id = id;
  auth_id = "";
  claim_id = "";
  holder = holder;
  token_hash = "";
}

-- A process on a leased GPU, by what its lease was found to be.
unfoldable pub judge_leased :
    Surroundings → List Lease → ProcessView → Matched String → Pass → Outcome
judge_leased v leases w (err faults) p =
    (decide (bare_decision (skip w lease_unresolved)) p, faults)
judge_leased v leases w (ok (some id)) p = (decide (allow_leased w id (lease_holder leases)) p, [])
judge_leased v leases w (ok none) p = (kill_once v.means w (blame_leases leases) v.now p, [])

unfoldable pub enforce_leased_view : List Lease → Surroundings → ProcessView → Pass → Outcome
enforce_leased_view leases v w p =
    if w.bypassed then (p, []) else judge_leased v leases w (matches_any_lease v w.info leases) p

unfoldable pub enforce_legacy_leases : List Lease → Surroundings → List ProcessView → Pass → Outcome
enforce_legacy_leases leases = each_view (enforce_leased_view leases)
