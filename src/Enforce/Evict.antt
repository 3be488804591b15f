-- ===== src/Enforce/Evict.antt =====
-- internal/enforce/enforce.go: the eviction of processes whose entitlement has ended
-- (evictExpiredReservedProcesses). /proc answers the same for one process id during a pass, so that
-- the cache of its answers is left out.
pub mod Scan
pub mod Rightful
use gpuardian.Base.{
  ℕ, String, ℤ, Bool, true, false, not, ◌&&◌, ◌||◌, Option, none, some, List, [], ◌∷◌, ◌++◌, map,
  find, ◌==◌, string_eq, int_eq, if◌then◌else◌, is_empty, exceeds, Result, ok, err, ◌>>=◌,
}
use gpuardian.Model.{
  Authorization, Lease, Reservation, State, mode_bare, token_mode_claimed, token_mode_managed,
}
use gpuardian.Model.Processes.{GpuProcess, ProcInfo}
use gpuardian.Store.Persist.{Platform}
use gpuardian.Enforce.Scope.{
  Fault, cancelled, authorization_scope_matches, lease_scope_matches, bypass_match,
}
use gpuardian.Enforce.Entitlement.{
  Known, know_reservations, knows_hash, authorization_globally_valid, authorization_eviction_mode,
  authorization_eviction_state, lease_entitled_on_gpu, lease_eviction_state,
  stale_eviction_possible,
}
use gpuardian.Enforce.Kills.{ProcessView, Blame, Pass, plan_kill, is_targeted, entitlement_over}
use gpuardian.Enforce.Decide.{Surroundings}
use gpuardian.Enforce.Run.{Reader, Sample, known, gone, unreadable, start, see}

-- Whether the scope of a stale row is known to be quiet, by the id of the row.
abbrev pub Marks : Type 0
Marks = List (String × Bool)

unfoldable pub mark : String → Bool → Marks → Marks
mark id b [] = (id, b) ∷ []
mark id b (m ∷ ms) = let rest = mark id b ms in if m.0 == id then (id, b) ∷ ms else m ∷ rest

pub record EvictionAssessment : Type 0 where
  pub authorizations : Marks
  pub leases : Marks

abbrev pub unsure : Marks → Marks
unsure = map (λ m. (m.0, false))

unfoldable pub mark_eviction_assessment_uncertain : EvictionAssessment → EvictionAssessment
mark_eviction_assessment_uncertain a = record {
  authorizations = unsure a.authorizations;
  leases = unsure a.leases;
}

-- The rows that are assessed: stale scopes outside a cgroup.
unfoldable pub is_assessed : Platform → State → Known → ℕ → Authorization → Bool
is_assessed u s facts now a =
    let mode = authorization_eviction_mode u a s.tokens in
    not (
      (a.mode == mode_bare)
      || not (is_empty a.cgroup_path)
      || authorization_globally_valid a s.tokens now)
    && ((mode == token_mode_claimed)
        || mode == token_mode_managed
        || knows_hash a.token_hash facts.stale
        || knows_hash a.token_hash facts.valid)

unfoldable pub is_assessed_lease : State → ℕ → Lease → Bool
is_assessed_lease s now l = not (
    (l.mode == mode_bare)
    || not (is_empty l.cgroup_path)
    || lease_entitled_on_gpu l l.gpu s.tokens now)

unfoldable pub mark_quiet : {A : Type 0} → (A → Bool) → (A → String) → List A → Marks → Marks
mark_quiet test id_of [] ms = ms
mark_quiet test id_of (a ∷ rows) ms =
    mark_quiet test id_of rows (if test a then mark (id_of a) true ms else ms)

unfoldable pub assess : Platform → State → Known → ℕ → EvictionAssessment
assess u s facts now = record {
  authorizations = mark_quiet (is_assessed u s facts now) (λ a. a.id) s.authorizations [];
  leases = mark_quiet (is_assessed_lease s now) (λ l. l.id) s.leases [];
}

-- What the source asks of one kind of row: whether it entitles and whether it is stale, whether the
-- process is in its scope, and whether the context is done before it is looked at.
pub record Asked (A : Type 0) : Type 0 where
  pub standing : A → Bool × Bool
  pub scope : A → Result Fault Bool
  pub done : A → Bool

-- The loop over the rows: none where an entitling row matches, else the stale ones that match.
unfoldable pub scan : {A : Type 0} → Asked A → List A → Result Fault (Option (List A))
scan q [] = ok (some [])
scan q (a ∷ rows) =
    let rest = scan q rows in
    if q.done a
    then err cancelled
    else if not (q.standing a).0 && not (q.standing a).1
    then rest
    else q.scope a >>= λ matches.
        if not matches
        then rest
        else if (q.standing a).0
        then ok none
        else rest >>= λ found. ok (elim found [ none ↦ none | some stale ↦ some (a ∷ stale) ])

unfoldable pub ask_authorizations :
    Surroundings → State → Known → ℤ → ProcInfo → Asked Authorization
ask_authorizations v s facts gpu info = record {
  standing = λ a. authorization_eviction_state v.platform a gpu s.tokens facts v.now;
  scope = λ a. authorization_scope_matches v.platform v.resolver a info;
  done = λ a. v.done_matching info a.id;
}

unfoldable pub ask_leases : Surroundings → State → ℤ → ProcInfo → Asked Lease
ask_leases v s gpu info = record {
  standing = λ l. lease_eviction_state l gpu s.tokens v.now;
  scope = λ l. lease_scope_matches v.platform v.resolver l info;
  done = λ l. v.done_matching info l.id;
}

-- The stale rows whose scope a process is in, where none entitles it.
abbrev pub Stale : Type 0
Stale = List Authorization × List Lease

abbrev pub pair_stale : List Authorization → Option (List Lease) → Option Stale
pair_stale auths none = none
pair_stale auths (some leases) = some (auths, leases)

unfoldable pub stale_behind :
    Asked Lease → List Lease → Option (List Authorization) → Result Fault (Option Stale)
stale_behind q leases none = ok none
stale_behind q leases (some auths) = scan q leases >>= λ found. ok (pair_stale auths found)

unfoldable pub find_stale :
    Surroundings → State → Known → ℤ → ProcInfo → Result Fault (Option Stale)
find_stale v s facts gpu info =
    scan (ask_authorizations v s facts gpu info) s.authorizations
    >>= stale_behind (ask_leases v s gpu info) s.leases

-- The pass so far.
pub record Eviction : Type 0 where
  pub pass : Pass
  pub assessment : EvictionAssessment
  pub faults : List Fault

unfoldable pub note_fault : Fault → Eviction → Eviction
note_fault f e = record e {
  assessment = mark_eviction_assessment_uncertain e.assessment;
  faults = e.faults ++ f ∷ [];
}

-- reservationIDs[key]: the first id that is there.
abbrev pub reservation_id : List Reservation → ℤ → String → String
reservation_id rs gpu hash =
    elim (find
      (λ r.
        not (is_empty r.token_hash)
        && (r.gpu == gpu)
        && r.token_hash == hash
        && not (is_empty r.id))
      rs) [ none ↦ "" | some r ↦ r.id ]

abbrev pub blame_lease : List Lease → Blame
blame_lease [] = record {
  reason = entitlement_over;
  lease_id = "";
  auth_id = "";
  holder = "";
  token_hash = "";
}
blame_lease (l ∷ ls) = record {
  reason = entitlement_over;
  lease_id = l.id;
  auth_id = "";
  holder = l.holder;
  token_hash = l.token_hash;
}

unfoldable pub blame_stale : State → ℤ → Stale → Blame
blame_stale s gpu ([], leases) = blame_lease leases
blame_stale s gpu (a ∷ auths, leases) = if is_empty a.id then blame_lease leases else record {
  reason = entitlement_over;
  lease_id = reservation_id s.reservations gpu a.token_hash;
  auth_id = a.id;
  holder = a.holder;
  token_hash = a.token_hash;
}

abbrev pub not_quiet : {A : Type 0} → (A → String) → List A → Marks → Marks
not_quiet id_of [] ms = ms
not_quiet id_of (a ∷ rows) ms = not_quiet id_of rows (mark (id_of a) false ms)

abbrev pub is_none_stale : Stale → Bool
is_none_stale ([], []) = true
is_none_stale ([], l ∷ ls) = false
is_none_stale (a ∷ more, ls) = false

-- The process is terminated, and its stale rows are known not to be quiet.
unfoldable pub evict_process : Surroundings → State → ProcessView → Stale → Eviction → Eviction
evict_process v s w stale e =
    let marked = record e {
      assessment = record {
        authorizations = not_quiet (λ a. a.id) stale.0 e.assessment.authorizations;
        leases = not_quiet (λ l. l.id) stale.1 e.assessment.leases;
      };
    } in
    if w.bypassed then marked else record marked {
      pass =
          plan_kill v.means w (blame_stale s w.process.gpu stale) v.now
            (record e.pass { targeted = w.process.pid ∷ e.pass.targeted });
    }

unfoldable pub judge_stale :
    Surroundings → State → ProcessView → Result Fault (Option Stale) → Eviction → Eviction
judge_stale v s w (err f) e = note_fault f e
judge_stale v s w (ok none) e = e
judge_stale v s w (ok (some stale)) e =
    if is_none_stale stale then e else evict_process v s w stale e

-- A process that /proc does not show for another reason than that it is gone makes the pass unsure.
unfoldable pub evict_sample :
    Surroundings → Reader → State → Known → Fault → GpuProcess → Sample → Eviction → Eviction
evict_sample v r s facts f g (known info) e =
    let w = see v r s g info in judge_stale v s w (find_stale v s facts g.gpu info) e
evict_sample v r s facts f g gone e = e
evict_sample v r s facts f g unreadable e = note_fault f e

unfoldable pub evict_all :
    Surroundings → Reader → State → Known → Fault → List GpuProcess → Eviction → Eviction
evict_all v r s facts f [] e = e
evict_all v r s facts f (g ∷ gs) e =
    let skip_it = not (exceeds g.pid 0) || is_targeted g.pid e.pass.targeted in
    let next = if skip_it then e else evict_sample v r s facts f g (r.info g.pid) e in
    let rest = evict_all v r s facts f gs next in
    if v.done_at g then note_fault cancelled e else rest

-- evictExpiredReservedProcesses; `f` is the fault of an inspection that fails.
unfoldable pub evict_expired_reserved_processes :
    Surroundings → Reader → State → Fault → List GpuProcess → Eviction
evict_expired_reserved_processes v r s f processes =
    let facts = know_reservations v.platform s v.now in
    let assessment = assess v.platform s facts v.now in
    if not r.has_proc
    then record {
      pass = start;
      assessment = record { authorizations = []; leases = [] };
      faults = [];
    }
    else if not (stale_eviction_possible v.platform s facts v.now)
    then record { pass = start; assessment = assessment; faults = [] }
    else evict_all v r s facts f processes
        (record { pass = start; assessment = assessment; faults = [] })
