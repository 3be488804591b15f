-- ===== src/Enforce/Decide/Caught.antt =====
-- On a reserved GPU (internal/enforce/enforce.go, enforceHard): no intruder is missed.
use mathlib.Core.Bool.{true≢false}
use gpuardian.Base.{
  ℕ, ◌≡◌, refl, sym, ◌∙◌, String, ℤ, Bool, true, false, not, List, [], ◌∷◌, none, some, All, ok,
  err, int_eq, ==_refl, if◌then◌else◌, on_if, arith, ◌≢◌,
}
use gpuardian.Model.{Authorization, Reservation, State}
use gpuardian.Model.Processes.{GpuProcess, ProcInfo}
use gpuardian.Enforce.Scope.{Fault, Checked, authorization_scope_matches}
use gpuardian.Enforce.Entitlement.{authorization_globally_valid}
use gpuardian.Enforce.Kills.{
  ProcessView, Blame, Pass, Means, decide, plan_kill, kill_once, is_targeted,
}
use gpuardian.Enforce.Decide.{
  Surroundings, Matched, Outcome, is_candidate, or_next, match_any_authorization, map_hash,
  each_view, judge_hard, enforce_hard_view, enforce_hard,
}
use gpuardian.Enforce.Decide.Intruders.{Entitles, IsIntruder, passes-map_hash}

kill_once-targeted :
    (q : ℤ) (m : Means) (w : ProcessView) (b : Blame) (now : ℕ) (p : Pass)
    → is_targeted q p.targeted ≡ true
    → is_targeted q (kill_once m w b now p).targeted ≡ true
unfolding kill_once plan_kill decide
kill_once-targeted q m w b now p h = ground (arith, h)

kill_once_self :
    (m : Means) (w : ProcessView) (b : Blame) (now : ℕ) (p : Pass)
    → is_targeted w.process.pid (kill_once m w b now p).targeted ≡ true
unfolding kill_once plan_kill decide
kill_once_self m w b now p = let same = ==_refl w.process.pid in ground (arith, same)

judge_hard-targeted :
    (q : ℤ) (v : Surroundings) (rs : List Reservation) (w : ProcessView) (m : Matched Authorization)
    (p : Pass)
    → is_targeted q p.targeted ≡ true
    → is_targeted q (judge_hard v rs w m p).0.targeted ≡ true
unfolding judge_hard decide
judge_hard-targeted q v rs w (err fs) p h = h
judge_hard-targeted q v rs w (ok (some a)) p h = h
judge_hard-targeted q v rs w (ok none) p h = kill_once-targeted q v.means w _ v.now p h

-- What is targeted stays so.
hard-targeted :
    (q : ℤ) (s : State) (rs : List Reservation) (v : Surroundings) (ws : List ProcessView)
    (p : Pass)
    → is_targeted q p.targeted ≡ true
    → is_targeted q (enforce_hard s rs v ws p).0.targeted ≡ true
unfolding enforce_hard each_view enforce_hard_view
hard-targeted q s rs v [] p h = h
hard-targeted q s rs v (w ∷ ws) p h =
    on_if {A = Outcome} (λ o. is_targeted q o.0.targeted ≡ true) (v.done_view w.process) _ _
      (λ _. h)
      λ _. hard-targeted q s rs v ws _ (
        on_if {A = Outcome} (λ o. is_targeted q o.0.targeted ≡ true) w.bypassed (p, []) _ (λ _. h)
          λ _. judge_hard-targeted q v rs w _ p h)

is_candidate-Entitles :
    (v : Surroundings) (s : State) (rs : List Reservation) (a : Authorization)
    → is_candidate v s.tokens (some (map_hash rs)) "" a ≡ true
    → Entitles v s rs a
unfolding is_candidate authorization_globally_valid
is_candidate-Entitles v s rs a h =
    (ground (arith, h), sym (passes-map_hash rs a.token_hash) ∙ ground (arith, h))

-- Every scope can be compared with the process: nothing fails and the context is not done.
pub record IsResolvable (v : Surroundings) (rows : List Authorization) (info : ProcInfo)
    : Type 0 where
  pub awake : (id : String) → v.done_matching info id ≡ false
  pub answered :
      All (λ a. (b : Bool) × (authorization_scope_matches v.platform v.resolver a info ≡ ok b)) rows

-- One row of the search: it is passed over, and the rest decides.
row_passed :
    {A : Type 0} (done candidate : Bool) (r : Checked) (b : Bool) (fs : List Fault) (a : A)
    (rest : Matched A)
    → done ≡ false
    → r ≡ ok b
    → (candidate ≡ true → r ≢ ok true)
    → rest ≡ ok none
    → (if done then err fs else if not candidate then rest else or_next r a rest) ≡ ok none
unfolding or_next
row_passed true c r b fs a rest d e off h = cc
row_passed false false r b fs a rest d e off h = h
row_passed false true (ok false) b fs a rest d e off h = h
row_passed false true (ok true) b fs a rest d e off h = absurd (off refl refl)
row_passed false true (err f) b fs a rest d e off h = cc

match_none_back :
    (v : Surroundings) (s : State) (rs : List Reservation) (info : ProcInfo)
    (rows : List Authorization)
    → IsResolvable v rows info
    → All
        (λ a.
          Entitles v s rs a → authorization_scope_matches v.platform v.resolver a info ≢ ok true)
        rows
    → match_any_authorization v s.tokens (some (map_hash rs)) "" info rows ≡ ok none
unfolding match_any_authorization
match_none_back v s rs info [] r h = refl
match_none_back v s rs info (a ∷ rows) r h =
    row_passed (v.done_matching info a.id) (is_candidate v s.tokens (some (map_hash rs)) "" a)
      (authorization_scope_matches v.platform v.resolver a info) r.answered.0.0 _ _ _ (r.awake a.id)
      r.answered.0.1 (λ c. h.0 (is_candidate-Entitles v s rs a c))
      (match_none_back v s rs info rows (record { awake = r.awake; answered = r.answered.1 }) h.1)

intruder_targeted :
    (s : State) (rs : List Reservation) (v : Surroundings) (w : ProcessView) (p : Pass)
    (m : Matched Authorization) (bypassed : Bool)
    → bypassed ≡ false
    → m ≡ ok none
    → is_targeted w.process.pid
        (if◌then◌else◌ {A = Outcome} bypassed (p, []) (judge_hard v rs w m p)).0.targeted
      ≡ true
unfolding judge_hard
intruder_targeted s rs v w p (ok none) false e h = kill_once_self v.means w _ v.now p
intruder_targeted s rs v w p (ok (some a)) false e h = cc
intruder_targeted s rs v w p (err fs) false e h = cc
intruder_targeted s rs v w p m true e h = cc

-- Where the context is not done and every scope can be resolved, each process on a reserved GPU
-- that is neither bypassed nor in the scope of a valid authorization of a reserving token is
-- targeted when the processes of the GPU have been gone through.
pub enforce_hard-is_targeted :
    (s : State) (rs : List Reservation) (v : Surroundings) (ws : List ProcessView) (p : Pass)
    → ((g : GpuProcess) → v.done_view g ≡ false)
    → All (λ w. IsResolvable v s.authorizations w.info) ws
    → All
        (λ w.
          w.bypassed ≡ false
          → IsIntruder v s rs w.info
          → is_targeted w.process.pid (enforce_hard s rs v ws p).0.targeted ≡ true)
        ws
unfolding enforce_hard each_view enforce_hard_view
enforce_hard-is_targeted s rs v [] p awake r = tt
enforce_hard-is_targeted s rs v (w ∷ ws) p awake r =
    on_if {A = Outcome}
      (λ o.
        All
          (λ x.
            x.bypassed ≡ false
            → IsIntruder v s rs x.info
            → is_targeted x.process.pid o.0.targeted ≡ true)
          (w ∷ ws))
      (v.done_view w.process) _ _ (λ e. absurd (true≢false (sym e ∙ awake w.process)))
      λ _. (
        λ spared intruder. hard-targeted w.process.pid s rs v ws _ (
            intruder_targeted s rs v w p _ w.bypassed spared
              (match_none_back v s rs w.info s.authorizations r.0 intruder)),
        enforce_hard-is_targeted s rs v ws _ awake r.1,
      )
