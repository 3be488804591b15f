-- ===== src/Enforce/Decide/Orderly.antt =====
-- internal/enforce/enforce.go: on a reserved or leased GPU the planned terminations stay orderly.
use gpuardian.Base.{
  All, inl, inr, String, List, [], ◌∷◌, none, some, ok, err, string_eq, Bool-cases, on_if,
}
use gpuardian.Model.{Authorization, Reservation, Lease, State}
use gpuardian.Enforce.Kills.{ProcessView, Pass}
use gpuardian.Enforce.Kills.Orderly.{IsOrderly, Spares, decide-IsOrderly, kill_once-IsOrderly}
use gpuardian.Enforce.Decide.{
  Surroundings, Matched, Outcome, each_view, judge_hard, enforce_hard_view, judge_leased,
  enforce_leased_view,
}

module _ {Q : ProcessView → Type 0} where
  pub each_view-IsOrderly :
      (judge : Surroundings → ProcessView → Pass → Outcome) (v : Surroundings)
      → ((w : ProcessView) (p : Pass) → Spares Q w → IsOrderly Q p → IsOrderly Q (judge v w p).0)
      → (ws : List ProcessView) (p : Pass) → All (Spares Q) ws
      → IsOrderly Q p
      → IsOrderly Q (each_view judge v ws p).0
  unfolding each_view
  each_view-IsOrderly judge v keep [] p k h = h
  each_view-IsOrderly judge v keep (w ∷ ws) p k h = elim (Bool-cases (v.done_view w.process)) [
    | inl e ↦ rw e h
    | inr e ↦ rw e (each_view-IsOrderly judge v keep ws (judge v w p).0 k.1 (keep w p k.0 h))
  ]

  judge_hard-IsOrderly :
      (v : Surroundings) (rs : List Reservation) (w : ProcessView) (found : Matched Authorization)
      (p : Pass)
      → Q w
      → IsOrderly Q p
      → IsOrderly Q (judge_hard v rs w found p).0
  unfolding judge_hard
  judge_hard-IsOrderly v rs w (err fs) p spared h = decide-IsOrderly _ p h
  judge_hard-IsOrderly v rs w (ok (some a)) p spared h = decide-IsOrderly _ p h
  judge_hard-IsOrderly v rs w (ok none) p spared h =
      kill_once-IsOrderly v.means w _ v.now p spared h

  pub hard_view-IsOrderly :
      (s : State) (rs : List Reservation) (v : Surroundings) (w : ProcessView) (p : Pass)
      → Spares Q w
      → IsOrderly Q p
      → IsOrderly Q (enforce_hard_view s rs v w p).0
  unfolding enforce_hard_view
  hard_view-IsOrderly s rs v w p k h =
      on_if {A = Outcome} (λ o. IsOrderly Q o.0) w.bypassed (p, []) _ (λ _. h)
        λ e. judge_hard-IsOrderly v rs w _ p (k e) h

  judge_leased-IsOrderly :
      (v : Surroundings) (ls : List Lease) (w : ProcessView) (found : Matched String) (p : Pass)
      → Q w
      → IsOrderly Q p
      → IsOrderly Q (judge_leased v ls w found p).0
  unfolding judge_leased
  judge_leased-IsOrderly v ls w (err fs) p spared h = decide-IsOrderly _ p h
  judge_leased-IsOrderly v ls w (ok (some id)) p spared h = decide-IsOrderly _ p h
  judge_leased-IsOrderly v ls w (ok none) p spared h =
      kill_once-IsOrderly v.means w _ v.now p spared h

  pub leased_view-IsOrderly :
      (ls : List Lease) (v : Surroundings) (w : ProcessView) (p : Pass)
      → Spares Q w
      → IsOrderly Q p
      → IsOrderly Q (enforce_leased_view ls v w p).0
  unfolding enforce_leased_view
  leased_view-IsOrderly ls v w p k h =
      on_if {A = Outcome} (λ o. IsOrderly Q o.0) w.bypassed (p, []) _ (λ _. h)
        λ e. judge_leased-IsOrderly v ls w _ p (k e) h
