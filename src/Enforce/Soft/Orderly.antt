-- ===== src/Enforce/Soft/Orderly.antt =====
-- internal/enforce/enforce.go: on a GPU that is claimed or free the planned terminations stay orderly.
use gpuardian.Base.{
  ◌≡◌, ℤ, Bool, true, false, List, [], ◌∷◌, Option, none, some, All, OnOk, Result, ok, err,
  OnOk->>=, ◌==◌, string_eq, on_if, subst,
}
use gpuardian.Model.{Authorization, SoftClaim, State, token_mode_claimed}
use gpuardian.Enforce.Scope.{Fault}
use gpuardian.Enforce.Kills.{ProcessView, Decision, Blame, Pass}
use gpuardian.Enforce.Kills.Orderly.{IsOrderly, Spares, decide-IsOrderly, kill_once-IsOrderly}
use gpuardian.Enforce.Decide.{Surroundings, Outcome, match_any_authorization}
use gpuardian.Enforce.Soft.{
  Sorted, sort_in, until_fault, judge_claimed, enforce_claimed_view, pass_over_views, sort_views,
  judge_authorized, kill_all, settle, enforce_unclaimed, enforce_claim, enforce_soft, match_claimed,
  active_soft_claims_for_gpu, claim_has_matching_process,
}

-- All the processes that were sorted have the property.
abbrev AreSpared : (ProcessView → Type 0) → Sorted → Type 0
AreSpared Q (with, without) = All (λ x. Q x.0) with × All Q without

-- A computation that gave a value: what holds of its value holds of that one.
on_ok_at :
    {A : Type 0} (P : A → Type 0) (r : Result (List Fault) A) (a : A) → r ≡ ok a → OnOk P r → P a
on_ok_at P r a e h = subst (OnOk P) e h

module _ (Q : ProcessView → Type 0) where
  sort_in-AreSpared :
      (w : ProcessView) (found : Option Authorization) (sorted : Sorted)
      → Q w
      → AreSpared Q sorted
      → AreSpared Q (sort_in w found sorted)
  sort_in-AreSpared w (some a) sorted e h = ((e, h.0), h.1)
  sort_in-AreSpared w none sorted e h = (h.0, (e, h.1))

  sort_views-AreSpared :
      (v : Surroundings) (s : State) (ws : List ProcessView)
      → All (Spares Q) ws
      → OnOk (AreSpared Q) (sort_views v s ws)
  unfolding sort_views
  sort_views-AreSpared v s [] j = (tt, tt)
  sort_views-AreSpared v s (w ∷ ws) j =
      let rest = sort_views-AreSpared v s ws j.1 in
      on_if (OnOk (AreSpared Q)) (v.done_view w.process) _ _ (λ _. tt)
        λ _.
          on_if (OnOk (AreSpared Q)) w.bypassed (sort_views v s ws) _ (λ _. rest)
            λ e.
              OnOk->>= (AreSpared Q)
                (match_any_authorization v s.tokens none token_mode_claimed w.info s.authorizations)
                _
                λ found _. OnOk->>= (AreSpared Q) (sort_views v s ws) _ λ sorted good.
                  sort_in-AreSpared w found sorted (j.0 e)
                    (on_ok_at (AreSpared Q) (sort_views v s ws) sorted good rest)

module _ {Q : ProcessView → Type 0} where
  until_fault-IsOrderly :
      (step : ProcessView → Pass → Result (List Fault) Pass)
      → ((w : ProcessView) (p : Pass) → Spares Q w → IsOrderly Q p → OnOk (IsOrderly Q) (step w p))
      → (ws : List ProcessView) (p : Pass) → All (Spares Q) ws
      → IsOrderly Q p
      → IsOrderly Q (until_fault step ws p).0
  unfolding until_fault
  until_fault-IsOrderly step keep [] p j h = h
  until_fault-IsOrderly step keep (w ∷ ws) p j h =
      elim (step w p)
          as (λ r.
            OnOk (IsOrderly Q) r
            → IsOrderly Q
                (elim r as (λ _. Outcome) [ err fs ↦ (p, fs) | ok q ↦ until_fault step ws q ]).0) [
                  | err fs ↦ λ k. h
                  | ok q ↦ λ k. until_fault-IsOrderly step keep ws q j.1 k
                ]
        (keep w p j.0 h)

  judge_claimed-IsOrderly :
      (v : Surroundings) (c : SoftClaim) (w : ProcessView) (p : Pass) (found : Option Authorization)
      → Q w
      → IsOrderly Q p
      → IsOrderly Q (judge_claimed v c w p found)
  unfolding judge_claimed
  judge_claimed-IsOrderly v c w p (some a) spared h = decide-IsOrderly _ p h
  judge_claimed-IsOrderly v c w p none spared h = kill_once-IsOrderly v.means w _ v.now p spared h

  claimed_view-IsOrderly :
      (v : Surroundings) (s : State) (c : SoftClaim) (w : ProcessView) (p : Pass)
      → Spares Q w
      → IsOrderly Q p
      → OnOk (IsOrderly Q) (enforce_claimed_view v s c w p)
  unfolding enforce_claimed_view
  claimed_view-IsOrderly v s c w p j h =
      on_if (OnOk (IsOrderly Q)) (v.done_view w.process) _ _ (λ _. tt)
        λ _.
          on_if (OnOk (IsOrderly Q)) w.bypassed (ok p) _ (λ _. h)
            λ e.
              OnOk->>= (IsOrderly Q) (match_claimed v s (c.token_hash ∷ []) w.info) _
                λ found _. judge_claimed-IsOrderly v c w p found (j e) h

  pass_over-IsOrderly :
      (ws : List ProcessView) (d : ProcessView → Decision) (p : Pass)
      → IsOrderly Q p
      → IsOrderly Q (pass_over_views ws d p)
  unfolding pass_over_views
  pass_over-IsOrderly [] d p h = h
  pass_over-IsOrderly (w ∷ ws) d p h =
      pass_over-IsOrderly ws d _
        (on_if (IsOrderly Q) w.bypassed p _ (λ _. h) λ _. decide-IsOrderly (d w) p h)

  judge_authorized-IsOrderly :
      (v : Surroundings) (b : Blame) (ws : List (ProcessView × Authorization)) (p : Pass)
      → All (λ x. Q x.0) ws
      → IsOrderly Q p
      → IsOrderly Q (judge_authorized v b ws p)
  unfolding judge_authorized
  judge_authorized-IsOrderly v b [] p k h = h
  judge_authorized-IsOrderly v b ((w, a) ∷ ws) p k h = judge_authorized-IsOrderly v b ws _ k.1 (
      on_if (IsOrderly Q) (a.token_hash == b.token_hash) _ _ (λ _. decide-IsOrderly _ p h)
        λ _. kill_once-IsOrderly v.means w b v.now p k.0 h)

  kill_all-IsOrderly :
      (v : Surroundings) (b : Blame) (ws : List ProcessView) (p : Pass)
      → All Q ws
      → IsOrderly Q p
      → IsOrderly Q (kill_all v b ws p)
  unfolding kill_all
  kill_all-IsOrderly v b [] p k h = h
  kill_all-IsOrderly v b (w ∷ ws) p k h =
      kill_all-IsOrderly v b ws _ k.1 (kill_once-IsOrderly v.means w b v.now p k.0 h)

  settle-IsOrderly :
      (v : Surroundings) (gpu : ℤ) (sorted : Sorted) (p : Pass)
      → AreSpared Q sorted
      → IsOrderly Q p
      → IsOrderly Q (settle v gpu sorted p)
  unfolding settle
  settle-IsOrderly v gpu ([], without) p k h = pass_over-IsOrderly without _ p h
  settle-IsOrderly v gpu ((w, a) ∷ with, without) p k h =
      kill_all-IsOrderly v _ without _ k.1
        (judge_authorized-IsOrderly v _ ((w, a) ∷ with) _ k.0 (decide-IsOrderly _ p h))

  unclaimed-IsOrderly :
      (v : Surroundings) (gpu : ℤ) (r : Result (List Fault) Sorted) (p : Pass)
      → OnOk (AreSpared Q) r
      → IsOrderly Q p
      → IsOrderly Q (enforce_unclaimed v gpu r p).0
  unfolding enforce_unclaimed
  unclaimed-IsOrderly v gpu (err fs) p k h = h
  unclaimed-IsOrderly v gpu (ok sorted) p k h = settle-IsOrderly v gpu sorted p k h

  claim-IsOrderly :
      (v : Surroundings) (s : State) (c : SoftClaim) (ws : List ProcessView)
      (r : Result (List Fault) Bool) (p : Pass)
      → All (Spares Q) ws
      → IsOrderly Q p
      → IsOrderly Q (enforce_claim v s c ws r p).0
  unfolding enforce_claim
  claim-IsOrderly v s c ws (err fs) p j h = h
  claim-IsOrderly v s c ws (ok true) p j h =
      until_fault-IsOrderly (enforce_claimed_view v s c) (claimed_view-IsOrderly v s c) ws p j h
  claim-IsOrderly v s c ws (ok false) p j h = pass_over-IsOrderly ws _ p h

  pub soft-IsOrderly :
      (v : Surroundings) (s : State) (gpu : ℤ) (ws : List ProcessView) (p : Pass)
      → All (Spares Q) ws
      → IsOrderly Q p
      → IsOrderly Q (enforce_soft v s gpu ws p).0
  unfolding enforce_soft
  soft-IsOrderly v s gpu ws p j h =
      elim (active_soft_claims_for_gpu v.platform s gpu v.now)
        as (λ cs.
          IsOrderly Q
            (elim cs as (λ _. Outcome) [
              | [] ↦ enforce_unclaimed v gpu (sort_views v s ws) p
              | c ∷ more ↦ enforce_claim v s c ws (claim_has_matching_process v s c ws) p
            ]).0) [
              | [] ↦
                  unclaimed-IsOrderly v gpu (sort_views v s ws) p (sort_views-AreSpared Q v s ws j)
                    h
              | c ∷ more ↦ claim-IsOrderly v s c ws (claim_has_matching_process v s c ws) p j h
            ]
