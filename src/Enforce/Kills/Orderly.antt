-- ===== src/Enforce/Kills/Orderly.antt =====
-- What the planning of terminations in internal/enforce/enforce.go keeps: the budget, and one
-- termination for each process id, only of processes with a property that those not bypassed have.
use gpuardian.Base.{
  ℕ, ◌≤◌, ◌≡◌, ◌≢◌, subst, inl, inr, ℤ, true, false, List, [], ◌∷◌, ◌++◌, length, length-append,
  All, All-append, All-mono, Pairwise, Pairwise-append, int_eq, ==_refl, leb, Bool-cases, arith,
}
use gpuardian.Enforce.Kills.{
  ProcessView, Decision, Blame, PendingKill, Pass, Means, awaiting, decide, plan_kill, kill_once,
  is_targeted, kill_decision, postpone, bare_decision, skip, already_targeted,
}

abbrev pub pid_of : PendingKill → ℤ
pid_of k = k.view.process.pid

-- The planned terminations: at most eight, each of another process id, all of them targeted, and
-- only of processes with the property `Q`.
pub record IsOrderly (Q : ProcessView → Type 0) (p : Pass) : Type 0 where
  pub budget : length p.pending ≤ 8
  pub distinct : Pairwise (λ k l. pid_of k ≢ pid_of l) p.pending
  pub targeted : All (λ k. is_targeted (pid_of k) p.targeted ≡ true) p.pending
  pub spared : All (λ k. Q k.view) p.pending

-- A process that is not bypassed has the property.
abbrev pub Spares : (ProcessView → Type 0) → ProcessView → Type 0
Spares Q w = w.bypassed ≡ false → Q w

still_targeted :
    (q : ℤ) (ts : List ℤ) (ks : List PendingKill)
    → All (λ k. is_targeted (pid_of k) ts ≡ true) ks
    → All (λ k. is_targeted (pid_of k) (q ∷ ts) ≡ true) ks
still_targeted q ts = All-mono (λ k h. ground (arith, h))

-- A process id that is targeted is not one that is not.
apart :
    (q : ℤ) (ts : List ℤ) (k : PendingKill)
    → is_targeted q ts ≡ false
    → is_targeted (pid_of k) ts ≡ true
    → pid_of k ≢ q
apart q ts k fresh old same = let clash = subst (λ x. is_targeted x ts ≡ true) same old in cc

module _ {Q : ProcessView → Type 0} where
  pub decide-IsOrderly : (d : Decision) (p : Pass) → IsOrderly Q p → IsOrderly Q (decide d p)
  unfolding decide
  decide-IsOrderly d p h = record {
    budget = h.budget;
    distinct = h.distinct;
    targeted = h.targeted;
    spared = h.spared;
  }

  -- A pass without the new target, but with its id marked.
  marked : (q : ℤ) (p : Pass) → IsOrderly Q p → IsOrderly Q (record p { targeted = q ∷ p.targeted })
  marked q p h = record {
    budget = h.budget;
    distinct = h.distinct;
    targeted = still_targeted q p.targeted p.pending h.targeted;
    spared = h.spared;
  }

  planned :
      (k : PendingKill) (p : Pass)
      → IsOrderly Q p
      → is_targeted (pid_of k) p.targeted ≡ false
      → leb 8 (length p.pending) ≡ false
      → Q k.view
      → IsOrderly Q (record p { targeted = pid_of k ∷ p.targeted; pending = p.pending ++ k ∷ [] })
  planned k p h fresh room spared =
      let first = ==_refl (pid_of k) in
      record {
        budget = rw (length-append p.pending (k ∷ [])) (ground arith);
        distinct =
            Pairwise-append (λ x y. pid_of x ≢ pid_of y) p.pending (k ∷ []) h.distinct (tt, tt)
              (All-mono (λ x t. (apart (pid_of k) p.targeted x fresh t, tt)) p.pending h.targeted);
        targeted =
            All-append (λ x. is_targeted (pid_of x) (pid_of k ∷ p.targeted) ≡ true) p.pending
              (k ∷ []) (still_targeted (pid_of k) p.targeted p.pending h.targeted)
              (ground (arith, first), tt);
        spared = All-append (λ x. Q x.view) p.pending (k ∷ []) h.spared (spared, tt);
      }

  -- The target is marked first; whether it is then planned depends on the budget.
  pub plan_kill-IsOrderly :
      (m : Means) (w : ProcessView) (b : Blame) (now : ℕ) (p : Pass)
      → Q w
      → is_targeted w.process.pid p.targeted ≡ false
      → IsOrderly Q p
      → IsOrderly Q (plan_kill m w b now (record p { targeted = w.process.pid ∷ p.targeted }))
  unfolding plan_kill
  plan_kill-IsOrderly m w b now p spared fresh h =
      let held = marked w.process.pid p h in
      elim (Bool-cases (awaiting m w.process.pid w.info.start_time)) [
        | inl e ↦ rw e (decide-IsOrderly (kill_decision w b) _ held)
        | inr e ↦ rw e (elim (Bool-cases m.dry_run) [
          | inl dry ↦ rw dry (decide-IsOrderly (kill_decision w b) _ held)
          | inr wet ↦ rw wet (elim (Bool-cases (leb 8 (length p.pending))) [
            | inl full ↦ rw full (decide-IsOrderly (postpone w b) _ held)
            | inr room ↦ rw room (
                decide-IsOrderly (kill_decision w b) _
                  (planned (record { view = w; blame = b; now = now }) p h fresh room spared))
          ])
        ])
      ]

  pub kill_once-IsOrderly :
      (m : Means) (w : ProcessView) (b : Blame) (now : ℕ) (p : Pass)
      → Q w
      → IsOrderly Q p
      → IsOrderly Q (kill_once m w b now p)
  unfolding kill_once
  kill_once-IsOrderly m w b now p spared h =
      elim (Bool-cases (is_targeted w.process.pid p.targeted)) [
        | inl old ↦ rw old (decide-IsOrderly (bare_decision (skip w already_targeted)) p h)
        | inr fresh ↦ rw fresh (plan_kill-IsOrderly m w b now p spared fresh h)
      ]
