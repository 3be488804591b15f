-- ===== src/Enforce/Decide/Intruders.antt =====
-- On a reserved GPU (internal/enforce/enforce.go, enforceHard): who is terminated, and who is not.
use mathlib.Core.Bool.{true≢false}
use mathlib.Core.List.{append-nil, append_assoc}
use gpuardian.Base.{
  ℕ, ◌≡◌, ◌≢◌, refl, sym, ap, ◌∙◌, ◌⊎◌, inl, inr, String, Bool, true, false, not, ◌&&◌, ◌||◌, ◌==◌,
  string_eq, List, [], ◌∷◌, ◌++◌, Option, none, some, All, All-append, All-mono, any, Result, ok,
  err, if◌then◌else◌, on_if, leb, length, arith,
}
use gpuardian.Model.{Token, Authorization, Reservation, State}
use gpuardian.Model.Processes.{ProcInfo}
use gpuardian.Enforce.Scope.{Fault, authorization_scope_matches}
use gpuardian.Enforce.Entitlement.{authorization_globally_valid}
use gpuardian.Enforce.Kills.{
  ProcessView, Blame, PendingKill, Pass, Means, awaiting, decide, plan_kill, kill_once, is_targeted,
}
use gpuardian.Enforce.Decide.{
  Surroundings, Matched, Outcome, passes, mode_fits, is_candidate, after_fault, or_next,
  match_any_authorization, map_hash, each_view, judge_hard, enforce_hard_view, enforce_hard,
}

-- A valid authorization of a token that reserves the GPU.
abbrev pub Entitles : Surroundings → State → List Reservation → Authorization → Type 0
Entitles v s rs a =
    (authorization_globally_valid a s.tokens v.now ≡ true)
    × (any (λ r. r.token_hash == a.token_hash) rs ≡ true)

-- None of the authorizations that entitle to the GPU has the process in its scope.
abbrev pub IsIntruder : Surroundings → State → List Reservation → ProcInfo → Type 0
IsIntruder v s rs info =
    All
      (λ a. Entitles v s rs a → authorization_scope_matches v.platform v.resolver a info ≢ ok true)
      s.authorizations

pub passes-map_hash :
    (rs : List Reservation) (hash : String)
    → passes (some (map_hash rs)) hash ≡ any (λ r. r.token_hash == hash) rs
passes-map_hash [] hash = refl
passes-map_hash (r ∷ rs) hash = ap (λ b. (r.token_hash == hash) || b) (passes-map_hash rs hash)

Entitles-is_candidate :
    (v : Surroundings) (s : State) (rs : List Reservation) (a : Authorization)
    → Entitles v s rs a
    → is_candidate v s.tokens (some (map_hash rs)) "" a ≡ true
unfolding is_candidate authorization_globally_valid mode_fits
Entitles-is_candidate v s rs a (valid, reserving) =
    let named = passes-map_hash rs a.token_hash ∙ reserving in ground (arith, valid, named)

no_match_behind_fault : {A : Type 0} (f : Fault) (m : Matched A) → after_fault f m ≢ ok none
unfolding after_fault
no_match_behind_fault f (ok (some a)) h = cc
no_match_behind_fault f (ok none) h = cc
no_match_behind_fault f (err fs) h = cc

no_match_next :
    {A : Type 0} (r : Result Fault Bool) (a : A) (rest : Matched A)
    → or_next r a rest ≡ ok none
    → (r ≢ ok true) × (rest ≡ ok none)
unfolding or_next
no_match_next (err f) a rest h = (λ e. cc, absurd (no_match_behind_fault f rest h))
no_match_next (ok true) a rest h = (λ e. cc, cc)
no_match_next (ok false) a rest h = (λ e. cc, h)

-- What was asked of an authorization where no match came out.
after_guards :
    {A : Type 0} (done candidate : Bool) (fs : List Fault) (rest next : Matched A)
    → (if done then err fs else if not candidate then rest else next) ≡ ok none
    → ((candidate ≡ true) × (next ≡ ok none)) ⊎ ((candidate ≡ false) × (rest ≡ ok none))
after_guards true c fs rest next h = cc
after_guards false true fs rest next h = inl (refl, h)
after_guards false false fs rest next h = inr (refl, h)

match_none :
    (v : Surroundings) (tokens : List Token) (filter : Option (List String)) (wanted : String)
    (info : ProcInfo) (rows : List Authorization)
    → match_any_authorization v tokens filter wanted info rows ≡ ok none
    → All
        (λ a.
          is_candidate v tokens filter wanted a ≡ true
          → authorization_scope_matches v.platform v.resolver a info ≢ ok true)
        rows
unfolding match_any_authorization
match_none v tokens filter wanted info [] h = tt
match_none v tokens filter wanted info (a ∷ rows) h =
    elim (after_guards (v.done_matching info a.id) (is_candidate v tokens filter wanted a) _ _ _
      h) [
        | inl (fits, next) ↦
            let (off, rest) =
              no_match_next (authorization_scope_matches v.platform v.resolver a info) _ _ next in
            (λ _. off, match_none v tokens filter wanted info rows rest)
        | inr (other, rest) ↦ (
          λ fits. absurd (true≢false (sym fits ∙ other)),
          match_none v tokens filter wanted info rows rest,
        )
      ]

-- No authorization found: the process is an intruder.
match-IsIntruder :
    (v : Surroundings) (s : State) (rs : List Reservation) (info : ProcInfo)
    → match_any_authorization v s.tokens (some (map_hash rs)) "" info s.authorizations ≡ ok none
    → IsIntruder v s rs info
match-IsIntruder v s rs info h =
    All-mono (λ a off entitled. off (Entitles-is_candidate v s rs a entitled)) s.authorizations
      (match_none v s.tokens (some (map_hash rs)) "" info s.authorizations h)

-- A pass has planned more terminations than another one, each with the property.
pub record Adds (P : PendingKill → Type 0) (p q : Pass) : Type 0 where
  pub new : List PendingKill
  pub appended : q.pending ≡ p.pending ++ new
  pub justified : All P new

Adds-refl : (P : PendingKill → Type 0) (p q : Pass) → q.pending ≡ p.pending → Adds P p q
Adds-refl P p q same = record {
  new = [];
  appended = same ∙ sym (append-nil p.pending);
  justified = tt;
}

Adds-trans : (P : PendingKill → Type 0) (p q r : Pass) → Adds P p q → Adds P q r → Adds P p r
Adds-trans P p q r h k = record {
  new = h.new ++ k.new;
  appended = k.appended ∙ ap (λ ks. ks ++ k.new) h.appended ∙ append_assoc p.pending h.new k.new;
  justified = All-append P h.new k.new h.justified k.justified;
}

kill_once-Adds :
    (P : PendingKill → Type 0) (m : Means) (w : ProcessView) (b : Blame) (now : ℕ) (p : Pass)
    → P (record { view = w; blame = b; now = now })
    → Adds P p (kill_once m w b now p)
unfolding kill_once plan_kill decide
kill_once-Adds P m w b now p just =
    let none_new = λ (q : Pass) (e : q.pending ≡ p.pending). Adds-refl P p q e in
    on_if (Adds P p) (is_targeted w.process.pid p.targeted) _ _ (λ _. none_new _ refl)
      λ _.
        on_if (Adds P p) (awaiting m w.process.pid w.info.start_time) _ _ (λ _. none_new _ refl)
          λ _.
            on_if (Adds P p) (not m.dry_run && leb 8 (length p.pending)) _ _ (λ _. none_new _ refl)
              λ _.
                on_if (Adds P p) m.dry_run _ _ (λ _. none_new _ refl)
                  λ _. record {
                    new = record { view = w; blame = b; now = now } ∷ [];
                    appended = refl;
                    justified = (just, tt);
                  }

judged-Adds :
    (s : State) (rs : List Reservation) (v : Surroundings) (w : ProcessView) (p : Pass)
    (m : Matched Authorization)
    → (m ≡ ok none → IsIntruder v s rs w.info)
    → Adds (λ k. IsIntruder v s rs k.view.info) p (judge_hard v rs w m p).0
unfolding judge_hard decide
judged-Adds s rs v w p (err fs) just = Adds-refl _ p _ refl
judged-Adds s rs v w p (ok (some a)) just = Adds-refl _ p _ refl
judged-Adds s rs v w p (ok none) just =
    kill_once-Adds (λ k. IsIntruder v s rs k.view.info) v.means w _ v.now p (just refl)

hard_view-Adds :
    (s : State) (rs : List Reservation) (v : Surroundings) (w : ProcessView) (p : Pass)
    → Adds (λ k. IsIntruder v s rs k.view.info) p (enforce_hard_view s rs v w p).0
unfolding enforce_hard_view
hard_view-Adds s rs v w p =
    let P = λ (k : PendingKill). IsIntruder v s rs k.view.info in
    on_if {A = Outcome} (λ o. Adds P p o.0) w.bypassed (p, []) _ (λ _. Adds-refl P p p refl)
      λ _. judged-Adds s rs v w p _ (match-IsIntruder v s rs w.info)

-- On a reserved GPU the pass adds terminations only of processes that no valid authorization of a
-- token that reserves the GPU has in its scope: the holder's own processes are not terminated.
pub enforce_hard-Adds :
    (s : State) (rs : List Reservation) (v : Surroundings) (ws : List ProcessView) (p : Pass)
    → Adds (λ k. IsIntruder v s rs k.view.info) p (enforce_hard s rs v ws p).0
unfolding enforce_hard each_view
enforce_hard-Adds s rs v [] p = Adds-refl _ p p refl
enforce_hard-Adds s rs v (w ∷ ws) p =
    let P = λ (k : PendingKill). IsIntruder v s rs k.view.info in
    let q = (enforce_hard_view s rs v w p).0 in
    on_if {A = Outcome} (λ o. Adds P p o.0) (v.done_view w.process) _ _ (λ _. Adds-refl P p p refl)
      λ _. Adds-trans P p q _ (hard_view-Adds s rs v w p) (enforce_hard-Adds s rs v ws q)
