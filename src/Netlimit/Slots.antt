-- ===== src/Netlimit/Slots.antt =====
-- internal/netlimit/listener.go: the slots that are taken are those of the open connections and of the
-- calls that wait.
use gpuardian.Base.{
  ℕ, zero, suc, ◌+◌, ◌≤◌, ◌≡◌, refl, ap, Bool, true, false, List, [], ◌∷◌, if◌then◌else◌, arith,
  count_if,
}
use gpuardian.Netlimit.{
  Stage, accepting, connected, ended, Listener, set_stage, stage_of, Step, begins, gives_up, fails,
  accepts, closes, closes_again, shuts, Reach, start, next, is_connected, is_accepting, holds_slot,
}

abbrev weight : (Stage → Bool) → Stage → ℕ
weight test s = if test s then 1 else 0

-- Every slot in the channel is held by one call or connection, and all of them fit.
pub record Accounts (maximum : ℕ) (l : Listener) : Type 0 where
  pub held : l.slots ≡ count_if holds_slot l.stages
  pub within : l.slots ≤ maximum

count_if-set_stage :
    (test : Stage → Bool) (n : ℕ) (stage : Stage) (ss : List Stage)
    → test (stage_of n ss) ≡ true
    → test ended ≡ false
    → count_if test (set_stage n stage ss) + 1 ≡ count_if test ss + weight test stage
count_if-set_stage test n stage [] h e = cc
count_if-set_stage test zero stage (s ∷ ss) h e = ground arith
count_if-set_stage test (suc n) stage (s ∷ ss) h e =
    let rest = count_if-set_stage test n stage ss h e in ground (arith, rest)

held_after :
    (n : ℕ) (stage : Stage) (ss : List Stage)
    → holds_slot (stage_of n ss) ≡ true
    → count_if holds_slot (set_stage n stage ss) + 1
      ≡ count_if holds_slot ss + weight holds_slot stage
held_after n stage ss h = count_if-set_stage holds_slot n stage ss h refl

Step-Accounts :
    (maximum : ℕ) (l m : Listener) → Step maximum l m → Accounts maximum l → Accounts maximum m
Step-Accounts maximum _ _ (begins l room) a = ground arith
Step-Accounts maximum _ _ (gives_up l d) a = a
Step-Accounts maximum _ _ (fails l n e) a =
    let left = held_after n ended l.stages (ap holds_slot e) in
    record { held = omega (arith, left, a.held); within = omega (arith, a.within) }
Step-Accounts maximum _ _ (accepts l n e) a =
    let left = held_after n connected l.stages (ap holds_slot e) in
    record { held = omega (arith, left, a.held); within = a.within }
Step-Accounts maximum _ _ (closes l n e) a =
    let left = held_after n ended l.stages (ap holds_slot e) in
    record { held = omega (arith, left, a.held); within = omega (arith, a.within) }
Step-Accounts maximum _ _ (closes_again l n e) a = a
Step-Accounts maximum _ _ (shuts l) a = record { held = a.held; within = a.within }

Reach-Accounts : (maximum : ℕ) (l : Listener) → Reach maximum l → Accounts maximum l
Reach-Accounts maximum l start = record { held = refl; within = omega arith }
Reach-Accounts maximum l (next r st) = Step-Accounts maximum _ l st (Reach-Accounts maximum _ r)

connected-le : (ss : List Stage) → count_if is_connected ss ≤ count_if holds_slot ss
connected-le [] = omega arith
connected-le (accepting ∷ ss) = omega (arith, connected-le ss)
connected-le (connected ∷ ss) = omega (arith, connected-le ss)
connected-le (ended ∷ ss) = omega (arith, connected-le ss)

held_parts :
    (ss : List Stage) → count_if holds_slot ss ≡ count_if is_connected ss + count_if is_accepting ss
held_parts [] = omega arith
held_parts (accepting ∷ ss) = omega (arith, held_parts ss)
held_parts (connected ∷ ss) = omega (arith, held_parts ss)
held_parts (ended ∷ ss) = omega (arith, held_parts ss)

-- However the calls interleave, and however often a connection is closed: at most `maximum`
-- connections are open, and the slots that are taken are those of the open connections and of the
-- calls that wait, so that none is ever lost.
pub Reach-IsBounded :
    (maximum : ℕ) (l : Listener)
    → Reach maximum l
    → (count_if is_connected l.stages ≤ maximum)
      × (l.slots ≡ count_if is_connected l.stages + count_if is_accepting l.stages)
Reach-IsBounded maximum l r =
    let a = Reach-Accounts maximum l r in
    let fewer = connected-le l.stages in
    let parts = held_parts l.stages in
    (omega (arith, a.held, a.within, fewer), omega (arith, a.held, parts))
