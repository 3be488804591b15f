-- ===== src/Netlimit.antt =====
-- internal/netlimit/listener.go: a listener that keeps the number of open connections within a bound.
-- The goroutines take turns at the operations on the channel of slots, so a run is a list of steps.
pub mod Slots
use gpuardian.Base.{
  ℕ, zero, suc, ◌+◌, ◌-◌, ◌≤◌, ◌<◌, ◌≡◌, refl, ap, Bool, true, false, List, [], ◌∷◌, if◌then◌else◌,
  arith, count_if,
}

-- What has become of one call of Accept, and of the connection that it returned.
pub data Stage : Type 0 where
  -- It holds a slot and waits in the inner Accept.
  accepting : Stage
  -- It returned a connection, which is open.
  connected : Stage
  -- The connection was closed, or the call failed.
  ended : Stage

-- `slots` is how full the channel is, `done` whether the listener was closed.
pub record Listener : Type 0 where
  pub slots : ℕ
  pub done : Bool
  pub stages : List Stage

-- A value is taken out of the channel.
abbrev pub take_slot : Listener → Listener
take_slot l = record l { slots = l.slots - 1 }

abbrev pub set_stage : ℕ → Stage → List Stage → List Stage
set_stage n stage [] = []
set_stage zero stage (s ∷ ss) = stage ∷ ss
set_stage (suc n) stage (s ∷ ss) = s ∷ set_stage n stage ss

-- The stage of a call, where there is no call the last one.
abbrev pub stage_of : ℕ → List Stage → Stage
stage_of n [] = ended
stage_of zero (s ∷ ss) = s
stage_of (suc n) (s ∷ ss) = stage_of n ss

-- The steps, with the capacity of the channel. A send blocks while the channel is full, so that
-- `begins` has room as its premise; a closed listener may still win a slot, since select chooses
-- freely between two ready cases.
pub data Step (maximum : ℕ) : Listener → Listener → Type 0 where
  begins :
      (l : Listener)
      → l.slots < maximum
      → Step maximum l (record l { slots = suc l.slots; stages = accepting ∷ l.stages })
  gives_up : (l : Listener) → l.done ≡ true → Step maximum l l
  fails :
      (l : Listener) (n : ℕ)
      → stage_of n l.stages ≡ accepting
      → Step maximum l (record (take_slot l) { stages = set_stage n ended l.stages })
  accepts :
      (l : Listener) (n : ℕ)
      → stage_of n l.stages ≡ accepting
      → Step maximum l (record l { stages = set_stage n connected l.stages })
  -- The first Close of a connection; `once` keeps the others from the channel.
  closes :
      (l : Listener) (n : ℕ)
      → stage_of n l.stages ≡ connected
      → Step maximum l (record (take_slot l) { stages = set_stage n ended l.stages })
  closes_again : (l : Listener) (n : ℕ) → stage_of n l.stages ≡ ended → Step maximum l l
  shuts : (l : Listener) → Step maximum l (record l { done = true })

abbrev pub new_listener : Listener
new_listener = record { slots = 0; done = false; stages = [] }

pub data Reach (maximum : ℕ) : Listener → Type 0 where
  start : Reach maximum new_listener
  next : {l m : Listener} → Reach maximum l → Step maximum l m → Reach maximum m

abbrev pub is_connected : Stage → Bool
is_connected accepting = false
is_connected connected = true
is_connected ended = false

abbrev pub is_accepting : Stage → Bool
is_accepting accepting = true
is_accepting connected = false
is_accepting ended = false

abbrev pub holds_slot : Stage → Bool
holds_slot accepting = true
holds_slot connected = true
holds_slot ended = false
