-- ===== src/Witness/Streams.antt =====
-- The outbox and the listener, at concrete inputs.
use Prim.Native.String.{len, ◌++◌ as text_append}
use text.Mathlib.TextPositions.{len-append}
use gpuardian.Base.{
  ℕ, zero, suc, ◌+◌, ◌-◌, ◌≤◌, ◌≡◌, refl, ap, String, false, [], ◌∷◌, some, pos, ◌==◌, arith,
  is_empty, nat_eq, count_if,
}
use gpuardian.Telemetry.{Event, Outbox, opened, schema_version}
use gpuardian.Telemetry.Append.{Item, Io, append_batch}
use gpuardian.Telemetry.Append.Numbered.{Numbers, append_batch-Numbers}
use gpuardian.Telemetry.Append.Stuck.{append_all, append_all_stuck}
use gpuardian.Telemetry.Page.{Codec, cursor_at, encode_cursor}
use gpuardian.Telemetry.Page.Own.{IsFaithful}
use gpuardian.Telemetry.Page.Drain.{read_all, read_all-behind}
use gpuardian.Netlimit.{
  Listener, accepting, connected, is_connected, is_accepting, new_listener, Reach, start, next,
  begins, accepts,
}
use gpuardian.Netlimit.Slots.{Reach-IsBounded}

abbrev event : ℕ → Event
event n = record { seq = n; occurred_at = 1; boot_id = "b"; kind = "job.started"; payload = "{}" }

-- Two events are kept; the next one has the number 9.
abbrev filled : Outbox
filled = record {
  node_id = "n";
  stream_id = "s";
  boot_id = "b";
  next_seq = 9;
  events = event 7 ∷ event 8 ∷ [];
  segments = [];
  total_bytes = 0;
  current = opened;
}

-- The file of the next segment cannot be opened while the number is `n`.
abbrev failing_at : ℕ → Io
failing_at n = record {
  clock = 3;
  line = λ e. some "{}";
  write_fault = λ k. false;
  sync_fault = λ k. false;
  close_fault = λ k. false;
  open_fault = λ k. k == n;
}

abbrev item : Item
item = record { kind = "gpu.sample"; payload = some "{}"; occurred_at = 0 }

append_batch-Numbers_example :
    Numbers filled (append_batch (failing_at 0) (item ∷ item ∷ []) filled)
append_batch-Numbers_example =
    append_batch-Numbers (failing_at 0) (item ∷ item ∷ []) filled (7, (refl, (refl, refl)))
      (omega arith)

append_all_stuck_example :
    (append_all
      ((failing_at 0, item ∷ []) ∷ [])
      (append_batch (failing_at 9) (item ∷ []) filled).0).events
    ≡ event 7 ∷ event 8 ∷ []
append_all_stuck_example =
    append_all_stuck (failing_at 9) item "{}" "{}" filled ((failing_at 0, item ∷ []) ∷ []) refl refl
      refl refl refl refl

-- A cursor as a text whose length tells its number.
unfoldable stars : ℕ → String
stars zero = "*"
stars (suc n) = text_append "*" (stars n)

len-stars : (n : ℕ) → len (stars n) ≡ suc n
unfolding stars
len-stars zero = refl
len-stars (suc n) = omega (arith, len-append "*" (stars n), len-stars n)

solid_of : (s : String) (n : ℕ) → len s ≡ suc n → is_empty s ≡ false
solid_of String.[] n e = absurd (omega (arith, e))
solid_of (String.◌∷◌ c s) n e = refl

stars_solid : (n : ℕ) → is_empty (stars n) ≡ false
stars_solid n = solid_of (stars n) n (len-stars n)

abbrev starry : Codec
starry = record {
  write = λ c. stars c.seq;
  read = λ text. some (record { version = schema_version; stream_id = "s"; seq = len text - 1 });
}

starry-IsFaithful : IsFaithful starry filled
starry-IsFaithful = record {
  named = refl;
  back = λ p _.
      let number : len (stars p) - 1 ≡ p = omega (arith, len-stars p) in
      ap (λ n. some (cursor_at filled n)) number;
  solid = λ p _. stars_solid p;
  short = λ p r. omega (arith, len-stars p, r);
}

read_all-behind_example :
    read_all starry filled (pos 1) 2 (encode_cursor starry (cursor_at filled 7))
    ≡ some (event 8 ∷ [])
read_all-behind_example =
    read_all-behind starry filled (pos 1) 2 7 7 starry-IsFaithful (refl, (refl, refl)) (omega arith)
      (omega arith) (omega arith, tt) (omega arith)

abbrev waiting : Listener
waiting = record { slots = 1; done = false; stages = accepting ∷ [] }

abbrev serving : Listener
serving = record { slots = 1; done = false; stages = connected ∷ [] }

serving_reached : Reach 2 serving
serving_reached = next (next start (begins new_listener (omega arith))) (accepts waiting 0 refl)

Reach-IsBounded_example :
    (count_if is_connected serving.stages ≤ 2)
    × (serving.slots ≡ count_if is_connected serving.stages + count_if is_accepting serving.stages)
Reach-IsBounded_example = Reach-IsBounded 2 serving serving_reached
