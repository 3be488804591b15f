-- ===== src/Telemetry.antt =====
-- internal/telemetry/telemetry.go: the outbox of a node's events, which the gateway reads in pages.
pub mod Append
pub mod Page
use gpuardian.Base.{
  ℕ, suc, ◌+◌, ◌-◌, ◌*◌, String, Bool, true, false, not, ◌&&◌, ◌||◌, List, [], ◌∷◌, ◌++◌, Option,
  none, some, ◌==◌, nat_eq, if◌then◌else◌, ltb, leb,
}

pub record Event : Type 0 where
  pub seq : ℕ
  pub occurred_at : ℕ
  pub boot_id : String
  pub kind : String
  pub payload : String

-- A segment's path is the number in its name, the first sequence number.
pub record Segment : Type 0 where
  pub path : ℕ
  pub first : ℕ
  pub last : ℕ
  pub size : ℕ
  pub created : ℕ
  pub last_at : ℕ

-- `o.current`: no file yet, an open file, or one that has been closed and not replaced.
pub data Handle : Type 0 where
  absent opened closed : Handle

pub record Outbox : Type 0 where
  pub node_id : String
  pub stream_id : String
  pub boot_id : String
  pub next_seq : ℕ
  pub events : List Event
  pub segments : List Segment
  pub total_bytes : ℕ
  pub current : Handle

abbrev pub schema_version : ℕ
schema_version = 1

abbrev pub default_page_limit : ℕ
default_page_limit = 128

abbrev pub max_page_limit : ℕ
max_page_limit = 256

abbrev pub max_page_bytes : ℕ
max_page_bytes = 1_048_576

abbrev pub max_segment_bytes : ℕ
max_segment_bytes = 8_388_608

abbrev pub max_segment_age : ℕ
max_segment_age = 3_600_000_000_000

abbrev pub max_outbox_bytes : ℕ
max_outbox_bytes = 268_435_456

abbrev pub max_retention : ℕ
max_retention = 86_400_000_000_000

-- The number behind a uint64.
abbrev pub next_number : ℕ → ℕ
next_number n = if n == 18_446_744_073_709_551_615 then 0 else suc n

abbrev pub first_seq : List Event → ℕ
first_seq [] = 0
first_seq (e ∷ es) = e.seq

abbrev pub last_seq : List Event → ℕ
last_seq [] = 0
last_seq (e ∷ []) = e.seq
last_seq (e ∷ f ∷ es) = last_seq (f ∷ es)

-- boundsLocked
abbrev pub bounds : Outbox → ℕ × ℕ
bounds box = (first_seq box.events, last_seq box.events)

-- `events[cut:]` for the first place behind a number. The events are ordered, so that the search of
-- the source finds the place at which this stops.
abbrev pub behind : ℕ → List Event → List Event
behind position [] = []
behind position (e ∷ es) = if ltb position e.seq then e ∷ es else behind position es

-- The time of a segment's last event, or of its file.
abbrev pub last_time : Segment → ℕ
last_time s = if s.last_at == 0 then s.created else s.last_at

-- Whether the segment may stay: the budget is kept, and its last event is recent.
abbrev pub may_stay : ℕ → Segment → Outbox → Bool
may_stay now s box =
    leb box.total_bytes max_outbox_bytes && not (ltb (last_time s + max_retention) now)

abbrev pub without_segment : Segment → Outbox → Outbox
without_segment s box = record box {
  total_bytes = box.total_bytes - s.size;
  events = behind s.last box.events;
}

-- pruneLocked: whole segments from the front, never the last one.
unfoldable pub prune_segments : ℕ → List Segment → Outbox → Outbox
prune_segments now [] box = record box { segments = [] }
prune_segments now (s ∷ []) box = record box { segments = s ∷ [] }
prune_segments now (s ∷ t ∷ ss) box =
    let rest = prune_segments now (t ∷ ss) (without_segment s box) in
    if may_stay now s box then record box { segments = s ∷ t ∷ ss } else rest

unfoldable pub prune : ℕ → Outbox → Outbox
prune now box = prune_segments now box.segments box
