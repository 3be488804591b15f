-- ===== src/Telemetry/Append.antt =====
-- internal/telemetry/telemetry.go, AppendBatch: numbering events and writing them to segments.
pub mod Numbered
pub mod Stuck
use Prim.Native.String.{len}
use gpuardian.Base.{
  ℕ, suc, ◌+◌, ◌-◌, String, Bool, true, false, not, ◌&&◌, ◌||◌, List, [], ◌∷◌, ◌++◌, Option, none,
  some, ◌==◌, nat_eq, if◌then◌else◌, ltb, leb,
}
use gpuardian.Telemetry.{
  Event, Segment, Outbox, Handle, absent, opened, closed, max_segment_bytes, max_segment_age,
  next_number, prune,
}

-- The payload in JSON, where it can be encoded.
pub record Item : Type 0 where
  pub kind : String
  pub payload : Option String
  pub occurred_at : ℕ

-- An item whose payload is encoded.
pub record Encoded : Type 0 where
  pub kind : String
  pub payload : String
  pub occurred_at : ℕ

-- What one call meets: the clock, the line of an event with its newline (encoding/json), and at which
-- numbers a write, a sync, the close of a segment or the open of the next one fails.
pub record Io : Type 0 where
  pub clock : ℕ
  pub line : Event → Option String
  pub write_fault : ℕ → Bool
  pub sync_fault : ℕ → Bool
  pub close_fault : ℕ → Bool
  pub open_fault : ℕ → Bool

pub data AppendError : Type 0 where
  payload_unencoded event_unencoded write_failed sync_failed close_failed open_failed : AppendError

-- json.Marshal of every payload, before anything is appended.
unfoldable pub encode_all : List Item → Option (List Encoded)
encode_all [] = some []
encode_all (item ∷ items) = elim item.payload [
  | none ↦ none
  | some text ↦ elim (encode_all items) [
    | none ↦ none
    | some rest ↦
        some (record { kind = item.kind; payload = text; occurred_at = item.occurred_at } ∷ rest)
  ]
]

abbrev pub event_of : ℕ → Encoded → Outbox → Event
event_of clock item box = record {
  seq = box.next_seq;
  occurred_at = if item.occurred_at == 0 then clock else item.occurred_at;
  boot_id = box.boot_id;
  kind = item.kind;
  payload = item.payload;
}

-- Whether the event does not go to the last segment.
abbrev pub is_full : ℕ → ℕ → List Segment → Bool
is_full clock size [] = true
is_full clock size (s ∷ []) =
    ltb max_segment_bytes (s.size + size) || leb (s.created + max_segment_age) clock
is_full clock size (s ∷ t ∷ ss) = is_full clock size (t ∷ ss)

abbrev pub is_absent : Handle → Bool
is_absent absent = true
is_absent opened = false
is_absent closed = false

abbrev pub is_closed : Handle → Bool
is_closed absent = false
is_closed opened = false
is_closed closed = true

abbrev pub needs_rotation : ℕ → ℕ → Outbox → Bool
needs_rotation clock size box = is_absent box.current || is_full clock size box.segments

abbrev pub new_segment : ℕ → ℕ → Segment
new_segment first clock = record {
  path = first;
  first = first;
  last = 0;
  size = 0;
  created = clock;
  last_at = 0;
}

-- syncIfLocked: a closed file cannot be synced.
abbrev pub sync_fails : Io → Bool → Outbox → Bool
sync_fails io unsynced box =
    unsynced && not (is_absent box.current) && (is_closed box.current || io.sync_fault box.next_seq)

-- The close in rotateLocked: a closed file cannot be closed.
abbrev pub close_fails : Io → Outbox → Bool
close_fails io box =
    not (is_absent box.current) && (is_closed box.current || io.close_fault box.next_seq)

abbrev pub closed_of : Handle → Handle
closed_of absent = absent
closed_of opened = closed
closed_of closed = closed

-- The sync before a rotation, and rotateLocked. A close that fails leaves a closed file too, and
-- where the next file cannot be opened, the closed one stays.
unfoldable pub rotate : Io → Bool → Outbox → Outbox × Option AppendError
rotate io unsynced box =
    let seq = box.next_seq in
    if sync_fails io unsynced box
    then (box, some sync_failed)
    else if close_fails io box
    then (record box { current = closed_of box.current }, some close_failed)
    else if io.open_fault seq
    then (record box { current = closed_of box.current }, some open_failed)
    else (
      record box { current = opened; segments = box.segments ++ new_segment seq io.clock ∷ [] },
      none,
    )

unfoldable pub rotate_if : Io → Bool → ℕ → Outbox → Outbox × Option AppendError
rotate_if io unsynced size box =
    if needs_rotation io.clock size box then rotate io unsynced box else (box, none)

-- The last segment takes the event.
abbrev pub extend_last : Event → ℕ → List Segment → List Segment
extend_last e size [] = []
extend_last e size (s ∷ []) =
    record s { last = e.seq; size = s.size + size; last_at = e.occurred_at } ∷ []
extend_last e size (s ∷ t ∷ ss) = s ∷ extend_last e size (t ∷ ss)

abbrev pub take_event : Event → ℕ → Outbox → Outbox
take_event e size box = record box {
  segments = extend_last e size box.segments;
  total_bytes = box.total_bytes + size;
  events = box.events ++ e ∷ [];
  next_seq = next_number box.next_seq;
}

abbrev pub write_event : Io → Event → ℕ → Outbox × Option AppendError → Outbox × Option AppendError
write_event io e size (box, some error) = (box, some error)
write_event io e size (box, none) =
    if is_closed box.current || io.write_fault e.seq
    then (box, some write_failed)
    else (take_event e size box, none)

unfoldable pub append_line :
    Io → Bool → Event → Option String → Outbox → Outbox × Option AppendError
append_line io unsynced e none box = (box, some event_unencoded)
append_line io unsynced e (some line) box =
    write_event io e (len line) (rotate_if io unsynced (len line) box)

unfoldable pub append_one : Io → Bool → Encoded → Outbox → Outbox × Option AppendError
append_one io unsynced item box =
    let e = event_of io.clock item box in append_line io unsynced e (io.line e) box

-- The outbox, the events appended so far, and the error of the call.
abbrev pub Appended : Type 0
Appended = Outbox × List Event × Option AppendError

abbrev pub onto_appended : Event → Appended → Appended
onto_appended e (box, es, error) = (box, e ∷ es, error)

-- Behind the loop: the sync of the batch, and the pruning.
unfoldable pub finish_batch : Io → Bool → Outbox → Appended
finish_batch io unsynced box =
    if sync_fails io unsynced box
    then (box, [], some sync_failed)
    else (prune io.clock box, [], none)

unfoldable pub append_items : Io → Bool → List Encoded → Outbox → Appended
append_items io unsynced [] box = finish_batch io unsynced box
append_items io unsynced (item ∷ items) box =
    let (box', failure) = append_one io unsynced item box in
    elim failure [
      | some error ↦ (box', [], some error)
      | none ↦ onto_appended (event_of io.clock item box) (append_items io true items box')
    ]

unfoldable pub append_encoded : Io → Outbox → Option (List Encoded) → Appended
append_encoded io box none = (box, [], some payload_unencoded)
append_encoded io box (some items) = append_items io false items box

unfoldable pub append_batch : Io → List Item → Outbox → Appended
append_batch io [] box = (box, [], none)
append_batch io (item ∷ items) box = append_encoded io box (encode_all (item ∷ items))
