-- ===== src/Telemetry/Page.antt =====
-- internal/telemetry/telemetry.go, Page: reading the outbox from a cursor on.
pub mod Rest
pub mod Own
pub mod Drain
use Prim.Native.String.{len}
use gpuardian.Base.{
  ℕ, suc, ◌+◌, ◌-◌, String, ℤ, Bool, true, false, not, ◌&&◌, ◌||◌, List, [], ◌∷◌, Option, none,
  some, ◌==◌, nat_eq, string_eq, if◌then◌else◌, ltb, leb, is_empty, length, Result, ok, err,
  exceeds, is_negative,
}
use gpuardian.Telemetry.{
  Event, Outbox, bounds, behind, first_seq, last_seq, schema_version, default_page_limit,
  max_page_limit, max_page_bytes,
}

pub record Cursor : Type 0 where
  pub version : ℕ
  pub stream_id : String
  pub seq : ℕ

-- encoding/json in encoding/base64, on cursors.
pub record Codec : Type 0 where
  pub write : Cursor → String
  pub read : String → Option Cursor

abbrev pub max_cursor_bytes : ℕ
max_cursor_bytes = 512

abbrev pub encode_cursor : Codec → Cursor → String
encode_cursor codec c = codec.write c

abbrev pub if_named : Option Cursor → Option Cursor
if_named none = none
if_named (some c) = if is_empty c.stream_id then none else some c

unfoldable pub decode_cursor : Codec → String → Option Cursor
decode_cursor codec text =
    if ltb max_cursor_bytes (len text) then none else if_named (codec.read text)

pub record Page : Type 0 where
  pub node_id : String
  pub stream_id : String
  pub boot_id : String
  pub events : List Event
  pub next_cursor : String
  pub has_more : Bool
  pub earliest_seq : ℕ
  pub latest_seq : ℕ

pub data GapReason : Type 0 where
  stream_reset retention : GapReason

pub record Gap : Type 0 where
  pub reason : GapReason
  pub stream_id : String
  pub resume_cursor : String
  pub earliest_seq : ℕ
  pub latest_seq : ℕ
  pub first_retained_at : ℕ

pub data PageError : Type 0 where
  invalid_cursor : PageError
  gap : Gap → PageError

abbrev pub first_time : List Event → ℕ
first_time [] = 0
first_time (e ∷ es) = e.occurred_at

abbrev pub cursor_at : Outbox → ℕ → Cursor
cursor_at box seq = record { version = schema_version; stream_id = box.stream_id; seq = seq }

-- gapLocked. The number before the earliest one is 0 where there is no event.
unfoldable pub gap_at : Codec → Outbox → GapReason → Gap
gap_at codec box reason = record {
  reason = reason;
  stream_id = box.stream_id;
  resume_cursor = encode_cursor codec (cursor_at box (first_seq box.events - 1));
  earliest_seq = first_seq box.events;
  latest_seq = last_seq box.events;
  first_retained_at = first_time box.events;
}

unfoldable pub check_cursor : Codec → Outbox → Option Cursor → Result PageError ℕ
check_cursor codec box none = err invalid_cursor
check_cursor codec box (some c) =
    let (earliest, latest) = bounds box in
    if not (c.version == schema_version)
    then err invalid_cursor
    else if not (c.stream_id == box.stream_id)
    then err (gap (gap_at codec box stream_reset))
    else if ltb 0 latest && ltb latest c.seq
    then err invalid_cursor
    else if ltb 0 earliest && ltb (suc c.seq) earliest
    then err (gap (gap_at codec box retention))
    else ok c.seq

-- Where the page starts; without a cursor, before the earliest event.
unfoldable pub position_of : Codec → Outbox → String → Result PageError ℕ
position_of codec box encoded =
    if is_empty encoded
    then ok (first_seq box.events - 1)
    else check_cursor codec box (decode_cursor codec encoded)

abbrev pub size_of : Event → ℕ
size_of e = len e.payload + len e.kind + 160

-- The loop over the events: at most `limit` of them, while the page has room.
unfoldable pub fill : ℕ → ℕ → List Event → List Event
fill limit used [] = []
fill limit used (e ∷ es) =
    let more = fill (limit - 1) (used + size_of e) es in
    if leb limit 0 || ltb max_page_bytes (used + size_of e) then [] else e ∷ more

-- The last number read, which the next page goes on from.
abbrev pub last_read : ℕ → List Event → ℕ
last_read position [] = position
last_read position (e ∷ es) = last_read e.seq es

abbrev pub clamp_limit : ℤ → ℕ
clamp_limit (ℤ.pos n) =
    if n == 0 then default_page_limit else if ltb max_page_limit n then max_page_limit else n
clamp_limit (ℤ.negsuc n) = default_page_limit

unfoldable pub page_from : Codec → Outbox → ℕ → ℕ → Page
page_from codec box limit position =
    let events = fill limit 512 (behind position box.events) in
    let last = last_read position events in
    record {
      node_id = box.node_id;
      stream_id = box.stream_id;
      boot_id = box.boot_id;
      events = events;
      next_cursor = encode_cursor codec (cursor_at box last);
      has_more = ltb last (last_seq box.events);
      earliest_seq = first_seq box.events;
      latest_seq = last_seq box.events;
    }

abbrev pub on_position : Codec → Outbox → ℕ → Result PageError ℕ → Result PageError Page
on_position codec box limit (err e) = err e
on_position codec box limit (ok position) = ok (page_from codec box limit position)

unfoldable pub page : Codec → Outbox → String → ℤ → Result PageError Page
page codec box encoded limit =
    on_position codec box (clamp_limit limit) (position_of codec box encoded)
