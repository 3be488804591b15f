-- ===== src/Telemetry/Append/Stuck.antt =====
-- internal/telemetry/telemetry.go, rotateLocked: what follows where the next segment cannot be opened.
use Prim.Native.String.{len}
use gpuardian.Base.{
  ℕ, ◌≡◌, ◌≢◌, refl, ap, sym, ◌∙◌, subst, Bool, true, false, List, [], ◌∷◌, Option, none, some,
  arith, if◌then◌else◌, on_if, String, ◌||◌,
}
use gpuardian.Telemetry.{Event, Outbox, opened, closed}
use gpuardian.Telemetry.Append.{
  Item, Encoded, Io, AppendError, open_failed, write_failed, is_closed, encode_all, event_of,
  needs_rotation, sync_fails, close_fails, closed_of, rotate, rotate_if, take_event, write_event,
  append_line, append_one, onto_appended, append_items, append_encoded, append_batch, Appended,
}

-- Nothing was appended, an error came back, and the segment's file is closed.
record Refuses (box : Outbox) (r : Outbox × Option AppendError) : Type 0 where
  same : r.0.events ≡ box.events
  shut : r.0.current ≡ closed
  failed : r.1 ≢ none

rotate-Refuses :
    (io : Io) (unsynced : Bool) (box : Outbox)
    → box.current ≡ closed
    → Refuses box (rotate io unsynced box)
unfolding rotate
rotate-Refuses io unsynced box h =
    on_if (Refuses box) (sync_fails io unsynced box) _ _
      (λ _. record { same = refl; shut = h; failed = λ e. cc })
      (λ _.
        on_if (Refuses box) (close_fails io box) _ _
          (λ _. record { same = refl; shut = ap closed_of h; failed = λ e. cc })
          (λ no. absurd (ground (arith, no, h))))

write_event-Refuses :
    (io : Io) (e : Event) (size : ℕ) (box : Outbox) (r : Outbox × Option AppendError)
    → Refuses box r
    → Refuses box (write_event io e size r)
write_event-Refuses io e size box (box', some error) h = h
write_event-Refuses io e size box (box', none) h = absurd (h.failed refl)

write_closed-Refuses :
    (io : Io) (e : Event) (size : ℕ) (box : Outbox)
    → box.current ≡ closed
    → Refuses box (write_event io e size (box, none))
write_closed-Refuses io e size box h =
    on_if (Refuses box) (is_closed box.current || io.write_fault e.seq) (box, some write_failed)
      (take_event e size box, none) (λ _. record { same = refl; shut = h; failed = λ x. cc })
      (λ no. absurd (ground (arith, no, h)))

append_line-Refuses :
    (io : Io) (unsynced : Bool) (e : Event) (line : Option String) (box : Outbox)
    → box.current ≡ closed
    → Refuses box (append_line io unsynced e line box)
unfolding append_line rotate_if
append_line-Refuses io unsynced e none box h = record { same = refl; shut = h; failed = λ x. cc }
append_line-Refuses io unsynced e (some line) box h =
    on_if (λ (r : Outbox × Option AppendError). Refuses box (write_event io e (len line) r))
      (needs_rotation io.clock (len line) box) (rotate io unsynced box) (box, none)
      (λ _. write_event-Refuses io e (len line) box _ (rotate-Refuses io unsynced box h))
      (λ _. write_closed-Refuses io e (len line) box h)

-- The same for a batch.
record Loses (box : Outbox) (r : Appended) : Type 0 where
  same : r.0.events ≡ box.events
  shut : r.0.current ≡ closed

append_items-Loses :
    (io : Io) (unsynced : Bool) (item : Encoded) (items : List Encoded) (box : Outbox)
    → box.current ≡ closed
    → Loses box (append_items io unsynced (item ∷ items) box)
unfolding append_items append_one
append_items-Loses io unsynced item items box h =
    let e = event_of io.clock item box in
    go (append_line io unsynced e (io.line e) box)
      (append_line-Refuses io unsynced e (io.line e) box h)
  where
    go :
        (r : Outbox × Option AppendError)
        → Refuses box r
        → Loses box (elim r.1 [
          | some error ↦ (r.0, [], some error)
          | none ↦ onto_appended (event_of io.clock item box) (append_items io true items r.0)
        ])
    go (box', some error) k = record { same = k.same; shut = k.shut }
    go (box', none) k = absurd (k.failed refl)

append_encoded-Loses :
    (io : Io) (box : Outbox) (items : Option (List Encoded))
    → items ≢ some []
    → box.current ≡ closed
    → Loses box (append_encoded io box items)
unfolding append_encoded
append_encoded-Loses io box none n h = record { same = refl; shut = h }
append_encoded-Loses io box (some []) n h = absurd (n refl)
append_encoded-Loses io box (some (item ∷ items)) n h = append_items-Loses io false item items box h

encode_some : (item : Item) (items : List Item) → encode_all (item ∷ items) ≢ some []
unfolding encode_all
encode_some item items h = ground (arith, h)

append_batch-Loses :
    (io : Io) (items : List Item) (box : Outbox)
    → box.current ≡ closed
    → Loses box (append_batch io items box)
unfolding append_batch
append_batch-Loses io [] box h = record { same = refl; shut = h }
append_batch-Loses io (item ∷ items) box h =
    append_encoded-Loses io box (encode_all (item ∷ items)) (encode_some item items) h

-- Batches one after the other.
unfoldable pub append_all : List (Io × List Item) → Outbox → Outbox
append_all [] box = box
append_all ((io, items) ∷ rest) box = append_all rest (append_batch io items box).0

append_all_closed :
    (calls : List (Io × List Item)) (box : Outbox)
    → box.current ≡ closed
    → (append_all calls box).events ≡ box.events
unfolding append_all
append_all_closed [] box h = refl
append_all_closed ((io, items) ∷ calls) box h =
    let first = append_batch-Loses io items box h in
    append_all_closed calls (append_batch io items box).0 first.shut ∙ first.same

rotate_open_fault :
    (io : Io) (box : Outbox)
    → box.current ≡ opened
    → io.close_fault box.next_seq ≡ false
    → io.open_fault box.next_seq ≡ true
    → rotate io false box ≡ (record box { current = closed }, some open_failed)
unfolding rotate
rotate_open_fault io box o c f = ground (arith, o, c, f)

abbrev pub encoded : Item → String → Encoded
encoded item text = record { kind = item.kind; payload = text; occurred_at = item.occurred_at }

encode_one :
    (item : Item) (text : String)
    → item.payload ≡ some text
    → encode_all (item ∷ []) ≡ some (encoded item text ∷ [])
unfolding encode_all
encode_one item text p = ap (λ o. elim o [ none ↦ none | some t ↦ some (encoded item t ∷ []) ]) p

append_line_open_fault :
    (io : Io) (e : Event) (line : String) (box : Outbox)
    → box.current ≡ opened
    → needs_rotation io.clock (len line) box ≡ true
    → io.close_fault box.next_seq ≡ false
    → io.open_fault box.next_seq ≡ true
    → append_line io false e (some line) box ≡ (record box { current = closed }, some open_failed)
unfolding append_line rotate_if
append_line_open_fault io e line box o d c f =
    ap (write_event io e (len line))
      (ap (λ b. if b then rotate io false box else (box, none)) d ∙ rotate_open_fault io box o c f)

append_items_open_fault :
    (io : Io) (item : Encoded) (line : String) (box : Outbox)
    → box.current ≡ opened
    → io.line (event_of io.clock item box) ≡ some line
    → needs_rotation io.clock (len line) box ≡ true
    → io.close_fault box.next_seq ≡ false
    → io.open_fault box.next_seq ≡ true
    → append_items io false (item ∷ []) box
      ≡ (record box { current = closed }, [], some open_failed)
unfolding append_items append_one
append_items_open_fault io item line box o l d c f =
    let e = event_of io.clock item box in
    ap
      (λ (r : Outbox × Option AppendError). elim r.1 as (λ x. Appended) [
        | some error ↦ (r.0, [], some error)
        | none ↦ onto_appended e (append_items io true [] r.0)
      ])
      (ap (λ o. append_line io false e o box) l ∙ append_line_open_fault io e line box o d c f)

-- A segment is due, its file is closed, and the next one cannot be opened once: from then on every
-- batch is lost, whatever works again.
pub append_all_stuck :
    (io : Io) (item : Item) (text line : String) (box : Outbox) (calls : List (Io × List Item))
    → box.current ≡ opened
    → item.payload ≡ some text
    → io.line (event_of io.clock (encoded item text) box) ≡ some line
    → needs_rotation io.clock (len line) box ≡ true
    → io.close_fault box.next_seq ≡ false
    → io.open_fault box.next_seq ≡ true
    → (append_all calls (append_batch io (item ∷ []) box).0).events ≡ box.events
unfolding append_batch append_encoded
append_all_stuck io item text line box calls o p l d c f =
    let first =
      ap (append_encoded io box) (encode_one item text p)
      ∙ append_items_open_fault io (encoded item text) line box o l d c f in
    let shut = append_all_closed calls (record box { current = closed }) refl in
    subst (λ (r : Appended). (append_all calls r.0).events ≡ box.events) (sym first) shut
