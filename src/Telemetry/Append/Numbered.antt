-- ===== src/Telemetry/Append/Numbered.antt =====
-- internal/telemetry/telemetry.go: the events of the outbox have consecutive numbers, and the next one
-- is free, whatever fails on the way.
use Prim.Native.String.{len}
use gpuardian.Base.{
  ℕ, suc, ◌+◌, ◌<◌, ◌≡◌, refl, ap, sym, subst, ◌∙◌, Bool, true, false, String, List, [], ◌∷◌, ◌++◌,
  Option, none, some, arith, on_if, ltb, length, OnSome, ◌||◌, Bool-cases, inl, inr,
}
use gpuardian.Telemetry.{
  Event, Segment, Outbox, next_number, behind, prune, prune_segments, may_stay, without_segment,
}
use gpuardian.Telemetry.Append.{
  Item, Encoded, Io, AppendError, encode_all, event_of, sync_fails, is_closed, rotate, rotate_if,
  write_event, append_line, append_one, onto_appended, finish_batch, append_items, append_encoded,
  append_batch, Appended,
}

-- The events with the numbers from `a` on, up to but without `b`.
abbrev pub Chained : ℕ → List Event → ℕ → Type 0
Chained a [] b = a ≡ b
Chained a (e ∷ es) b = (e.seq ≡ a) × Chained (suc a) es b

-- The events of the outbox end where the next one begins.
abbrev pub IsNumbered : Outbox → Type 0
IsNumbered box = (a : ℕ) × Chained a box.events box.next_seq

Chained-snoc :
    (a b : ℕ) (es : List Event) (e : Event)
    → Chained a es b
    → e.seq ≡ b
    → Chained a (es ++ e ∷ []) (suc b)
Chained-snoc a b [] e h s = (s ∙ sym h, ap (λ n. suc n) h)
Chained-snoc a b (x ∷ es) e h s = (h.0, Chained-snoc (suc a) b es e h.1 s)

-- What is behind a number is chained too.
pub behind-Chained :
    (p a b : ℕ) (es : List Event) → Chained a es b → (c : ℕ) × Chained c (behind p es) b
behind-Chained p a b [] h = (a, h)
behind-Chained p a b (e ∷ es) h = elim (Bool-cases (ltb p e.seq)) [
  | inl t ↦ (a, rw t h)
  | inr t ↦ let (c, k) = behind-Chained p (suc a) b es h.1 in (c, rw t k)
]

prune_segments-IsNumbered :
    (now : ℕ) (ss : List Segment) (box : Outbox)
    → IsNumbered box
    → IsNumbered (prune_segments now ss box) × ((prune_segments now ss box).next_seq ≡ box.next_seq)
unfolding prune_segments
prune_segments-IsNumbered now [] box h = (h, refl)
prune_segments-IsNumbered now (s ∷ []) box h = (h, refl)
prune_segments-IsNumbered now (s ∷ t ∷ ss) box h =
    on_if (λ (r : Outbox). IsNumbered r × (r.next_seq ≡ box.next_seq)) (may_stay now s box)
      (record box { segments = s ∷ t ∷ ss }) (prune_segments now (t ∷ ss) (without_segment s box))
      (λ _. (h, refl))
      (λ _.
        prune_segments-IsNumbered now (t ∷ ss) (without_segment s box)
          (behind-Chained s.last h.0 box.next_seq box.events h.1))

-- How one event leaves the outbox: nothing was appended, or the event with the next number.
record Advances (box : Outbox) (e : Event) (r : Outbox × Option AppendError) : Type 0 where
  failed :
      (error : AppendError)
      → r.1 ≡ some error
      → (r.0.events ≡ box.events) × (r.0.next_seq ≡ box.next_seq)
  passed :
      r.1 ≡ none → (r.0.events ≡ box.events ++ e ∷ []) × (r.0.next_seq ≡ next_number box.next_seq)

-- Rotating touches neither the events nor the next number.
Stays : Outbox → Outbox × Option AppendError → Type 0
Stays box r = (r.0.events ≡ box.events) × (r.0.next_seq ≡ box.next_seq)

rotate_if-Stays :
    (io : Io) (unsynced : Bool) (size : ℕ) (box : Outbox)
    → Stays box (rotate_if io unsynced size box)
unfolding Stays rotate_if rotate
rotate_if-Stays io unsynced size box = ground arith

write_event-Advances :
    (io : Io) (box : Outbox) (e : Event) (size : ℕ) (r : Outbox × Option AppendError)
    → Stays box r
    → Advances box e (write_event io e size r)
unfolding Stays
write_event-Advances io box e size (box', some error) h = record {
  failed = λ x p. h;
  passed = λ p. cc;
}
write_event-Advances io box e size (box', none) h =
    on_if (Advances box e) (is_closed box'.current || io.write_fault e.seq) _ _
      (λ _. record { failed = λ x p. h; passed = λ p. cc })
      (λ _. record {
        failed = λ x p. cc;
        passed = λ p. (ap (λ es. es ++ e ∷ []) h.0, ap next_number h.1);
      })

append_line-Advances :
    (io : Io) (unsynced : Bool) (box : Outbox) (e : Event) (line : Option String)
    → Advances box e (append_line io unsynced e line box)
unfolding append_line
append_line-Advances io unsynced box e none = record {
  failed = λ x p. (refl, refl);
  passed = λ p. cc;
}
append_line-Advances io unsynced box e (some line) =
    write_event-Advances io box e (len line) _ (rotate_if-Stays io unsynced (len line) box)

-- What a batch leaves: the outbox is numbered, and the appended events have the numbers from the old
-- next one up to the new one.
pub record Numbers (box : Outbox) (r : Appended) : Type 0 where
  pub numbered : IsNumbered r.0
  pub given : Chained box.next_seq r.1 r.0.next_seq

next_number_below : (n : ℕ) → n < 18_446_744_073_709_551_615 → next_number n ≡ suc n
next_number_below n h = ground arith

finish_batch-Numbers :
    (io : Io) (unsynced : Bool) (box : Outbox)
    → IsNumbered box
    → Numbers box (finish_batch io unsynced box)
unfolding finish_batch prune
finish_batch-Numbers io unsynced box h =
    on_if (Numbers box) (sync_fails io unsynced box) _ _
      (λ _. record { numbered = h; given = refl })
      (λ _.
        let (pruned, same) = prune_segments-IsNumbered io.clock box.segments box h in
        record { numbered = pruned; given = sym same })

onto_appended-Numbers :
    (box box' : Outbox) (e : Event) (r : Appended)
    → e.seq ≡ box.next_seq
    → box'.next_seq ≡ suc box.next_seq
    → Numbers box' r
    → Numbers box (onto_appended e r)
onto_appended-Numbers box box' e (b, es, error) q n k = record {
  numbered = k.numbered;
  given = (q, subst (λ c. Chained c es b.next_seq) n k.given);
}

append_items-Numbers :
    (io : Io) (unsynced : Bool) (items : List Encoded) (box : Outbox)
    → IsNumbered box
    → box.next_seq + length items < 18_446_744_073_709_551_616
    → Numbers box (append_items io unsynced items box)
unfolding append_items append_one
append_items-Numbers io unsynced [] box h room = finish_batch-Numbers io unsynced box h
append_items-Numbers io unsynced (item ∷ items) box h room =
    let e = event_of io.clock item box in
    go (append_line io unsynced e (io.line e) box)
      (append_line-Advances io unsynced box e (io.line e))
      (λ box' n k. append_items-Numbers io true items box' n k)
  where
    go :
        (r : Outbox × Option AppendError)
        → Advances box (event_of io.clock item box) r
        → ((box' : Outbox)
            → IsNumbered box'
            → box'.next_seq + length items < 18_446_744_073_709_551_616
            → Numbers box' (append_items io true items box'))
        → Numbers box (elim r.1 [
          | some error ↦ (r.0, [], some error)
          | none ↦ onto_appended (event_of io.clock item box) (append_items io true items r.0)
        ])
    go (box', some error) a again =
        let (es, n) = a.failed error refl in
        record {
          numbered =
              subst (λ (x : List Event × ℕ). (c : ℕ) × Chained c x.0 x.1) (λ i. (sym es i, sym n i))
                h;
          given = sym n;
        }
    go (box', none) a again =
        let (es, n) = a.passed refl in
        let grown = next_number_below box.next_seq (omega (arith, room)) in
        let n' = n ∙ grown in
        let rest =
          again box'
            (subst (λ (x : List Event × ℕ). (c : ℕ) × Chained c x.0 x.1) (λ i. (sym es i, sym n' i))
              (h.0, Chained-snoc h.0 box.next_seq box.events _ h.1 refl))
            (omega (arith, n', room)) in
        onto_appended-Numbers box box' (event_of io.clock item box)
          (append_items io true items box') refl n' rest

length-encode_all : (items : List Item) → OnSome (λ es. length es ≡ length items) (encode_all items)
unfolding encode_all
length-encode_all [] = refl
length-encode_all (item ∷ items) = go item.payload (encode_all items) (length-encode_all items)
  where
    go :
        (p : Option String) (o : Option (List Encoded))
        → OnSome (λ es. length es ≡ length items) o
        → OnSome
            (λ es. length es ≡ suc (length items))
            (elim p [
              | none ↦ none
              | some text ↦ elim o [
                | none ↦ none
                | some rest ↦ some (
                    record { kind = item.kind; payload = text; occurred_at = item.occurred_at }
                    ∷ rest)
              ]
            ])
    go none o h = tt
    go (some text) none h = tt
    go (some text) (some es) h = ap (λ n. suc n) h

append_encoded-Numbers :
    (io : Io) (n : ℕ) (box : Outbox) (items : Option (List Encoded))
    → OnSome (λ es. length es ≡ n) items
    → IsNumbered box
    → box.next_seq + n < 18_446_744_073_709_551_616
    → Numbers box (append_encoded io box items)
unfolding append_encoded
append_encoded-Numbers io n box none l h room = record { numbered = h; given = refl }
append_encoded-Numbers io n box (some items) l h room =
    append_items-Numbers io false items box h (omega (arith, l, room))

-- A batch that fits below 2 ^ 64, whatever fails on the way: the outbox still holds consecutive
-- numbers that end before the next one, and the events that were appended have the numbers from the
-- old next one up to the new one, so that no number is given twice and none is left out.
pub append_batch-Numbers :
    (io : Io) (items : List Item) (box : Outbox)
    → IsNumbered box
    → box.next_seq + length items < 18_446_744_073_709_551_616
    → Numbers box (append_batch io items box)
unfolding append_batch
append_batch-Numbers io [] box h room = record { numbered = h; given = refl }
append_batch-Numbers io (item ∷ items) box h room =
    append_encoded-Numbers io (length (item ∷ items)) box (encode_all (item ∷ items))
      (length-encode_all (item ∷ items)) h room
