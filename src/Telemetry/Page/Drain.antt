-- ===== src/Telemetry/Page/Drain.antt =====
-- internal/telemetry/telemetry.go, Page: a reader that goes on from each page's cursor gets every event
-- behind its position once and in order, and comes to an end.
use mathlib.Core.Option
use mathlib.Core.List.{append-nil}
use gpuardian.Base.{
  ℕ, zero, suc, ◌≤◌, ◌<◌, ◌≡◌, refl, ap, sym, subst, ◌∙◌, Bool, true, false, String, List, [], ◌∷◌,
  ◌++◌, arith, if◌then◌else◌, ltb, length, length-append, All, ℤ, Option, none, some, Result, ok,
  err,
}
use gpuardian.Telemetry.{Event, Outbox, behind, last_seq}
use gpuardian.Telemetry.Append.Numbered.{Chained}
use gpuardian.Telemetry.Page.{
  Codec, encode_cursor, Page, cursor_at, fill, last_read, page_from, page, clamp_limit, PageError,
}
use gpuardian.Telemetry.Page.Rest.{
  FitsPage, last_seq-Chained, Chained-le, is_none, has_more_lem, page-Splits, fill_nonempty,
}
use gpuardian.Telemetry.Page.Own.{IsFaithful, page_own}

-- A reader's loop, with fuel: pages from a cursor on until one says that there is no more. `none`
-- where a request is refused or the fuel runs out.
pub read_all : Codec → Outbox → ℤ → ℕ → String → Option (List Event)
read_all codec box limit zero cursor = none
read_all codec box limit (suc fuel) cursor = elim (page codec box cursor limit) [
  | err e ↦ none
  | ok p ↦
      let more = read_all codec box limit fuel p.next_cursor in
      if p.has_more then Option.map (λ es. p.events ++ es) more else some p.events
]

one_at_least : (limit : ℤ) → 1 ≤ clamp_limit limit
one_at_least (ℤ.pos n) = ground arith
one_at_least (ℤ.negsuc n) = omega arith

-- What is left behind the first page is shorter, if the page holds something.
shorter :
    (page rest found : List Event)
    → found ≡ page ++ rest
    → is_none page ≡ is_none found
    → is_none rest ≡ false
    → length rest < length found
shorter [] [] found e s n = cc
shorter [] (x ∷ rest) found e s n = cc (s, e)
shorter (y ∷ page) rest found e s n =
    let sizes = ap length e in omega (arith, sizes, length-append page rest)

more_at :
    (a last next : ℕ) (events rest : List Event)
    → Chained a events next
    → Chained (suc last) rest next
    → behind last events ≡ rest
    → ltb last (last_seq events) ≡ (if is_none rest then false else true)
more_at a last next [] rest h k e = rw (ap is_none (sym e)) (ground arith)
more_at a last next (x ∷ events) rest h k e =
    has_more_lem last (last_seq (x ∷ events)) next rest k (last_seq-Chained a next x events h)

abbrev continued : List Event → Bool → Option (List Event) → Option (List Event)
continued es more rest = if more then Option.map (λ xs. es ++ xs) rest else some es

joined_up :
    (es rest found : List Event) (again : Option (List Event))
    → found ≡ es ++ rest
    → (is_none rest ≡ false → again ≡ some rest)
    → continued es (if is_none rest then false else true) again ≡ some found
joined_up es [] found again e k = ap (λ xs. some xs) (sym (e ∙ append-nil es))
joined_up es (x ∷ rest) found again e k =
    ap (Option.map (λ xs. es ++ xs)) (k refl) ∙ ap (λ xs. some xs) (sym e)

All-right : (P : Event → Type 0) (xs ys : List Event) → All P (xs ++ ys) → All P ys
All-right P [] ys h = h
All-right P (x ∷ xs) ys h = All-right P xs ys h.1

-- A reader that takes a page and goes on from its cursor while there is more: started at a position
-- that is neither lost nor ahead, it gets the events behind it, each once and in order, and it ends
-- within as many pages as there are events and one, provided that each event fits a page, that the
-- stream's id is not empty, and that the cursors of the numbers that it has given, each a text of at
-- most 512 bytes that is not empty, are read back from their text.
pub read_all-behind :
    (codec : Codec) (box : Outbox) (limit : ℤ) (fuel a p : ℕ)
    → IsFaithful codec box
    → Chained a box.events box.next_seq
    → a ≤ suc p
    → suc p ≤ box.next_seq
    → All FitsPage (behind p box.events)
    → length (behind p box.events) < fuel
    → read_all codec box limit fuel (encode_cursor codec (cursor_at box p))
      ≡ some (behind p box.events)
unfolding read_all page_from
read_all-behind codec box limit zero a p f h l r fit n = absurd (omega (arith, n))
read_all-behind codec box limit (suc fuel) a p f h l r fit n =
    let found = behind p box.events in
    let (rest, s) = page-Splits box (clamp_limit limit) a p h l r in
    let es = fill (clamp_limit limit) 512 found in
    let last = last_read p es in
    let more = more_at a last box.next_seq box.events rest h s.onward s.left in
    let next = encode_cursor codec (cursor_at box last) in
    ap
      (λ (x : Result PageError Page). elim x as (λ y. Option (List Event)) [
        | err e ↦ none
        | ok q ↦ continued q.events q.has_more (read_all codec box limit fuel q.next_cursor)
      ])
      (page_own codec box limit a p f h l r)
    ∙ ap (λ b. continued es b (read_all codec box limit fuel next)) more
    ∙ joined_up es rest found (read_all codec box limit fuel next) s.parts λ left.
      let fewer =
        shorter es rest found s.parts
          (fill_nonempty (clamp_limit limit) found (one_at_least limit) fit) left in
      let end = Chained-le (suc last) box.next_seq rest s.onward in
      let fits_rest = All-right FitsPage es rest (subst (All FitsPage) s.parts fit) in
      read_all-behind codec box limit fuel a last f h (let on = s.forward in omega (arith, l, on))
        end (subst (All FitsPage) (sym s.left) fits_rest)
        (subst (λ xs. length xs < fuel) (sym s.left) (omega (arith, fewer, n)))
      ∙ ap (λ xs. some xs) s.left
