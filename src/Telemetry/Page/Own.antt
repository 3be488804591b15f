-- ===== src/Telemetry/Page/Own.antt =====
-- internal/telemetry/telemetry.go: a cursor of the outbox itself is accepted.
use Prim.Native.String.{len}
use gpuardian.Base.{
  ℕ, suc, ◌≤◌, ◌≡◌, refl, false, List, [], ◌∷◌, arith, ltb, ◌&&◌, ==_refl, ℤ, some, is_empty, ok,
}
use gpuardian.Telemetry.{Event, Outbox, first_seq, last_seq}
use gpuardian.Telemetry.Append.Numbered.{Chained}
use gpuardian.Telemetry.Page.{
  Codec, encode_cursor, decode_cursor, Page, cursor_at, page_from, page, check_cursor, position_of,
  clamp_limit,
}
use gpuardian.Telemetry.Page.Rest.{last_seq-Chained, and_false}

not_ahead :
    (a b p : ℕ) (es : List Event)
    → Chained a es b
    → suc p ≤ b
    → (ltb 0 (last_seq es) && ltb (last_seq es) p) ≡ false
not_ahead a b p [] h r = refl
not_ahead a b p (e ∷ es) h r =
    let latest = last_seq-Chained a b e es h in
    let kept : ltb (last_seq (e ∷ es)) p ≡ false = ground (arith, latest, r) in
    rw kept (and_false (ltb 0 (last_seq (e ∷ es))))

not_lost :
    (a b p : ℕ) (es : List Event)
    → Chained a es b
    → a ≤ suc p
    → (ltb 0 (first_seq es) && ltb (suc p) (first_seq es)) ≡ false
not_lost a b p [] h l = refl
not_lost a b p (e ∷ es) h l = let at = h.0 in ground (arith, at, l)

check_cursor_own :
    (codec : Codec) (box : Outbox) (a p : ℕ)
    → Chained a box.events box.next_seq
    → a ≤ suc p
    → suc p ≤ box.next_seq
    → check_cursor codec box (some (cursor_at box p)) ≡ ok p
unfolding check_cursor
check_cursor_own codec box a p h l r =
    let ahead = not_ahead a box.next_seq p box.events h r in
    let lost = not_lost a box.next_seq p box.events h l in
    rw (==_refl box.stream_id) (rw ahead (rw lost refl))

-- The outbox's stream has an id, and its cursors of numbers that it has given are read back, are not
-- the empty text and are short enough to be taken.
pub record IsFaithful (codec : Codec) (box : Outbox) : Type 0 where
  pub named : is_empty box.stream_id ≡ false
  pub back :
      (p : ℕ)
      → suc p ≤ box.next_seq
      → codec.read (encode_cursor codec (cursor_at box p)) ≡ some (cursor_at box p)
  pub solid :
      (p : ℕ) → suc p ≤ box.next_seq → is_empty (encode_cursor codec (cursor_at box p)) ≡ false
  pub short : (p : ℕ) → suc p ≤ box.next_seq → len (encode_cursor codec (cursor_at box p)) ≤ 512

decode_cursor_own :
    (codec : Codec) (box : Outbox) (p : ℕ)
    → IsFaithful codec box
    → suc p ≤ box.next_seq
    → decode_cursor codec (encode_cursor codec (cursor_at box p)) ≡ some (cursor_at box p)
unfolding decode_cursor
decode_cursor_own codec box p f r =
    let fits : ltb 512 (len (encode_cursor codec (cursor_at box p))) ≡ false =
      let size = f.short p r in ground (arith, size) in
    rw fits (rw (f.back p r) (rw f.named refl))

abbrev pub whole_page : Codec → Outbox → ℤ → ℕ → Page
whole_page codec box limit p = page_from codec box (clamp_limit limit) p

pub page_own :
    (codec : Codec) (box : Outbox) (limit : ℤ) (a p : ℕ)
    → IsFaithful codec box
    → Chained a box.events box.next_seq
    → a ≤ suc p
    → suc p ≤ box.next_seq
    → page codec box (encode_cursor codec (cursor_at box p)) limit
      ≡ ok (whole_page codec box limit p)
unfolding page position_of
page_own codec box limit a p f h l r =
    let solid = f.solid p r in
    let back = decode_cursor_own codec box p f r in
    rw solid (rw back (rw (check_cursor_own codec box a p h l r) refl))
