-- ===== src/Telemetry/Page/Rest.antt =====
-- internal/telemetry/telemetry.go: what a page holds of the events behind a position, and what is left.
use gpuardian.Base.{
  ℕ, suc, ◌+◌, ◌-◌, ◌≤◌, ◌≡◌, refl, ap, sym, subst, ◌∙◌, Bool, true, false, ◌||◌, List, [], ◌∷◌,
  ◌++◌, arith, if◌then◌else◌, ltb, leb, ◌&&◌, All, Bool-cases, inl, inr,
}
use gpuardian.Telemetry.{Event, Outbox, behind, last_seq, max_page_bytes}
use gpuardian.Telemetry.Append.Numbered.{Chained}
use gpuardian.Telemetry.Page.{fill, last_read, size_of, page}

-- What fits a page of its own.
abbrev pub FitsPage : Event → Type 0
FitsPage e = 512 + size_of e ≤ 1_048_576

pub last_seq-Chained :
    (a b : ℕ) (e : Event) (es : List Event) → Chained a (e ∷ es) b → suc (last_seq (e ∷ es)) ≡ b
last_seq-Chained a b e [] h = ap (λ n. suc n) h.0 ∙ h.1
last_seq-Chained a b e (f ∷ es) h = last_seq-Chained (suc a) b f es h.1

pub fill_prefix :
    (limit used : ℕ) (es : List Event) → (rest : List Event) × (es ≡ fill limit used es ++ rest)
unfolding fill
fill_prefix limit used [] = ([], refl)
fill_prefix limit used (e ∷ es) =
    elim (Bool-cases (leb limit 0 || ltb max_page_bytes (used + size_of e))) [
      | inl t ↦ (e ∷ es, rw t refl)
      | inr t ↦
          let (rest, same) = fill_prefix (limit - 1) (used + size_of e) es in
          (rest, rw t (ap (λ xs. e ∷ xs) same))
    ]

pub last_read-le :
    (p b : ℕ) (page rest : List Event) → Chained (suc p) (page ++ rest) b → p ≤ last_read p page
last_read-le p b [] rest h = omega arith
last_read-le p b (e ∷ page) rest h =
    let at = h.0 in
    let more =
      last_read-le e.seq b page rest (subst (λ n. Chained (suc n) (page ++ rest) b) (sym at) h.1) in
    omega (arith, at, more)

-- What follows the last one read begins with the next number.
pub rest-Chained :
    (p b : ℕ) (page rest : List Event)
    → Chained (suc p) (page ++ rest) b
    → Chained (suc (last_read p page)) rest b
rest-Chained p b [] rest h = h
rest-Chained p b (e ∷ page) rest h =
    rest-Chained e.seq b page rest (subst (λ n. Chained (suc n) (page ++ rest) b) (sym h.0) h.1)

-- Of chained events, those behind a number are the ones from the next number on.
behind-Chained_at :
    (p a b : ℕ) (es : List Event)
    → Chained a es b
    → a ≤ suc p
    → suc p ≤ b
    → Chained (suc p) (behind p es) b
behind-Chained_at p a b [] h l r = omega (arith, h, l, r)
behind-Chained_at p a b (e ∷ es) h l r = elim (Bool-cases (ltb p e.seq)) [
  | inl t ↦
      let at = h.0 in
      let same : a ≡ suc p = ground (arith, at, t, l) in
      rw t (at ∙ same, subst (λ n. Chained (suc n) es b) same h.1)
  | inr t ↦ let at = h.0 in rw t (behind-Chained_at p (suc a) b es h.1 (ground (arith, at, t)) r)
]

-- Looking further on from a number finds the same as looking from the start.
behind-behind : (p q : ℕ) (es : List Event) → p ≤ q → behind q (behind p es) ≡ behind q es
behind-behind p q [] l = refl
behind-behind p q (e ∷ es) l = elim (Bool-cases (ltb p e.seq)) [
  | inl t ↦ rw t refl
  | inr t ↦
      let later : ltb q e.seq ≡ false = ground (arith, t, l) in
      rw t (rw later (behind-behind p q es l))
]

behind_prefix :
    (p b : ℕ) (page rest : List Event)
    → Chained (suc p) (page ++ rest) b
    → behind (last_read p page) (page ++ rest) ≡ rest
behind_prefix p b [] [] h = refl
behind_prefix p b [] (e ∷ rest) h = let at = h.0 in ground (arith, at)
behind_prefix p b (e ∷ page) rest h =
    let chain = subst (λ n. Chained (suc n) (page ++ rest) b) (sym h.0) h.1 in
    let more = last_read-le e.seq b page rest chain in
    let here : ltb (last_read e.seq page) e.seq ≡ false = ground (arith, more) in
    rw here (behind_prefix e.seq b page rest chain)

abbrev pub is_none : List Event → Bool
is_none [] = true
is_none (e ∷ es) = false

pub Chained-le : (a b : ℕ) (es : List Event) → Chained a es b → a ≤ b
Chained-le a b [] h = omega (arith, h)
Chained-le a b (e ∷ es) h = omega (arith, Chained-le (suc a) b es h.1)

-- There is more exactly where something is left.
pub and_false : (b : Bool) → (b && false) ≡ false
and_false true = refl
and_false false = refl

pub has_more_lem :
    (last latest b : ℕ) (rest : List Event)
    → Chained (suc last) rest b
    → suc latest ≡ b
    → ltb last latest ≡ (if is_none rest then false else true)
has_more_lem last latest b [] h e = ground (arith, h, e)
has_more_lem last latest b (x ∷ rest) h e =
    let end = Chained-le (suc (suc last)) b rest h.1 in ground (arith, end, e)

-- The page from a position, by its rest.
pub record Splits (box : Outbox) (limit p : ℕ) (rest : List Event) : Type 0 where
  pub parts : behind p box.events ≡ fill limit 512 (behind p box.events) ++ rest
  pub left : behind (last_read p (fill limit 512 (behind p box.events))) box.events ≡ rest
  pub onward : Chained (suc (last_read p (fill limit 512 (behind p box.events)))) rest box.next_seq
  pub forward : p ≤ last_read p (fill limit 512 (behind p box.events))

pub page-Splits :
    (box : Outbox) (limit a p : ℕ)
    → Chained a box.events box.next_seq
    → a ≤ suc p
    → suc p ≤ box.next_seq
    → (rest : List Event) × Splits box limit p rest
page-Splits box limit a p h l r =
    let found = behind p box.events in
    let es = fill limit 512 found in
    let (rest, parts) = fill_prefix limit 512 found in
    let chain = behind-Chained_at p a box.next_seq box.events h l r in
    let chain' = subst (λ xs. Chained (suc p) xs box.next_seq) parts chain in
    let forward = last_read-le p box.next_seq es rest chain' in
    (
      rest,
      record {
        parts = parts;
        left =
            sym (behind-behind p (last_read p es) box.events forward)
            ∙ ap (behind (last_read p es)) parts
            ∙ behind_prefix p box.next_seq es rest chain';
        onward = rest-Chained p box.next_seq es rest chain';
        forward = forward;
      },
    )

-- A page that has something to hold is not empty.
pub fill_nonempty :
    (limit : ℕ) (es : List Event)
    → 1 ≤ limit
    → All FitsPage es
    → is_none (fill limit 512 es) ≡ is_none es
unfolding fill
fill_nonempty limit [] l h = refl
fill_nonempty limit (e ∷ es) l h = let fits = h.0 in ground (arith, l, fits)
