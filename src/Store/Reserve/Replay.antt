-- ===== src/Store/Reserve/Replay.antt =====
-- internal/store/store.go, RegisterScheduledReservationsWithSession: repeating a request of a session.
use Prim.Native.String.{len, ◌++◌ as text_append}
use text.Mathlib.TextPositions.{len-append}
use gpuardian.Base.{
  ◌+◌, ℕ, suc, ◌≡◌, ◌≢◌, refl, sym, ap, ◌∙◌, subst, String, ℤ, Bool, true, false, not, ◌&&◌, ◌||◌,
  List, [], ◌∷◌, ◌++◌, some, All, All-mono, any, all, find, keep_if, length, ◌==◌, nat_eq,
  string_eq, int_eq, ==_refl, if◌then◌else◌, ok, ◌>>◌, refuse_if, >>-eq-ok, >>-ok, trim_space,
  trim_space_idem, is_empty, equal_fold, to_lower, arith,
}
use gpuardian.Model.{Token, Reservation, State, reservation_starts_at, token_mode_reserved}
use gpuardian.Store.Tokens.{new_token}
use gpuardian.Store.Errors.{Error, Fallible, no_recoverable_key, session_reused}
use gpuardian.Store.Bounds.{check_total_capacity}
use gpuardian.Store.Persist.{Platform, Io, Plan, keep, write}
use gpuardian.Store.Validity.{check_token_capacity}
use gpuardian.Store.Reserve.{
  Request, make_reservations, same_request_row, same_reservation_request, check_conflicts,
  of_session, replay_or, Reserved, has_hash, or_empty, replay_scheduled, store_scheduled,
  schedule_body,
}

-- The new key is recoverable, belongs to the name of the request, and shares its hash with no other.
record IsFreshKey (q : Request) (secret : String) (t : Token) (tokens : List Token) : Type 0 where
  has_id : is_empty t.id ≡ false
  has_secret : is_empty t.secret ≡ false
  same_secret : t.secret ≡ secret
  same_name : t.name ≡ trim_space q.name
  new_hash : any (has_hash t.hash) tokens ≡ false

module _ {ℓ} {A : Type ℓ} (test : A → Bool) where
  keep_if-append : (xs ys : List A) → keep_if test (xs ++ ys) ≡ keep_if test xs ++ keep_if test ys
  keep_if-append [] ys = refl
  keep_if-append (x ∷ xs) ys = ground (arith, keep_if-append xs ys)

  find-append :
      (xs : List A) (y : A)
      → any test xs ≡ false
      → test y ≡ true
      → find test (xs ++ y ∷ []) ≡ some y
  find-append [] y h k = rw k refl
  find-append (x ∷ xs) y h k = ground (arith, find-append xs y)

members : (gpus : List ℤ) → All (λ x. any (λ g. g == x) gpus ≡ true) gpus
members [] = tt
members (g ∷ gpus) =
    let same = ==_refl g in
    (
      ground (arith, same),
      All-mono (λ x (h : any (λ k. k == x) gpus ≡ true). ground (arith, h)) gpus (members gpus),
    )

and_true : {a b : Bool} → a ≡ true → b ≡ true → (a && b) ≡ true
and_true p r = rw (p, r) refl

module _ (u : Platform) (io : Io) (q : Request) (t : Token) (named : t.name ≡ trim_space q.name)
    (starts : (q.starts_at == 0) ≡ false) where
  begun : (r : Reservation) → r.starts_at ≡ q.starts_at → reservation_starts_at r ≡ r.starts_at
  unfolding reservation_starts_at
  begun r start = let set = ap (λ n. n == 0) start ∙ starts in ground (arith, set)

  made_row :
      (r : Reservation)
      → any (λ g. g == r.gpu) q.gpus ≡ true
      → r.holder ≡ t.name
      → r.purpose ≡ trim_space q.purpose
      → r.starts_at ≡ q.starts_at
      → r.expires_at ≡ q.expires_at
      → same_request_row u q q.name r ≡ true
  unfolding equal_fold reservation_starts_at
  made_row r gpu holder purpose start end =
      let who = ap trim_space (holder ∙ named) ∙ trim_space_idem q.name in
      let why = ap trim_space purpose ∙ trim_space_idem q.purpose in
      and_true
        (and_true
          (and_true (and_true gpu (string_eq.complete _ _ (ap (to_lower u.fold_beyond) who)))
            (string_eq.complete _ _ why))
          (nat_eq.complete _ _ (begun r start ∙ start)))
        (nat_eq.complete _ _ end)

  -- The rows of a request are the ones that the request asks for.
  made_rows :
      (n : ℕ) (gpus : List ℤ)
      → All (λ x. any (λ g. g == x) q.gpus ≡ true) gpus
      → all (same_request_row u q q.name) (make_reservations io q t "" n gpus) ≡ true
  unfolding make_reservations
  made_rows n [] h = refl
  made_rows n (g ∷ gpus) h =
      and_true (made_row _ h.0 refl refl refl refl) (made_rows (suc n) gpus h.1)

module _ (io : Io) (q : Request) (t : Token) where
  made_length : (n : ℕ) (gpus : List ℤ) → length (make_reservations io q t "" n gpus) ≡ length gpus
  unfolding make_reservations
  made_length n [] = refl
  made_length n (g ∷ gpus) = ap suc (made_length (suc n) gpus)

  made_session :
      (n : ℕ) (gpus : List ℤ)
      → let rows = make_reservations io q t "" n gpus in
        of_session (trim_space q.session) rows ≡ rows
  unfolding make_reservations
  made_session n [] = refl
  made_session n (g ∷ gpus) =
      let same = ==_refl (trim_space q.session) in rw (same, made_session (suc n) gpus) refl

guarded_keeps :
    {A : Type 0} (b c : Bool) (e f : Error) (kept : A) (s' : State) (a : A)
    → (refuse_if b e >> (refuse_if c f >> ok (keep kept))) ≢ ok (write s' a)
guarded_keeps true c e f kept s' a h = cc
guarded_keeps false true e f kept s' a h = cc
guarded_keeps false false e f kept s' a h = cc

-- A replay does not write.
replay_keeps :
    (u : Platform) (q : Request) (tokens : List Token) (r : Reservation) (rs : List Reservation)
    (s' : State) (a : Reserved)
    → replay_scheduled u q tokens r rs ≢ ok (write s' a)
unfolding replay_scheduled
replay_keeps u q tokens r rs s' a =
    let token = or_empty (find (has_hash r.token_hash) tokens) in
    guarded_keeps (is_empty token.id || is_empty token.secret)
      (not (same_reservation_request u rs q q.name)) no_recoverable_key session_reused
      (token.secret, token, rs) s' a

fresh_session :
    (u : Platform) (q : Request) (tokens : List Token) (fresh : Fallible (Plan Reserved))
    (rows : List Reservation) (s' : State) (a : Reserved)
    → replay_or fresh (replay_scheduled u q tokens) rows ≡ ok (write s' a)
    → (rows ≡ []) × (fresh ≡ ok (write s' a))
unfolding replay_or
fresh_session u q tokens fresh [] s' a h = (refl, h)
fresh_session u q tokens fresh (r ∷ rs) s' a h = absurd (replay_keeps u q tokens r (r ∷ rs) s' a h)

write_injective :
    {A : Type 0} {s s' : State} {a a' : A}
    → ◌≡◌ {A = Fallible (Plan A)} (ok (write s a)) (ok (write s' a'))
    → (s ≡ s') × (a ≡ a')
write_injective h = (cc, cc)

stored_rows :
    (u : Platform) (q : Request) (secret : String) (t : Token) (rows : List Reservation)
    (s s' : State) (a : Reserved)
    → store_scheduled u q (secret, t) rows s ≡ ok (write s' a)
    → (record s { tokens = s.tokens ++ t ∷ []; reservations = s.reservations ++ rows } ≡ s')
      × ((secret, t, rows) ≡ a)
unfolding store_scheduled
stored_rows u q secret t rows s s' a h =
    let (first, rest) = >>-eq-ok (check_token_capacity u s t q.now) _ h in
    let (second, more) = >>-eq-ok (check_total_capacity "reservation" _ _ _) _ rest in
    let (third, last) =
      >>-eq-ok (check_conflicts s.reservations q.starts_at q.expires_at q.gpus) _ more in
    write_injective last

not_refused : (b : Bool) (e : Error) → b ≡ false → refuse_if b e ≡ ok tt
not_refused b e h = rw h refl

or_both : {a b : Bool} → a ≡ false → b ≡ false → (a || b) ≡ false
or_both p r = rw (p, r) refl

if_false : {A : Type 0} (b : Bool) (x y : A) → b ≡ false → (if b then x else y) ≡ y
if_false b x y h = rw h refl

rows_fit :
    (u : Platform) (q : Request) (rows : List Reservation) (gpus : List ℤ)
    → q.gpus ≡ gpus
    → length rows ≡ length gpus
    → (length gpus == 0) ≡ false
    → all (same_request_row u q q.name) rows ≡ true
    → same_reservation_request u rows q q.name ≡ true
unfolding same_reservation_request
rows_fit u q rows gpus same long some_gpu fits =
    let count = long ∙ sym (ap length same) in
    let full = nat_eq.complete (length rows) (length q.gpus) count in
    let some_row = ap (λ n. n == 0) long ∙ some_gpu in
    if_false _ _ _ (or_both (ap not full) some_row) ∙ fits

-- The replay over the rows that were made.
replay_made :
    (u : Platform) (io : Io) (q : Request) (secret : String) (t : Token) (tokens : List Token)
    (gpus : List ℤ)
    → q.gpus ≡ gpus
    → IsFreshKey q secret t tokens
    → (q.starts_at == 0) ≡ false
    → (length gpus == 0) ≡ false
    → (fresh : Fallible (Plan Reserved))
    → let rows = make_reservations io q t "" 3 gpus in
      replay_or fresh (replay_scheduled u q (tokens ++ t ∷ [])) rows ≡ ok (keep (secret, t, rows))
unfolding replay_or replay_scheduled make_reservations same_reservation_request
replay_made u io q secret t tokens [] same k starts some_gpu fresh = cc
replay_made u io q secret t tokens (g ∷ gpus) same k starts some_gpu fresh =
    let rows = make_reservations io q t "" 3 (g ∷ gpus) in
    let found = find-append (has_hash t.hash) tokens t k.new_hash (==_refl t.hash) in
    let asked = subst (λ gs. All (λ x. any (λ h. h == x) q.gpus ≡ true) gs) same (members q.gpus) in
    let fits =
      rows_fit u q rows (g ∷ gpus) same (made_length io q t 3 (g ∷ gpus)) some_gpu
        (made_rows u io q t k.same_name starts 3 (g ∷ gpus) asked) in
    rw found (
      >>-ok (refuse_if (is_empty t.id || is_empty t.secret) _) _
        (not_refused _ _ (or_both k.has_id k.has_secret))
        (>>-ok (refuse_if (not (same_reservation_request u rows q q.name)) _) _
          (not_refused _ _ (ap not fits)) (ap (λ x. ok (keep (x, t, rows))) k.same_secret)))

stored_replay :
    (u : Platform) (io io' : Io) (q : Request) (secret : String) (t : Token) (secret' : String)
    (t' : Token) (s s' : State) (a : Reserved)
    → is_empty (trim_space q.session) ≡ false
    → (q.starts_at == 0) ≡ false
    → (length q.gpus == 0) ≡ false
    → IsFreshKey q secret t s.tokens
    → schedule_body u io q (secret, t) s ≡ ok (write s' a)
    → schedule_body u io' q (secret', t') s' ≡ ok (keep a)
unfolding schedule_body
stored_replay u io io' q secret t secret' t' s s' a named starts some_gpu k h =
    let rows = make_reservations io q t "" 3 q.gpus in
    let session = trim_space q.session in
    let (none_yet, stored) =
      fresh_session u q s.tokens _ (of_session session s.reservations) s' a
        (sym (if_false _ _ _ named) ∙ h) in
    let (state, answer) = stored_rows u q secret t rows s s' a stored in
    let seen =
      keep_if-append (λ r. r.external_session_id == session) s.reservations rows
      ∙ ap (λ x. x ++ of_session session rows) none_yet
      ∙ made_session io q t 3 q.gpus in
    let again =
      λ (x : State). store_scheduled u q (secret', t') (make_reservations io' q t' "" 3 q.gpus) x in
    if_false _ _ _ named
    ∙ subst
        (λ (x : State).
          replay_or (again x) (replay_scheduled u q x.tokens) (of_session session x.reservations)
          ≡ ok (keep a))
        state
        (ap (replay_or (again _) (replay_scheduled u q (s.tokens ++ t ∷ []))) seen
          ∙ replay_made u io q secret t s.tokens q.gpus refl k starts some_gpu (again _)
          ∙ ap (λ x. ok (keep x)) answer)

-- The key that RegisterScheduledReservationsWithSession makes for a request.
abbrev pub key_for : Platform → Io → Request → String × Token
key_for u io q = new_token u io token_mode_reserved q.name q.expires_at q.now

solid : (label id : String) → (len label == 0) ≡ false → is_empty (text_append label id) ≡ false
solid label id h = go (text_append label id) (len-append label id)
  where
    go : (s : String) → len s ≡ len label + len id → is_empty s ≡ false
    go String.[] e = absurd (ground (arith, e, h))
    go (String.◌∷◌ r s) e = refl

key_for-IsFreshKey :
    (u : Platform) (io : Io) (q : Request) (tokens : List Token)
    → is_empty (trim_space q.name) ≡ false
    → any (has_hash (key_for u io q).1.hash) tokens ≡ false
    → IsFreshKey q (key_for u io q).0 (key_for u io q).1 tokens
unfolding new_token
key_for-IsFreshKey u io q tokens named new = record {
  has_id = solid "tok_" (io.draw 2) refl;
  has_secret = solid "gk_" (io.draw 1) refl;
  same_secret = refl;
  same_name = rw named refl;
  new_hash = new;
}

pub schedule_body_replay :
    (u : Platform) (io io' : Io) (q : Request) (s s' : State) (a : Reserved)
    → is_empty (trim_space q.session) ≡ false
    → is_empty (trim_space q.name) ≡ false
    → (q.starts_at == 0) ≡ false
    → (length q.gpus == 0) ≡ false
    → any (has_hash (key_for u io q).1.hash) s.tokens ≡ false
    → schedule_body u io q (key_for u io q) s ≡ ok (write s' a)
    → schedule_body u io' q (key_for u io' q) s' ≡ ok (keep a)
schedule_body_replay u io io' q s s' a session named starts some_gpu new h =
    stored_replay u io io' q (key_for u io q).0 (key_for u io q).1 (key_for u io' q).0
      (key_for u io' q).1 s s' a session starts some_gpu
      (key_for-IsFreshKey u io q s.tokens named new) h
