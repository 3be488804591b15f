-- ===== src/Store/Reserve/Exclusive.antt =====
-- Registering reservations (internal/store/store.go) keeps every GPU to one holder at a time.
use Prim.Native.String.{◌++◌ as text_append}
use gpuardian.Base.{
  ℕ, suc, ◌≡◌, ◌≤◌, refl, ◌∙◌, sym, ap, ◌≢◌, Bool, true, false, not, List, [], ◌∷◌, ◌++◌, Option,
  none, some, Pairwise, All, All-mono, All-swap, Pairwise-append, find, any, find-none, arith, ok,
  OnOk, OnOk->>, >>-eq-ok, refuse_if, Bool-cases, inl, inr, is_negative, refuse_if-passed, ℤ,
  length, String, is_empty, trim_space, ◌==◌, int_eq, ==_refl, ◌||◌,
}
use gpuardian.Model.{
  Token, Reservation, State, reservation_active_at, reservation_starts_at, reservation_overlaps,
}
use gpuardian.Store.Errors.{
  Fallible, duplicate_gpu, negative_gpu, managed_keys_off, token_not_found,
}
use gpuardian.Store.Bounds.{validate_gpu_index, check_total_capacity, max_total_reservations}
use gpuardian.Store.Validity.{check_token_capacity}
use gpuardian.Store.Persist.{Platform, Io}
use gpuardian.Store.Persist.Transact.{PlanKeeps}
use gpuardian.Store.Exclusive.{NoClash, IsExclusive}
use gpuardian.Store.Reserve.{
  Request, check_gpus, make_reservations, conflicts_with, refuse_conflict, check_conflicts,
  Reserved, Grouped, replay_or, of_session, or_empty, is_managed_key, check_scheduled_request,
  check_managed_request, replay_scheduled, store_scheduled, schedule_body, replay_managed,
  store_managed, managed_session, managed_body,
}

true≢false : ◌≢◌ {A = Bool} true false
true≢false h = cc

in_tail : {b : Bool} (a : Bool) → b ≡ true → (a || b) ≡ true
in_tail a h = ground arith

in_head : {a : Bool} (b : Bool) → a ≡ true → (a || b) ≡ true
in_head b h = ground arith

-- What the overlap test refuses, it refuses for a reason: without a conflict there is no clash.
conflict-NoClash :
    (r n : Reservation) (starts_at expires_at : ℕ)
    → conflicts_with n.gpu starts_at expires_at r ≡ false
    → starts_at ≤ reservation_starts_at n
    → n.expires_at ≡ expires_at
    → NoClash r n
unfolding reservation_active_at reservation_overlaps
conflict-NoClash r n starts_at expires_at free from to t same p q = ground (arith, ==_refl n.gpu)

refuse_conflict_ok : (gpu : ℤ) (o : Option Reservation) → refuse_conflict gpu o ≡ ok tt → o ≡ none
unfolding refuse_conflict
refuse_conflict_ok gpu none h = refl
refuse_conflict_ok gpu (some r) h = cc

conflicts_clear :
    (stored : List Reservation) (a b : ℕ) (gpus : List ℤ)
    → check_conflicts stored a b gpus ≡ ok tt
    → All (λ gpu. All (λ r. conflicts_with gpu a b r ≡ false) stored) gpus
unfolding check_conflicts
conflicts_clear stored a b [] h = tt
conflicts_clear stored a b (gpu ∷ gpus) h =
    let (p, q) = >>-eq-ok (refuse_conflict gpu (find (conflicts_with gpu a b) stored)) _ h in
    (find-none _ stored (refuse_conflict_ok gpu _ p), conflicts_clear stored a b gpus q)

starts-le : (r : Reservation) → r.starts_at ≤ reservation_starts_at r
unfolding reservation_starts_at
starts-le r = ground arith

-- What a passed step of the loop over the GPUs says.
check_gpus_step :
    (check : ℤ → Fallible (Unit {0})) (seen : List ℤ) (gpu : ℤ) (gpus : List ℤ)
    → check_gpus check seen (gpu ∷ gpus) ≡ ok tt
    → (any (λ g. g == gpu) seen ≡ false) × (check_gpus check (gpu ∷ seen) gpus ≡ ok tt)
unfolding check_gpus
check_gpus_step check seen gpu gpus h =
    let (_, rest) = >>-eq-ok (check gpu) _ h in
    let (p, q) = >>-eq-ok (refuse_if (any (λ g. g == gpu) seen) (duplicate_gpu gpu)) _ rest in
    (refuse_if-passed _ _ p, q)

module _ (io : Io) (q : Request) (token : Token) (group_id : String) where
  made-clear :
      (n : ℕ) (r : Reservation) (gpus : List ℤ)
      → All (λ gpu. conflicts_with gpu q.starts_at q.expires_at r ≡ false) gpus
      → All (NoClash r) (make_reservations io q token group_id n gpus)
  unfolding make_reservations
  made-clear n r [] h = tt
  made-clear n r (gpu ∷ gpus) h = (
    conflict-NoClash r _ q.starts_at q.expires_at h.0 (starts-le _) refl,
    made-clear (suc n) r gpus h.1,
  )

  made-absent :
      (check : ℤ → Fallible (Unit {0})) (x : ℤ) (n : ℕ) (seen gpus : List ℤ)
      → any (λ g. g == x) seen ≡ true
      → check_gpus check seen gpus ≡ ok tt
      → All (λ r. x ≢ r.gpu) (make_reservations io q token group_id n gpus)
  unfolding make_reservations
  made-absent check x n seen [] s h = tt
  made-absent check x n seen (gpu ∷ gpus) s h =
      let (new, rest) = check_gpus_step check seen gpu gpus h in
      (
        λ e. true≢false (sym s ∙ ap (λ y. any (λ g. g == y) seen) e ∙ new),
        made-absent check x (suc n) (gpu ∷ seen) gpus (in_tail (gpu == x) s) rest,
      )

  made-distinct :
      (check : ℤ → Fallible (Unit {0})) (n : ℕ) (seen gpus : List ℤ)
      → check_gpus check seen gpus ≡ ok tt
      → Pairwise NoClash (make_reservations io q token group_id n gpus)
  unfolding make_reservations
  made-distinct check n seen [] h = tt
  made-distinct check n seen (gpu ∷ gpus) h =
      let (_, rest) = check_gpus_step check seen gpu gpus h in
      (
        All-mono (λ r ne t e p q. ne e) _
            (made-absent check gpu (suc n) (gpu ∷ seen) gpus (in_head _ (==_refl gpu)) rest),
        made-distinct check (suc n) (gpu ∷ seen) gpus rest,
      )

  -- Rows made for GPUs without a conflict join the stored ones without a clash.
  append-NoClash :
      (check : ℤ → Fallible (Unit {0})) (n : ℕ) (stored : List Reservation) (gpus : List ℤ)
      → check_gpus check [] gpus ≡ ok tt
      → check_conflicts stored q.starts_at q.expires_at gpus ≡ ok tt
      → Pairwise NoClash stored
      → Pairwise NoClash (stored ++ make_reservations io q token group_id n gpus)
  append-NoClash check n stored gpus c free h =
      Pairwise-append NoClash stored _ h (made-distinct check n [] gpus c) (
        All-mono (λ r. made-clear n r gpus) stored
          (All-swap _ stored gpus (conflicts_clear stored _ _ gpus free)))

replay_or-OnOk :
    {A : Type 0} (P : A → Type 0) (fresh : Fallible A)
    (replay : Reservation → List Reservation → Fallible A) (rs : List Reservation)
    → OnOk P fresh
    → ((r : Reservation) (all : List Reservation) → OnOk P (replay r all))
    → OnOk P (replay_or fresh replay rs)
unfolding replay_or
replay_or-OnOk P fresh replay [] f g = f
replay_or-OnOk P fresh replay (r ∷ rs) f g = g r (r ∷ rs)

module _ (u : Platform) (q : Request) where
  store_scheduled-Exclusive :
      (io : Io) (made : String × Token) (check : ℤ → Fallible (Unit {0})) (s : State)
      → check_gpus check [] q.gpus ≡ ok tt
      → IsExclusive s
      → OnOk
          (PlanKeeps IsExclusive)
          (store_scheduled u q made (make_reservations io q made.1 "" 3 q.gpus) s)
  unfolding store_scheduled
  store_scheduled-Exclusive io (secret, token) check s c h =
      let P = PlanKeeps IsExclusive {A = Reserved} in
      let made = make_reservations io q token "" 3 q.gpus in
      OnOk->> P (check_token_capacity u s token q.now) _ λ _.
        OnOk->> P
          (check_total_capacity "reservation" (length s.reservations) (length made)
            max_total_reservations)
          _
          λ _.
            OnOk->> P (check_conflicts s.reservations q.starts_at q.expires_at q.gpus) _
              λ free. append-NoClash io q token "" check 3 s.reservations q.gpus c free h

  replay_scheduled-keeps :
      (P : State → Type 0) (tokens : List Token) (r : Reservation) (rs : List Reservation)
      → OnOk (PlanKeeps P) (replay_scheduled u q tokens r rs)
  unfolding replay_scheduled
  replay_scheduled-keeps P tokens r rs = ground arith

  replay_managed-keeps :
      (P : State → Type 0) (token : Token) (r : Reservation) (rs : List Reservation)
      → OnOk (PlanKeeps P) (replay_managed u q token r rs)
  unfolding replay_managed
  replay_managed-keeps P token r rs = ground arith

  pub schedule_body-Exclusive :
      (io : Io) (made : String × Token) (check : ℤ → Fallible (Unit {0})) (s : State)
      → check_gpus check [] q.gpus ≡ ok tt
      → IsExclusive s
      → OnOk (PlanKeeps IsExclusive) (schedule_body u io q made s)
  unfolding schedule_body
  schedule_body-Exclusive io (secret, token) check s c h =
      let fresh = store_scheduled-Exclusive io (secret, token) check s c h in
      let session = trim_space q.session in
      elim (Bool-cases (is_empty session)) [
        | inl e ↦ rw e fresh
        | inr e ↦ rw e (
            replay_or-OnOk (PlanKeeps IsExclusive) _ (replay_scheduled u q s.tokens)
              (of_session session s.reservations) fresh
              (replay_scheduled-keeps IsExclusive s.tokens))
      ]

  store_managed-Exclusive :
      (io : Io) (token : Token) (check : ℤ → Fallible (Unit {0})) (s : State)
      → check_gpus check [] q.gpus ≡ ok tt
      → IsExclusive s
      → OnOk (PlanKeeps IsExclusive) (store_managed io q token s)
  unfolding store_managed
  store_managed-Exclusive io token check s c h =
      let P = PlanKeeps IsExclusive {A = Grouped} in
      let group_id = text_append "grp_" (io.draw 1) in
      OnOk->> P
        (check_total_capacity "reservation" (length s.reservations) (length q.gpus)
          max_total_reservations)
        _
        λ _.
          OnOk->> P (check_conflicts s.reservations q.starts_at q.expires_at q.gpus) _
            λ free. append-NoClash io q token group_id check 2 s.reservations q.gpus c free h

  managed_session-Exclusive :
      (io : Io) (token : Token) (check : ℤ → Fallible (Unit {0})) (s : State)
      → check_gpus check [] q.gpus ≡ ok tt
      → IsExclusive s
      → OnOk (PlanKeeps IsExclusive) (managed_session u io q token s)
  unfolding managed_session
  managed_session-Exclusive io token check s c h =
      let fresh = store_managed-Exclusive io token check s c h in
      let session = trim_space q.session in
      elim (Bool-cases (is_empty session)) [
        | inl e ↦ rw e fresh
        | inr e ↦ rw e (
            replay_or-OnOk (PlanKeeps IsExclusive) _ (replay_managed u q token)
              (of_session session s.reservations) fresh (replay_managed-keeps IsExclusive token))
      ]

  pub managed_body-Exclusive :
      (io : Io) (user_key_id : String) (check : ℤ → Fallible (Unit {0})) (s : State)
      → check_gpus check [] q.gpus ≡ ok tt
      → IsExclusive s
      → OnOk (PlanKeeps IsExclusive) (managed_body u io user_key_id q s)
  unfolding managed_body
  managed_body-Exclusive io user_key_id check s c h =
      let P = PlanKeeps IsExclusive {A = Grouped} in
      let token = or_empty (find (is_managed_key user_key_id) s.tokens) in
      OnOk->> P (refuse_if (not s.managed_keys) managed_keys_off) _ λ _.
        OnOk->> P (refuse_if (is_empty token.id) token_not_found) _
          λ _. managed_session-Exclusive io token check s c h

-- A checked request names each GPU once.
pub check_scheduled_request-gpus :
    (q : Request)
    → check_scheduled_request q ≡ ok tt
    → check_gpus (λ gpu. refuse_if (is_negative gpu) (negative_gpu gpu)) [] q.gpus ≡ ok tt
unfolding check_scheduled_request
check_scheduled_request-gpus q h = ground arith

pub check_managed_request-gpus :
    (q : Request)
    → check_managed_request q ≡ ok tt
    → check_gpus validate_gpu_index [] q.gpus ≡ ok tt
unfolding check_managed_request
check_managed_request-gpus q h = ground arith
