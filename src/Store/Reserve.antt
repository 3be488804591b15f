-- ===== src/Store/Reserve.antt =====
-- internal/store/store.go: reserving GPUs, with the replay of a session that was already stored.
pub mod Exclusive
pub mod Replay
use Prim.Native.String.{◌++◌ as text_append}
use gpuardian.Base.{
  ℕ, suc, ◌+◌, ◌-◌, String, ℤ, Bool, true, false, not, ◌&&◌, ◌||◌, List, [], ◌∷◌, ◌++◌, Option,
  none, some, ◌==◌, nat_eq, string_eq, int_eq, ltb, leb, if◌then◌else◌, find, any, all, keep_if,
  length, ok, err, ◌>>=◌, ◌>>◌, refuse_if, refuse, trim_space, is_empty, equal_fold, is_negative,
  or_fail,
}
use gpuardian.Model.{
  Token, Reservation, State, reservation_starts_at, reservation_overlaps, token_mode_reserved,
  empty_token,
}
use gpuardian.Store.Errors.{
  Error, Fallible, end_before_start, end_in_past, too_long, no_gpu, negative_gpu, duplicate_gpu,
  no_recoverable_key, session_reused, managed_keys_off, token_not_found, reservation_overlap,
}
use gpuardian.Store.Bounds.{check_total_capacity, max_total_reservations, validate_gpu_index}
use gpuardian.Store.Persist.{Platform, Io, Store, Plan, keep, write, transact, checked}
use gpuardian.Store.Validity.{check_token_capacity}
use gpuardian.Store.RootKey.{with_root_key}
use gpuardian.Store.Tokens.{new_token, parse_ttl, default_hard_ttl, max_hard_ttl}

-- A request, its times resolved: `starts_at` is `now` where the caller gives none.
pub record Request : Type 0 where
  pub name : String
  pub purpose : String
  pub session : String
  pub gpus : List ℤ
  pub starts_at : ℕ
  pub expires_at : ℕ
  pub now : ℕ

abbrev pub or_now : ℕ → ℕ → ℕ
or_now starts_at now = if starts_at == 0 then now else starts_at

-- The loop with `seen` that refuses a GPU that comes twice; `check` is the test on one GPU.
unfoldable pub check_gpus : (ℤ → Fallible (Unit {0})) → List ℤ → List ℤ → Fallible (Unit {0})
check_gpus check seen [] = ok tt
check_gpus check seen (gpu ∷ gpus) = do
  check gpu
  refuse_if (any (λ g. g == gpu) seen) (duplicate_gpu gpu)
  check_gpus check (gpu ∷ seen) gpus

unfoldable pub check_scheduled_request : Request → Fallible (Unit {0})
check_scheduled_request q = do
  refuse_if (not (ltb q.starts_at q.expires_at)) end_before_start
  refuse_if (not (ltb q.now q.expires_at)) end_in_past
  refuse_if (ltb max_hard_ttl (q.expires_at - q.starts_at)) too_long
  refuse_if (length q.gpus == 0) no_gpu
  check_total_capacity "reservation" 0 (length q.gpus) max_total_reservations
  check_gpus (λ gpu. refuse_if (is_negative gpu) (negative_gpu gpu)) [] q.gpus

unfoldable pub check_managed_request : Request → Fallible (Unit {0})
check_managed_request q = do
  refuse_if (not (ltb q.starts_at q.expires_at) || not (ltb q.now q.expires_at)) end_before_start
  refuse_if (ltb max_hard_ttl (q.expires_at - q.starts_at)) too_long
  refuse_if (length q.gpus == 0) no_gpu
  check_gpus validate_gpu_index [] q.gpus

-- One reservation for each GPU; `draw` is numbered on from `n`.
unfoldable pub make_reservations : Io → Request → Token → String → ℕ → List ℤ → List Reservation
make_reservations io q token group_id n [] = []
make_reservations io q token group_id n (gpu ∷ gpus) =
    record {
      id = text_append "res_" (io.draw n);
      group_id = group_id;
      external_session_id = trim_space q.session;
      gpu = gpu;
      token_hash = token.hash;
      holder = token.name;
      purpose = trim_space q.purpose;
      created_at = q.now;
      starts_at = q.starts_at;
      expires_at = q.expires_at;
      active = true;
      revoked = false;
    }
    ∷ make_reservations io q token group_id (suc n) gpus

abbrev pub same_request_row : Platform → Request → String → Reservation → Bool
same_request_row u q name r =
    any (λ g. g == r.gpu) q.gpus
    && equal_fold u.fold_beyond (trim_space r.holder) (trim_space name)
    && (trim_space r.purpose == trim_space q.purpose)
    && (reservation_starts_at r == q.starts_at)
    && (r.expires_at == q.expires_at)

unfoldable pub same_reservation_request : Platform → List Reservation → Request → String → Bool
same_reservation_request u existing q name =
    if not (length existing == length q.gpus) || length existing == 0
    then false
    else all (same_request_row u q name) existing

abbrev pub conflicts_with : ℤ → ℕ → ℕ → Reservation → Bool
conflicts_with gpu starts_at expires_at r =
    (r.gpu == gpu) && reservation_overlaps r starts_at expires_at

unfoldable pub refuse_conflict : ℤ → Option Reservation → Fallible (Unit {0})
refuse_conflict gpu none = ok tt
refuse_conflict gpu (some r) = err (reservation_overlap gpu r.id)

-- The nested loops: the first stored reservation in the way of the first GPU that has one.
unfoldable pub check_conflicts : List Reservation → ℕ → ℕ → List ℤ → Fallible (Unit {0})
check_conflicts stored starts_at expires_at [] = ok tt
check_conflicts stored starts_at expires_at (gpu ∷ gpus) = do
  refuse_conflict gpu (find (conflicts_with gpu starts_at expires_at) stored)
  check_conflicts stored starts_at expires_at gpus

-- The stored reservations of a session.
abbrev pub of_session : String → List Reservation → List Reservation
of_session session = keep_if (λ r. r.external_session_id == session)

-- A session that has stored reservations is replayed, and a new one is stored.
unfoldable pub replay_or :
    {A : Type 0} → A → (Reservation → List Reservation → A) → List Reservation → A
replay_or fresh replay [] = fresh
replay_or fresh replay (r ∷ rs) = replay r (r ∷ rs)

abbrev pub Reserved : Type 0
Reserved = String × Token × List Reservation

abbrev pub has_hash : String → Token → Bool
has_hash hash t = t.hash == hash

abbrev pub or_empty : Option Token → Token
or_empty none = empty_token
or_empty (some t) = t

unfoldable pub replay_scheduled :
    Platform → Request → List Token → Reservation → List Reservation → Fallible (Plan Reserved)
replay_scheduled u q tokens first existing =
    let token = or_empty (find (has_hash first.token_hash) tokens) in
    do
      refuse_if (is_empty token.id || is_empty token.secret) no_recoverable_key
      refuse_if (not (same_reservation_request u existing q q.name)) session_reused
      ok (keep (token.secret, token, existing))

unfoldable pub store_scheduled :
    Platform → Request → String × Token → List Reservation → State → Fallible (Plan Reserved)
store_scheduled u q (secret, token) reservations s = do
  check_token_capacity u s token q.now
  check_total_capacity "reservation" (length s.reservations) (length reservations)
      max_total_reservations
  check_conflicts s.reservations q.starts_at q.expires_at q.gpus
  ok (
      write
        (record s {
          tokens = s.tokens ++ token ∷ [];
          reservations = s.reservations ++ reservations;
        })
        (secret, token, reservations))

unfoldable pub schedule_body :
    Platform → Io → Request → String × Token → State → Fallible (Plan Reserved)
schedule_body u io q (secret, token) s =
    let session = trim_space q.session in
    let fresh = store_scheduled u q (secret, token) (make_reservations io q token "" 3 q.gpus) s in
    if is_empty session
    then fresh
    else replay_or fresh (replay_scheduled u q s.tokens) (of_session session s.reservations)

unfoldable pub register_scheduled_request :
    Platform → Io → String → Request → Store → Store × Fallible Reserved
register_scheduled_request u io root_key q = checked (check_scheduled_request q) λ _.
    with_root_key io root_key (
      transact u io
        (schedule_body u io q (new_token u io token_mode_reserved q.name q.expires_at q.now)))

-- RegisterScheduledReservationsWithSession
unfoldable pub register_scheduled_reservations :
    Platform → Io → String → Request → Store → Store × Fallible Reserved
register_scheduled_reservations u io root_key q =
    register_scheduled_request u io root_key (record q { starts_at = or_now q.starts_at q.now })

unfoldable pub register_hard_reservations :
    Platform → Io → String → String → List ℤ → String → ℕ → Store → Store × Fallible Reserved
register_hard_reservations u io root_key name gpus ttl_text now =
    checked (parse_ttl u ttl_text default_hard_ttl max_hard_ttl) λ ttl.
      register_scheduled_reservations u io root_key (record {
        name = name;
        purpose = "";
        session = "";
        gpus = gpus;
        starts_at = now;
        expires_at = now + ttl;
        now = now;
      })

abbrev pub is_managed_key : String → Token → Bool
is_managed_key id t = (t.id == trim_space id) && t.managed && not t.revoked

abbrev pub Grouped : Type 0
Grouped = Token × String × List Reservation

unfoldable pub replay_managed :
    Platform → Request → Token → Reservation → List Reservation → Fallible (Plan Grouped)
replay_managed u q token first existing = do
  refuse_if
      (not (first.token_hash == token.hash)
        || not (same_reservation_request u existing q token.name))
      session_reused
  ok (keep (token, first.group_id, existing))

unfoldable pub store_managed : Io → Request → Token → State → Fallible (Plan Grouped)
store_managed io q token s =
    let group_id = text_append "grp_" (io.draw 1) in
    let reservations = make_reservations io q token group_id 2 q.gpus in
    do
      check_total_capacity "reservation" (length s.reservations) (length q.gpus)
          max_total_reservations
      check_conflicts s.reservations q.starts_at q.expires_at q.gpus
      ok (
          write (record s { reservations = s.reservations ++ reservations })
            (token, group_id, reservations))

unfoldable pub managed_session : Platform → Io → Request → Token → State → Fallible (Plan Grouped)
managed_session u io q token s =
    let session = trim_space q.session in
    let fresh = store_managed io q token s in
    if is_empty session
    then fresh
    else replay_or fresh (replay_managed u q token) (of_session session s.reservations)

unfoldable pub managed_body : Platform → Io → String → Request → State → Fallible (Plan Grouped)
managed_body u io user_key_id q s =
    let token = or_empty (find (is_managed_key user_key_id) s.tokens) in
    do
      refuse_if (not s.managed_keys) managed_keys_off
      refuse_if (is_empty token.id) token_not_found
      managed_session u io q token s

-- RegisterManagedReservations
unfoldable pub register_managed_reservations :
    Platform → Io → String → String → Request → Store → Store × Fallible Grouped
register_managed_reservations u io root_key user_key_id q₀ =
    let q = record q₀ { starts_at = or_now q₀.starts_at q₀.now } in
    with_root_key io root_key
      (checked (check_managed_request q) λ _. transact u io (managed_body u io user_key_id q))
