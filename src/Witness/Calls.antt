-- ===== src/Witness/Calls.antt =====
-- Histories, admissions and revocations at concrete states.
use gpuardian.Base.{
  ◌≡◌, refl, ◌↔◌, ℤ, true, false, List, [], ◌∷◌, none, some, ok, arith, OnOk, String,
}
use gpuardian.Model.{
  Token, Reservation, Authorization, State, empty_state, empty_token, reservation_overlaps,
  reservation_starts_at, token_mode_claimed, mode_user,
}
use gpuardian.Model.Instants.{Shares, reservation_overlaps_iff}
use gpuardian.Store.Persist.{Io, Store, write}
use gpuardian.Store.Persist.Transact.{IsSettled, PlanKeeps}
use gpuardian.Store.Exclusive.{IsExclusive}
use gpuardian.Store.Validity.{
  token_active_at, token_expired, time_is_set, authorization_active_at, authorization_expired,
}
use gpuardian.Store.Tokens.{add_token}
use gpuardian.Store.Tokens.Admission.{IsAdmitted, add_token-IsAdmitted}
use gpuardian.Store.Rows.{add_authorization_body, update_authorization_body}
use gpuardian.Store.Rows.Admission.{
  HasRoomFor, add_authorization-HasRoomFor, update_authorization-HasRoomFor,
}
use gpuardian.Store.Revoke.{managed_group, target_hash, revoke_body}
use gpuardian.Store.Revoke.Cut.{IsCutOff, revoke_body-IsCutOff}
use gpuardian.Store.Reserve.{Request}
use gpuardian.Store.History.{Op, run, schedules, revokes, prunes}
use gpuardian.Store.History.Exclusive.{run-IsSettled}
use gpuardian.Witness.Samples.{calm, braces}

abbrev pub booking : Reservation
booking = record {
  id = "res_1";
  group_id = "";
  external_session_id = "";
  gpu = ℤ.pos 0;
  token_hash = "h1";
  holder = "ada";
  purpose = "";
  created_at = 5;
  starts_at = 10;
  expires_at = 20;
  active = true;
  revoked = false;
}

abbrev pub key : Token
key = record empty_token {
  id = "tok_1";
  hash = "h1";
  secret = "gk_1";
  name = "ada";
  mode = token_mode_claimed;
}

abbrev root_key : String
root_key = "rk_0123456789abcdef0123456789abcdef0123456789abcdef0123456789abcdef"

abbrev pub booked_state : State
booked_state = record empty_state { tokens = key ∷ []; reservations = booking ∷ [] }

abbrev booked : Store
booked = record {
  state = booked_state;
  committed = booked_state;
  loaded = true;
  file = none;
  root_file = some root_key;
}

booked-IsSettled : IsSettled IsExclusive booked
booked-IsSettled = record { loaded = refl; same = refl; holds = (tt, tt) }

abbrev request : Request
request = record {
  name = "bob";
  purpose = "";
  session = "";
  gpus = ℤ.pos 0 ∷ [];
  starts_at = 15;
  expires_at = 30;
  now = 12;
}

abbrev calls : List (Io × Op)
calls = (calm, schedules root_key request) ∷ (calm, revokes "tok_1") ∷ (calm, prunes 12) ∷ []

run-IsSettled_example : IsSettled IsExclusive (run braces calls booked)
run-IsSettled_example = run-IsSettled braces calls booked booked-IsSettled

reservation_overlaps_iff_example :
    (reservation_overlaps booking 15 30 ≡ true) ↔ Shares booking 15 30
reservation_overlaps_iff_example =
    reservation_overlaps_iff booking 15 30 (unfold reservation_starts_at in omega arith)
      (omega arith)

add_token-IsAdmitted_example :
    OnOk (PlanKeeps (IsAdmitted braces key 12)) (add_token braces 12 ("gk_1", key) booked_state)
add_token-IsAdmitted_example =
    add_token-IsAdmitted braces 12 "gk_1" key booked_state
      (unfold token_active_at token_expired time_is_set in refl)

abbrev pub grant : Authorization
grant = record {
  id = "auth_1";
  mode = mode_user;
  token_hash = "h1";
  token_mode = token_mode_claimed;
  token_version = ℤ.pos 0;
  holder = "ada";
  run_name = "";
  uid = ℤ.pos 1000;
  gid = ℤ.pos 1000;
  username = "ada";
  command = [];
  root_pid = ℤ.pos 0;
  cgroup_path = "";
  cgroup_rel = "";
  container_id = "";
  container_pattern = "";
  namespace = "";
  created_at = 11;
  expires_at = 0;
  active = true;
  revoked = false;
}

grant_lives : authorization_active_at grant 50 ≡ true
unfolding authorization_active_at authorization_expired time_is_set
grant_lives = refl

add_authorization-HasRoomFor_example :
    OnOk
      (PlanKeeps (λ s'. HasRoomFor grant 50 s'.authorizations))
      (add_authorization_body 50 grant booked_state)
add_authorization-HasRoomFor_example =
    add_authorization-HasRoomFor 50 grant booked_state grant_lives

update_authorization-HasRoomFor_example :
    OnOk
      (PlanKeeps (λ s'. HasRoomFor grant 50 s'.authorizations))
      (update_authorization_body 50 grant (record booked_state { authorizations = grant ∷ [] }))
update_authorization-HasRoomFor_example =
    update_authorization-HasRoomFor 50 grant (record booked_state { authorizations = grant ∷ [] })
      grant_lives

target_is_h1 : target_hash braces "tok_1" booked_state ≡ "h1"
unfolding target_hash
target_is_h1 = refl

revoke_body-IsCutOff_example :
    (state : State) × (revoke_body braces 50 "tok_1" booked_state ≡ ok (write state tt))
    × IsCutOff braces 50 (target_hash braces "tok_1" booked_state) state
unfolding managed_group target_hash
revoke_body-IsCutOff_example =
    revoke_body-IsCutOff braces 50 "tok_1" booked_state refl refl ((λ e. refl), tt) refl
