-- ===== src/Witness/Sessions.antt =====
-- A session's request, stored and repeated.
use gpuardian.Base.{
  any, ◌≡◌, refl, String, ℤ, false, List, [], ◌∷◌, ◌++◌, ok, map, trim_space, to_lower, is_empty,
}
use gpuardian.Model.{Token, Reservation, State, reservation_overlaps, reservation_starts_at}
use gpuardian.Store.Bounds.{check_total_capacity, validate_persisted_values}
use gpuardian.Store.Persist.{Io, keep, write}
use gpuardian.Store.Validity.{
  check_token_capacity, token_active_at, token_expired, time_is_set, normalize_holder,
  normalize_token_mode,
}
use gpuardian.Store.Reserve.{
  Request, make_reservations, schedule_body, store_scheduled, check_conflicts, refuse_conflict,
  replay_or, Reserved, has_hash,
}
use gpuardian.Store.Reserve.Replay.{key_for, schedule_body_replay}
use gpuardian.Store.Tokens.{new_token}
use gpuardian.Store.RootKey.{all_hex}
use gpuardian.Store.Sync.{
  ManagedKey, Snapshot, token_of_key, make_managed, check_snapshot, sync_body,
}
use gpuardian.Store.Sync.Cutover.{Installs, IsCutOver, sync_body-IsCutOver}
use gpuardian.Witness.Samples.{braces, calm}
use gpuardian.Witness.Calls.{booked_state}

abbrev asked : Request
asked = record {
  name = " Bob ";
  purpose = "training";
  session = "sess_1";
  gpus = ℤ.pos 1 ∷ ℤ.pos 2 ∷ [];
  starts_at = 15;
  expires_at = 30;
  now = 12;
}

abbrev drawn : Token
drawn = (key_for braces calm asked).1

abbrev made : List Reservation
made = make_reservations calm asked drawn "" 3 asked.gpus

abbrev answer : Reserved
answer = ((key_for braces calm asked).0, drawn, made)

abbrev after : State
after = record booked_state {
  tokens = booked_state.tokens ++ drawn ∷ [];
  reservations = booked_state.reservations ++ made;
}

stored :
    schedule_body braces calm asked (key_for braces calm asked) booked_state
    ≡ ok (write after answer)
unfolding schedule_body store_scheduled check_conflicts refuse_conflict replay_or
    check_total_capacity check_token_capacity token_active_at token_expired time_is_set
    normalize_holder trim_space to_lower reservation_overlaps reservation_starts_at
    make_reservations new_token normalize_token_mode
stored = refl

named : is_empty (trim_space asked.session) ≡ false
unfolding trim_space
named = refl

for_bob : is_empty (trim_space asked.name) ≡ false
unfolding trim_space
for_bob = refl

new_hash : any (has_hash (key_for braces calm asked).1.hash) booked_state.tokens ≡ false
unfolding new_token
new_hash = refl

-- What is drawn where the request comes again.
abbrev later : Io
later = record calm { draw = λ n. "9" }

schedule_body_replay_example :
    schedule_body braces later asked (key_for braces later asked) after ≡ ok (keep answer)
schedule_body_replay_example =
    schedule_body_replay braces calm later asked booked_state after answer named for_bob refl refl
      new_hash stored

-- Two keys of a gateway, the second of them the holder's.
abbrev given_key : String → String → String → ManagedKey
given_key id owner hash = record { id = id; owner = owner; version = ℤ.pos 1; hash = hash }

abbrev given : Snapshot
given = record {
  snapshot_id = "snap_1";
  authority_id = "gateway";
  keys =
      given_key "key_1" " Eve " "00112233445566778899aabbccddeeff00112233445566778899aabbccddeeff"
      ∷ given_key "key_2" "Ada" "ffeeddccbbaa99887766554433221100ffeeddccbbaa99887766554433221100"
      ∷ [];
}

abbrev given_tokens : List Token
given_tokens = map (token_of_key braces 12) given.keys

given-checked : check_snapshot braces 12 given ≡ ok given_tokens
unfolding check_snapshot make_managed token_of_key trim_space to_lower normalize_holder all_hex
    validate_persisted_values
given-checked = refl

sync_body-IsCutOver_example :
    Installs (IsCutOver braces 12 given) (sync_body braces calm given given_tokens booked_state)
sync_body-IsCutOver_example =
    sync_body-IsCutOver braces calm 12 given given_tokens booked_state given-checked refl refl
