-- ===== src/Witness/Persistence.antt =====
-- Saving, failing and restarting, at concrete stores.
use gpuardian.Base.{trim_space, ℤ, false, ◌≡◌, refl, ◌↔◌, true, [], none, some, ok, err, arith}
use gpuardian.Model.{BypassRule, empty_state}
use gpuardian.Store.Rows.{add_bypass_body}
use gpuardian.Store.Errors.{os_fault, state_too_large, invalid_root_key}
use gpuardian.Store.Bounds.{
  validate_bypass, check_total_capacity, validate_state_bounds, validate_counts, validate_count,
  validate_persisted_values, each,
}
use gpuardian.Store.Bounds.Limits.{IsWithinLimits, validate_state_bounds_iff}
use gpuardian.Store.RootKey.{
  with_root_key, read_or_create_root_key, create_root_key, judge_root_key, after_root_key,
}
use gpuardian.Store.Tokens.{register_soft_token}
use gpuardian.Store.History.{Op, call, registers_soft}
use gpuardian.Store.History.Failed.{Leaves, call-Leaves}
use gpuardian.Store.Persist.{
  Platform, Io, Store, new, load_locked, save_locked, encode_state, write_encoded, write_state,
  roll_back, transact, after_load, carry_out, finish,
}
use gpuardian.Store.Persist.Restart.{load_locked-save_locked, load_locked-save_locked_at_limit}
use gpuardian.Store.Persist.Atomic.{Failed, transact-Failed}
use gpuardian.Witness.Samples.{
  calm, named_state, is_named_state, writing, braces, encode-named, braces-RoundTrips, doubled,
  len-doubled,
}

validate_state_bounds_iff_example :
    (validate_state_bounds named_state ≡ ok tt) ↔ IsWithinLimits named_state
validate_state_bounds_iff_example = validate_state_bounds_iff named_state

-- A store that is about to save its first state.
abbrev changed : Store
changed = record {
  state = named_state;
  committed = empty_state;
  loaded = true;
  file = none;
  root_file = none;
}

changed_saves : (save_locked braces calm changed).1 ≡ ok tt
unfolding save_locked encode_state write_encoded write_state roll_back validate_state_bounds
    validate_counts validate_count validate_persisted_values each is_named_state
changed_saves = refl

load_locked-save_locked_example :
    let t = (save_locked braces calm changed).0 in
    let r = load_locked braces calm (new t.file t.root_file) in
    (r.1 ≡ ok tt) × (r.0.loaded ≡ true) × (r.0.state ≡ record changed.state { audit = [] })
load_locked-save_locked_example =
    load_locked-save_locked braces calm calm changed "{}" braces-RoundTrips changed_saves
      (encode-named "{}") (omega arith) refl

-- The platform whose encoding has 2 ^ 26 bytes.
abbrev largest : Platform
largest = writing (doubled 26)

largest_saves : (save_locked largest calm changed).1 ≡ ok tt
unfolding save_locked encode_state write_encoded write_state roll_back validate_state_bounds
    validate_counts validate_count validate_persisted_values each is_named_state
largest_saves = ground (arith, len-doubled 26)

load_locked-save_locked_at_limit_example :
    let t = (save_locked largest calm changed).0 in
    (load_locked largest calm (new t.file t.root_file)).1 ≡ err state_too_large
load_locked-save_locked_at_limit_example =
    load_locked-save_locked_at_limit largest calm calm changed (doubled 26) largest_saves
      (encode-named (doubled 26)) (len-doubled 26) refl

abbrev at_rest : Store
at_rest = record changed { state = empty_state }

abbrev no_directory : Io
no_directory = record calm { mkdir_fault = some (os_fault "read-only") }

abbrev exempt : BypassRule
exempt = record {
  id = "bypass_1";
  type = "uid";
  pid = ℤ.pos 0;
  start_time = 0;
  boot_id = "";
  command = "";
  uid = ℤ.pos 0;
  reason = "repair";
  created_at = 1;
  expires_at = 90;
  revoked = false;
}

exempt_fails :
    (transact braces no_directory (add_bypass_body exempt) at_rest).1 ≡ err (os_fault "read-only")
unfolding transact load_locked after_load carry_out finish save_locked encode_state write_encoded
    roll_back validate_state_bounds validate_counts validate_count validate_persisted_values each
    validate_bypass add_bypass_body check_total_capacity
exempt_fails = refl

transact-Failed_example :
    Failed no_directory
      (os_fault "read-only")
      at_rest
      (add_bypass_body exempt empty_state)
      (transact braces no_directory (add_bypass_body exempt) at_rest).0
transact-Failed_example =
    transact-Failed braces no_directory (add_bypass_body exempt) at_rest (os_fault "read-only") refl
      refl exempt_fails

-- A registration with a wrong root key, before there is a root key file.
abbrev intrusion : Op
intrusion = registers_soft "rk_wrong" "eve" 5

intrusion_fails : (call braces (calm, intrusion) at_rest).1 ≡ some invalid_root_key
unfolding call register_soft_token with_root_key read_or_create_root_key create_root_key
    judge_root_key after_root_key trim_space
intrusion_fails = refl

call-Leaves_example : Leaves calm invalid_root_key at_rest (call braces (calm, intrusion) at_rest).0
call-Leaves_example =
    call-Leaves braces calm intrusion at_rest invalid_root_key
      (record { loaded = refl; same = refl }) intrusion_fails
