-- ===== src/Store/Errors.antt =====
-- The errors of internal/store/store.go, one constructor for each message. Text that a wrapper puts
-- before an error is left out.
use gpuardian.Base.{String, ℤ, Result}

pub data Error : Type 0 where
  invalid_root_key token_expired token_revoked token_not_found : Error
  authorization_limit : Error
  -- fmt.Errorf("%s limit exceeded: …", kind, …)
  limit_exceeded : String → Error
  value_too_long : String → Error
  too_many_arguments command_too_long message_too_long : Error
  gpu_out_of_range negative_gpu duplicate_gpu : ℤ → Error
  holder_limit : String → Error
  end_before_start end_in_past too_long no_gpu : Error
  no_recoverable_key session_reused managed_keys_off : Error
  -- The GPU, and the id of the reservation in the way.
  reservation_overlap : ℤ → String → Error
  not_found : String → Error
  root_pid_not_positive : Error
  revoked_before_activation already_active : String → Error
  snapshot_required bad_managed_key hash_not_hex key_not_unique owner_not_unique : Error
  authority_required authority_mismatch : Error
  token_hash_required : Error
  bad_duration ttl_not_positive ttl_too_long : Error
  bad_root_key_file : Error
  encode_failed decode_failed state_too_large : Error
  -- What the operating system answers.
  os_fault : String → Error

abbrev pub Fallible {ℓ} : Type ℓ → Type ℓ
Fallible A = Result Error A
