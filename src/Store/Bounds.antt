-- ===== src/Store/Bounds.antt =====
-- The admission limits of internal/store/store.go and validateStateBounds.
pub mod Limits
use Prim.Native.String.{len}
use gpuardian.Base.{
  ℕ, ◌+◌, ◌-◌, String, ℤ, Bool, false, true, ◌||◌, List, [], ◌∷◌, ltb, if◌then◌else◌, length,
  Result, ok, err, ◌>>=◌, ◌>>◌, refuse_if, is_negative, exceeds,
}
use gpuardian.Model.{
  Token, Reservation, Authorization, SoftClaim, Lease, BypassRule, AuditEvent, State,
}
use gpuardian.Store.Errors.{
  Error, Fallible, limit_exceeded, value_too_long, too_many_arguments, command_too_long,
  message_too_long, gpu_out_of_range,
}

abbrev pub max_total_tokens : ℕ
max_total_tokens = 4096

abbrev pub max_total_reservations : ℕ
max_total_reservations = 4096

abbrev pub max_total_authorizations : ℕ
max_total_authorizations = 4096

abbrev pub max_total_soft_claims : ℕ
max_total_soft_claims = 4096

abbrev pub max_total_leases : ℕ
max_total_leases = 4096

abbrev pub max_total_bypasses : ℕ
max_total_bypasses = 1024

abbrev pub max_audit_events : ℕ
max_audit_events = 1000

abbrev pub max_gpu_index : ℕ
max_gpu_index = 1023

abbrev pub max_persisted_value_bytes : ℕ
max_persisted_value_bytes = 4096

abbrev pub max_persisted_command_args : ℕ
max_persisted_command_args = 1024

abbrev pub max_persisted_command_bytes : ℕ
max_persisted_command_bytes = 262144

abbrev pub max_audit_message_bytes : ℕ
max_audit_message_bytes = 16384

-- `-` on ℕ is exact here: the second test is read only where `adding ≤ maximum`.
unfoldable pub check_total_capacity : String → ℕ → ℕ → ℕ → Fallible (Unit {0})
check_total_capacity kind current adding maximum =
    refuse_if (ltb maximum adding || ltb (maximum - adding) current) (limit_exceeded kind)

unfoldable pub validate_persisted_values : String → List String → Fallible (Unit {0})
validate_persisted_values kind [] = ok tt
validate_persisted_values kind (value ∷ values) =
    if ltb max_persisted_value_bytes (len value)
    then err (value_too_long kind)
    else validate_persisted_values kind values

-- The loop over the arguments; `total` never passes the limit, so `-` is exact.
validate_arguments : ℕ → List String → Fallible (Unit {0})
validate_arguments total [] = ok tt
validate_arguments total (argument ∷ command) =
    if ltb (max_persisted_command_bytes - total) (len argument)
    then err command_too_long
    else validate_arguments (total + len argument) command

unfoldable pub validate_persisted_command : List String → Fallible (Unit {0})
unfolding validate_arguments
validate_persisted_command command = do
  refuse_if (ltb max_persisted_command_args (length command)) too_many_arguments
  validate_arguments 0 command

unfoldable pub validate_gpu_index : ℤ → Fallible (Unit {0})
validate_gpu_index gpu =
    refuse_if (is_negative gpu || exceeds gpu max_gpu_index) (gpu_out_of_range gpu)

unfoldable pub validate_token : Token → Fallible (Unit {0})
validate_token t =
    validate_persisted_values "token" (t.id ∷ t.hash ∷ t.secret ∷ t.name ∷ t.mode ∷ [])

unfoldable pub validate_reservation : Reservation → Fallible (Unit {0})
validate_reservation r = do
  validate_gpu_index r.gpu
  validate_persisted_values "reservation"
      (r.id ∷ r.group_id ∷ r.external_session_id ∷ r.token_hash ∷ r.holder ∷ r.purpose ∷ [])

unfoldable pub validate_authorization : Authorization → Fallible (Unit {0})
validate_authorization a = do
  validate_persisted_values "authorization" (
      a.id ∷ a.mode ∷ a.token_hash ∷ a.token_mode ∷ a.holder ∷ a.run_name ∷ a.username
      ∷ a.cgroup_path ∷ a.cgroup_rel ∷ a.container_id ∷ a.container_pattern ∷ a.namespace ∷ [])
  validate_persisted_command a.command

unfoldable pub validate_soft_claim : SoftClaim → Fallible (Unit {0})
validate_soft_claim c = do
  validate_gpu_index c.gpu
  validate_persisted_values "soft claim" (
      c.id ∷ c.token_hash ∷ c.authorization_id ∷ c.holder ∷ c.runtime_container_id
      ∷ c.runtime_cgroup ∷ [])

unfoldable pub validate_lease : Lease → Fallible (Unit {0})
validate_lease l = do
  validate_gpu_index l.gpu
  validate_persisted_values "lease" (
      l.id ∷ l.mode ∷ l.token_hash ∷ l.holder ∷ l.cgroup_path ∷ l.cgroup_rel ∷ l.container_id
      ∷ l.namespace ∷ [])
  validate_persisted_command l.command

unfoldable pub validate_bypass : BypassRule → Fallible (Unit {0})
validate_bypass b =
    validate_persisted_values "bypass" (b.id ∷ b.type ∷ b.boot_id ∷ b.command ∷ b.reason ∷ [])

unfoldable pub validate_audit_event : AuditEvent → Fallible (Unit {0})
validate_audit_event e = do
  validate_persisted_values "audit event" (e.kind ∷ e.lease_id ∷ e.user ∷ [])
  refuse_if (ltb max_audit_message_bytes (len e.message)) message_too_long

-- `for _, row := range rows { if err := check(row); err != nil { return err } }`
unfoldable pub each {ℓ} : {A : Type ℓ} → (A → Fallible (Unit {0})) → List A → Fallible (Unit {0})
each check [] = ok tt
each check (row ∷ rows) = check row >> each check rows

unfoldable pub validate_count : String → ℕ → ℕ → Fallible (Unit {0})
validate_count kind current maximum = refuse_if (ltb maximum current) (limit_exceeded kind)

unfoldable pub validate_counts : State → Fallible (Unit {0})
validate_counts s = do
  validate_count "token" (length s.tokens) max_total_tokens
  validate_count "reservation" (length s.reservations) max_total_reservations
  validate_count "authorization" (length s.authorizations) max_total_authorizations
  validate_count "soft claim" (length s.soft_claims) max_total_soft_claims
  validate_count "lease" (length s.leases) max_total_leases
  validate_count "bypass" (length s.bypasses) max_total_bypasses
  validate_count "audit event" (length s.audit) max_audit_events

unfoldable pub validate_state_bounds : State → Fallible (Unit {0})
validate_state_bounds s = do
  validate_persisted_values "state" (s.key_snapshot_id ∷ s.managed_key_authority ∷ [])
  validate_counts s
  each validate_token s.tokens
  each validate_reservation s.reservations
  each validate_authorization s.authorizations
  each validate_soft_claim s.soft_claims
  each validate_lease s.leases
  each validate_bypass s.bypasses
  each validate_audit_event s.audit
