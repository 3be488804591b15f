-- ===== src/Model.antt =====
-- internal/model/model.go: the persisted records, and when a reservation holds a GPU.
-- A time.Time is the number of nanoseconds since the zero time, so 0 is the zero value (IsZero) and
-- UTC() changes nothing. The view types and the JSON tags are left out; a Go map is a function.
pub mod Instants
pub mod Processes
use gpuardian.Base.{
  ℕ, String, ℤ, Bool, false, not, ◌&&◌, List, [], ◌==◌, nat_eq, ltb, if◌then◌else◌,
}

abbrev pub mode_bare : String
mode_bare = "bare"

abbrev pub mode_docker : String
mode_docker = "docker"

abbrev pub mode_k8s : String
mode_k8s = "k8s"

abbrev pub mode_user : String
mode_user = "user"

abbrev pub token_mode_reserved : String
token_mode_reserved = "reserved"

abbrev pub token_mode_claimed : String
token_mode_claimed = "claimed"

abbrev pub token_mode_managed : String
token_mode_managed = "managed"

abbrev pub bypass_pid : String
bypass_pid = "pid"

abbrev pub bypass_command : String
bypass_command = "command"

pub record Token : Type 0 where
  pub id : String
  pub hash : String
  pub secret : String
  pub name : String
  pub mode : String
  pub version : ℤ
  pub managed : Bool
  pub created_at : ℕ
  pub expires_at : ℕ
  pub revoked : Bool

pub record Reservation : Type 0 where
  pub id : String
  pub group_id : String
  pub external_session_id : String
  pub gpu : ℤ
  pub token_hash : String
  pub holder : String
  pub purpose : String
  pub created_at : ℕ
  pub starts_at : ℕ
  pub expires_at : ℕ
  pub active : Bool
  pub revoked : Bool

unfoldable pub reservation_starts_at : Reservation → ℕ
reservation_starts_at r = if r.starts_at == 0 then r.created_at else r.starts_at

unfoldable pub reservation_active_at : Reservation → ℕ → Bool
unfolding reservation_starts_at
reservation_active_at r now =
    r.active && not r.revoked && not (ltb now (reservation_starts_at r)) && ltb now r.expires_at

unfoldable pub reservation_overlaps : Reservation → ℕ → ℕ → Bool
unfolding reservation_starts_at
reservation_overlaps r starts_at expires_at =
    if not r.active
    then false
    else if r.revoked
    then false
    else ltb (reservation_starts_at r) expires_at && ltb starts_at r.expires_at

pub record Authorization : Type 0 where
  pub id : String
  pub mode : String
  pub token_hash : String
  pub token_mode : String
  pub token_version : ℤ
  pub holder : String
  pub run_name : String
  pub uid : ℤ
  pub gid : ℤ
  pub username : String
  pub command : List String
  pub root_pid : ℤ
  pub cgroup_path : String
  pub cgroup_rel : String
  pub container_id : String
  pub container_pattern : String
  pub namespace : String
  pub created_at : ℕ
  pub expires_at : ℕ
  pub active : Bool
  pub revoked : Bool

pub record SoftClaim : Type 0 where
  pub id : String
  pub gpu : ℤ
  pub token_hash : String
  pub authorization_id : String
  pub holder : String
  pub runtime_container_id : String
  pub runtime_cgroup : String
  pub runtime_pid : ℤ
  pub runtime_start_time : ℕ  -- uint64
  pub created_at : ℕ
  pub updated_at : ℕ

pub record Lease : Type 0 where
  pub id : String
  pub gpu : ℤ
  pub mode : String
  pub token_hash : String
  pub holder : String
  pub uid : ℤ
  pub gid : ℤ
  pub command : List String
  pub root_pid : ℤ
  pub cgroup_path : String
  pub cgroup_rel : String
  pub container_id : String
  pub namespace : String
  pub created_at : ℕ
  pub expires_at : ℕ
  pub active : Bool

pub record BypassRule : Type 0 where
  pub id : String
  pub type : String
  pub pid : ℤ
  pub start_time : ℕ  -- uint64
  pub boot_id : String
  pub command : String
  pub uid : ℤ
  pub reason : String
  pub created_at : ℕ
  pub expires_at : ℕ
  pub revoked : Bool

pub record AuditEvent : Type 0 where
  pub time : ℕ
  pub kind : String
  pub message : String
  pub gpu : ℤ
  pub pid : ℤ
  pub lease_id : String
  pub user : String

pub record State : Type 0 where
  pub managed_keys : Bool
  pub key_snapshot_id : String
  pub managed_key_authority : String
  pub tokens : List Token
  pub reservations : List Reservation
  pub authorizations : List Authorization
  pub soft_claims : List SoftClaim
  pub leases : List Lease
  pub bypasses : List BypassRule
  pub audit : List AuditEvent

-- `model.State{}`
abbrev pub empty_state : State
empty_state = record {
  managed_keys = false;
  key_snapshot_id = "";
  managed_key_authority = "";
  tokens = [];
  reservations = [];
  authorizations = [];
  soft_claims = [];
  leases = [];
  bypasses = [];
  audit = [];
}

-- `model.Token{}`
abbrev pub empty_token : Token
empty_token = record {
  id = "";
  hash = "";
  secret = "";
  name = "";
  mode = "";
  version = ℤ.pos 0;
  managed = false;
  created_at = 0;
  expires_at = 0;
  revoked = false;
}
