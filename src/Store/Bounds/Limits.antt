-- ===== src/Store/Bounds/Limits.antt =====
-- validateStateBounds of internal/store/store.go against the limits, stated apart from its loops.
use Prim.Native.String.{len}
use gpuardian.Base.{
  ℕ, ◌+◌, ◌≤◌, ◌≡◌, refl, ◌↔◌, String, ℤ, List, [], ◌∷◌, All, All-mono, >>-eq-ok, >>-ok, length, ok,
  arith,
}
use gpuardian.Model.{
  Token, Reservation, Authorization, SoftClaim, Lease, BypassRule, AuditEvent, State,
}
use gpuardian.Store.Errors.{Fallible}
use gpuardian.Store.Bounds.{
  validate_persisted_values, validate_persisted_command, validate_gpu_index, validate_token,
  validate_reservation, validate_authorization, validate_soft_claim, validate_lease,
  validate_bypass, validate_audit_event, each, validate_count, validate_counts,
  validate_state_bounds, validate_arguments,
}

abbrev pub IsShort : String → Type 0
IsShort value = len value ≤ 4096

abbrev pub total_len : List String → ℕ
total_len [] = 0
total_len (s ∷ ss) = len s + total_len ss

pub record IsSmallCommand (command : List String) : Type 0 where
  pub few : length command ≤ 1024
  pub short : total_len command ≤ 262144

abbrev pub IsGpuIndex : ℤ → Type 0
IsGpuIndex (ℤ.pos n) = n ≤ 1023
IsGpuIndex (ℤ.negsuc n) = ⊥

values_sound :
    (kind : String) (values : List String)
    → validate_persisted_values kind values ≡ ok tt
    → All IsShort values
unfolding validate_persisted_values
values_sound kind [] h = tt
values_sound kind (v ∷ vs) h = ground (arith, values_sound kind vs)

values_complete :
    (kind : String) (values : List String)
    → All IsShort values
    → validate_persisted_values kind values ≡ ok tt
unfolding validate_persisted_values
values_complete kind [] h = refl
values_complete kind (v ∷ vs) h = ground (arith, values_complete kind vs h.1)

arguments_sound :
    (total : ℕ) (command : List String)
    → total ≤ 262144
    → validate_arguments total command ≡ ok tt
    → total + total_len command ≤ 262144
unfolding validate_arguments
arguments_sound total [] b h = omega arith
arguments_sound total (a ∷ command) b h = ground (arith, arguments_sound (total + len a) command)

arguments_complete :
    (total : ℕ) (command : List String)
    → total + total_len command ≤ 262144
    → validate_arguments total command ≡ ok tt
unfolding validate_arguments
arguments_complete total [] h = refl
arguments_complete total (a ∷ command) h =
    ground (arith, arguments_complete (total + len a) command)

command_sound :
    (command : List String) → validate_persisted_command command ≡ ok tt → IsSmallCommand command
unfolding validate_persisted_command
command_sound command h = ground (arith, arguments_sound 0 command)

command_complete :
    (command : List String) → IsSmallCommand command → validate_persisted_command command ≡ ok tt
unfolding validate_persisted_command
command_complete command h = ground (arith, arguments_complete 0 command)

gpu_sound : (gpu : ℤ) → validate_gpu_index gpu ≡ ok tt → IsGpuIndex gpu
unfolding validate_gpu_index
gpu_sound (ℤ.pos n) h = ground arith
gpu_sound (ℤ.negsuc n) h = ground arith

gpu_complete : (gpu : ℤ) → IsGpuIndex gpu → validate_gpu_index gpu ≡ ok tt
unfolding validate_gpu_index
gpu_complete (ℤ.pos n) h = ground arith
gpu_complete (ℤ.negsuc n) h = absurd h

module _ {ℓ} {A : Type ℓ} (check : A → Fallible (Unit {0})) where
  each_sound : (rows : List A) → each check rows ≡ ok tt → All (λ r. check r ≡ ok tt) rows
  unfolding each
  each_sound [] h = tt
  each_sound (row ∷ rows) h = ground (arith, each_sound rows)

  each_complete : (rows : List A) → All (λ r. check r ≡ ok tt) rows → each check rows ≡ ok tt
  unfolding each
  each_complete [] h = refl
  each_complete (row ∷ rows) h = rw h.0 (each_complete rows h.1)

abbrev pub FitsToken : Token → Type 0
FitsToken t = All IsShort (t.id ∷ t.hash ∷ t.secret ∷ t.name ∷ t.mode ∷ [])

pub record FitsReservation (r : Reservation) : Type 0 where
  pub gpu : IsGpuIndex r.gpu
  pub texts :
      All IsShort
        (r.id ∷ r.group_id ∷ r.external_session_id ∷ r.token_hash ∷ r.holder ∷ r.purpose ∷ [])

pub record FitsAuthorization (a : Authorization) : Type 0 where
  pub texts : All IsShort (
      a.id ∷ a.mode ∷ a.token_hash ∷ a.token_mode ∷ a.holder ∷ a.run_name ∷ a.username
      ∷ a.cgroup_path ∷ a.cgroup_rel ∷ a.container_id ∷ a.container_pattern ∷ a.namespace ∷ [])
  pub command : IsSmallCommand a.command

pub record FitsSoftClaim (c : SoftClaim) : Type 0 where
  pub gpu : IsGpuIndex c.gpu
  pub texts : All IsShort (
      c.id ∷ c.token_hash ∷ c.authorization_id ∷ c.holder ∷ c.runtime_container_id
      ∷ c.runtime_cgroup ∷ [])

pub record FitsLease (l : Lease) : Type 0 where
  pub gpu : IsGpuIndex l.gpu
  pub texts : All IsShort (
      l.id ∷ l.mode ∷ l.token_hash ∷ l.holder ∷ l.cgroup_path ∷ l.cgroup_rel ∷ l.container_id
      ∷ l.namespace ∷ [])
  pub command : IsSmallCommand l.command

abbrev pub FitsBypass : BypassRule → Type 0
FitsBypass b = All IsShort (b.id ∷ b.type ∷ b.boot_id ∷ b.command ∷ b.reason ∷ [])

pub record FitsAuditEvent (e : AuditEvent) : Type 0 where
  pub texts : All IsShort (e.kind ∷ e.lease_id ∷ e.user ∷ [])
  pub message : len e.message ≤ 16384

pub record FitsCounts (s : State) : Type 0 where
  pub tokens : length s.tokens ≤ 4096
  pub reservations : length s.reservations ≤ 4096
  pub authorizations : length s.authorizations ≤ 4096
  pub soft_claims : length s.soft_claims ≤ 4096
  pub leases : length s.leases ≤ 4096
  pub bypasses : length s.bypasses ≤ 1024
  pub audit : length s.audit ≤ 1000

-- The limits on a persisted state.
pub record IsWithinLimits (s : State) : Type 0 where
  pub names : All IsShort (s.key_snapshot_id ∷ s.managed_key_authority ∷ [])
  pub counts : FitsCounts s
  pub tokens : All FitsToken s.tokens
  pub reservations : All FitsReservation s.reservations
  pub authorizations : All FitsAuthorization s.authorizations
  pub soft_claims : All FitsSoftClaim s.soft_claims
  pub leases : All FitsLease s.leases
  pub bypasses : All FitsBypass s.bypasses
  pub audit : All FitsAuditEvent s.audit

counts_iff : (s : State) → (validate_counts s ≡ ok tt) ↔ FitsCounts s
unfolding validate_counts validate_count
counts_iff s = ground arith

-- For each kind of row: what the check accepts, and that nothing else fits.
token_iff : (t : Token) → (validate_token t ≡ ok tt) ↔ FitsToken t
unfolding validate_token
token_iff t = (values_sound _ _, values_complete _ _)

reservation_iff : (r : Reservation) → (validate_reservation r ≡ ok tt) ↔ FitsReservation r
unfolding validate_reservation
reservation_iff r = (
  λ h.
      let (p, q) = >>-eq-ok (validate_gpu_index r.gpu) _ h in
      record { gpu = gpu_sound _ p; texts = values_sound _ _ q },
  λ f. rw (gpu_complete r.gpu f.gpu) (values_complete _ _ f.texts),
)

authorization_iff : (a : Authorization) → (validate_authorization a ≡ ok tt) ↔ FitsAuthorization a
unfolding validate_authorization
authorization_iff a = (
  λ h.
      let (p, q) = >>-eq-ok _ (validate_persisted_command a.command) h in
      record { texts = values_sound _ _ p; command = command_sound _ q },
  λ f. >>-ok _ _ (values_complete _ _ f.texts) (command_complete _ f.command),
)

soft_claim_iff : (c : SoftClaim) → (validate_soft_claim c ≡ ok tt) ↔ FitsSoftClaim c
unfolding validate_soft_claim
soft_claim_iff c = (
  λ h.
      let (p, q) = >>-eq-ok (validate_gpu_index c.gpu) _ h in
      record { gpu = gpu_sound _ p; texts = values_sound _ _ q },
  λ f. >>-ok _ _ (gpu_complete c.gpu f.gpu) (values_complete _ _ f.texts),
)

lease_iff : (l : Lease) → (validate_lease l ≡ ok tt) ↔ FitsLease l
unfolding validate_lease
lease_iff l = (
  λ h.
      let (p, rest) = >>-eq-ok (validate_gpu_index l.gpu) _ h in
      let (q, r) = >>-eq-ok _ (validate_persisted_command l.command) rest in
      record { gpu = gpu_sound _ p; texts = values_sound _ _ q; command = command_sound _ r },
  λ f.
      >>-ok _ _ (gpu_complete l.gpu f.gpu)
        (>>-ok _ _ (values_complete _ _ f.texts) (command_complete _ f.command)),
)

bypass_iff : (b : BypassRule) → (validate_bypass b ≡ ok tt) ↔ FitsBypass b
unfolding validate_bypass
bypass_iff b = (values_sound _ _, values_complete _ _)

audit_event_iff : (e : AuditEvent) → (validate_audit_event e ≡ ok tt) ↔ FitsAuditEvent e
unfolding validate_audit_event
audit_event_iff e = (
  λ h.
      let (p, q) = >>-eq-ok (validate_persisted_values "audit event" _) _ h in
      record { texts = values_sound _ _ p; message = ground arith },
  λ f. >>-ok _ _ (values_complete _ _ f.texts) (let m = f.message in ground arith),
)

-- A loop accepts just where each row fits.
module _ {ℓ} {A : Type ℓ} {Fits : A → Type 0} {check : A → Fallible (Unit {0})}
    (each_iff : (a : A) → (check a ≡ ok tt) ↔ Fits a) where
  rows_sound : (rows : List A) → each check rows ≡ ok tt → All Fits rows
  rows_sound rows h = All-mono (λ a. (each_iff a).0) rows (each_sound check rows h)

  rows_complete : (rows : List A) → All Fits rows → each check rows ≡ ok tt
  rows_complete rows h = each_complete check rows (All-mono (λ a. (each_iff a).1) rows h)

-- A state passes the check exactly when it is within the limits.
pub validate_state_bounds_iff : (s : State) → (validate_state_bounds s ≡ ok tt) ↔ IsWithinLimits s
unfolding validate_state_bounds
validate_state_bounds_iff s = (
  λ h.
      let (n, h₁) = >>-eq-ok (validate_persisted_values "state" _) _ h in
      let (c, h₂) = >>-eq-ok (validate_counts s) _ h₁ in
      let (t, h₃) = >>-eq-ok (each validate_token s.tokens) _ h₂ in
      let (r, h₄) = >>-eq-ok (each validate_reservation s.reservations) _ h₃ in
      let (a, h₅) = >>-eq-ok (each validate_authorization s.authorizations) _ h₄ in
      let (k, h₆) = >>-eq-ok (each validate_soft_claim s.soft_claims) _ h₅ in
      let (l, h₇) = >>-eq-ok (each validate_lease s.leases) _ h₆ in
      let (b, e) = >>-eq-ok (each validate_bypass s.bypasses) _ h₇ in
      record {
        names = values_sound _ _ n;
        counts = (counts_iff s).0 c;
        tokens = rows_sound token_iff _ t;
        reservations = rows_sound reservation_iff _ r;
        authorizations = rows_sound authorization_iff _ a;
        soft_claims = rows_sound soft_claim_iff _ k;
        leases = rows_sound lease_iff _ l;
        bypasses = rows_sound bypass_iff _ b;
        audit = rows_sound audit_event_iff _ e;
      },
  λ f. >>-ok _ _ (values_complete _ _ f.names) (
      >>-ok _ _ ((counts_iff s).1 f.counts) (
        >>-ok _ _ (rows_complete token_iff _ f.tokens) (
          >>-ok _ _ (rows_complete reservation_iff _ f.reservations) (
            >>-ok _ _ (rows_complete authorization_iff _ f.authorizations) (
              >>-ok _ _ (rows_complete soft_claim_iff _ f.soft_claims) (
                >>-ok _ _ (rows_complete lease_iff _ f.leases) (
                  >>-ok _ _ (rows_complete bypass_iff _ f.bypasses)
                    (rows_complete audit_event_iff _ f.audit)))))))),
)
