-- ===== src/Store/Rows.antt =====
-- internal/store/store.go: adding, changing and releasing single rows, and ReleaseScopes.
pub mod Admission
pub mod Exclusive
use Prim.Native.String.{◌++◌ as text_append}
use gpuardian.Base.{
  ℕ, String, ℤ, Bool, true, false, not, ◌&&◌, ◌||◌, List, [], ◌∷◌, ◌++◌, map, Option, none, some,
  ◌==◌, nat_eq, string_eq, int_eq, if◌then◌else◌, find, any, keep_if, update_first, length, ok, err,
  ◌>>=◌, ◌>>◌, refuse_if, is_empty, or_fail, is_negative,
}
use gpuardian.Model.{Reservation, Authorization, SoftClaim, Lease, BypassRule, State}
use gpuardian.Store.Errors.{
  Error, Fallible, not_found, root_pid_not_positive, revoked_before_activation, already_active,
}
use gpuardian.Store.Bounds.{
  check_total_capacity, max_total_reservations, max_total_authorizations, max_total_bypasses,
}
use gpuardian.Store.Persist.{Platform, Io, Store, Plan, keep, write, write_if, transact}
use gpuardian.Store.Validity.{check_active_authorization_capacity}

-- Save the rows that were found and changed, or return without a save.
unfoldable pub write_found :
    {A : Type 0} → (List A → State) → Option (List A) → Fallible (Plan (Unit {0}))
write_found put none = ok (keep tt)
write_found put (some rows) = ok (write (put rows) tt)

abbrev pub Call : Type 0
Call = Store → Store × Fallible (Unit {0})

unfoldable pub add_lease_body : Lease → State → Fallible (Plan (Unit {0}))
add_lease_body lease s = ok (write (record s { leases = s.leases ++ lease ∷ [] }) tt)

unfoldable pub add_lease : Platform → Io → Lease → Call
add_lease u io lease = transact u io (add_lease_body lease)

unfoldable pub update_lease_body : Lease → State → Fallible (Plan (Unit {0}))
update_lease_body update s = do
  leases ←
      or_fail (update_first (λ l. l.id == update.id) (λ _. update) s.leases) (not_found update.id)
  ok (write (record s { leases = leases }) tt)

unfoldable pub update_lease : Platform → Io → Lease → Call
update_lease u io update = transact u io (update_lease_body update)

abbrev pub deactivate_lease : Lease → Lease
deactivate_lease l = record l { active = false }

abbrev pub deactivate_reservation : Reservation → Reservation
deactivate_reservation r = record r { active = false }

abbrev pub deactivate_authorization : Authorization → Authorization
deactivate_authorization a = record a { active = false }

unfoldable pub release_lease_body : String → State → Fallible (Plan (Unit {0}))
release_lease_body id s =
    write_found (λ leases. record s { leases = leases })
      (update_first (λ l. l.id == id) deactivate_lease s.leases)

unfoldable pub release_lease : Platform → Io → String → Call
release_lease u io id = transact u io (release_lease_body id)

unfoldable pub add_reservation_body : Reservation → State → Fallible (Plan (Unit {0}))
add_reservation_body reservation s = do
  check_total_capacity "reservation" (length s.reservations) 1 max_total_reservations
  ok (write (record s { reservations = s.reservations ++ reservation ∷ [] }) tt)

unfoldable pub add_reservation : Platform → Io → Reservation → Call
add_reservation u io reservation = transact u io (add_reservation_body reservation)

unfoldable pub release_reservation_body : String → State → Fallible (Plan (Unit {0}))
release_reservation_body id s =
    write_found (λ reservations. record s { reservations = reservations })
      (update_first (λ r. r.id == id) deactivate_reservation s.reservations)

unfoldable pub release_reservation : Platform → Io → String → Call
release_reservation u io id = transact u io (release_reservation_body id)

unfoldable pub add_authorization_body : ℕ → Authorization → State → Fallible (Plan (Unit {0}))
add_authorization_body clock authorization s = do
  check_total_capacity "authorization" (length s.authorizations) 1 max_total_authorizations
  check_active_authorization_capacity s.authorizations authorization clock
  ok (write (record s { authorizations = s.authorizations ++ authorization ∷ [] }) tt)

unfoldable pub add_authorization : Platform → Io → Authorization → Call
add_authorization u io authorization = transact u io (add_authorization_body io.clock authorization)

-- The loop of UpdateAuthorization; `before` are the rows that it has passed.
unfoldable pub replace_authorization :
    ℕ → Authorization → List Authorization → List Authorization → Fallible (List Authorization)
replace_authorization clock update before [] = err (not_found update.id)
replace_authorization clock update before (a ∷ after) =
    let rest = replace_authorization clock update (before ++ a ∷ []) after in
    if a.id == update.id
    then check_active_authorization_capacity (before ++ after) update clock
      >> ok (before ++ update ∷ after)
    else rest

unfoldable pub update_authorization_body : ℕ → Authorization → State → Fallible (Plan (Unit {0}))
update_authorization_body clock update s = do
  rows ← replace_authorization clock update [] s.authorizations
  ok (write (record s { authorizations = rows }) tt)

unfoldable pub update_authorization : Platform → Io → Authorization → Call
update_authorization u io update = transact u io (update_authorization_body io.clock update)

unfoldable pub activate_row : String → ℤ → Authorization → Fallible Authorization
activate_row id root_pid a = do
  refuse_if (not a.active || a.revoked) (revoked_before_activation id)
  refuse_if (not (a.root_pid == ℤ.pos 0)) (already_active id)
  ok (record a { root_pid = root_pid })

unfoldable pub activate_body : String → ℤ → State → Fallible (Plan Authorization)
activate_body id root_pid s = do
  a ← or_fail (find (λ a. a.id == id) s.authorizations) (not_found id)
  active ← activate_row id root_pid a
  rows ← or_fail (update_first (λ b. b.id == id) (λ _. active) s.authorizations) (not_found id)
  ok (write (record s { authorizations = rows }) active)

unfoldable pub activate_authorization :
    Platform → Io → String → ℤ → Store → Store × Fallible Authorization
activate_authorization u io id root_pid s =
    if is_negative root_pid || root_pid == ℤ.pos 0
    then (s, err root_pid_not_positive)
    else transact u io (activate_body id root_pid) s

unfoldable pub release_authorization_body : String → State → Fallible (Plan (Unit {0}))
release_authorization_body id s =
    write_found (λ authorizations. record s { authorizations = authorizations })
      (update_first (λ a. a.id == id) deactivate_authorization s.authorizations)

unfoldable pub release_authorization : Platform → Io → String → Call
release_authorization u io id = transact u io (release_authorization_body id)

-- `selected(ids)[id]`
abbrev pub is_selected : List String → String → Bool
is_selected ids id = any (λ i. i == id) ids

abbrev pub release_if_reservation : List String → Reservation → Reservation
release_if_reservation ids r =
    if is_selected ids r.id && r.active then deactivate_reservation r else r

abbrev pub release_if_authorization : List String → Authorization → Authorization
release_if_authorization ids a =
    if is_selected ids a.id && a.active then deactivate_authorization a else a

abbrev pub release_if_lease : List String → Lease → Lease
release_if_lease ids l = if is_selected ids l.id && l.active then deactivate_lease l else l

unfoldable pub release_scopes_body :
    List String → List String → List String → State → Fallible (Plan (Unit {0}))
release_scopes_body reservation_ids authorization_ids lease_ids s =
    let changed =
      any (λ r. is_selected reservation_ids r.id && r.active) s.reservations
      || any (λ a. is_selected authorization_ids a.id && a.active) s.authorizations
      || any (λ l. is_selected lease_ids l.id && l.active) s.leases in
    let released = record s {
      reservations = map (release_if_reservation reservation_ids) s.reservations;
      authorizations = map (release_if_authorization authorization_ids) s.authorizations;
      leases = map (release_if_lease lease_ids) s.leases;
    } in
    write_if changed released tt

abbrev pub none_given : List String → Bool
none_given [] = true
none_given (id ∷ ids) = false

unfoldable pub release_scopes : Platform → Io → List String → List String → List String → Call
release_scopes u io reservation_ids authorization_ids lease_ids s =
    if none_given reservation_ids && none_given authorization_ids && none_given lease_ids
    then (s, ok tt)
    else transact u io (release_scopes_body reservation_ids authorization_ids lease_ids) s

abbrev pub same_claim : SoftClaim → SoftClaim → Bool
same_claim claim c = (c.gpu == claim.gpu) && (c.token_hash == claim.token_hash)

abbrev pub renew_claim : SoftClaim → SoftClaim → SoftClaim
renew_claim claim old = record claim { id = old.id; created_at = old.created_at }

unfoldable pub complete_claim : Io → SoftClaim → ℕ → SoftClaim
complete_claim io claim now = record claim {
  id = if is_empty claim.id then text_append "claim_" (io.draw 1) else claim.id;
  created_at = if claim.created_at == 0 then now else claim.created_at;
  updated_at = now;
}

abbrev pub or_appended : SoftClaim → List SoftClaim → Option (List SoftClaim) → List SoftClaim
or_appended claim claims none = claims ++ claim ∷ []
or_appended claim claims (some renewed) = renewed

unfoldable pub upsert_claim_body : SoftClaim → State → Fallible (Plan (Unit {0}))
upsert_claim_body claim s = ok (
    write
      (record s {
        soft_claims =
            or_appended claim s.soft_claims
              (update_first (same_claim claim) (renew_claim claim) s.soft_claims);
      })
      tt)

unfoldable pub upsert_soft_claim : Platform → Io → SoftClaim → ℕ → Call
upsert_soft_claim u io claim now = transact u io (upsert_claim_body (complete_claim io claim now))

unfoldable pub release_claim_body : String → State → Fallible (Plan (Unit {0}))
release_claim_body id s =
    write_if (any (λ c. c.id == id) s.soft_claims)
      (record s { soft_claims = keep_if (λ c. not (c.id == id)) s.soft_claims }) tt

unfoldable pub release_soft_claim : Platform → Io → String → Call
release_soft_claim u io id = transact u io (release_claim_body id)

unfoldable pub add_bypass_body : BypassRule → State → Fallible (Plan (Unit {0}))
add_bypass_body rule s = do
  check_total_capacity "bypass" (length s.bypasses) 1 max_total_bypasses
  ok (write (record s { bypasses = s.bypasses ++ rule ∷ [] }) tt)

unfoldable pub add_bypass : Platform → Io → BypassRule → Call
add_bypass u io rule = transact u io (add_bypass_body rule)
