-- ===== src/Store/Revoke.antt =====
-- internal/store/store.go: Revoke, by token, secret, reservation, group, authorization, lease,
-- bypass or claim.
pub mod Exclusive
pub mod Cut
use gpuardian.Base.{
  ℕ, String, Bool, true, false, not, ◌&&◌, ◌||◌, List, [], ◌∷◌, map, Option, none, some, ◌==◌,
  string_eq, if◌then◌else◌, find, any, keep_if, ok, err, trim_space, is_empty, has_prefix,
}
use gpuardian.Model.{Token, Reservation, Authorization, SoftClaim, Lease, BypassRule, State}
use gpuardian.Store.Errors.{Error, Fallible, not_found}
use gpuardian.Store.Persist.{Platform, Io, Store, Plan, write, write_if, transact}
use gpuardian.Store.Rows.{Call}
use gpuardian.Store.Tokens.{hash_token}

-- The group of a reservation, or its own id where it has none.
abbrev pub group_of : Reservation → String
group_of r = if is_empty r.group_id then r.id else r.group_id

abbrev pub has_managed_hash : List Token → Reservation → Bool
has_managed_hash tokens r = any (λ t. t.managed && t.hash == r.token_hash) tokens

abbrev pub is_managed_target : List Token → String → Reservation → Bool
is_managed_target tokens id r = has_managed_hash tokens r && (r.id == id || group_of r == id)

-- managedGroupID, the empty text where no managed reservation is named.
unfoldable pub managed_group : String → State → String
managed_group id s = elim (find (is_managed_target s.tokens id) s.reservations) [
  | none ↦ ""
  | some r ↦ group_of r
]

abbrev pub revoke_reservation : Reservation → Reservation
revoke_reservation r = record r { revoked = true }

abbrev pub revoke_in_group : String → Reservation → Reservation
revoke_in_group group r = if group_of r == group && not r.revoked then revoke_reservation r else r

unfoldable pub revoke_group : String → State → Fallible (Plan (Unit {0}))
revoke_group group s =
    write_if (any (λ r. group_of r == group && not r.revoked) s.reservations)
      (record s { reservations = map (revoke_in_group group) s.reservations }) tt

-- `x.ID == idOrToken || (tokenHash != "" && x.TokenHash == tokenHash)`
abbrev pub is_target : String → String → String → String → Bool
is_target id hash row_id row_hash = row_id == id || (not (is_empty hash) && row_hash == hash)

abbrev pub secret_hash : Platform → String → String
secret_hash u id = if has_prefix id "gk_" then hash_token u id else ""

abbrev pub token_hash_of : String → Option Token → String
token_hash_of hash none = hash
token_hash_of hash (some t) = t.hash

abbrev pub reservation_hash_of : Option Reservation → String
reservation_hash_of none = ""
reservation_hash_of (some r) = r.token_hash

-- tokenHash before the rows are marked.
unfoldable pub target_hash : Platform → String → State → String
target_hash u id s =
    let from_secret = secret_hash u id in
    let hash =
      token_hash_of from_secret (find (λ t. is_target id from_secret t.id t.hash) s.tokens) in
    if is_empty hash then reservation_hash_of (find (λ r. r.id == id) s.reservations) else hash

-- The loop over the tokens: each row that is hit hands its hash on to the rows behind it.
unfoldable pub revoke_tokens : String → String → List Token → String × List Token × Bool
revoke_tokens id hash [] = (hash, [], false)
revoke_tokens id hash (t ∷ ts) =
    let target = is_target id hash t.id t.hash in
    let (last, rest, hit) = revoke_tokens id (if target then t.hash else hash) ts in
    (last, (if target then record t { revoked = true } else t) ∷ rest, target || hit)

abbrev pub revoke_if_reservation : String → String → Reservation → Reservation
revoke_if_reservation id hash r =
    if is_target id hash r.id r.token_hash then revoke_reservation r else r

abbrev pub revoke_if_authorization : String → String → Authorization → Authorization
revoke_if_authorization id hash a =
    if is_target id hash a.id a.token_hash then record a { revoked = true } else a

abbrev pub expire_if_lease : ℕ → String → String → Lease → Lease
expire_if_lease clock id hash l =
    if is_target id hash l.id l.token_hash then record l { expires_at = clock } else l

abbrev pub revoke_if_bypass : String → BypassRule → BypassRule
revoke_if_bypass id b = if b.id == id then record b { revoked = true } else b

-- The rows of every kind that the id or the hash names.
unfoldable pub revoke_rows : ℕ → String → String → State → Fallible (Plan (Unit {0}))
revoke_rows clock id start s =
    let (hash, tokens, hit) = revoke_tokens id start s.tokens in
    let marked =
      hit
      || any (λ r. is_target id hash r.id r.token_hash) s.reservations
      || any (λ a. is_target id hash a.id a.token_hash) s.authorizations
      || any (λ l. is_target id hash l.id l.token_hash) s.leases
      || any (λ b. b.id == id) s.bypasses in
    let sweep = not (is_empty hash) || marked in
    let changed = marked || (sweep && any (λ c. c.id == id) s.soft_claims) in
    let revoked = record s {
      tokens = tokens;
      reservations = map (revoke_if_reservation id hash) s.reservations;
      authorizations = map (revoke_if_authorization id hash) s.authorizations;
      leases = map (expire_if_lease clock id hash) s.leases;
      bypasses = map (revoke_if_bypass id) s.bypasses;
      soft_claims = if sweep then keep_if (λ c. not (c.id == id)) s.soft_claims else s.soft_claims;
    } in
    if changed then ok (write revoked tt) else err (not_found id)

unfoldable pub revoke_body : Platform → ℕ → String → State → Fallible (Plan (Unit {0}))
revoke_body u clock id s =
    let group = managed_group id s in
    let rows = revoke_rows clock id (target_hash u id s) s in
    if is_empty group then rows else revoke_group group s

unfoldable pub revoke : Platform → Io → String → Call
revoke u io id_or_token = transact u io (revoke_body u io.clock (trim_space id_or_token))
