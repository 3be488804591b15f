-- ===== src/Store/Prune.antt =====
-- internal/store/store.go: Prune, PruneInactiveManagedScopes and PruneUnreferencedInvalidEntitlements.
pub mod Exclusive
use gpuardian.Base.{
  ℕ, String, Bool, true, false, not, ◌&&◌, ◌||◌, List, [], ◌∷◌, Option, none, some, ◌==◌, nat_eq,
  string_eq, if◌then◌else◌, ltb, any, keep_if, ok, is_empty,
}
use gpuardian.Model.{
  Token, Reservation, Authorization, SoftClaim, Lease, BypassRule, State, token_mode_reserved,
}
use gpuardian.Store.Errors.{Fallible}
use gpuardian.Store.Persist.{Platform, Io, Store, Plan, write_if, transact}
use gpuardian.Store.Validity.{token_expired, authorization_expired, normalize_token_mode}
use gpuardian.Store.Rows.{Call, is_selected, none_given}

-- A reservation that has neither ended nor been released or revoked.
abbrev pub reservation_is_live : ℕ → Reservation → Bool
reservation_is_live now r = r.active && not r.revoked && ltb now r.expires_at

-- liveReservationTokenHashes(reservations, now)[hash]
unfoldable pub has_live_reservation : List Reservation → ℕ → String → Bool
has_live_reservation reservations now hash =
    any (λ r. reservation_is_live now r && not (is_empty r.token_hash) && r.token_hash == hash)
      reservations

unfoldable pub token_is_dead : Platform → State → ℕ → Token → Bool
token_is_dead u s now t =
    t.revoked
    || token_expired t now
    || (normalize_token_mode u t.mode == token_mode_reserved
        && not (has_live_reservation s.reservations now t.hash))

-- expiredTokenHashes[hash]
unfoldable pub is_dead_hash : Platform → State → ℕ → String → Bool
is_dead_hash u s now hash =
    any (λ t. token_is_dead u s now t && not (is_empty t.hash) && t.hash == hash) s.tokens

abbrev pub reservation_is_dead : Platform → State → ℕ → Reservation → Bool
reservation_is_dead u s now r =
    r.revoked || not r.active || not (ltb now r.expires_at) || is_dead_hash u s now r.token_hash

abbrev pub authorization_is_dead : Platform → State → ℕ → Authorization → Bool
authorization_is_dead u s now a =
    a.revoked || not a.active || authorization_expired a now || is_dead_hash u s now a.token_hash

abbrev pub lease_is_dead : Platform → State → ℕ → Lease → Bool
lease_is_dead u s now l =
    not l.active || not (ltb now l.expires_at) || is_dead_hash u s now l.token_hash

abbrev pub bypass_is_dead : ℕ → BypassRule → Bool
bypass_is_dead now b = b.revoked || not (ltb now b.expires_at)

abbrev pub claim_is_dead : Platform → State → ℕ → List Authorization → SoftClaim → Bool
claim_is_dead u s now kept c =
    is_dead_hash u s now c.token_hash || not (any (λ a. a.id == c.authorization_id) kept)

-- `changed` before the claims are swept.
unfoldable pub prunes_rows : Platform → State → ℕ → Bool
prunes_rows u s now =
    any (token_is_dead u s now) s.tokens
    || any (reservation_is_dead u s now) s.reservations
    || any (authorization_is_dead u s now) s.authorizations
    || any (lease_is_dead u s now) s.leases
    || any (bypass_is_dead now) s.bypasses

-- pruneExpiredLocked: the state afterwards. Claims are swept only where another row went; a dead
-- hash comes from a dead token, so the first half of the source's test is implied.
unfoldable pub prune_expired : Platform → ℕ → State → State
prune_expired u now s =
    let authorizations = keep_if (λ a. not (authorization_is_dead u s now a)) s.authorizations in
    record s {
      tokens = keep_if (λ t. not (token_is_dead u s now t)) s.tokens;
      reservations = keep_if (λ r. not (reservation_is_dead u s now r)) s.reservations;
      authorizations = authorizations;
      leases = keep_if (λ l. not (lease_is_dead u s now l)) s.leases;
      bypasses = keep_if (λ b. not (bypass_is_dead now b)) s.bypasses;
      soft_claims = keep_if (λ c. not (claim_is_dead u s now authorizations c)) s.soft_claims;
    }

unfoldable pub prune_body : Platform → ℕ → State → Fallible (Plan (Unit {0}))
prune_body u now s = write_if (prunes_rows u s now) (prune_expired u now s) tt

unfoldable pub prune : Platform → Io → ℕ → Call
prune u io now = transact u io (prune_body u now)

abbrev pub is_closed_authorization : List String → Authorization → Bool
is_closed_authorization ids a = is_selected ids a.id && not a.active && not (is_empty a.cgroup_path)

abbrev pub is_closed_lease : List String → Lease → Bool
is_closed_lease ids l = is_selected ids l.id && not l.active && not (is_empty l.cgroup_path)

unfoldable pub prune_scopes_body : List String → List String → State → Fallible (Plan (Unit {0}))
prune_scopes_body authorization_ids lease_ids s =
    write_if
      (any (is_closed_authorization authorization_ids) s.authorizations
        || any (is_closed_lease lease_ids) s.leases)
      (record s {
        authorizations =
            keep_if (λ a. not (is_closed_authorization authorization_ids a)) s.authorizations;
        leases = keep_if (λ l. not (is_closed_lease lease_ids l)) s.leases;
      })
      tt

unfoldable pub prune_inactive_managed_scopes : Platform → Io → List String → List String → Call
prune_inactive_managed_scopes u io authorization_ids lease_ids s =
    if none_given authorization_ids && none_given lease_ids
    then (s, ok tt)
    else transact u io (prune_scopes_body authorization_ids lease_ids) s

-- referenced[hash]: a scope outside a cgroup still needs the hash.
unfoldable pub is_referenced : State → String → Bool
is_referenced s hash =
    any (λ a. is_empty a.cgroup_path && not (is_empty a.token_hash) && a.token_hash == hash)
      s.authorizations
    || any (λ l. is_empty l.cgroup_path && not (is_empty l.token_hash) && l.token_hash == hash)
        s.leases

abbrev pub token_is_valid : ℕ → Token → Bool
token_is_valid now t = not t.revoked && (t.expires_at == 0 || ltb now t.expires_at)

-- tokenValid[hash]: the last token with the hash decides.
unfoldable pub valid_hash : ℕ → List Token → String → Bool
valid_hash now [] hash = false
valid_hash now (t ∷ ts) hash =
    let later = valid_hash now ts hash in
    if any (λ t'. t'.hash == hash) ts then later else t.hash == hash && token_is_valid now t

abbrev pub reservation_is_over : State → ℕ → Reservation → Bool
reservation_is_over s now r =
    (not r.active || r.revoked || not (ltb now r.expires_at)) && not (is_referenced s r.token_hash)

abbrev pub token_is_over : State → ℕ → Token → Bool
token_is_over s now t = not (valid_hash now s.tokens t.hash) && not (is_referenced s t.hash)

unfoldable pub prune_entitlements_body : ℕ → State → Fallible (Plan (Unit {0}))
prune_entitlements_body now s =
    write_if (any (reservation_is_over s now) s.reservations || any (token_is_over s now) s.tokens)
      (record s {
        reservations = keep_if (λ r. not (reservation_is_over s now r)) s.reservations;
        tokens = keep_if (λ t. not (token_is_over s now t)) s.tokens;
      })
      tt

unfoldable pub prune_unreferenced_invalid_entitlements : Platform → Io → ℕ → Call
prune_unreferenced_invalid_entitlements u io now = transact u io (prune_entitlements_body now)
