-- ===== src/Enforce/Entitlement.antt =====
-- internal/enforce/enforce.go: which authorizations and leases entitle to a GPU, and which have gone
-- stale. The maps from a token hash, or from a GPU and a token hash, are lists of their keys.
pub mod Shortcut
use gpuardian.Base.{
  ℕ, String, ℤ, Bool, true, false, not, ◌&&◌, ◌||◌, Option, none, some, List, [], ◌∷◌, any, map,
  keep_if, ◌==◌, nat_eq, string_eq, int_eq, ltb, if◌then◌else◌, is_empty,
}
use gpuardian.Model.{
  Token, Reservation, Authorization, Lease, State, reservation_active_at, token_mode_reserved,
  token_mode_claimed, token_mode_managed,
}
use gpuardian.Store.Persist.{Platform}
use gpuardian.Store.Validity.{time_is_set, authorization_expired, normalize_token_mode}

-- tokensByHash[hash]: the last token with the hash.
unfoldable pub token_by_hash : String → List Token → Option Token
token_by_hash hash [] = none
token_by_hash hash (t ∷ ts) = elim (token_by_hash hash ts) [
  | some later ↦ some later
  | none ↦ if t.hash == hash then some t else none
]

-- A GPU and a token hash.
abbrev pub Key : Type 0
Key = ℤ × String

abbrev pub has_key : ℤ → String → List Key → Bool
has_key gpu hash = any (λ k. (k.0 == gpu) && k.1 == hash)

-- The hashes of the keys, whatever their GPU.
abbrev pub knows_hash : String → List Key → Bool
knows_hash hash = any (λ k. k.1 == hash)

abbrev pub not_past : ℕ → ℕ → Bool
not_past expires_at now = not (time_is_set expires_at) || ltb now expires_at

-- tokenValid in the loop over the reservations.
unfoldable pub reserves : Platform → ℕ → Option Token → Bool
reserves u now none = false
reserves u now (some t) =
    not t.revoked
    && normalize_token_mode u t.mode == token_mode_reserved
    && not_past t.expires_at now

unfoldable pub is_valid_reservation : Platform → List Token → ℕ → Reservation → Bool
is_valid_reservation u tokens now r =
    not (is_empty r.token_hash)
    && reserves u now (token_by_hash r.token_hash tokens)
    && reservation_active_at r now

unfoldable pub is_stale_reservation : Platform → List Token → ℕ → Reservation → Bool
is_stale_reservation u tokens now r =
    not (is_empty r.token_hash)
    && not (is_valid_reservation u tokens now r)
    && (not (reserves u now (token_by_hash r.token_hash tokens))
        || not r.active
        || r.revoked
        || not (ltb now r.expires_at))

abbrev pub key_of : Reservation → Key
key_of r = (r.gpu, r.token_hash)

-- What the pass knows of the reservations: the keys of the valid and of the stale ones.
pub record Known : Type 0 where
  pub valid : List Key
  pub stale : List Key

unfoldable pub know_reservations : Platform → State → ℕ → Known
know_reservations u s now = record {
  valid = map key_of (keep_if (is_valid_reservation u s.tokens now) s.reservations);
  stale = map key_of (keep_if (is_stale_reservation u s.tokens now) s.reservations);
}

-- A token that is there, stands, and has the version that the authorization was made for.
unfoldable pub token_backs : Authorization → ℕ → Option Token → Bool
token_backs a now none = false
token_backs a now (some t) =
    not t.revoked && (not t.managed || a.token_version == t.version) && not_past t.expires_at now

unfoldable pub authorization_globally_valid : Authorization → List Token → ℕ → Bool
authorization_globally_valid a tokens now =
    if not a.active || a.revoked || authorization_expired a now
    then false
    else token_backs a now (token_by_hash a.token_hash tokens)

unfoldable pub authorization_eviction_mode : Platform → Authorization → List Token → String
authorization_eviction_mode u a tokens =
    normalize_token_mode u
      (elim (token_by_hash a.token_hash tokens) [ some t ↦ t.mode | none ↦ a.token_mode ])

-- By the mode: whether the authorization entitles to the GPU, and whether it is stale there.
unfoldable pub eviction_state_of_mode : String → Bool → Bool → Bool → Bool × Bool
eviction_state_of_mode mode globally_valid valid stale =
    if mode == token_mode_reserved
    then if globally_valid
      then if valid then (true, false) else (false, stale)
      else (false, valid || stale)
    else if mode == token_mode_claimed
    then (globally_valid, not globally_valid)
    else if mode == token_mode_managed
    then if valid
      then (globally_valid, not globally_valid)
      else (globally_valid, not globally_valid || stale)
    else (false, false)

unfoldable pub authorization_eviction_state :
    Platform → Authorization → ℤ → List Token → Known → ℕ → Bool × Bool
authorization_eviction_state u a gpu tokens known now =
    eviction_state_of_mode (authorization_eviction_mode u a tokens)
      (authorization_globally_valid a tokens now) (has_key gpu a.token_hash known.valid)
      (has_key gpu a.token_hash known.stale)

-- A token that is there and stands.
unfoldable pub token_stands : ℕ → Option Token → Bool
token_stands now none = false
token_stands now (some t) = not t.revoked && not_past t.expires_at now

unfoldable pub lease_entitled_on_gpu : Lease → ℤ → List Token → ℕ → Bool
lease_entitled_on_gpu l gpu tokens now =
    if not l.active || not (l.gpu == gpu) || not (ltb now l.expires_at)
    then false
    else if is_empty l.token_hash
    then true
    else token_stands now (token_by_hash l.token_hash tokens)

unfoldable pub lease_eviction_state : Lease → ℤ → List Token → ℕ → Bool × Bool
lease_eviction_state l gpu tokens now =
    let entitled = lease_entitled_on_gpu l gpu tokens now in
    if not (l.gpu == gpu) then (false, false) else (entitled, not entitled)

unfoldable pub may_be_stale : String → Bool → Bool → Bool → Bool
may_be_stale mode globally_valid valid stale =
    if mode == token_mode_reserved
    then stale || not globally_valid && valid
    else if mode == token_mode_claimed
    then not globally_valid
    else if mode == token_mode_managed
    then not globally_valid || stale
    else false

unfoldable pub stale_eviction_possible : Platform → State → Known → ℕ → Bool
stale_eviction_possible u s known now =
    any
      (λ a.
        may_be_stale (authorization_eviction_mode u a s.tokens)
          (authorization_globally_valid a s.tokens now) (knows_hash a.token_hash known.valid)
          (knows_hash a.token_hash known.stale))
      s.authorizations
    || any (λ l. not (lease_entitled_on_gpu l l.gpu s.tokens now)) s.leases
