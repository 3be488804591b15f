-- ===== src/Store/Views.antt =====
-- internal/store/store.go: the copies of the state that are handed out, EnforcementSnapshot and
-- EnforcementSnapshotForToken.
use gpuardian.Base.{
  String, Bool, List, [], map, keep_if, any, ◌==◌, ◌&&◌, string_eq, if◌then◌else◌, is_empty, ok,
  err,
}
use gpuardian.Model.{Token, Authorization, Lease, SoftClaim, State, empty_state}
use gpuardian.Store.Errors.{Fallible, token_hash_required}
use gpuardian.Store.Persist.{Platform, Io, Store, keep, transact}

unfoldable pub without_secret : Token → Token
without_secret t = record t { secret = "" }

unfoldable pub without_command : Authorization → Authorization
without_command a = record a { command = [] }

abbrev pub lease_without_command : Lease → Lease
lease_without_command l = record l { command = [] }

unfoldable pub clone_enforcement_state : State → State
clone_enforcement_state s = record s {
  tokens = map without_secret s.tokens;
  authorizations = map without_command s.authorizations;
  leases = map lease_without_command s.leases;
  audit = [];
}

unfoldable pub enforcement_snapshot : Platform → Io → Store → Store × Fallible State
enforcement_snapshot u io = transact u io (λ s. ok (keep (clone_enforcement_state s)))

abbrev pub rows_of_token : String → List Authorization → List Authorization
rows_of_token hash = keep_if (λ a. a.token_hash == hash)

-- The claims of the token whose authorization is one of the token's.
abbrev pub is_allowed : String → List Authorization → SoftClaim → Bool
is_allowed hash allowed c = c.token_hash == hash && any (λ a. a.id == c.authorization_id) allowed

unfoldable pub state_of_token : String → State → State
state_of_token hash s = record empty_state {
  tokens = map without_secret (keep_if (λ t. t.hash == hash) s.tokens);
  reservations = keep_if (λ r. r.token_hash == hash) s.reservations;
  authorizations = map without_command (rows_of_token hash s.authorizations);
  soft_claims = keep_if (is_allowed hash (rows_of_token hash s.authorizations)) s.soft_claims;
}

unfoldable pub enforcement_snapshot_for_token :
    Platform → Io → String → Store → Store × Fallible State
enforcement_snapshot_for_token u io hash s =
    if is_empty hash
    then (s, err token_hash_required)
    else transact u io (λ state. ok (keep (state_of_token hash state))) s
