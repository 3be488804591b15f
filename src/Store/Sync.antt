-- ===== src/Store/Sync.antt =====
-- internal/store/store.go: SyncManagedUserKeys, which replaces the tokens by a snapshot of the gateway.
pub mod Exclusive
pub mod Cutover
use Prim.Native.Char.{code}
use Prim.Native.String.{len, ◌++◌ as text_append}
use gpuardian.Base.{
  ℕ, suc, String, ℤ, Bool, true, false, not, ◌&&◌, ◌||◌, List, [], ◌∷◌, ◌++◌, Option, none, some,
  ◌==◌, nat_eq, string_eq, if◌then◌else◌, ltb, leb, find, any, length, ok, err, ◌>>=◌, ◌>>◌,
  refuse_if, trim_space, to_lower, is_empty, is_negative,
}
use gpuardian.Model.{Token, Reservation, State, token_mode_managed}
use gpuardian.Store.Errors.{
  Error, Fallible, snapshot_required, limit_exceeded, bad_managed_key, hash_not_hex, key_not_unique,
  owner_not_unique, authority_required, authority_mismatch,
}
use gpuardian.Store.Bounds.{validate_persisted_values, max_total_tokens}
use gpuardian.Store.Persist.{Platform, Io, Store, Plan, keep, write, transact, checked}
use gpuardian.Store.Validity.{normalize_holder}
use gpuardian.Store.RootKey.{with_root_key, all_hex}

pub record ManagedKey : Type 0 where
  pub id : String
  pub owner : String
  pub version : ℤ
  pub hash : String

pub record Snapshot : Type 0 where
  pub snapshot_id : String
  pub authority_id : String
  pub keys : List ManagedKey

pub record SyncResult : Type 0 where
  pub snapshot_id : String
  pub applied : ℕ
  pub managed : Bool

unfoldable pub trim_snapshot : Snapshot → Snapshot
trim_snapshot p = record p {
  snapshot_id = trim_space p.snapshot_id;
  authority_id = trim_space p.authority_id;
}

abbrev pub below_one : ℤ → Bool
below_one (ℤ.pos n) = n == 0
below_one (ℤ.negsuc n) = true

-- The token of one key, its texts normalised.
unfoldable pub token_of_key : Platform → ℕ → ManagedKey → Token
token_of_key u now key = record {
  id = trim_space key.id;
  hash = to_lower u.lower_beyond (trim_space key.hash);
  secret = "";
  name = normalize_holder u key.owner;
  mode = token_mode_managed;
  version = key.version;
  managed = true;
  created_at = now;
  expires_at = 0;
  revoked = false;
}

-- The loop over the keys; `made` are the tokens so far, the latest first.
unfoldable pub make_managed : Platform → ℕ → List Token → List ManagedKey → Fallible (List Token)
make_managed u now made [] = ok []
make_managed u now made (key ∷ keys) =
    let t = token_of_key u now key in
    do
      refuse_if (is_empty t.id || is_empty t.name || below_one t.version || not (len t.hash == 64))
          bad_managed_key
      refuse_if (not (all_hex t.hash)) hash_not_hex
      refuse_if (any (λ m. m.id == t.id || m.hash == t.hash) made) key_not_unique
      refuse_if (any (λ m. m.name == t.name) made) owner_not_unique
      rest ← make_managed u now (t ∷ made) keys
      ok (t ∷ rest)

-- oldTokenIDs[hash]: the last token with the hash decides, and the empty text stands for none.
unfoldable pub old_token_id : List Token → String → String
old_token_id [] hash = ""
old_token_id (t ∷ ts) hash =
    let later = old_token_id ts hash in
    if any (λ t'. t'.hash == hash) ts then later else if t.hash == hash then t.id else ""

abbrev pub first_text : String → String → String
first_text a b = if is_empty a then b else a

abbrev pub hash_or : String → Option Token → String
hash_or hash none = hash
hash_or hash (some t) = t.hash

-- One reservation under the new keys: its group is fixed, and it is attached to its owner's key.
-- The group drawn at random is the `n`th draw.
unfoldable pub rebind : Platform → Io → List Token → List Token → ℕ → Reservation → Reservation
rebind u io old new n r = record r {
  group_id =
      first_text r.group_id
        (first_text (old_token_id old r.token_hash) (text_append "grp_" (io.draw n)));
  token_hash = hash_or r.token_hash (find (λ t. t.name == normalize_holder u r.holder) new);
}

unfoldable pub rebind_all :
    Platform → Io → List Token → List Token → ℕ → List Reservation → List Reservation
rebind_all u io old new n [] = []
rebind_all u io old new n (r ∷ rs) = rebind u io old new n r ∷ rebind_all u io old new (suc n) rs

unfoldable pub sync_rows : Platform → Io → Snapshot → List Token → State → State
sync_rows u io p managed s = record s {
  reservations = rebind_all u io s.tokens managed 1 s.reservations;
  tokens = managed;
  managed_keys = true;
  key_snapshot_id = p.snapshot_id;
}

-- The switch over the authority: the new one, and whether it is set here for the first time.
unfoldable pub check_authority : String → String → Fallible (String × Bool)
check_authority stored given =
    if not (is_empty stored) && is_empty given
    then err authority_required
    else if not (is_empty stored) && not (given == stored)
    then err authority_mismatch
    else ok (if is_empty stored && not (is_empty given) then (given, true) else (stored, false))

abbrev pub sync_result : Snapshot → List Token → SyncResult
sync_result p managed = record {
  snapshot_id = p.snapshot_id;
  applied = length managed;
  managed = true;
}

-- Behind the switch: a snapshot that is in force already changes at most the authority.
unfoldable pub sync_plan : Platform → Io → Snapshot → List Token → State → Bool → Plan SyncResult
sync_plan u io p managed s changed =
    if s.managed_keys && s.key_snapshot_id == p.snapshot_id
    then if changed then write s (sync_result p managed) else keep (sync_result p managed)
    else write (sync_rows u io p managed s) (sync_result p managed)

unfoldable pub sync_body :
    Platform → Io → Snapshot → List Token → State → Fallible (Plan SyncResult)
sync_body u io p managed s = do
  (authority, changed) ← check_authority s.managed_key_authority p.authority_id
  ok (sync_plan u io p managed (record s { managed_key_authority = authority }) changed)

unfoldable pub check_snapshot : Platform → ℕ → Snapshot → Fallible (List Token)
check_snapshot u now p = do
  refuse_if (is_empty p.snapshot_id) snapshot_required
  validate_persisted_values "managed key snapshot" (p.snapshot_id ∷ p.authority_id ∷ [])
  refuse_if (ltb max_total_tokens (length p.keys)) (limit_exceeded "managed key")
  make_managed u now [] p.keys

unfoldable pub sync_managed_user_keys :
    Platform → Io → String → Snapshot → ℕ → Store → Store × Fallible SyncResult
sync_managed_user_keys u io root_key snapshot now =
    let p = trim_snapshot snapshot in
    with_root_key io root_key
      (checked (check_snapshot u now p) λ managed. transact u io (sync_body u io p managed))
