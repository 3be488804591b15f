-- ===== src/Store/Persist.antt =====
-- The critical section of internal/store/store.go: loading state.json, saving it by rename, and the
-- root key file. What the program does not implement is the record `Platform`; what the operating
-- system answers during one call is the record `Io`.
pub mod Transact
pub mod Restart
pub mod Atomic
use Prim.Native.Char.{Char}
use Prim.Native.String.{len, ◌++◌ as text_append}
use gpuardian.Base.{
  ℕ, String, Bool, true, false, Option, none, some, List, [], map, ◌==◌, ltb, if◌then◌else◌, ok,
  err, ◌>>=◌, ◌>>◌, refuse, refuse_if, trim_space, is_empty, ℤ, Result,
}
use gpuardian.Model.{Authorization, Lease, State, empty_state}
use gpuardian.Store.Errors.{Error, Fallible, encode_failed, decode_failed, state_too_large}
use gpuardian.Store.Bounds.{validate_state_bounds}

-- SHA-256 in hexadecimal, Unicode beyond ASCII, JSON and time.ParseDuration.
pub record Platform : Type 0 where
  pub sha256_hex : String → String
  pub lower_beyond : Char → Char
  pub fold_beyond : Char → Char
  -- json.MarshalIndent(state, "", "  "); `none` is an error.
  pub encode : State → Option String
  -- json.Unmarshal(data, &state): the state afterwards, and whether there was no error. Fields that
  -- the text does not name keep the value that they had.
  pub decode : String → State → State × Bool
  pub parse_duration : String → Option ℤ

pub record Io : Type 0 where
  -- state.json cannot be opened, or is not a private regular file.
  pub read_fault : Option Error
  pub mkdir_fault : Option Error
  -- The temporary file cannot be written, synced or renamed.
  pub write_fault : Option Error
  -- The directory cannot be synced after the rename.
  pub sync_fault : Option Error
  -- The root key file cannot be opened, or is not a private regular file, or cannot be created.
  pub root_fault : Option Error
  -- Another process links a root key file of this content before this one does.
  pub root_race : Option String
  -- The results of randomHex: 0 is drawn for the root key, and each operation numbers its own from 1.
  pub draw : ℕ → String
  -- time.Now()
  pub clock : ℕ

pub record Store : Type 0 where
  pub state : State
  pub committed : State
  pub loaded : Bool
  -- The content of state.json, if it is there.
  pub file : Option String
  -- The content of the root key file, if it is there.
  pub root_file : Option String

-- store.New over the files that are on the disk.
pub new : Option String → Option String → Store
new file root_file = record {
  state = empty_state;
  committed = empty_state;
  loaded = false;
  file = file;
  root_file = root_file;
}

abbrev pub max_state_file_bytes : ℕ
max_state_file_bytes = 67108864

abbrev pub clone_authorization : Authorization → Authorization
clone_authorization a = record a { command = a.command }

abbrev pub clone_lease : Lease → Lease
clone_lease l = record l { command = l.command }

-- cloneState: a slice's copy is equal to it.
unfoldable pub clone_state : State → State
clone_state s = record {
  managed_keys = s.managed_keys;
  key_snapshot_id = s.key_snapshot_id;
  managed_key_authority = s.managed_key_authority;
  tokens = s.tokens;
  reservations = s.reservations;
  authorizations = map clone_authorization s.authorizations;
  soft_claims = s.soft_claims;
  leases = map clone_lease s.leases;
  bypasses = s.bypasses;
  audit = s.audit;
}

-- readStateFile and json.Unmarshal, into the state that is in memory. An error of readStateFile
-- leaves that state alone; a later one leaves what was decoded.
unfoldable pub read_state : Platform → Io → String → State → State × Fallible (Unit {0})
read_state u io text state = elim io.read_fault [
  | some e ↦ (state, err e)
  | none ↦
      if ltb max_state_file_bytes (len text)
      then (state, err state_too_large)
      else if is_empty (trim_space text)
      then (empty_state, ok tt)
      else let (decoded, fine) = u.decode text state in
        (decoded, refuse_if (if fine then false else true) decode_failed)
]

-- The end of loadLocked: the limits, and the old audit copy dropped.
unfoldable pub accept_state : Store → State → Fallible (Unit {0}) → Store × Fallible (Unit {0})
accept_state s state (err e) = (record s { state = state }, err e)
accept_state s state (ok _) = elim (validate_state_bounds state) [
  | err e ↦ (record s { state = state }, err e)
  | ok _ ↦
      let kept = record state { audit = [] } in
      (record s { state = kept; committed = clone_state kept; loaded = true }, ok tt)
]

unfoldable pub load_file : Platform → Io → Store → Option String → Store × Fallible (Unit {0})
load_file u io s none =
    (record s { state = empty_state; committed = empty_state; loaded = true }, ok tt)
load_file u io s (some text) =
    let (state, read) = read_state u io text s.state in accept_state s state read

unfoldable pub load_locked : Platform → Io → Store → Store × Fallible (Unit {0})
load_locked u io s = if s.loaded then (s, ok tt) else load_file u io s s.file

-- The data that saveLocked hands to the file system.
unfoldable pub encode_state : Platform → Io → State → Fallible String
encode_state u io state = do
  validate_state_bounds state
  refuse io.mkdir_fault
  elim (u.encode state) [
    | none ↦ err encode_failed
    | some text ↦ if ltb max_state_file_bytes (len text) then err state_too_large else ok text
  ]

-- writeFileAtomically: the rename is the commit point, and the directory is synced behind it.
unfoldable pub write_state : Io → Store → String → Store × Fallible (Unit {0})
write_state io s text = elim io.write_fault [
  | some e ↦ (s, err e)
  | none ↦ (
    record s { file = some (text_append text "\n"); committed = clone_state s.state },
    refuse io.sync_fault,
  )
]

unfoldable pub write_encoded : Io → Store → Fallible String → Store × Fallible (Unit {0})
write_encoded io s (err e) = (s, err e)
write_encoded io s (ok text) = write_state io s text

-- The deferred function of saveLocked.
unfoldable pub roll_back : Store × Fallible (Unit {0}) → Store × Fallible (Unit {0})
roll_back (s, ok _) = (s, ok tt)
roll_back (s, err e) = (record s { state = clone_state s.committed }, err e)

unfoldable pub save_locked : Platform → Io → Store → Store × Fallible (Unit {0})
save_locked u io s = roll_back (write_encoded io s (encode_state u io s.state))

-- What an operation does between loadLocked and its return: it fails, returns a value without a
-- save, or changes the state, saves, and then returns a value.
pub data Plan (A : Type 0) : Type 0 where
  keep : A → Plan A
  write : State → A → Plan A

-- `if !changed { return nil }; return s.saveLocked()`
unfoldable pub write_if : {A : Type 0} → Bool → State → A → Fallible (Plan A)
write_if true state a = ok (write state a)
write_if false state a = ok (keep a)

unfoldable pub finish : {A : Type 0} → Store × Fallible (Unit {0}) → A → Store × Fallible A
finish (s, ok _) a = (s, ok a)
finish (s, err e) a = (s, err e)

unfoldable pub carry_out :
    {A : Type 0} → Platform → Io → Store → Fallible (Plan A) → Store × Fallible A
carry_out u io s (err e) = (s, err e)
carry_out u io s (ok (keep a)) = (s, ok a)
carry_out u io s (ok (write state a)) = finish (save_locked u io (record s { state = state })) a

unfoldable pub after_load :
    {A : Type 0}
    → Platform
    → Io
    → (State → Fallible (Plan A))
    → Store × Fallible (Unit {0})
    → Store × Fallible A
after_load u io body (s, err e) = (s, err e)
after_load u io body (s, ok _) = carry_out u io s (body s.state)

-- `s.mu.Lock(); defer s.mu.Unlock(); if err := s.loadLocked(); err != nil { return err }; body`
unfoldable pub transact :
    {A : Type 0} → Platform → Io → (State → Fallible (Plan A)) → Store → Store × Fallible A
transact u io body s = after_load u io body (load_locked u io s)

-- `b, err := check(…); if err != nil { return err }` in front of the critical section.
unfoldable pub checked :
    {A : Type 0} {B : Type 0}
    → Fallible B
    → (B → Store → Store × Fallible A)
    → Store
    → Store × Fallible A
checked (err e) rest s = (s, err e)
checked (ok b) rest s = rest b s
