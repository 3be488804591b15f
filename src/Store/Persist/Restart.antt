-- ===== src/Store/Persist/Restart.antt =====
-- A restart of the daemon (loadLocked on a new Store) after saveLocked of internal/store/store.go.
use Prim.Native.String.{len, ◌++◌ as text_append}
use text.Mathlib.TextPositions.{len-append}
use gpuardian.Base.{
  ◌≡◌, ◌≢◌, refl, ap, sym, ◌∙◌, subst, [], Option, none, some, some_injective, ok, err, true, false,
  arith, String, is_empty, trim_space, ltb,
}
use gpuardian.Model.{State, empty_state}
use gpuardian.Store.Errors.{Fallible, state_too_large}
use gpuardian.Store.Bounds.{validate_state_bounds}
use gpuardian.Store.Persist.{
  Platform, Io, Store, new, load_locked, load_file, read_state, accept_state, save_locked,
  encode_state, write_state, write_encoded, roll_back, max_state_file_bytes,
}
use gpuardian.Store.Persist.Transact.{clone_state_lem}

-- What the source relies on of encoding/json: what was encoded is read back, and is not blank.
pub record RoundTrips (u : Platform) : Type 0 where
  pub back :
      (s : State) (text : String)
      → u.encode s ≡ some text
      → u.decode (text_append text "\n") empty_state ≡ (s, true)
  pub solid :
      (s : State) (text : String)
      → u.encode s ≡ some text
      → is_empty (trim_space (text_append text "\n")) ≡ false

-- A save that succeeded, with the text that it wrote.
pub record IsCommitted (u : Platform) (s t : Store) (text : String) : Type 0 where
  pub state : t.state ≡ s.state
  pub committed : t.committed ≡ s.state
  pub encoded : u.encode s.state ≡ some text
  pub small : ltb max_state_file_bytes (len text) ≡ false
  pub valid : validate_state_bounds s.state ≡ ok tt
  pub file : t.file ≡ some (text_append text "\n")

encode_state_ok :
    (u : Platform) (io : Io) (state : State) {text : String}
    → encode_state u io state ≡ ok text
    → (validate_state_bounds state ≡ ok tt)
      × (u.encode state ≡ some text)
      × (ltb max_state_file_bytes (len text) ≡ false)
unfolding encode_state
encode_state_ok u io state h = ground arith

write_state_ok :
    (u : Platform) (io : Io) (s : Store) (text : String)
    → encode_state u io s.state ≡ ok text
    → (roll_back (write_state io s text)).1 ≡ ok tt
    → IsCommitted u s (roll_back (write_state io s text)).0 text
unfolding write_state roll_back
write_state_ok u io s text e h =
    ground (arith, encode_state_ok u io s.state e, clone_state_lem s.state)

write_encoded_ok :
    (u : Platform) (io : Io) (s : Store) (r : Fallible String)
    → encode_state u io s.state ≡ r
    → (roll_back (write_encoded io s r)).1 ≡ ok tt
    → (text : String) × IsCommitted u s (roll_back (write_encoded io s r)).0 text
unfolding write_encoded roll_back
write_encoded_ok u io s (ok text) e h = (text, write_state_ok u io s text e h)
write_encoded_ok u io s (err x) e h = cc

save_locked_ok :
    (u : Platform) (io : Io) (s : Store)
    → (save_locked u io s).1 ≡ ok tt
    → (text : String) × IsCommitted u s (save_locked u io s).0 text
unfolding save_locked
save_locked_ok u io s = write_encoded_ok u io s (encode_state u io s.state) refl

save_locked_with :
    (u : Platform) (io : Io) (s : Store) (text : String)
    → (save_locked u io s).1 ≡ ok tt
    → u.encode s.state ≡ some text
    → IsCommitted u s (save_locked u io s).0 text
save_locked_with u io s text saved encoded =
    let (text', c) = save_locked_ok u io s saved in
    subst (IsCommitted u s (save_locked u io s).0) (some_injective (sym c.encoded ∙ encoded)) c

-- What loadLocked makes of a readable file.
read_state_ok :
    (u : Platform) (io : Io) (text : String) (state : State)
    → io.read_fault ≡ none
    → ltb max_state_file_bytes (len text) ≡ false
    → is_empty (trim_space text) ≡ false
    → u.decode text empty_state ≡ (state, true)
    → read_state u io text empty_state ≡ (state, ok tt)
unfolding read_state
read_state_ok u io text state readable small solid decoded = ground arith

abbrev loaded_store : Store → State → Store
loaded_store s state = record s {
  state = record state { audit = [] };
  committed = record state { audit = [] };
  loaded = true;
}

accept_state_ok :
    (s : Store) (state : State)
    → validate_state_bounds state ≡ ok tt
    → accept_state s state (ok tt) ≡ (loaded_store s state, ok tt)
unfolding accept_state
accept_state_ok s state valid = ground (arith, clone_state_lem (record state { audit = [] }))

load_new :
    (u : Platform) (io : Io) (text : String) (root : Option String) (state : State)
    → read_state u io text empty_state ≡ (state, ok tt)
    → validate_state_bounds state ≡ ok tt
    → load_locked u io (new (some text) root) ≡ (loaded_store (new (some text) root) state, ok tt)
unfolding load_locked load_file new
load_new u io text root state read valid =
    let s = new (some text) root in
    ap (λ r. accept_state s r.0 r.1) read ∙ accept_state_ok s state valid

text_fits :
    (text : String)
    → ltb max_state_file_bytes (len text) ≡ false
    → len text ≢ max_state_file_bytes
    → ltb max_state_file_bytes (len (text_append text "\n")) ≡ false
text_fits text small room = ground (arith, len-append text "\n")

load_too_large :
    (u : Platform) (io : Io) (text : String) (root : Option String)
    → io.read_fault ≡ none
    → ltb max_state_file_bytes (len text) ≡ true
    → (load_locked u io (new (some text) root)).1 ≡ err state_too_large
unfolding load_locked load_file read_state accept_state new
load_too_large u io text root readable large = ground arith

-- After a save that succeeded, a daemon that starts on the files finds the saved state, without its
-- old audit copy, provided that the encoding does not have exactly the largest size allowed.
pub load_locked-save_locked :
    (u : Platform) (io io' : Io) (s : Store) (text : String)
    → RoundTrips u
    → (save_locked u io s).1 ≡ ok tt
    → u.encode s.state ≡ some text
    → len text ≢ max_state_file_bytes
    → io'.read_fault ≡ none
    → let t = (save_locked u io s).0 in
      let r = load_locked u io' (new t.file t.root_file) in
      (r.1 ≡ ok tt) × (r.0.loaded ≡ true) × (r.0.state ≡ record s.state { audit = [] })
load_locked-save_locked u io io' s text trips saved encoded room readable =
    let c = save_locked_with u io s text saved encoded in
    let full = text_append text "\n" in
    let root = (save_locked u io s).0.root_file in
    let read =
      read_state_ok u io' full s.state readable (text_fits text c.small room)
        (trips.solid s.state text encoded) (trips.back s.state text encoded) in
    let back = load_new u io' full root s.state read c.valid in
    subst
      (λ f.
        let r = load_locked u io' (new f root) in
        (r.1 ≡ ok tt) × (r.0.loaded ≡ true) × (r.0.state ≡ record s.state { audit = [] }))
      (sym c.file) (ap (λ r. r.1) back, ap (λ r. r.0.loaded) back, ap (λ r. r.0.state) back)

-- The check before the write does not count the newline: a state whose encoding has exactly the
-- largest size allowed is saved, and the file is refused when the daemon starts again.
pub load_locked-save_locked_at_limit :
    (u : Platform) (io io' : Io) (s : Store) (text : String)
    → (save_locked u io s).1 ≡ ok tt
    → u.encode s.state ≡ some text
    → len text ≡ max_state_file_bytes
    → io'.read_fault ≡ none
    → let t = (save_locked u io s).0 in
      (load_locked u io' (new t.file t.root_file)).1 ≡ err state_too_large
load_locked-save_locked_at_limit u io io' s text saved encoded full readable =
    let c = save_locked_with u io s text saved encoded in
    let root = (save_locked u io s).0.root_file in
    subst (λ f. (load_locked u io' (new f root)).1 ≡ err state_too_large) (sym c.file)
      (load_too_large u io' (text_append text "\n") root readable
        (ground (arith, len-append text "\n")))
