-- ===== src/Web/PrivateFile.antt =====
-- internal/web/users.go, readPrivateFile and writePrivateFile, and the copy in memory that each of the
-- gateway's stores keeps of its file (loaded, and the value).
use Prim.Native.String.{len, ◌++◌ as text_append}
use gpuardian.Base.{
  ℕ, String, Bool, true, Option, none, some, if◌then◌else◌, ltb, Result, ok, err, ◌≡◌, ap, ◌∙◌,
}

-- How a write ends: before the rename, behind it without the sync of the directory, or well.
pub data Writing : Type 0 where
  refused unsynced written : Writing

-- What one call meets in the operating system: whether the file can be opened and read, how a write
-- ends, the time, and the random text that is drawn.
pub record Io : Type 0 where
  pub read_fault : Bool
  pub writing : Writing
  pub now : ℕ
  pub draw : String

pub data FileRead : Type 0 where
  missing unreadable : FileRead
  content : String → FileRead

abbrev pub read_text : ℕ → Option String → FileRead
read_text limit none = missing
read_text limit (some text) = if ltb limit (len text) then unreadable else content text

abbrev pub read_private_file : Io → ℕ → Option String → FileRead
read_private_file io limit file = if io.read_fault then unreadable else read_text limit file

-- A store of the gateway: its copy of the file, and the file.
pub record Cached {ℓ} (A : Type ℓ) : Type ℓ where
  pub loaded : Bool
  pub value : A
  pub file : Option String

pub data FileError : Type 0 where
  read_failed bad_json encode_failed write_failed : FileError

abbrev pub replaced {ℓ} : {A : Type ℓ} → Cached A → A → String → Cached A
replaced s value text = record { loaded = true; value = value; file = some (text_append text "\n") }

-- `committed` of writePrivateFile decides whether memory follows; an error may come with it.
abbrev pub write_cached {ℓ} :
    {A : Type ℓ} → Writing → A → String → Cached A → Cached A × Result FileError (Unit {0})
write_cached refused value text s = (s, err write_failed)
write_cached unsynced value text s = (replaced s value text, err write_failed)
write_cached written value text s = (replaced s value text, ok tt)

-- saveLocked: the value is encoded and written.
unfoldable pub save_cached {ℓ} :
    {A : Type ℓ} → (A → Option String) → Io → A → Cached A → Cached A × Result FileError (Unit {0})
save_cached encode io value s = elim (encode value) [
  | none ↦ (s, err encode_failed)
  | some text ↦ write_cached io.writing value text s
]

-- A save whose encoding and write succeed replaces the file and the copy.
pub save_cached_written {ℓ} :
    {A : Type ℓ} (encode : A → Option String) (io : Io) (value : A) (s : Cached A) (text : String)
    → encode value ≡ some text
    → io.writing ≡ written
    → save_cached encode io value s ≡ (replaced s value text, ok tt)
unfolding save_cached
save_cached_written encode io value s text e w =
    ap (λ o. elim o [ none ↦ (s, err encode_failed) | some t ↦ write_cached io.writing value t s ])
      e
    ∙ ap (λ x. write_cached x value text s) w
