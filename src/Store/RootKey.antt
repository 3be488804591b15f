-- ===== src/Store/RootKey.antt =====
-- internal/store/store.go: reading, creating and checking the root key file.
pub mod Settled
pub mod Apart
use Prim.Native.Char.{code}
use Prim.Native.String.{len, ◌++◌ as text_append}
use gpuardian.Base.{
  ℕ, suc, String, Bool, true, false, not, ◌&&◌, ◌||◌, Option, none, some, ◌==◌, nat_eq, string_eq,
  ltb, leb, if◌then◌else◌, ok, err, trim_space, has_prefix,
}
use gpuardian.Store.Errors.{Error, Fallible, bad_root_key_file, invalid_root_key}
use gpuardian.Store.Persist.{Io, Store}

-- strings.TrimSuffix(raw, "\n")
trim_newline : String → String
trim_newline String.[] = String.[]
trim_newline (String.◌∷◌ c s) =
    let rest = trim_newline s in
    elim s [
      | String.[] ↦ (if code c == 10 then String.[] else String.◌∷◌ c String.[])
      | String.◌∷◌ d t ↦ String.◌∷◌ c rest
    ]

-- A digit that hex.DecodeString takes.
is_hex : ℕ → Bool
is_hex c = (leb b'0' c && leb c b'9') || (leb b'a' c && leb c b'f') || (leb b'A' c && leb c b'F')

unfoldable pub all_hex : String → Bool
unfolding is_hex
all_hex String.[] = true
all_hex (String.◌∷◌ c s) = is_hex (code c) && all_hex s

-- Behind the three runes of "rk_".
after_prefix : String → String
after_prefix (String.◌∷◌ a (String.◌∷◌ b (String.◌∷◌ c s))) = s
after_prefix _ = String.[]

-- The checks of readRootKeyFile on the file's text: 64 hexadecimal digits behind "rk_", and at most
-- one newline.
unfoldable pub parse_root_key : String → Fallible String
unfolding trim_newline all_hex after_prefix
parse_root_key raw =
    let key = trim_newline raw in
    if ltb 68 (len raw)
    then err bad_root_key_file
    else if not (len key == 67 && has_prefix key "rk_" && all_hex (after_prefix key))
    then err bad_root_key_file
    else ok key

unfoldable pub read_root_key_file : Io → String → Fallible String
read_root_key_file io raw = elim io.root_fault [ some e ↦ err e | none ↦ parse_root_key raw ]

-- createRootKeyFile links the file, so it fails where another process was first, and that key is read.
unfoldable pub create_root_key : Io → Store → Store × Fallible String
create_root_key io s = elim io.root_race [
  | some raw ↦ (record s { root_file = some raw }, read_root_key_file io raw)
  | none ↦ elim io.root_fault [
    | some e ↦ (s, err e)
    | none ↦
        let key = text_append "rk_" (io.draw 0) in
        (record s { root_file = some (text_append key "\n") }, ok key)
  ]
]

unfoldable pub read_or_create_root_key : Io → Store → Store × Fallible String
unfolding create_root_key
read_or_create_root_key io s = elim s.root_file [
  | some raw ↦ (s, read_root_key_file io raw)
  | none ↦ create_root_key io s
]

-- ValidateRootKey, with the answer false turned into ErrInvalidRootKey, as all its callers do. The
-- constant-time comparison of two texts of one length is their equality.
unfoldable pub judge_root_key : String → Fallible String → Fallible (Unit {0})
judge_root_key candidate (err e) = err e
judge_root_key candidate (ok key) =
    if trim_space candidate == trim_space key then ok tt else err invalid_root_key

unfoldable pub after_root_key :
    {A : Type 0} → (Store → Store × Fallible A) → Store × Fallible (Unit {0}) → Store × Fallible A
after_root_key rest (s, err e) = (s, err e)
after_root_key rest (s, ok _) = rest s

unfoldable pub with_root_key :
    {A : Type 0} → Io → String → (Store → Store × Fallible A) → Store → Store × Fallible A
with_root_key io candidate rest s =
    let (s', key) = read_or_create_root_key io s in
    after_root_key rest (s', judge_root_key candidate key)
