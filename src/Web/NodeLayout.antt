-- ===== src/Web/NodeLayout.antt =====
-- internal/web/node_layout.go: the arrangement of the nodes in groups, its checks and its file.
pub mod Tally
pub mod Root
pub mod Rest
pub mod Places
pub mod Unreadable
use Prim.Native.String.{len}
use gpuardian.Base.{
  ℕ, String, Bool, true, false, not, ◌&&◌, ◌||◌, List, [], ◌∷◌, ◌++◌, map, Option, none, some, ◌==◌,
  string_eq, if◌then◌else◌, ltb, any, all, length, Result, ok, err, ◌>>=◌, ◌>>◌, refuse_if,
  trim_space, is_empty, has_prefix,
}
use gpuardian.Web.PrivateFile.{
  Io, Cached, FileRead, missing, unreadable, content, FileError, read_failed, bad_json,
  read_private_file, save_cached,
}

abbrev pub max_node_layout_file_bytes : ℕ
max_node_layout_file_bytes = 524288

abbrev pub max_node_groups : ℕ
max_node_groups = 64

abbrev pub max_node_group_id_bytes : ℕ
max_node_group_id_bytes = 128

abbrev pub max_node_group_name_bytes : ℕ
max_node_group_name_bytes = 128

pub record NodeGroup : Type 0 where
  pub id : String
  pub name : String
  pub node_ids : List String

pub record Layout : Type 0 where
  pub root : List String
  pub groups : List NodeGroup

abbrev pub no_layout : Layout
no_layout = record { root = []; groups = [] }

pub data LayoutError : Type 0 where
  group_limit bad_group_id no_group_prefix bad_group_name : LayoutError
  duplicate_group unknown_node node_twice group_twice unknown_item : String → LayoutError
  file_error : FileError → LayoutError

abbrev pub Checked : Type 0 → Type 0
Checked A = Result LayoutError A

-- A set of ids.
abbrev pub has : List String → String → Bool
has ids id = any (λ i. i == id) ids

-- `servers[id]`
abbrev pub is_server : List String → String → Bool
is_server server_ids id = not (is_empty id) && has server_ids id

abbrev pub has_group : List NodeGroup → String → Bool
has_group groups id = any (λ g. g.id == id) groups

-- The nodes of one group: those kept, and all that are assigned then.
unfoldable pub place_nodes :
    Bool → List String → List String → List String → Checked (List String × List String)
place_nodes strict server_ids assigned [] = ok ([], assigned)
place_nodes strict server_ids assigned (id ∷ ids) =
    let skipped = place_nodes strict server_ids assigned ids in
    let rest = place_nodes strict server_ids (id ∷ assigned) ids in
    if not (is_server server_ids id)
    then if strict then err (unknown_node id) else skipped
    else if has assigned id
    then err (node_twice id)
    else rest >>= λ (kept, after). ok (id ∷ kept, after)

unfoldable pub check_group : List NodeGroup → NodeGroup → Checked (Unit {0})
check_group groups g = do
  refuse_if (is_empty g.id || ltb max_node_group_id_bytes (len g.id)) bad_group_id
  refuse_if (not (has_prefix g.id "grp_")) no_group_prefix
  refuse_if (is_empty g.name || ltb max_node_group_name_bytes (len g.name)) bad_group_name
  refuse_if (has_group groups g.id) (duplicate_group g.id)

abbrev pub trim_group : NodeGroup → NodeGroup
trim_group g = record g { id = trim_space g.id; name = trim_space g.name }

-- The loop over the groups; `before` are the groups so far, the latest first.
unfoldable pub place_groups :
    Bool
    → List String
    → List NodeGroup
    → List String
    → List NodeGroup
    → Checked (List NodeGroup × List String)
place_groups strict server_ids before assigned [] = ok ([], assigned)
place_groups strict server_ids before assigned (input ∷ inputs) =
    let g = trim_group input in
    check_group before g
    >> (place_nodes strict server_ids assigned input.node_ids >>= λ (kept, after).
        let placed = record g { node_ids = kept } in
        place_groups strict server_ids (placed ∷ before) after inputs >>= λ (groups, last).
        ok (placed ∷ groups, last))

-- The loop over the root: what is kept, the root's items, and all nodes that are assigned then.
unfoldable pub place_root :
    Bool
    → List String
    → List NodeGroup
    → List String
    → List String
    → List String
    → Checked (List String × List String × List String)
place_root strict server_ids groups seen assigned [] = ok ([], seen, assigned)
place_root strict server_ids groups seen assigned (id ∷ ids) =
    let skipped = place_root strict server_ids groups seen assigned ids in
    let as_group = place_root strict server_ids groups (id ∷ seen) assigned ids in
    let as_node = place_root strict server_ids groups (id ∷ seen) (id ∷ assigned) ids in
    if has_group groups id
    then if has seen id
      then err (group_twice id)
      else (as_group >>= λ (kept, s, a). ok (id ∷ kept, s, a))
    else if is_server server_ids id
    then if has assigned id || has seen id
      then err (node_twice id)
      else (as_node >>= λ (kept, s, a). ok (id ∷ kept, s, a))
    else if strict
    then err (unknown_item id)
    else skipped

-- The groups that the root does not name.
unfoldable pub missing_groups : List String → List NodeGroup → List String
missing_groups seen [] = []
missing_groups seen (g ∷ gs) =
    let rest = missing_groups (g.id ∷ seen) gs in
    let same = missing_groups seen gs in if has seen g.id then same else g.id ∷ rest

-- The nodes that stand nowhere.
unfoldable pub missing_nodes : List String → List String → List String
missing_nodes assigned [] = []
missing_nodes assigned (id ∷ ids) =
    let rest = missing_nodes (id ∷ assigned) ids in
    let same = missing_nodes assigned ids in
    if not (is_empty id) && not (has assigned id) then id ∷ rest else same

unfoldable pub normalize_node_layout : Layout → List String → Bool → Checked Layout
normalize_node_layout layout server_ids strict = do
  refuse_if (ltb max_node_groups (length layout.groups)) group_limit
  (groups, assigned) ← place_groups strict server_ids [] [] layout.groups
  (root, seen, placed) ← place_root strict server_ids groups [] assigned layout.root
  ok (record {
    root = root ++ missing_groups seen groups ++ missing_nodes placed server_ids;
    groups = groups;
  })

abbrev pub same_texts : List String → List String → Bool
same_texts [] [] = true
same_texts (x ∷ xs) (y ∷ ys) = x == y && same_texts xs ys
same_texts [] (y ∷ ys) = false
same_texts (x ∷ xs) [] = false

abbrev pub same_groups : List NodeGroup → List NodeGroup → Bool
same_groups [] [] = true
same_groups (x ∷ xs) (y ∷ ys) =
    (x.id == y.id && x.name == y.name && same_texts x.node_ids y.node_ids) && same_groups xs ys
same_groups [] (y ∷ ys) = false
same_groups (x ∷ xs) [] = false

unfoldable pub same_node_layout : Layout → Layout → Bool
same_node_layout a b = same_texts a.root b.root && same_groups a.groups b.groups

-- encoding/json on layouts.
pub record Codec : Type 0 where
  pub encode : Layout → Option String
  pub decode : String → Option Layout

abbrev pub LayoutStore : Type 0
LayoutStore = Cached Layout

abbrev pub keep_layout : LayoutStore → Option Layout → LayoutStore × Checked Layout
keep_layout s none = (s, err (file_error bad_json))
keep_layout s (some layout) = (record s { loaded = true; value = layout }, ok layout)

-- Any read error comes with no content, and is met by the test for an empty file.
unfoldable pub accept_layout : Codec → LayoutStore → FileRead → LayoutStore × Checked Layout
accept_layout codec s missing = keep_layout s (some no_layout)
accept_layout codec s unreadable = keep_layout s (some no_layout)
accept_layout codec s (content text) =
    if is_empty (trim_space text)
    then keep_layout s (some no_layout)
    else keep_layout s (codec.decode text)

unfoldable pub load_layout : Io → Codec → LayoutStore → LayoutStore × Checked Layout
load_layout io codec s =
    if s.loaded
    then (s, ok s.value)
    else accept_layout codec s (read_private_file io max_node_layout_file_bytes s.file)

-- What a save that has been tried returns.
abbrev pub saved :
    {A : Type 0} → A → LayoutStore × Result FileError (Unit {0}) → LayoutStore × Checked A
saved a (s, ok _) = (s, ok a)
saved a (s, err e) = (s, err (file_error e))

-- Get behind the load: the layout is saved where tidying changed it.
unfoldable pub tidy :
    Io → Codec → Layout → Checked Layout → LayoutStore → LayoutStore × Checked Layout
tidy io codec layout (err e) s = (s, err e)
tidy io codec layout (ok normalized) s =
    if same_node_layout layout normalized
    then (s, ok normalized)
    else saved normalized (save_cached codec.encode io normalized s)

unfoldable pub get_loaded :
    Io → Codec → List String → LayoutStore × Checked Layout → LayoutStore × Checked Layout
get_loaded io codec server_ids (s, err e) = (s, err e)
get_loaded io codec server_ids (s, ok layout) =
    tidy io codec layout (normalize_node_layout layout server_ids false) s

unfoldable pub get : Io → Codec → List String → LayoutStore → LayoutStore × Checked Layout
get io codec server_ids s = get_loaded io codec server_ids (load_layout io codec s)

unfoldable pub put_layout : Io → Codec → Checked Layout → LayoutStore → LayoutStore × Checked Layout
put_layout io codec (err e) s = (s, err e)
put_layout io codec (ok normalized) s = saved normalized (save_cached codec.encode io normalized s)

unfoldable pub update_loaded :
    Io → Codec → Layout → List String → LayoutStore × Checked Layout → LayoutStore × Checked Layout
update_loaded io codec layout server_ids (s, err e) = (s, err e)
update_loaded io codec layout server_ids (s, ok _) =
    put_layout io codec (normalize_node_layout layout server_ids true) s

unfoldable pub update :
    Io → Codec → Layout → List String → LayoutStore → LayoutStore × Checked Layout
update io codec layout server_ids s =
    update_loaded io codec layout server_ids (load_layout io codec s)
