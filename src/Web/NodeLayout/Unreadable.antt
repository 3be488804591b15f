-- ===== src/Web/NodeLayout/Unreadable.antt =====
-- internal/web/node_layout.go, loadLocked: a file that cannot be read is taken for an empty one.
use Prim.Native.String.{◌++◌ as text_append}
use gpuardian.Base.{String, true, false, List, [], ◌∷◌, ◌≡◌, ap, ok, some, is_empty}
use gpuardian.Web.PrivateFile.{Io, written, save_cached_written}
use gpuardian.Web.NodeLayout.{
  Layout, LayoutStore, Codec, get, load_layout, accept_layout, get_loaded, tidy,
  normalize_node_layout, place_groups, place_root, missing_groups, missing_nodes, same_node_layout,
  saved,
}

-- The layout of a gateway that has none yet: its nodes in the root, and no group.
abbrev pub flat : String → List String → Layout
flat id ids = record { root = id ∷ missing_nodes (id ∷ []) ids; groups = [] }

-- A layout store that has not loaded its file, for a gateway that has a node, the first one with an id
-- that is not empty, meets a fault other than a missing file as it reads. Where the flat layout can
-- be encoded and the write goes well, Get reports no error, answers the flat layout, and has put it in
-- the place of the file that it could not read, whatever stood there.
pub get_unreadable :
    (io : Io) (codec : Codec) (id : String) (ids : List String) (s : LayoutStore) (text : String)
    → s.loaded ≡ false
    → io.read_fault ≡ true
    → io.writing ≡ written
    → is_empty id ≡ false
    → codec.encode (flat id ids) ≡ some text
    → get io codec (id ∷ ids) s ≡ (
      record { loaded = true; value = flat id ids; file = some (text_append text "\n") },
      ok (flat id ids),
    )
unfolding get load_layout accept_layout get_loaded tidy normalize_node_layout place_groups
    place_root missing_groups missing_nodes same_node_layout
get_unreadable io codec id ids s text fresh fault good solid encoded =
    simp (fresh, fault, solid)
      (ap (saved (flat id ids))
        (save_cached_written codec.encode io (flat id ids) _ text encoded good))
