-- ===== src/Web/NodeLayout/Places.antt =====
-- internal/web/node_layout.go: how often an id stands in a layout that has been normalized.
use gpuardian.Base.{
  ℕ, ◌+◌, String, Bool, true, false, not, ◌&&◌, ◌||◌, List, [], ◌∷◌, ◌++◌, Bool-cases, inl, inr,
  ◌≡◌, refl, ◌==◌, string_eq, if◌then◌else◌, ltb, any, ok, OnOk, OnOk->>=, OnOk->>, arith, is_empty,
  count_if-append, subst, ◌∙◌, length, refuse_if, All, has_prefix,
}
use gpuardian.Web.NodeLayout.{
  NodeGroup, Layout, has, is_server, has_group, place_nodes, check_group, trim_group, place_groups,
  place_root, missing_groups, missing_nodes, normalize_node_layout, max_node_groups, group_limit,
}
use gpuardian.Web.NodeLayout.Tally.{
  count, nodes_of, Assigns, not-has, has-count, moved, place_groups-Assigns,
}
use gpuardian.Web.NodeLayout.Root.{OfGroup, OfNode, place_root-OfGroup, place_root-OfNode}
use gpuardian.Web.NodeLayout.Rest.{count-missing_groups, count-missing_nodes}

-- How often the id stands in the layout's root and in its groups.
abbrev pub count_in : String → Layout → ℕ
count_in id layout = count id (layout.root ++ nodes_of layout.groups)

-- Once, where it is a group of the layout or a server, and else not at all.
abbrev pub IsPlaced : List String → String → Layout → Type 0
IsPlaced server_ids id layout =
    count_in id layout ≡ (if has_group layout.groups id || is_server server_ids id then 1 else 0)

-- The arithmetic behind the loops, for an id that is a group and no server.
group_total :
    (id : String) (root nodes seen : List String) (n m : ℕ)
    → Assigns id true [] root seen
    → count id nodes ≡ 0
    → n ≡ (if true && not (has seen id) then 1 else 0)
    → m ≡ 0
    → count id root + (n + m) + count id nodes ≡ 1
group_total id root nodes seen n m a none_in h z = elim (Bool-cases (has seen id)) [
  | inl e ↦
      let some_seen = has-count id seen e in
      let once = a.once (omega arith) in
      let n0 : n ≡ 0 = (rw e at h) in omega (arith, a.adds, none_in, z, n0, some_seen, once)
  | inr e ↦
      let none_seen = not-has id seen e in
      let n1 : n ≡ 1 = (rw e at h) in omega (arith, a.adds, none_in, z, n1, none_seen)
]

-- The same for an id that is no group.
node_total :
    (id : String) (root nodes assigned placed : List String) (blank listed : Bool) (n m : ℕ)
    → Assigns id (not blank && listed) [] nodes assigned
    → Assigns id (not blank && listed) assigned root placed
    → n ≡ 0
    → m ≡ (if listed && not (blank || has placed id) then 1 else 0)
    → count id root + (n + m) + count id nodes ≡ (if not blank && listed then 1 else 0)
node_total id root nodes assigned placed true listed n m a b z h =
    let no_node = a.known_only refl in
    let no_root = b.known_only refl in ground (arith, no_node, no_root)
node_total id root nodes assigned placed false false n m a b z h =
    let no_node = a.known_only refl in
    let no_root = b.known_only refl in ground (arith, no_node, no_root)
node_total id root nodes assigned placed false true n m a b z h =
    let once = b.once (a.once (omega arith)) in
    elim (Bool-cases (has placed id)) [
      | inl e ↦
          let there = has-count id placed e in
          let m0 : m ≡ 0 = (rw e at h) in omega (arith, a.adds, b.adds, once, there, z, m0)
      | inr e ↦
          let absent = not-has id placed e in
          let m1 : m ≡ 1 = (rw e at h) in omega (arith, a.adds, b.adds, absent, z, m1)
    ]

-- Every group that passed the checks has the prefix.
check_group-prefix :
    (before : List NodeGroup) (g : NodeGroup)
    → check_group before g ≡ ok tt
    → has_prefix g.id "grp_" ≡ true
unfolding check_group
check_group-prefix before g h = ground arith

place_groups-prefix :
    (strict : Bool) (server_ids : List String) (before : List NodeGroup) (assigned : List String)
    (inputs : List NodeGroup)
    → OnOk
        (λ r. All (λ g. has_prefix g.id "grp_" ≡ true) r.0)
        (place_groups strict server_ids before assigned inputs)
unfolding place_groups
place_groups-prefix strict server_ids before assigned [] = tt
place_groups-prefix strict server_ids before assigned (input ∷ inputs) =
    let P = λ (r : List NodeGroup × List String). All (λ g. has_prefix g.id "grp_" ≡ true) r.0 in
    OnOk->> P (check_group before (trim_group input)) _ λ c.
      OnOk->>= P (place_nodes strict server_ids assigned input.node_ids) _ λ (kept, after) e.
        let placed = record (trim_group input) { node_ids = kept } in
        OnOk->>= P (place_groups strict server_ids (placed ∷ before) after inputs) _
          λ (groups, last) e'. (
            check_group-prefix before (trim_group input) c,
            subst (OnOk (λ r. All (λ g. has_prefix g.id "grp_" ≡ true) r.0)) e'
                (place_groups-prefix strict server_ids (placed ∷ before) after inputs),
          )

-- What holds of all keys holds of one that is found among them.
found_key :
    {A : Type 0} (key : A → String) (P : String → Type 0) (id : String) (xs : List A)
    → All (λ x. P (key x)) xs
    → any (λ x. key x == id) xs ≡ true
    → P id
found_key key P id [] h e = cc
found_key key P id (x ∷ xs) h e = elim (Bool-cases (key x == id)) [
  | inl hit ↦ moved P (key x) id hit h.0
  | inr miss ↦ found_key key P id xs h.1 (rw miss at e)
]

group_is_no_server :
    (id : String) (server_ids : List String) (groups : List NodeGroup)
    → All (λ s. has_prefix s "grp_" ≡ false) server_ids
    → All (λ g. has_prefix g.id "grp_" ≡ true) groups
    → has_group groups id ≡ true
    → is_server server_ids id ≡ false
group_is_no_server id server_ids groups h k e =
    let prefixed = found_key (λ g. g.id) (λ x. has_prefix x "grp_" ≡ true) id groups k e in
    elim (Bool-cases (has server_ids id)) [
      | inl there ↦
          let plain = found_key (λ x. x) (λ x. has_prefix x "grp_" ≡ false) id server_ids h there in
          cc
      | inr absent ↦ ground (arith, absent)
    ]

count-layout :
    (id : String) (root groups nodes rest : List String)
    → count id (((root ++ groups) ++ nodes) ++ rest)
      ≡ count id root + (count id groups + count id nodes) + count id rest
count-layout id root groups nodes rest =
    let test = λ (i : String). i == id in
    omega (
      arith,
      count_if-append test ((root ++ groups) ++ nodes) rest,
      count_if-append test (root ++ groups) nodes,
      count_if-append test root groups,
    )

unlisted :
    (blank listed there : Bool) (m : ℕ)
    → (not blank && listed) ≡ false
    → m ≡ (if listed && not (blank || there) then 1 else 0)
    → m ≡ 0
unlisted true listed there m h e = ground arith
unlisted false false there m h e = e
unlisted false true there m h e = cc

module _ (id : String) (server_ids : List String) (groups : List NodeGroup)
    (root seen assigned placed : List String)
    (in_groups : Assigns id (is_server server_ids id) [] (nodes_of groups) assigned) where
  total : ℕ
  total =
      count id root
      + (count id (missing_groups seen groups) + count id (missing_nodes placed server_ids))
      + count id (nodes_of groups)

  total_of_group :
      has_group groups id ≡ true
      → is_server server_ids id ≡ false
      → Assigns id true [] root seen
      → total ≡ (if has_group groups id || is_server server_ids id then 1 else 0)
  unfolding total
  total_of_group g no_server in_root = rw g (
      group_total id root (nodes_of groups) seen (count id (missing_groups seen groups))
        (count id (missing_nodes placed server_ids)) in_root (in_groups.known_only no_server)
        (rw g at (count-missing_groups id seen groups))
        (unlisted (is_empty id) (has server_ids id) (has placed id) _ no_server
          (count-missing_nodes id placed server_ids)))

  total_of_node :
      has_group groups id ≡ false
      → Assigns id (is_server server_ids id) assigned root placed
      → total ≡ (if has_group groups id || is_server server_ids id then 1 else 0)
  unfolding total
  total_of_node g in_root = rw g (
      node_total id root (nodes_of groups) assigned placed (is_empty id) (has server_ids id)
        (count id (missing_groups seen groups)) (count id (missing_nodes placed server_ids))
        in_groups in_root (rw g at (count-missing_groups id seen groups))
        (count-missing_nodes id placed server_ids))

-- A node or group that is known stands exactly once in a layout that has been normalized, and what is
-- not known stands nowhere, provided that no server's id looks like a group's.
pub normalize_node_layout-IsPlaced :
    (layout : Layout) (server_ids : List String) (strict : Bool) (id : String)
    → All (λ s. has_prefix s "grp_" ≡ false) server_ids
    → OnOk (IsPlaced server_ids id) (normalize_node_layout layout server_ids strict)
unfolding normalize_node_layout
normalize_node_layout-IsPlaced layout server_ids strict id apart =
    let P = IsPlaced server_ids id in
    OnOk->> P (refuse_if (ltb max_node_groups (length layout.groups)) group_limit) _ λ _.
      OnOk->>= P (place_groups strict server_ids [] [] layout.groups) _ λ (groups, assigned) e.
        OnOk->>= P (place_root strict server_ids groups [] assigned layout.root) _
          λ (root, seen, placed) e'.
            let in_groups =
              subst (OnOk (λ r. Assigns id (is_server server_ids id) [] (nodes_of r.0) r.1)) e
                (place_groups-Assigns id server_ids strict [] [] layout.groups) in
            let prefixed =
              subst (OnOk (λ r. All (λ g. has_prefix g.id "grp_" ≡ true) r.0)) e
                (place_groups-prefix strict server_ids [] [] layout.groups) in
            count-layout id root (missing_groups seen groups) (missing_nodes placed server_ids)
              (nodes_of groups)
            ∙ elim (Bool-cases (has_group groups id)) [
              | inl g ↦
                  let in_root =
                    subst (OnOk (OfGroup id server_ids groups strict [] assigned)) e'
                      (place_root-OfGroup id server_ids groups strict [] assigned layout.root g) in
                  unfold total in
                  total_of_group id server_ids groups root seen assigned placed in_groups g
                    (group_is_no_server id server_ids groups apart prefixed g) in_root.0
              | inr g ↦
                  let in_root =
                    subst (OnOk (OfNode id server_ids groups strict assigned)) e'
                      (place_root-OfNode id server_ids groups strict [] assigned layout.root g) in
                  unfold total in
                  total_of_node id server_ids groups root seen assigned placed in_groups g in_root
            ]
