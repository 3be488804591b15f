-- ===== src/Web/NodeLayout/Tally.antt =====
-- internal/web/node_layout.go: the loops over the groups and their nodes, counted for one id.
use gpuardian.Base.{
  ℕ, ◌+◌, ◌≤◌, String, Bool, true, false, not, List, [], ◌∷◌, ◌++◌, Bool-cases, inl, inr, ◌≡◌, refl,
  ◌==◌, string_eq, if◌then◌else◌, ok, err, ◌>>=◌, OnOk, OnOk-mono, OnOk->>=, OnOk->>, arith,
  count_if, count_if-append, ==→eq, subst,
}
use gpuardian.Web.NodeLayout.{
  NodeGroup, LayoutError, Checked, has, is_server, place_nodes, unknown_node, node_twice,
  check_group, trim_group, place_groups,
}

abbrev pub count : String → List String → ℕ
count id xs = count_if (λ i. i == id) xs

-- The nodes of all groups.
abbrev pub nodes_of : List NodeGroup → List String
nodes_of [] = []
nodes_of (g ∷ gs) = g.node_ids ++ nodes_of gs

-- The nodes that were kept are assigned besides those from before, none of them twice, and none is
-- unknown.
pub record Assigns (id : String) (known : Bool) (assigned kept after : List String) : Type 0 where
  pub adds : count id after ≡ count id kept + count id assigned
  pub once : count id assigned ≤ 1 → count id after ≤ 1
  pub known_only : known ≡ false → count id kept ≡ 0

pub not-has : (id : String) (xs : List String) → has xs id ≡ false → count id xs ≡ 0
not-has id [] h = refl
not-has id (x ∷ xs) h = ground (arith, not-has id xs)

pub has-count : (id : String) (xs : List String) → has xs id ≡ true → 1 ≤ count id xs
has-count id [] h = cc
has-count id (x ∷ xs) h = ground (arith, has-count id xs)

-- One more item in front, counted where it is the one that is asked for.
pub Assigns-cons :
    (id x : String) (known : Bool) (a kept after : List String)
    → ((x == id) ≡ true → (known ≡ true) × (has a id ≡ false))
    → Assigns id known (x ∷ a) kept after
    → Assigns id known a (x ∷ kept) after
Assigns-cons id x known a kept after fit h = elim (Bool-cases (x == id)) [
  | inl e ↦
      let (is_known, fresh) = fit e in
      let zero = not-has id a fresh in
      let adds = h.adds in
      let once = h.once in
      record {
        adds = ground (arith, adds, e);
        once = λ l. ground (arith, once, e, zero);
        known_only = λ no. cc;
      }
  | inr e ↦
      let adds = h.adds in
      let once = h.once in
      record {
        adds = ground (arith, adds, e);
        once = λ l. ground (arith, once, e);
        known_only = λ no. let none_kept = h.known_only no in ground (arith, none_kept, e);
      }
]

-- The loop over a group's nodes on one node.
node_row :
    (P : List String × List String → Type 0) (strict absent there : Bool) (e f : LayoutError)
    (x : String) (skipped rest : Checked (List String × List String))
    → OnOk P skipped
    → (absent ≡ false → there ≡ false → OnOk (λ r. P (x ∷ r.0, r.1)) rest)
    → OnOk P (
        if absent
        then if strict then err e else skipped
        else if there
        then err f
        else (rest >>= λ (kept, after). ok (x ∷ kept, after)))
node_row P true true there e f x skipped rest h k = tt
node_row P false true there e f x skipped rest h k = h
node_row P strict false true e f x skipped rest h k = tt
node_row P strict false false e f x skipped (err y) h k = tt
node_row P strict false false e f x skipped (ok r) h k = k refl refl

-- What holds of `x` holds of the id that it is equal to.
pub moved : (P : String → Type 0) (x id : String) → (x == id) ≡ true → P x → P id
moved P x id hit p = subst P (==→eq x id hit) p

module _ (id : String) (server_ids : List String) where
  place_nodes-Assigns :
      (strict : Bool) (assigned ids : List String)
      → OnOk
          (λ r. Assigns id (is_server server_ids id) assigned r.0 r.1)
          (place_nodes strict server_ids assigned ids)
  unfolding place_nodes
  place_nodes-Assigns strict assigned [] = record {
    adds = omega arith;
    once = λ l. l;
    known_only = λ no. refl;
  }
  place_nodes-Assigns strict assigned (x ∷ ids) =
      node_row (λ r. Assigns id (is_server server_ids id) assigned r.0 r.1) strict
        (not (is_server server_ids x)) (has assigned x) (unknown_node x) (node_twice x) x
        (place_nodes strict server_ids assigned ids)
        (place_nodes strict server_ids (x ∷ assigned) ids) (place_nodes-Assigns strict assigned ids)
        λ p q.
          OnOk-mono
            (λ r. Assigns-cons id x (is_server server_ids id) assigned r.0 r.1 (λ hit. (
              moved (λ y. is_server server_ids y ≡ true) x id hit (ground (arith, p)),
              moved (λ y. has assigned y ≡ false) x id hit q,
            )))
            (place_nodes strict server_ids (x ∷ assigned) ids)
            (place_nodes-Assigns strict (x ∷ assigned) ids)

Assigns-trans :
    (id : String) (known : Bool) (a kept b rest c : List String)
    → Assigns id known a kept b
    → Assigns id known b rest c
    → Assigns id known a (kept ++ rest) c
Assigns-trans id known a kept b rest c h k =
    let sum = count_if-append (λ i. i == id) kept rest in
    record {
      adds = omega (arith, sum, h.adds, k.adds);
      once = λ l. k.once (h.once l);
      known_only = λ no. omega (arith, sum, h.known_only no, k.known_only no);
    }

pub place_groups-Assigns :
    (id : String) (server_ids : List String) (strict : Bool) (before : List NodeGroup)
    (assigned : List String) (inputs : List NodeGroup)
    → OnOk
        (λ r. Assigns id (is_server server_ids id) assigned (nodes_of r.0) r.1)
        (place_groups strict server_ids before assigned inputs)
unfolding place_groups
place_groups-Assigns id server_ids strict before assigned [] = record {
  adds = omega arith;
  once = λ l. l;
  known_only = λ no. refl;
}
place_groups-Assigns id server_ids strict before assigned (input ∷ inputs) =
    let P = λ (r : List NodeGroup × List String).
      Assigns id (is_server server_ids id) assigned (nodes_of r.0) r.1 in
    let nodes = place_nodes-Assigns id server_ids strict assigned input.node_ids in
    OnOk->> P (check_group before (trim_group input)) _ λ _.
      OnOk->>= P (place_nodes strict server_ids assigned input.node_ids) _ λ (kept, after) e.
        let placed = record (trim_group input) { node_ids = kept } in
        OnOk->>= P (place_groups strict server_ids (placed ∷ before) after inputs) _
          λ (groups, last) e'.
            Assigns-trans id (is_server server_ids id) assigned kept after (nodes_of groups) last
              (subst (OnOk (λ r. Assigns id (is_server server_ids id) assigned r.0 r.1)) e nodes)
              (subst (OnOk (λ r. Assigns id (is_server server_ids id) after (nodes_of r.0) r.1)) e'
                (place_groups-Assigns id server_ids strict (placed ∷ before) after inputs))
