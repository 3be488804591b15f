-- ===== src/Web/NodeLayout/Root.antt =====
-- internal/web/node_layout.go: the loop over the root, counted for one id.
use gpuardian.Base.{
  String, Bool, true, false, ◌||◌, List, [], ◌∷◌, Bool-cases, inl, inr, ◌≡◌, refl, ◌==◌, string_eq,
  if◌then◌else◌, ok, err, ◌>>=◌, OnOk, OnOk-mono, arith, ==→eq, ap, ◌∙◌,
}
use gpuardian.Web.NodeLayout.{
  NodeGroup, LayoutError, Checked, has, is_server, has_group, node_twice, place_root, group_twice,
  unknown_item,
}
use gpuardian.Web.NodeLayout.Tally.{count, Assigns, Assigns-cons, moved}

-- The root's loop on one item, by what the item is.
root_row :
    (P : List String × List String × List String → Type 0) (group seen server taken strict : Bool)
    (e f g : LayoutError) (x : String)
    (skipped as_group as_node : Checked (List String × List String × List String))
    → OnOk P skipped
    → (group ≡ true → seen ≡ false → OnOk (λ r. P (x ∷ r.0, r.1, r.2)) as_group)
    → (group ≡ false
        → server ≡ true
        → (taken || seen) ≡ false
        → OnOk (λ r. P (x ∷ r.0, r.1, r.2)) as_node)
    → OnOk P (
        if group
        then if seen then err e else (as_group >>= λ (kept, s, a). ok (x ∷ kept, s, a))
        else if server
        then if taken || seen then err f else (as_node >>= λ (kept, s, a). ok (x ∷ kept, s, a))
        else if strict
        then err g
        else skipped)
root_row P true true server taken strict e f g x skipped as_group as_node h i j = tt
root_row P true false server taken strict e f g x skipped (err y) as_node h i j = tt
root_row P true false server taken strict e f g x skipped (ok r) as_node h i j = i refl refl
root_row P false seen false taken true e f g x skipped as_group as_node h i j = tt
root_row P false seen false taken false e f g x skipped as_group as_node h i j = h
root_row P false seen true true strict e f g x skipped as_group as_node h i j = tt
root_row P false true true false strict e f g x skipped as_group as_node h i j = tt
root_row P false false true false strict e f g x skipped as_group (err y) h i j = tt
root_row P false false true false strict e f g x skipped as_group (ok r) h i j = j refl refl refl

differs : (f : String → Bool) (x id : String) → (f x ≡ f id → ⊥) → (x == id) ≡ false
differs f x id k = elim (Bool-cases (x == id)) [
  | inl e ↦ absurd (k (ap f (==→eq x id e)))
  | inr e ↦ e
]

count-other :
    (x id : String) (xs : List String) → (x == id) ≡ false → count id (x ∷ xs) ≡ count id xs
count-other x id xs e = rw e refl

Assigns-other :
    (id x : String) (known : Bool) (a kept after : List String)
    → (x == id) ≡ false
    → Assigns id known a kept after
    → Assigns id known a (x ∷ kept) after
Assigns-other id x known a kept after other h =
    let same = count-other x id kept other in
    record {
      adds = omega (arith, same, h.adds);
      once = h.once;
      known_only = λ no. same ∙ h.known_only no;
    }

module _ (id : String) (server_ids : List String) (groups : List NodeGroup) (strict : Bool) where
  -- A group's id stands in the root as often as it has been seen there, and as no node.
  abbrev pub OfGroup : List String → List String → List String × List String × List String → Type 0
  OfGroup seen assigned r = Assigns id true seen r.0 r.1 × (count id r.2 ≡ count id assigned)

  pub place_root-OfGroup :
      (seen assigned ids : List String)
      → has_group groups id ≡ true
      → OnOk (OfGroup seen assigned) (place_root strict server_ids groups seen assigned ids)
  unfolding place_root
  place_root-OfGroup seen assigned [] is_group =
      (record { adds = omega arith; once = λ l. l; known_only = λ no. refl }, refl)
  place_root-OfGroup seen assigned (x ∷ ids) is_group =
      root_row (OfGroup seen assigned) (has_group groups x) (has seen x) (is_server server_ids x)
        (has assigned x) strict (group_twice x) (node_twice x) (unknown_item x) x
        (place_root strict server_ids groups seen assigned ids)
        (place_root strict server_ids groups (x ∷ seen) assigned ids)
        (place_root strict server_ids groups (x ∷ seen) (x ∷ assigned) ids)
        (place_root-OfGroup seen assigned ids is_group)
        (λ p q.
          OnOk-mono
            (λ r h. (
              Assigns-cons id x true seen r.0 r.1
                  (λ hit. (refl, moved (λ y. has seen y ≡ false) x id hit q)) h.0,
              h.1,
            ))
            (place_root strict server_ids groups (x ∷ seen) assigned ids)
            (place_root-OfGroup (x ∷ seen) assigned ids is_group))
        (λ p q z.
          OnOk-mono
            (λ r h.
              let other = differs (has_group groups) x id (λ e. cc) in
              (
                Assigns-cons id x true seen r.0 r.1 (λ hit. cc) h.0,
                h.1 ∙ count-other x id assigned other,
              ))
            (place_root strict server_ids groups (x ∷ seen) (x ∷ assigned) ids)
            (place_root-OfGroup (x ∷ seen) (x ∷ assigned) ids is_group))

  -- A node stands in the root where it is assigned there.
  abbrev pub OfNode : List String → List String × List String × List String → Type 0
  OfNode assigned r = Assigns id (is_server server_ids id) assigned r.0 r.2

  pub place_root-OfNode :
      (seen assigned ids : List String)
      → has_group groups id ≡ false
      → OnOk (OfNode assigned) (place_root strict server_ids groups seen assigned ids)
  unfolding place_root
  place_root-OfNode seen assigned [] no_group = record {
    adds = omega arith;
    once = λ l. l;
    known_only = λ no. refl;
  }
  place_root-OfNode seen assigned (x ∷ ids) no_group =
      root_row (OfNode assigned) (has_group groups x) (has seen x) (is_server server_ids x)
        (has assigned x) strict (group_twice x) (node_twice x) (unknown_item x) x
        (place_root strict server_ids groups seen assigned ids)
        (place_root strict server_ids groups (x ∷ seen) assigned ids)
        (place_root strict server_ids groups (x ∷ seen) (x ∷ assigned) ids)
        (place_root-OfNode seen assigned ids no_group)
        (λ p q.
          OnOk-mono
            (λ r h.
              let other = differs (has_group groups) x id (λ e. cc) in
              Assigns-other id x (is_server server_ids id) assigned r.0 r.2 other h)
            (place_root strict server_ids groups (x ∷ seen) assigned ids)
            (place_root-OfNode (x ∷ seen) assigned ids no_group))
        (λ p q z.
          OnOk-mono
            (λ r. Assigns-cons id x (is_server server_ids id) assigned r.0 r.2 (λ hit. (
              moved (λ y. is_server server_ids y ≡ true) x id hit q,
              moved (λ y. has assigned y ≡ false) x id hit (ground (arith, z)),
            )))
            (place_root strict server_ids groups (x ∷ seen) (x ∷ assigned) ids)
            (place_root-OfNode (x ∷ seen) (x ∷ assigned) ids no_group))
