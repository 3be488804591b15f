-- ===== src/Web/NodeLayout/Rest.antt =====
-- internal/web/node_layout.go: what is put at the end of the root, counted for one id.
use gpuardian.Base.{
  ℕ, String, Bool, true, false, not, ◌&&◌, ◌||◌, List, [], ◌∷◌, ◌≡◌, refl, ◌==◌, string_eq,
  if◌then◌else◌, arith, is_empty, ==→eq, ap, ◌∙◌,
}
use gpuardian.Web.NodeLayout.{NodeGroup, has, has_group, missing_groups, missing_nodes}
use gpuardian.Web.NodeLayout.Tally.{count}

-- One step of putting at the end what stands nowhere, by whether the item stands somewhere.
missing_row :
    (there found elsewhere hit : Bool) (x id : String) (same rest : List String)
    → (x == id) ≡ hit
    → (hit ≡ true → there ≡ elsewhere)
    → count id same ≡ (if found && not elsewhere then 1 else 0)
    → count id rest ≡ (if found && not (hit || elsewhere) then 1 else 0)
    → count id (if there then same else x ∷ rest)
      ≡ (if (hit || found) && not elsewhere then 1 else 0)
missing_row there found elsewhere true x id same rest e agree h k =
    let agreed = agree refl in ground arith
missing_row true found elsewhere false x id same rest e agree h k = h
missing_row false found elsewhere false x id same rest e agree h k = ground arith

-- The groups that are put at the end: each once, unless it has been seen.
pub count-missing_groups :
    (id : String) (seen : List String) (gs : List NodeGroup)
    → count id (missing_groups seen gs) ≡ (if has_group gs id && not (has seen id) then 1 else 0)
unfolding missing_groups
count-missing_groups id seen [] = refl
count-missing_groups id seen (g ∷ gs) =
    missing_row (has seen g.id) (has_group gs id) (has seen id) (g.id == id) g.id id
      (missing_groups seen gs) (missing_groups (g.id ∷ seen) gs) refl
      (λ hit. ap (has seen) (==→eq g.id id hit)) (count-missing_groups id seen gs)
      (count-missing_groups id (g.id ∷ seen) gs)

if_neither :
    {A : Type 0} (a b : Bool) (x y : A)
    → (if not a && not b then x else y) ≡ (if a || b then y else x)
if_neither true b x y = refl
if_neither false true x y = refl
if_neither false false x y = refl

reordered :
    (f a b c : Bool) (n : ℕ)
    → n ≡ (if f && not (a || (b || c)) then 1 else 0)
    → n ≡ (if f && not (b || (a || c)) then 1 else 0)
reordered f true true c n h = h
reordered f true false c n h = h
reordered f false true c n h = h
reordered f false false c n h = h

pub count-missing_nodes :
    (id : String) (assigned ids : List String)
    → count id (missing_nodes assigned ids)
      ≡ (if has ids id && not (is_empty id || has assigned id) then 1 else 0)
unfolding missing_nodes
count-missing_nodes id assigned [] = refl
count-missing_nodes id assigned (x ∷ ids) =
    let same = missing_nodes assigned ids in
    let rest = missing_nodes (x ∷ assigned) ids in
    ap (count id) (if_neither (is_empty x) (has assigned x) (x ∷ rest) same)
    ∙ missing_row (is_empty x || has assigned x) (has ids id) (is_empty id || has assigned id)
        (x == id) x id same rest refl
        (λ hit. ap (λ y. is_empty y || has assigned y) (==→eq x id hit))
        (count-missing_nodes id assigned ids)
        (reordered (has ids id) (is_empty id) (x == id) (has assigned id) (count id rest)
          (count-missing_nodes id (x ∷ assigned) ids))
