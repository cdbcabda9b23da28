-- ===== src/Workflow/Entry/Degrees.antt =====
-- Which nodes `find_entry_nodes_ids` returns (src/kernel/src/services/workflow_engine/schedule.rs).
use kuintessence.Prelude.{
  ℕ, suc, ◌+◌, ◌%◌, ◌<◌, false, ◌≡◌, refl, none, some, List, [], ◌∷◌, ◌==◌, if◌then◌else◌, ◌&&◌,
  contains, arith, length,
}
use kuintessence.Workflow.Common.{Uuid, HashMap}
use kuintessence.Workflow.Entry.{
  i32_mod, get, insert, unwrap_or, add_nodes, add_edges, entries, find_entry_nodes_ids,
}

-- How many dependencies end in the node.
abbrev pub in_degree : Uuid → List (Uuid × Uuid) → ℕ
in_degree k [] = 0
in_degree k ((from_id, to_id) ∷ rest) =
    if to_id == k then suc (in_degree k rest) else in_degree k rest

-- No key stands twice.
abbrev pub IsMap : HashMap Uuid ℕ → Type 0
IsMap [] = Unit {0}
IsMap ((k, v) ∷ m) = (get k m ≡ none) × IsMap m

pub get-insert :
    (k j : Uuid) (v : ℕ) (m : HashMap Uuid ℕ)
    → get j (insert k v m) ≡ (if k == j then some v else get j m)
unfolding get insert
get-insert k j v [] = refl
get-insert k j v ((i, w) ∷ m) = ground (arith, get-insert k j v m)

insert-IsMap : (k : Uuid) (v : ℕ) (m : HashMap Uuid ℕ) → IsMap m → IsMap (insert k v m)
unfolding get insert
insert-IsMap k v [] h = (refl, tt)
insert-IsMap k v ((i, w) ∷ m) h = ground (arith, insert-IsMap k v m h.1, get-insert k i v m)

add_nodes-IsMap : (ids : List Uuid) (m : HashMap Uuid ℕ) → IsMap m → IsMap (add_nodes ids m)
unfolding add_nodes
add_nodes-IsMap [] m h = h
add_nodes-IsMap (id ∷ ids) m h = add_nodes-IsMap ids _ (insert-IsMap id 0 m h)

add_edges-IsMap :
    (deps : List (Uuid × Uuid)) (m : HashMap Uuid ℕ) → IsMap m → IsMap (add_edges deps m)
unfolding add_edges
add_edges-IsMap [] m h = h
add_edges-IsMap ((a, b) ∷ deps) m h = add_edges-IsMap deps _ (insert-IsMap b _ m h)

get-add_nodes :
    (k : Uuid) (ids : List Uuid) (m : HashMap Uuid ℕ)
    → get k (add_nodes ids m) ≡ (if contains ids k then some 0 else get k m)
unfolding add_nodes
get-add_nodes k [] m = refl
get-add_nodes k (id ∷ ids) m =
    ground (arith, get-add_nodes k ids (insert id 0 m), get-insert id k 0 m)

-- The counter of a node after the second loop, as far as it does not wrap.
get-add_edges :
    (k : Uuid) (deps : List (Uuid × Uuid)) (m : HashMap Uuid ℕ)
    → unwrap_or 0 (get k m) + length deps < i32_mod
    → get k (add_edges deps m)
      ≡ (if 0 == in_degree k deps then get k m else some (unwrap_or 0 (get k m) + in_degree k deps))
unfolding add_edges
get-add_edges k [] m h = refl
get-add_edges k ((a, b) ∷ deps) m h =
    let v = (unwrap_or 0 (get b m) + 1) % i32_mod in
    ground (arith, get-add_edges k deps (insert b v m), get-insert b k v m)

entries-get :
    (k : Uuid) (m : HashMap Uuid ℕ)
    → IsMap m
    → contains (entries m) k ≡ elim (get k m) [ none ↦ false | some v ↦ 0 == v ]
unfolding entries get
entries-get k [] h = refl
entries-get k ((i, v) ∷ m) h = ground (arith, entries-get k m h.1)

-- A node is an entry exactly when it is among the given nodes and no dependency ends in it.
pub find_entry_nodes_ids-in_degree :
    (node_ids : List Uuid) (node_dependencies : List (Uuid × Uuid)) (k : Uuid)
    → length node_dependencies < i32_mod
    → contains (find_entry_nodes_ids node_ids node_dependencies) k
      ≡ (contains node_ids k && 0 == in_degree k node_dependencies)
unfolding find_entry_nodes_ids
find_entry_nodes_ids-in_degree node_ids deps k h =
    let m = add_nodes node_ids [] in
    ground (
      arith,
      entries-get k (add_edges deps m) (add_edges-IsMap deps m (add_nodes-IsMap node_ids [] tt)),
      get-add_edges k deps m,
      get-add_nodes k node_ids [],
    )
