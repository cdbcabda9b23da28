-- ===== src/Workflow/Entry.antt =====
-- `WorkflowScheduleService::find_entry_nodes_ids` of
-- src/kernel/src/services/workflow_engine/schedule.rs. The order in which a Rust `HashMap` is
-- walked is not specified: the model walks it in the order of first insertion.
pub mod Degrees
use kuintessence.Prelude.{
  ℕ, ◌+◌, ◌%◌, ◌^◌, Bool, Option, none, some, List, [], ◌∷◌, ◌==◌, if◌then◌else◌,
}
use kuintessence.Workflow.Common.{Uuid, HashMap}

-- The `i32` counters are kept as bit patterns: `+ 1` wraps at 2^32.
abbrev pub i32_mod : ℕ
i32_mod = 2 ^ 32

-- `HashMap::get`
unfoldable pub get : Uuid → HashMap Uuid ℕ → Option ℕ
get k [] = none
get k ((j, v) ∷ m) = if j == k then some v else get k m

-- `HashMap::insert`
unfoldable pub insert : Uuid → ℕ → HashMap Uuid ℕ → HashMap Uuid ℕ
insert k v [] = (k, v) ∷ []
insert k v ((j, w) ∷ m) = if j == k then (j, v) ∷ m else (j, w) ∷ insert k v m

abbrev pub unwrap_or : ℕ → Option ℕ → ℕ
unwrap_or d none = d
unwrap_or d (some v) = v

-- The first loop: every node starts at 0.
add_nodes : List Uuid → HashMap Uuid ℕ → HashMap Uuid ℕ
unfolding insert
add_nodes [] m = m
add_nodes (node_id ∷ node_ids) m = add_nodes node_ids (insert node_id 0 m)

-- The second loop: one more for the target of each dependency.
add_edges : List (Uuid × Uuid) → HashMap Uuid ℕ → HashMap Uuid ℕ
unfolding insert get
add_edges [] m = m
add_edges ((from_id, to_id) ∷ rest) m =
    add_edges rest (insert to_id ((unwrap_or 0 (get to_id m) + 1) % i32_mod) m)

-- The third loop.
entries : HashMap Uuid ℕ → List Uuid
entries [] = []
entries ((node_id, adjacency) ∷ m) = if 0 == adjacency then node_id ∷ entries m else entries m

unfoldable pub find_entry_nodes_ids : List Uuid → List (Uuid × Uuid) → List Uuid
unfolding add_nodes add_edges entries
find_entry_nodes_ids node_ids node_dependencies =
    entries (add_edges node_dependencies (add_nodes node_ids []))
