-- ===== src/Workflow/Store/Nth.antt =====
-- The place of a sub task among those of its parent
-- (src/co/src/infrastructure/repositories/sea_orm_db_repository/node_instance.rs).
use kuintessence.Prelude.{
  ℕ, suc, true, ◌≡◌, refl, none, some, List, [], ◌∷◌, err, find, all, keep, not, ◌==◌, ◌&&◌, arith,
}
use kuintessence.Workflow.Common.{Uuid}
use kuintessence.Workflow.Instance.{NodeInstance, no_such_sub_node}
use kuintessence.Workflow.Store.{World, has_parent, nth_of, get_node, get_nth_of_batch_tasks}

nth_of-none :
    (id : Uuid) (ns : List NodeInstance) (i : ℕ)
    → all (λ m. not (m.id == id && has_parent id m)) ns ≡ true
    → nth_of id (keep (has_parent id) ns) i none ≡ none
unfolding nth_of
nth_of-none id [] i h = refl
nth_of-none id (n ∷ ns) i h = ground (arith, nth_of-none id ns i, nth_of-none id ns (suc i))

-- Where no row is its own parent, `get_nth_of_batch_tasks` finds no sub task: for every row that is
-- there it returns the error that there is no such sub node.
pub get_nth_of_batch_tasks-err :
    (n : NodeInstance) (s : World)
    → find (λ m. m.id == n.id) s.nodes ≡ some n
    → all (λ m. not (m.id == n.id && has_parent n.id m)) s.nodes ≡ true
    → get_nth_of_batch_tasks n.id s ≡ (err no_such_sub_node, s)
unfolding get_nth_of_batch_tasks get_node
get_nth_of_batch_tasks-err n s found other = rw (found, nth_of-none n.id s.nodes 0 other) refl
