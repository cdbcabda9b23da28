-- ===== src/Workflow/Store/Single.antt =====
-- One update and its save, from a repository with nothing staged
-- (src/co/src/infrastructure/repositories/sea_orm_db_repository).
use kuintessence.Prelude.{
  Bool, true, false, ◌≡◌, refl, some, List, [], ◌∷◌, ok, ◌==◌, find, arith, ◌&&◌, not, all, keep,
}
use kuintessence.Workflow.Common.{Uuid}
use kuintessence.Workflow.Instance.{NodeInstance, WorkflowInstance}
use kuintessence.Workflow.Exec.{pure, ◌>>=◌}
use kuintessence.Workflow.Store.{
  World, update_node, update_flow, push, save_changed, execute_all, finish, set_node, set_flow,
}

pub push-save-node :
    (e : NodeInstance) (s : World)
    → s.statements ≡ []
    → (push (update_node e) >>= λ _. save_changed) s
      ≡ (ok true, record s { nodes = set_node e s.nodes; statements = []; can_drop = true })
unfolding push save_changed execute_all finish
push-save-node e s h = simp h refl

pub push-save-flow :
    (e : WorkflowInstance) (s : World)
    → s.statements ≡ []
    → (push (update_flow e) >>= λ _. save_changed) s
      ≡ (ok true, record s { flows = set_flow e s.flows; statements = []; can_drop = true })
unfolding push save_changed execute_all finish
push-save-flow e s h = simp h refl

-- An updated row is found under its key.
pub find-set_node :
    (id : Uuid) (e n : NodeInstance) (ns : List NodeInstance)
    → e.id ≡ id
    → find (λ m. m.id == id) ns ≡ some n
    → find (λ m. m.id == id) (set_node e ns) ≡ some e
unfolding set_node
find-set_node id e n [] same h = ground arith
find-set_node id e n (m ∷ ms) same h = ground (arith, find-set_node id e n ms same)

-- A row with another key that fails the test still does after the update.
pub all-keep-set_node :
    (p q : NodeInstance → Bool) (e m : NodeInstance) (ns : List NodeInstance)
    → find (λ x. q x && not (p x) && not (x.id == e.id)) ns ≡ some m
    → all p (keep q (set_node e ns)) ≡ false
unfolding set_node
all-keep-set_node p q e m [] h = ground arith
all-keep-set_node p q e m (x ∷ xs) h = ground (arith, all-keep-set_node p q e m xs)

-- The end of an operation.
pub push-save-done :
    (e : WorkflowInstance) (s : World)
    → s.statements ≡ []
    → (push (update_flow e) >>= λ _. save_changed >>= λ _. pure tt) s
      ≡ (ok tt, record s { flows = set_flow e s.flows; statements = []; can_drop = true })
unfolding push save_changed execute_all finish
push-save-done e s h = simp h refl
