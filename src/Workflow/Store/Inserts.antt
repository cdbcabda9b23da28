-- ===== src/Workflow/Store/Inserts.antt =====
-- Inserting rows with new keys and saving them
-- (src/co/src/infrastructure/repositories/sea_orm_db_repository).
use mathlib.Core.List.{append-nil, append_assoc}
use kuintessence.Prelude.{
  true, false, ◌≡◌, refl, ◌∙◌, ap, none, some, List, [], ◌∷◌, ◌++◌, map, ok, is_empty,
  if◌then◌else◌, arith,
}
use kuintessence.Workflow.Common.{Uuid}
use kuintessence.Workflow.Instance.{NodeInstance}
use kuintessence.Workflow.Exec.{pure, for_each, ◌>>=◌}
use kuintessence.Workflow.Store.{
  World, insert_node, push, save_changed, execute, execute_all, finish,
}
use kuintessence.Workflow.Store.Update.{has_id}

-- The rows have new keys, one after the other.
abbrev pub AllNew : List NodeInstance → List NodeInstance → Type 0
AllNew [] ns = Unit {0}
AllNew (r ∷ rs) ns = (has_id r.id ns ≡ false) × AllNew rs (ns ++ r ∷ [])

insert-step :
    (r : NodeInstance) (s : World)
    → has_id r.id s.nodes ≡ false
    → execute (insert_node r) s ≡ some (record s { nodes = s.nodes ++ r ∷ [] })
unfolding execute
insert-step r s new = rw new refl

execute_all-insert_node :
    (rs : List NodeInstance) (s : World)
    → AllNew rs s.nodes
    → execute_all (map insert_node rs) s ≡ some (record s { nodes = s.nodes ++ rs })
unfolding execute_all
execute_all-insert_node [] s new = simp append-nil refl
execute_all-insert_node (r ∷ rs) s new =
    let next : World = record s { nodes = s.nodes ++ r ∷ [] } in
    ap (λ o. elim o [ none ↦ none | some s' ↦ execute_all (map insert_node rs) s' ])
      (insert-step r s new.0)
    ∙ execute_all-insert_node rs next new.1
    ∙ simp append_assoc refl

push_all :
    (rs : List NodeInstance) (s : World)
    → (for_each rs λ r. push (insert_node r)) s ≡ (
      ok tt,
      record s {
        statements = s.statements ++ map insert_node rs;
        can_drop = if is_empty rs then s.can_drop else false;
      },
    )
unfolding push
push_all [] s = simp append-nil refl
push_all (r ∷ rs) s =
    let next : World = record s {
      statements = s.statements ++ insert_node r ∷ [];
      can_drop = false;
    } in
    let same : (if is_empty rs then false else false) ≡ false = ground arith in
    push_all rs next ∙ simp (same, append_assoc) refl

-- All rows are inserted, in order.
pub save_all :
    (rs : List NodeInstance) (id : Uuid) (s : World)
    → s.statements ≡ []
    → s.can_drop ≡ true
    → AllNew rs s.nodes
    → ((for_each rs λ r. push (insert_node r)) >>= λ _. save_changed >>= λ _. pure id) s
      ≡ (ok id, record s { nodes = s.nodes ++ rs })
unfolding save_changed finish
save_all [] id s clean idle new = rw idle (simp append-nil refl)
save_all (r ∷ rs) id s clean idle new =
    let staged : World = record s { statements = map insert_node (r ∷ rs); can_drop = false } in
    rw (push_all (r ∷ rs) s, clean, execute_all-insert_node (r ∷ rs) staged new) (simp idle refl)
