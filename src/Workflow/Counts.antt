-- ===== src/Workflow/Counts.antt =====
-- `WorkflowInstance::sub_node_count` of src/kernel/src/models/impls/workflow_instance.rs. The fuel
-- is the depth of the stack: a recursion that is deeper ends in `stack_overflow`.
pub mod Depth
use kuintessence.Prelude.{
  ℕ, zero, suc, ◌+◌, ◌*◌, ◌%◌, ◌^◌, String, Bool, List, [], ◌∷◌, Result, ok, err, panic, ◌>>=◌,
  unwrap, find, any, str_eq, not, is_empty,
}
use kuintessence.Workflow.Common.{Uuid, BatchStrategyKind, BatchStrategy, inputs_count}
use kuintessence.Workflow.Instance.{NodeSpec, WorkflowInstance, Error, stack_overflow}
use kuintessence.Workflow.Slots.{node, node_dependency_relations, input_slot}

-- `usize` products wrap.
abbrev pub usize_mod : ℕ
usize_mod = 2 ^ 64

-- The node whose output feeds the slot of a `FromBatchOutputs` strategy.
unfoldable pub relied_node : WorkflowInstance → Uuid → String → Result Error Uuid
unfolding node_dependency_relations
relied_node w id descriptor =
    unwrap (
      find (λ el. any (λ el2. str_eq el2.to_slot descriptor) el.slot_relations)
        (node_dependency_relations w id))
    >>= λ el. ok el.from_id

module _ (count_of : Uuid → Result Error ℕ) (w : WorkflowInstance) (node_spec : NodeSpec) where
  -- The factor of one strategy; `count_of` is the recursive call.
  strategy_count : BatchStrategy → Result Error ℕ
  unfolding relied_node input_slot inputs_count
  strategy_count batch_strategy = elim batch_strategy.kind [
    | BatchStrategyKind.original_batch ↦
        input_slot node_spec batch_strategy.input_slot_descriptor >>= λ slot. inputs_count slot.kind
    | BatchStrategyKind.match_regex regex_to_match fill_count filler ↦ ok fill_count
    | BatchStrategyKind.from_batch_outputs ↦
        relied_node w node_spec.id batch_strategy.input_slot_descriptor >>= count_of
  ]

  fold_counts : List BatchStrategy → ℕ → Result Error ℕ
  unfolding strategy_count
  fold_counts [] acc = ok acc
  fold_counts (batch_strategy ∷ rest) acc =
      strategy_count batch_strategy >>= λ count. fold_counts rest ((acc * count) % usize_mod)

unfoldable pub sub_node_count : ℕ → WorkflowInstance → Uuid → Result Error ℕ
unfolding node fold_counts
sub_node_count zero w node_id = err stack_overflow
sub_node_count (suc depth) w node_id = node w.spec node_id >>= λ node_spec.
    fold_counts (sub_node_count depth w) w node_spec node_spec.batch_strategies 1
