-- ===== src/Workflow/Batch/Unreachable.antt =====
-- Where `get_batch_inputs` stops (src/kernel/src/services/workflow_engine/schedule.rs).
use kuintessence.Prelude.{String, ◌≡◌, refl, Option, none, some, List, ◌∷◌, ok, panic}
use kuintessence.Workflow.Common.{
  NodeRelation, BatchStrategy, BatchStrategyKind, TextInputSlotRule, NodeInputSlot,
  NodeInputSlotKind, Uuid,
}
use kuintessence.Workflow.Instance.{NodeSpec}
use kuintessence.Workflow.Store.{World}
use kuintessence.Workflow.Slots.{input_slot}
use kuintessence.Workflow.Batch.{Env, original_inputs, get_batch_inputs, all_inputs, debatch}

module _ (env : Env) where
  original_inputs-text :
      (renaming_pattern : Option String) (contents : Option (List Uuid)) (rule : TextInputSlotRule)
      (s : World)
      → original_inputs env renaming_pattern (NodeInputSlotKind.text contents rule) s ≡ (panic, s)
  unfolding original_inputs
  original_inputs-text renaming_pattern none rule s = refl
  original_inputs-text renaming_pattern (some keys) rule s = refl

  -- A node whose first batch strategy is OriginalBatch on a text slot stops `debatch` with a panic,
  -- whether the slot has inputs or not, and nothing is changed.
  pub debatch-original_text :
      (relations : List NodeRelation) (node_spec : NodeSpec) (b : BatchStrategy)
      (bs : List BatchStrategy) (slot : NodeInputSlot) (contents : Option (List Uuid))
      (rule : TextInputSlotRule) (s : World)
      → node_spec.batch_strategies ≡ b ∷ bs
      → b.kind ≡ BatchStrategyKind.original_batch
      → input_slot node_spec b.input_slot_descriptor ≡ ok slot
      → slot.kind ≡ NodeInputSlotKind.text contents rule
      → debatch env relations node_spec s ≡ (panic, s)
  unfolding debatch all_inputs get_batch_inputs
  debatch-original_text relations node_spec b bs slot contents rule s strategies kind found text =
      rw (strategies, found, kind, text, original_inputs-text b.renaming_pattern contents rule s)
        refl
