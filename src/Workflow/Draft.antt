-- ===== src/Workflow/Draft.antt =====
-- src/kernel/src/models/workflow_engine/workflow_draft.rs,
-- src/kernel/src/exceptions/workflow_draft.rs and the validation of drafts in
-- src/kernel/src/models/impls/workflow_draft.rs.
pub mod Related
pub mod PerNode
pub mod Accepted
use kuintessence.Prelude.{
  ℕ, ◌-◌, ◌^◌, String, Bool, true, false, Option, none, some, List, [], ◌∷◌, ◌++◌, Result, ok, err,
  panic, ◌>>=◌, ◌>>◌, ◌==◌, ◌&&◌, not, str_eq, find, any, is_empty, ok_or, unwrap, traverse, ltb,
  leb, if◌then◌else◌,
}
use kuintessence.Workflow.Common.{
  Uuid, HashMap, Json, SchedulingStrategy, NodeRelation, SlotRelation, Requirements, BatchStrategy,
  BatchStrategyKind, FileInput, FileOutOrigin, NodeInputSlot, NodeInputSlotKind, NodeKind,
  inputs_count,
}
use kuintessence.Workflow.Counts.{usize_mod}

pub data NodeDraftOutputSlotKind : Type 0 where
  file : (origin : FileOutOrigin) (is_batch : Bool) → NodeDraftOutputSlotKind
  text : NodeDraftOutputSlotKind

pub record NodeDraftOutputSlot : Type 0 where
  pub kind : NodeDraftOutputSlotKind
  pub descriptor : String
  pub description : Option String
  pub optional : Bool

pub record NodeDraft : Type 0 where
  pub kind : NodeKind
  pub external_id : Uuid
  pub name : String
  pub description : String
  pub batch_strategies : Option (List BatchStrategy)
  pub input_slots : List NodeInputSlot
  pub output_slots : List NodeDraftOutputSlot
  pub scheduling_strategy : SchedulingStrategy
  pub requirements : Option Requirements
  pub additional_datas : Option (HashMap String Json)

pub record WorkflowDraftSpec : Type 0 where
  pub scheduling_strategy : SchedulingStrategy
  pub node_drafts : List NodeDraft
  pub node_relations : List NodeRelation

pub record WorkflowDraft : Type 0 where
  pub id : Uuid
  pub name : String
  pub description : String
  pub logo : Option String
  pub spec : WorkflowDraftSpec

pub data WorkflowDraftException : Type 0 where
  json_schema : (reason : String) → WorkflowDraftException
  no_such_node : (id : Uuid) → WorkflowDraftException
  no_such_input_slot no_such_output_slot :
      (node_id : Uuid) (descriptor : String) → WorkflowDraftException
  not_single_input_with_match_regex :
      (node_id : Uuid) (descriptor : String) → WorkflowDraftException
  original_batch_inputs_less_than_one :
      (node_id : Uuid) (descriptor : String) → WorkflowDraftException
  no_such_batch_outputs : (node_id : Uuid) (descriptor : String) → WorkflowDraftException
  relied_node_is_not_batched :
      (from_node_id node_id : Uuid) (descriptor : String) → WorkflowDraftException
  relied_slot_is_not_batched :
      (from_node_id : Uuid) (from_descriptor : String) (node_id : Uuid) (descriptor : String)
      → WorkflowDraftException
  none_file : (file_metadata_id : Uuid) → WorkflowDraftException
  mismatch_paired_slot relied_slot_contents_not_empty :
      (from_node_id : Uuid) (from_descriptor : String) (to_node_id : Uuid) (to_descriptor : String)
      → WorkflowDraftException
  no_relied_slot_contents_empty : (node_id : Uuid) (descriptor : String) → WorkflowDraftException
  file_metadata_not_uploaded :
      (file_metadata_id node_id : Uuid) (slot_descriptor : String) → WorkflowDraftException
  dulplicated_batch_strategy : (input_slot_descriptor : String) → WorkflowDraftException
  at_least_one_cluster batch_input_not_offer unknown : WorkflowDraftException

abbrev pub Checked : Type 0 → Type 0
Checked = Result WorkflowDraftException

-- `NodeDraft::get_input_slot` and `NodeDraft::get_output_slot`
unfoldable pub get_input_slot : NodeDraft → String → Option NodeInputSlot
get_input_slot d descriptor = find (λ el. str_eq el.descriptor descriptor) d.input_slots

unfoldable pub get_output_slot : NodeDraft → String → Option NodeDraftOutputSlot
get_output_slot d descriptor = find (λ el. str_eq el.descriptor descriptor) d.output_slots

-- `NodeDraft::input_slot` and `NodeDraft::output_slot`
unfoldable pub input_slot : NodeDraft → String → Checked NodeInputSlot
unfolding get_input_slot
input_slot d descriptor = unwrap (get_input_slot d descriptor)

unfoldable pub output_slot : NodeDraft → String → Checked NodeDraftOutputSlot
unfolding get_output_slot
output_slot d descriptor = unwrap (get_output_slot d descriptor)

-- `WorkflowDraftSpec::get_node` and `WorkflowDraftSpec::node`
unfoldable pub get_node : WorkflowDraftSpec → Uuid → Option NodeDraft
get_node spec id = find (λ el. el.external_id == id) spec.node_drafts

unfoldable pub node : WorkflowDraftSpec → Uuid → Checked NodeDraft
unfolding get_node
node spec id = unwrap (get_node spec id)

-- The `match` on the kinds of the two slots.
abbrev pub may_feed : NodeDraftOutputSlotKind → NodeInputSlotKind → Bool
may_feed (NodeDraftOutputSlotKind.file origin batch) (NodeInputSlotKind.text contents rule) = false
may_feed NodeDraftOutputSlotKind.text (NodeInputSlotKind.file contents name batch) = false
may_feed _ _ = true

abbrev pub guard : Bool → WorkflowDraftException → Checked (Unit {0})
guard true e = ok tt
guard false e = err e

-- The body of the inner loop of `validate_related_nodes`: the descriptor that it pushes. A missing
-- input slot is reported as `NoSuchOutputSlot`, as in the source.
check_slot_relation : NodeDraft → NodeDraft → NodeRelation → SlotRelation → Checked String
unfolding get_input_slot get_output_slot inputs_count
check_slot_relation from_node to_node r s = do
  from_slot ←
      ok_or (no_such_output_slot r.from_id s.from_slot) (get_output_slot from_node s.from_slot)
  to_slot ← ok_or (no_such_output_slot r.to_id s.to_slot) (get_input_slot to_node s.to_slot)
  count ← inputs_count to_slot.kind
  guard (count == 0) (relied_slot_contents_not_empty r.from_id s.from_slot r.to_id s.to_slot)
  guard (may_feed from_slot.kind to_slot.kind)
      (mismatch_paired_slot r.from_id s.from_slot r.to_id s.to_slot)
  ok s.to_slot

-- The body of the outer loop.
check_relation : WorkflowDraftSpec → NodeRelation → Checked (List String)
unfolding get_node check_slot_relation
check_relation spec r = do
  from_node ← ok_or (no_such_node r.from_id) (get_node spec r.from_id)
  to_node ← ok_or (no_such_node r.to_id) (get_node spec r.to_id)
  traverse (check_slot_relation from_node to_node r) r.slot_relations

abbrev pub concat {ℓ} : {A : Type ℓ} → List (List A) → List A
concat [] = []
concat (x ∷ xs) = x ++ concat xs

-- `WorkflowDraftSpec::validate_related_nodes`
unfoldable pub validate_related_nodes : WorkflowDraftSpec → Checked (List String)
unfolding check_relation
validate_related_nodes spec = do
  relied ← traverse (check_relation spec) spec.node_relations
  ok (concat relied)

-- The `contains` of a `Vec<String>`.
abbrev pub contains_slot : List String → String → Bool
contains_slot xs d = any (λ x. str_eq x d) xs

-- `has_meta` says which ids the file metadata repository knows.
module _ (has_meta : Uuid → Bool) (relied_input_slots : List String)
    (spec : WorkflowDraftSpec) where
  -- The test of the `if`; the inputs are counted only where the slot is not relied on.
  lacks_contents : NodeInputSlot → Checked Bool
  unfolding inputs_count
  lacks_contents slot =
      if contains_slot relied_input_slots slot.descriptor
      then ok false
      else (inputs_count slot.kind >>= λ count. ok (ltb count 1 && not slot.optional))

  check_file : NodeDraft → NodeInputSlot → FileInput → Checked (Unit {0})
  check_file node_draft slot content =
      guard (has_meta content.file_metadata_id)
        (file_metadata_not_uploaded content.file_metadata_id node_draft.external_id slot.descriptor)

  check_files : NodeDraft → NodeInputSlot → NodeInputSlotKind → Checked (Unit {0})
  unfolding check_file
  check_files node_draft slot (NodeInputSlotKind.file contents name batch) =
      unwrap contents >>= λ files. traverse (check_file node_draft slot) files >> ok tt
  check_files node_draft slot _ = ok tt

  pub check_input_slot : NodeDraft → NodeInputSlot → Checked (Unit {0})
  unfolding lacks_contents check_files
  check_input_slot node_draft slot = do
    lacks ← lacks_contents slot
    guard (not lacks) (no_relied_slot_contents_empty node_draft.external_id slot.descriptor)
    check_files node_draft slot slot.kind

  pub has_cluster : SchedulingStrategy → Bool
  has_cluster (SchedulingStrategy.manual clusters) = not (is_empty clusters)
  has_cluster (SchedulingStrategy.prefer clusters) = not (is_empty clusters)
  has_cluster SchedulingStrategy.auto = true

  -- The node that feeds a `FromBatchOutputs` slot must be a batch node itself.
  check_relied : NodeDraft → NodeInputSlot → NodeRelation → Checked (Unit {0})
  unfolding node
  check_relied node_draft slot r = do
    relation ← unwrap (find (λ el. str_eq el.to_slot slot.descriptor) r.slot_relations)
    from_node ← node spec r.from_id
    strategies ←
        ok_or (relied_node_is_not_batched r.from_id node_draft.external_id slot.descriptor)
          from_node.batch_strategies
    guard (not (is_empty strategies))
        (relied_node_is_not_batched r.from_id node_draft.external_id slot.descriptor)
    guard (any (λ el. str_eq el.input_slot_descriptor relation.from_slot) strategies) (
        relied_slot_is_not_batched r.from_id relation.from_slot node_draft.external_id
          slot.descriptor)

  -- `!input_slot.inputs_count() >= 1`: on a `usize`, `!` is the bitwise complement.
  pub check_kind : NodeDraft → NodeInputSlot → BatchStrategyKind → Checked (Unit {0})
  unfolding inputs_count check_relied
  check_kind node_draft slot (BatchStrategyKind.match_regex regex fill_count filler) =
      inputs_count slot.kind >>= λ count.
      guard (count == 1) (not_single_input_with_match_regex node_draft.external_id slot.descriptor)
  check_kind node_draft slot BatchStrategyKind.original_batch = inputs_count slot.kind >>= λ count.
      guard (not (leb 1 (usize_mod - 1 - count)))
        (original_batch_inputs_less_than_one node_draft.external_id slot.descriptor)
  check_kind node_draft slot BatchStrategyKind.from_batch_outputs =
      ok_or (no_such_batch_outputs node_draft.external_id slot.descriptor) (
        find (λ el. any (λ el2. str_eq el2.to_slot slot.descriptor) el.slot_relations)
          spec.node_relations)
      >>= check_relied node_draft slot

  check_strategy : NodeDraft → BatchStrategy → Checked (Unit {0})
  unfolding input_slot check_kind
  check_strategy node_draft b =
      input_slot node_draft b.input_slot_descriptor >>= λ slot. check_kind node_draft slot b.kind

  check_strategies : NodeDraft → Option (List BatchStrategy) → Checked (Unit {0})
  unfolding check_strategy
  check_strategies node_draft none = ok tt
  check_strategies node_draft (some bs) = traverse (check_strategy node_draft) bs >> ok tt

  check_node : NodeDraft → Checked (Unit {0})
  unfolding check_input_slot has_cluster check_strategies
  check_node node_draft = do
    traverse (check_input_slot node_draft) node_draft.input_slots
    guard (has_cluster node_draft.scheduling_strategy) at_least_one_cluster
    check_strategies node_draft node_draft.batch_strategies

  -- `WorkflowDraftSpec::validate_per_node`
  unfoldable pub validate_per_node : Checked (Unit {0})
  unfolding check_node
  validate_per_node = traverse check_node spec.node_drafts >> ok tt

-- `WorkflowService::validate_workflow_draft` of
-- src/kernel/src/services/workflow_engine/workflow.rs.
unfoldable pub validate_workflow_draft : (Uuid → Bool) → WorkflowDraftSpec → Checked (Unit {0})
unfolding validate_related_nodes validate_per_node
validate_workflow_draft has_meta spec =
    validate_related_nodes spec >>= λ relied. validate_per_node has_meta relied spec
