-- ===== src/Workflow/Draft/Related.antt =====
-- The drafts that `validate_related_nodes` accepts (src/kernel/src/models/impls/workflow_draft.rs).
use kuintessence.Prelude.{
  String, Bool, true, false, ◌≡◌, refl, sym, ap, ◌∙◌, Option, none, some, List, map, ok, ◌==◌,
  ok_or, traverse, All, All-map, traverse-All, traverse-map, >>=-eq-ok, ok-injective, ==_iff,
}
use kuintessence.Workflow.Common.{NodeRelation, SlotRelation, NodeInputSlot, inputs_count}
use kuintessence.Workflow.Draft.{
  NodeDraft, NodeDraftOutputSlot, WorkflowDraftSpec, WorkflowDraftException, get_node,
  get_input_slot, get_output_slot, may_feed, guard, check_slot_relation, check_relation, concat,
  validate_related_nodes,
}

-- The output slot and the input slot exist, are of one kind, and the input slot is empty.
pub record FeedsWell (from_node to_node : NodeDraft) (s : SlotRelation) : Type 0 where
  pub from_slot : NodeDraftOutputSlot
  pub to_slot : NodeInputSlot
  pub has_from : get_output_slot from_node s.from_slot ≡ some from_slot
  pub has_to : get_input_slot to_node s.to_slot ≡ some to_slot
  pub is_empty : inputs_count {E = WorkflowDraftException} to_slot.kind ≡ ok 0
  pub one_kind : may_feed from_slot.kind to_slot.kind ≡ true

-- Both nodes exist and every slot relation is good.
pub record RelatesWell (spec : WorkflowDraftSpec) (r : NodeRelation) : Type 0 where
  pub from_node : NodeDraft
  pub to_node : NodeDraft
  pub has_from : get_node spec r.from_id ≡ some from_node
  pub has_to : get_node spec r.to_id ≡ some to_node
  pub slots : All (FeedsWell from_node to_node) r.slot_relations

abbrev pub to_slots : NodeRelation → List String
to_slots r = map (λ s. s.to_slot) r.slot_relations

pub ok_or-eq-ok :
    {A : Type 0} (e : WorkflowDraftException) (o : Option A) (a : A) → ok_or e o ≡ ok a → o ≡ some a
ok_or-eq-ok e none a h = cc
ok_or-eq-ok e (some b) a h = ap some (ok-injective h)

pub guard-eq-ok :
    (b : Bool) (e : WorkflowDraftException) (a : Unit {0}) → guard b e ≡ ok a → b ≡ true
guard-eq-ok true e a h = refl
guard-eq-ok false e a h = cc

check_slot_relation-FeedsWell :
    (from_node to_node : NodeDraft) (r : NodeRelation) (s : SlotRelation) (d : String)
    → check_slot_relation from_node to_node r s ≡ ok d
    → FeedsWell from_node to_node s × (d ≡ s.to_slot)
unfolding check_slot_relation
check_slot_relation-FeedsWell from_node to_node r s d h =
    let (from_slot, a, h₁) = >>=-eq-ok (ok_or _ (get_output_slot from_node s.from_slot)) _ h in
    let (to_slot, b, h₂) = >>=-eq-ok (ok_or _ (get_input_slot to_node s.to_slot)) _ h₁ in
    let (count, c, h₃) = >>=-eq-ok (inputs_count to_slot.kind) _ h₂ in
    let (_, empty, h₄) = >>=-eq-ok (guard (count == 0) _) _ h₃ in
    let (_, kinds, h₅) = >>=-eq-ok (guard (may_feed from_slot.kind to_slot.kind) _) _ h₄ in
    (
      record {
        from_slot = from_slot;
        to_slot = to_slot;
        has_from = ok_or-eq-ok _ _ _ a;
        has_to = ok_or-eq-ok _ _ _ b;
        is_empty = c ∙ ap ok ((==_iff count 0).0 (guard-eq-ok _ _ _ empty));
        one_kind = guard-eq-ok _ _ _ kinds;
      },
      sym (ok-injective h₅),
    )

check_relation-RelatesWell :
    (spec : WorkflowDraftSpec) (r : NodeRelation) (ds : List String)
    → check_relation spec r ≡ ok ds
    → RelatesWell spec r × (ds ≡ to_slots r)
unfolding check_relation
check_relation-RelatesWell spec r ds h =
    let (from_node, a, h₁) = >>=-eq-ok (ok_or _ (get_node spec r.from_id)) _ h in
    let (to_node, b, h₂) = >>=-eq-ok (ok_or _ (get_node spec r.to_id)) _ h₁ in
    let well = check_slot_relation-FeedsWell from_node to_node r in
    (
      record {
        from_node = from_node;
        to_node = to_node;
        has_from = ok_or-eq-ok _ _ _ a;
        has_to = ok_or-eq-ok _ _ _ b;
        slots =
            All-map _ (FeedsWell from_node to_node) (λ s q. (well s q.0 q.1).0) r.slot_relations
              (traverse-All _ r.slot_relations ds h₂);
      },
      traverse-map _ (λ s. s.to_slot) (λ s d q. (well s d q).1) r.slot_relations ds h₂,
    )

-- Where `validate_related_nodes` accepts a draft, the two nodes of every relation exist, so do the
-- two slots of each of its slot relations, which are of one kind, the input slot has no contents of
-- its own, and the result lists the input slots of all relations in order.
pub validate_related_nodes-RelatesWell :
    (spec : WorkflowDraftSpec) (relied : List String)
    → validate_related_nodes spec ≡ ok relied
    → All (RelatesWell spec) spec.node_relations
      × (relied ≡ concat (map to_slots spec.node_relations))
unfolding validate_related_nodes
validate_related_nodes-RelatesWell spec relied h =
    let (dss, all_ok, last) = >>=-eq-ok (traverse (check_relation spec) spec.node_relations) _ h in
    let well = check_relation-RelatesWell spec in
    (
      All-map _ (RelatesWell spec) (λ r q. (well r q.0 q.1).0) spec.node_relations
          (traverse-All _ spec.node_relations dss all_ok),
      sym (ok-injective last)
          ∙ ap concat
              (traverse-map _ to_slots (λ r ds q. (well r ds q).1) spec.node_relations dss all_ok),
    )
