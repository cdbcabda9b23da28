-- ===== src/Workflow/Convert/Copies.antt =====
-- The nodes of a converted draft, output slots included (src/kernel/src/models/impls/node_instance.rs).
use kuintessence.Prelude.{ℕ, suc, ◌+◌, length, false, true, ◌≡◌, refl, subst, List, [], ◌∷◌, arith}
use kuintessence.Workflow.Common.{Uuid}
use kuintessence.Workflow.Instance.{NodeSpec, NodeSpecOutputSlot, NodeSpecOutputSlotKind}
use kuintessence.Workflow.Draft.{NodeDraft, NodeDraftOutputSlot, NodeDraftOutputSlotKind}
use kuintessence.Workflow.Convert.{
  strategies_from, output_kind_from, output_slot_from, output_slots_from, node_spec_from,
  node_specs_from,
}

-- One content is prepared for the output, under the id.
abbrev pub IsPrepared : Uuid → NodeDraftOutputSlotKind → NodeSpecOutputSlotKind → Type 0
IsPrepared id (NodeDraftOutputSlotKind.file origin is_batch) k =
    (k ≡ NodeSpecOutputSlotKind.file origin is_batch (id ∷ []))
IsPrepared id NodeDraftOutputSlotKind.text k = (k ≡ NodeSpecOutputSlotKind.text (id ∷ []))

-- An output slot that has all that the draft of the slot says, and its content prepared.
pub record IsOutput (id : Uuid) (l : NodeDraftOutputSlot) (o : NodeSpecOutputSlot) : Type 0 where
  pub prepared : IsPrepared id l.kind o.kind
  pub descriptor : o.descriptor ≡ l.descriptor
  pub description : o.description ≡ l.description
  pub optional : o.optional ≡ l.optional

-- The ids are those of the draws from `n` on.
abbrev pub AreOutputs : (ℕ → Uuid) → ℕ → List NodeDraftOutputSlot → List NodeSpecOutputSlot → Type 0
AreOutputs fresh n [] [] = Unit {0}
AreOutputs fresh n (l ∷ ls) (o ∷ os) = IsOutput (fresh n) l o × AreOutputs fresh (suc n) ls os
AreOutputs fresh n _ _ = (true ≡ false)

-- A node spec that has all that the draft of the node says, under the id of the `n`-th draw.
pub record IsCopy (fresh : ℕ → Uuid) (n : ℕ) (d : NodeDraft) (s : NodeSpec) : Type 0 where
  pub new_id : s.id ≡ fresh n
  pub output_slots : AreOutputs fresh (suc n) d.output_slots s.output_slots
  pub kind : s.kind ≡ d.kind
  pub name : s.name ≡ d.name
  pub description : s.description ≡ d.description
  pub scheduling_strategy : s.scheduling_strategy ≡ d.scheduling_strategy
  pub additional_datas : s.additional_datas ≡ d.additional_datas
  pub input_slots : s.input_slots ≡ d.input_slots
  pub batch_strategies : s.batch_strategies ≡ strategies_from d.batch_strategies
  pub requirements : s.requirements ≡ d.requirements

-- Each node takes one draw for itself and one for each of its outputs.
abbrev pub AreCopies : (ℕ → Uuid) → ℕ → List NodeDraft → List NodeSpec → Type 0
AreCopies fresh n [] [] = Unit {0}
AreCopies fresh n (d ∷ ds) (s ∷ ss) =
    IsCopy fresh n d s × AreCopies fresh (suc n + length d.output_slots) ds ss
AreCopies fresh n _ _ = (true ≡ false)

module _ (fresh : ℕ → Uuid) where
  output_kind_from-IsPrepared :
      (k : NodeDraftOutputSlotKind) (n : ℕ) → IsPrepared (fresh n) k (output_kind_from fresh k n)
  unfolding output_kind_from
  output_kind_from-IsPrepared (NodeDraftOutputSlotKind.file origin is_batch) n = refl
  output_kind_from-IsPrepared NodeDraftOutputSlotKind.text n = refl

  output_slots_from-AreOutputs :
      (ls : List NodeDraftOutputSlot) (n : ℕ)
      → AreOutputs fresh n ls (output_slots_from fresh ls n).0
  unfolding output_slots_from output_slot_from
  output_slots_from-AreOutputs [] n = tt
  output_slots_from-AreOutputs (l ∷ ls) n = (
    record {
      prepared = output_kind_from-IsPrepared l.kind n;
      descriptor = refl;
      description = refl;
      optional = refl;
    },
    output_slots_from-AreOutputs ls (suc n),
  )

  output_slots_from-draws :
      (ls : List NodeDraftOutputSlot) (n : ℕ) → (output_slots_from fresh ls n).1 ≡ n + length ls
  unfolding output_slots_from
  output_slots_from-draws [] n = omega arith
  output_slots_from-draws (l ∷ ls) n = omega (arith, output_slots_from-draws ls (suc n))

  pub node_specs_from-AreCopies :
      (ds : List NodeDraft) (n : ℕ) → AreCopies fresh n ds (node_specs_from fresh ds n).0
  unfolding node_specs_from node_spec_from
  node_specs_from-AreCopies [] n = tt
  node_specs_from-AreCopies (d ∷ ds) n =
      let n' = (output_slots_from fresh d.output_slots (suc n)).1 in
      (
        record {
          new_id = refl;
          output_slots = output_slots_from-AreOutputs d.output_slots (suc n);
          kind = refl;
          name = refl;
          description = refl;
          scheduling_strategy = refl;
          additional_datas = refl;
          input_slots = refl;
          batch_strategies = refl;
          requirements = refl;
        },
        subst (λ k. AreCopies fresh k ds (node_specs_from fresh ds n').0)
            (output_slots_from-draws d.output_slots (suc n)) (node_specs_from-AreCopies ds n'),
      )
