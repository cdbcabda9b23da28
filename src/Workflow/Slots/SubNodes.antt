-- ===== src/Workflow/Slots/SubNodes.antt =====
-- What `parse_sub_nodes` returns (src/kernel/src/models/impls/workflow_instance.rs).
use kuintessence.Prelude.{
  ℕ, zero, suc, ◌+◌, ◌*◌, String, true, ◌≡◌, refl, List, [], ◌∷◌, ◌++◌, ok, map, arith, all, length,
  flat_map, ◌∙◌, sym, ap, ap₂, &&-eq-true,
}
use kuintessence.Workflow.Common.{Uuid, Input}
use kuintessence.Workflow.Instance.{NodeSpec, NodeSpecOutputSlotKind, NodeSpecOutputSlot}
use kuintessence.Workflow.Slots.{
  prepare, update_outputs, update_output_slots, parse_tasks, parse_sub_nodes,
}
use kuintessence.Workflow.Slots.Inputs.{accepts, filled_slot, update_with_inputs-accepts}

abbrev pub prepared : NodeSpecOutputSlotKind → List Uuid
prepared (NodeSpecOutputSlotKind.file origin is_batch ids) = ids
prepared (NodeSpecOutputSlotKind.text keys) = keys

-- The ids that stand in a node's output slots, slot by slot.
abbrev pub prepared_ids : NodeSpec → List Uuid
prepared_ids spec = flat_map (λ el. prepared el.kind) spec.output_slots

abbrev Task : Type 0
Task = Uuid × List (String × Input)

module _ (fresh : ℕ → Uuid) where
  -- The ids that `k` calls of `Uuid::new_v4` return from the n-th on.
  abbrev pub drawn : ℕ → ℕ → List Uuid
  drawn n zero = []
  drawn n (suc k) = fresh n ∷ drawn (suc n) k

  pub drawn-add : (n j k : ℕ) → drawn n (j + k) ≡ drawn n j ++ drawn (n + j) k
  drawn-add n zero k = ap₂ drawn (omega arith) (omega arith)
  drawn-add n (suc j) k =
      let e : suc j + k ≡ suc (j + k) = omega arith in
      let f : suc n + j ≡ n + suc j = omega arith in
      ap (drawn n) e
      ∙ ap (◌∷◌ (fresh n)) (drawn-add (suc n) j k ∙ ap (λ m. drawn (suc n) j ++ drawn m k) f)

  prepared-prepare :
      (k : NodeSpecOutputSlotKind) (n : ℕ) → prepared (prepare fresh k n) ≡ fresh n ∷ []
  unfolding prepare
  prepared-prepare (NodeSpecOutputSlotKind.file origin is_batch ids) n = refl
  prepared-prepare (NodeSpecOutputSlotKind.text keys) n = refl

  update_outputs-drawn :
      (els : List NodeSpecOutputSlot) (n : ℕ)
      → ((update_outputs fresh els n).1 ≡ n + length els)
        × (flat_map (λ el. prepared el.kind) (update_outputs fresh els n).0 ≡ drawn n (length els))
        × (length (update_outputs fresh els n).0 ≡ length els)
  unfolding update_outputs
  update_outputs-drawn [] n = (omega arith, refl, refl)
  update_outputs-drawn (el ∷ els) n =
      let (a, b, c) = update_outputs-drawn els (suc n) in
      (omega arith, rw (prepared-prepare el.kind n) (ap (◌∷◌ (fresh n)) b), ap suc c)

  module _ (spec : NodeSpec) where
    Parsed : List Task → ℕ → Type 0
    Parsed tasks n =
        (subs : List NodeSpec) × (n' : ℕ) × (parse_tasks fresh spec tasks n ≡ ok (subs, n'))
        × (map (λ sub. sub.id) subs ≡ map (λ t. t.0) tasks)
        × (map (λ sub. sub.input_slots) subs
            ≡ map (λ t. map (filled_slot t.1) spec.input_slots) tasks)
        × (flat_map prepared_ids subs ≡ drawn n (length tasks * length spec.output_slots))

    parse_tasks-Parsed :
        (tasks : List Task) (n : ℕ)
        → all (λ t. all (accepts t.1) spec.input_slots) tasks ≡ true
        → Parsed tasks n
    unfolding Parsed parse_tasks update_output_slots
    parse_tasks-Parsed [] n h =
        let nothing : zero ≡ 0 * length spec.output_slots = omega arith in
        ([], n, refl, refl, refl, ap (drawn n) nothing)
    parse_tasks-Parsed ((id, inputs) ∷ tasks) n h =
        let (now, later) = &&-eq-true (all (accepts inputs) spec.input_slots) _ h in
        let filled : NodeSpec = record spec {
          id = id;
          input_slots = map (filled_slot inputs) spec.input_slots;
        } in
        let (next, ids, _) = update_outputs-drawn spec.output_slots n in
        let u = update_outputs fresh spec.output_slots n in
        let each = length spec.output_slots in
        let total : each + length tasks * each ≡ suc (length tasks) * each = omega arith in
        let (subs, m, p, q, r, t) = parse_tasks-Parsed tasks u.1 later in
        (
          record filled { output_slots = u.0 } ∷ subs,
          m,
          rw (update_with_inputs-accepts inputs (record spec { id = id }) now, p),
          ap (◌∷◌ id) q,
          ap (◌∷◌ filled.input_slots) r,
          ap₂ ◌++◌ ids (t ∙ ap (λ k. drawn k (length tasks * length spec.output_slots)) next)
              ∙ sym (drawn-add n each (length tasks * each))
              ∙ ap (drawn n) total,
        )

    -- Where every input is of the kind of each slot that it names, `parse_sub_nodes` returns one
    -- node for each task: the ids are the tasks' ids in order, each node has the input slots of the
    -- parent filled with its own task's inputs, and the ids in the output slots of all nodes are
    -- drawn one after the other, one for each output slot of each node.
    pub parse_sub_nodes-drawn :
        (tasks_inputs : List (Uuid × List (String × Input))) (n : ℕ)
        → all (λ t. all (accepts t.1) spec.input_slots) tasks_inputs ≡ true
        → (subs : List NodeSpec) × (n' : ℕ) × (parse_sub_nodes fresh spec tasks_inputs n
            ≡ ok (subs, n'))
          × (map (λ sub. sub.id) subs ≡ map (λ t. t.0) tasks_inputs)
          × (map (λ sub. sub.input_slots) subs
              ≡ map (λ t. map (filled_slot t.1) spec.input_slots) tasks_inputs)
          × (flat_map prepared_ids subs ≡ drawn n (length tasks_inputs * length spec.output_slots))
    unfolding Parsed parse_sub_nodes
    parse_sub_nodes-drawn tasks_inputs n h = parse_tasks-Parsed tasks_inputs n h
