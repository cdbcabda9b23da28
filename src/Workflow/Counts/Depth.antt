-- ===== src/Workflow/Counts/Depth.antt =====
-- How deep `sub_node_count` recurs (src/kernel/src/models/impls/workflow_instance.rs).
use kuintessence.Prelude.{
  ℕ, zero, suc, ◌*◌, ◌%◌, ◌<◌, String, Bool, true, List, [], ◌∷◌, ◌≡◌, ◌≢◌, refl, ap, Result, ok,
  err, panic, ◌>>=◌, unwrap, find, any, all, keep, ltb, ◌==◌, str_eq, arith, Option, none, some,
  Option-cases, inl, inr, find-test, ok-injective, err-injective, subst,
}
use kuintessence.Workflow.Common.{
  Uuid, NodeRelation, BatchStrategyKind, BatchStrategy, NodeInputSlotKind, inputs_count,
  from_batch_outputs,
}
use kuintessence.Workflow.Instance.{
  NodeSpec, WorkflowInstance, WorkflowInstanceSpec, Error, stack_overflow,
}
use kuintessence.Workflow.Slots.{node, node_dependency_relations, input_slot}
use kuintessence.Workflow.Counts.{
  usize_mod, relied_node, strategy_count, fold_counts, sub_node_count,
}

-- Each dependency goes up in rank, so that the dependencies have no cycle.
abbrev pub rises : (Uuid → ℕ) → NodeRelation → Bool
rises rank el = ltb (rank el.from_id) (rank el.to_id)

find-keep-rises :
    (rank : Uuid → ℕ) (p : NodeRelation → Bool) (id : Uuid) (rs : List NodeRelation)
    (el : NodeRelation)
    → all (rises rank) rs ≡ true
    → find p (keep (λ r. r.to_id == id) rs) ≡ some el
    → rank el.from_id < rank id
find-keep-rises rank p id [] el h e = cc
find-keep-rises rank p id (r ∷ rs) el h e = ground (arith, find-keep-rises rank p id rs el)

relied_node-rises :
    (w : WorkflowInstance) (rank : Uuid → ℕ) (id from : Uuid) (d : String)
    → all (rises rank) w.spec.node_relations ≡ true
    → relied_node w id d ≡ ok from
    → rank from < rank id
unfolding relied_node node_dependency_relations
relied_node-rises w rank id from d h e =
    let p = λ (el : NodeRelation). any (λ el2. str_eq el2.to_slot d) el.slot_relations in
    let rs = keep (λ (r : NodeRelation). r.to_id == id) w.spec.node_relations in
    elim (Option-cases (find p rs)) [
      | inl no_el ↦ cc (rw no_el at e)
      | inr (el, found) ↦
          subst (λ k. rank k < rank id) (ok-injective (rw found at e))
            (find-keep-rises rank p id w.spec.node_relations el h found)
    ]

node-id :
    (spec : WorkflowInstanceSpec) (id : Uuid) (ns : NodeSpec) → node spec id ≡ ok ns → ns.id ≡ id
unfolding node
node-id spec id ns e = ground (arith, find-test (λ el. el.id == id) spec.node_specs ns)

-- The two results are the same, and the stack was deep enough.
abbrev Agree : Result Error ℕ → Result Error ℕ → Type 0
Agree r r' = (r ≡ r') × (r ≢ err stack_overflow)

bind-Agree :
    {A : Type 0} (m : Result Error A) (f g : A → Result Error ℕ)
    → m ≢ err stack_overflow
    → ((x : A) → m ≡ ok x → Agree (f x) (g x))
    → Agree (m >>= f) (m >>= g)
bind-Agree (ok x) f g h k = k x refl
bind-Agree (err e) f g h k = (refl, λ p. h (ap err (err-injective p)))
bind-Agree panic f g h k = (refl, λ p. cc)

unwrap-ne : {A : Type 0} (o : Option A) → unwrap o ≢ err stack_overflow
unwrap-ne none = λ e. cc
unwrap-ne (some a) = λ e. cc

inputs_count-ne : (k : NodeInputSlotKind) → inputs_count k ≢ err stack_overflow
unfolding inputs_count
inputs_count-ne (NodeInputSlotKind.text (some c) r) = λ e. cc
inputs_count-ne (NodeInputSlotKind.text none r) = λ e. cc
inputs_count-ne (NodeInputSlotKind.file (some c) n b) = λ e. cc
inputs_count-ne (NodeInputSlotKind.file none n b) = λ e. cc
inputs_count-ne NodeInputSlotKind.unknown = λ e. cc

relied_node-ne :
    (w : WorkflowInstance) (id : Uuid) (d : String) → relied_node w id d ≢ err stack_overflow
unfolding relied_node node_dependency_relations
relied_node-ne w id d =
    let p = λ (el : NodeRelation). any (λ el2. str_eq el2.to_slot d) el.slot_relations in
    let rs = keep (λ (r : NodeRelation). r.to_id == id) w.spec.node_relations in
    elim (Option-cases (find p rs)) [ inl e ↦ rw e (λ q. cc) | inr (el, e) ↦ rw e (λ q. cc) ]

module _ (w : WorkflowInstance) (ns : NodeSpec) (rec rec' : Uuid → Result Error ℕ)
    (agree : (from : Uuid) (d : String)
      → relied_node w ns.id d ≡ ok from
      → Agree (rec from) (rec' from)) where
  strategy_count-kind :
      (b : BatchStrategy) (k : BatchStrategyKind)
      → b.kind ≡ k
      → Agree (strategy_count rec w ns b) (strategy_count rec' w ns b)
  unfolding strategy_count input_slot
  strategy_count-kind b BatchStrategyKind.original_batch e =
      rw (e, strategy_count)
        (bind-Agree (input_slot ns b.input_slot_descriptor) _ _ (unwrap-ne _)
          (λ slot _. (refl, inputs_count-ne slot.kind)))
  strategy_count-kind b (BatchStrategyKind.match_regex t n f) e =
      rw (e, strategy_count) (refl, λ q. cc)
  strategy_count-kind b BatchStrategyKind.from_batch_outputs e =
      rw (e, strategy_count)
        (bind-Agree (relied_node w ns.id b.input_slot_descriptor) rec rec'
          (relied_node-ne w ns.id _) (λ from q. agree from _ q))

  fold_counts-Agree :
      (bs : List BatchStrategy) (acc : ℕ)
      → Agree (fold_counts rec w ns bs acc) (fold_counts rec' w ns bs acc)
  unfolding fold_counts
  fold_counts-Agree [] acc = (refl, λ e. cc)
  fold_counts-Agree (b ∷ bs) acc =
      let (same, deep) = strategy_count-kind b b.kind refl in
      rw (← same) (
        bind-Agree (strategy_count rec w ns b) _ _ deep
          (λ count _. fold_counts-Agree bs ((acc * count) % usize_mod)))

module _ (w : WorkflowInstance) (rank : Uuid → ℕ)
    (acyclic : all (rises rank) w.spec.node_relations ≡ true) where
  sub_node_count-Agree :
      (f g : ℕ) (id : Uuid)
      → rank id < f
      → rank id < g
      → Agree (sub_node_count f w id) (sub_node_count g w id)
  unfolding sub_node_count node
  sub_node_count-Agree zero g id h k = elim h [ ]
  sub_node_count-Agree (suc f) zero id h k = elim k [ ]
  sub_node_count-Agree (suc f) (suc g) id h k =
      bind-Agree (node w.spec id) _ _ (unwrap-ne _) λ ns found.
        fold_counts-Agree w ns (sub_node_count f w) (sub_node_count g w)
          (λ from d q.
            let up : rank from < rank id =
              subst (λ i. rank from < rank i) (node-id w.spec id ns found)
                (relied_node-rises w rank ns.id from d acyclic q) in
            sub_node_count-Agree f g from (omega arith) (omega arith))
          ns.batch_strategies 1

  -- Where the dependencies between the nodes have no cycle, a stack that is deeper than the node's
  -- rank suffices: `sub_node_count` does not overflow it, and a deeper one changes nothing.
  pub sub_node_count-rank :
      (depth : ℕ) (node_id : Uuid)
      → rank node_id < depth
      → (sub_node_count depth w node_id ≡ sub_node_count (suc (rank node_id)) w node_id)
        × (sub_node_count depth w node_id ≢ err stack_overflow)
  sub_node_count-rank depth node_id h =
      sub_node_count-Agree depth (suc (rank node_id)) node_id h (omega arith)

-- A `FromBatchOutputs` strategy that is fed by its own node, and stands first, exhausts every stack.
pub sub_node_count_overflows :
    (w : WorkflowInstance) (ns : NodeSpec) (b : BatchStrategy) (rest : List BatchStrategy)
    → node w.spec ns.id ≡ ok ns
    → ns.batch_strategies ≡ b ∷ rest
    → b.kind ≡ from_batch_outputs
    → relied_node w ns.id b.input_slot_descriptor ≡ ok ns.id
    → (depth : ℕ) → sub_node_count depth w ns.id ≡ err stack_overflow
unfolding sub_node_count fold_counts strategy_count
sub_node_count_overflows w ns b rest found first kind self zero = refl
sub_node_count_overflows w ns b rest found first kind self (suc depth) =
    let deeper = sub_node_count_overflows w ns b rest found first kind self depth in
    rw (found, first) (rw (kind, strategy_count) (rw self (rw deeper)))
