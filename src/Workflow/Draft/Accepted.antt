-- ===== src/Workflow/Draft/Accepted.antt =====
-- The drafts that `validate_per_node` accepts (src/kernel/src/models/impls/workflow_draft.rs).
use kuintessence.Prelude.{
  ℕ, ◌+◌, ◌<◌, String, Bool, ◌≡◌, ◌≢◌, sym, ap, subst, ◌∙◌, Option, none, some, List, [], ◌∷◌, ◌++◌,
  ok, traverse, All, All-map, traverse-All, >>=-eq-ok, ok-injective, arith,
}
use kuintessence.Workflow.Common.{Uuid, NodeInputSlot, BatchStrategy, original_batch}
use kuintessence.Workflow.Counts.{usize_mod}
use kuintessence.Workflow.Draft.{
  NodeDraft, WorkflowDraftSpec, get_input_slot, input_slot, guard, check_input_slot, has_cluster,
  check_strategy, check_strategies, check_node, validate_per_node,
}
use kuintessence.Workflow.Draft.Related.{guard-eq-ok}
use kuintessence.Workflow.Draft.PerNode.{
  count, FilesKnown, IsOffered, StrategyOk, StrategiesOk, NodeOk, KindOk, unwrap-eq-ok,
  check_input_slot-ok, has_cluster-HasCluster, check_kind-KindOk,
}

-- A strategy at which the check of `OriginalBatch` stops: its slot has fewer than 2^64 - 1 inputs.
abbrev pub IsOriginal : NodeDraft → BatchStrategy → Type 0
IsOriginal d b =
    (b.kind ≡ original_batch)
    × ((slot : NodeInputSlot) × (c : ℕ) × (get_input_slot d b.input_slot_descriptor ≡ some slot)
        × (count slot.kind ≡ ok c)
        × (c + 1 < usize_mod))

module _ (has_meta : Uuid → Bool) (relied : List String) (spec : WorkflowDraftSpec) where
  check_strategy-StrategyOk :
      (d : NodeDraft) (b : BatchStrategy) (a : Unit {0})
      → check_strategy has_meta relied spec d b ≡ ok a
      → StrategyOk spec d b
  unfolding check_strategy input_slot
  check_strategy-StrategyOk d b a h =
      let (slot, p, q) = >>=-eq-ok (input_slot d b.input_slot_descriptor) _ h in
      record {
        slot = slot;
        has_slot = unwrap-eq-ok _ _ p;
        kind = check_kind-KindOk has_meta relied spec d slot b.kind a q;
      }

  check_strategies-StrategiesOk :
      (d : NodeDraft) (bs : Option (List BatchStrategy)) (a : Unit {0})
      → check_strategies has_meta relied spec d bs ≡ ok a
      → StrategiesOk spec d bs
  unfolding check_strategies
  check_strategies-StrategiesOk d none a h = tt
  check_strategies-StrategiesOk d (some bs) a h =
      let (ys, p, _) = >>=-eq-ok (traverse (check_strategy has_meta relied spec d) bs) _ h in
      All-map _ (StrategyOk spec d) (λ b q. check_strategy-StrategyOk d b q.0 q.1) bs
        (traverse-All _ bs ys p)

  check_node-NodeOk :
      (d : NodeDraft) (a : Unit {0})
      → check_node has_meta relied spec d ≡ ok a
      → NodeOk has_meta relied spec d
  unfolding check_node
  check_node-NodeOk d a h =
      let (ys, p, h₁) =
        >>=-eq-ok (traverse (check_input_slot has_meta relied spec d) d.input_slots) _ h in
      let (u, q, h₂) =
        >>=-eq-ok (guard (has_cluster has_meta relied spec d.scheduling_strategy) _) _ h₁ in
      let slots = traverse-All (check_input_slot has_meta relied spec d) d.input_slots ys p in
      let good = λ (slot : NodeInputSlot). check_input_slot-ok has_meta relied spec d slot in
      record {
        offered =
            All-map _ (IsOffered relied) (λ slot r. (good slot r.0 r.1).0) d.input_slots slots;
        files =
            All-map _ (λ slot. FilesKnown has_meta slot.kind) (λ slot r. (good slot r.0 r.1).1)
              d.input_slots slots;
        clusters =
            has_cluster-HasCluster has_meta relied spec d.scheduling_strategy (guard-eq-ok _ _ u q);
        strategies = check_strategies-StrategiesOk d d.batch_strategies a h₂;
      }

  -- Where `validate_per_node` accepts a draft, every input slot of every node is relied on,
  -- optional or has contents, its files are all known, `Manual` and `Prefer` name a cluster, the
  -- slot of a `MatchRegex` strategy has exactly one input, and that of a `FromBatchOutputs`
  -- strategy is fed by a node with a batch strategy for the feeding slot.
  pub validate_per_node-NodeOk :
      validate_per_node has_meta relied spec ≡ ok tt
      → All (NodeOk has_meta relied spec) spec.node_drafts
  unfolding validate_per_node
  validate_per_node-NodeOk h =
      let (ys, p, _) =
        >>=-eq-ok (traverse (check_node has_meta relied spec) spec.node_drafts) _ h in
      All-map _ (NodeOk has_meta relied spec) (λ d q. check_node-NodeOk d q.0 q.1) spec.node_drafts
        (traverse-All _ spec.node_drafts ys p)

  IsOriginal-refused : (d : NodeDraft) (b : BatchStrategy) → IsOriginal d b → ¬ StrategyOk spec d b
  IsOriginal-refused d b (original, (slot, c, has_slot, counted, low)) v =
      let same : v.slot ≡ slot = cc (sym v.has_slot ∙ has_slot) in
      let k : KindOk spec v.slot original_batch = subst (KindOk spec v.slot) original v.kind in
      let equal : k.0 ≡ c = ok-injective (sym k.1 ∙ ap (λ s. count s.kind) same ∙ counted) in
      absurd (omega arith)

  All-middle :
      {A : Type 0} (P : A → Type 0) (before : List A) (x : A) (after : List A)
      → All P (before ++ x ∷ after)
      → P x
  All-middle P [] x after h = h.0
  All-middle P (y ∷ before) x after h = All-middle P before x after h.1

  -- No draft with an `OriginalBatch` strategy passes: whatever else the draft holds, and however
  -- many inputs the slot has (a vector of 2^64 - 1 does not exist), it is not accepted.
  pub validate_per_node-IsOriginal :
      (before : List NodeDraft) (d : NodeDraft) (after : List NodeDraft)
      (before_b : List BatchStrategy) (b : BatchStrategy) (after_b : List BatchStrategy)
      → spec.node_drafts ≡ before ++ d ∷ after
      → d.batch_strategies ≡ some (before_b ++ b ∷ after_b)
      → IsOriginal d b
      → validate_per_node has_meta relied spec ≢ ok tt
  validate_per_node-IsOriginal before d after before_b b after_b nodes strategies original h =
      let all_nodes =
        subst (All (NodeOk has_meta relied spec)) nodes (validate_per_node-NodeOk h) in
      let v = All-middle (NodeOk has_meta relied spec) before d after all_nodes in
      let bs = subst (StrategiesOk spec d) strategies v.strategies in
      IsOriginal-refused d b original (All-middle (StrategyOk spec d) before_b b after_b bs)
