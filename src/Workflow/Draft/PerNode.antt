-- ===== src/Workflow/Draft/PerNode.antt =====
-- The checks of `validate_per_node`, one by one (src/kernel/src/models/impls/workflow_draft.rs).
use kuintessence.Prelude.{
  ℕ, ◌+◌, ◌-◌, ◌≤◌, String, Bool, true, false, ◌≡◌, ◌≢◌, ap, ◌∙◌, Option, none, some, List, [], ok,
  ◌&&◌, not, str_eq, find, any, is_empty, ok_or, unwrap, traverse, All, All-map, traverse-All,
  >>=-eq-ok, ok-injective, ==_iff, arith, ltb, leb, ◌⊎◌, inl, inr, Bool-cases,
}
use kuintessence.Workflow.Common.{
  Uuid, NodeRelation, SlotRelation, NodeInputSlot, NodeInputSlotKind, BatchStrategy,
  BatchStrategyKind, SchedulingStrategy, inputs_count,
}
use kuintessence.Workflow.Counts.{usize_mod}
use kuintessence.Workflow.Draft.{
  NodeDraft, WorkflowDraftSpec, WorkflowDraftException, Checked, get_node, node, get_input_slot,
  guard, contains_slot, lacks_contents, check_file, check_files, check_input_slot, has_cluster,
  check_relied, check_kind,
}
use kuintessence.Workflow.Draft.Related.{ok_or-eq-ok, guard-eq-ok}

abbrev pub count : NodeInputSlotKind → Checked ℕ
count = inputs_count

-- Every file of the slot is known to the file metadata repository.
abbrev pub FilesKnown : (Uuid → Bool) → NodeInputSlotKind → Type 0
FilesKnown has_meta (NodeInputSlotKind.file (some files) name batch) =
    All (λ f. has_meta f.file_metadata_id ≡ true) files
FilesKnown has_meta (NodeInputSlotKind.file none name batch) = ⊥
FilesKnown has_meta _ = Unit {0}

-- The slot is relied on, optional, or has contents.
abbrev pub IsOffered : List String → NodeInputSlot → Type 0
IsOffered relied slot =
    (contains_slot relied slot.descriptor ≡ true)
    ⊎ ((slot.optional ≡ true) ⊎ ((c : ℕ) × (count slot.kind ≡ ok c) × (1 ≤ c)))

-- The slot is fed by a node that is a batch node and has a strategy for the feeding slot.
pub record IsFed (spec : WorkflowDraftSpec) (slot : NodeInputSlot) : Type 0 where
  pub relation : NodeRelation
  pub slot_relation : SlotRelation
  pub from_node : NodeDraft
  pub strategies : List BatchStrategy
  pub found :
      find
        (λ el. any (λ el2. str_eq el2.to_slot slot.descriptor) el.slot_relations)
        spec.node_relations
      ≡ some relation
  pub feeds :
      find (λ el. str_eq el.to_slot slot.descriptor) relation.slot_relations ≡ some slot_relation
  pub has_from : get_node spec relation.from_id ≡ some from_node
  pub batched : from_node.batch_strategies ≡ some strategies
  pub some_strategy : is_empty strategies ≡ false
  pub same_slot :
      any (λ el. str_eq el.input_slot_descriptor slot_relation.from_slot) strategies ≡ true

-- What the check of one strategy lets through. For `OriginalBatch` that is a slot with at least
-- 2^64 - 1 inputs.
abbrev pub KindOk : WorkflowDraftSpec → NodeInputSlot → BatchStrategyKind → Type 0
KindOk spec slot (BatchStrategyKind.match_regex regex fill_count filler) = count slot.kind ≡ ok 1
KindOk spec slot BatchStrategyKind.original_batch =
    (c : ℕ) × (count slot.kind ≡ ok c) × (usize_mod ≤ c + 1)
KindOk spec slot BatchStrategyKind.from_batch_outputs = IsFed spec slot

pub record StrategyOk (spec : WorkflowDraftSpec) (d : NodeDraft) (b : BatchStrategy) : Type 0 where
  pub slot : NodeInputSlot
  pub has_slot : get_input_slot d b.input_slot_descriptor ≡ some slot
  pub kind : KindOk spec slot b.kind

abbrev pub StrategiesOk : WorkflowDraftSpec → NodeDraft → Option (List BatchStrategy) → Type 0
StrategiesOk spec d none = Unit {0}
StrategiesOk spec d (some bs) = All (StrategyOk spec d) bs

abbrev pub HasCluster : SchedulingStrategy → Type 0
HasCluster (SchedulingStrategy.manual clusters) = clusters ≢ []
HasCluster (SchedulingStrategy.prefer clusters) = clusters ≢ []
HasCluster SchedulingStrategy.auto = Unit {0}

pub record NodeOk (has_meta : Uuid → Bool) (relied : List String) (spec : WorkflowDraftSpec)
    (d : NodeDraft) : Type 0 where
  pub offered : All (IsOffered relied) d.input_slots
  pub files : All (λ slot. FilesKnown has_meta slot.kind) d.input_slots
  pub clusters : HasCluster d.scheduling_strategy
  pub strategies : StrategiesOk spec d d.batch_strategies

pub unwrap-eq-ok :
    {A : Type 0} (o : Option A) (a : A) → unwrap {E = WorkflowDraftException} o ≡ ok a → o ≡ some a
unwrap-eq-ok none a h = cc
unwrap-eq-ok (some b) a h = ap some (ok-injective h)

module _ (has_meta : Uuid → Bool) (relied : List String) (spec : WorkflowDraftSpec) where
  lacks_contents-IsOffered :
      (slot : NodeInputSlot)
      → lacks_contents has_meta relied spec slot ≡ ok false
      → IsOffered relied slot
  unfolding lacks_contents
  lacks_contents-IsOffered slot h = elim (Bool-cases (contains_slot relied slot.descriptor)) [
    | inl e ↦ inl e
    | inr e ↦
        let (c, counted, q) = >>=-eq-ok (count slot.kind) _ (rw e at h) in
        let p : (ltb c 1 && not slot.optional) ≡ false = ok-injective q in
        elim (Bool-cases slot.optional) [
          | inl o ↦ inr (inl o)
          | inr o ↦ inr (inr (c, counted, ground arith))
        ]
  ]

  check_files-FilesKnown :
      (d : NodeDraft) (slot : NodeInputSlot) (k : NodeInputSlotKind) (a : Unit {0})
      → check_files has_meta relied spec d slot k ≡ ok a
      → FilesKnown has_meta k
  unfolding check_files check_file
  check_files-FilesKnown d slot (NodeInputSlotKind.file (some files) name batch) a h =
      let (ys, q, _) = >>=-eq-ok (traverse (check_file has_meta relied spec d slot) files) _ h in
      All-map _ (λ f. has_meta f.file_metadata_id ≡ true) (λ f r. guard-eq-ok _ _ r.0 r.1) files
        (traverse-All _ files ys q)
  check_files-FilesKnown d slot (NodeInputSlotKind.file none name batch) a h = cc
  check_files-FilesKnown d slot (NodeInputSlotKind.text contents rule) a h = tt
  check_files-FilesKnown d slot NodeInputSlotKind.unknown a h = tt

  pub check_input_slot-ok :
      (d : NodeDraft) (slot : NodeInputSlot) (a : Unit {0})
      → check_input_slot has_meta relied spec d slot ≡ ok a
      → IsOffered relied slot × FilesKnown has_meta slot.kind
  unfolding check_input_slot
  check_input_slot-ok d slot a h =
      let (lacks, p, h₁) = >>=-eq-ok (lacks_contents has_meta relied spec slot) _ h in
      let (u, q, h₂) = >>=-eq-ok (guard (not lacks) _) _ h₁ in
      let has : lacks ≡ false = ground (arith, guard-eq-ok (not lacks) _ u q) in
      (lacks_contents-IsOffered slot (p ∙ ap ok has), check_files-FilesKnown d slot slot.kind a h₂)

  pub has_cluster-HasCluster :
      (k : SchedulingStrategy) → has_cluster has_meta relied spec k ≡ true → HasCluster k
  unfolding has_cluster
  has_cluster-HasCluster (SchedulingStrategy.manual clusters) h = ground arith
  has_cluster-HasCluster (SchedulingStrategy.prefer clusters) h = ground arith
  has_cluster-HasCluster SchedulingStrategy.auto h = tt

  pub check_kind-KindOk :
      (d : NodeDraft) (slot : NodeInputSlot) (k : BatchStrategyKind) (a : Unit {0})
      → check_kind has_meta relied spec d slot k ≡ ok a
      → KindOk spec slot k
  unfolding check_kind check_relied node
  check_kind-KindOk d slot (BatchStrategyKind.match_regex regex n filler) a h =
      let (c, p, q) = >>=-eq-ok (count slot.kind) _ h in
      p ∙ ap ok ((==_iff c 1).0 (guard-eq-ok _ _ a q))
  check_kind-KindOk d slot BatchStrategyKind.original_batch a h =
      let (c, p, q) = >>=-eq-ok (count slot.kind) _ h in
      let high : not (leb 1 (usize_mod - 1 - c)) ≡ true = guard-eq-ok _ _ a q in
      (c, p, ground arith)
  check_kind-KindOk d slot BatchStrategyKind.from_batch_outputs a h =
      let (r, found, h₁) =
        >>=-eq-ok
          (ok_or _ (
            find (λ el. any (λ el2. str_eq el2.to_slot slot.descriptor) el.slot_relations)
              spec.node_relations))
          _ h in
      let (s, feeds, h₂) =
        >>=-eq-ok (unwrap (find (λ el. str_eq el.to_slot slot.descriptor) r.slot_relations)) _ h₁ in
      let (from_node, has_from, h₃) = >>=-eq-ok (unwrap (get_node spec r.from_id)) _ h₂ in
      let (strategies, batched, h₄) = >>=-eq-ok (ok_or _ from_node.batch_strategies) _ h₃ in
      let (u, filled, h₅) = >>=-eq-ok (guard (not (is_empty strategies)) _) _ h₄ in
      let some_strategy : is_empty strategies ≡ false =
        ground (arith, guard-eq-ok (not (is_empty strategies)) _ u filled) in
      record {
        relation = r;
        slot_relation = s;
        from_node = from_node;
        strategies = strategies;
        found = ok_or-eq-ok _ _ _ found;
        feeds = unwrap-eq-ok _ _ feeds;
        has_from = unwrap-eq-ok _ _ has_from;
        batched = ok_or-eq-ok _ _ _ batched;
        some_strategy = some_strategy;
        same_slot = guard-eq-ok _ _ a h₅;
      }
