-- ===== src/Workflow/Nodes/Rows.antt =====
-- The rows that `parse_node_instances` returns (src/kernel/src/models/impls/workflow_instance.rs).
use kuintessence.Prelude.{
  ℕ, zero, suc, ◌+◌, Bool, true, ◌≡◌, refl, ap, ap₂, sym, ◌∙◌, List, [], ◌∷◌, ◌++◌, Result, ok,
  ◌>>=◌, not, is_empty, map, keep, is_some, arith, if◌then◌else◌, Bool-cases, inl, inr, All,
  All-append, >>=-eq-ok, ok-injective,
}
use kuintessence.Workflow.Common.{Uuid}
use kuintessence.Workflow.Instance.{
  NodeSpec, WorkflowInstance, NodeInstance, NodeInstanceStatus, Error,
}
use kuintessence.Workflow.Counts.{sub_node_count}
use kuintessence.Workflow.Nodes.{
  root_instance, sub_instances, node_rows, spec_rows, parse_node_instances,
}
use kuintessence.Workflow.Slots.SubNodes.{drawn, drawn-add}

-- Rows of nodes that the workflow names, and rows of sub tasks.
abbrev pub is_root : NodeInstance → Bool
is_root row = not (is_some row.batch_parent_id)

abbrev pub is_sub_task : NodeInstance → Bool
is_sub_task row = is_some row.batch_parent_id

abbrev pub ids : List NodeInstance → List Uuid
ids = map (λ row. row.id)

-- The row of a node of the workflow `w` as it is created.
pub record IsNew (w : WorkflowInstance) (row : NodeInstance) : Type 0 where
  pub flow : row.flow_instance_id ≡ w.id
  pub status : row.status ≡ NodeInstanceStatus.created

keep-append :
    (p : NodeInstance → Bool) (xs ys : List NodeInstance)
    → ids (keep p (xs ++ ys)) ≡ ids (keep p xs) ++ ids (keep p ys)
keep-append p [] ys = refl
keep-append p (x ∷ xs) ys = ground (arith, keep-append p xs ys)

module _ (fresh : ℕ → Uuid) where
  sub_instances-rows :
      (w : WorkflowInstance) (root : NodeInstance) (left i n : ℕ)
      → IsNew w root
      → (ids (keep is_root (sub_instances fresh root left i n)) ≡ [])
        × (ids (keep is_sub_task (sub_instances fresh root left i n)) ≡ drawn fresh n left)
        × All (IsNew w) (sub_instances fresh root left i n)
  unfolding sub_instances
  sub_instances-rows w root zero i n v = (refl, refl, tt)
  sub_instances-rows w root (suc left) i n v =
      let (a, b, c) = sub_instances-rows w root left (suc i) (suc n) v in
      (a, ap (◌∷◌ (fresh n)) b, (record { flow = v.flow; status = v.status }, c))

-- The number of sub tasks of a node, and of all nodes of a list.
abbrev pub sub_tasks : ℕ → WorkflowInstance → NodeSpec → Result Error ℕ
sub_tasks depth w s = if is_empty s.batch_strategies then ok 0 else sub_node_count depth w s.id

abbrev pub all_sub_tasks : ℕ → WorkflowInstance → List NodeSpec → Result Error ℕ
all_sub_tasks depth w [] = ok 0
all_sub_tasks depth w (s ∷ rest) =
    sub_tasks depth w s >>= λ c. all_sub_tasks depth w rest >>= λ d. ok (c + d)

-- What the rows of some nodes hold, where the ids from the n-th on go to the sub tasks.
pub record Holds (fresh : ℕ → Uuid) (depth : ℕ) (w : WorkflowInstance) (specs : List NodeSpec)
    (rows : List NodeInstance) (n n' : ℕ) : Type 0 where
  pub drawn_count : ℕ
  pub counted : all_sub_tasks depth w specs ≡ ok drawn_count
  pub next : n' ≡ n + drawn_count
  pub roots : ids (keep is_root rows) ≡ map (λ s. s.id) specs
  pub subs : ids (keep is_sub_task rows) ≡ drawn fresh n drawn_count
  pub new : All (IsNew w) rows

module _ (fresh : ℕ → Uuid) (depth : ℕ) (w : WorkflowInstance) where
  node_rows-Holds :
      (s : NodeSpec) (n : ℕ) (r : List NodeInstance × ℕ)
      → node_rows fresh depth w s n ≡ ok r
      → (c : ℕ) × (sub_tasks depth w s ≡ ok c)
        × (r.1 ≡ n + c)
        × (ids (keep is_root r.0) ≡ s.id ∷ [])
        × (ids (keep is_sub_task r.0) ≡ drawn fresh n c)
        × All (IsNew w) r.0
  unfolding node_rows root_instance
  node_rows-Holds s n r e = elim (Bool-cases (is_empty s.batch_strategies)) [
    | inl plain ↦
        rw (← ok-injective (rw plain at e))
          (0, rw plain, omega arith, refl, refl, (record { flow = refl; status = refl }, tt))
    | inr batch ↦
        let (c, counted, q) = >>=-eq-ok (sub_node_count depth w s.id) _ (rw batch at e) in
        let root : NodeInstance = record (root_instance w s) { is_parent = true } in
        let v : IsNew w root = record { flow = refl; status = refl } in
        let (a, b, rest) = sub_instances-rows fresh w root c 0 n v in
        rw (← ok-injective q) (c, rw batch counted, refl, ap (◌∷◌ s.id) a, b, (v, rest))
  ]

  spec_rows-Holds :
      (specs : List NodeSpec) (n : ℕ) (r : List NodeInstance × ℕ)
      → spec_rows fresh depth w specs n ≡ ok r
      → Holds fresh depth w specs r.0 n r.1
  unfolding spec_rows
  spec_rows-Holds [] n r e = rw (← ok-injective e) (record {
    drawn_count = 0;
    counted = refl;
    next = omega arith;
    roots = refl;
    subs = refl;
    new = tt;
  })
  spec_rows-Holds (s ∷ rest) n r e =
      let (a, first, more) = >>=-eq-ok (node_rows fresh depth w s n) _ e in
      let (b, second, last) = >>=-eq-ok (spec_rows fresh depth w rest a.1) _ more in
      let (c, counted, next, root, subs, new) = node_rows-Holds s n a first in
      let tail = spec_rows-Holds rest a.1 b second in
      rw (← ok-injective last) (record {
        drawn_count = c + tail.drawn_count;
        counted = rw (counted, tail.counted);
        next = omega (arith, tail.next);
        roots = keep-append is_root a.0 b.0 ∙ ap₂ ◌++◌ root tail.roots;
        subs =
            keep-append is_sub_task a.0 b.0
            ∙ ap₂ ◌++◌ subs (tail.subs ∙ ap (λ k. drawn fresh k tail.drawn_count) next)
            ∙ sym (drawn-add fresh n c tail.drawn_count);
        new = All-append (IsNew w) a.0 b.0 new tail.new;
      })

  -- Where `parse_node_instances` succeeds, the rows that are no sub tasks are those of the
  -- workflow's nodes, in order; the sub tasks are as many as `sub_node_count` says for all batch
  -- nodes together, and their ids are drawn one after the other; every row belongs to the workflow
  -- and is `Created`.
  pub parse_node_instances-Holds :
      (n : ℕ) (rows : List NodeInstance) (n' : ℕ)
      → parse_node_instances fresh depth w n ≡ ok (rows, n')
      → Holds fresh depth w w.spec.node_specs rows n n'
  unfolding parse_node_instances
  parse_node_instances-Holds n rows n' e = spec_rows-Holds w.spec.node_specs n (rows, n') e
