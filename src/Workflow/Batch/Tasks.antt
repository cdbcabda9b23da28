-- ===== src/Workflow/Batch/Tasks.antt =====
-- The sub tasks of a batch node (`sub_nodes` of
-- src/kernel/src/services/workflow_engine/schedule.rs).
use kuintessence.Prelude.{
  ℕ, String, Bool, true, ◌≡◌, refl, sym, ap, ◌∙◌, List, [], ◌∷◌, map, ok, keep, all, zip, length,
  length-map, arith, &&-eq-true,
}
use kuintessence.Workflow.Common.{Input}
use kuintessence.Workflow.Instance.{NodeSpec, NodeInstance}
use kuintessence.Workflow.Store.{World, has_parent, get_node_sub_node_instances}
use kuintessence.Workflow.Slots.Inputs.{accepts, filled_slot}
use kuintessence.Workflow.Slots.SubNodes.{parse_sub_nodes-drawn}
use kuintessence.Workflow.Batch.{Env, sub_nodes}
use kuintessence.Workflow.Batch.Choices.{Slots, choices, counts_product, HasInputs, combine-choices}

zip-first :
    {A B : Type 0} (xs : List A) (ys : List B)
    → length xs ≡ length ys
    → map (λ (t : A × B). t.0) (zip xs ys) ≡ xs
zip-first [] ys h = refl
zip-first (x ∷ xs) [] h = ground arith
zip-first (x ∷ xs) (y ∷ ys) h = ap (◌∷◌ x) (zip-first xs ys (omega (arith, h)))

zip-second :
    {A B C : Type 0} (f : B → C) (xs : List A) (ys : List B)
    → length xs ≡ length ys
    → map (λ (t : A × B). f t.1) (zip xs ys) ≡ map f ys
zip-second f [] [] h = refl
zip-second f [] (y ∷ ys) h = ground arith
zip-second f (x ∷ xs) [] h = ground arith
zip-second f (x ∷ xs) (y ∷ ys) h = ap (◌∷◌ (f y)) (zip-second f xs ys (omega (arith, h)))

all-zip :
    {A B : Type 0} (p : B → Bool) (xs : List A) (ys : List B)
    → all p ys ≡ true
    → all (λ (t : A × B). p t.1) (zip xs ys) ≡ true
all-zip p [] ys h = refl
all-zip p (x ∷ xs) [] h = refl
all-zip p (x ∷ xs) (y ∷ ys) h =
    let (now, later) = &&-eq-true (p y) (all p ys) h in
    let rest = all-zip p xs ys later in rw (now, rest) refl

module _ (env : Env) where
  -- The sub tasks of a batch node that are in the table.
  abbrev pub sub_rows : NodeSpec → World → List NodeInstance
  sub_rows node_spec s = keep (has_parent node_spec.id) s.nodes

  -- Every batch slot has an input, the table has one sub task of the node for each choice of inputs,
  -- and every choice is of the kinds of the node's slots. Then there is one node for each sub task of
  -- the table, with its id, and the i-th node has the slots of the parent filled with the i-th
  -- choice; only ids are drawn.
  pub sub_nodes-choices :
      (node_spec : NodeSpec) (d : String) (is : List Input) (rest : Slots) (s : World)
      → HasInputs ((d, is) ∷ rest)
      → length (sub_rows node_spec s) ≡ counts_product ((d, is) ∷ rest)
      → all (λ c. all (accepts c) node_spec.input_slots) (choices ((d, is) ∷ rest)) ≡ true
      → (subs : List NodeSpec) × (n : ℕ) × (sub_nodes env node_spec ((d, is) ∷ rest) s
          ≡ (ok subs, record s { next = n }))
        × (map (λ sub. sub.id) subs ≡ map (λ row. row.id) (sub_rows node_spec s))
        × (map (λ sub. sub.input_slots) subs
            ≡ map (λ c. map (filled_slot c) node_spec.input_slots) (choices ((d, is) ∷ rest)))
  unfolding sub_nodes get_node_sub_node_instances
  sub_nodes-choices node_spec d is rest s inputs enough kinds =
      let slots : Slots = (d, is) ∷ rest in
      let ids = map (λ (row : NodeInstance). row.id) (sub_rows node_spec s) in
      let (same, count) = combine-choices d is rest inputs in
      let even : length ids ≡ length (choices slots) =
        length-map (λ (row : NodeInstance). row.id) (sub_rows node_spec s)
        ∙ enough
        ∙ sym count
        ∙ ap length same in
      let (subs, n, parsed, names, filled, _) =
        parse_sub_nodes-drawn env.fresh node_spec (zip ids (choices slots)) s.next
          (all-zip (λ c. all (accepts c) node_spec.input_slots) ids (choices slots) kinds) in
      (
        subs,
        n,
        rw (same, parsed) refl,
        names ∙ zip-first ids (choices slots) even,
        filled
            ∙ zip-second (λ c. map (filled_slot c) node_spec.input_slots) ids (choices slots) even,
      )
