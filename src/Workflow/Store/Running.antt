-- ===== src/Workflow/Store/Running.antt =====
-- Rows that are set to running one after the other, each from the table as it was at first
-- (src/co/src/infrastructure/repositories/sea_orm_db_repository).
use mathlib.Core.List.{append-nil}
use kuintessence.Prelude.{
  Bool, true, false, ◌≡◌, refl, sym, ap, ap₂, ◌∙◌, some, List, [], ◌∷◌, map, ok, ◌==◌, ◌||◌, not,
  find, contains, is_empty, if◌then◌else◌, All, arith, Bool-cases, inl, inr,
}
use kuintessence.Workflow.Common.{Uuid}
use kuintessence.Workflow.Instance.{NodeInstance, NodeInstanceStatus}
use kuintessence.Workflow.Store.{World, update_node, save_changed, finish, execute_all, set_node}
use kuintessence.Workflow.Store.Update.{has_id, IsKeyed, set_nodes, execute_all-update_node}

abbrev pub run : NodeInstance → NodeInstance
run n = record n { status = NodeInstanceStatus.running }

-- The rows with the ids are set to running, the others stay.
abbrev pub run_if : (Uuid → Bool) → NodeInstance → NodeInstance
run_if p n = if p n.id then run n else n

pub run_if-id : (p : Uuid → Bool) (n : NodeInstance) → (run_if p n).id ≡ n.id
run_if-id p n = elim (Bool-cases (p n.id)) [ inl e ↦ rw e refl | inr e ↦ rw e refl ]

set_node-absent :
    (p : Uuid → Bool) (e : NodeInstance) (ns : List NodeInstance)
    → has_id e.id ns ≡ false
    → set_node e (map (run_if p) ns) ≡ map (run_if (λ k. p k || e.id == k)) ns
unfolding set_node
set_node-absent p e [] h = refl
set_node-absent p e (n ∷ ns) h =
    let other : (n.id == e.id) ≡ false = ground arith in
    let turned : (e.id == n.id) ≡ false = ground arith in
    let rest = set_node-absent p e ns (ground arith) in
    let same : (p n.id || false) ≡ p n.id = ground arith in
    simp (run_if-id p n, other, turned, same, rest) refl

-- One more row.
set_node-run :
    (p : Uuid → Bool) (n : NodeInstance) (ns : List NodeInstance)
    → IsKeyed ns
    → find (λ m. m.id == n.id) ns ≡ some n
    → set_node (run n) (map (run_if p) ns) ≡ map (run_if (λ k. p k || n.id == k)) ns
unfolding set_node
set_node-run p n [] keyed found = ground arith
set_node-run p n (m ∷ ms) keyed found = elim (Bool-cases (m.id == n.id)) [
  | inl e ↦
      let first : m ≡ n = ground (arith) in
      let gone : has_id n.id ms ≡ false = rw⁻¹ first keyed.0 in
      let yes : (p m.id || true) ≡ true = ground arith in
      let turned : (n.id == m.id) ≡ true = ground arith in
      simp (run_if-id p m, e, turned, yes)
        (ap₂ ◌∷◌ (ap run (sym first)) (set_node-absent p (run n) ms gone))
  | inr e ↦
      let rest = set_node-run p n ms keyed.1 (ground arith) in
      let same : (p m.id || false) ≡ p m.id = ground arith in
      let turned : (n.id == m.id) ≡ false = ground arith in
      simp (run_if-id p m, e, turned, same, rest) refl
]

run_if-cong :
    (p q : Uuid → Bool) (h : (k : Uuid) → p k ≡ q k) (ns : List NodeInstance)
    → map (run_if p) ns ≡ map (run_if q) ns
run_if-cong p q h [] = refl
run_if-cong p q h (n ∷ ns) = ap₂ ◌∷◌ (rw (h n.id) refl) (run_if-cong p q h ns)

run_if-nothing : (ns : List NodeInstance) → map (run_if (λ k. false)) ns ≡ ns
run_if-nothing [] = refl
run_if-nothing (n ∷ ns) = ap (◌∷◌ n) (run_if-nothing ns)

abbrev pub ids_of : List NodeInstance → List Uuid
ids_of = map (λ n. n.id)

abbrev pub AreRowsOf : List NodeInstance → List NodeInstance → Type 0
AreRowsOf us ns = All (λ n. find (λ m. m.id == n.id) ns ≡ some n) us

set_nodes-run :
    (p : Uuid → Bool) (us ns : List NodeInstance)
    → IsKeyed ns
    → AreRowsOf us ns
    → set_nodes (map run us) (map (run_if p) ns)
      ≡ map (run_if (λ k. p k || contains (ids_of us) k)) ns
set_nodes-run p [] ns keyed rows = run_if-cong _ _ (λ k. ground arith) ns
set_nodes-run p (u ∷ us) ns keyed rows =
    ap (set_nodes (map run us)) (set_node-run p u ns keyed rows.0)
    ∙ set_nodes-run (λ k. p k || u.id == k) us ns keyed rows.1
    ∙ run_if-cong _ _ (λ k. ground arith) ns

-- Saving updates that set rows of the table to running.
pub save_changed-run :
    (us : List NodeInstance) (s : World)
    → IsKeyed s.nodes
    → AreRowsOf us s.nodes
    → save_changed (record s { statements = map update_node (map run us); can_drop = is_empty us })
      ≡ (
        ok (not (is_empty us)),
        record s {
          nodes = map (run_if (contains (ids_of us))) s.nodes;
          statements = [];
          can_drop = true;
        },
      )
unfolding save_changed finish
save_changed-run [] s keyed rows = simp (run_if-nothing s.nodes) refl
save_changed-run (u ∷ us) s keyed rows =
    let all = u ∷ us in
    let dirty : World = record s { statements = map update_node (map run all); can_drop = false } in
    let written : set_nodes (map run all) s.nodes ≡ map (run_if (contains (ids_of all))) s.nodes =
      ap (set_nodes (map run all)) (sym (run_if-nothing s.nodes))
      ∙ set_nodes-run (λ k. false) all s.nodes keyed rows in
    let done : execute_all (map update_node (map run all)) dirty
        ≡ some (record dirty { nodes = set_nodes (map run all) s.nodes }) =
      ap (λ l. execute_all l dirty) (sym (append-nil (map update_node (map run all))))
      ∙ execute_all-update_node (map run all) [] dirty in
    rw (done, written) refl
