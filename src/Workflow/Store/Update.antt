-- ===== src/Workflow/Store/Update.antt =====
-- What a batch of row updates does to the table, where ids are keys
-- (src/co/src/infrastructure/repositories/sea_orm_db_repository).
use kuintessence.Prelude.{
  ℕ, Bool, true, false, ◌≡◌, refl, ap, ◌∙◌, List, [], ◌∷◌, ◌++◌, map, ◌==◌, keep, any,
  if◌then◌else◌, arith, ==_refl, ◌&&◌, ok, Bool-cases, inl, inr,
}
use kuintessence.Workflow.Instance.{NodeInstance, WorkflowInstance}
use kuintessence.Workflow.Store.{
  Statement, update_node, update_flow, World, execute_all, set_node, set_flow, save_changed, finish,
}

abbrev pub has_id : ℕ → List NodeInstance → Bool
has_id k ns = any (λ m. m.id == k) ns

-- The primary key of the table.
abbrev pub IsKeyed : List NodeInstance → Type 0
IsKeyed [] = Unit {0}
IsKeyed (n ∷ ns) = (has_id n.id ns ≡ false) × IsKeyed ns

-- A list of updates, one after the other.
abbrev pub set_nodes : List NodeInstance → List NodeInstance → List NodeInstance
set_nodes [] ns = ns
set_nodes (u ∷ us) ns = set_nodes us (set_node u ns)

pub set_node-skip :
    (u : NodeInstance) (ns : List NodeInstance) → has_id u.id ns ≡ false → set_node u ns ≡ ns
unfolding set_node
set_node-skip u [] h = refl
set_node-skip u (n ∷ ns) h = ground (arith, set_node-skip u ns)

module _ (f : NodeInstance → NodeInstance) (same_id : (n : NodeInstance) → (f n).id ≡ n.id)
    (p : NodeInstance → Bool) where
  abbrev pub updated : NodeInstance → NodeInstance
  updated n = if p n then f n else n

  -- Rows that no update names.
  set_nodes-skip :
      (us : List NodeInstance) (n : NodeInstance) (ns : List NodeInstance)
      → has_id n.id us ≡ false
      → set_nodes us (n ∷ ns) ≡ n ∷ set_nodes us ns
  unfolding set_node
  set_nodes-skip [] n ns h = refl
  set_nodes-skip (u ∷ us) n ns h = elim (Bool-cases (n.id == u.id)) [
    | inl e ↦ ground arith
    | inr e ↦ rw e (set_nodes-skip us n (set_node u ns) (ground arith))
  ]

  has_id-keep :
      (k : ℕ) (ns : List NodeInstance) → has_id k ns ≡ false → has_id k (map f (keep p ns)) ≡ false
  has_id-keep k [] h = refl
  has_id-keep k (n ∷ ns) h = ground (arith, has_id-keep k ns, same_id n)

  set_nodes-updated :
      (ns : List NodeInstance) → IsKeyed ns → set_nodes (map f (keep p ns)) ns ≡ map updated ns
  unfolding set_node
  set_nodes-updated [] h = refl
  set_nodes-updated (n ∷ ns) h = elim (Bool-cases (p n)) [
    | inl e ↦
        let us = map f (keep p ns) in
        let hit : (n.id == (f n).id) ≡ true = rw same_id (==_refl n.id) in
        let rest : set_node (f n) ns ≡ ns = set_node-skip (f n) ns (rw same_id h.0) in
        let skip : set_nodes us (f n ∷ ns) ≡ f n ∷ set_nodes us ns =
          set_nodes-skip us (f n) ns (rw same_id (has_id-keep n.id ns h.0)) in
        let head : set_node (f n) (n ∷ ns) ≡ f n ∷ ns = rw (hit, rest) refl in
        rw e (ap (set_nodes us) head ∙ skip ∙ ap (◌∷◌ (f n)) (set_nodes-updated ns h.1))
    | inr e ↦
        let us = map f (keep p ns) in
        rw e
          (set_nodes-skip us n ns (has_id-keep n.id ns h.0) ∙ ap (◌∷◌ n) (set_nodes-updated ns h.1))
  ]

pub execute_all-update_node :
    (us : List NodeInstance) (rest : List Statement) (s : World)
    → execute_all (map update_node us ++ rest) s
      ≡ execute_all rest (record s { nodes = set_nodes us s.nodes })
unfolding execute_all
execute_all-update_node [] rest s = refl
execute_all-update_node (u ∷ us) rest s =
    execute_all-update_node us rest (record s { nodes = set_node u s.nodes })

pub keep-keep :
    (p q : NodeInstance → Bool) (ns : List NodeInstance)
    → keep p (keep q ns) ≡ keep (λ n. q n && p n) ns
keep-keep p q [] = refl
keep-keep p q (n ∷ ns) = ground (arith, keep-keep p q ns)

-- Saving one update for each of some rows and then one of the workflow: the rows are replaced, all
-- others stay.
pub save_changed-updated :
    (f : NodeInstance → NodeInstance) (same_id : (n : NodeInstance) → (f n).id ≡ n.id)
    (p : NodeInstance → Bool) (e : WorkflowInstance) (s : World)
    → IsKeyed s.nodes
    → s.statements ≡ map update_node (map f (keep p s.nodes)) ++ update_flow e ∷ []
    → s.can_drop ≡ false
    → save_changed s ≡ (
      ok true,
      record s {
        nodes = map (updated f same_id p) s.nodes;
        flows = set_flow e s.flows;
        statements = [];
        can_drop = true;
      },
    )
unfolding save_changed execute_all finish
save_changed-updated f same_id p e s keyed staged dirty =
    rw
      (
        dirty,
        staged,
        execute_all-update_node (map f (keep p s.nodes)),
        set_nodes-updated f same_id p s.nodes keyed,
      )
      refl
