-- ===== src/Workflow/Store/Tables.antt =====
-- Saves that fail (src/co/src/infrastructure/repositories/sea_orm_db_repository).
use kuintessence.Prelude.{◌≡◌, refl, Result, ok, ◌⊎◌, inl, inr, Option-cases, Bool-cases}
use kuintessence.Workflow.Instance.{Error}
use kuintessence.Workflow.Exec.{pure, ◌>>=◌}
use kuintessence.Workflow.Store.{World, save_changed, finish, execute_all}

-- The tables of the database are as before.
pub record SameTables (s t : World) : Type 0 where
  pub nodes : t.nodes ≡ s.nodes
  pub flows : t.flows ≡ s.flows

-- A call either succeeds or leaves the tables as they were.
abbrev pub IsAtomic : World → Result Error (Unit {0}) × World → Type 0
IsAtomic s r = (r.0 ≡ ok tt) ⊎ SameTables s r.1

pub save-IsAtomic : (s t : World) → SameTables s t → IsAtomic s ((save_changed >>= λ _. pure tt) t)
unfolding save_changed finish
save-IsAtomic s t v = elim (Bool-cases t.can_drop) [
  | inl e ↦ simp e (inl refl)
  | inr e ↦ elim (Option-cases (execute_all t.statements t)) [
    | inl f ↦ simp (e, f) (inr (record { nodes = v.nodes; flows = v.flows }))
    | inr (t', f) ↦ simp (e, f) (inl refl)
  ]
]
