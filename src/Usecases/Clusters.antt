-- ===== src/Usecases/Clusters.antt =====
-- The rows that the parsing of use cases reads: clusters, installed and blocked software
-- (src/co/src/infrastructure/repositories/sea_orm_db_repository), and the tasks that are sent to the
-- clusters (src/kernel/src/services/task_distribution.rs).
use kuintessence.Prelude.{
  ℕ, ◌%◌, String, Bool, true, Option, none, some, List, [], ◌∷◌, ◌++◌, length, Result, ok, err,
  panic, ok_or, ◌==◌, ◌&&◌, str_eq, find, keep, any, all, get_elem?, if◌then◌else◌,
}
use kuintessence.Workflow.Common.{Uuid}
use kuintessence.Workflow.Instance.{
  Error, no_such_cluster, no_such_cluster_id, malformed_arguments, service_failed,
}
use kuintessence.Workflow.Exec.{Exec, continue}
use kuintessence.Workflow.Store.{World, Act, draw}
use kuintessence.Usecases.Task.{Task}

pub record Cluster : Type 0 where
  pub id : Uuid
  pub topic_name : String
  pub enabled : Bool

-- The arguments are a JSON document, which may be no list of texts.
pub record InstalledSoftware : Type 0 where
  pub software_name : String
  pub install_argument : Option (List String)

pub record BlockedSoftware : Type 0 where
  pub name : String
  pub version : String

-- `tasks` is what the message queue was given, with the topics.
pub record Grid : Type 0 where
  pub store : World
  pub clusters : List Cluster
  pub installed : List InstalledSoftware
  pub block_list : List BlockedSoftware
  pub tasks : List (Task × String)

abbrev pub GridAct : Type 0 → Type 0
GridAct A = Exec Error Grid A

-- A call of the shared repository.
abbrev pub on_store : {A : Type 0} → Act A → GridAct A
on_store m s = let (r, store) = m s.store in (r, record s { store = store })

-- `IReadOnlyRepository<Cluster>::get_by_id`
unfoldable pub get_cluster : Uuid → Grid → Result Error Cluster
get_cluster id s = ok_or (no_such_cluster id) (find (λ c. c.id == id) s.clusters)

-- `get_random_cluster`: `gen_range` panics at an empty range.
unfoldable pub choose : ℕ → List Cluster → Result Error Uuid
choose r [] = panic
choose r (c ∷ cs) = elim (get_elem? (c ∷ cs) (r % length (c ∷ cs))) [
  | none ↦ err no_such_cluster_id
  | some chosen ↦ ok chosen.id
]

unfoldable pub get_random_cluster : (ℕ → ℕ) → GridAct Uuid
unfolding choose draw
get_random_cluster random s =
    let (n, s') = on_store draw s in
    continue n (λ n s. (choose (random n) (keep (λ c. c.enabled) s.clusters), s)) s'

abbrev pub has_all : List String → List String → Bool
has_all required repo_install_arguments =
    all (λ x. any (λ y. str_eq y x) repo_install_arguments) required

-- The loop of `is_software_satisfied`: `r` only ever becomes false.
unfoldable pub satisfied_from : List String → Bool → List InstalledSoftware → Result Error Bool
satisfied_from required r [] = ok r
satisfied_from required r (x ∷ xs) = elim x.install_argument [
  | none ↦ err malformed_arguments
  | some repo_install_arguments ↦
      satisfied_from required (r && has_all required repo_install_arguments) xs
]

unfoldable pub is_software_satisfied : String → List String → Grid → Result Error Bool
unfolding satisfied_from
is_software_satisfied software_name required_install_arguments s =
    satisfied_from required_install_arguments true
      (keep (λ x. str_eq x.software_name software_name) s.installed)

unfoldable pub is_software_version_blocked : String → String → Grid → Result Error Bool
is_software_version_blocked software_name version s =
    ok (any (λ x. str_eq x.name software_name && str_eq x.version version) s.block_list)

-- `TaskDistributionService::send_task`; `accepts` says whether the queue takes the message.
unfoldable pub send_task : (Task → Bool) → Task → Uuid → GridAct (Unit {0})
unfolding get_cluster
send_task accepts task cluster_id s = elim (get_cluster cluster_id s) [
  | panic ↦ (panic, s)
  | err e ↦ (err e, s)
  | ok cluster ↦
      if accepts task
      then (ok tt, record s { tasks = s.tasks ++ (task, cluster.topic_name) ∷ [] })
      else (err service_failed, s)
]
