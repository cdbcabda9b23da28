-- ===== src/Agent/Deployment.antt =====
-- `DeploySoftwareServiceImpl` of src/agent/service/src/deploy_software.rs. `find_installed` and
-- `installs` say what a deployer finds and whether it installs a software, with the error's text if
-- it does not.
use kuintessence.Prelude.{
  String, Bool, true, false, Option, none, some, List, [], ◌∷◌, Result, ok, if◌then◌else◌,
}
use kuintessence.Workflow.Common.{Uuid}
use kuintessence.Workflow.Exec.{pure, ◌>>=◌, ◌>>◌}
use kuintessence.Agent.Types.{SubTask, TaskStatus, FacilityKind, AgentError}
use kuintessence.Agent.Repository.{get_sub_task, update_sub_task, save_changed}
use kuintessence.Agent.Repository.Files.{delete_sub_task_by_id}
use kuintessence.Agent.Site.{
  DeployerType, Call, SiteAct, on_agent, call, deployment, install, report_completed_task,
  report_failed_task,
}

-- A deployer: the hash of an installed software, and the error of an installation, if there is one.
pub record Installer : Type 0 where
  pub find_installed_hash : String → List String → Result AgentError (Option String)
  pub fails : String → List String → Option String

abbrev pub is_installed : Result AgentError (Option String) → Bool
is_installed (ok (some hash)) = true
is_installed _ = false

-- The software of a facility, by deployer.
abbrev pub software_of : FacilityKind → Option (DeployerType × (String × List String))
software_of (FacilityKind.spack name argument_list) =
    some (DeployerType.spack, (name, argument_list))
software_of (FacilityKind.singularity image tag) = some (DeployerType.apptainer, (image, tag ∷ []))
software_of FacilityKind.unknown = none

module _ (takes : Call → Bool) (deployers : DeployerType → Option Installer) where
  unfoldable pub set_status : SubTask → TaskStatus → SiteAct (Unit {0})
  unfolding update_sub_task save_changed
  set_status sub_task status = do
    on_agent (update_sub_task (record sub_task { status = status }))
    (on_agent save_changed >>= λ _. pure tt)

  unfoldable pub enqueue_sub_task : Uuid → SiteAct (Unit {0})
  unfolding get_sub_task set_status
  enqueue_sub_task id = do
    sub_task ← on_agent (get_sub_task id)
    call takes (deployment sub_task.id TaskStatus.running)
    set_status sub_task TaskStatus.running

  unfoldable pub delete_sub_task : Uuid → SiteAct (Unit {0})
  unfolding get_sub_task delete_sub_task_by_id save_changed
  delete_sub_task id = do
    sub_task ← on_agent (get_sub_task id)
    call takes (deployment sub_task.id TaskStatus.suspended)
    on_agent (delete_sub_task_by_id id)
    (on_agent save_changed >>= λ _. pure tt)

  unfoldable pub pause_sub_task : Uuid → SiteAct (Unit {0})
  unfolding get_sub_task set_status
  pause_sub_task id = do
    sub_task ← on_agent (get_sub_task id)
    call takes (deployment sub_task.id TaskStatus.suspended)
    set_status sub_task TaskStatus.suspended

  unfoldable pub continue_sub_task : Uuid → SiteAct (Unit {0})
  unfolding enqueue_sub_task
  continue_sub_task id = enqueue_sub_task id

  unfoldable pub complete_sub_task : Uuid → SiteAct (Unit {0})
  unfolding get_sub_task set_status
  complete_sub_task id = do
    sub_task ← on_agent (get_sub_task id)
    set_status sub_task TaskStatus.completed
    call takes (report_completed_task id)

  unfoldable pub fail_sub_task : Uuid → SiteAct (Unit {0})
  unfolding get_sub_task set_status
  fail_sub_task id = do
    sub_task ← on_agent (get_sub_task id)
    set_status sub_task TaskStatus.failed
    call takes (report_failed_task id)

  -- The reason is saved, and the failure sent to the background service.
  unfoldable pub give_up : SubTask → String → SiteAct (Unit {0})
  unfolding update_sub_task save_changed
  give_up sub_task reason = do
    on_agent (update_sub_task (record sub_task { failed_reason = reason }))
    (on_agent save_changed >>= λ _. pure tt)
    call takes (deployment sub_task.id TaskStatus.failed)

  -- A software that is found is not installed again.
  unfoldable pub run_sub_task : Uuid → SiteAct (Unit {0})
  unfolding get_sub_task give_up
  run_sub_task id = on_agent (get_sub_task id) >>= λ sub_task.
      elim (software_of sub_task.facility_kind) [
        | none ↦ give_up sub_task "No such package manager."
        | some software ↦ elim (deployers software.0) [
          | none ↦ give_up sub_task "No such package manager."
          | some x ↦
              if is_installed (x.find_installed_hash software.1.0 software.1.1)
              then call takes (deployment sub_task.id TaskStatus.completing)
              else (call (λ c. true) (install software.0 software.1.0 software.1.1) >>= λ _.
                  elim (x.fails software.1.0 software.1.1) [
                    | none ↦ call takes (deployment sub_task.id TaskStatus.completing)
                    | some e ↦ give_up sub_task e
                  ])
        ]
      ]
