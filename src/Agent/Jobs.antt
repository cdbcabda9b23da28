-- ===== src/Agent/Jobs.antt =====
-- `RunJobServiceImpl` of src/agent/service/src/run_job.rs, which runs the sub tasks that execute a
-- use case as jobs of the cluster's scheduler. `takes` says which calls the other services accept,
-- `job_id_of` is the id that the scheduler gives a script, and `job_of` the job with an id.
pub mod Paused
pub mod Inputs
use Prim.Native.String
use kuintessence.Prelude.{
  String, Bool, true, false, Option, none, some, List, [], ◌∷◌, Result, ok, err, keep, all,
  is_empty, not, ◌&&◌, ◌||◌, str_eq, if◌then◌else◌,
}
use kuintessence.Prelude.Text.{int_to_string}
use kuintessence.Workflow.Common.{Uuid}
use kuintessence.Workflow.Exec.{pure, bail, lift, for_each, ◌>>=◌, ◌>>◌}
use kuintessence.Agent.Types.{
  SubTask, TaskStatus, TaskType, FacilityKind, File, FileStatus, AgentError, no_script_info,
  is_running, is_completed, is_completing,
}
use kuintessence.Agent.Repository.{
  Agent, get_sub_task, update_sub_task, get_all_refreshable_task, save_changed,
}
use kuintessence.Agent.Repository.Files.{
  is_input, is_output, is_both, get_file, update_file, find_files_by_task, update_task_file_status,
  delete_sub_task_by_id,
}
use kuintessence.Agent.Site.{
  FileTransferStatus, DeployerType, JobState, Job, ScriptInfo, Call, Site, SiteAct, on_agent,
  ignore, call, Deployer, download, upload, submit_job_script, delete_job, pause_job, continue_job,
  report_completed_task, report_failed_task,
}

-- `match job.state`
abbrev pub status_of : JobState → TaskStatus
status_of JobState.completed = TaskStatus.completing
status_of JobState.failed = TaskStatus.failed
status_of JobState.unknown = TaskStatus.failed
status_of _ = TaskStatus.running

-- The reason that a failed job gives.
abbrev pub exit_reason : Job → String
exit_reason job = String.◌++◌ "Job exit with " (
    String.◌++◌ (int_to_string job.exit_status_code)
      (String.◌++◌ "\nError Output:\n" job.error_output))

abbrev pub no_manager : String
no_manager = "Unabled to load software. Unable to access software package manager."

abbrev pub no_software : String
no_software = "Unabled to load software. No such software."

-- `status != Completed || status != Completing`
abbrev pub is_open : TaskStatus → Bool
is_open status = not (is_completed status) || not (is_completing status)

-- The deployer of a facility, and the name and parameters of the software; `is_mpi_before_loader` is
-- set for a container only.
abbrev pub software_of : FacilityKind → Option (DeployerType × (String × (List String × Bool)))
software_of (FacilityKind.spack name argument_list) =
    some (DeployerType.spack, (name, (argument_list, false)))
software_of (FacilityKind.singularity image tag) =
    some (DeployerType.apptainer, (image, (tag ∷ [], true)))
software_of FacilityKind.unknown = none

module _ (takes : Call → Bool) (job_id_of : ScriptInfo → String)
    (job_of : String → Result AgentError Job) (deployers : DeployerType → Option Deployer)
    (script_path : Uuid → String) where
  save : SiteAct (Unit {0})
  unfolding save_changed
  save = on_agent save_changed >>= λ _. pure tt

  -- The sub task is saved as failed, and that is reported.
  unfoldable pub fail_with : SubTask → String → SiteAct (Unit {0})
  unfolding update_sub_task save
  fail_with task reason = do
    on_agent (update_sub_task (record task { status = TaskStatus.failed; failed_reason = reason }))
    save
    call takes (report_failed_task task.id)

  -- The job of a use case is submitted, and its id saved with the sub task.
  unfoldable pub submit : SubTask → String → Bool → SiteAct (Unit {0})
  unfolding update_sub_task
  submit task load_software is_mpi_before_loader = elim task.task_type [
    | TaskType.usecase_execution name arguments environments std_in files ↦
        let info : ScriptInfo = record {
          id = task.id;
          is_mpi_before_loader = is_mpi_before_loader;
          parent_id = task.parent_id;
          name = name;
          load_software = load_software;
          path = script_path task.parent_id;
          arguments = arguments;
          environments = environments;
          std_in = std_in;
          requirements = task.requirements;
        } in
        call takes (submit_job_script info) >>= λ _.
        on_agent (update_sub_task (record task { job_id = job_id_of info }))
    | TaskType.software_deployment status ↦ bail no_script_info
    | TaskType.collected_out from rule to optional ↦ bail no_script_info
    | TaskType.unknown ↦ bail no_script_info
  ]

  -- The software of the sub task is looked for; a sub task that fails here is not submitted, and the
  -- save after the submission is not reached.
  unfoldable pub load_and_submit : SubTask → SiteAct (Unit {0})
  unfolding fail_with submit save
  load_and_submit task = elim (software_of task.facility_kind) [
    | none ↦ submit task "" false >>= λ _. save
    | some software ↦ elim (deployers software.0) [
      | none ↦ fail_with task no_manager
      | some x ↦ lift (x.find_installed_hash software.1.0 software.1.1.0) >>= λ hash. elim hash [
        | none ↦ fail_with task no_software
        | some hash ↦ submit task (x.gen_load_script hash) software.1.1.1 >>= λ _. save
      ]
    ]
  ]

  -- `internal_run_job`: only when all inputs are there.
  unfoldable pub internal_run_job : Uuid → SiteAct (Unit {0})
  unfolding find_files_by_task get_sub_task load_and_submit save
  internal_run_job id = on_agent (find_files_by_task id) >>= λ files.
      if all is_both (keep is_input files)
      then (on_agent (get_sub_task id) >>= load_and_submit)
      else save

  unfoldable pub internal_complete_job : Uuid → SiteAct (Unit {0})
  unfolding find_files_by_task
  internal_complete_job id = on_agent (find_files_by_task id) >>= λ files.
      if all is_both (keep is_output files) then call takes (report_completed_task id) else pure tt

  unfoldable pub set_status : SubTask → TaskStatus → SiteAct (Unit {0})
  unfolding update_sub_task save
  set_status task status = do on_agent (update_sub_task (record task { status = status })); save

  -- `enqueue_sub_task`: without inputs the job runs at once, otherwise they are fetched first.
  unfoldable pub enqueue_sub_task : Uuid → SiteAct (Unit {0})
  unfolding get_sub_task find_files_by_task set_status internal_run_job update_task_file_status
  enqueue_sub_task id = do
    task ← on_agent (get_sub_task id)
    all_files ← on_agent (find_files_by_task id)
    let files = keep is_input all_files
    (if is_empty files
        then (set_status task TaskStatus.running >>= λ _. internal_run_job id)
        else (for_each files (λ file.
              on_agent (update_task_file_status file.id FileStatus.downloading) >>= λ _.
              call takes (
                download (record {
                  id = file.id;
                  parent_id = task.parent_id;
                  status = FileTransferStatus.start;
                  task_file = some file;
                })))
            >>= λ _. set_status task TaskStatus.running))

  unfoldable pub delete_sub_task : Uuid → SiteAct (Unit {0})
  unfolding get_sub_task delete_sub_task_by_id save
  delete_sub_task id = do
    task ← on_agent (get_sub_task id)
    (if not (str_eq task.job_id "") then call takes (delete_job task.job_id) else pure tt)
    on_agent (delete_sub_task_by_id id)
    save

  -- The loop over the inputs that are not there yet; `parent_id` is the default id.
  unfoldable pub tell_downloads : Uuid → FileTransferStatus → SiteAct (Unit {0})
  unfolding find_files_by_task
  tell_downloads id status = on_agent (find_files_by_task id) >>= λ task_files.
      for_each task_files λ file.
        if is_input file && not (is_both file)
        then call takes
            (download (record { id = file.id; parent_id = 0; status = status; task_file = none }))
        else pure tt

  -- What `pause_sub_task` and `continue_sub_task` do after the call to the scheduler.
  unfoldable pub change_open : SubTask → TaskStatus → FileTransferStatus → SiteAct (Unit {0})
  unfolding update_sub_task tell_downloads save
  change_open task status transfer = do
    (if is_open task.status
        then (ignore (on_agent (update_sub_task (record task { status = status }))) >>= λ _.
            tell_downloads task.id transfer)
        else pure tt)
    save

  unfoldable pub pause_sub_task : Uuid → SiteAct (Unit {0})
  unfolding get_sub_task change_open
  pause_sub_task id = do
    task ← on_agent (get_sub_task id)
    (if not (str_eq task.job_id "") then call takes (pause_job task.job_id) else pure tt)
    change_open task TaskStatus.suspended FileTransferStatus.pause

  unfoldable pub continue_sub_task : Uuid → SiteAct (Unit {0})
  unfolding get_sub_task change_open
  continue_sub_task id = do
    task ← on_agent (get_sub_task id)
    (if not (str_eq task.job_id "") then call takes (continue_job task.job_id) else pure tt)
    change_open task TaskStatus.queuing FileTransferStatus.continue

  -- What follows a job that is done: its outputs are sent, or there is nothing to wait for.
  unfoldable pub send_outputs : SubTask → SiteAct (Unit {0})
  unfolding find_files_by_task internal_complete_job update_file save
  send_outputs task = do
    all_files ← on_agent (find_files_by_task task.id)
    let files = keep is_output all_files
    (if is_empty files
        then internal_complete_job task.id
        else (for_each files (λ file.
              call takes (
                upload (record {
                  id = file.id;
                  parent_id = task.parent_id;
                  status = FileTransferStatus.start;
                  task_file = some file;
                }))
              >>= λ _. on_agent (update_file (record file { status = FileStatus.uploading })))
            >>= λ _. save))

  -- `refresh_status`: of a job that still runs nothing is kept.
  unfoldable pub refresh_status : Uuid → SiteAct (Unit {0})
  unfolding get_sub_task fail_with update_sub_task save send_outputs
  refresh_status id = do
    found ← on_agent (get_sub_task id)
    job ← lift (job_of found.job_id)
    let status = status_of job.state
    let task = record found { resource_used = some job.resource_used; status = status }
    (elim status [
      | TaskStatus.running ↦ pure tt
      | TaskStatus.failed ↦ fail_with task (exit_reason job)
      | _ ↦ on_agent (update_sub_task task) >>= λ _. save >>= λ _. send_outputs task
    ])

  unfoldable pub refresh_all_status : SiteAct (Unit {0})
  unfolding get_all_refreshable_task refresh_status
  refresh_all_status = on_agent get_all_refreshable_task >>= λ tasks.
      for_each tasks λ (task : SubTask). refresh_status task.id

  -- `RunJobService`: a file has arrived, one was sent, or a transfer failed.
  unfoldable pub run_job : Uuid → SiteAct (Unit {0})
  unfolding get_file update_task_file_status save internal_run_job
  run_job id = do
    task_file ← on_agent (get_file id)
    on_agent (update_task_file_status id FileStatus.both)
    save
    internal_run_job task_file.related_task_body

  unfoldable pub complete_job : Uuid → SiteAct (Unit {0})
  unfolding get_file update_task_file_status save internal_complete_job
  complete_job id = do
    task_file ← on_agent (get_file id)
    on_agent (update_task_file_status id FileStatus.both)
    save
    internal_complete_job task_file.related_task_body

  unfoldable pub fail_job : Uuid → String → SiteAct (Unit {0})
  unfolding get_sub_task fail_with
  fail_job id reason = on_agent (get_sub_task id) >>= λ task. fail_with task reason
