-- ===== src/Agent/Examples/Jobs.antt =====
-- Tests and witnesses for the services of sub tasks.
use kuintessence.Prelude.{◌≡◌, refl, true, false, some, [], ◌∷◌, Result, ok, err}
use kuintessence.Workflow.Common.{Uuid}
use kuintessence.Agent.Types.{
  SubTask, TaskStatus, TaskType, FacilityKind, StdInKind, File, FileType, FileStatus, CollectFrom,
  CollectTo, CollectRule, AgentError, other_service,
}
use kuintessence.Agent.Site.{
  DeployerType, ScriptInfo, Site, Deployer, save_file, report_completed_task,
}
use kuintessence.Agent.Jobs.{pause_sub_task, run_job}
use kuintessence.Agent.Jobs.Paused.{suspended, told, pause_sub_task-suspended}
use kuintessence.Agent.Jobs.Inputs.{
  arrived, saved, submitted, script_of, run_job-waits, run_job-submits,
}
use kuintessence.Agent.Collection.{enqueue_sub_task}
use kuintessence.Agent.Examples.{agent, sub_of}

abbrev input_of : Uuid → FileStatus → File
input_of id status = record {
  id = id;
  metadata_id = 0;
  file_name = "";
  related_task_body = 10;
  file_type = FileType.input;
  status = status;
  is_optional = false;
  is_packaged = false;
  text = "";
  is_generated = false;
}

abbrev job : SubTask
job = record (sub_of 10 1 TaskStatus.running) {
  facility_kind = FacilityKind.spack "s" [];
  task_type = TaskType.usecase_execution "run" ("-n" ∷ []) [] StdInKind.unknown [];
}

-- The sub task 10 waits for the file 5, and for the file 6 with the status that is given.
abbrev site : FileStatus → Site
site status = record {
  agent = record agent {
    sub_tasks = job ∷ [];
    task_files = input_of 5 FileStatus.downloading ∷ input_of 6 status ∷ [];
  };
  calls = [];
}

abbrev deployer : Deployer
deployer = record {
  find_installed_hash = λ name parameters. ok (some "h");
  gen_load_script = λ hash. hash;
}

abbrev run : Uuid → Site → Result AgentError (Unit {0}) × Site
run =
    run_job (λ c. true) (λ info. "job") (λ id. err other_service) (λ ty. some deployer)
      (λ id. "run.sh")

run_job-waits_example : run 5 (site FileStatus.downloading) ≡ (
  ok tt,
  record (site FileStatus.downloading) {
    agent = arrived (input_of 5 FileStatus.downloading) (site FileStatus.downloading).agent;
  },
)
run_job-waits_example =
    run_job-waits (λ c. true) (λ info. "job") (λ id. err other_service) (λ ty. some deployer)
      (λ id. "run.sh") (input_of 5 FileStatus.downloading) (site FileStatus.downloading) refl refl

abbrev script : ScriptInfo
script =
    script_of (λ c. true) (λ info. "job") (λ id. err other_service) (λ ty. some deployer)
      (λ id. "run.sh") job "h" false "run" ("-n" ∷ []) [] StdInKind.unknown

run_job-submits_example : run 5 (site FileStatus.both) ≡ (
  ok tt,
  saved (
      submitted
        (λ c. true)
        (λ info. "job")
        (λ id. err other_service)
        (λ ty. some deployer)
        (λ id. "run.sh")
        job
        script
        (record (site FileStatus.both) {
          agent = arrived (input_of 5 FileStatus.downloading) (site FileStatus.both).agent;
        })),
)
run_job-submits_example =
    run_job-submits (λ c. true) (λ info. "job") (λ id. err other_service) (λ ty. some deployer)
      (λ id. "run.sh") (input_of 5 FileStatus.downloading) (site FileStatus.both) job
      (DeployerType.spack, ("s", ([], false))) deployer "h" "run" ("-n" ∷ []) [] StdInKind.unknown
      [] refl refl refl refl refl refl refl refl

-- A sub task that has completed.
abbrev done : SubTask
done = record (sub_of 10 1 TaskStatus.completed) { job_id = "7" }

abbrev done_site : Site
done_site = record { agent = record agent { sub_tasks = done ∷ [] }; calls = [] }

pause_sub_task-suspended_example :
    pause_sub_task
      (λ c. true)
      (λ info. "job")
      (λ id. err other_service)
      (λ ty. some deployer)
      (λ id. "run.sh")
      10
      done_site
    ≡ (ok tt, record done_site { agent = suspended done done_site.agent; calls = told done })
pause_sub_task-suspended_example =
    pause_sub_task-suspended (λ c. true) (λ info. "job") (λ id. err other_service)
      (λ ty. some deployer) (λ id. "run.sh") done done_site refl refl refl

-- The last two lines of a file are saved, and the sub task is reported.
abbrev collecting : SubTask
collecting = record (sub_of 10 1 TaskStatus.running) {
  task_type =
      TaskType.collected_out (CollectFrom.file_out "o") (CollectRule.bottom_lines 2)
        (CollectTo.text 4) false;
}

collected :
    (enqueue_sub_task
      (λ c. true)
      (λ id from. ok "a\r\nb\n\n")
      (λ exp input. ok [])
      (λ e. "")
      10
      (record { agent = record agent { sub_tasks = collecting ∷ [] }; calls = [] })).1.calls
    ≡ save_file 1 "b\n" (CollectTo.text 4) ∷ report_completed_task 10 ∷ []
unfolding enqueue_sub_task
collected = refl
