-- ===== src/Agent/Jobs/Paused.antt =====
-- The pause of a sub task (src/agent/service/src/run_job.rs).
use mathlib.Core.List.{append-nil}
use kuintessence.Prelude.{
  String, Bool, true, ◌≡◌, refl, Option, none, some, List, [], ◌∷◌, ◌++◌, Result, ok, not, ◌&&◌,
  ◌==◌, str_eq, find, keep, any, all, arith, if◌then◌else◌, Bool-cases, inl, inr, &&-eq-true,
}
use kuintessence.Workflow.Common.{Uuid}
use kuintessence.Workflow.Exec.{for_each, pure}
use kuintessence.Agent.Types.{SubTask, TaskStatus, File, AgentError}
use kuintessence.Agent.Repository.{Agent, remove_first, get_sub_task, update_sub_task, save_changed}
use kuintessence.Agent.Repository.Files.{is_input, is_both, find_files_by_task}
use kuintessence.Agent.Site.{
  FileTransferStatus, DeployerType, Job, ScriptInfo, Call, Site, Deployer, call, download,
  pause_job,
}
use kuintessence.Agent.Jobs.{is_open, save, tell_downloads, change_open, pause_sub_task}

-- No status is both completed and completing.
is_open-true : (status : TaskStatus) → is_open status ≡ true
is_open-true status = elim status as (λ k. is_open k ≡ true) [
  | TaskStatus.completed ↦ refl
  | TaskStatus.completing ↦ refl
  | _ ↦ refl
]

any-found :
    (id : Uuid) (xs : List SubTask) (t : SubTask)
    → find (λ x. x.id == id) xs ≡ some t
    → any (λ x. x.id == id) xs ≡ true
any-found id [] t h = absurd (cc)
any-found id (x ∷ xs) t h = ground (arith, any-found id xs t)

-- An input that has arrived or an output.
abbrev pub is_settled : File → Bool
is_settled file = not (is_input file && not (is_both file))

abbrev updated : SubTask → Agent → Agent
updated task a = record a {
  sub_tasks =
      remove_first (λ x. x.id == task.id) a.sub_tasks
      ++ record task { status = TaskStatus.suspended } ∷ [];
}

-- The agent with the sub task suspended, and saved.
abbrev pub suspended : SubTask → Agent → Agent
suspended task a = record (updated task a) {
  saved_tasks = a.tasks;
  saved_sub_tasks = (updated task a).sub_tasks;
  saved_task_files = a.task_files;
}

abbrev pub told : SubTask → List Call
told task = if str_eq task.job_id "" then [] else pause_job task.job_id ∷ []

module _ (takes : Call → Bool) (job_id_of : ScriptInfo → String)
    (job_of : String → Result AgentError Job) (deployers : DeployerType → Option Deployer)
    (script_path : Uuid → String) where
  settled-loop :
      (status : FileTransferStatus) (files : List File) (s : Site)
      → all is_settled files ≡ true
      → for_each files
          (λ file.
            if is_input file && not (is_both file)
            then call takes (
                download
                  (record { id = file.id; parent_id = 0; status = status; task_file = none }))
            else pure tt)
          s
        ≡ (ok tt, s)
  settled-loop status [] s settled = refl
  settled-loop status (f ∷ files) s settled = elim (Bool-cases (is_input f && not (is_both f))) [
    | inl waits ↦ absurd (ground (arith, waits))
    | inr here ↦ rw here (settled-loop status files s (&&-eq-true _ _ settled).1)
  ]

  change_open-suspended :
      (task : SubTask) (s : Site)
      → find (λ x. x.id == task.id) s.agent.sub_tasks ≡ some task
      → all is_settled (keep (λ f. f.related_task_body == task.id) s.agent.task_files) ≡ true
      → change_open takes job_id_of job_of deployers script_path task TaskStatus.suspended
          FileTransferStatus.pause s
        ≡ (ok tt, record s { agent = suspended task s.agent })
  unfolding change_open update_sub_task tell_downloads find_files_by_task save save_changed
  change_open-suspended task s there settled =
      let mid : Site = record s { agent = updated task s.agent } in
      let files = keep (λ f. f.related_task_body == task.id) s.agent.task_files in
      rw (is_open-true task.status) (
        rw (any-found task.id s.agent.sub_tasks task there)
          (rw (settled-loop FileTransferStatus.pause files mid settled) refl))

  -- A sub task that is paused is suspended and saved, whatever its status was, also where it had
  -- completed: if it has a job, the scheduler is told to pause that job and accepts, and no input of
  -- the sub task is still on its way.
  pub pause_sub_task-suspended :
      (task : SubTask) (s : Site)
      → find (λ x. x.id == task.id) s.agent.sub_tasks ≡ some task
      → takes (pause_job task.job_id) ≡ true
      → all is_settled (keep (λ f. f.related_task_body == task.id) s.agent.task_files) ≡ true
      → pause_sub_task takes job_id_of job_of deployers script_path task.id s
        ≡ (ok tt, record s { agent = suspended task s.agent; calls = s.calls ++ told task })
  unfolding pause_sub_task get_sub_task
  pause_sub_task-suspended task s there accepted settled =
      elim (Bool-cases (str_eq task.job_id "")) [
        | inl no_job ↦
            rw there
              (rw no_job (rw (append-nil s.calls) (change_open-suspended task s there settled)))
        | inr job ↦
            let s' : Site = record s { calls = s.calls ++ pause_job task.job_id ∷ [] } in
            rw there (rw job (rw accepted (change_open-suspended task s' there settled)))
      ]
