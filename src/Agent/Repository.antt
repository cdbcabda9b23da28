-- ===== src/Agent/Repository.antt =====
-- src/agent/app/src/infrastructure/repository.rs: tasks, sub tasks and files in memory, which
-- `save_changed` writes to three files on the disk. Errors of the file system are not modelled.
pub mod Stored
pub mod Files
use kuintessence.Prelude.{
  ℕ, ◌+◌, String, Bool, true, false, Option, none, some, List, [], ◌∷◌, ◌++◌, ◌==◌, str_eq, not,
  ◌&&◌, find, keep, any, ok, err, ok_or, if◌then◌else◌,
}
use mathlib.Core.Option
use kuintessence.Workflow.Common.{Uuid}
use kuintessence.Workflow.Exec.{Exec, pure, gets, for_each, ◌>>=◌, ◌>>◌}
use kuintessence.Agent.Types.{
  Task, SubTask, TaskType, TaskStatus, File, FileInfo, FileType, FileStatus, AgentError,
  no_such_task, no_such_id, is_queuing, is_running,
}

-- The repository, the counter of the task scheduler and the clock.
pub record Agent : Type 0 where
  pub tasks : List Task
  pub sub_tasks : List SubTask
  pub task_files : List File
  pub saved_tasks : List Task
  pub saved_sub_tasks : List SubTask
  pub saved_task_files : List File
  pub tasks_count : ℕ
  pub now : ℕ

abbrev pub Act : Type 0 → Type 0
Act A = Exec AgentError Agent A

-- `position` and `remove`: the first element that passes the test goes.
module _ {A : Type 0} where
  abbrev pub remove_first : (A → Bool) → List A → List A
  remove_first p [] = []
  remove_first p (x ∷ xs) = if p x then xs else x ∷ remove_first p xs

-- `IReadOnlyRepository<Task>::get_by_id`: the body is put together from the sub tasks.
unfoldable pub get_task : Uuid → Act Task
get_task id = (λ s. (ok_or no_such_task (find (λ x. x.id == id) s.tasks), s)) >>= λ task.
    gets λ s. record task { body = keep (λ (x : SubTask). x.parent_id == id) s.sub_tasks }

unfoldable pub get_all_tasks : Act (List Task)
get_all_tasks s = (ok s.tasks, s)

unfoldable pub get_sub_task : Uuid → Act SubTask
get_sub_task id s = (ok_or no_such_task (find (λ x. x.id == id) s.sub_tasks), s)

-- `IMutableRepository<Task>::update`: the task goes to the end.
unfoldable pub update_task : Task → Act (Unit {0})
update_task entity s =
    if any (λ x. x.id == entity.id) s.tasks
    then (
      ok tt,
      record s {
        tasks =
            remove_first (λ x. x.id == entity.id) s.tasks
            ++ record entity { update_time = s.now } ∷ [];
      },
    )
    else (err no_such_id, s)

unfoldable pub update_sub_task : SubTask → Act (Unit {0})
update_sub_task entity s =
    if any (λ x. x.id == entity.id) s.sub_tasks
    then (
      ok tt,
      record s { sub_tasks = remove_first (λ x. x.id == entity.id) s.sub_tasks ++ entity ∷ [] },
    )
    else (err no_such_id, s)

insert_file : File → Act (Unit {0})
insert_file entity s = (
  ok tt,
  record s { task_files = remove_first (λ x. x.id == entity.id) s.task_files ++ entity ∷ [] },
)

initial_status : FileType → FileStatus
initial_status FileType.input = FileStatus.remote_only
initial_status FileType.output = FileStatus.waitting_create

file_of : Uuid → FileInfo → File
unfolding initial_status
file_of sub_task_id file = record {
  id = file.id;
  metadata_id = file.metadata_id;
  file_name = file.path;
  related_task_body = sub_task_id;
  file_type = file.file_type;
  status = initial_status file.file_type;
  is_optional = file.optional;
  is_packaged = file.is_package;
  text = file.text;
  is_generated = file.is_generated;
}

insert_files : Uuid → TaskType → Act (Unit {0})
unfolding insert_file file_of
insert_files id (TaskType.usecase_execution name arguments environments std_in files) =
    for_each files λ file. insert_file (file_of id file)
insert_files id _ = pure tt

-- `IMutableRepository<SubTask>::insert`: a sub task with the same id is replaced.
insert_sub_task : SubTask → Act (Unit {0})
unfolding insert_files
insert_sub_task entity = do
  λ s. (ok tt, record s { sub_tasks = remove_first (λ x. x.id == entity.id) s.sub_tasks })
  insert_files entity.id entity.task_type
  λ s. (ok tt, record s { sub_tasks = s.sub_tasks ++ entity ∷ [] })

-- `IMutableRepository<Task>::insert`
unfoldable pub insert_task : Task → Act (Unit {0})
unfolding insert_sub_task
insert_task entity = do
  λ s. (ok tt, record s { tasks = remove_first (λ x. x.id == entity.id) s.tasks })
  for_each entity.body insert_sub_task
  λ s. (ok tt, record s { tasks = s.tasks ++ entity ∷ [] })

-- `IMutableRepository<Task>::delete_by_id`: the sub tasks stay.
unfoldable pub delete_task_by_id : Uuid → Act (Unit {0})
delete_task_by_id id s =
    if any (λ x. x.id == id) s.tasks
    then (ok tt, record s { tasks = remove_first (λ x. x.id == id) s.tasks })
    else (err no_such_id, s)

unfoldable pub get_next_queuing_id : Act (Option Uuid)
get_next_queuing_id s = (ok (Option.map (λ x. x.id) (find (λ x. is_queuing x.status) s.tasks)), s)

unfoldable pub get_all_refreshable_task : Act (List SubTask)
get_all_refreshable_task s =
    (ok (keep (λ x. not (str_eq x.job_id "") && is_running x.status) s.sub_tasks), s)

unfoldable pub save_changed : Act Bool
save_changed s = (
  ok true,
  record s {
    saved_tasks = s.tasks;
    saved_sub_tasks = s.sub_tasks;
    saved_task_files = s.task_files;
  },
)
