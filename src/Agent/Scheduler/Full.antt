-- ===== src/Agent/Scheduler/Full.antt =====
-- A full agent (src/agent/service/src/task_scheduler.rs).
use kuintessence.Prelude.{
  ℕ, Bool, true, false, ◌≡◌, refl, Option, none, some, List, [], ◌∷◌, ◌++◌, ok, ◌==◌, ◌&&◌, find,
  any, keep, arith,
}
use kuintessence.Workflow.Common.{Uuid}
use kuintessence.Agent.Types.{Task, SubTask, TaskStatus, TaskDisplayType, is_queuing}
use kuintessence.Agent.Repository.{Agent, remove_first, get_task, update_task, save_changed}
use kuintessence.Agent.Scheduler.{
  SubTaskService, TaskReportService, is_busy, is_startable, take_task, start_if_room,
  schedule_next_task_by_id,
}

-- The sub tasks of a task.
abbrev pub body_of : Uuid → Agent → List SubTask
body_of id s = keep (λ (x : SubTask). x.parent_id == id) s.sub_tasks

-- The task as it is stored when it is taken from the queue.
abbrev pub taken : Uuid → Task → Agent → Task
taken id task s = record task {
  status = TaskStatus.running;
  body = body_of id s;
  update_time = s.now;
}

abbrev pub tasks_after : Uuid → Task → Agent → List Task
tasks_after id task s = remove_first (λ x. x.id == id) s.tasks ++ taken id task s ∷ []

-- The agent after that, saved.
abbrev pub after_taking : Uuid → Task → Agent → Agent
after_taking id task s = record s {
  tasks = tasks_after id task s;
  saved_tasks = tasks_after id task s;
  saved_sub_tasks = s.sub_tasks;
  saved_task_files = s.task_files;
}

any-found : {A : Type 0} (p : A → Bool) (xs : List A) (a : A) → find p xs ≡ some a → any p xs ≡ true
any-found p [] a h = ground arith
any-found p (x ∷ xs) a h = ground (arith, any-found p xs a)

not-queuing :
    (id : Uuid) (t : Task) (ts : List Task)
    → any (λ x. x.id == id) ts ≡ false
    → is_queuing t.status ≡ false
    → find (λ x. x.id == id && is_queuing x.status) (ts ++ t ∷ []) ≡ none
not-queuing id t [] h q = ground arith
not-queuing id t (x ∷ xs) h q = ground (arith, not-queuing id t xs)

module _ (services : TaskDisplayType → Option SubTaskService) (report : TaskReportService)
    (max_tasks_count : ℕ) where
  -- The agent has a limit and has reached it, and a task waits in the queue, the only one with its
  -- id, with a sub task to start and none that runs. If the report of the start changes nothing,
  -- then scheduling the task succeeds and starts nothing, but the task is saved as running: no task
  -- with its id is in the queue any more.
  pub schedule_next_task_by_id-full :
      (task : Task) (sub_task : SubTask) (s : Agent)
      → (max_tasks_count == 0) ≡ false
      → (s.tasks_count == max_tasks_count) ≡ true
      → find (λ x. x.id == task.id) s.tasks ≡ some task
      → any (λ x. x.id == task.id) (remove_first (λ x. x.id == task.id) s.tasks) ≡ false
      → is_queuing task.status ≡ true
      → any is_busy (body_of task.id s) ≡ false
      → find is_startable (body_of task.id s) ≡ some sub_task
      → report.report_started_task task.id (after_taking task.id task s)
        ≡ (ok tt, after_taking task.id task s)
      → (schedule_next_task_by_id services report max_tasks_count task.id s
          ≡ (ok tt, after_taking task.id task s))
        × (find (λ x. x.id == task.id && is_queuing x.status) (tasks_after task.id task s) ≡ none)
  unfolding schedule_next_task_by_id get_task take_task start_if_room update_task save_changed
  schedule_next_task_by_id-full task sub_task s limit full found once waits idle next told =
      let there : any (λ x. x.id == task.id) s.tasks ≡ true = any-found _ s.tasks task found in
      (
        rw (found, waits, there, told, idle, next, limit, full) refl,
        not-queuing task.id (taken task.id task s) (remove_first (λ x. x.id == task.id) s.tasks)
            once refl,
      )
