-- ===== src/Agent/Scheduler/Cleanup.antt =====
-- Which tasks the clean-up leaves, and the counter at errors
-- (src/agent/service/src/task_scheduler.rs).
use kuintessence.Prelude.{
  ℕ, ◌+◌, ◌-◌, ◌%◌, Bool, true, false, ◌≡◌, refl, Option, none, List, [], ◌∷◌, ok, err, ◌==◌, ◌&&◌,
  ◌||◌, not, all, find, ltb, leb, arith, if◌then◌else◌,
}
use kuintessence.Workflow.Common.{Uuid}
use kuintessence.Workflow.Exec.{pure, for_each, gets, ◌>>=◌}
use kuintessence.Agent.Types.{Task, TaskDisplayType, is_completed, no_such_task}
use kuintessence.Agent.Repository.{Agent, get_sub_task, get_all_tasks}
use kuintessence.Agent.Scheduler.{
  SubTaskService, TaskReportService, u32_mod, count_down, delete_task, delete_all_completed_tasks,
  fail_sub_task, complete_sub_task,
}

-- The task is not completed, or its last update is at least two hours old.
abbrev pub is_old_or_open : ℕ → Task → Bool
is_old_or_open now t = not (is_completed t.status) || leb (t.update_time + 7200) now

module _ (services : TaskDisplayType → Option SubTaskService) (report : TaskReportService)
    (max_tasks_count : ℕ) where
  nothing-deleted :
      (ts : List Task) (s : Agent)
      → all (is_old_or_open s.now) ts ≡ true
      → (for_each ts λ (task : Task). gets (λ s. s.now) >>= λ now.
            if is_completed task.status && ltb now (task.update_time + 7200)
            then delete_task services report max_tasks_count task.id true
            else pure tt)
          s
        ≡ (ok tt, s)
  nothing-deleted [] s h = refl
  nothing-deleted (t ∷ ts) s h =
      let kept : (is_completed t.status && ltb s.now (t.update_time + 7200)) ≡ false =
        ground arith in
      rw kept (nothing-deleted ts s (ground arith))

  -- Where every task is open or was updated at least two hours ago, the clean-up of completed tasks
  -- deletes nothing: it never deletes a task that completed long ago.
  pub delete_all_completed_tasks-old :
      (s : Agent)
      → all (is_old_or_open s.now) s.tasks ≡ true
      → delete_all_completed_tasks services report max_tasks_count s ≡ (ok tt, s)
  unfolding delete_all_completed_tasks get_all_tasks
  delete_all_completed_tasks-old s h = nothing-deleted s.tasks s h

  -- The completion of a sub task that is not there is an error that changes nothing; its failure is
  -- the same error, but it lowers the counter of running tasks, which wraps to 2^32 - 1 at 0.
  pub fail_sub_task-missing :
      (id : Uuid) (s : Agent)
      → find (λ x. x.id == id) s.sub_tasks ≡ none
      → (complete_sub_task services report max_tasks_count id s ≡ (err no_such_task, s))
        × (fail_sub_task services report max_tasks_count id s ≡ (
          err no_such_task,
          record s {
            tasks_count =
                if s.tasks_count % u32_mod == 0 then u32_mod - 1 else s.tasks_count % u32_mod - 1;
          },
        ))
  unfolding complete_sub_task fail_sub_task get_sub_task count_down
  fail_sub_task-missing id s missing =
      let wrapped : (s.tasks_count + (u32_mod - 1)) % u32_mod
          ≡ (if s.tasks_count % u32_mod == 0 then u32_mod - 1 else s.tasks_count % u32_mod - 1) =
        ground arith in
      (rw missing refl, rw (missing, wrapped) refl)
