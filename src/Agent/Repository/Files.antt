-- ===== src/Agent/Repository/Files.antt =====
-- The files of sub tasks, and the removal of a sub task, in
-- src/agent/app/src/infrastructure/repository.rs.
use kuintessence.Prelude.{
  Bool, true, false, List, [], ◌∷◌, ◌++◌, ◌==◌, find, keep, any, ok, err, ok_or, if◌then◌else◌,
}
use kuintessence.Workflow.Common.{Uuid}
use kuintessence.Workflow.Exec.{◌>>=◌}
use kuintessence.Agent.Types.{File, FileType, FileStatus, no_such_file, no_such_id}
use kuintessence.Agent.Repository.{Act, remove_first}

abbrev pub is_input : File → Bool
is_input x = elim x.file_type [ FileType.input ↦ true | FileType.output ↦ false ]

abbrev pub is_output : File → Bool
is_output x = elim x.file_type [ FileType.input ↦ false | FileType.output ↦ true ]

abbrev pub is_both : File → Bool
is_both x = elim x.status [ FileStatus.both ↦ true | _ ↦ false ]

-- `IReadOnlyRepository<File>::get_by_id`
unfoldable pub get_file : Uuid → Act File
get_file id s = (ok_or no_such_file (find (λ x. x.id == id) s.task_files), s)

-- `IMutableRepository<File>::update`: the file goes to the end.
unfoldable pub update_file : File → Act (Unit {0})
update_file entity s =
    if any (λ x. x.id == entity.id) s.task_files
    then (
      ok tt,
      record s { task_files = remove_first (λ x. x.id == entity.id) s.task_files ++ entity ∷ [] },
    )
    else (err no_such_id, s)

unfoldable pub find_files_by_task : Uuid → Act (List File)
find_files_by_task id s = (ok (keep (λ x. x.related_task_body == id) s.task_files), s)

unfoldable pub update_task_file_status : Uuid → FileStatus → Act (Unit {0})
unfolding get_file update_file
update_task_file_status id status =
    get_file id >>= λ file. update_file (record file { status = status })

-- `IMutableRepository<SubTask>::delete_by_id`: the files stay.
unfoldable pub delete_sub_task_by_id : Uuid → Act (Unit {0})
delete_sub_task_by_id id s =
    if any (λ x. x.id == id) s.sub_tasks
    then (ok tt, record s { sub_tasks = remove_first (λ x. x.id == id) s.sub_tasks })
    else (err no_such_id, s)
