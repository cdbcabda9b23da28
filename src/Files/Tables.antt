-- ===== src/Files/Tables.antt =====
-- The tables `file_metadata`, `file_storage` and `file_system` behind the shared repository of
-- src/co/src/infrastructure/repositories/sea_orm_db_repository (file_meta.rs, file_storage.rs and
-- the statements of mod.rs), and `MetaStorageService` of
-- src/kernel/src/services/file/supports/meta_storage.rs over it. The keys and the foreign keys are
-- those of the entities in src/database/model/src/system; the foreign key to the storage servers
-- always holds. A row gets a key of its own.
pub mod Recorded
use kuintessence.Prelude.{
  ℕ, String, Bool, true, false, Option, none, some, List, [], ◌∷◌, ◌++◌, Result, ok, err, ok_or,
  ◌==◌, ◌&&◌, str_eq, find, any, if◌then◌else◌,
}
use mathlib.Core.Option
use kuintessence.Workflow.Common.{Uuid}
use kuintessence.Workflow.Exec.{pure, lift, gets, ◌>>=◌, ◌>>◌}
use kuintessence.Files.Cache.{HashAlgorithm}
use kuintessence.Files.Server.{
  FileMeta, FileStorage, FileSystem, Statement, insert_or_nothing, insert_file, insert_meta,
  insert_storage, Server, Act, MoveError, no_user, no_such_record, service_failed,
}

-- A foreign key: none, or the key of a row.
abbrev pub refers {ℓ} : {A : Type ℓ} → (A → Uuid) → Option Uuid → List A → Bool
refers key none rows = true
refers key (some id) rows = any (λ r. key r == id) rows

abbrev pub file_id : FileSystem → Uuid
file_id r = r.entity.id

abbrev pub has_file : Uuid → Server → Bool
has_file id s = any (λ r. file_id r == id) s.files

-- The foreign keys of a row of `file_system`.
abbrev pub may_stand : FileSystem → Server → Bool
may_stand r s =
    refers file_id r.entity.parent_id s.files
    && refers (λ (m : FileMeta). m.id) r.entity.file_metadata_id s.metas

-- One statement of the transaction.
unfoldable pub execute : Statement → Server → Option Server
execute (insert_or_nothing r) s =
    if has_file r.entity.id s
    then some s
    else if may_stand r s
    then some (record s { files = s.files ++ r ∷ [] })
    else none
execute (insert_file r) s =
    if has_file r.entity.id s
    then none
    else if may_stand r s
    then some (record s { files = s.files ++ r ∷ [] })
    else none
execute (insert_meta m) s =
    if any (λ (x : FileMeta). x.id == m.id) s.metas
    then none
    else some (record s { metas = s.metas ++ m ∷ [] })
execute (insert_storage t) s =
    if any (λ x. x.meta_id == t.meta_id && x.storage_server_id == t.storage_server_id) s.storages
    then none
    else if any (λ (m : FileMeta). m.id == t.meta_id) s.metas
    then some (record s { storages = s.storages ++ t ∷ [] })
    else none

unfoldable pub execute_all : List Statement → Server → Option Server
unfolding execute
execute_all [] s = some s
execute_all (stmt ∷ stmts) s = elim (execute stmt s) [
  | none ↦ none
  | some s' ↦ execute_all stmts s'
]

-- The end of `save_changed`: commit, or roll back and fail.
unfoldable pub finish : Server → Option Server → Result MoveError Bool × Server
finish s none = (err service_failed, record s { statements = []; can_drop = true })
finish s (some s') = (ok true, record s' { statements = []; can_drop = true })

unfoldable pub save_changed : Act Bool
unfolding execute_all finish
save_changed s = if s.can_drop then (ok false, s) else finish s (execute_all s.statements s)

unfoldable pub push : Statement → Act (Unit {0})
push stmt s = (ok tt, record s { statements = s.statements ++ stmt ∷ []; can_drop = false })

-- `get_by_hash_and_algorithm`, for the one algorithm there is.
unfoldable pub get_meta_by_hash : String → Act (Option FileMeta)
get_meta_by_hash hash = gets λ s. find (λ m. str_eq m.hash hash) s.metas

-- `get_by_storage_server_id_and_meta_id`
unfoldable pub get_server_url : Uuid → Uuid → Act String
get_server_url storage_server_id meta_id =
    gets
      (λ s. find (λ x. x.storage_server_id == storage_server_id && x.meta_id == meta_id) s.storages)
    >>= λ found. lift (ok_or no_such_record (Option.map (λ x. x.server_url) found))

-- `MetaStorageService::satisfy_flash_upload`
unfoldable pub satisfy_flash_upload : String → Act (Option Uuid)
unfolding get_meta_by_hash
satisfy_flash_upload hash = get_meta_by_hash hash >>= λ found. pure (Option.map (λ m. m.id) found)

-- `RecordFileMeta` and `RecordFileStorage` of src/kernel/src/service/file/supports/meta_storage_record.rs.
pub record RecordFileMeta : Type 0 where
  pub name : String
  pub hash : String
  pub hash_algorithm : HashAlgorithm
  pub size : ℕ

pub record RecordFileStorage : Type 0 where
  pub storage_server_id : Uuid
  pub server_url : String

module _ (session_user : Option Uuid) where
  -- `SeaOrmDbRepository::user_id`
  abbrev pub user_or_session : Option Uuid → Option Uuid
  user_or_session none = session_user
  user_or_session (some id) = some id

  -- The two inserts of a row of `file_storage`: the user of the session, or the one that is given.
  unfoldable pub insert_storage_of : Option Uuid → RecordFileStorage → Uuid → Act (Unit {0})
  unfolding push
  insert_storage_of user_id t meta_id =
      lift (ok_or no_user (user_or_session user_id)) >>= λ created_user_id. push (
        insert_storage (record {
          storage_server_id = t.storage_server_id;
          meta_id = meta_id;
          server_url = t.server_url;
          created_user_id = created_user_id;
        }))

  unfoldable pub record_meta_and_storage :
      Uuid → RecordFileMeta → RecordFileStorage → Option Uuid → Act (Unit {0})
  unfolding push insert_storage_of save_changed
  record_meta_and_storage meta_id m t user_id = do
    push (
        insert_meta (record {
          id = meta_id;
          name = m.name;
          hash = m.hash;
          hash_algorithm = m.hash_algorithm;
          size = m.size;
        }))
    insert_storage_of user_id t meta_id
    save_changed
    pure tt
