-- ===== src/Files/Server.antt =====
-- The data of the file services (src/kernel/src/models/file, src/kernel/src/service/file and
-- src/kernel/src/exceptions/file), and the state that they share: the cache on disk, the records in
-- Redis, the tables of the database with the statements that wait for `save_changed`, and the
-- upload commands that were sent.
use kuintessence.Prelude.{ℕ, suc, String, Bool, Option, List, Result, ok}
use kuintessence.Workflow.Common.{Uuid}
use kuintessence.Workflow.Exec.{Exec}
use kuintessence.Files.Cache
use kuintessence.Files.Cache.{Disk, HashAlgorithm, FileError}

pub data DirKind : Type 0 where
  flow_draft flow_instance node_instance : DirKind

pub data FileType : Type 0 where
  unknown text folder : FileType

pub record NetDiskMeta : Type 0 where
  pub flow_draft_id : Option Uuid
  pub flow_instance_id : Option Uuid
  pub node_instance_id : Option Uuid
  pub dir_kind : Option DirKind

pub record NetDisk : Type 0 where
  pub id : Uuid
  pub parent_id : Option Uuid
  pub name : String
  pub is_dict : Bool
  pub kind : FileType
  pub file_metadata_id : Option Uuid
  pub meta : Option NetDiskMeta
  pub user_id : Option Uuid

pub data RecordNetDiskKind : Type 0 where
  node_instance : (node_id : Uuid) → RecordNetDiskKind
  flow_draft : (flow_draft_id : Uuid) → RecordNetDiskKind
  normal : (parent_id : Option Uuid) → RecordNetDiskKind

pub record CreateNetDiskFileCommand : Type 0 where
  pub meta_id : Uuid
  pub file_name : String
  pub file_type : FileType
  pub kind : RecordNetDiskKind

pub record RecordNetDisk : Type 0 where
  pub file_type : FileType
  pub kind : RecordNetDiskKind

pub data MoveDestination : Type 0 where
  snapshot : (node_id : Uuid) (timestamp : ℕ) (file_id : Uuid) → MoveDestination
  storage_server : (record_net_disk : Option RecordNetDisk) → MoveDestination

-- `fmt::Display` of a destination.
abbrev pub display : MoveDestination → String
display (MoveDestination.snapshot node_id timestamp file_id) = "Snapshot"
display (storage_server record_net_disk) = "StorageServer"

pub record MoveRegistration : Type 0 where
  pub id : Uuid
  pub meta_id : Uuid
  pub file_name : String
  pub hash : String
  pub hash_algorithm : HashAlgorithm
  pub size : ℕ
  pub destination : MoveDestination
  pub is_upload_failed : Bool
  pub failed_reason : Option String
  pub user_id : Option Uuid

-- A value of Redis with the user at the front of its key.
pub record Registered : Type 0 where
  pub owner : Uuid
  pub info : MoveRegistration

pub record Snapshot : Type 0 where
  pub id : Uuid
  pub meta_id : Uuid
  pub node_id : Uuid
  pub file_id : Uuid
  pub timestamp : ℕ
  pub file_name : String
  pub size : ℕ
  pub hash : String
  pub hash_algorithm : HashAlgorithm
  pub user_id : Uuid

pub record FileMeta : Type 0 where
  pub id : Uuid
  pub name : String
  pub hash : String
  pub hash_algorithm : HashAlgorithm
  pub size : ℕ

-- The copy of a file on a storage server, with the user that the row names.
pub record FileStorage : Type 0 where
  pub storage_server_id : Uuid
  pub meta_id : Uuid
  pub server_url : String
  pub created_user_id : Uuid

pub record FileUploadCommand : Type 0 where
  pub move_id : Uuid
  pub user_id : Uuid

-- A row of `file_system`: the entity, and its owner.
pub record FileSystem : Type 0 where
  pub entity : NetDisk
  pub owner_id : Uuid

pub data Statement : Type 0 where
  -- With `ON CONFLICT (id) DO NOTHING`.
  insert_or_nothing : FileSystem → Statement
  insert_file : FileSystem → Statement
  insert_meta : FileMeta → Statement
  insert_storage : FileStorage → Statement

pub data MoveError : Type 0 where
  file : FileError → MoveError
  flash_upload : (destination : String) (hash : String) (meta_id already_id : Uuid) → MoveError
  no_user no_such_move no_such_snapshot no_such_node no_such_record : MoveError
  -- An error of Redis, of the database or of the message queue.
  service_failed : MoveError

pub record Server : Type 0 where
  pub disk : Disk
  pub snapshots : List Snapshot
  pub moves : List Registered
  pub files : List FileSystem
  pub metas : List FileMeta
  pub storages : List FileStorage
  pub statements : List Statement
  pub can_drop : Bool
  pub uploads : List FileUploadCommand
  pub next : ℕ

abbrev pub Act : Type 0 → Type 0
Act A = Exec MoveError Server A

abbrev pub from_file {ℓ} : {A : Type ℓ} → Result FileError A → Result MoveError A
from_file (ok a) = ok a
from_file (Result.err e) = Result.err (file e)
from_file Result.panic = Result.panic

-- A call of a service that works on the disk.
abbrev pub on_disk : {A : Type 0} → Cache.Act A → Act A
on_disk m s = let (r, disk) = m s.disk in (from_file r, record s { disk = disk })

-- The number of the next id that is drawn.
unfoldable pub draw : Act ℕ
draw s = (ok s.next, record s { next = suc s.next })
