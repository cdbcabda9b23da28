-- ===== src/Files/Cache.antt =====
-- `LocalCacheService` of src/kernel/src/services/file/supports/cache.rs, and the commands of
-- src/kernel/src/service/file/supports/cache.rs. A directory of the disk is the list of its files;
-- the content of a file is the list of its bytes. A write never fails.
use kuintessence.Prelude.{
  ℕ, String, Bool, Option, none, some, List, ◌∷◌, ok, err, ok_or, ◌==◌, ◌&&◌, not, find, any, keep,
  if◌then◌else◌,
}
use mathlib.Core.Option
use kuintessence.Workflow.Common.{Uuid, HashMap}
use kuintessence.Workflow.Exec.{Exec}

abbrev pub Bytes : Type 0
Bytes = List ℕ

pub data HashAlgorithm : Type 0 where
  blake3 : HashAlgorithm

pub record Part : Type 0 where
  pub meta_id : Uuid
  pub content : Bytes
  pub nth : ℕ

pub record Multipart : Type 0 where
  pub meta_id : Uuid
  pub hash : String
  pub hash_algorithm : HashAlgorithm
  pub parts : List Bool

-- The three directories of the cache, and the multiparts that the database holds.
pub record Disk : Type 0 where
  pub normal : HashMap Uuid Bytes
  pub snapshot : HashMap Uuid Bytes
  pub multipart : List Part
  pub multiparts : List Multipart

pub data FileError : Type 0 where
  conflicted_id : (meta_id : Uuid) → FileError
  conflicted_hash : (meta_id : Uuid) (hash : String) → FileError
  multipart_not_found : (meta_id : Uuid) → FileError
  no_such_part : (meta_id : Uuid) (nth : ℕ) → FileError
  different_hashs : (meta_id : Uuid) (original completed : String) → FileError
  -- An error of the file system: the file or the directory is not there.
  not_found : FileError

abbrev pub Act : Type 0 → Type 0
Act A = Exec FileError Disk A

pub data CacheOperateCommand : Type 0 where
  write_normal : (meta_id : Uuid) (content : Bytes) → CacheOperateCommand
  write_part : Part → CacheOperateCommand
  remove_multipart_dir : (meta_id : Uuid) → CacheOperateCommand
  remove_normal : (meta_id : Uuid) → CacheOperateCommand
  change_normal_to_snapshot : (meta_id : Uuid) → CacheOperateCommand
  remove_snapshot : (meta_id : Uuid) → CacheOperateCommand
  is_snapshot_exists : (meta_id : Uuid) → CacheOperateCommand

pub data CacheReadCommand : Type 0 where
  read_normal read_snapshot : (meta_id : Uuid) → CacheReadCommand
  read_part : (meta_id : Uuid) (nth : ℕ) → CacheReadCommand

-- A file of a directory: lookup, `write` and `remove_file`.
abbrev pub lookup : Uuid → HashMap Uuid Bytes → Option Bytes
lookup id files = Option.map (λ e. e.1) (find (λ e. e.0 == id) files)

abbrev pub erase : Uuid → HashMap Uuid Bytes → HashMap Uuid Bytes
erase id = keep (λ e. not (e.0 == id))

abbrev pub write : Uuid → Bytes → HashMap Uuid Bytes → HashMap Uuid Bytes
write id content files = (id, content) ∷ erase id files

abbrev pub exists_in : Uuid → HashMap Uuid Bytes → Bool
exists_in id = any (λ e. e.0 == id)

-- The file of a part.
abbrev pub is_part : Uuid → ℕ → Part → Bool
is_part id nth p = p.meta_id == id && p.nth == nth

-- `create_parent_and_write` to the path of the part.
abbrev pub write_part_to : Part → List Part → List Part
write_part_to p ps = p ∷ keep (λ x. not (is_part p.meta_id p.nth x)) ps

-- `ICacheService::operate`
unfoldable pub operate : CacheOperateCommand → Act (Unit {0})
operate (write_normal id content) s = (ok tt, record s { normal = write id content s.normal })
operate (write_part part) s = (ok tt, record s { multipart = write_part_to part s.multipart })
operate (remove_multipart_dir id) s =
    if any (λ p. p.meta_id == id) s.multipart
    then (ok tt, record s { multipart = keep (λ p. not (p.meta_id == id)) s.multipart })
    else (err not_found, s)
operate (remove_normal id) s =
    if exists_in id s.normal
    then (ok tt, record s { normal = erase id s.normal })
    else (err not_found, s)
operate (change_normal_to_snapshot id) s = elim (lookup id s.normal) [
  | none ↦ (err not_found, s)
  | some content ↦
      (ok tt, record s { normal = erase id s.normal; snapshot = write id content s.snapshot })
]
operate (remove_snapshot id) s =
    if exists_in id s.snapshot
    then (ok tt, record s { snapshot = erase id s.snapshot })
    else (err not_found, s)
operate (is_snapshot_exists id) s = (if exists_in id s.snapshot then ok tt else err not_found, s)

-- `ICacheService::read`
unfoldable pub read : CacheReadCommand → Act Bytes
read (read_normal id) s = (ok_or not_found (lookup id s.normal), s)
read (read_snapshot id) s = (ok_or not_found (lookup id s.snapshot), s)
read (read_part id nth) s =
    (ok_or not_found (Option.map (λ p. p.content) (find (is_part id nth) s.multipart)), s)
