-- ===== src/Files/Snapshots.antt =====
-- `SnapshotService` of src/kernel/src/services/file/supports/snapshot.rs over the records of
-- src/co/src/infrastructure/repositories/redis_repository/snapshot.rs. A key names the user, the id,
-- the node, the file, the time, the algorithm and the hash; none of these has a `_` or a wildcard
-- in it. There is one algorithm. The end of a lease is not modelled.
pub mod Kept
use kuintessence.Prelude.{
  String, Bool, true, Option, none, some, List, [], ◌∷◌, ok, err, ok_or, ◌==◌, ◌&&◌, not, str_eq,
  find, keep, if◌then◌else◌,
}
use mathlib.Core.Option
use kuintessence.Workflow.Common.{Uuid}
use kuintessence.Workflow.Exec.{pure, lift, gets, modify, ◌>>=◌, ◌>>◌}
use kuintessence.Files.Cache.{
  Bytes, change_normal_to_snapshot, remove_snapshot, read_snapshot, operate, read,
}
use kuintessence.Files.Server.{Snapshot, Server, Act, no_such_snapshot, on_disk}

-- Two records with one key.
abbrev pub same_key : Snapshot → Snapshot → Bool
same_key a b =
    a.user_id == b.user_id
    && a.id == b.id
    && a.node_id == b.node_id
    && a.file_id == b.file_id
    && a.timestamp == b.timestamp
    && str_eq a.hash b.hash

-- `insert_with_lease`: `PSETEX` replaces what the key had.
unfoldable pub insert_snapshot : Snapshot → Act (Unit {0})
insert_snapshot x s =
    (ok tt, record s { snapshots = x ∷ keep (λ y. not (same_key x y)) s.snapshots })

-- `get_one_by_key_regex` with `id_key_regex` and with `hash_key_regex`.
unfoldable pub get_snapshot : Uuid → Act (Option Snapshot)
get_snapshot id s = (ok (find (λ x. x.id == id) s.snapshots), s)

unfoldable pub get_same_hash : String → Act (Option Snapshot)
get_same_hash hash s = (ok (find (λ x. str_eq x.hash hash) s.snapshots), s)

delete_first : Uuid → List Snapshot → List Snapshot
delete_first id [] = []
delete_first id (x ∷ xs) = if x.id == id then xs else x ∷ delete_first id xs

-- `delete_by_key_regex` with `id_key_regex`.
unfoldable pub delete_snapshot : Uuid → Act Snapshot
unfolding get_snapshot delete_first
delete_snapshot id = get_snapshot id >>= λ found. lift (ok_or no_such_snapshot found) >>= λ x.
    modify (λ s. record s { snapshots = delete_first id s.snapshots }) >> pure x

unfoldable pub create : Snapshot → Act (Unit {0})
unfolding operate insert_snapshot
create snapshot =
    on_disk (operate (change_normal_to_snapshot snapshot.meta_id)) >> insert_snapshot snapshot

unfoldable pub create_record : Snapshot → Act (Unit {0})
unfolding insert_snapshot
create_record snapshot = insert_snapshot snapshot

unfoldable pub remove : Uuid → Act (Unit {0})
unfolding delete_snapshot get_same_hash operate
remove id = delete_snapshot id >>= λ deleted_record. get_same_hash deleted_record.hash >>= λ same.
    elim same [
      | none ↦ on_disk (operate (remove_snapshot deleted_record.meta_id))
      | some x ↦ pure tt
    ]

unfoldable pub read_content : Uuid → Act Bytes
unfolding get_snapshot read
read_content id = get_snapshot id >>= λ found.
    lift (ok_or no_such_snapshot found) >>= λ x. on_disk (read (read_snapshot x.meta_id))

unfoldable pub get_all_by_nid_and_fid : Uuid → Uuid → Act (List Snapshot)
get_all_by_nid_and_fid node_id file_id =
    gets λ s. keep (λ x. x.node_id == node_id && x.file_id == file_id) s.snapshots

unfoldable pub satisfy_flash_upload : String → Act (Option Uuid)
unfolding get_same_hash
satisfy_flash_upload hash = get_same_hash hash >>= λ found. pure (Option.map (λ x. x.meta_id) found)
