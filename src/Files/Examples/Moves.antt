-- ===== src/Files/Examples/Moves.antt =====
-- Tests and witnesses for snapshots, for the tables of files and for moves.
use kuintessence.Prelude.{
  ◌+◌, ◌≡◌, refl, Bool, true, false, none, some, String, List, [], ◌∷◌, ◌++◌, ok, err, map,
}
use kuintessence.Workflow.Common.{Uuid}
use kuintessence.Files.Cache.{Bytes, blake3}
use kuintessence.Files.Server.{
  text, folder, MoveRegistration, MoveDestination, storage_server, Registered, Snapshot, FileSystem,
  FileUploadCommand, Server, DirKind, flash_upload, RecordNetDiskKind,
}
use kuintessence.Files.Snapshots
use kuintessence.Files.Snapshots.{
  read_content, create, create_record, remove, insert_snapshot, satisfy_flash_upload, get_same_hash,
}
use kuintessence.Files.Snapshots.Kept.{
  created, flashed, removed, Reach, here, next, read_content-Reach,
}
use kuintessence.Files.Cache.{operate}
use kuintessence.Files.Tables
use kuintessence.Files.Tables.{
  RecordFileMeta, RecordFileStorage, get_server_url, record_meta_and_storage,
}
use kuintessence.Files.Tables.Recorded.{record_meta_and_storage-flash}
use kuintessence.Files.Directories.{no_meta, node_instance_dir}
use kuintessence.Files.NetDisk.{NodeOfFlow, Request, create_file}
use kuintessence.Files.NetDisk.Stored.{create_file-node_instance, with_dir, file_row}
use kuintessence.Files.Mover.{do_registered_moves, if_possible_do_flash_upload}
use kuintessence.Files.Mover.Registrations.{
  command_of, do_registered_moves-storage, do_registered_moves-lost, FailsAfter,
}
use kuintessence.Files.Mover.Flash.{flash_upload-read}

abbrev hash_of : Bytes → String
hash_of bytes = "H"

abbrev request : Request
request = record {
  session_user = some 7;
  uuid_text = λ id. "ab-cd";
  suffix = "now";
  fresh = λ n. 1000 + n;
  find_node = λ id.
      some (record { flow_instance_id = 30; node_name = "node"; flow_name = "flow"; user_id = 7 });
  find_draft = λ id. none;
}

-- File 1 has arrived.
abbrev server : List Registered → Server
server moves = record {
  disk = record {
    normal = (1, 5 ∷ []) ∷ [];
    snapshot = [];
    multipart = [];
    multiparts =
        record { meta_id = 1; hash = "H"; hash_algorithm = blake3; parts = true ∷ [] } ∷ [];
  };
  snapshots = [];
  moves = moves;
  files = [];
  metas = [];
  storages = [];
  statements = [];
  can_drop = true;
  uploads = [];
  next = 0;
}

abbrev shot : Uuid → Uuid → Snapshot
shot id meta_id = record {
  id = id;
  meta_id = meta_id;
  node_id = 3;
  file_id = 4;
  timestamp = 9;
  file_name = "f";
  size = 1;
  hash = "H";
  hash_algorithm = blake3;
  user_id = 7;
}

abbrev s0 : Server
s0 = server []

abbrev s1 : Server
s1 = (create (shot 10 1) s0).1

abbrev s2 : Server
s2 = (create_record (shot 11 1) s1).1

history : Reach hash_of s0 (remove 10 s2).1
unfolding create operate insert_snapshot satisfy_flash_upload get_same_hash
history =
    next
      (next (next here (created (shot 10 1) refl (λ bytes there. refl))) (flashed (shot 11 1) refl))
      (removed 10)

read_content-Reach_example :
    (bytes : Bytes) × (read_content 11 (remove 10 s2).1 ≡ (ok bytes, (remove 10 s2).1))
    × (hash_of bytes ≡ "H")
unfolding create create_record remove operate insert_snapshot Snapshots.delete_snapshot
    get_same_hash Snapshots.get_snapshot
read_content-Reach_example =
    read_content-Reach hash_of 11 (shot 11 1) s0 (remove 10 s2).1 tt history refl

abbrev meta_info : RecordFileMeta
meta_info = record { name = "f"; hash = "H"; hash_algorithm = blake3; size = 1 }

abbrev storage_info : RecordFileStorage
storage_info = record { storage_server_id = 2; server_url = "u" }

record_meta_and_storage-flash_example :
    (s' : Server) × (record_meta_and_storage (some 7) 1 meta_info storage_info none s0
      ≡ (ok tt, s'))
    × (Tables.satisfy_flash_upload "H" s' ≡ (ok (some 1), s'))
    × (get_server_url 2 1 s' ≡ (ok "u", s'))
record_meta_and_storage-flash_example =
    record_meta_and_storage-flash (some 7) 1 meta_info storage_info none 7 s0 refl refl refl refl
      refl

-- The directory of the workflow of a node.
abbrev flow_row : FileSystem
flow_row = record {
  entity = record {
    id = 30;
    parent_id = some 9;
    name = "flow_ab";
    is_dict = true;
    kind = folder;
    file_metadata_id = none;
    meta =
        some (record no_meta { flow_instance_id = some 30; dir_kind = some DirKind.flow_instance });
    user_id = some 7;
  };
  owner_id = 7;
}

abbrev node_info : NodeOfFlow
node_info = record { flow_instance_id = 30; node_name = "node"; flow_name = "flow"; user_id = 7 }

abbrev s3 : Server
s3 = record s0 {
  files = flow_row ∷ [];
  metas = record { id = 1; name = "f"; hash = "H"; hash_algorithm = blake3; size = 1 } ∷ [];
}

create_file-node_instance_example :
    create_file request
      (record {
        meta_id = 1;
        file_name = "f";
        file_type = text;
        kind = RecordNetDiskKind.node_instance 40;
      })
      s3
    ≡ (
      ok tt,
      record s3 {
        files =
            with_dir request 40 node_info flow_row s3
            ++ file_row request 40 node_info flow_row s3 1 "f" text ∷ [];
        statements = [];
        can_drop = true;
        next = 1;
      },
    )
unfolding node_instance_dir
create_file-node_instance_example =
    create_file-node_instance request 40 node_info flow_row s3 refl refl refl 1 "f" text refl refl
      refl

abbrev registration : Uuid → MoveDestination → MoveRegistration
registration id destination = record {
  id = id;
  meta_id = 1;
  file_name = "f";
  hash = "H";
  hash_algorithm = blake3;
  size = 1;
  destination = destination;
  is_upload_failed = false;
  failed_reason = none;
  user_id = some 7;
}

abbrev registered : Uuid → MoveDestination → Registered
registered id destination = record { owner = 7; info = registration id destination }

abbrev to_storage : Uuid → Registered
to_storage id = registered id (storage_server none)

abbrev to_snapshot : Uuid → Registered
to_snapshot id = registered id (MoveDestination.snapshot 3 9 4)

abbrev accept_all : FileUploadCommand → Bool
accept_all command = true

abbrev s4 : Server
s4 = server (to_storage 20 ∷ to_storage 21 ∷ [])

do_registered_moves-storage_example :
    do_registered_moves request accept_all 1 s4
    ≡ (ok tt, record s4 { uploads = map command_of (to_storage 20 ∷ to_storage 21 ∷ []) })
do_registered_moves-storage_example =
    do_registered_moves-storage request accept_all 1 s4 (refl, (refl, tt)) (refl, (refl, tt))
      (refl, (refl, tt))

abbrev s5 : Server
s5 = server (to_snapshot 20 ∷ to_storage 21 ∷ [])

do_registered_moves-lost_example :
    FailsAfter request accept_all
      (registration 20 (MoveDestination.snapshot 3 9 4))
      3
      9
      4
      7
      s5
      refl
      (do_registered_moves request accept_all 1 s5)
do_registered_moves-lost_example =
    do_registered_moves-lost request accept_all (registration 20 (MoveDestination.snapshot 3 9 4)) 3
      9 4 7 s5 refl (to_snapshot 20) (to_storage 21) [] (5 ∷ [])
      (record { meta_id = 1; hash = "H"; hash_algorithm = blake3; parts = true ∷ [] }) refl refl
      refl refl refl refl

flash_upload-read_example :
    (bytes : Bytes) × (t : Server) × (if_possible_do_flash_upload request
        (registration 22 (MoveDestination.snapshot 3 9 4))
        s1
      ≡ (err (flash_upload "Snapshot" "H" 1 1), t))
    × (read_content 1000 t ≡ (ok bytes, t))
    × (hash_of bytes ≡ "H")
    × (t.disk ≡ s1.disk)
unfolding create operate insert_snapshot
flash_upload-read_example =
    flash_upload-read hash_of request (registration 22 (MoveDestination.snapshot 3 9 4)) (shot 10 1)
      3 9 4 7 s1 refl refl refl ((5 ∷ [], refl, refl), tt)
