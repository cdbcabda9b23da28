-- ===== src/Files/Mover.antt =====
-- `FileMoveService` of src/kernel/src/services/file/mover.rs over the registrations of
-- src/co/src/infrastructure/repositories/redis_repository/move_registration.rs. A key names the user,
-- the move and the file, none of which has a `_` or a wildcard in it. The end of a lease is not
-- modelled. `accepts` says which upload commands the message queue takes.
pub mod Registrations
pub mod Flash
use kuintessence.Prelude.{
  ℕ, String, Bool, true, false, Option, none, some, List, [], ◌∷◌, ◌++◌, map, ok, err, ok_or, ◌==◌,
  ◌&&◌, not, find, any, keep, if◌then◌else◌,
}
use mathlib.Core.Option
use kuintessence.Workflow.Common.{Uuid}
use kuintessence.Workflow.Exec.{pure, bail, lift, gets, modify, for_each, ◌>>=◌, ◌>>◌}
use kuintessence.Files.Multipart
use kuintessence.Files.Server.{
  MoveRegistration, MoveDestination, storage_server, Registered, Snapshot, FileUploadCommand,
  RecordNetDisk, CreateNetDiskFileCommand, Server, Act, display, flash_upload, no_user,
  no_such_move, service_failed, on_disk, draw,
}
use kuintessence.Files.Snapshots
use kuintessence.Files.Tables
use kuintessence.Files.Tables.{user_or_session}
use kuintessence.Files.NetDisk
use kuintessence.Files.NetDisk.{Request}

abbrev pub is_of : Uuid → Registered → Bool
is_of meta_id x = x.info.meta_id == meta_id

abbrev pub is_move : Uuid → Registered → Bool
is_move move_id x = x.info.id == move_id

-- `get_all_by_key_regex` with `meta_id_key_regex`.
unfoldable pub get_all_of_meta : Uuid → Act (List MoveRegistration)
get_all_of_meta meta_id = gets λ s. map (λ x. x.info) (keep (is_of meta_id) s.moves)

-- `get_one_by_key_regex` and `get_user_by_key_regex` with `move_id_key_regex`.
unfoldable pub get_move_info : Uuid → Act (Option MoveRegistration)
get_move_info move_id = gets λ s. Option.map (λ x. x.info) (find (is_move move_id) s.moves)

unfoldable pub get_user_id : Uuid → Act (Option Uuid)
get_user_id move_id = gets λ s. Option.map (λ x. x.owner) (find (is_move move_id) s.moves)

-- `remove_all_by_key_regex` with `meta_id_key_regex`: `DEL` with no key is an error.
unfoldable pub remove_all_with_meta_id : Uuid → Act (Unit {0})
remove_all_with_meta_id meta_id s =
    if any (is_of meta_id) s.moves
    then (ok tt, record s { moves = keep (λ x. not (is_of meta_id x)) s.moves })
    else (err service_failed, s)

-- `update_with_lease`: the first key of the move and the file gets the value.
update_first : MoveRegistration → List Registered → List Registered
update_first info [] = []
update_first info (x ∷ xs) =
    if is_move info.id x && is_of info.meta_id x
    then record x { info = info } ∷ xs
    else x ∷ update_first info xs

unfoldable pub update_move : MoveRegistration → Act (Unit {0})
unfolding update_first
update_move info s =
    if any (λ x. is_move info.id x && is_of info.meta_id x) s.moves
    then (ok tt, record s { moves = update_first info s.moves })
    else (err no_such_move, s)

abbrev pub failed : String → MoveRegistration → MoveRegistration
failed failed_reason info = record info {
  is_upload_failed = true;
  failed_reason = some failed_reason;
}

unfoldable pub set_all_moves_with_same_meta_id_as_failed : Uuid → String → Act (Unit {0})
unfolding get_all_of_meta update_move
set_all_moves_with_same_meta_id_as_failed meta_id failed_reason =
    get_all_of_meta meta_id >>= λ infos. for_each (map (failed failed_reason) infos) update_move

unfoldable pub set_move_as_failed : Uuid → String → Act (Unit {0})
unfolding get_move_info update_move
set_move_as_failed move_id failed_reason = get_move_info move_id >>= λ found.
    lift (ok_or no_such_move found) >>= λ info. update_move (failed failed_reason info)

unfoldable pub get_meta_id_failed_info : Uuid → Act (Bool × Option String)
unfolding get_all_of_meta
get_meta_id_failed_info meta_id = get_all_of_meta meta_id >>= λ all. elim all [
  | [] ↦ bail no_such_move
  | one ∷ rest ↦ pure (one.is_upload_failed, one.failed_reason)
]

-- The snapshot that a registration asks for, under the id of a file.
abbrev pub snapshot_of : MoveRegistration → Uuid → Uuid → Uuid → Uuid → ℕ → Uuid → Snapshot
snapshot_of info id meta_id user_id node_id timestamp file_id = record {
  id = id;
  meta_id = meta_id;
  node_id = node_id;
  file_id = file_id;
  timestamp = timestamp;
  file_name = info.file_name;
  size = info.size;
  hash = info.hash;
  hash_algorithm = info.hash_algorithm;
  user_id = user_id;
}

module _ (q : Request) where
  unfoldable pub register_move : MoveRegistration → Act (Unit {0})
  register_move info =
      lift (ok_or no_user (user_or_session q.session_user info.user_id)) >>= λ owner. modify λ s.
        record s {
          moves =
              record { owner = owner; info = info }
              ∷ keep (λ x. not (x.owner == owner && is_move info.id x && is_of info.meta_id x))
                  s.moves;
        }

module _ (q : Request) (accepts : FileUploadCommand → Bool) where
  unfoldable pub send_upload : FileUploadCommand → Act (Unit {0})
  send_upload command s =
      if accepts command
      then (ok tt, record s { uploads = s.uploads ++ command ∷ [] })
      else (err service_failed, s)

  -- The body of the loop of `do_registered_moves`.
  unfoldable pub carry_out : MoveRegistration → Act (Unit {0})
  unfolding draw Snapshots.create Multipart.remove remove_all_with_meta_id get_user_id send_upload
  carry_out info = elim info.destination [
    | MoveDestination.snapshot node_id timestamp file_id ↦ do
      n ← draw
      user_id ← lift (ok_or no_user info.user_id)
      Snapshots.create (snapshot_of info (q.fresh n) info.meta_id user_id node_id timestamp file_id)
      on_disk (Multipart.remove info.meta_id)
      remove_all_with_meta_id info.meta_id
    | storage_server record_net_disk ↦ do
      found ← get_user_id info.id
      user_id ← lift (ok_or no_such_move found)
      send_upload (record { move_id = info.id; user_id = user_id })
  ]

  unfoldable pub do_registered_moves : Uuid → Act (Unit {0})
  unfolding get_all_of_meta carry_out
  do_registered_moves meta_id =
      get_all_of_meta meta_id >>= λ registrations. for_each registrations carry_out

module _ (q : Request) where
  -- `create_file` of a flash upload, where the registration asks for a record on the net disk.
  unfoldable pub record_on_disk : Option RecordNetDisk → Uuid → String → Act (Unit {0})
  unfolding NetDisk.create_file
  record_on_disk none meta_id file_name = pure tt
  record_on_disk (some el) meta_id file_name = NetDisk.create_file q (record {
    meta_id = meta_id;
    file_name = file_name;
    file_type = el.file_type;
    kind = el.kind;
  })

  unfoldable pub if_possible_do_flash_upload : MoveRegistration → Act (Unit {0})
  unfolding Snapshots.satisfy_flash_upload Snapshots.create_record draw Tables.satisfy_flash_upload
      record_on_disk
  if_possible_do_flash_upload info = elim info.destination [
    | MoveDestination.snapshot node_id timestamp file_id ↦
        Snapshots.satisfy_flash_upload info.hash >>= λ known. elim known [
          | none ↦ pure tt
          | some meta_id ↦ do
            n ← draw
            user_id ← lift (ok_or no_user info.user_id)
            Snapshots.create_record
                (snapshot_of info (q.fresh n) meta_id user_id node_id timestamp file_id)
            bail (flash_upload (display info.destination) info.hash info.meta_id meta_id)
        ]
    | storage_server record_net_disk ↦ Tables.satisfy_flash_upload info.hash >>= λ known.
        elim known [
          | none ↦ pure tt
          | some meta_id ↦ do
            record_on_disk record_net_disk meta_id info.file_name
            bail (flash_upload (display info.destination) info.hash info.meta_id meta_id)
        ]
  ]
