-- ===== src/Files/Directories.antt =====
-- The directories of the net disk: the constructors of src/kernel/src/models/file/net_disk.rs, and
-- the repository of
-- src/co/src/infrastructure/repositories/sea_orm_db_repository/net_disk.rs. `uuid_text` is the text
-- of a Uuid.
use Prim.Native.Char.{code}
use Prim.Native.String
use kuintessence.Prelude.{
  ℕ, ◌+◌, ◌%◌, ◌^◌, String, Bool, true, false, Option, none, some, ok_or, ◌==◌, ◌&&◌, not, str_eq,
  find, any, is_some, if◌then◌else◌,
}
use mathlib.Core.Option
use kuintessence.Workflow.Common.{Uuid}
use kuintessence.Workflow.Exec.{pure, lift, gets, ◌>>=◌}
use kuintessence.Files.Server.{
  DirKind, folder, NetDiskMeta, NetDisk, FileSystem, insert_or_nothing, insert_file, Act, no_user,
}
use kuintessence.Files.Tables.{file_id, push, user_or_session}

-- `text.split('-').next().unwrap()`
first_segment : String → String
first_segment String.[] = ""
first_segment (String.◌∷◌ c cs) = if code c == b'-' then "" else String.◌∷◌ c (first_segment cs)

abbrev pub no_meta : NetDiskMeta
no_meta = record {
  flow_draft_id = none;
  flow_instance_id = none;
  node_instance_id = none;
  dir_kind = none;
}

-- What the constructors of directories share.
abbrev pub dir : Uuid → Uuid → String → NetDiskMeta → Option Uuid → NetDisk
dir id parent_id name meta user_id = record {
  id = id;
  parent_id = some parent_id;
  name = name;
  is_dict = true;
  kind = folder;
  file_metadata_id = none;
  meta = some meta;
  user_id = user_id;
}

unfoldable pub flow_draft_root : Uuid → NetDisk
flow_draft_root root_id =
    dir 0 root_id "来自工作流草稿" (record no_meta { dir_kind = some DirKind.flow_draft }) none

unfoldable pub flow_instance_root : Uuid → Option Uuid → NetDisk
flow_instance_root root_id user_id =
    dir 0 root_id "来自工作流实例" (record no_meta { dir_kind = some DirKind.flow_instance }) user_id

module _ (uuid_text : Uuid → String) where
  -- `format!("{name}_{}", id.to_string().split('-').next().unwrap())`
  unfoldable pub named : String → Uuid → String
  unfolding first_segment
  named name id = String.◌++◌ name (String.◌++◌ "_" (first_segment (uuid_text id)))

  unfoldable pub flow_draft_dir : Uuid → Uuid → String → NetDisk
  unfolding named
  flow_draft_dir draft_root_id draft_id draft_name =
      dir draft_id draft_root_id (named draft_name draft_id)
        (record no_meta { flow_draft_id = some draft_id; dir_kind = some DirKind.flow_draft }) none

  unfoldable pub flow_instance_dir : Uuid → Uuid → String → Option Uuid → NetDisk
  unfolding named
  flow_instance_dir instance_root_id instance_id instance_name user_id =
      dir instance_id instance_root_id (named instance_name instance_id)
        (record no_meta {
          flow_instance_id = some instance_id;
          dir_kind = some DirKind.flow_instance;
        })
        user_id

  unfoldable pub node_instance_dir : Uuid → Uuid → Uuid → String → Option Uuid → NetDisk
  unfolding named
  node_instance_dir flow_instance_dir_id flow_id instance_id instance_name user_id =
      dir instance_id flow_instance_dir_id (named instance_name instance_id)
        (record no_meta {
          flow_instance_id = some flow_id;
          node_instance_id = some instance_id;
          dir_kind = some DirKind.flow_instance;
        })
        user_id

-- The tests of the `WHERE` clauses on the JSON of `meta`.
abbrev pub has_id : Uuid → Option Uuid → Bool
has_id id none = false
has_id id (some x) = x == id

abbrev pub meta_test : (NetDiskMeta → Bool) → FileSystem → Bool
meta_test p r = elim r.entity.meta [ none ↦ false | some m ↦ p m ]

abbrev pub is_draft : Option DirKind → Bool
is_draft (some DirKind.flow_draft) = true
is_draft _ = false

abbrev pub is_flow : Option DirKind → Bool
is_flow (some DirKind.flow_instance) = true
is_flow _ = false

abbrev pub is_node : Option DirKind → Bool
is_node (some DirKind.node_instance) = true
is_node _ = false

abbrev pub first_id : (FileSystem → Bool) → Act (Option Uuid)
first_id p = gets λ s. Option.map file_id (find p s.files)

-- `get_node_instance_dir_id`
unfoldable pub get_node_instance_dir_id : Uuid → Act (Option Uuid)
get_node_instance_dir_id node_instance =
    first_id (meta_test λ m. is_node m.dir_kind && has_id node_instance m.node_instance_id)

-- `get_flow_instance_dir_id`
unfoldable pub get_flow_instance_dir_id : Uuid → Act (Option Uuid)
get_flow_instance_dir_id flow_instance =
    first_id (meta_test λ m. is_flow m.dir_kind && has_id flow_instance m.flow_instance_id)

-- A Uuid is a number of 128 bits.
abbrev pub uuid_add : Uuid → ℕ → Uuid
uuid_add id n = (id + n) % 2 ^ 128

-- The id of an entity that is inserted: the two roots get theirs from the user.
unfoldable pub placed : Uuid → NetDisk → NetDisk
placed user_id e = elim e.meta [
  | none ↦ e
  | some m ↦
      if is_draft m.dir_kind && not (is_some m.flow_draft_id)
      then record e { id = uuid_add user_id 1 }
      else if is_flow m.dir_kind && not (is_some m.flow_instance_id)
      then record e { id = uuid_add user_id 2 }
      else e
]

module _ (session_user : Option Uuid) where
  abbrev pub user : Option Uuid → Act Uuid
  user user_id = lift (ok_or no_user (user_or_session session_user user_id))

  -- `IMutableRepository<NetDisk>::insert`
  unfoldable pub insert : NetDisk → Act NetDisk
  unfolding placed push
  insert entity = user entity.user_id >>= λ user_id.
      push (insert_or_nothing (record { entity = placed user_id entity; owner_id = user_id }))
      >>= λ _. pure (placed user_id entity)

  unfoldable pub get_flow_draft_dir_id : Uuid → Act (Option Uuid)
  get_flow_draft_dir_id flow_draft_id = user none >>= λ user_id. first_id λ r.
      meta_test (λ m. is_draft m.dir_kind && has_id flow_draft_id m.flow_draft_id) r
      && r.owner_id == user_id

  unfoldable pub get_flow_draft_root_id : Act (Option Uuid)
  get_flow_draft_root_id = user none >>= λ user_id. first_id λ r.
      meta_test (λ m. is_draft m.dir_kind && not (is_some m.flow_draft_id)) r
      && r.owner_id == user_id

  unfoldable pub get_flow_instance_root_id : Option Uuid → Act (Option Uuid)
  get_flow_instance_root_id user_id = user user_id >>= λ user_id. first_id λ r.
      meta_test (λ m. is_flow m.dir_kind && not (is_some m.flow_instance_id)) r
      && r.owner_id == user_id

  -- `INetDiskRepo::get_root_id`
  unfoldable pub get_user_root : Option Uuid → Act (Option Uuid)
  get_user_root user_id = user user_id >>= λ user_id. first_id λ r. file_id r == user_id

  unfoldable pub is_same_pid_fname_exists : Option Uuid → String → Option Uuid → Act Bool
  is_same_pid_fname_exists parent_id file_name user_id = user user_id >>= λ user_id.
      let parent = elim parent_id as (λ _. Uuid) [ none ↦ user_id | some p ↦ p ] in
      gets λ s.
        any
          (λ r.
            has_id parent r.entity.parent_id
            && str_eq r.entity.name file_name
            && r.owner_id == user_id)
          s.files

  -- `create_root`
  unfoldable pub create_root : (Uuid → String) → Act Uuid
  unfolding push
  create_root uuid_text = user none >>= λ user_id.
      push (
        insert_file (record {
          entity = record {
            id = user_id;
            parent_id = none;
            name = uuid_text user_id;
            is_dict = true;
            kind = folder;
            file_metadata_id = none;
            meta = none;
            user_id = none;
          };
          owner_id = user_id;
        }))
      >>= λ _. pure user_id
