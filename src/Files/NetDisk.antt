-- ===== src/Files/NetDisk.antt =====
-- `NetDiskService` of src/kernel/src/services/file/supports/net_disk.rs. `suffix` is the text of the
-- present time and `fresh n` the n-th random Uuid; the repositories of drafts, node instances and
-- workflow instances are functions from ids.
pub mod Stored
use Prim.Native.String
use kuintessence.Prelude.{String, Bool, Option, none, some, ok_or, if◌then◌else◌, ℕ}
use kuintessence.Workflow.Common.{Uuid}
use kuintessence.Workflow.Exec.{pure, lift, gets, ◌>>=◌, ◌>>◌}
use kuintessence.Files.Server.{
  node_instance, flow_draft, FileType, NetDiskMeta, NetDisk, RecordNetDiskKind, normal,
  CreateNetDiskFileCommand, Act, no_such_node, draw,
}
use kuintessence.Files.Tables.{save_changed}
use kuintessence.Files.Directories.{
  no_meta, flow_draft_root, flow_instance_root, flow_draft_dir, flow_instance_dir,
  node_instance_dir, get_node_instance_dir_id, get_flow_instance_dir_id, insert,
  get_flow_draft_dir_id, get_flow_draft_root_id, get_flow_instance_root_id, get_user_root,
  is_same_pid_fname_exists, create_root,
}

-- What is read of a node instance and of its workflow.
pub record NodeOfFlow : Type 0 where
  pub flow_instance_id : Uuid
  pub node_name : String
  pub flow_name : String
  pub user_id : Uuid

-- What a request brings: its user, and what the other repositories and the system answer.
pub record Request : Type 0 where
  pub session_user : Option Uuid
  pub uuid_text : Uuid → String
  pub suffix : String
  pub fresh : ℕ → Uuid
  pub find_node : Uuid → Option NodeOfFlow
  pub find_draft : Uuid → Option String

module _ (q : Request) where
  -- An insert that is saved at once, and the id of what was inserted.
  unfoldable pub insert_saved : NetDisk → Act Uuid
  unfolding insert save_changed
  insert_saved e = insert q.session_user e >>= λ e. save_changed >> pure e.id

  unfoldable pub get_root_id : Option Uuid → Act Uuid
  unfolding get_user_root create_root save_changed
  get_root_id user_id = get_user_root q.session_user user_id >>= λ user_root. elim user_root [
    | some el ↦ pure el
    | none ↦ create_root q.session_user q.uuid_text >>= λ id. save_changed >> pure id
  ]

  unfoldable pub fix_file_name : Option Uuid → String → Option Uuid → Act String
  unfolding is_same_pid_fname_exists
  fix_file_name parent_id file_name user_id =
      is_same_pid_fname_exists q.session_user parent_id file_name user_id >>= λ taken.
      pure (if taken then String.◌++◌ file_name (String.◌++◌ "_" q.suffix) else file_name)

  unfoldable pub get_or_create_flow_draft_dir : Uuid → String → Act Uuid
  unfolding get_flow_draft_dir_id get_flow_draft_root_id get_root_id insert_saved
  get_or_create_flow_draft_dir flow_draft_id flow_name =
      get_flow_draft_dir_id q.session_user flow_draft_id >>= λ found. elim found [
        | some el ↦ pure el
        | none ↦ get_flow_draft_root_id q.session_user >>= λ root.
            (elim root [
              | some el ↦ pure el
              | none ↦ get_root_id none >>= λ root_id. insert_saved (flow_draft_root root_id)
            ])
            >>= λ flow_draft_root_dir_id.
                insert_saved
                  (flow_draft_dir q.uuid_text flow_draft_root_dir_id flow_draft_id flow_name)
      ]

  unfoldable pub get_or_create_flow_instance_dir : Uuid → String → Option Uuid → Act Uuid
  unfolding get_flow_instance_dir_id get_flow_instance_root_id get_root_id insert_saved
  get_or_create_flow_instance_dir flow_instance_id flow_name user_id =
      get_flow_instance_dir_id flow_instance_id >>= λ found. elim found [
        | some el ↦ pure el
        | none ↦ get_flow_instance_root_id q.session_user user_id >>= λ root.
            (elim root [
              | some el ↦ pure el
              | none ↦ get_root_id user_id >>= λ root_id.
                  insert_saved (flow_instance_root root_id user_id)
            ])
            >>= λ flow_instance_root_dir_id. insert_saved (
                flow_instance_dir q.uuid_text flow_instance_root_dir_id flow_instance_id flow_name
                  user_id)
      ]

  unfoldable pub get_or_create_node_instance_dir :
      Uuid → Uuid → String → String → Option Uuid → Act Uuid
  unfolding get_node_instance_dir_id get_or_create_flow_instance_dir insert_saved
  get_or_create_node_instance_dir node_id flow_instance_id node_name flow_name user_id =
      get_node_instance_dir_id node_id >>= λ found.
      (elim found [
        | some el ↦ pure el
        | none ↦ get_or_create_flow_instance_dir flow_instance_id flow_name user_id
      ])
      >>= λ flow_instance_dir_id. insert_saved (
          node_instance_dir q.uuid_text flow_instance_dir_id flow_instance_id node_id node_name
            user_id)

  -- The record of a file, under a random id.
  unfoldable pub insert_file_at :
      Uuid → String → FileType → Uuid → Option NetDiskMeta → Option Uuid → Act (Unit {0})
  unfolding draw insert_saved
  insert_file_at parent_id name kind meta_id meta user_id = draw >>= λ n.
      insert_saved (record {
        id = q.fresh n;
        parent_id = some parent_id;
        name = name;
        is_dict = Bool.false;
        kind = kind;
        file_metadata_id = some meta_id;
        meta = meta;
        user_id = user_id;
      })
      >>= λ _. pure tt

  unfoldable pub create_node_instance_file : Uuid → Uuid → String → FileType → Act (Unit {0})
  unfolding get_or_create_node_instance_dir fix_file_name insert_file_at
  create_node_instance_file node_id meta_id file_name file_kind =
      lift (ok_or no_such_node (q.find_node node_id)) >>= λ n.
      get_or_create_node_instance_dir node_id n.flow_instance_id n.node_name n.flow_name
        (some n.user_id)
      >>= λ dir_id. fix_file_name (some dir_id) file_name (some n.user_id) >>= λ name.
          insert_file_at dir_id name file_kind meta_id
            (some (record no_meta {
              flow_instance_id = some n.flow_instance_id;
              node_instance_id = some node_id;
            }))
            (some n.user_id)

  unfoldable pub create_flow_draft_file : Uuid → Uuid → String → FileType → Act (Unit {0})
  unfolding get_or_create_flow_draft_dir fix_file_name insert_file_at
  create_flow_draft_file flow_draft_id meta_id file_name file_kind =
      lift (ok_or no_such_node (q.find_draft flow_draft_id)) >>= λ flow_name.
      get_or_create_flow_draft_dir flow_draft_id flow_name >>= λ parent_id.
      fix_file_name (some parent_id) file_name none >>= λ name.
      insert_file_at parent_id name file_kind meta_id
        (some (record no_meta { flow_draft_id = some flow_draft_id })) none

  unfoldable pub create_normal_file : Option Uuid → Uuid → String → FileType → Act (Unit {0})
  unfolding fix_file_name get_root_id insert_file_at
  create_normal_file parent_id meta_id file_name file_kind =
      fix_file_name parent_id file_name none >>= λ name.
      (elim parent_id [ some el ↦ pure el | none ↦ get_root_id none ]) >>= λ parent_id.
      insert_file_at parent_id name file_kind meta_id none none

  unfoldable pub create_file : CreateNetDiskFileCommand → Act (Unit {0})
  unfolding create_node_instance_file create_flow_draft_file create_normal_file
  create_file command = elim command.kind [
    | node_instance node_id ↦
        create_node_instance_file node_id command.meta_id command.file_name command.file_type
    | flow_draft flow_draft_id ↦
        create_flow_draft_file flow_draft_id command.meta_id command.file_name command.file_type
    | normal parent_id ↦
        create_normal_file parent_id command.meta_id command.file_name command.file_type
  ]
