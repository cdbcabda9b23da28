-- ===== src/Files/NetDisk/Stored.antt =====
-- Where the file of a node instance is recorded
-- (src/kernel/src/services/file/supports/net_disk.rs).
use Prim.Native.String
use kuintessence.Prelude.{
  String, Bool, true, false, ◌≡◌, refl, none, some, List, [], ◌∷◌, ◌++◌, ok, suc, ◌==◌, ◌&&◌,
  str_eq, any, any-append, find, arith, if◌then◌else◌, Bool-cases, inl, inr, ==_refl,
}
use kuintessence.Workflow.Common.{Uuid}
use kuintessence.Files.Server.{NetDisk, FileSystem, FileMeta, FileType, Server, draw, node_instance}
use kuintessence.Files.Tables.{
  execute, execute_all, finish, save_changed, push, has_file, may_stand, file_id, user_or_session,
}
use kuintessence.Files.Directories.{
  meta_test, is_node, is_flow, has_id, placed, insert, no_meta, node_instance_dir,
  get_node_instance_dir_id, get_flow_instance_dir_id, is_same_pid_fname_exists,
}
use kuintessence.Files.NetDisk.{
  NodeOfFlow, Request, insert_saved, fix_file_name, get_or_create_flow_instance_dir,
  get_or_create_node_instance_dir, insert_file_at, create_node_instance_file, create_file,
}

abbrev saved : List FileSystem → Server → Server
saved files s = record s { files = files; statements = []; can_drop = true }

module _ (q : Request) (e : NetDisk) (u : Uuid) (s : Server)
    (known : user_or_session q.session_user e.user_id ≡ some u) (clean : s.statements ≡ []) where
  abbrev row : FileSystem
  row = record { entity = placed u e; owner_id = u }

  -- An insert of a row that is new and may stand there.
  insert_saved-new :
      has_file (placed u e).id s ≡ false
      → may_stand row s ≡ true
      → insert_saved q e s ≡ (ok (placed u e).id, saved (s.files ++ row ∷ []) s)
  unfolding insert_saved insert push save_changed execute_all execute finish
  insert_saved-new new stands = ground (arith, known, clean)

  -- An insert of a row whose key is taken does nothing.
  insert_saved-old :
      has_file (placed u e).id s ≡ true → insert_saved q e s ≡ (ok (placed u e).id, saved s.files s)
  unfolding insert_saved insert push save_changed execute_all execute finish
  insert_saved-old old = ground (arith, known, clean)

-- A row that is found is there.
has_file-find :
    (p : FileSystem → Bool) (r : FileSystem) (xs : List FileSystem)
    → find p xs ≡ some r
    → any (λ x. file_id x == file_id r) xs ≡ true
has_file-find p r [] h = ground arith
has_file-find p r (x ∷ xs) h = ground (arith, has_file-find p r xs, ==_refl (file_id r))

abbrev pub is_node_dir : Uuid → FileSystem → Bool
is_node_dir id = meta_test λ m. is_node m.dir_kind && has_id id m.node_instance_id

abbrev pub is_flow_dir : Uuid → FileSystem → Bool
is_flow_dir id = meta_test λ m. is_flow m.dir_kind && has_id id m.flow_instance_id

module _ (q : Request) (node_id : Uuid) (n : NodeOfFlow) (r : FileSystem) (s : Server) where
  -- The row of the node's directory, below the directory of its workflow.
  abbrev pub dir_row : FileSystem
  dir_row = record {
    entity =
        node_instance_dir q.uuid_text (file_id r) n.flow_instance_id node_id n.node_name
          (some n.user_id);
    owner_id = n.user_id;
  }

  -- The table once the node has its directory.
  abbrev pub with_dir : List FileSystem
  with_dir = if has_file node_id s then s.files else s.files ++ dir_row ∷ []

  abbrev pub given_name : String → String
  given_name file_name =
      if any
        (λ x.
          has_id node_id x.entity.parent_id
          && str_eq x.entity.name file_name
          && x.owner_id == n.user_id)
        with_dir
      then String.◌++◌ file_name (String.◌++◌ "_" q.suffix)
      else file_name

  abbrev pub file_row : Uuid → String → FileType → FileSystem
  file_row meta_id file_name file_kind = record {
    entity = record {
      id = q.fresh s.next;
      parent_id = some node_id;
      name = given_name file_name;
      is_dict = false;
      kind = file_kind;
      file_metadata_id = some meta_id;
      meta = some (record no_meta {
        flow_instance_id = some n.flow_instance_id;
        node_instance_id = some node_id;
      });
      user_id = some n.user_id;
    };
    owner_id = n.user_id;
  }

  module _ (clean : s.statements ≡ []) (no_dir : find (is_node_dir node_id) s.files ≡ none)
      (flow_dir : find (is_flow_dir n.flow_instance_id) s.files ≡ some r) where
    node_dir :
        get_or_create_node_instance_dir q node_id n.flow_instance_id n.node_name n.flow_name
          (some n.user_id)
          s
        ≡ (ok node_id, saved with_dir s)
    unfolding get_or_create_node_instance_dir get_node_instance_dir_id
        get_or_create_flow_instance_dir get_flow_instance_dir_id placed node_instance_dir
    node_dir =
        let e =
          node_instance_dir q.uuid_text (file_id r) n.flow_instance_id node_id n.node_name
            (some n.user_id) in
        let there = has_file-find (is_flow_dir n.flow_instance_id) r s.files flow_dir in
        elim (Bool-cases (has_file node_id s)) [
          | inl old ↦ ground (arith, insert_saved-old q e n.user_id s refl clean old)
          | inr new ↦
              ground
                (arith, insert_saved-new q e n.user_id s refl clean new (ground (arith, there)))
        ]

    dir_is_there : any (λ x. file_id x == node_id) with_dir ≡ true
    unfolding node_instance_dir
    dir_is_there = elim (Bool-cases (has_file node_id s)) [
      | inl old ↦ rw old old
      | inr new ↦
          ground
            (arith, any-append (λ x. file_id x == node_id) s.files (dir_row ∷ []), ==_refl node_id)
    ]

    -- Where nothing is staged, the node is known, no row is a directory of the kind `NodeInstance`
    -- for the node, a row is found as the directory of the workflow, the file has its metadata and
    -- the drawn id is new: recording a file of the node succeeds, and the table has its
    -- old rows, then the directory of the node below the row of its workflow unless a row has the
    -- node's id already, then the file below the node's id, under its name or, where a file of this
    -- name is there, under the name with the time.
    pub create_file-node_instance :
        (meta_id : Uuid) (file_name : String) (file_kind : FileType)
        → q.find_node node_id ≡ some n
        → any (λ (m : FileMeta). m.id == meta_id) s.metas ≡ true
        → any (λ x. file_id x == q.fresh s.next) with_dir ≡ false
        → create_file q
            (record {
              meta_id = meta_id;
              file_name = file_name;
              file_type = file_kind;
              kind = node_instance node_id;
            })
            s
          ≡ (
            ok tt,
            record s {
              files = with_dir ++ file_row meta_id file_name file_kind ∷ [];
              statements = [];
              can_drop = true;
              next = suc s.next;
            },
          )
    unfolding create_file create_node_instance_file fix_file_name is_same_pid_fname_exists
        insert_file_at draw placed
    create_file-node_instance meta_id file_name file_kind known has_meta new =
        let t = record (saved with_dir s) { next = suc s.next } in
        let e = (file_row meta_id file_name file_kind).entity in
        ground (
          arith,
          known,
          node_dir,
          dir_is_there,
          insert_saved-new q e n.user_id t refl refl new (ground (arith, dir_is_there)),
        )
