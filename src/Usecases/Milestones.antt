-- ===== src/Usecases/Milestones.antt =====
-- The use case service of milestones: src/kernel/src/services/use_cases/milestone.rs. `parse_url` is
-- that of the url crate, and `posts` says whether the server at a URL takes a message.
use kuintessence.Prelude.{String, Bool, List, [], ◌∷◌, ◌++◌, Result, ok, err, if◌then◌else◌}
use kuintessence.Workflow.Common.{Uuid, NodeKind}
use kuintessence.Workflow.Instance.{
  NodeSpec, NodeInstance, Error, unreachable_node_kind, service_failed,
}
use kuintessence.Workflow.Exec.{Exec, pure, bail, lift, ◌>>=◌}
use kuintessence.Workflow.Store.{World, TaskCommand, get_node}

pub record MilestoneContent : Type 0 where
  pub flow_instance_id : Uuid
  pub name : String
  pub message : String

-- The repository, and what was posted.
pub record Posted : Type 0 where
  pub store : World
  pub posts : List (String × MilestoneContent)

module _ (parse_url : String → Result Error String) (takes : String → Bool) where
  -- The request counts as sent whatever the server answers; it fails where there is no connection.
  unfoldable pub post : String → MilestoneContent → Exec Error Posted (Unit {0})
  post url content s =
      if takes url
      then (ok tt, record s { posts = s.posts ++ (url, content) ∷ [] })
      else (err service_failed, s)

  read_node : Uuid → Exec Error Posted NodeInstance
  unfolding get_node
  read_node id s = let (r, store) = get_node id s.store in (r, record s { store = store })

  unfoldable pub handle_usecase : NodeSpec → Exec Error Posted (Unit {0})
  unfolding post read_node
  handle_usecase node_spec = elim node_spec.kind [
    | NodeKind.milestone data_ ↦ lift (parse_url data_.url) >>= λ url.
        read_node node_spec.id >>= λ node_instance. post url (record {
          flow_instance_id = node_instance.flow_instance_id;
          name = data_.name;
          message = data_.custom_message;
        })
    | NodeKind.software_usecase_computing data_ ↦ bail unreachable_node_kind
    | NodeKind.no_action ↦ bail unreachable_node_kind
    | NodeKind.script script_info ↦ bail unreachable_node_kind
  ]

  unfoldable pub operate_task : Uuid → TaskCommand → Exec Error Posted (Unit {0})
  operate_task task_id command = pure tt
