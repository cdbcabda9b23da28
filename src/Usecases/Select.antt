-- ===== src/Usecases/Select.antt =====
-- The choice of a use case service by the kind of the node:
-- src/co/src/infrastructure/external_services/inner_usecase_select_service.rs, with the services that
-- src/co/src/infrastructure/service_provider.rs registers. None is registered for milestones.
pub mod Sendings
pub mod Loop
use kuintessence.Prelude.{List, [], ◌++◌, map, Result}
use kuintessence.Workflow.Instance.{NodeSpec, NodeInstanceKind, Error, no_such_service}
use kuintessence.Workflow.Exec.{bail}
use kuintessence.Workflow.Store.{World, Act, task, node_status}
use kuintessence.Workflow.Nodes.{kind_of}
use kuintessence.Workflow.Batch.{Env}
use kuintessence.Usecases.Clusters.{Grid, GridAct}
use kuintessence.Usecases.Service.{handle_usecase, handle_script}
use kuintessence.Usecases.NoAction
use kuintessence.Usecases.NoAction.{ReportAct}

module _ (env : Env) where
  -- The tables that the services share with the workflow engine.
  abbrev pub grid : World → Grid
  grid s = record {
    store = s;
    clusters = env.clusters;
    installed = env.installed;
    block_list = env.block_list;
    tasks = [];
  }

  -- The tasks go out after what was sent before.
  abbrev pub on_grid : GridAct (Unit {0}) → Act (Unit {0})
  on_grid m s =
      let (r, g) = m (grid s) in
      (r, record g.store { sent = g.store.sent ++ map (λ t. task t.0 t.1) g.tasks })

  abbrev pub with_reports : ReportAct (Unit {0}) → Act (Unit {0})
  with_reports m s =
      let (r, reports) = m [] in (r, record s { sent = s.sent ++ map node_status reports })

  -- `send_usecase`
  unfoldable pub send_usecase : NodeSpec → Act (Unit {0})
  unfolding kind_of handle_usecase handle_script NoAction.handle_usecase
  send_usecase node_spec = elim (kind_of node_spec.kind) [
    | NodeInstanceKind.software_usecase_computing ↦ on_grid (handle_usecase env.services node_spec)
    | NodeInstanceKind.no_action ↦
        with_reports (NoAction.handle_usecase (λ r. env.accepts (node_status r)) node_spec)
    | NodeInstanceKind.script ↦ on_grid (handle_script env.services node_spec)
    | NodeInstanceKind.milestone ↦ bail (no_such_service NodeInstanceKind.milestone)
  ]
