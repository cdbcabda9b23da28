-- ===== src/Usecases/Select/Loop.antt =====
-- The loop over the tasks that `schedule_next_nodes` sends, over `send_usecase` of
-- src/co/src/infrastructure/external_services/inner_usecase_select_service.rs.
use mathlib.Core.List.{append-nil, append_assoc}
use kuintessence.Prelude.{
  ℕ, suc, true, ◌≡◌, refl, sym, ap, subst, ◌∙◌, inl, inr, some, List, [], ◌∷◌, ◌++◌, map, Result,
  ok, err, keep, All, All-map, >>=-eq-ok, ◌>>=◌, ok-injective, ==_iff, find-test,
}
use kuintessence.Workflow.Common.{Uuid, NodeKind, SoftwareUsecaseComputing}
use kuintessence.Workflow.Instance.{NodeSpec, NodeInstance, Error, unreachable_node_kind}
use kuintessence.Workflow.Exec.{for_each}
use kuintessence.Workflow.Nodes.{kind_of}
use kuintessence.Workflow.Store.{World, set_node, Message, task, node_status}
use kuintessence.Workflow.Store.Update.{has_id, IsKeyed}
use kuintessence.Workflow.Batch.{Env}
use kuintessence.Usecases.Task.{Task, SoftwareComputingUsecase}
use kuintessence.Package.Parts.{fold_m}
use kuintessence.Usecases.Clusters.{Cluster, Grid, choose}
use kuintessence.Usecases.Parse.{Services, fill_parts, deploys, parse_usecase, parse_task}
use kuintessence.Usecases.NoAction
use kuintessence.Usecases.Service.{send_to_random_cluster, handle_usecase, handle_script}
use kuintessence.Usecases.Service.Sent.{
  choose-has, has_cluster, has-enabled, enabled-found, send_to_random_cluster-sent,
}
use kuintessence.Usecases.Select.{grid, on_grid, send_usecase}
use kuintessence.Usecases.Select.Sendings.{
  Sending, distributed, reported, done, message_of, with_cluster, assigned, drawn, with_cluster-id,
  has_id-map, map-IsKeyed, set_node-with_cluster, has_id-found, IsEnabled, task_of, CanSend,
  script_task, IsSending, AreSendings, at, task_of-at,
}

parse_usecase-id :
    (services : Services) (s : Grid) (u : SoftwareComputingUsecase) (node_spec : NodeSpec)
    (t : Task)
    → parse_usecase services s u node_spec ≡ ok t
    → t.id ≡ node_spec.id
unfolding parse_usecase
parse_usecase-id services s u node_spec t h =
    let (p, filled, h2) = >>=-eq-ok (fill_parts services s u node_spec) _ h in
    let (outs, put, h3) = >>=-eq-ok (fold_m _ u.usecase_spec.output_slots ([], p.files)) _ h2 in
    let (deploy, decided, h4) = >>=-eq-ok (deploys u.software_spec s) _ h3 in
    sym (ap (λ x. x.id) (ok-injective h4))

-- A parsed task is that of its node.
parse_task-id :
    (services : Services) (s : Grid) (node_spec : NodeSpec) (k : NodeKind) (t : Task)
    → node_spec.kind ≡ k
    → parse_task services s node_spec ≡ ok t
    → t.id ≡ node_spec.id
unfolding parse_task
parse_task-id services s node_spec (NodeKind.software_usecase_computing data_) t same h =
    let read : parse_task services s node_spec ≡ (
        services.getter data_.software_version_id data_.usecase_version_id >>= λ u.
        parse_usecase services s u node_spec) =
      rw same refl in
    let (u, got, h1) = >>=-eq-ok (services.getter _ _) _ (sym read ∙ h) in
    parse_usecase-id services s u node_spec t h1
parse_task-id services s node_spec NodeKind.no_action t same h =
    let no : parse_task services s node_spec ≡ err unreachable_node_kind = rw same refl in cc
parse_task-id services s node_spec (NodeKind.script x) t same h =
    let no : parse_task services s node_spec ≡ err unreachable_node_kind = rw same refl in cc
parse_task-id services s node_spec (NodeKind.milestone x) t same h =
    let no : parse_task services s node_spec ≡ err unreachable_node_kind = rw same refl in cc

module _ (env : Env) (e : Cluster) (es : List Cluster)
    (some_enabled : keep (λ c. c.enabled) env.clusters ≡ e ∷ es)
    (yes_to_all : (m : Message) → env.accepts m ≡ true)
    (all_taken : (t : Task) → env.services.accepts t ≡ true) (w : World) where
  -- One task goes to a cluster that is drawn.
  send_to_random_cluster-at :
      (ns : List NodeInstance) (n : ℕ) (m : List Message) (t : Task)
      → IsKeyed ns
      → has_id t.id ns ≡ true
      → (c : Cluster) × IsEnabled env c
        × (on_grid env (send_to_random_cluster env.services t) (at env w ns n m) ≡ (
          ok tt,
          at env w (map (with_cluster t.id c.id) ns) (suc n) (m ++ task t c.topic_name ∷ []),
        ))
  send_to_random_cluster-at ns n m t keyed has =
      let (u, row) = has_id-found t.id ns has in
      let (id, chosen, there) = choose-has (env.services.random n) e es in
      let chosen' = ap (choose (env.services.random n)) some_enabled ∙ chosen in
      let enabled = has-enabled id env.clusters (ap (has_cluster id) some_enabled ∙ there) in
      let (c, found) = enabled-found id env.clusters enabled in
      let same : c.id ≡ id = (==_iff c.id id).0 (find-test _ env.clusters c found) in
      let taken =
        send_to_random_cluster-sent env.services (grid env (at env w ns n m)) t id c u chosen' row
          refl found (all_taken t) in
      let owner : u.id ≡ t.id = (==_iff u.id t.id).0 (find-test _ ns u row) in
      let written =
        subst (λ k. set_node (record u { cluster_id = some id }) ns ≡ map (with_cluster k id) ns)
          owner (set_node-with_cluster u id ns keyed (rw owner row)) in
      (c, (rw same enabled, rw same found), rw (same, taken, written) refl)

  assigned-has_id :
      (x : Sending) (ns : List NodeInstance) (k : Uuid)
      → has_id k (assigned (x ∷ []) ns) ≡ has_id k ns
  assigned-has_id (distributed t c) ns k = has_id-map _ (with_cluster-id t.id c.id) k ns
  assigned-has_id (reported r) ns k = refl

  assigned-IsKeyed :
      (x : Sending) (ns : List NodeInstance) → IsKeyed ns → IsKeyed (assigned (x ∷ []) ns)
  assigned-IsKeyed (distributed t c) ns h = map-IsKeyed _ (with_cluster-id t.id c.id) ns h
  assigned-IsKeyed (reported r) ns h = h

  -- What one task leaves behind.
  abbrev Step : NodeSpec → Sending → List NodeInstance → ℕ → List Message → Type 0
  Step node_spec x ns n m =
      IsSending env w node_spec x
      × (send_usecase env node_spec (at env w ns n m)
          ≡ (ok tt, at env w (assigned (x ∷ []) ns) (drawn (x ∷ []) n) (m ++ message_of x ∷ [])))

  send_usecase-software :
      (ns : List NodeInstance) (n : ℕ) (m : List Message) (node_spec : NodeSpec)
      (data_ : SoftwareUsecaseComputing) (t : Task) (after : Result Error (Unit {0}) × World)
      → node_spec.kind ≡ NodeKind.software_usecase_computing data_
      → parse_task env.services (grid env w) node_spec ≡ ok t
      → on_grid env (send_to_random_cluster env.services t) (at env w ns n m) ≡ after
      → send_usecase env node_spec (at env w ns n m) ≡ after
  unfolding send_usecase kind_of handle_usecase
  send_usecase-software ns n m node_spec data_ t after same parsed sent =
      let ready : parse_task env.services (grid env (at env w ns n m)) node_spec ≡ ok t =
        task_of-at env w ns n m node_spec ∙ parsed in
      let s = at env w ns n m in
      let chosen : send_usecase env node_spec s
          ≡ on_grid env (handle_usecase env.services node_spec) s =
        rw same refl in
      chosen ∙ rw ready sent

  send_usecase-at :
      (ns : List NodeInstance) (n : ℕ) (m : List Message) (node_spec : NodeSpec) (k : NodeKind)
      → node_spec.kind ≡ k
      → IsKeyed ns
      → has_id node_spec.id ns ≡ true
      → CanSend env w node_spec
      → (x : Sending) × Step node_spec x ns n m
  unfolding send_usecase kind_of handle_script NoAction.handle_usecase
  send_usecase-at ns n m node_spec (NodeKind.software_usecase_computing data_) same keyed has
        (inl (t, made)) =
      let parsed : parse_task env.services (grid env w) node_spec ≡ ok t =
        sym (rw same refl) ∙ made in
      let own = parse_task-id env.services (grid env w) node_spec _ t same parsed in
      let (c, enabled, sent) = send_to_random_cluster-at ns n m t keyed (rw own has) in
      let done = send_usecase-software ns n m node_spec data_ t _ same parsed sent in
      (distributed t c, ((made, enabled), done))
  send_usecase-at ns n m node_spec (NodeKind.script script_info) same keyed has (inl (t, made)) =
      let t' = script_task node_spec.id script_info in
      let (c, enabled, sent) = send_to_random_cluster-at ns n m t' keyed has in
      (distributed t' c, ((rw same refl, enabled), rw same sent))
  send_usecase-at ns n m node_spec NodeKind.no_action same keyed has (inl (t, made)) =
      let no : task_of env w node_spec ≡ err unreachable_node_kind = rw same refl in cc
  send_usecase-at ns n m node_spec (NodeKind.milestone data_) same keyed has (inl (t, made)) =
      let no : task_of env w node_spec ≡ err unreachable_node_kind = rw same refl in cc
  send_usecase-at ns n m node_spec k same keyed has (inr nothing) =
      let taken = yes_to_all (node_status (done node_spec.id)) in
      (reported (done node_spec.id), ((nothing, refl), rw (nothing, taken) refl))

  one_more :
      (x : Sending) (xs : List Sending) (ns : List NodeInstance) (n : ℕ) (m : List Message)
      → ◌≡◌ {A = Result Error (Unit {0}) × World}
          (
            ok tt,
            at env w
                (assigned xs (assigned (x ∷ []) ns))
                (drawn xs (drawn (x ∷ []) n))
                ((m ++ message_of x ∷ []) ++ map message_of xs),
          )
          (ok tt, at env w (assigned (x ∷ xs) ns) (drawn (x ∷ xs) n) (m ++ map message_of (x ∷ xs)))
  one_more (distributed t c) xs ns n m = simp append_assoc refl
  one_more (reported r) xs ns n m = simp append_assoc refl

  -- All tasks in order, each from the table that the one before left.
  pub send_each :
      (ns : List NodeInstance) (n : ℕ) (m : List Message) (node_specs : List NodeSpec)
      → IsKeyed ns
      → All (λ node_spec. has_id node_spec.id ns ≡ true) node_specs
      → All (CanSend env w) node_specs
      → (xs : List Sending) × AreSendings env w node_specs xs
        × (for_each node_specs (send_usecase env) (at env w ns n m)
            ≡ (ok tt, at env w (assigned xs ns) (drawn xs n) (m ++ map message_of xs)))
  send_each ns n m [] keyed has can = ([], tt, simp append-nil refl)
  send_each ns n m (node_spec ∷ rest) keyed has can =
      let (x, step) = send_usecase-at ns n m node_spec _ refl keyed has.0 can.0 in
      let (is, sent) = step in
      let ns' = assigned (x ∷ []) ns in
      let same_id = assigned-has_id x ns in
      let (xs, are, others) =
        send_each ns' (drawn (x ∷ []) n) (m ++ message_of x ∷ []) rest (assigned-IsKeyed x ns keyed)
          (All-map _ _ (λ s h. same_id s.id ∙ h) rest has.1) can.1 in
      (x ∷ xs, (is, are), rw sent (others ∙ one_more x xs ns n m))
