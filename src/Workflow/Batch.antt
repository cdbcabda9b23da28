-- ===== src/Workflow/Batch.antt =====
-- `debatch`, `sub_nodes` and `get_batch_inputs` of
-- src/kernel/src/services/workflow_engine/schedule.rs, and `Filler::fill_match_regex` of
-- src/kernel/src/models/impls/common.rs.
pub mod Choices
pub mod Unreachable
pub mod Tasks
use Prim.Native.String
use kuintessence.Prelude.{
  ℕ, zero, suc, ◌+◌, ◌%◌, String, Bool, true, false, Option, none, some, List, [], ◌∷◌, ◌++◌, map,
  Result, ok, err, panic, ok_or, unwrap, is_empty, flat_map, zip, length, str_eq, get_elem?,
  replicate, if◌then◌else◌,
}
use kuintessence.Prelude.Int.{ℤ}
use kuintessence.Prelude.Text.{replace, int_to_string, add_i32}
use kuintessence.Workflow.Common.{
  Uuid, NodeRelation, SlotRelation, Filler, BatchStrategy, BatchStrategyKind, FileInput,
  file_input_of, Input, NodeInputSlot, NodeInputSlotKind, inputs,
}
use kuintessence.Workflow.Instance.{
  NodeSpecOutputSlotKind, NodeSpecOutputSlot, NodeSpec, WorkflowInstance, Error, service_failed,
}
use kuintessence.Workflow.Exec.{pure, lift, gets, ◌>>=◌, ◌>>◌}
use kuintessence.Workflow.Store.{
  Act, World, Message, MoveRegistration, register_move, do_registered_moves, get_by_node_id,
  get_node_sub_node_instances, get_text, insert_text, draw, ask,
}
use kuintessence.Usecases.Clusters.{Cluster, InstalledSoftware, BlockedSoftware}
use kuintessence.Usecases.Parse.{Services}
use kuintessence.Workflow.Slots.{node, input_slot, output_slot, parse_sub_nodes}

-- What the code takes from outside the repository: ids (`fresh n` is what the n-th draw gives),
-- random numbers, the answers of other services, the text of a file, the clock and the hash; the user
-- of the session and the database's time; and the rows and services of the parsing of use cases,
-- which the engine only reads.
pub record Env : Type 0 where
  pub fresh : ℕ → Uuid
  pub random : ℕ → ℕ
  pub accepts : Message → Bool
  pub file_text : Uuid → Option String
  pub timestamp : String
  pub simple : Uuid → String
  pub blake3 : String → String
  pub session_user : Option Uuid
  pub now : ℕ
  pub clusters : List Cluster
  pub installed : List InstalledSoftware
  pub block_list : List BlockedSoftware
  pub services : Services

-- The combinations of `sub_nodes`: the first slot varies fastest. Where the list of combinations is
-- empty, it starts anew.
unfoldable pub combine :
    List (String × List Input) → List (List (String × Input)) → List (List (String × Input))
combine [] acc = acc
combine ((slot_descriptor, i) ∷ rest) acc =
    let next =
      if is_empty acc
      then map (λ j. (slot_descriptor, j) ∷ []) i
      else flat_map (λ j. map (λ k. k ++ (slot_descriptor, j) ∷ []) acc) i in
    combine rest next

-- `Filler::AutoNumber`: the number of the texts that are left.
fill_numbers : String → String → ℤ → ℤ → ℕ → List String
unfolding replace int_to_string add_i32
fill_numbers content regex_to_match current step zero = []
fill_numbers content regex_to_match current step (suc left) =
    replace regex_to_match (int_to_string current) content
    ∷ fill_numbers content regex_to_match (add_i32 current step) step left

-- The last relation that feeds the slot: the loop goes on after a match.
last_feed : String → List SlotRelation → Uuid → Option (Uuid × String) → Option (Uuid × String)
last_feed descriptor [] from_id found = found
last_feed descriptor (r ∷ rs) from_id found =
    last_feed descriptor rs from_id
      (if str_eq r.to_slot descriptor then some (from_id, r.from_slot) else found)

last_feeds : String → List NodeRelation → Option (Uuid × String) → Option (Uuid × String)
unfolding last_feed
last_feeds descriptor [] found = found
last_feeds descriptor (r ∷ rs) found =
    last_feeds descriptor rs (last_feed descriptor r.slot_relations r.from_id found)

-- One input for each of the outputs that the tasks of the feeding node prepared.
outputs_as_inputs : NodeSpecOutputSlotKind → List Input
outputs_as_inputs (NodeSpecOutputSlotKind.file origin is_batch ids) =
    map (λ id. Input.file (file_input_of id)) ids
outputs_as_inputs (NodeSpecOutputSlotKind.text keys) = map Input.text keys

unfoldable pub first : {A : Type 0} → List A → Result Error A
first [] = panic
first (x ∷ xs) = ok x

module _ (env : Env) where
  -- `Uuid::new_v4`
  unfoldable pub new_id : Act Uuid
  unfolding draw
  new_id = draw >>= λ n. pure (env.fresh n)

  -- `Filler::Enumeration`: `gen_range` panics on an empty range.
  fill_items : String → String → List String → ℕ → Act (List String)
  unfolding replace draw
  fill_items content regex_to_match items zero = pure []
  fill_items content regex_to_match items (suc left) = do
    n ← draw
    item ← lift (unwrap (get_elem? items (env.random n % length items)))
    texts ← fill_items content regex_to_match items left
    pure (replace regex_to_match item content ∷ texts)

  -- `Filler::fill_match_regex`
  unfoldable pub fill_match_regex : Filler → String → String → ℕ → Act (List String)
  unfolding fill_numbers fill_items
  fill_match_regex (Filler.auto_number start step) content regex_to_match fill_count =
      pure (fill_numbers content regex_to_match start step fill_count)
  fill_match_regex (Filler.enumeration items) content regex_to_match fill_count =
      fill_items content regex_to_match items fill_count

  rename_inputs : Option String → List FileInput → Act (List Input)
  unfolding new_id replace
  rename_inputs renaming_pattern [] = pure []
  rename_inputs renaming_pattern (f ∷ fs) = do
    pattern_text ← lift (unwrap renaming_pattern)
    id ← new_id
    rest ← rename_inputs renaming_pattern fs
    pure (
        Input.file (record f { file_metadata_name = replace "{}" (env.simple id) pattern_text })
        ∷ rest)

  -- A text slot is unreachable here, as is an unknown one.
  original_inputs : Option String → NodeInputSlotKind → Act (List Input)
  unfolding rename_inputs
  original_inputs renaming_pattern (NodeInputSlotKind.file contents name batch) =
      lift (unwrap contents) >>= rename_inputs renaming_pattern
  original_inputs renaming_pattern (NodeInputSlotKind.text contents rule) =
      lift (unwrap contents) >>= λ _. lift panic
  original_inputs renaming_pattern NodeInputSlotKind.unknown = lift panic

  -- The generated texts are stored, and their keys are the inputs.
  store_texts : List String → Act (List Input)
  unfolding new_id insert_text
  store_texts [] = pure []
  store_texts (text ∷ texts) = do
    key ← new_id
    insert_text key text
    rest ← store_texts texts
    pure (Input.text key ∷ rest)

  -- The generated files are moved to the file storage.
  upload_files : List (String × String) → Act (List Input)
  unfolding new_id ask
  upload_files [] = pure []
  upload_files ((file_name, content) ∷ files) = do
    file_metadata_id ← new_id
    id ← new_id
    ask env.accepts (
        register_move (record {
          id = id;
          meta_id = file_metadata_id;
          file_name = file_name;
          hash = env.blake3 content;
          size = String.len content;
          is_upload_failed = false;
          failed_reason = none;
          user_id = none;
        }))
    ask env.accepts (do_registered_moves file_metadata_id)
    rest ← upload_files files
    pure (
        Input.file (record {
          file_metadata_id = file_metadata_id;
          file_metadata_name = file_name;
          hash = env.blake3 content;
          size = String.len content;
        })
        ∷ rest)

  matched_inputs : Option String → String → ℕ → Filler → NodeInputSlotKind → Act (List Input)
  unfolding first get_text fill_match_regex store_texts upload_files replace
  matched_inputs renaming_pattern regex_to_match fill_count filler
        (NodeInputSlotKind.text contents rule) =
      do
        keys ← lift (unwrap contents)
        key ← lift (first keys)
        content ← get_text key
        texts ← fill_match_regex filler content regex_to_match fill_count
        store_texts texts
  matched_inputs renaming_pattern regex_to_match fill_count filler
        (NodeInputSlotKind.file contents name batch) =
      do
        files ← lift (unwrap contents)
        file_input ← lift (first files)
        content ← lift (ok_or service_failed (env.file_text file_input.file_metadata_id))
        texts ← fill_match_regex filler content regex_to_match fill_count
        pattern_text ← lift (unwrap renaming_pattern)
        upload_files (zip (replicate fill_count (replace "{}" env.timestamp pattern_text)) texts)
  matched_inputs renaming_pattern regex_to_match fill_count filler NodeInputSlotKind.unknown =
      lift panic

  fed_inputs : List NodeRelation → String → Act (List Input)
  unfolding last_feeds get_by_node_id node output_slot outputs_as_inputs
  fed_inputs node_relations descriptor = do
    feed ← lift (unwrap (last_feeds descriptor node_relations none))
    workflow_instance ← get_by_node_id feed.0
    in_node_spec ← lift (node workflow_instance.spec feed.0)
    slot ← lift (output_slot in_node_spec feed.1)
    pure (outputs_as_inputs slot.kind)

  -- `get_batch_inputs`
  unfoldable pub get_batch_inputs :
      List NodeRelation → BatchStrategy → NodeInputSlot → Act (List Input)
  unfolding original_inputs matched_inputs fed_inputs
  get_batch_inputs node_relations batch_strategy slot = elim batch_strategy.kind [
    | BatchStrategyKind.original_batch ↦ original_inputs batch_strategy.renaming_pattern slot.kind
    | BatchStrategyKind.match_regex regex_to_match fill_count filler ↦
        matched_inputs batch_strategy.renaming_pattern regex_to_match fill_count filler slot.kind
    | BatchStrategyKind.from_batch_outputs ↦
        fed_inputs node_relations batch_strategy.input_slot_descriptor
  ]

  -- `sub_nodes`: the sub tasks in the table, in its order, each with one combination.
  unfoldable pub sub_nodes : NodeSpec → List (String × List Input) → Act (List NodeSpec)
  unfolding combine get_node_sub_node_instances parse_sub_nodes
  sub_nodes node_spec slot_descriptor_inputs = do
    x ← get_node_sub_node_instances node_spec.id
    n ← gets (λ s. s.next)
    r ← lift (
        parse_sub_nodes env.fresh node_spec
          (zip (map (λ el. el.id) x) (combine slot_descriptor_inputs [])) n)
    λ s. (ok r.0, record s { next = r.1 })

  -- The loop of `debatch`.
  all_inputs : List NodeRelation → NodeSpec → List BatchStrategy → Act (List (String × List Input))
  unfolding input_slot get_batch_inputs
  all_inputs node_relations node_spec [] = pure []
  all_inputs node_relations node_spec (batch_strategy ∷ rest) = do
    slot ← lift (input_slot node_spec batch_strategy.input_slot_descriptor)
    batch_inputs ← get_batch_inputs node_relations batch_strategy slot
    others ← all_inputs node_relations node_spec rest
    pure ((batch_strategy.input_slot_descriptor, batch_inputs) ∷ others)

  -- `debatch`
  unfoldable pub debatch : List NodeRelation → NodeSpec → Act (List NodeSpec)
  unfolding all_inputs sub_nodes
  debatch node_relations node_spec =
      all_inputs node_relations node_spec node_spec.batch_strategies >>= sub_nodes node_spec
