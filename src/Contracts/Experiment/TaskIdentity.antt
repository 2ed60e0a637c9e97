-- ===== src/Contracts/Experiment/TaskIdentity.antt =====
-- `build_task_identity_v1` of contracts/experiment_profile.py. What pydantic dumps of a criterion is
-- the parameter `criterion_json`.
use adaptive_agent_orchestra.Base.{ℕ, ◌≡◌, refl, ap, List, [], ◌∷◌, String}
use adaptive_agent_orchestra.Contracts.Task.{risk_value, SubtaskSpec, Criterion, TaskContract}
use adaptive_agent_orchestra.Routing.{task_type_value}
use adaptive_agent_orchestra.Contracts.Experiment.Profiles.{
  Json, Items, text, number, object, items, no_items, item, end, field, value_at,
}

-- The fields of a task's definition that the caller names.
pub record TaskNames : Type 0 where
  pub task_definition_id : String
  pub task_definition_revision : String
  pub prompt : String
  pub dataset_or_fixture_revision : String
  pub starting_revision : String

pub record TaskIdentity : Type 0 where
  pub task_definition_id : String
  pub task_definition_revision : String
  pub task_contract_sha256 : String
  pub prompt_sha256 : String
  pub success_criteria_sha256 : String
  pub dataset_or_fixture_revision : String

abbrev pub items_of : {A : Type 0} → (A → Json) → List A → Items
items_of json [] = no_items
items_of json (x ∷ xs) = item (json x) (items_of json xs)

abbrev pub texts_json : List String → Json
texts_json xs = items (items_of text xs)

abbrev pub subtask_json : SubtaskSpec → Json
subtask_json s = object (
    field "id" (text s.id) (
      field "goal" (text s.goal) (
        field "allowed_paths" (texts_json s.allowed_paths) (
          field "dependencies" (texts_json s.dependencies)
            (field "expected_output" (text s.expected_output) end)))))

text-eq : {x y : String} → text x ≡ text y → x ≡ y
text-eq h = cc

number-eq : {x y : ℕ} → number x ≡ number y → x ≡ y
number-eq h = cc

items_of-text : (xs ys : List String) → items_of text xs ≡ items_of text ys → xs ≡ ys
items_of-text [] [] h = refl
items_of-text [] (y ∷ ys) h = cc
items_of-text (x ∷ xs) [] h = cc
items_of-text (x ∷ xs) (y ∷ ys) h = cc (items_of-text xs ys (cc))

texts_json-eq : (xs ys : List String) → texts_json xs ≡ texts_json ys → xs ≡ ys
texts_json-eq xs ys h = items_of-text xs ys (cc)

module _ (criterion_json : Criterion → Json) where
  unfoldable pub task_projection : TaskContract → TaskNames → Json
  task_projection task names = object (
      field "task_definition_id" (text names.task_definition_id) (
        field "task_definition_revision" (text names.task_definition_revision) (
          field "goal" (text task.goal) (
            field "prompt" (text names.prompt) (
              field "task_type" (text (task_type_value task.task_type)) (
                field "allowed_paths" (texts_json task.allowed_paths) (
                  field "forbidden_actions" (texts_json task.forbidden_actions) (
                    field "success_criteria" (items (items_of criterion_json task.success_criteria))
                      (field "output_schema" (texts_json task.output_schema) (
                        field "risk" (number (risk_value task.risk)) (
                          field "complexity" (number task.complexity) (
                            field "subtasks" (items (items_of subtask_json task.subtasks)) (
                              field "starting_revision" (text names.starting_revision) (
                                field "dataset_or_fixture_revision"
                                  (text names.dataset_or_fixture_revision) end))))))))))))))

  unfoldable pub build_task_identity : (Json → String) → TaskContract → TaskNames → TaskIdentity
  unfolding task_projection
  build_task_identity digest task names = record {
    task_definition_id = names.task_definition_id;
    task_definition_revision = names.task_definition_revision;
    task_contract_sha256 = digest (task_projection task names);
    prompt_sha256 = digest (object (field "prompt" (text names.prompt) end));
    success_criteria_sha256 = digest (
        object
          (field "success_criteria" (items (items_of criterion_json task.success_criteria)) end));
    dataset_or_fixture_revision = names.dataset_or_fixture_revision;
  }

  -- What a task's identity pins down, where the digest has no collision on the two projections: two
  -- tasks with one contract digest have the goal, the prompt, the allowed paths, the forbidden actions,
  -- the output schema, the risk and the complexity in common, and the names that the caller gives.
  pub build_task_identity-task_contract_sha256 :
      (digest : Json → String) (a b : TaskContract) (m n : TaskNames)
      → (digest (task_projection a m) ≡ digest (task_projection b n)
          → task_projection a m ≡ task_projection b n)
      → (build_task_identity digest a m).task_contract_sha256
        ≡ (build_task_identity digest b n).task_contract_sha256
      → (a.goal ≡ b.goal)
        × (a.allowed_paths ≡ b.allowed_paths)
        × (a.forbidden_actions ≡ b.forbidden_actions)
        × (a.output_schema ≡ b.output_schema)
        × (risk_value a.risk ≡ risk_value b.risk)
        × (a.complexity ≡ b.complexity)
        × (m ≡ n)
  unfolding build_task_identity task_projection
  build_task_identity-task_contract_sha256 digest a b m n collision_free same =
      let at : (i : ℕ) → value_at i (task_projection a m) ≡ value_at i (task_projection b n) =
        (λ i. ap (value_at i) (collision_free same)) in
      (
        text-eq (at 2),
        texts_json-eq _ _ (at 5),
        texts_json-eq _ _ (at 6),
        texts_json-eq _ _ (at 8),
        number-eq (at 9),
        number-eq (at 10),
        cc (text-eq (at 0), text-eq (at 1), text-eq (at 3), text-eq (at 12), text-eq (at 13)),
      )
