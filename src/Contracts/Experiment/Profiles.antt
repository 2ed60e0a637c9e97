-- ===== src/Contracts/Experiment/Profiles.antt =====
-- The configured and the observed profile of contracts/experiment_profile.py, their projections and
-- the fields that a comparison needs.
use adaptive_agent_orchestra.Base.{
  ℕ, zero, suc, Bool, Option, none, some, is_some, List, [], ◌∷◌, ◌++◌, String, if◌then◌else◌,
}

mutual
  pub data Json : Type 0 where
    null : Json
    text : String → Json
    number : ℕ → Json
    object : Fields → Json
    items : Items → Json

  pub data Fields : Type 0 where
    end : Fields
    field : String → Json → Fields → Fields

  pub data Items : Type 0 where
    no_items : Items
    item : Json → Items → Items

-- The value of the field at a place.
abbrev pub field_at : ℕ → Fields → Json
field_at n end = null
field_at zero (field key value rest) = value
field_at (suc n) (field key value rest) = field_at n rest

abbrev pub value_at : ℕ → Json → Json
value_at n (object fields) = field_at n fields
value_at n _ = null

abbrev pub opt_text : Option String → Json
opt_text none = null
opt_text (some s) = text s

pub data ComparisonKind : Type 0 where
  runtime harness model provider budget_policy : ComparisonKind

pub record WorkspaceContract : Type 0 where
  pub starting_revision : String
  pub isolation_mode : String
  pub fixture_revision : String

pub record ConfiguredProfile : Type 0 where
  pub runtime : Option String
  pub harness : Option String
  pub runtime_version : Option String
  pub model : Option String
  pub provider : Option String
  pub execution_mode : Option String
  pub tools_config_sha256 : Option String
  pub policy_config_sha256 : Option String
  pub reasoning_config_sha256 : Option String
  pub environment_config_sha256 : Option String
  pub workspace_contract : Option WorkspaceContract
  pub network_policy_identity : Option String
  pub sandbox_policy_identity : Option String
  pub approval_policy_identity : Option String
  pub budget_id : Option String

-- The completeness of evidence is one of the texts "complete", "partial" and "unknown".
pub record ObservedProfile : Type 0 where
  pub runtime : Option String
  pub runtime_version : Option String
  pub model : Option String
  pub provider : Option String
  pub effective_workspace_revision : Option String
  pub effective_workspace_root : Option String
  pub observed_isolation_level : Option String
  pub observed_network_mode : Option String
  pub observed_sandbox_mode : Option String
  pub observed_approval_behavior : Option String
  pub tool_evidence_completeness : Option String
  pub file_evidence_completeness : Option String

abbrev pub opt_workspace : Option WorkspaceContract → Json
opt_workspace none = null
opt_workspace (some w) = object (
    field "starting_revision" (text w.starting_revision) (
      field "isolation_mode" (text w.isolation_mode)
        (field "fixture_revision" (text w.fixture_revision) end)))

-- `configured_profile_semantic_projection`.
unfoldable pub configured_projection : ConfiguredProfile → Json
configured_projection p = object (
    field "runtime" (opt_text p.runtime) (
      field "harness" (opt_text p.harness) (
        field "runtime_version" (opt_text p.runtime_version) (
          field "model" (opt_text p.model) (
            field "provider" (opt_text p.provider) (
              field "execution_mode" (opt_text p.execution_mode) (
                field "tools_config_sha256" (opt_text p.tools_config_sha256) (
                  field "policy_config_sha256" (opt_text p.policy_config_sha256) (
                    field "reasoning_config_sha256" (opt_text p.reasoning_config_sha256) (
                      field "environment_config_sha256" (opt_text p.environment_config_sha256) (
                        field "workspace_contract" (opt_workspace p.workspace_contract) (
                          field "network_policy_identity" (opt_text p.network_policy_identity) (
                            field "sandbox_policy_identity" (opt_text p.sandbox_policy_identity) (
                              field "approval_policy_identity" (opt_text p.approval_policy_identity)
                                (field "budget_id" (opt_text p.budget_id) end)))))))))))))))

-- `effective_profile_semantic_projection`.
unfoldable pub effective_projection : ObservedProfile → Json
effective_projection p = object (
    field "runtime" (opt_text p.runtime) (
      field "runtime_version" (opt_text p.runtime_version) (
        field "model" (opt_text p.model) (
          field "provider" (opt_text p.provider) (
            field "effective_workspace_revision" (opt_text p.effective_workspace_revision) (
              field "observed_isolation_level" (opt_text p.observed_isolation_level) (
                field "observed_network_mode" (opt_text p.observed_network_mode) (
                  field "observed_sandbox_mode" (opt_text p.observed_sandbox_mode) (
                    field "observed_approval_behavior" (opt_text p.observed_approval_behavior) (
                      field "tool_evidence_completeness" (opt_text p.tool_evidence_completeness) (
                        field "file_evidence_completeness" (opt_text p.file_evidence_completeness)
                          end)))))))))))

-- A field by its name, with whether it is there.
abbrev pub Entry : Type 0
Entry = String × Bool

-- `_missing_fields`.
unfoldable pub missing_fields : List Entry → List String
missing_fields [] = []
missing_fields (entry ∷ rest) =
    let others = missing_fields rest in if entry.1 then others else entry.0 ∷ others

abbrev pub model_entries : ConfiguredProfile → List Entry
model_entries p =
    ("configured_profile.model", is_some p.model)
    ∷ ("configured_profile.provider", is_some p.provider)
    ∷ []

abbrev pub reasoning_entry : ConfiguredProfile → Entry
reasoning_entry p =
    ("configured_profile.reasoning_config_sha256", is_some p.reasoning_config_sha256)

abbrev pub configured_extra : ComparisonKind → ConfiguredProfile → List Entry
configured_extra ComparisonKind.runtime p = []
configured_extra ComparisonKind.harness p = model_entries p ++ reasoning_entry p ∷ []
configured_extra ComparisonKind.model p = model_entries p
configured_extra ComparisonKind.provider p = model_entries p
configured_extra ComparisonKind.budget_policy p = model_entries p ++ reasoning_entry p ∷ []

abbrev pub configured_required : ConfiguredProfile → List Entry
configured_required p =
    ("configured_profile.runtime", is_some p.runtime)
    ∷ ("configured_profile.harness", is_some p.harness)
    ∷ ("configured_profile.execution_mode", is_some p.execution_mode)
    ∷ ("configured_profile.tools_config_sha256", is_some p.tools_config_sha256)
    ∷ ("configured_profile.policy_config_sha256", is_some p.policy_config_sha256)
    ∷ ("configured_profile.environment_config_sha256", is_some p.environment_config_sha256)
    ∷ ("configured_profile.workspace_contract", is_some p.workspace_contract)
    ∷ ("configured_profile.approval_policy_identity", is_some p.approval_policy_identity)
    ∷ ("configured_profile.budget_id", is_some p.budget_id)
    ∷ []

abbrev pub observed_extra : ComparisonKind → ObservedProfile → List Entry
observed_extra ComparisonKind.runtime p = []
observed_extra _ p =
    ("observed_profile.model", is_some p.model)
    ∷ ("observed_profile.provider", is_some p.provider)
    ∷ []

abbrev pub observed_required : ObservedProfile → List Entry
observed_required p =
    ("observed_profile.runtime", is_some p.runtime)
    ∷ ("observed_profile.effective_workspace_revision", is_some p.effective_workspace_revision)
    ∷ ("observed_profile.observed_isolation_level", is_some p.observed_isolation_level)
    ∷ ("observed_profile.tool_evidence_completeness", is_some p.tool_evidence_completeness)
    ∷ ("observed_profile.file_evidence_completeness", is_some p.file_evidence_completeness)
    ∷ []

unfoldable pub missing_configured : ComparisonKind → ConfiguredProfile → List String
unfolding missing_fields
missing_configured kind p = missing_fields (configured_required p ++ configured_extra kind p)

unfoldable pub missing_observed : ComparisonKind → ObservedProfile → List String
unfolding missing_fields
missing_observed kind p = missing_fields (observed_required p ++ observed_extra kind p)
