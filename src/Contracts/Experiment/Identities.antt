-- ===== src/Contracts/Experiment/Identities.antt =====
-- What the identities and the validators of contracts/experiment_profile.py ensure.
use adaptive_agent_orchestra.Base.{
  ℕ, ◌≡◌, ◌≢◌, refl, sym, ◌∙◌, ap, ◌↔◌, Bool, true, false, not, Option, none, some, is_some, arith,
  List, [], ◌∷◌, ◌++◌, All, String, str_eq_iff, str_eq_refl, ok, ◌>>◌, value_error, raise_if,
  if◌then◌else◌,
}
use adaptive_agent_orchestra.Contracts.Experiment.Profiles.{
  Json, ComparisonKind, WorkspaceContract, ConfiguredProfile, ObservedProfile,
  configured_projection, effective_projection, opt_text, opt_workspace, value_at, missing_fields,
  Entry, configured_required, configured_extra, observed_required, observed_extra,
  missing_configured, missing_observed,
}
use adaptive_agent_orchestra.Contracts.Experiment.{
  ExperimentBinding, ConfiguredBudget, EnforcedBudget, Lifecycle, Experiment, ProfileIdentity,
  Completeness, complete, incomplete, validate_completeness, same_text, same_texts,
  same_completeness, same_identity, is_shared, expected_identity, id_unless, completeness_of,
  profile_identity, validate_experiment, build_experiment,
}

abbrev IsPresent : Entry → Type 0
IsPresent entry = entry.1 ≡ true

missing_fields-empty_iff :
    (entries : List Entry) → (missing_fields entries ≡ []) ↔ All IsPresent entries
unfolding missing_fields
missing_fields-empty_iff [] = ((λ h. tt), (λ h. refl))
missing_fields-empty_iff (entry ∷ rest) = by_entry entry.1 (missing_fields-empty_iff rest)
  where
    by_entry :
        (there : Bool)
        → (missing_fields rest ≡ []) ↔ All IsPresent rest
        → ((if there then missing_fields rest else entry.0 ∷ missing_fields rest) ≡ [])
          ↔ ((there ≡ true) × All IsPresent rest)
    by_entry true rest_iff = ((λ h. (refl, rest_iff.0 h)), (λ (_, h). rest_iff.1 h))
    by_entry false rest_iff = ((λ h. cc), (λ (h, _). cc))

-- The validator of identities never refuses the identity that is computed.
profile_identity_ok :
    (digest : Json → String) (kind : ComparisonKind) (c : ConfiguredProfile) (o : ObservedProfile)
    → profile_identity digest kind c o ≡ ok (expected_identity digest kind c o)
unfolding profile_identity
profile_identity_ok digest kind c o =
    by_lists (missing_configured kind c) (missing_observed kind o) (configured_projection c)
      (effective_projection o)
  where
    identity_of : List String → List String → Json → Json → ProfileIdentity
    identity_of mc mo pc po = record {
      configured_profile_id = id_unless digest mc pc;
      effective_profile_id = id_unless digest mo po;
      completeness = completeness_of digest (mc ++ mo);
      incompleteness_reasons = mc ++ mo;
    }

    by_lists :
        (mc mo : List String) (pc po : Json)
        → validate_completeness (identity_of mc mo pc po) ≡ ok (identity_of mc mo pc po)
    by_lists [] [] pc po = refl
    by_lists [] (m ∷ mo) pc po = refl
    by_lists (m ∷ mc) mo pc po = refl

completeness_of-append :
    (digest : Json → String) (xs ys : List String)
    → (completeness_of digest (xs ++ ys) ≡ complete) ↔ ((xs ≡ []) × (ys ≡ []))
completeness_of-append digest [] [] = ((λ h. (refl, refl)), (λ h. refl))
completeness_of-append digest [] (y ∷ ys) = ((λ h. cc), (λ (_, h). cc))
completeness_of-append digest (x ∷ xs) ys = ((λ h. cc), (λ (h, _). cc))

-- The profile names its runtime, harness and mode, its tools, policies and environment, its workspace
-- contract, its approval policy and its budget.
abbrev pub IsConfigured : ConfiguredProfile → Type 0
IsConfigured c =
    (is_some c.runtime ≡ true)
    × (is_some c.harness ≡ true)
    × (is_some c.execution_mode ≡ true)
    × (is_some c.tools_config_sha256 ≡ true)
    × (is_some c.policy_config_sha256 ≡ true)
    × (is_some c.environment_config_sha256 ≡ true)
    × (is_some c.workspace_contract ≡ true)
    × (is_some c.approval_policy_identity ≡ true)
    × (is_some c.budget_id ≡ true)

-- Its runtime, workspace revision and isolation were observed, and how complete the evidence of its
-- tools and of its files is.
abbrev pub IsObserved : ObservedProfile → Type 0
IsObserved o =
    (is_some o.runtime ≡ true)
    × (is_some o.effective_workspace_revision ≡ true)
    × (is_some o.observed_isolation_level ≡ true)
    × (is_some o.tool_evidence_completeness ≡ true)
    × (is_some o.file_evidence_completeness ≡ true)

-- Model and provider, configured and observed.
abbrev pub HasModel : ConfiguredProfile → ObservedProfile → Type 0
HasModel c o =
    (is_some c.model ≡ true)
    × (is_some c.provider ≡ true)
    × (is_some o.model ≡ true)
    × (is_some o.provider ≡ true)

-- What the kind of comparison requires beyond that.
abbrev pub HasCompared : ComparisonKind → ConfiguredProfile → ObservedProfile → Type 0
HasCompared ComparisonKind.runtime c o = Unit
HasCompared ComparisonKind.model c o = HasModel c o
HasCompared ComparisonKind.provider c o = HasModel c o
HasCompared ComparisonKind.harness c o = HasModel c o × (is_some c.reasoning_config_sha256 ≡ true)
HasCompared ComparisonKind.budget_policy c o =
    HasModel c o × (is_some c.reasoning_config_sha256 ≡ true)

required_iff :
    (kind : ComparisonKind) (c : ConfiguredProfile) (o : ObservedProfile)
    → (All IsPresent (configured_required c ++ configured_extra kind c)
        × All IsPresent (observed_required o ++ observed_extra kind o))
      ↔ (IsConfigured c × IsObserved o × HasCompared kind c o)
required_iff ComparisonKind.runtime c o = ground arith
required_iff ComparisonKind.model c o = ground arith
required_iff ComparisonKind.provider c o = ground arith
required_iff ComparisonKind.harness c o = ground arith
required_iff ComparisonKind.budget_policy c o = ground arith

-- The identity of a configured and an observed profile is complete exactly when the fields that every
-- comparison needs are configured and observed, and with them, unless runtimes are compared, the
-- model and the provider on both sides, and where harnesses or budget policies are compared, the
-- configured reasoning too.
pub profile_identity-complete_iff :
    (digest : Json → String) (kind : ComparisonKind) (c : ConfiguredProfile) (o : ObservedProfile)
    (i : ProfileIdentity)
    → profile_identity digest kind c o ≡ ok i
    → (i.completeness ≡ complete) ↔ (IsConfigured c × IsObserved o × HasCompared kind c o)
unfolding expected_identity missing_configured missing_observed
profile_identity-complete_iff digest kind c o i h =
    let same : (expected_identity digest kind c o).completeness ≡ i.completeness =
      cc (sym (profile_identity_ok digest kind c o) ∙ h) in
    let lists =
      completeness_of-append digest (missing_configured kind c) (missing_observed kind o) in
    let of_c = missing_fields-empty_iff (configured_required c ++ configured_extra kind c) in
    let of_o = missing_fields-empty_iff (observed_required o ++ observed_extra kind o) in
    let required = required_iff kind c o in
    (
      (λ k. let both = lists.0 (same ∙ k) in required.0 (of_c.0 both.0, of_o.0 both.1)),
      (λ given. let (hc, ho) = required.1 given in sym same ∙ lists.1 (of_c.1 hc, of_o.1 ho)),
    )

same_text_refl : (a : Option String) → same_text a a ≡ true
same_text_refl none = refl
same_text_refl (some s) = str_eq_refl s

same_texts_refl : (xs : List String) → same_texts xs xs ≡ true
same_texts_refl [] = refl
same_texts_refl (x ∷ xs) = rw (str_eq_refl x, same_texts_refl xs) refl

same_completeness_refl : (c : Completeness) → same_completeness c c ≡ true
same_completeness_refl complete = refl
same_completeness_refl incomplete = refl

same_identity_refl : (i : ProfileIdentity) → same_identity i i ≡ true
unfolding same_identity
same_identity_refl i =
    rw
      (
        same_text_refl i.configured_profile_id,
        same_text_refl i.effective_profile_id,
        same_completeness_refl i.completeness,
        same_texts_refl i.incompleteness_reasons,
      )
      refl

same_text-some_iff : (a : Option String) (b : String) → (same_text a (some b) ≡ true) ↔ (a ≡ some b)
same_text-some_iff none b = ((λ h. cc), (λ h. cc))
same_text-some_iff (some a) b =
    ((λ h. ap some ((str_eq_iff a b).0 h)), (λ h. (str_eq_iff a b).1 (cc)))

is_shared-false :
    (b : ExperimentBinding) (run_id : Option String)
    → (is_shared b run_id ≡ false) ↔ ((run_id ≢ some b.experiment_id) × (run_id ≢ some b.pair_id))
is_shared-false b none = ((λ h. ((λ e. cc), (λ e. cc))), (λ h. refl))
is_shared-false b (some r) = ground (arith, str_eq_iff r b.experiment_id, str_eq_iff r b.pair_id)

-- What `build_experiment` puts together.
abbrev pub parts :
    (Json → String)
    → ExperimentBinding
    → ConfiguredProfile
    → ObservedProfile
    → ConfiguredBudget
    → EnforcedBudget
    → Lifecycle
    → Experiment
parts digest binding c o budget enforced lifecycle = record {
  experiment = binding;
  configured_profile = c;
  observed_profile = o;
  profile_identity = expected_identity digest binding.comparison_kind c o;
  configured_budget = budget;
  enforced_budget = enforced;
  lifecycle = lifecycle;
}

-- The evidence of an experiment is built, with the parts that are given and the identity that is
-- computed, exactly when the profile's budget is the configured one and the run id is neither the
-- experiment's nor the pair's; the identity that it computes itself is never refused.
pub build_experiment_ok_iff :
    (digest : Json → String) (binding : ExperimentBinding) (c : ConfiguredProfile)
    (o : ObservedProfile) (budget : ConfiguredBudget) (enforced : EnforcedBudget)
    (lifecycle : Lifecycle)
    → (build_experiment digest binding c o budget enforced lifecycle
        ≡ ok (parts digest binding c o budget enforced lifecycle))
      ↔ ((c.budget_id ≡ some budget.budget_id)
          × (lifecycle.runtime_run_id ≢ some binding.experiment_id)
          × (lifecycle.runtime_run_id ≢ some binding.pair_id))
unfolding build_experiment validate_experiment
build_experiment_ok_iff digest binding c o budget enforced lifecycle =
    rw (profile_identity_ok digest binding.comparison_kind c o) (
      rw (same_identity_refl (expected_identity digest binding.comparison_kind c o)) (
        by_tests (same_text c.budget_id (some budget.budget_id))
          (is_shared binding lifecycle.runtime_run_id)
          (same_text-some_iff c.budget_id budget.budget_id)
          (is_shared-false binding lifecycle.runtime_run_id)))
  where
    by_tests :
        (same shared : Bool)
        → (same ≡ true) ↔ (c.budget_id ≡ some budget.budget_id)
        → (shared ≡ false) ↔ (
            (lifecycle.runtime_run_id ≢ some binding.experiment_id)
            × (lifecycle.runtime_run_id ≢ some binding.pair_id))
        → ((raise_if
                (not same)
                (value_error "configured profile budget_id must match configured budget")
              >> (raise_if shared
                    (value_error "runtime_run_id must remain separate from experiment and pair IDs")
                  >> ok (parts digest binding c o budget enforced lifecycle)))
            ≡ ok (parts digest binding c o budget enforced lifecycle))
          ↔ ((c.budget_id ≡ some budget.budget_id)
              × (lifecycle.runtime_run_id ≢ some binding.experiment_id)
              × (lifecycle.runtime_run_id ≢ some binding.pair_id))
    by_tests false shared same_iff own = ((λ h. cc), (λ h. cc (same_iff.1 h.0)))
    by_tests true true same_iff own = ((λ h. cc), (λ (_, e, p). cc (own.1 (e, p))))
    by_tests true false same_iff own =
        ((λ h. let (e, p) = own.0 refl in (same_iff.0 refl, e, p)), (λ h. refl))

opt_text-eq : (a b : Option String) → opt_text a ≡ opt_text b → a ≡ b
opt_text-eq none none h = refl
opt_text-eq none (some b) h = cc
opt_text-eq (some a) none h = cc
opt_text-eq (some a) (some b) h = cc

opt_workspace-eq : (a b : Option WorkspaceContract) → opt_workspace a ≡ opt_workspace b → a ≡ b
opt_workspace-eq none none h = refl
opt_workspace-eq none (some b) h = cc
opt_workspace-eq (some a) none h = cc
opt_workspace-eq (some a) (some b) h = cc

configured_projection-eq :
    (p q : ConfiguredProfile) → configured_projection p ≡ configured_projection q → p ≡ q
unfolding configured_projection
configured_projection-eq p q h =
    let at : (n : ℕ) → value_at n (configured_projection p) ≡ value_at n (configured_projection q) =
      (λ n. ap (value_at n) h) in
    cc (
      opt_text-eq p.runtime q.runtime (at 0),
      opt_text-eq p.harness q.harness (at 1),
      opt_text-eq p.runtime_version q.runtime_version (at 2),
      opt_text-eq p.model q.model (at 3),
      opt_text-eq p.provider q.provider (at 4),
      opt_text-eq p.execution_mode q.execution_mode (at 5),
      opt_text-eq p.tools_config_sha256 q.tools_config_sha256 (at 6),
      opt_text-eq p.policy_config_sha256 q.policy_config_sha256 (at 7),
      opt_text-eq p.reasoning_config_sha256 q.reasoning_config_sha256 (at 8),
      opt_text-eq p.environment_config_sha256 q.environment_config_sha256 (at 9),
      opt_workspace-eq p.workspace_contract q.workspace_contract (at 10),
      opt_text-eq p.network_policy_identity q.network_policy_identity (at 11),
      opt_text-eq p.sandbox_policy_identity q.sandbox_policy_identity (at 12),
      opt_text-eq p.approval_policy_identity q.approval_policy_identity (at 13),
      opt_text-eq p.budget_id q.budget_id (at 14),
    )

complete-configured_profile_id :
    (digest : Json → String) (kind : ComparisonKind) (c : ConfiguredProfile) (o : ObservedProfile)
    (i : ProfileIdentity)
    → profile_identity digest kind c o ≡ ok i
    → i.completeness ≡ complete
    → i.configured_profile_id ≡ some (digest (configured_projection c))
unfolding expected_identity
complete-configured_profile_id digest kind c o i h full =
    let same : expected_identity digest kind c o ≡ i =
      cc (sym (profile_identity_ok digest kind c o) ∙ h) in
    let none_missing : missing_configured kind c ≡ [] =
      ((completeness_of-append digest (missing_configured kind c) (missing_observed kind o)).0
        (ap (λ (x : ProfileIdentity). x.completeness) same ∙ full)).0 in
    sym (ap (λ (x : ProfileIdentity). x.configured_profile_id) same)
    ∙ ap (λ missing. id_unless digest missing (configured_projection c)) none_missing

-- Two complete identities with one configured id belong to one configured profile, where the digest
-- has no collision on the projections of the two profiles.
pub profile_identity-configured_profile_id :
    (digest : Json → String) (kind kind' : ComparisonKind) (p q : ConfiguredProfile)
    (o o' : ObservedProfile) (i j : ProfileIdentity)
    → profile_identity digest kind p o ≡ ok i
    → profile_identity digest kind' q o' ≡ ok j
    → i.completeness ≡ complete
    → j.completeness ≡ complete
    → (digest (configured_projection p) ≡ digest (configured_projection q)
        → configured_projection p ≡ configured_projection q)
    → i.configured_profile_id ≡ j.configured_profile_id
    → p ≡ q
profile_identity-configured_profile_id digest kind kind' p q o o' i j hi hj full full'
      collision_free same =
    let ids : some (digest (configured_projection p)) ≡ some (digest (configured_projection q)) =
      sym (complete-configured_profile_id digest kind p o i hi full)
      ∙ (same ∙ complete-configured_profile_id digest kind' q o' j hj full') in
    configured_projection-eq p q (collision_free (cc))
