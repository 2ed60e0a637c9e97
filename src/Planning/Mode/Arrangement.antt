-- ===== src/Planning/Mode/Arrangement.antt =====
-- The mode of orchestrator/execution_mode_policy.py for a selected runtime, against the plan's
-- arrangements, the policy and the capabilities.
use adaptive_agent_orchestra.Base.{
  ◌≡◌, refl, sym, subst, ◌⊎◌, inl, inr, true, false, ◌&&◌, ◌||◌, Bool-cases, and_true, or_true,
  some, is_some, String, str_eq, str_eq_iff, is_blank, Result, ok,
}
use adaptive_agent_orchestra.Contracts.Runtime.{RuntimeCapabilities, TaskProfile}
use adaptive_agent_orchestra.Contracts.Selection.{RuntimeSelectionDecision}
use adaptive_agent_orchestra.Contracts.Plan.{
  ExecutionMode, native, direct, delegate, kanban, ExecutionModeDecisionCode, ExecutionModePolicy,
  ExecutionModeDecision, validate_mode_decision, is_known_arrangement,
}
use adaptive_agent_orchestra.Planning.Mode.{
  kanban_reason, mode_decision, decide, select_hermes_mode, select_mode_for, select_execution_mode,
}

-- What must hold for each mode to be chosen.
abbrev pub Permits :
    TaskProfile → RuntimeCapabilities → ExecutionModePolicy → String → ExecutionMode → Type 0
Permits profile capabilities policy runtime native = (runtime ≡ "codex") ⊎ (runtime ≡ "claude_code")
Permits profile capabilities policy runtime direct = Unit
Permits profile capabilities policy runtime delegate =
    (runtime ≡ "hermes")
    × (profile.parallelizable ≡ true)
    × (policy.allow_delegate ≡ true)
    × (capabilities.native_delegation ≡ true)
Permits profile capabilities policy runtime kanban =
    (runtime ≡ "hermes")
    × (is_some (kanban_reason profile) ≡ true)
    × (policy.allow_kanban ≡ true)
    × (capabilities.native_kanban ≡ true)

-- The result is a decision for one mode that is permitted and that the plan's validator accepts.
abbrev pub Arranges :
    TaskProfile
    → RuntimeCapabilities
    → ExecutionModePolicy
    → String
    → Result ExecutionModeDecision
    → Type 0
Arranges profile capabilities policy runtime result =
    (d : ExecutionModeDecision) × (mode : ExecutionMode) × (result ≡ ok d)
    × (d.runtime ≡ some runtime)
    × (d.mode ≡ some mode)
    × (d.policy_version ≡ policy.policy_version)
    × (is_known_arrangement runtime mode ≡ true)
    × Permits profile capabilities policy runtime mode

native_arrangement :
    (runtime : String)
    → (runtime ≡ "codex") ⊎ (runtime ≡ "claude_code")
    → is_known_arrangement runtime native ≡ true
unfolding is_known_arrangement
native_arrangement runtime (inl e) = rw e refl
native_arrangement runtime (inr e) = rw e refl

generic_arrangement :
    (runtime : String)
    → (str_eq runtime "codex" || str_eq runtime "claude_code") ≡ false
    → str_eq runtime "hermes" ≡ false
    → is_known_arrangement runtime direct ≡ true
unfolding is_known_arrangement
generic_arrangement runtime native_runtime hermes = rw (hermes, native_runtime) refl

native_names :
    (runtime : String)
    → (str_eq runtime "codex" || str_eq runtime "claude_code") ≡ true
    → (runtime ≡ "codex") ⊎ (runtime ≡ "claude_code")
native_names runtime h = elim (or_true (str_eq runtime "codex") (str_eq runtime "claude_code") h) [
  | inl e ↦ inl ((str_eq_iff runtime "codex").0 e)
  | inr e ↦ inr ((str_eq_iff runtime "claude_code").0 e)
]

selected_code : ExecutionMode → ExecutionModeDecisionCode
selected_code native = ExecutionModeDecisionCode.selected_native
selected_code direct = ExecutionModeDecisionCode.selected_direct
selected_code delegate = ExecutionModeDecisionCode.selected_delegate
selected_code kanban = ExecutionModeDecisionCode.selected_kanban

module _ (profile : TaskProfile) (capabilities : RuntimeCapabilities)
    (policy : ExecutionModePolicy) where
  decide-Arranges :
      (runtime : String) (mode : ExecutionMode) (reason : String)
      → is_blank runtime ≡ false
      → is_known_arrangement runtime mode ≡ true
      → Permits profile capabilities policy runtime mode
      → Arranges profile capabilities policy runtime
          (decide policy runtime mode (selected_code mode) reason)
  unfolding selected_code decide validate_mode_decision
  decide-Arranges runtime mode reason named known permits = (
    mode_decision policy runtime mode (selected_code mode) reason,
    mode,
    valid mode,
    refl,
    refl,
    refl,
    known,
    permits,
  )
    where
      valid :
          (m : ExecutionMode)
          → decide policy runtime m (selected_code m) reason
            ≡ ok (mode_decision policy runtime m (selected_code m) reason)
      valid native = rw named refl
      valid direct = rw named refl
      valid delegate = rw named refl
      valid kanban = rw named refl

  select_hermes_mode-Arranges :
      Arranges profile capabilities policy "hermes"
        (select_hermes_mode profile "hermes" capabilities policy (kanban_reason profile))
  unfolding select_hermes_mode selected_code
  select_hermes_mode-Arranges =
      elim (Bool-cases
        (is_some (kanban_reason profile) && (policy.allow_kanban && capabilities.native_kanban))) [
          | inl k ↦
              let (asked, rest) = and_true (is_some (kanban_reason profile)) _ k in
              let (allowed, supported) = and_true policy.allow_kanban _ rest in
              rw k (
                decide-Arranges "hermes" kanban _ hermes_named (unfold is_known_arrangement in refl)
                  (refl, asked, allowed, supported))
          | inr no_kanban ↦
              elim (Bool-cases (
                profile.parallelizable
                && (policy.allow_delegate && capabilities.native_delegation))) [
                  | inl d ↦
                      let (parallel, rest) = and_true profile.parallelizable _ d in
                      let (allowed, supported) = and_true policy.allow_delegate _ rest in
                      rw (no_kanban, d)
                        (decide-Arranges "hermes" delegate _ hermes_named
                          (unfold is_known_arrangement in refl)
                          (refl, parallel, allowed, supported))
                  | inr no_delegate ↦
                      rw (no_kanban, no_delegate)
                        (decide-Arranges "hermes" direct _ hermes_named
                          (unfold is_known_arrangement in refl) tt)
                ]
        ]
    where
      hermes_named : is_blank "hermes" ≡ false
      hermes_named = unfold is_blank in refl

  select_mode_for-Arranges :
      (runtime : String)
      → is_blank runtime ≡ false
      → Arranges profile capabilities policy runtime
          (select_mode_for profile runtime capabilities policy)
  unfolding select_mode_for selected_code
  select_mode_for-Arranges runtime named =
      elim (Bool-cases (str_eq runtime "codex" || str_eq runtime "claude_code")) [
        | inl owns ↦
            let names = native_names runtime owns in
            rw owns
              (decide-Arranges runtime native _ named (native_arrangement runtime names) names)
        | inr other ↦ elim (Bool-cases (str_eq runtime "hermes")) [
          | inl hermes ↦
              subst
                (λ r.
                  Arranges profile capabilities policy r
                    (select_mode_for profile r capabilities policy))
                (sym ((str_eq_iff runtime "hermes").0 hermes)) select_hermes_mode-Arranges
          | inr generic ↦
              rw (other, generic)
                (decide-Arranges runtime direct _ named (generic_arrangement runtime other generic)
                  tt)
        ]
      ]

-- For a selected runtime with a name `select_execution_mode` returns a decision that passes its own
-- validator and holds exactly one executable mode, under the policy's version. The runtime plan's
-- validator accepts the mode for this runtime. Native is chosen for codex and claude_code alone;
-- kanban and delegate are chosen for hermes alone, and only if the task asks for it, the policy
-- allows it and the runtime is capable of it.
pub select_execution_mode-Arranges :
    (profile : TaskProfile) (selection : RuntimeSelectionDecision)
    (capabilities : RuntimeCapabilities) (policy : ExecutionModePolicy) (runtime : String)
    → selection.selected_runtime ≡ some runtime
    → is_blank runtime ≡ false
    → Arranges profile capabilities policy runtime
        (select_execution_mode profile selection capabilities policy)
unfolding select_execution_mode
select_execution_mode-Arranges profile selection capabilities policy runtime e named =
    let same : select_execution_mode profile selection capabilities policy
        ≡ select_mode_for profile runtime capabilities policy =
      rw (e, select_execution_mode) refl in
    subst (Arranges profile capabilities policy runtime) (sym same)
      (select_mode_for-Arranges profile capabilities policy runtime named)
