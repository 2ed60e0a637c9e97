-- ===== src/Planning/Filter/Eligibility.antt =====
-- The verdict of `assess_candidate` of orchestrator/candidate_filter.py and its rejection codes.
use adaptive_agent_orchestra.Base.{
  ◌≡◌, refl, ap, ◌↔◌, ◌⊎◌, inl, inr, true, false, ◌&&◌, List, [], ◌∷◌, ◌++◌, All, is_empty, filter,
  All-of_filter-empty, filter-empty_of_All, and_true, Bool-cases, arith,
}
use adaptive_agent_orchestra.Contracts.Runtime.{
  Capability, TaskRequirements, RuntimeCapabilities, HealthStatus, requires, offers,
}
use adaptive_agent_orchestra.Planning.Filter.{
  RuntimeCandidate, capability_names, capability_codes, health_codes, is_missing, missing_in,
  is_usable, assess_candidate,
}

-- The runtime has every capability that the task needs.
abbrev pub Covers : RuntimeCapabilities → TaskRequirements → Type 0
Covers capabilities requirements =
    (name : Capability) → requires requirements name ≡ true → offers capabilities name ≡ true

abbrev pub IsUsable : HealthStatus → Type 0
IsUsable status = (status ≡ HealthStatus.available) ⊎ (status ≡ HealthStatus.degraded)

All_of_names : (P : Capability → Type 0) → All P capability_names → (name : Capability) → P name
All_of_names P h Capability.filesystem_read = h.0
All_of_names P h Capability.filesystem_write = h.1.0
All_of_names P h Capability.shell = h.1.1.0
All_of_names P h Capability.tests = h.1.1.1.0
All_of_names P h Capability.web = h.1.1.1.1.0
All_of_names P h Capability.background_execution = h.1.1.1.1.1.0
All_of_names P h Capability.persistent_tasks = h.1.1.1.1.1.1.0
All_of_names P h Capability.human_in_loop = h.1.1.1.1.1.1.1.0

All-names : (P : Capability → Type 0) → ((name : Capability) → P name) → All P capability_names
All-names P f = (f _, (f _, (f _, (f _, (f _, (f _, (f _, (f _, tt))))))))

not_missing :
    (requirements : TaskRequirements) (capabilities : RuntimeCapabilities) (name : Capability)
    → is_missing requirements capabilities name ≡ false
    → requires requirements name ≡ true
    → offers capabilities name ≡ true
unfolding is_missing
not_missing requirements capabilities name h r = elim (Bool-cases (offers capabilities name)) [
  | inl offered ↦ offered
  | inr lacking ↦ cc (rw (r, lacking) at h)
]

missing_of :
    (requirements : TaskRequirements) (capabilities : RuntimeCapabilities) (name : Capability)
    → (requires requirements name ≡ true → offers capabilities name ≡ true)
    → is_missing requirements capabilities name ≡ false
unfolding is_missing
missing_of requirements capabilities name h = elim (Bool-cases (requires requirements name)) [
  | inl needed ↦ rw (needed, h needed)
  | inr spare ↦ rw spare
]

pub missing_in_iff :
    (requirements : TaskRequirements) (capabilities : RuntimeCapabilities)
    → (is_empty (missing_in requirements capabilities) ≡ true) ↔ Covers capabilities requirements
unfolding missing_in
missing_in_iff requirements capabilities = (forth, back)
  where
    forth :
        is_empty (filter (is_missing requirements capabilities) capability_names) ≡ true
        → Covers capabilities requirements
    forth h name = not_missing requirements capabilities name (
        All_of_names (λ n. is_missing requirements capabilities n ≡ false)
          (All-of_filter-empty (is_missing requirements capabilities) capability_names h) name)

    back :
        Covers capabilities requirements
        → is_empty (filter (is_missing requirements capabilities) capability_names) ≡ true
    back covers = ap is_empty (
        filter-empty_of_All (is_missing requirements capabilities) capability_names (
          All-names (λ n. is_missing requirements capabilities n ≡ false)
            (λ n. missing_of requirements capabilities n (covers n))))

is_usable_iff : (status : HealthStatus) → (is_usable status ≡ true) ↔ IsUsable status
is_usable_iff HealthStatus.available = ((λ h. inl refl), (λ h. refl))
is_usable_iff HealthStatus.degraded = ((λ h. inr refl), (λ h. refl))
is_usable_iff HealthStatus.unavailable = ((λ h. cc), (λ h. ground arith))
is_usable_iff HealthStatus.unknown = ((λ h. cc), (λ h. ground arith))

-- A candidate is eligible exactly when its runtime has every capability that the task requires and
-- its health is available or degraded.
pub assess_candidate-eligible_iff :
    (requirements : TaskRequirements) (candidate : RuntimeCandidate)
    → ((assess_candidate requirements candidate).eligible ≡ true)
      ↔ (Covers candidate.capabilities requirements × IsUsable candidate.health.status)
unfolding assess_candidate
assess_candidate-eligible_iff requirements candidate =
    let missing = missing_in_iff requirements candidate.capabilities in
    let usable = is_usable_iff candidate.health.status in
    (
      (λ h. let both = and_true _ _ h in (missing.0 both.0, usable.0 both.1)),
      (λ (covers, health). rw (missing.1 covers, usable.1 health) refl),
    )

-- The verdict and its explanation agree: a candidate is eligible exactly when it has no rejection
-- code.
pub assess_candidate-rejection_codes :
    (requirements : TaskRequirements) (candidate : RuntimeCandidate)
    → is_empty (assess_candidate requirements candidate).rejection_codes
      ≡ (assess_candidate requirements candidate).eligible
unfolding assess_candidate
assess_candidate-rejection_codes requirements candidate =
    agree (missing_in requirements candidate.capabilities) candidate.health.status
  where
    agree :
        (missing : List Capability) (status : HealthStatus)
        → is_empty (capability_codes missing ++ health_codes status)
          ≡ (is_empty missing && is_usable status)
    agree [] HealthStatus.available = refl
    agree [] HealthStatus.degraded = refl
    agree [] HealthStatus.unavailable = refl
    agree [] HealthStatus.unknown = refl
    agree (c ∷ cs) status = refl
