-- ===== src/Delegation/Outcomes.antt =====
-- The status of a delegation (contracts/delegation.py) and its children.
use adaptive_agent_orchestra.Base.{
  ◌≤◌, ◌≡◌, refl, ap, ◌↔◌, true, false, Bool-cases, inl, inr, List, [], ◌∷◌, filter, length,
  length-filter-le, All, ◌≢◌, arith,
}
use adaptive_agent_orchestra.Delegation.{
  ChildExecution, DelegationResult, OverallStatus, succeeded, successful_children, successful_count,
  failed_count, overall_status,
}

-- How many children succeeded, and what it says of each.
succeeded_of_length :
    (es : List ChildExecution)
    → length (filter succeeded es) ≡ length es
    → All (λ e. succeeded e ≡ true) es
succeeded_of_length [] h = tt
succeeded_of_length (e ∷ es) h = elim (Bool-cases (succeeded e)) [
  | inl hit ↦ (hit, succeeded_of_length es (ground (arith, hit, h)))
  | inr miss ↦ absurd (ground (arith, miss, h, length-filter-le succeeded es))
]

length_of_succeeded :
    (es : List ChildExecution)
    → All (λ e. succeeded e ≡ true) es
    → length (filter succeeded es) ≡ length es
length_of_succeeded [] h = refl
length_of_succeeded (e ∷ es) (hit, rest) = ground (arith, hit, length_of_succeeded es rest)

none_succeeded :
    (es : List ChildExecution)
    → length (filter succeeded es) ≡ 0
    → All (λ e. succeeded e ≡ false) es
none_succeeded [] h = tt
none_succeeded (e ∷ es) h = elim (Bool-cases (succeeded e)) [
  | inl hit ↦ absurd (ground (arith, hit, h))
  | inr miss ↦ (miss, none_succeeded es (ground (arith, miss, h)))
]

length_of_none :
    (es : List ChildExecution)
    → All (λ e. succeeded e ≡ false) es
    → length (filter succeeded es) ≡ 0
length_of_none [] h = refl
length_of_none (e ∷ es) (miss, rest) = ground (arith, miss, length_of_none es rest)

length-positive : (es : List ChildExecution) → es ≢ [] → 1 ≤ length es
length-positive [] h = absurd (h refl)
length-positive (e ∷ es) h = omega arith

-- A delegation is completed exactly when every child succeeded (also when there is none), and it has
-- failed exactly when there is a child and none succeeded; in every other case it is partly failed.
pub overall_status_iff :
    (r : DelegationResult)
    → ((overall_status r ≡ OverallStatus.completed) ↔ All (λ e. succeeded e ≡ true) r.children)
      × ((overall_status r ≡ OverallStatus.failed)
          ↔ ((r.children ≢ []) × All (λ e. succeeded e ≡ false) r.children))
unfolding overall_status failed_count successful_count successful_children
overall_status_iff r = (
  (
    (λ h.
        succeeded_of_length r.children (ground (arith, h, length-filter-le succeeded r.children))),
    (λ h. ground (arith, length_of_succeeded r.children h)),
  ),
  (
    (λ h. (
      (λ empty. ground (arith, h, ap length empty)),
      none_succeeded r.children (ground (arith, h, length-filter-le succeeded r.children)),
    )),
    (λ (some_child, h).
        ground (arith, length-positive r.children some_child, length_of_none r.children h)),
  ),
)
