-- ===== src/Evals/Verdict.antt =====
-- The verdict of contracts/evaluation.py and the checks under it.
use adaptive_agent_orchestra.Base.{
  ◌≡◌, ◌≢◌, ◌⊎◌, refl, ◌↔◌, [], ◌∷◌, All-imp, filter, is_empty, arith, Bool, true, false, Option,
  List, All, All-of_filter-empty, filter-empty_of_All, String, if◌then◌else◌,
}
use adaptive_agent_orchestra.Evals.{EvalStatus, EvalCheck, is_failed_blocker, aggregate}

is_failed_blocker-false :
    (c : EvalCheck)
    → (is_failed_blocker c ≡ false) ↔ ((c.blocker ≡ false) ⊎ (c.status ≢ EvalStatus.fail))
is_failed_blocker-false c = ground arith

overall-pass :
    (b : Bool) → (if b then EvalStatus.pass else EvalStatus.fail) ≡ EvalStatus.pass → b ≡ true
overall-pass true h = refl
overall-pass false h = cc

-- The predicate holds of some item.
abbrev pub Some : (EvalCheck → Type 0) → List EvalCheck → Type 0
Some P [] = ⊥
Some P (c ∷ cs) = P c ⊎ Some P cs

Some-of_filter :
    (checks : List EvalCheck)
    → is_empty (filter is_failed_blocker checks) ≡ false
    → Some (λ c. (c.blocker ≡ true) × (c.status ≡ EvalStatus.fail)) checks
Some-of_filter [] h = cc
Some-of_filter (c ∷ cs) h = ground (arith, Some-of_filter cs)

filter_of_Some :
    (checks : List EvalCheck)
    → Some (λ c. (c.blocker ≡ true) × (c.status ≡ EvalStatus.fail)) checks
    → is_empty (filter is_failed_blocker checks) ≡ false
filter_of_Some [] h = absurd h
filter_of_Some (c ∷ cs) h = ground (arith, filter_of_Some cs)

overall-fail :
    (b : Bool) → ((if b then EvalStatus.pass else EvalStatus.fail) ≡ EvalStatus.fail) ↔ (b ≡ false)
overall-fail true = ((λ h. cc), (λ h. cc))
overall-fail false = ((λ h. refl), (λ h. refl))

-- By the code's own test of a check.
pub aggregate-blockers :
    (task_id : String) (run_id : Option String) (checks : List EvalCheck)
    → ((aggregate task_id run_id checks).overall ≡ EvalStatus.pass)
      ↔ All (λ c. is_failed_blocker c ≡ false) checks
unfolding aggregate
aggregate-blockers task_id run_id checks = (
  (λ h. All-of_filter-empty is_failed_blocker checks (overall-pass _ h)),
  (λ h. rw (filter-empty_of_All is_failed_blocker checks h) refl),
)

-- The verdict over a list of checks is a pass exactly when each check is no blocker or has not failed,
-- and a fail exactly when some check of the list is a blocker and has failed.
pub aggregate-pass_iff :
    (task_id : String) (run_id : Option String) (checks : List EvalCheck)
    → (((aggregate task_id run_id checks).overall ≡ EvalStatus.pass)
        ↔ All (λ c. (c.blocker ≡ false) ⊎ (c.status ≢ EvalStatus.fail)) checks)
      × (((aggregate task_id run_id checks).overall ≡ EvalStatus.fail)
          ↔ Some (λ c. (c.blocker ≡ true) × (c.status ≡ EvalStatus.fail)) checks)
unfolding aggregate
aggregate-pass_iff task_id run_id checks =
    let by_blockers = aggregate-blockers task_id run_id checks in
    (
      (
        (λ h. All-imp _ _ (λ c. (is_failed_blocker-false c).0) checks (by_blockers.0 h)),
        (λ h. by_blockers.1 (All-imp _ _ (λ c. (is_failed_blocker-false c).1) checks h)),
      ),
      (
        (λ h. Some-of_filter checks ((overall-fail _).0 h)),
        (λ h. (overall-fail _).1 (filter_of_Some checks h)),
      ),
    )
