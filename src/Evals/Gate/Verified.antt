-- ===== src/Evals/Gate/Verified.antt =====
-- When the criteria of evals/gate.py and evals/verifier.py let a run pass.
use adaptive_agent_orchestra.Base.{
  ◌≡◌, refl, sym, ◌∙◌, subst, ◌↔◌, ◌⊎◌, inl, inr, Bool, true, false, ◌&&◌, not, and_true, Option,
  List, [], ◌∷◌, is_empty, all, All, String, ok, ◌>>=◌, >>=-eq-ok, arith, if◌then◌else◌,
}
use adaptive_agent_orchestra.Contracts.Task.{SuccessCriterion, Criterion}
use adaptive_agent_orchestra.Evals.{EvalStatus, EvalCheck}
use adaptive_agent_orchestra.Evals.Paths.{check}
use adaptive_agent_orchestra.Evals.Criteria.{
  CriterionResult, outcome_passed, Verifier, verify_criterion, verify_all, criteria_check, texts_of,
  structured_of, check_success_criteria,
}
use adaptive_agent_orchestra.Evals.Gate.Checks.{Allows}

-- A criterion is verified: its verifier gives a result that has passed.
abbrev pub IsVerified : Verifier → Option String → SuccessCriterion → Type 0
IsVerified verifier observed c =
    (r : CriterionResult) × (verify_criterion verifier observed c c.type ≡ ok r) × (r.passed ≡ true)

abbrev pub CriteriaHold : Verifier → List Criterion → Bool → Option String → Type 0
CriteriaHold verifier criteria completed observed =
    (is_empty (texts_of criteria) ≡ true)
    × ((is_empty (structured_of criteria) ≡ true)
        ⊎ ((completed ≡ true) × All (IsVerified verifier observed) (structured_of criteria)))

verify_all-passed_iff :
    (verifier : Verifier) (observed : Option String) (cs : List SuccessCriterion)
    (rs : List CriterionResult)
    → verify_all verifier observed cs ≡ ok rs
    → (all (λ (r : CriterionResult). r.passed) rs ≡ true) ↔ All (IsVerified verifier observed) cs
unfolding verify_all
verify_all-passed_iff verifier observed [] rs h = ((λ _. tt), (λ _. ground (arith, h)))
verify_all-passed_iff verifier observed (c ∷ cs) rs h =
    let (r, one, after_one) = >>=-eq-ok (verify_criterion verifier observed c c.type) _ h in
    let (rest, others, same) = >>=-eq-ok (verify_all verifier observed cs) _ after_one in
    by_results r rest one (verify_all-passed_iff verifier observed cs rest others) same
  where
    same_result :
        (r r' : CriterionResult)
        → verify_criterion verifier observed c c.type ≡ ok r
        → verify_criterion verifier observed c c.type ≡ ok r'
        → r'.passed ≡ true
        → r.passed ≡ true
    same_result r r' one one' passed = cc

    by_results :
        (r : CriterionResult) (rest : List CriterionResult)
        → verify_criterion verifier observed c c.type ≡ ok r
        → (all (λ (x : CriterionResult). x.passed) rest ≡ true)
          ↔ All (IsVerified verifier observed) cs
        → ok (r ∷ rest) ≡ ok rs
        → (all (λ (x : CriterionResult). x.passed) rs ≡ true)
          ↔ (IsVerified verifier observed c × All (IsVerified verifier observed) cs)
    by_results r rest one rest_iff same =
        let unfolded : all (λ (x : CriterionResult). x.passed) rs
            ≡ (r.passed && all (λ (x : CriterionResult). x.passed) rest) =
          cc in
        (
          (λ h.
              let both = and_true _ _ (sym unfolded ∙ h) in ((r, one, both.0), rest_iff.0 both.1)),
          (λ ((r', one', passed), others).
              ground (arith, unfolded, same_result r r' one one' passed, rest_iff.1 others)),
        )

verify_all-is_empty :
    (verifier : Verifier) (observed : Option String) (cs : List SuccessCriterion)
    (rs : List CriterionResult)
    → verify_all verifier observed cs ≡ ok rs
    → is_empty cs ≡ false
    → is_empty rs ≡ false
unfolding verify_all
verify_all-is_empty verifier observed [] rs h k = cc
verify_all-is_empty verifier observed (c ∷ cs) rs h k =
    let (r, one, after_one) = >>=-eq-ok (verify_criterion verifier observed c c.type) _ h in
    let (rest, others, same) = >>=-eq-ok (verify_all verifier observed cs) _ after_one in cc same

criteria_check-Allows_iff :
    (completed : Bool) (rs : List CriterionResult)
    → is_empty rs ≡ false
    → Allows (criteria_check completed rs)
      ↔ ((completed ≡ true) × (all (λ (r : CriterionResult). r.passed) rs ≡ true))
unfolding outcome_passed
criteria_check-Allows_iff completed rs h = ground (arith, h)

pub check_success_criteria-Allows_iff :
    (verifier : Verifier) (criteria : List Criterion) (completed : Bool) (observed : Option String)
    (c : EvalCheck)
    → check_success_criteria verifier criteria completed observed ≡ ok c
    → Allows c ↔ CriteriaHold verifier criteria completed observed
unfolding check_success_criteria
check_success_criteria-Allows_iff verifier criteria completed observed c h =
    by_lists (is_empty (texts_of criteria)) (is_empty (structured_of criteria)) refl h
  where
    by_check :
        (rs : List CriterionResult)
        → Allows (criteria_check completed rs)
          ↔ ((completed ≡ true) × (all (λ (r : CriterionResult). r.passed) rs ≡ true))
        → (all (λ (r : CriterionResult). r.passed) rs ≡ true)
          ↔ All (IsVerified verifier observed) (structured_of criteria)
        → ok (criteria_check completed rs) ≡ ok c
        → Allows c ↔ (
            (true ≡ true)
            × ((false ≡ true)
                ⊎ ((completed ≡ true)
                    × All (IsVerified verifier observed) (structured_of criteria))))
    by_check rs check_iff all_iff checked = (
      (λ a.
          let both = check_iff.0 (subst Allows (sym (the_check checked)) a) in
          (refl, inr (both.0, all_iff.0 both.1))),
      (λ k. subst Allows (the_check checked) (check_iff.1 (back k.1))),
    )
      where
        back :
            (false ≡ true)
              ⊎ ((completed ≡ true) × All (IsVerified verifier observed) (structured_of criteria))
            → (completed ≡ true) × (all (λ (r : CriterionResult). r.passed) rs ≡ true)
        back (inl h) = cc
        back (inr (d, all_verified)) = (d, all_iff.1 all_verified)

        the_check : ok (criteria_check completed rs) ≡ ok c → criteria_check completed rs ≡ c
        the_check h = cc

    by_lists :
        (no_text no_criteria : Bool)
        → is_empty (structured_of criteria) ≡ no_criteria
        → (if not no_text
            then ok (check "success_criteria" EvalStatus.fail "unverifiable criteria" true)
            else if no_criteria
            then ok (check "success_criteria" EvalStatus.skip "no criteria" true)
            else (verify_all verifier observed (structured_of criteria)
                >>= (λ results. ok (criteria_check completed results))))
          ≡ ok c
        → Allows c ↔ (
            (no_text ≡ true)
            × ((no_criteria ≡ true)
                ⊎ ((completed ≡ true)
                    × All (IsVerified verifier observed) (structured_of criteria))))
    by_lists false no_criteria same h = ((λ a. ground (arith, a, h)), (λ k. cc (k.0)))
    by_lists true true same h = ((λ _. (refl, inl refl)), (λ _. ground (arith, h)))
    by_lists true false same h =
        let (rs, verified, checked) =
          >>=-eq-ok (verify_all verifier observed (structured_of criteria)) _ h in
        by_check rs
          (criteria_check-Allows_iff completed rs
            (verify_all-is_empty verifier observed _ rs verified same))
          (verify_all-passed_iff verifier observed _ rs verified) checked
