-- ===== src/Delegation/Dag/Waves.antt =====
-- What one wave of `_execute_dag` returns, with and without a retry.
use adaptive_agent_orchestra.Base.{
  ◌+◌, ◌≡◌, refl, sym, ◌∙◌, Bool, true, false, Bool-cases, Option-cases, ltb, inl, inr, not, Option,
  none, is_some, List, [], ◌∷◌, is_empty, Result, ok, ◌>>=◌, if◌then◌else◌,
}
use adaptive_agent_orchestra.Contracts.Task.{TaskContract}
use adaptive_agent_orchestra.Budget.{BudgetState, BudgetViolation, check_retries, can_submit_calls}
use adaptive_agent_orchestra.Delegation.{ChildExecution}
use adaptive_agent_orchestra.Delegation.Attempts.{merge_retry_attempts_ok}
use adaptive_agent_orchestra.Delegation.Dag.{
  result_id, is_failed, failed_of, merge_all, may_retry, retry_wave, run_wave,
}

-- One execution for each child, in the same order and under its id.
abbrev pub Matches : List TaskContract → List ChildExecution → Type 0
Matches [] [] = Unit
Matches [] (e ∷ es) = ⊥
Matches (c ∷ cs) [] = ⊥
Matches (c ∷ cs) (e ∷ es) = (e.child_id ≡ result_id c) × Matches cs es

-- `asyncio.gather` returns one result for each awaitable, in order.
abbrev pub IsGather :
    (Bool → List TaskContract → BudgetState → List ChildExecution × BudgetState) → Type 0
IsGather gather =
    (retry : Bool) (wave : List TaskContract) (b : BudgetState)
    → Matches wave (gather retry wave b).0

abbrev pub Merged : List TaskContract → Result (List ChildExecution) → Type 0
Merged wave result = (es : List ChildExecution) × (result ≡ ok es) × Matches wave es

Merged-cons :
    (c : TaskContract) (cs : List TaskContract) (e : ChildExecution)
    (rest : Result (List ChildExecution))
    → e.child_id ≡ result_id c
    → Merged cs rest
    → Merged (c ∷ cs) (rest >>= (λ kept. ok (e ∷ kept)))
Merged-cons c cs e rest same (es, returned, matched) = rw returned (e ∷ es, refl, (same, matched))

module _ (c : TaskContract) (cs : List TaskContract) (e : ChildExecution)
    (es : List ChildExecution) where
  merge_all-kept :
      (rs : List ChildExecution)
      → e.child_id ≡ result_id c
      → is_failed e.status ≡ false
      → Merged cs (merge_all es rs)
      → Merged (c ∷ cs) (merge_all (e ∷ es) rs)
  unfolding merge_all
  merge_all-kept [] same fine rest = rw fine (Merged-cons c cs e _ same rest)
  merge_all-kept (r ∷ rs) same fine rest = rw fine (Merged-cons c cs e _ same rest)

  merge_all-retried :
      (rs : List ChildExecution)
      → e.child_id ≡ result_id c
      → is_failed e.status ≡ true
      → ((rs : List ChildExecution) → Matches (failed_of cs es) rs → Merged cs (merge_all es rs))
      → Matches (c ∷ failed_of cs es) rs
      → Merged (c ∷ cs) (merge_all (e ∷ es) rs)
  unfolding merge_all
  merge_all-retried [] same failed rest again = absurd again
  merge_all-retried (r ∷ rs) same failed rest (same', again) =
      let (merged, returned, _, _, id, _, _) = merge_retry_attempts_ok e r (same ∙ sym same') in
      rw (failed, returned) (Merged-cons c cs merged _ (id ∙ same) (rest rs again))

merge_all-Matches :
    (cs : List TaskContract) (es rs : List ChildExecution)
    → Matches cs es
    → Matches (failed_of cs es) rs
    → Merged cs (merge_all es rs)
unfolding merge_all
merge_all-Matches [] [] [] m again = ([], refl, tt)
merge_all-Matches [] [] (r ∷ rs) m again = absurd again
merge_all-Matches [] (e ∷ es) rs m again = absurd m
merge_all-Matches (c ∷ cs) [] rs m again = absurd m
merge_all-Matches (c ∷ cs) (e ∷ es) rs (same, m) again = elim (Bool-cases (is_failed e.status)) [
  | inl failed ↦
      merge_all-retried c cs e es rs same failed (λ rs' m'. merge_all-Matches cs es rs' m m')
        (rw failed at again)
  | inr fine ↦
      merge_all-kept c cs e es rs same fine (merge_all-Matches cs es rs m (rw fine at again))
]

can_submit_calls-one :
    (b : BudgetState) → (v : Option BudgetViolation) × (can_submit_calls b 1 ≡ ok v)
unfolding can_submit_calls
can_submit_calls-one b =
    elim (Bool-cases (ltb b.config.max_total_calls (b.calls_used + b.calls_reserved + 1))) [
      | inl over ↦ rw over (_, refl)
      | inr within ↦ rw within (none, refl)
    ]

may_retry_ok : (b : BudgetState) → (allowed : Bool) × (may_retry b ≡ ok allowed)
unfolding may_retry
may_retry_ok b =
    let (v, submits) = can_submit_calls-one b in
    elim (Option-cases (check_retries b)) [
      | inl clear ↦ (not (is_some v), rw (clear, submits, may_retry) refl)
      | inr (violation, at_limit) ↦ (false, rw (at_limit, may_retry) refl)
    ]

module _ (gather : Bool → List TaskContract → BudgetState → List ChildExecution × BudgetState)
    (gathers : IsGather gather) where
  abbrev pub Ran : List TaskContract → Result (List ChildExecution × BudgetState) → Type 0
  Ran wave result =
      (es : List ChildExecution) × (b' : BudgetState) × (result ≡ ok (es, b')) × Matches wave es

  retry_wave-Ran :
      (wave : List TaskContract) (results : List ChildExecution) (b : BudgetState)
      → Matches wave results
      → Ran wave (retry_wave gather wave results b)
  unfolding retry_wave
  retry_wave-Ran wave results b m =
      let b' = record b { retries_used = b.retries_used + 1 } in
      let (es, returned, matched) =
        merge_all-Matches wave results (gather true (failed_of wave results) b').0 m
          (gathers true (failed_of wave results) b') in
      rw returned (es, _, refl, matched)

  -- A wave runs without an exception and gives one execution for each of its children.
  pub run_wave-Ran :
      (wave : List TaskContract) (b : BudgetState) → Ran wave (run_wave gather wave b)
  unfolding run_wave
  run_wave-Ran wave b =
      let m = gathers false wave b in
      elim (Bool-cases (is_empty (failed_of wave (gather false wave b).0))) [
        | inl clean ↦ rw clean ((gather false wave b).0, (gather false wave b).1, refl, m)
        | inr failures ↦
            let (allowed, asked) = may_retry_ok (gather false wave b).1 in
            rw (failures, asked) (choose allowed)
      ]
    where
      choose :
          (allowed : Bool)
          → Ran wave (
              if allowed
              then retry_wave gather wave (gather false wave b).0 (gather false wave b).1
              else ok (gather false wave b))
      choose true = retry_wave-Ran wave _ _ (gathers false wave b)
      choose false = (_, _, refl, gathers false wave b)
