-- ===== src/Delegation/Attempts.antt =====
-- The run ids of a child's attempts (contracts/delegation.py, orchestrator/delegation_executor.py).
use adaptive_agent_orchestra.Base.{
  ◌≡◌, refl, sym, ap, ◌∙◌, true, false, ◌||◌, some, [], ◌++◌, String, str_eq, str_eq_iff, contains,
  has_duplicates, ok, arith, add_new, add_all, contains-++, contains-add_new, contains-add_all,
  has_duplicates-add_new, has_duplicates-add_all,
}
use adaptive_agent_orchestra.Delegation.{
  ChildExecution, from_keys, retain_current_attempt_identity, merge_retry_attempts,
}

-- For two attempts of one child the merge returns an execution: its run ids are exactly those of the
-- two attempts, none of them twice, and its status and its permission to clean the workspace are the
-- current attempt's, whatever the previous attempt's were.
pub merge_retry_attempts_ok :
    (previous current : ChildExecution)
    → previous.child_id ≡ current.child_id
    → (e : ChildExecution) × (merge_retry_attempts previous current ≡ ok e)
      × ((k : String)
          → contains k e.attempt_run_ids
            ≡ (contains k previous.attempt_run_ids || contains k current.attempt_run_ids))
      × (has_duplicates e.attempt_run_ids ≡ false)
      × (e.child_id ≡ previous.child_id)
      × (e.status ≡ current.status)
      × (e.workspace_safe_to_cleanup ≡ current.workspace_safe_to_cleanup)
unfolding merge_retry_attempts from_keys
merge_retry_attempts_ok previous current same =
    let ids = previous.attempt_run_ids ++ current.attempt_run_ids in
    let equal : str_eq previous.child_id current.child_id ≡ true = (str_eq_iff _ _).1 same in
    (
      record current { attempt_run_ids = add_all [] ids },
      rw equal refl,
      (λ k.
          contains-add_all k [] ids
          ∙ contains-++ k previous.attempt_run_ids current.attempt_run_ids),
      has_duplicates-add_all [] ids refl,
      sym same,
      refl,
      refl,
    )

-- A child execution that is built holds the id of its run, and the ids that it was given, each once.
pub retain_current_attempt_identity-attempt_run_ids :
    (e : ChildExecution) (run_id : String)
    → e.run_id ≡ some run_id
    → (contains run_id (retain_current_attempt_identity e).attempt_run_ids ≡ true)
      × ((k : String)
          → contains k (retain_current_attempt_identity e).attempt_run_ids
            ≡ (contains k e.attempt_run_ids || str_eq k run_id))
      × (has_duplicates (retain_current_attempt_identity e).attempt_run_ids ≡ false)
unfolding retain_current_attempt_identity from_keys
retain_current_attempt_identity-attempt_run_ids e run_id h =
    let kept = add_all [] e.attempt_run_ids in
    let holds : (k : String)
        → contains k (add_new kept run_id) ≡ (contains k e.attempt_run_ids || str_eq k run_id) =
      λ k.
        contains-add_new k kept run_id
        ∙ ap (λ b. b || str_eq k run_id) (contains-add_all k [] e.attempt_run_ids) in
    rw h (
      ground (arith, holds run_id, str_eq_iff run_id run_id),
      holds,
      has_duplicates-add_new kept run_id (has_duplicates-add_all [] e.attempt_run_ids refl),
    )
