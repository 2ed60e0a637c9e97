-- ===== src/Engine/Quiet.antt =====
-- When a run may still write to its workspace, as the calls tell it, and the protocols of
-- orchestrator/workspace.py and of the confirmed cancellation by that measure.
use adaptive_agent_orchestra.Base.{◌≡◌, refl, Bool, true, false, ◌&&◌, not, [], ◌∷◌, Error}
use adaptive_agent_orchestra.Engine.Action.{Step, Trail, Session}
use adaptive_agent_orchestra.Engine.Outside.{
  Answers, remove, rollback, cleanup, suppressed_rollback, integrate, cancel_and_confirm_terminal,
}
use adaptive_agent_orchestra.Engine.Rules.{
  After, after, >>=-After, >>-After, try_except-After, branch-After, ask-After,
}

-- A run was submitted and has not been quiesced since.
unfoldable pub alive : Trail → Bool
alive [] = false
alive ((Step.submit, true) ∷ trail) = true
alive ((Step.quiesce, true) ∷ trail) = false
alive (call ∷ trail) = alive trail

-- The steps that take the workspace from the run: its removal and its delivery.
abbrev pub releases : Step → Bool
releases Step.remove_artifacts = true
releases Step.deliver = true
releases _ = false

-- No workspace was removed or delivered while a run was alive.
unfoldable pub contained : Trail → Bool
unfolding alive
contained [] = true
contained (call ∷ trail) = not (releases call.0 && alive trail) && contained trail

abbrev pub Contained : Session → Type 0
Contained s = contained s.trail ≡ true

abbrev pub Quiet : Session → Type 0
Quiet s = (contained s.trail ≡ true) × (alive s.trail ≡ false)

abbrev pub Unchanged : Bool → Session → Type 0
Unchanged flag s = (contained s.trail ≡ true) × (s.terminal_confirmed ≡ flag)

module _ (answers : Answers) where
  remove-After : (s : Session) → Quiet s → After (λ _. Quiet) Quiet (remove answers s)
  unfolding contained alive
  remove-After _ (c, q) =
      >>-After _ _ _ (ask-After _ _ _ (λ _. (rw (q, c) refl, q)) (rw (q, c) refl, q))
        (λ _ h. after h)

  pub rollback-After : (s : Session) → Quiet s → After (λ _. Quiet) Quiet (rollback answers s)
  unfolding rollback
  rollback-After _ quiet = branch-After _ _ _ _ (λ _. after quiet) (λ _. remove-After _ quiet)

  pub cleanup-After : (s : Session) → Quiet s → After (λ _. Quiet) Quiet (cleanup answers s)
  unfolding cleanup
  cleanup-After _ quiet = branch-After _ _ _ _ (λ _. after quiet) (λ _. remove-After _ quiet)

  suppressed_rollback-After :
      (e : Error) (s : Session)
      → Quiet s
      → After (λ _. Quiet) Quiet (suppressed_rollback answers e s)
  suppressed_rollback-After e s quiet =
      >>-After _ _ _
        (try_except-After _ _ _ (rollback-After _ quiet)
          (λ problem s' q. branch-After _ _ _ _ (λ _. after q) (λ _. after q)))
        (λ _ q. after q)

  pub integrate-After : (s : Session) → Quiet s → After (λ _. Quiet) Quiet (integrate answers s)
  unfolding integrate contained alive
  integrate-After _ (c, q) =
      branch-After _ _ _ _ (λ _. after (c, q))
        (λ _.
          try_except-After _ _ _
            (>>-After _ _ _ (ask-After _ _ _ (λ _. (rw (q, c) refl, q)) (rw (q, c) refl, q))
              (λ s' h. cleanup-After _ h))
            (suppressed_rollback-After))

  -- The flag of the caller stays.
  pub cancel_and_confirm_terminal-After :
      (s : Session)
      → Contained s
      → After (λ _. Quiet) (Unchanged s.terminal_confirmed) (cancel_and_confirm_terminal answers s)
  unfolding cancel_and_confirm_terminal contained alive
  cancel_and_confirm_terminal-After s c =
      let Same = Unchanged s.terminal_confirmed in
      >>-After {Q = Same} _ _ _
        (try_except-After {F = Same} _ _ _ (ask-After _ _ _ (λ _. (c, refl)) (c, refl))
          (λ e s' h. after h))
        (λ s' h.
          >>=-After {Q = λ _. Same} _ _ _
            (try_except-After {F = Same} _ _ _ (ask-After _ _ _ (λ _. h) h) (λ e s2 k. after k))
            (λ result s2 k.
              branch-After _ _ _ _
                (λ _.
                  try_except-After {F = Same} _ _ _ (ask-After _ _ _ (λ _. (k.0, refl)) k)
                    (λ e s3 m. after m))
                (λ _. after k)))
