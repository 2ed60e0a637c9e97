-- ===== src/State/Milestones.antt =====
-- Which statuses lie behind the status of a task.
use adaptive_agent_orchestra.Base.{
  ℕ, ◌≡◌, refl, ap, sym, ◌∙◌, Bool, true, not, ◌||◌, ◌&&◌, false, ◌⊎◌, get_elem?, none, some,
  and_true, ◌==◌, inl, inr, List, [], ◌∷◌, all, All, All-of_all, or_true, String, arith,
}
use adaptive_agent_orchestra.State.{
  TaskStatus, position, transitions, is_allowed, create, Method, calls,
}
use adaptive_agent_orchestra.State.Paths.{statuses, IsHistory, begun, moved, calls-IsHistory}

abbrev every : List TaskStatus
every =
    TaskStatus.received ∷ TaskStatus.profiled ∷ TaskStatus.routed ∷ TaskStatus.running
    ∷ TaskStatus.evaluating ∷ TaskStatus.completed ∷ TaskStatus.failed ∷ TaskStatus.retrying
    ∷ TaskStatus.abandoned ∷ []

every_lem : (P : TaskStatus → Type 0) → All P every → (s : TaskStatus) → P s
every_lem P h TaskStatus.received = h.0
every_lem P h TaskStatus.profiled = h.1.0
every_lem P h TaskStatus.routed = h.1.1.0
every_lem P h TaskStatus.running = h.1.1.1.0
every_lem P h TaskStatus.evaluating = h.1.1.1.1.0
every_lem P h TaskStatus.completed = h.1.1.1.1.1.0
every_lem P h TaskStatus.failed = h.1.1.1.1.1.1.0
every_lem P h TaskStatus.retrying = h.1.1.1.1.1.1.1.0
every_lem P h TaskStatus.abandoned = h.1.1.1.1.1.1.1.1.0

-- The statuses of the first list stand in the second one, in the same order.
abbrev pub IsWithin : List TaskStatus → List TaskStatus → Type 0
IsWithin [] past = Unit
IsWithin (m ∷ ms) [] = ⊥
IsWithin (m ∷ ms) (s ∷ past) = ((m ≡ s) × IsWithin ms past) ⊎ IsWithin (m ∷ ms) past

IsWithin-trans : (xs ys zs : List TaskStatus) → IsWithin xs ys → IsWithin ys zs → IsWithin xs zs
IsWithin-trans [] ys zs h k = tt
IsWithin-trans (x ∷ xs) [] zs h k = absurd h
IsWithin-trans (x ∷ xs) (y ∷ ys) [] h k = absurd k
IsWithin-trans (x ∷ xs) (y ∷ ys) (z ∷ zs) h (inr later) =
    inr (IsWithin-trans (x ∷ xs) (y ∷ ys) zs h later)
IsWithin-trans (x ∷ xs) (y ∷ ys) (z ∷ zs) (inl (first, rest)) (inl (same, others)) =
    inl (first ∙ same, IsWithin-trans xs ys zs rest others)
IsWithin-trans (x ∷ xs) (y ∷ ys) (z ∷ zs) (inr later) (inl (same, others)) =
    inr (IsWithin-trans (x ∷ xs) ys zs later others)

abbrev is_within : List TaskStatus → List TaskStatus → Bool
is_within [] past = true
is_within (m ∷ ms) [] = false
is_within (m ∷ ms) (s ∷ past) =
    ((position m == position s) && is_within ms past) || is_within (m ∷ ms) past

abbrev pub up_to_routed : List TaskStatus
up_to_routed = TaskStatus.routed ∷ TaskStatus.profiled ∷ TaskStatus.received ∷ []

abbrev pub up_to_evaluating : List TaskStatus
up_to_evaluating = TaskStatus.evaluating ∷ TaskStatus.running ∷ up_to_routed

-- The statuses that a task in this status has been in, the latest first.
abbrev pub milestones : TaskStatus → List TaskStatus
milestones TaskStatus.received = TaskStatus.received ∷ []
milestones TaskStatus.profiled = TaskStatus.profiled ∷ TaskStatus.received ∷ []
milestones TaskStatus.routed = up_to_routed
milestones TaskStatus.running = TaskStatus.running ∷ up_to_routed
milestones TaskStatus.evaluating = up_to_evaluating
milestones TaskStatus.completed = TaskStatus.completed ∷ up_to_evaluating
milestones TaskStatus.failed = TaskStatus.failed ∷ up_to_routed
milestones TaskStatus.retrying = TaskStatus.retrying ∷ TaskStatus.failed ∷ up_to_routed
milestones TaskStatus.abandoned = TaskStatus.abandoned ∷ TaskStatus.received ∷ []

same_of : (a b : ℕ) → (a == b) ≡ true → a ≡ b
same_of a b h = ground arith

-- The status at a position of the table.
abbrev at_position : ℕ → TaskStatus
at_position n = elim (get_elem? every n) [ some s ↦ s | none ↦ TaskStatus.received ]

at_position-position : (s : TaskStatus) → at_position (position s) ≡ s
at_position-position =
    every_lem (λ s. at_position (position s) ≡ s)
      (refl, (refl, (refl, (refl, (refl, (refl, (refl, (refl, (refl, tt)))))))))

position_inj : (a b : TaskStatus) → (position a == position b) ≡ true → a ≡ b
position_inj a b h =
    sym (at_position-position a)
    ∙ (ap at_position (same_of (position a) (position b) h) ∙ at_position-position b)

IsWithin-of_is_within : (ms past : List TaskStatus) → is_within ms past ≡ true → IsWithin ms past
IsWithin-of_is_within [] past h = tt
IsWithin-of_is_within (m ∷ ms) [] h = cc
IsWithin-of_is_within (m ∷ ms) (s ∷ past) h =
    elim (or_true ((position m == position s) && is_within ms past) (is_within (m ∷ ms) past) h) [
      | inl now ↦
          let both = and_true (position m == position s) (is_within ms past) now in
          inl (position_inj m s both.0, IsWithin-of_is_within ms past both.1)
      | inr later ↦ inr (IsWithin-of_is_within (m ∷ ms) past later)
    ]

-- A transition of the table adds at most its own status to the milestones.
abbrev adds_one : TaskStatus → TaskStatus → Bool
adds_one old new = not (is_allowed old new) || is_within (milestones new) (new ∷ milestones old)

milestones-is_allowed : (old new : TaskStatus) → adds_one old new ≡ true
unfolding is_allowed transitions
milestones-is_allowed old new =
    every_lem (λ n. adds_one old n ≡ true)
      (All-of_all (adds_one old) every (
        every_lem (λ o. all (adds_one o) every ≡ true)
          (All-of_all (λ o. all (adds_one o) every) every refl) old))
      new

reached :
    (old new : TaskStatus)
    → is_allowed old new ≡ true
    → adds_one old new ≡ true
    → is_within (milestones new) (new ∷ milestones old) ≡ true
reached old new a h = cc (rw a at h)

IsHistory-milestones :
    {s : TaskStatus} {past : List TaskStatus} → IsHistory s past → IsWithin (milestones s) past
IsHistory-milestones begun = inl (refl, tt)
IsHistory-milestones (moved {old} {new} {past} before allowed) =
    IsWithin-trans (milestones new) (new ∷ milestones old) (new ∷ past)
      (IsWithin-of_is_within (milestones new) (new ∷ milestones old)
        (reached old new allowed (milestones-is_allowed old new)))
      (inl (refl, IsHistory-milestones before))

-- The statuses that calls on a fresh record wrote to the database hold, in this order, the statuses
-- that its status presupposes: a completed task was received, then profiled, routed, run and
-- evaluated before it was completed; one being evaluated was running before; a failed one was routed
-- before it failed, and one being retried has failed after that.
pub calls-milestones :
    (ms : List Method) (id : String)
    → IsWithin (milestones (calls ms (create id)).status) (statuses (calls ms (create id)).writes)
calls-milestones ms id = IsHistory-milestones (calls-IsHistory ms id)
