-- ===== src/Planning/Pipeline/Matching.antt =====
-- The candidate that a selected name stands for.
use adaptive_agent_orchestra.Base.{
  ◌≡◌, refl, sym, subst, ◌⊎◌, inl, inr, Bool, true, false, Bool-cases, or_false, List, [], ◌∷◌, map,
  filter, Memᴰ, String, str_eq, str_eq_iff, contains, has_duplicates, arith,
}
use adaptive_agent_orchestra.Contracts.Runtime.{TaskRequirements}
use adaptive_agent_orchestra.Planning.Filter.{
  RuntimeCandidate, CandidateAssessment, assess_candidate,
}
use adaptive_agent_orchestra.Planning.Selector.{runtime_names}
use adaptive_agent_orchestra.Planning.Pipeline.{matching}

abbrev pub candidate_names : List RuntimeCandidate → List String
candidate_names = map (λ (c : RuntimeCandidate). c.runtime)

-- The candidate found is one of those supplied, and has the name.
pub matching-mem :
    (runtime : String) (candidates : List RuntimeCandidate) (c : RuntimeCandidate)
    (rest : List RuntimeCandidate)
    → matching runtime candidates ≡ c ∷ rest
    → Memᴰ c candidates × (c.runtime ≡ runtime)
matching-mem runtime [] c rest h = cc
matching-mem runtime (x ∷ xs) c rest h = elim (Bool-cases (str_eq x.runtime runtime)) [
  | inl found ↦
      let here : x ∷ matching runtime xs ≡ c ∷ rest = rw found at h in
      let same : x ≡ c = cc here in
      (Memᴰ.head (sym same), cc ((str_eq_iff x.runtime runtime).0 found, same))
  | inr other ↦
      let (member, named) = matching-mem runtime xs c rest (rw other at h) in
      (Memᴰ.tail member, named)
]

pub matching-absent :
    (runtime : String) (candidates : List RuntimeCandidate)
    → contains runtime (candidate_names candidates) ≡ false
    → matching runtime candidates ≡ []
matching-absent runtime [] h = refl
matching-absent runtime (x ∷ xs) h =
    ground (
      arith,
      str_eq_iff runtime x.runtime,
      str_eq_iff x.runtime runtime,
      matching-absent runtime xs,
    )

-- Among distinct names a name that occurs has exactly one candidate.
pub matching_unique :
    (runtime : String) (candidates : List RuntimeCandidate)
    → has_duplicates (candidate_names candidates) ≡ false
    → contains runtime (candidate_names candidates) ≡ true
    → (c : RuntimeCandidate) × (matching runtime candidates ≡ c ∷ [])
matching_unique runtime [] distinct h = cc
matching_unique runtime (x ∷ xs) distinct h =
    let (fresh, apart) = or_false (contains x.runtime (candidate_names xs)) _ distinct in
    elim (Bool-cases (str_eq x.runtime runtime)) [
      | inl found ↦
          let same : x.runtime ≡ runtime = (str_eq_iff x.runtime runtime).0 found in
          (x, rw (found, matching-absent runtime xs (rw same at fresh)))
      | inr other ↦
          let (c, one) =
            matching_unique runtime xs apart
              (ground (arith, str_eq_iff runtime x.runtime, str_eq_iff x.runtime runtime)) in
          (c, rw (other, one))
    ]

module _ (requirements : TaskRequirements) (test : CandidateAssessment → Bool) where
  -- The names of the assessments that pass a test.
  abbrev pub passing : List RuntimeCandidate → List String
  passing candidates = runtime_names (filter test (map (assess_candidate requirements) candidates))

  passing-absent :
      (runtime : String) (candidates : List RuntimeCandidate)
      → matching runtime candidates ≡ []
      → contains runtime (passing candidates) ≡ false
  unfolding assess_candidate
  passing-absent runtime [] h = refl
  passing-absent runtime (x ∷ xs) h = elim (Bool-cases (str_eq x.runtime runtime)) [
    | inl found ↦ cc (rw found at h)
    | inr other ↦ ground (
      arith,
      str_eq_iff runtime x.runtime,
      str_eq_iff x.runtime runtime,
      passing-absent runtime xs (rw other at h),
    )
  ]

  passing-skip :
      (runtime : String) (x : RuntimeCandidate) (xs : List RuntimeCandidate)
      → str_eq x.runtime runtime ≡ false
      → (test (assess_candidate requirements x) ≡ true)
        ⊎ (test (assess_candidate requirements x) ≡ false)
      → contains runtime (passing (x ∷ xs)) ≡ true
      → contains runtime (passing xs) ≡ true
  unfolding assess_candidate
  passing-skip runtime x xs other (inl passed) p =
      let shown : contains runtime (x.runtime ∷ passing xs) ≡ true = rw passed at p in
      ground (arith, str_eq_iff runtime x.runtime, str_eq_iff x.runtime runtime)
  passing-skip runtime x xs other (inr failed) p = rw failed at p

  -- The only candidate of a name that passes has passed itself.
  pub passing-test :
      (runtime : String) (candidates : List RuntimeCandidate) (c : RuntimeCandidate)
      → matching runtime candidates ≡ c ∷ []
      → contains runtime (passing candidates) ≡ true
      → test (assess_candidate requirements c) ≡ true
  passing-test runtime [] c h p = cc
  passing-test runtime (x ∷ xs) c h p = elim (Bool-cases (str_eq x.runtime runtime)) [
    | inl found ↦
        let here : x ∷ matching runtime xs ≡ c ∷ [] = rw found at h in
        let same : x ≡ c = cc here in
        let none_left : matching runtime xs ≡ [] = cc here in
        elim (Bool-cases (test (assess_candidate requirements x))) [
          | inl passed ↦ subst (λ y. test (assess_candidate requirements y) ≡ true) same passed
          | inr failed ↦ cc (rw failed at p, passing-absent runtime xs none_left)
        ]
    | inr other ↦
        passing-test runtime xs c (rw other at h)
          (passing-skip runtime x xs other (Bool-cases (test (assess_candidate requirements x))) p)
  ]
