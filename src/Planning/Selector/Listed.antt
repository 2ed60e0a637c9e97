-- ===== src/Planning/Selector/Listed.antt =====
-- What the first listed name of an order says about the names.
use adaptive_agent_orchestra.Base.{
  ◌≡◌, subst, ap, inl, inr, true, false, none, some, Bool-cases, List, [], ◌∷◌, ◌++◌, All, String,
  is_blank, contains,
}
use adaptive_agent_orchestra.Planning.Selector.{first_listed}

-- The runtime stands in the order, and no runtime before it is among the names.
abbrev pub IsFirst : List String → List String → String → Type 0
IsFirst names order runtime =
    (before : List String) × (after : List String) × (order ≡ before ++ runtime ∷ after)
    × All (λ r. contains r names ≡ false) before
    × (contains runtime names ≡ true)

abbrev pub NoneListed : List String → List String → Type 0
NoneListed names order = All (λ r. contains r names ≡ false) order

pub first_listed-some :
    (names order : List String) (runtime : String)
    → first_listed names order ≡ some runtime
    → IsFirst names order runtime
unfolding first_listed
first_listed-some names [] runtime h = cc
first_listed-some names (r ∷ rest) runtime h = elim (Bool-cases (contains r names)) [
  | inl listed ↦
      let found : some r ≡ some runtime = rw listed at h in
      let same : r ≡ runtime = cc found in
      ([], rest, ap (λ x. x ∷ rest) same, tt, subst (λ x. contains x names ≡ true) same listed)
  | inr absent ↦
      let (before, after, split, none_before, inside) =
        first_listed-some names rest runtime (rw absent at h) in
      (r ∷ before, after, ap (λ l. r ∷ l) split, (absent, none_before), inside)
]

pub first_listed-none :
    (names order : List String) → first_listed names order ≡ none → NoneListed names order
unfolding first_listed
first_listed-none names [] h = tt
first_listed-none names (r ∷ rest) h = elim (Bool-cases (contains r names)) [
  | inl listed ↦ cc (rw listed at h)
  | inr absent ↦ (absent, first_listed-none names rest (rw absent at h))
]

-- No entry of the order is blank.
abbrev pub NoBlank : List String → Type 0
NoBlank = All (λ r. is_blank r ≡ false)

pub first_listed-NoBlank :
    (names order : List String) (runtime : String)
    → NoBlank order
    → first_listed names order ≡ some runtime
    → is_blank runtime ≡ false
unfolding first_listed
first_listed-NoBlank names [] runtime b h = cc
first_listed-NoBlank names (r ∷ rest) runtime (own, later) h =
    elim (Bool-cases (contains r names)) [
      | inl listed ↦
          let found : some r ≡ some runtime = rw listed at h in
          let same : r ≡ runtime = cc found in subst (λ x. is_blank x ≡ false) same own
      | inr absent ↦ first_listed-NoBlank names rest runtime later (rw absent at h)
    ]
