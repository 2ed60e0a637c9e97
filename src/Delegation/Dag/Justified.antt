-- ===== src/Delegation/Dag/Justified.antt =====
-- The outcomes of `_execute_dag` in the order in which they arise, and what holds before every round.
use adaptive_agent_orchestra.Base.{
  ◌≡◌, refl, sym, ◌∙◌, subst, ◌⊎◌, inl, inr, Bool, true, false, not, ◌||◌, Bool-cases, or_false,
  List, [], ◌∷◌, ◌++◌, Memᴰ, filter, All, All-imp, All-of_all, String, str_eq, contains,
  ne_of_contains, has_duplicates, arith,
}
use adaptive_agent_orchestra.Contracts.Task.{TaskContract}
use adaptive_agent_orchestra.Delegation.{succeeded}
use adaptive_agent_orchestra.Delegation.Dag.{
  Node, Outcomes, keys, dependencies_of, has_succeeded, is_ready,
}
use adaptive_agent_orchestra.Delegation.Dag.Nodes.{
  All-filter, has_duplicates-keys-filter, contains-keys_either, split-keys,
}

-- The latest outcome first: every name has one outcome, and an execution that succeeded is that of a
-- child whose dependencies all had succeeded before.
abbrev pub IsJustified : List Node → Outcomes → Type 0
IsJustified nodes [] = Unit
IsJustified nodes (o ∷ os) =
    (contains o.0 (keys os) ≡ false)
    × ((succeeded o.1 ≡ false)
        ⊎ ((c : TaskContract) × Memᴰ (o.0, c) nodes
            × All (λ d. has_succeeded os d ≡ true) (dependencies_of c)))
    × IsJustified nodes os

-- The new outcomes are those of the nodes, and what succeeded was ready.
abbrev pub Batch : Outcomes → List Node → Outcomes → Type 0
Batch os [] [] = Unit
Batch os [] (o ∷ new) = ⊥
Batch os (n ∷ ns) [] = ⊥
Batch os (n ∷ ns) (o ∷ new) =
    (o.0 ≡ n.0) × ((succeeded o.1 ≡ false) ⊎ (is_ready os n ≡ true)) × Batch os ns new

contains-outcome :
    (os : Outcomes) (d : String) → has_succeeded os d ≡ true → contains d (keys os) ≡ true
contains-outcome [] d h = cc
contains-outcome (o ∷ os) d h = elim (Bool-cases (str_eq d o.0)) [
  | inl same ↦ rw same refl
  | inr other ↦ rw other (contains-outcome os d (rw (other, has_succeeded) at h))
]

module _ (os : Outcomes) where
  Batch-has_succeeded :
      (ns : List Node) (new : Outcomes) (d : String)
      → Batch os ns new
      → All (λ n. contains n.0 (keys os) ≡ false) ns
      → has_succeeded os d ≡ true
      → has_succeeded (new ++ os) d ≡ true
  Batch-has_succeeded [] [] d b fresh h = h
  Batch-has_succeeded [] (o ∷ new) d b fresh h = absurd b
  Batch-has_succeeded (n ∷ ns) [] d b fresh h = absurd b
  Batch-has_succeeded (n ∷ ns) (o ∷ new) d (same, _, b) (apart, fresh) h =
      let other : str_eq d o.0 ≡ false =
        rw same (ne_of_contains n.0 d (keys os) (contains-outcome os d h) apart) in
      rw (other, has_succeeded) (Batch-has_succeeded ns new d b fresh h)

  Batch-is_ready :
      (ns : List Node) (new : Outcomes) (n : Node)
      → Batch os ns new
      → All (λ n. contains n.0 (keys os) ≡ false) ns
      → is_ready os n ≡ true
      → All (λ d. has_succeeded (new ++ os) d ≡ true) (dependencies_of n.1)
  Batch-is_ready ns new n b fresh h =
      All-imp _ _ (λ d. Batch-has_succeeded ns new d b fresh) (dependencies_of n.1)
        (All-of_all (has_succeeded os) (dependencies_of n.1) h)

  Batch-keys :
      (ns : List Node) (new : Outcomes) (k : String)
      → Batch os ns new
      → contains k (keys (new ++ os)) ≡ (contains k (keys ns) || contains k (keys os))
  Batch-keys [] [] k b = refl
  Batch-keys [] (o ∷ new) k b = absurd b
  Batch-keys (n ∷ ns) [] k b = absurd b
  Batch-keys (n ∷ ns) (o ∷ new) k (same, _, b) = rw same (ground (arith, Batch-keys ns new k b))

  Batch-IsJustified :
      (nodes ns : List Node) (new : Outcomes)
      → Batch os ns new
      → has_duplicates (keys ns) ≡ false
      → All (λ n. contains n.0 (keys os) ≡ false) ns
      → All (λ n. Memᴰ n nodes) ns
      → IsJustified nodes os
      → IsJustified nodes (new ++ os)
  Batch-IsJustified nodes [] [] b distinct fresh known h = h
  Batch-IsJustified nodes [] (o ∷ new) b distinct fresh known h = absurd b
  Batch-IsJustified nodes (n ∷ ns) [] b distinct fresh known h = absurd b
  Batch-IsJustified nodes (n ∷ ns) (o ∷ new) (same, why, b) distinct (apart, fresh) (inside, known)
        h =
      let (alone, later) = or_false (contains n.0 (keys ns)) (has_duplicates (keys ns)) distinct in
      (
        rw same (Batch-keys ns new n.0 b ∙ rw (alone, apart) refl),
        reason why,
        Batch-IsJustified nodes ns new b later fresh known h,
      )
    where
      reason :
          (succeeded o.1 ≡ false) ⊎ (is_ready os n ≡ true)
          → (succeeded o.1 ≡ false)
            ⊎ ((c : TaskContract) × Memᴰ (o.0, c) nodes
                × All (λ d. has_succeeded (new ++ os) d ≡ true) (dependencies_of c))
      reason (inl unsuccessful) = inl unsuccessful
      reason (inr ready) = inr (
        n.1,
        subst (λ k. Memᴰ (k, n.1) nodes) (sym same) inside,
        Batch-is_ready ns new n b fresh ready,
      )

-- What holds before every round.
pub record Inv (nodes pending : List Node) (os : Outcomes) : Type 0 where
  pub distinct : has_duplicates (keys pending) ≡ false
  pub fresh : All (λ n. contains n.0 (keys os) ≡ false) pending
  pub known : All (λ n. Memᴰ n nodes) pending
  pub covered :
      (k : String)
      → contains k (keys nodes) ≡ true
      → (contains k (keys pending) || contains k (keys os)) ≡ true
  pub justified : IsJustified nodes os

fresh_of_both :
    (os : Outcomes) (moved : List Node) (new : Outcomes) (ns : List Node)
    → Batch os moved new
    → All (λ n. contains n.0 (keys moved) ≡ false) ns
    → All (λ n. contains n.0 (keys os) ≡ false) ns
    → All (λ n. contains n.0 (keys (new ++ os)) ≡ false) ns
fresh_of_both os moved new [] b apart fresh = tt
fresh_of_both os moved new (n ∷ ns) b (a, apart) (f, fresh) =
    (Batch-keys os moved new n.0 b ∙ rw (a, f) refl, fresh_of_both os moved new ns b apart fresh)

pub move-Inv :
    (nodes pending : List Node) (os : Outcomes) (q : Node → Bool) (new : Outcomes)
    → Inv nodes pending os
    → Batch os (filter q pending) new
    → Inv nodes (filter (λ n. not (q n)) pending) (new ++ os)
move-Inv nodes pending os q new inv b = record {
  distinct = has_duplicates-keys-filter (λ n. not (q n)) pending inv.distinct;
  fresh =
      fresh_of_both os (filter q pending) new (filter (λ n. not (q n)) pending) b
        (split-keys q pending inv.distinct) (All-filter (λ n. not (q n)) _ pending inv.fresh);
  known = All-filter (λ n. not (q n)) _ pending inv.known;
  covered = λ k h. ground (
    arith,
    inv.covered k h,
    contains-keys_either q k pending,
    Batch-keys os (filter q pending) new k b,
  );
  justified =
      Batch-IsJustified os nodes (filter q pending) new b
        (has_duplicates-keys-filter q pending inv.distinct) (All-filter q _ pending inv.fresh)
        (All-filter q _ pending inv.known) inv.justified;
}
