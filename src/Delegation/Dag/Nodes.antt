-- ===== src/Delegation/Dag/Nodes.antt =====
-- Lists of named nodes, split by a test.
use adaptive_agent_orchestra.Base.{
  ◌+◌, ◌≡◌, refl, ap, Bool, true, false, not, ◌||◌, Bool-cases, or_false, inl, inr, List, [], ◌∷◌,
  filter, length, All, String, str_eq, str_eq_iff, contains, has_duplicates, arith,
}
use adaptive_agent_orchestra.Delegation.Dag.{keys}

module _ {ℓ} {A : Type ℓ} (q : A → Bool) where
  pub All-of_filter : (xs : List A) → All (λ x. q x ≡ true) (filter q xs)
  All-of_filter [] = tt
  All-of_filter (x ∷ xs) = elim (Bool-cases (q x)) [
    | inl held ↦ rw held (held, All-of_filter xs)
    | inr missed ↦ rw missed (All-of_filter xs)
  ]

  pub All-filter {κ} : (P : A → Type κ) (xs : List A) → All P xs → All P (filter q xs)
  All-filter P [] h = tt
  All-filter P (x ∷ xs) (hx, hs) = elim (Bool-cases (q x)) [
    | inl held ↦ rw held (hx, All-filter P xs hs)
    | inr missed ↦ rw missed (All-filter P xs hs)
  ]

  pub length-filter-not :
      (xs : List A) → length (filter q xs) + length (filter (λ x. not (q x)) xs) ≡ length xs
  length-filter-not [] = refl
  length-filter-not (x ∷ xs) = ground (arith, length-filter-not xs)

pub filter-true {ℓ} : {A : Type ℓ} (xs : List A) → filter (λ _. true) xs ≡ xs
filter-true [] = refl
filter-true (x ∷ xs) = ap (λ t. x ∷ t) (filter-true xs)

pub filter-false {ℓ} : {A : Type ℓ} (xs : List A) → filter (λ _. false) xs ≡ []
filter-false [] = refl
filter-false (x ∷ xs) = filter-false xs

module _ {ℓ} {A : Type ℓ} (q : String × A → Bool) where
  contains-keys-filter :
      (k : String) (xs : List (String × A))
      → contains k (keys xs) ≡ false
      → contains k (keys (filter q xs)) ≡ false
  contains-keys-filter k [] h = refl
  contains-keys-filter k (x ∷ xs) h = ground (arith, contains-keys-filter k xs)

  pub has_duplicates-keys-filter :
      (xs : List (String × A))
      → has_duplicates (keys xs) ≡ false
      → has_duplicates (keys (filter q xs)) ≡ false
  has_duplicates-keys-filter [] h = refl
  has_duplicates-keys-filter (x ∷ xs) h =
      ground (arith, has_duplicates-keys-filter xs, contains-keys-filter x.0 xs)

  pub contains-keys_either :
      (k : String) (xs : List (String × A))
      → contains k (keys xs) ≡ true
      → (contains k (keys (filter q xs)) || contains k (keys (filter (λ x. not (q x)) xs))) ≡ true
  contains-keys_either k [] h = cc
  contains-keys_either k (x ∷ xs) h = ground (arith, contains-keys_either k xs)

module _ {ℓ} {A : Type ℓ} where
  other_keys :
      (k : String) (xs : List (String × A))
      → contains k (keys xs) ≡ false
      → All (λ x. str_eq x.0 k ≡ false) xs
  other_keys k [] h = tt
  other_keys k (x ∷ xs) h =
      let (apart, later) = or_false (str_eq k x.0) (contains k (keys xs)) h in
      (ground (arith, apart, str_eq_iff k x.0, str_eq_iff x.0 k), other_keys k xs later)

  -- With distinct keys no key is on both sides of a split.
  pub split-keys :
      (q : String × A → Bool) (xs : List (String × A))
      → has_duplicates (keys xs) ≡ false
      → All (λ x. contains x.0 (keys (filter q xs)) ≡ false) (filter (λ x. not (q x)) xs)
  split-keys q [] h = tt
  split-keys q (x ∷ xs) h =
      let (alone, later) = or_false (contains x.0 (keys xs)) (has_duplicates (keys xs)) h in
      elim (Bool-cases (q x)) [
        | inl held ↦ rw held (
            both xs
              (All-filter (λ y. not (q y)) (λ y. str_eq y.0 x.0 ≡ false) xs
                (other_keys x.0 xs alone))
              (split-keys q xs later))
        | inr missed ↦ rw missed (contains-keys-filter q x.0 xs alone, split-keys q xs later)
      ]
    where
      both :
          (ys : List (String × A))
          → All (λ y. str_eq y.0 x.0 ≡ false) (filter (λ y. not (q y)) ys)
          → All (λ y. contains y.0 (keys (filter q xs)) ≡ false) (filter (λ y. not (q y)) ys)
          → All
              (λ y. (str_eq y.0 x.0 || contains y.0 (keys (filter q xs))) ≡ false)
              (filter (λ y. not (q y)) ys)
      both ys a b = join (filter (λ y. not (q y)) ys) a b
        where
          join :
              (zs : List (String × A))
              → All (λ y. str_eq y.0 x.0 ≡ false) zs
              → All (λ y. contains y.0 (keys (filter q xs)) ≡ false) zs
              → All (λ y. (str_eq y.0 x.0 || contains y.0 (keys (filter q xs))) ≡ false) zs
          join [] a b = tt
          join (z ∷ zs) (a, more_a) (b, more_b) = (rw (a, b) refl, join zs more_a more_b)
