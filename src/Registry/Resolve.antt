-- ===== src/Registry/Resolve.antt =====
-- What a registry of orchestrator/runtime_registry.py holds and resolves.
use adaptive_agent_orchestra.Base.{
  ◌≡◌, refl, sym, ap, ◌∙◌, subst, false, List, [], ◌∷◌, ◌++◌, String, str_eq_refl, contains,
  is_blank, ok, raise_if, raise_if-eq-ok, >>-eq-ok, arith, str_eq_iff,
}
use adaptive_agent_orchestra.Registry.{identities, register, new_registry, resolve}

append_nil {ℓ} : {A : Type ℓ} (xs : List A) → xs ++ [] ≡ xs
append_nil [] = refl
append_nil (x ∷ xs) = ap (λ t. x ∷ t) (append_nil xs)

append_shift {ℓ} :
    {A : Type ℓ} (xs : List A) (x : A) (ys : List A) → (xs ++ x ∷ []) ++ ys ≡ xs ++ x ∷ ys
append_shift [] x ys = refl
append_shift (y ∷ xs) x ys = ap (λ t. y ∷ t) (append_shift xs x ys)

module _ {ℓ} {Runtime : Type ℓ} where
  register-cons :
      (ordered : List (String × Runtime)) (entry : String × Runtime)
      (rest items : List (String × Runtime))
      → register ordered (entry ∷ rest) ≡ ok items
      → (is_blank entry.0 ≡ false)
        × (contains entry.0 (identities ordered) ≡ false)
        × (register (ordered ++ entry ∷ []) rest ≡ ok items)
  unfolding register
  register-cons ordered entry rest items h =
      let (named, h') = >>-eq-ok (raise_if (is_blank entry.0) _) _ h in
      let (fresh, h'') = >>-eq-ok (raise_if (contains entry.0 (identities ordered)) _) _ h' in
      (raise_if-eq-ok _ _ named, raise_if-eq-ok _ _ fresh, h'')

  register-items :
      (ordered rest items : List (String × Runtime))
      → register ordered rest ≡ ok items
      → ordered ++ rest ≡ items
  unfolding register
  register-items ordered [] items h = append_nil ordered ∙ cc h
  register-items ordered (entry ∷ rest) items h =
      let (named, fresh, h') = register-cons ordered entry rest items h in
      sym (append_shift ordered entry rest) ∙ register-items (ordered ++ entry ∷ []) rest items h'

  register-fresh :
      (ordered before : List (String × Runtime)) (entry : String × Runtime)
      (after items : List (String × Runtime))
      → register ordered (before ++ entry ∷ after) ≡ ok items
      → contains entry.0 (identities (ordered ++ before)) ≡ false
  register-fresh ordered [] entry after items h =
      let (named, fresh, h') = register-cons ordered entry after items h in
      ap (λ xs. contains entry.0 (identities xs)) (append_nil ordered) ∙ fresh
  register-fresh ordered (x ∷ before) entry after items h =
      let (named, fresh, h') = register-cons ordered x (before ++ entry ∷ after) items h in
      ap (λ xs. contains entry.0 (identities xs)) (sym (append_shift ordered x before))
      ∙ register-fresh (ordered ++ x ∷ []) before entry after items h'

  resolve-append :
      (before : List (String × Runtime)) (identity : String) (runtime : Runtime)
      (after : List (String × Runtime))
      → contains identity (identities before) ≡ false
      → resolve (before ++ (identity, runtime) ∷ after) identity ≡ ok runtime
  unfolding resolve
  resolve-append [] identity runtime after fresh = rw (str_eq_refl identity) refl
  resolve-append (x ∷ before) identity runtime after fresh = ground (
    arith,
    resolve-append before identity runtime after,
    str_eq_iff x.0 identity,
    str_eq_iff identity x.0,
  )

  -- A registry that is built holds its entries in their order, and resolves the name of every entry
  -- to the runtime of that entry.
  pub new_registry-resolve :
      (before : List (String × Runtime)) (identity : String) (runtime : Runtime)
      (after items : List (String × Runtime))
      → new_registry (before ++ (identity, runtime) ∷ after) ≡ ok items
      → (items ≡ before ++ (identity, runtime) ∷ after) × (resolve items identity ≡ ok runtime)
  unfolding new_registry
  new_registry-resolve before identity runtime after items h =
      let same = register-items [] (before ++ (identity, runtime) ∷ after) items h in
      (
        sym same,
        subst (λ xs. resolve xs identity ≡ ok runtime) same
            (resolve-append before identity runtime after
              (register-fresh [] before (identity, runtime) after items h)),
      )
