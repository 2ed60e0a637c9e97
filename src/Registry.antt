-- ===== src/Registry.antt =====
-- orchestrator/runtime_registry.py: runtimes under explicit names. A runtime is any value.
pub mod Resolve
use adaptive_agent_orchestra.Base.{
  Bool, Option, none, some, List, [], ◌∷◌, ◌++◌, map, String, str_eq, str_append, contains,
  is_blank, Result, ok, err, value_error, key_error, ◌>>◌, raise_if, if◌then◌else◌,
}

module _ {ℓ} {Runtime : Type ℓ} where
  abbrev pub identities : List (String × Runtime) → List String
  identities = map (λ entry. entry.0)

  -- The loop of `RuntimeRegistry.__init__` over the entries left; `ordered` is what stands in
  -- `_items`, and its names are the keys of `_by_identity`.
  unfoldable pub register :
      List (String × Runtime) → List (String × Runtime) → Result (List (String × Runtime))
  register ordered [] = ok ordered
  register ordered (entry ∷ rest) =
      let next = register (ordered ++ entry ∷ []) rest in
      raise_if (is_blank entry.0) (value_error "runtime identity must not be blank")
      >> (raise_if (contains entry.0 (identities ordered))
            (value_error (str_append "duplicate runtime identity: " entry.0))
          >> next)

  -- `RuntimeRegistry(entries=entries)`.
  unfoldable pub new_registry : List (String × Runtime) → Result (List (String × Runtime))
  unfolding register
  new_registry = register []

  -- `RuntimeRegistry.resolve`.
  unfoldable pub resolve : List (String × Runtime) → String → Result Runtime
  resolve [] identity = err (key_error (str_append "unknown runtime identity: " identity))
  resolve (entry ∷ rest) identity =
      let later = resolve rest identity in if str_eq entry.0 identity then ok entry.1 else later
