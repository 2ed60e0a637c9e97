-- ===== src/Evals/Paths.antt =====
-- The path check of evals/gate.py. What pathlib, fnmatch and the file system say of a path are the
-- fields of `PathRules`, for one repository.
use adaptive_agent_orchestra.Base.{
  Bool, true, false, ◌||◌, not, Option, none, some, List, [], ◌∷◌, is_empty, filter, any, contains,
  String, str_append, str_eq, if◌then◌else◌,
}
use adaptive_agent_orchestra.Evals.{EvalStatus, EvalCheck}

-- `with_slashes` is `replace("\\", "/")`; `is_inside` says that the parts, joined to the root and
-- resolved, lie below the root.
pub record PathRules : Type 0 where
  pub with_slashes : String → String
  pub is_absolute : String → Bool
  pub is_windows_absolute : String → Bool
  pub parts : String → List String
  pub is_inside : List String → Bool
  pub fnmatch : String → String → Bool

-- `"/".join(parts)`.
abbrev pub join_slashes : List String → String
join_slashes [] = ""
join_slashes (x ∷ []) = x
join_slashes (x ∷ y ∷ rest) = str_append x (str_append "/" (join_slashes (y ∷ rest)))

abbrev pub check : String → EvalStatus → String → Bool → EvalCheck
check name status detail blocker = record {
  name = name;
  status = status;
  detail = detail;
  blocker = blocker;
}

module _ (rules : PathRules) where
  abbrev pub is_rooted : String → Bool
  is_rooted path = rules.is_absolute (rules.with_slashes path) || rules.is_windows_absolute path

  abbrev pub path_parts : String → List String
  path_parts path = rules.parts (rules.with_slashes path)

  abbrev pub kept_parts : String → List String
  kept_parts path = filter (λ part. not (str_eq part "" || str_eq part ".")) (path_parts path)

  unfoldable pub canonical_relative_path : String → Option String
  canonical_relative_path path =
      if is_rooted path
      then none
      else if contains ".." (path_parts path)
      then none
      else if is_empty (kept_parts path)
      then none
      else if rules.is_inside (kept_parts path)
      then some (join_slashes (kept_parts path))
      else none

  abbrev pub is_unsafe : String → Bool
  is_unsafe pattern = is_rooted pattern || contains ".." (path_parts pattern)

  abbrev pub matches_any : List String → Option String → Bool
  matches_any patterns none = false
  matches_any patterns (some path) =
      any (λ pattern. rules.fnmatch path (rules.with_slashes pattern)) patterns

  -- The files that the loop appends to `violations`.
  abbrev pub violations : List String → List String → List String
  violations patterns files =
      filter (λ file. not (matches_any patterns (canonical_relative_path file))) files

  abbrev pub check_files : List String → List String → EvalCheck
  check_files patterns files =
      if is_empty (violations patterns files)
      then check "paths" EvalStatus.pass "all files within allowed_paths" true
      else check "paths" EvalStatus.fail "files outside allowed_paths" true

  -- `check_paths`, on the task's `allowed_paths` and the changed files.
  unfoldable pub check_paths : List String → List String → EvalCheck
  unfolding canonical_relative_path
  check_paths allowed_paths files =
      if is_empty allowed_paths
      then check "paths" EvalStatus.skip "no allowed_paths defined" true
      else if any is_unsafe allowed_paths
      then check "paths" EvalStatus.fail "unsafe allowed_paths pattern" true
      else check_files allowed_paths files
