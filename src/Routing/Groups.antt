-- ===== src/Routing/Groups.antt =====
-- `_count_path_groups` of orchestrator/profiler.py counts a set.
use adaptive_agent_orchestra.Base.{
  ℕ, ◌≡◌, ◌≤◌, refl, sym, ◌∙◌, ap, false, List, [], ◌∷◌, map, filter, length, Bool-cases, inl, inr,
  contains, has_duplicates, add_all, contains-add_all, has_duplicates-add_all, length-Subset,
  String, arith,
}
use adaptive_agent_orchestra.Routing.Profiler.{
  top_name, has_text, add_top, collect_tops, at_least_one, count_path_groups,
}

-- The top names of the paths, in their order and without the empty ones.
abbrev pub top_names : List String → List String
top_names paths = filter has_text (map top_name paths)

collect_tops-add_all :
    (tops paths : List String) → collect_tops tops paths ≡ add_all tops (top_names paths)
unfolding collect_tops
collect_tops-add_all tops [] = refl
collect_tops-add_all tops (path ∷ paths) = elim (Bool-cases (has_text (top_name path))) [
  | inl named ↦ collect_tops-add_all (add_top tops (top_name path)) paths ∙ rw named refl
  | inr empty ↦ collect_tops-add_all (add_top tops (top_name path)) paths ∙ rw empty refl
]

antisymm : (m n : ℕ) → m ≤ n → n ≤ m → m ≡ n
antisymm m n le ge = omega arith

-- The number of affected modules is that of the distinct top names of the paths, and at least one: any
-- list that holds exactly the names that are left of the paths, each once, has that length, so
-- neither the order of the paths nor one given twice matters.
pub count_path_groups-length :
    (paths groups : List String)
    → has_duplicates groups ≡ false
    → ((k : String) → contains k groups ≡ contains k (top_names paths))
    → count_path_groups paths ≡ at_least_one (length groups)
unfolding count_path_groups collect_tops
count_path_groups-length [] groups distinct same = ap at_least_one (
    antisymm 0 (length groups) (omega arith)
      (length-Subset groups [] distinct (λ k m. sym (same k) ∙ m)))
count_path_groups-length (path ∷ paths) groups distinct same =
    let tops = collect_tops [] (path ∷ paths) in
    let listed = collect_tops-add_all [] (path ∷ paths) in
    let holds : (k : String) → contains k tops ≡ contains k groups = λ k.
      ap (contains k) listed ∙ contains-add_all k [] (top_names (path ∷ paths)) ∙ sym (same k) in
    let once : has_duplicates tops ≡ false =
      ap has_duplicates listed ∙ has_duplicates-add_all [] (top_names (path ∷ paths)) refl in
    let le = length-Subset tops groups once (λ k m. sym (holds k) ∙ m) in
    let ge = length-Subset groups tops distinct (λ k m. holds k ∙ m) in
    ap at_least_one (antisymm (length tops) (length groups) le ge)
