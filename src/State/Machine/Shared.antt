-- ===== src/State/Machine/Shared.antt =====
-- The record that `create` returns and the one that `get` finds are one object.
use adaptive_agent_orchestra.Base.{
  ℕ, zero, suc, ◌≡◌, refl, ap, ◌∙◌, some, List, [], ◌∷◌, ◌++◌, length, get_elem?, set, String,
  str_eq_refl,
}
use adaptive_agent_orchestra.State.{TaskRecord, create, Method, call, calls}
use adaptive_agent_orchestra.State.Machine.{
  StateMachine, lookup, create_task, get, call_at, calls_at,
}

get_elem-last :
    (xs : List TaskRecord) (x : TaskRecord) → get_elem? (xs ++ x ∷ []) (length xs) ≡ some x
get_elem-last [] x = refl
get_elem-last (y ∷ xs) x = get_elem-last xs x

get_elem-set :
    (xs : List TaskRecord) (i : ℕ) (old new : TaskRecord)
    → get_elem? xs i ≡ some old
    → get_elem? (set xs i new) i ≡ some new
get_elem-set [] i old new h = cc
get_elem-set (x ∷ xs) zero old new h = refl
get_elem-set (x ∷ xs) (suc i) old new h = get_elem-set xs i old new h

call_at-get_elem :
    (m : StateMachine) (place : ℕ) (method : Method) (r : TaskRecord)
    → get_elem? m.heap place ≡ some r
    → (get_elem? (call_at m place method).heap place ≡ some (call method r).1)
      × ((call_at m place method).records ≡ m.records)
unfolding call_at
call_at-get_elem m place method r h = rw h (get_elem-set m.heap place r (call method r).1 h, refl)

calls_at-get_elem :
    (m : StateMachine) (place : ℕ) (methods : List Method) (r : TaskRecord)
    → get_elem? m.heap place ≡ some r
    → (get_elem? (calls_at m place methods).heap place ≡ some (calls methods r))
      × ((calls_at m place methods).records ≡ m.records)
unfolding calls_at calls
calls_at-get_elem m place [] r h = (h, refl)
calls_at-get_elem m place (method ∷ methods) r h =
    let (one, same) = call_at-get_elem m place method r h in
    let (all_of, same') =
      calls_at-get_elem (call_at m place method) place methods (call method r).1 one in
    (all_of, same' ∙ same)

get-lookup :
    (m : StateMachine) (task_id : String) (place : ℕ) (r : TaskRecord)
    → lookup task_id m.records ≡ some place
    → get_elem? m.heap place ≡ some r
    → get m task_id ≡ some r
unfolding get
get-lookup m task_id place r listed found = rw (listed, get) found

lookup-create_task :
    (m : StateMachine) (task_id : String)
    → lookup task_id (create_task task_id m).0.records ≡ some (length m.heap)
unfolding create_task
lookup-create_task m task_id = rw (str_eq_refl task_id, lookup) refl

-- A task that is created is found under its id, and whatever methods are called on the record that
-- `create` returned, `get` finds the record that these calls leave.
pub get-create_task :
    (m : StateMachine) (task_id : String) (methods : List Method)
    → get (calls_at (create_task task_id m).0 (create_task task_id m).1 methods) task_id
      ≡ some (calls methods (create task_id))
unfolding create_task
get-create_task m task_id methods =
    let made = (create_task task_id m).0 in
    let (found, same) =
      calls_at-get_elem made (length m.heap) methods (create task_id)
        (get_elem-last m.heap (create task_id)) in
    get-lookup (calls_at made (length m.heap) methods) task_id (length m.heap)
      (calls methods (create task_id)) (ap (lookup task_id) same ∙ lookup-create_task m task_id)
      found
