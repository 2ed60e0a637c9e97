-- ===== src/State/Machine.antt =====
-- `StateMachine` of orchestrator/state_machine.py. A record is an object that the registry and its
-- callers share: `heap` holds the records that were made, and the dict `_records` holds places in it.
pub mod Shared
use adaptive_agent_orchestra.Base.{
  ℕ, Option, none, some, List, [], ◌∷◌, ◌++◌, length, get_elem?, set, String, str_eq, if◌then◌else◌,
}
use adaptive_agent_orchestra.State.{TaskRecord, create, Method, call}

pub record StateMachine : Type 0 where
  pub heap : List TaskRecord
  pub records : List (String × ℕ)

abbrev pub lookup : String → List (String × ℕ) → Option ℕ
lookup task_id [] = none
lookup task_id (entry ∷ rest) =
    let later = lookup task_id rest in if str_eq task_id entry.0 then some entry.1 else later

-- `StateMachine.create`: the new machine, and the place of the record that is returned. A task id
-- that is there already gets the new record.
unfoldable pub create_task : String → StateMachine → StateMachine × ℕ
create_task task_id m = (
  record { heap = m.heap ++ create task_id ∷ []; records = (task_id, length m.heap) ∷ m.records },
  length m.heap,
)

-- `StateMachine.get`, and the record that stands there.
unfoldable pub get : StateMachine → String → Option TaskRecord
get m task_id = elim (lookup task_id m.records) [
  | none ↦ none
  | some place ↦ get_elem? m.heap place
]

-- A call of a method on the record at a place.
abbrev pub write_back : StateMachine → ℕ → Option TaskRecord → Method → StateMachine
write_back m place none method = m
write_back m place (some r) method = record m { heap = set m.heap place (call method r).1 }

unfoldable pub call_at : StateMachine → ℕ → Method → StateMachine
call_at m place method = write_back m place (get_elem? m.heap place) method

unfoldable pub calls_at : StateMachine → ℕ → List Method → StateMachine
unfolding call_at
calls_at m place [] = m
calls_at m place (method ∷ methods) = calls_at (call_at m place method) place methods
