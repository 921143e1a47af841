-- ===== src/Tests/AgentRuns.antt =====
-- Runs of internal/agentenv/state.go.
use pomar.Prelude.{◌≡◌, refl, true, false, none, some, List, [], ◌∷◌, String}
use pomar.Prelude.Assoc.{lookup, insert, map_entries}
use pomar.ProviderFence.{is_identity, is_alnum, is_tail}
use pomar.AgentStore.{
  Operation, dispatching, acceptance_unknown, ok, World, durable, lost, Task, on_disk, is_durable,
  ended, checked, begin, begin_free, begin_found, begin_new, is_busy, other_input, new_operation,
}
use pomar.AgentStore.Calls.{set_thread, accept, accept_found, accept_op}
use pomar.AgentStore.Events.{
  Params, observe_any, observe, observe_params, is_turn_event, is_end, observe_op, turn_of,
  started_op,
}
use pomar.AgentStore.Service.{
  Opening, Event, opens, closes, calls, accepts, observes, thread_is, after, run, open_free,
  open_store, opened, loaded, marking, new_state, called, method, quiet, dispatches, reopened,
  reopened_op,
}
use pomar.AgentStore.Kept.{same-IsKept}
use pomar.AgentStore.Retained.{OnDisk, InMemory, IsRetained, run-IsRetained}
use pomar.AgentStore.Once.{requested, dispatched_once}

abbrev opening : String → Opening
opening incarnation = record {
  environment = "env";
  session = "s";
  incarnation = incarnation;
  readable = true;
  save = durable;
  writes_mark = true;
}

abbrev empty_world : World
empty_world = record { disk = none; marked = false; store = none }

abbrev task : Task
task = record { id = "op-1"; incarnation = "i1"; size = 5; hash = "h" }

abbrev task_again : Task
task_again = record { id = "op-1"; incarnation = "i2"; size = 5; hash = "h" }

abbrev turn_params : Params
turn_params = record { thread = "t"; turn_id = ""; turn = "turn-1"; status = "completed" }

-- The thread is known when the task is begun.
abbrev ready : World
ready = run (opens (opening "i1") ∷ calls durable (thread_is "i1" "t") ∷ []) empty_world

-- The turn is accepted, an event is lost, and the process exits and starts again.
abbrev events : List Event
events =
    calls durable (accepts "i1" "op-1" "turn-1")
    ∷ calls lost (observes "i1" "turn/completed" 90 (some turn_params))
    ∷ closes
    ∷ opens (opening "i2")
    ∷ []

abbrev dispatched : Operation
dispatched = record {
  incarnation = "i1";
  input_hash = "h";
  state = dispatching;
  turn = "";
  thread = "";
  acknowledged = false;
  completion = "";
  observation = none;
}

first_is_dispatched : (requested durable task ready).1 ≡ some (ok true)
unfolding run after open_free open_store opened loaded marking new_state on_disk is_durable called
    ended checked method quiet dispatches set_thread begin begin_free begin_found begin_new is_busy
    other_input lookup is_identity is_alnum is_tail
first_is_dispatched = refl

dispatched_once_example : ¬ (
    (requested durable task_again (run events (requested durable task ready).0)).1 ≡ some (ok true))
dispatched_once_example =
    dispatched_once durable durable task task_again events ready refl first_is_dispatched

retained : IsRetained "op-1" dispatched (requested durable task ready).0
unfolding run after open_free open_store opened loaded marking new_state on_disk is_durable called
    ended checked method quiet dispatches set_thread begin begin_free begin_found begin_new is_busy
    other_input lookup is_identity is_alnum is_tail insert new_operation OnDisk InMemory
retained = record {
  on_disk = record { now = dispatched; found = refl; kept = same-IsKept dispatched };
  in_memory = record { now = dispatched; found = refl; kept = same-IsKept dispatched };
}

run-IsRetained_example : IsRetained "op-1" dispatched (run events (requested durable task ready).0)
run-IsRetained_example =
    run-IsRetained "op-1" dispatched events (requested durable task ready).0 retained

-- After the restart the operation has its turn and, for the lost event, no completion.
unknown_after_restart :
    elim (run events (requested durable task ready).0).disk [
      | none ↦ none
      | some s ↦ lookup "op-1" s.operations
    ]
    ≡ some (record dispatched { turn = "turn-1"; thread = "t"; state = acceptance_unknown })
unfolding run after open_free open_store opened loaded marking new_state on_disk is_durable called
    ended checked method quiet dispatches set_thread begin begin_free begin_found begin_new is_busy
    other_input lookup is_identity is_alnum is_tail insert new_operation accept accept_found
    accept_op observe_any observe observe_params is_turn_event is_end map_entries observe_op turn_of
    started_op reopened reopened_op
unknown_after_restart = refl
