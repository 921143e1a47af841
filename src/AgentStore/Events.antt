-- ===== src/AgentStore/Events.antt =====
-- internal/agentenv/state.go: the events and the retained turns that an adapter observes.
use pomar.Prelude.{
  ℕ, ◌+◌, ◌*◌, Bool, true, false, ◌&&◌, ◌||◌, not, Option, none, some, List, [], ◌∷◌, ◌++◌, ltb,
  leb, String, str_eq, if◌then◌else◌, length,
}
use pomar.Prelude.Assoc.{Assoc, lookup, insert, map_entries}
use pomar.AgentStore.{
  accepted, finished, Operation, Control, Continuation, State, stale, invalid, uncertain, limit,
  mismatch, Outcome, refuse, commit, commit_refused, Store,
}

-- The parameters of an event that Observe reads: absent where they are no JSON, with their size.
pub record Params : Type 0 where
  pub thread : String
  pub turn_id : String
  pub turn : String
  pub status : String

unfoldable pub turn_of : Params → String
turn_of p = if str_eq p.turn_id "" then p.turn else p.turn_id

unfoldable pub is_end : String → Bool
is_end status = str_eq status "completed" || str_eq status "failed" || str_eq status "interrupted"

unfoldable pub started_op : Params → Operation → Operation
started_op p op = record op {
  turn = turn_of p;
  state = accepted;
  acknowledged = true;
  thread = if str_eq op.thread "" then p.thread else op.thread;
}

-- The loop of Observe over the operations.
unfoldable pub observe_op : String → String → Params → String → Operation → Operation
observe_op incarnation method p id op =
    if not (str_eq op.incarnation incarnation) || not (str_eq op.completion "")
    then op
    else if not (str_eq op.turn "") && not (str_eq op.turn (turn_of p))
    then op
    else if str_eq method "turn/started"
    then started_op p op
    else if str_eq method "turn/completed" && not (str_eq (turn_of p) "")
    then record op { turn = turn_of p; completion = p.status; state = finished }
    else op

abbrev pub params_limit : ℕ
params_limit = 256 * 1024

unfoldable pub is_turn_event : String → Bool
is_turn_event method = str_eq method "turn/started" || str_eq method "turn/completed"

unfoldable pub observe_params : String → String → Option Params → State → Outcome (Unit {0})
observe_params incarnation method none s = refuse invalid
observe_params incarnation method (some p) s =
    if not (str_eq p.thread "") && not (str_eq p.thread s.thread)
    then refuse mismatch
    else if is_turn_event method && (str_eq p.thread "" || str_eq p.turn "")
    then refuse invalid
    else if str_eq method "turn/completed" && not (is_end p.status)
    then refuse invalid
    else commit
        (record s {
          events =
              s.events
              ++ record {
                sequence = length s.events + 1;
                incarnation = incarnation;
                method = method;
              }
                ∷ [];
          operations = map_entries (observe_op incarnation method p) s.operations;
        })
        tt

unfoldable pub observe : String → String → ℕ → Option Params → State → Outcome (Unit {0})
observe incarnation method size params s =
    if leb 8192 (length s.events) || ltb params_limit size
    then refuse limit
    else observe_params incarnation method params s

-- rejectStaleEvent, without the operation and the hash that it notes.
unfoldable pub reject_stale : String → String → ℕ → Option Params → State → Outcome (Unit {0})
reject_stale incarnation method size none s = refuse stale
reject_stale incarnation method size (some p) s =
    if leb 1024 (length s.rejected_events) || ltb params_limit size
    then refuse stale
    else commit_refused
        (record s {
          rejected_events =
              s.rejected_events
              ++ record {
                incarnation = incarnation;
                current = s.incarnation;
                method = method;
                thread = p.thread;
                turn = turn_of p;
              }
                ∷ [];
        })
        stale

unfoldable pub observe_any : String → String → ℕ → Option Params → Store → Outcome (Unit {0})
observe_any incarnation method size params m =
    if m.fatal
    then refuse uncertain
    else if str_eq incarnation m.s.incarnation
    then observe incarnation method size params m.s
    else reject_stale incarnation method size params m.s

-- ObserveRecoveredTurns: the map of the turns of the response, or nothing where an identity is empty or comes twice.
unfoldable pub turn_map : Assoc String → Assoc String → Option (Assoc String)
turn_map turns [] = some turns
turn_map turns ((id, status) ∷ rest) =
    let later = turn_map (insert id status turns) rest in
    if str_eq id "" then none else elim (lookup id turns) [ none ↦ later | some old ↦ none ]

-- closedUnresolved
unfoldable pub closed_unresolved : String → List Continuation → Bool
closed_unresolved id [] = false
closed_unresolved id (c ∷ rest) =
    let later = closed_unresolved id rest in
    if str_eq c.original id && c.closed then true else later

unfoldable pub ended_op : String → String → Option String → Operation → Operation
ended_op incarnation control none op = op
ended_op incarnation control (some status) op =
    if is_end status
    then record op {
      state = finished;
      completion = status;
      observation = some (record {
        incarnation = incarnation;
        operation = control;
        source_method = "thread/resume";
      });
    }
    else op

unfoldable pub recover_op :
    String → String → String → List Continuation → Assoc String → String → Operation → Operation
recover_op incarnation control thread continuations turns id op =
    if str_eq op.incarnation incarnation
      || not (str_eq op.completion "")
      || str_eq op.turn ""
      || closed_unresolved id continuations
      || (not (str_eq op.thread "") && not (str_eq op.thread thread))
    then op
    else ended_op incarnation control (lookup op.turn turns) op

unfoldable pub recover_all :
    String → String → String → Option (Assoc String) → State → Outcome (Unit {0})
recover_all incarnation control thread none s = refuse invalid
recover_all incarnation control thread (some turns) s =
    commit
      (record s {
        operations =
            map_entries (recover_op incarnation control thread s.continuations turns) s.operations;
      })
      tt

unfoldable pub recover_turns :
    String → String → Option Control → String → Assoc String → State → Outcome (Unit {0})
recover_turns incarnation control none thread turns s = refuse mismatch
recover_turns incarnation control (some c) thread turns s =
    if not (str_eq c.kind "resume")
      || not (str_eq c.incarnation incarnation)
      || not (str_eq thread s.thread)
      || str_eq thread ""
    then refuse mismatch
    else recover_all incarnation control thread (turn_map [] turns) s
