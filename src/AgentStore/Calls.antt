-- ===== src/AgentStore/Calls.antt =====
-- internal/agentenv/state.go: the other methods of the store.
use pomar.Prelude.{
  ◌&&◌, ◌||◌, not, Option, none, some, List, [], ◌∷◌, ◌++◌, String, str_eq, if◌then◌else◌,
}
use pomar.Prelude.Assoc.{lookup, insert}
use pomar.ProviderFence.{is_identity}
use pomar.AgentStore.{
  accepted, acceptance_unknown, Operation, Control, Continuation, State, stale, conflict, invalid,
  absent, mismatch, Outcome, refuse, commit, Store, checked, ModelObservation,
}

unfoldable pub set_thread : String → State → Outcome (Unit {0})
set_thread id s = if str_eq id "" then refuse invalid else commit (record s { thread = id }) tt

-- The response to the start or the resumption of a thread.
pub record ModelReply : Type 0 where
  pub thread : String
  pub model : String
  pub provider : String

unfoldable pub rebind : String → String → List Continuation → List Continuation
rebind id thread [] = []
rebind id thread (c ∷ rest) =
    (if str_eq c.successor id then record c { successor_thread = thread } else c)
    ∷ rebind id thread rest

unfoldable pub observed_model : String → String → String → ModelReply → Option ModelObservation
observed_model incarnation id name r =
    if not (str_eq r.model "") && not (str_eq r.provider "")
    then some (record {
      model = r.model;
      provider = r.provider;
      thread = r.thread;
      incarnation = incarnation;
      operation = id;
      method = name;
    })
    else none

unfoldable pub with_model : Option ModelObservation → State → State
with_model none s = record s { model_observation = none }
with_model (some o) s = record s {
  model_observation = some o;
  model_observations = s.model_observations ++ o ∷ [];
}

unfoldable pub after_reply : String → String → String → ModelReply → State → State
after_reply incarnation id name r s =
    with_model (observed_model incarnation id name r)
      (record s { thread = r.thread; continuations = rebind id r.thread s.continuations })

unfoldable pub observe_model_of :
    String
    → String
    → String
    → ModelReply
    → Option Operation
    → Option Control
    → State
    → Outcome (Unit {0})
observe_model_of incarnation id name r (some op) c s =
    if not (str_eq op.incarnation incarnation)
    then refuse stale
    else if str_eq name "thread/resume" && not (str_eq r.thread s.thread)
    then refuse mismatch
    else if str_eq name "thread/start"
        && not (str_eq op.thread "")
        && not (str_eq op.thread r.thread)
    then refuse conflict
    else commit
        (after_reply incarnation id name r
          (record s { operations = insert id (record op { thread = r.thread }) s.operations }))
        tt
observe_model_of incarnation id name r none none s = refuse absent
observe_model_of incarnation id name r none (some c) s =
    if not (str_eq c.incarnation incarnation)
    then refuse absent
    else if str_eq name "thread/resume" && not (str_eq r.thread s.thread)
    then refuse mismatch
    else commit (after_reply incarnation id name r s) tt

-- ObserveModel, for a response that is JSON, or none.
unfoldable pub observe_model :
    String → String → String → Option ModelReply → Store → Outcome (Unit {0})
observe_model incarnation id name none m = refuse invalid
observe_model incarnation id name (some r) m =
    if str_eq r.thread ""
    then refuse invalid
    else checked incarnation m (
        if not (str_eq name "thread/start") && not (str_eq name "thread/resume")
          || not (is_identity id)
        then refuse invalid
        else observe_model_of incarnation id name r (lookup id m.s.operations)
            (lookup id m.s.controls) m.s)

-- Accepted.
unfoldable pub accept_op : String → String → Operation → Operation
accept_op turn thread op = record op {
  turn = turn;
  thread = if str_eq op.thread "" then thread else op.thread;
  state = if str_eq op.completion "" then accepted else op.state;
}

unfoldable pub accept_found :
    String → String → String → Option Operation → State → Outcome (Unit {0})
accept_found incarnation id turn none s = refuse stale
accept_found incarnation id turn (some op) s =
    if not (str_eq op.incarnation incarnation)
    then refuse stale
    else if str_eq turn ""
    then refuse invalid
    else if not (str_eq op.turn "") && not (str_eq op.turn turn)
    then refuse conflict
    else commit (record s { operations = insert id (accept_op turn s.thread op) s.operations }) tt

unfoldable pub accept : String → String → String → State → Outcome (Unit {0})
accept incarnation id turn s = accept_found incarnation id turn (lookup id s.operations) s

-- Unknown.
unfoldable pub unknown_op : Operation → Operation
unknown_op op =
    if str_eq op.completion "" && str_eq op.turn ""
    then record op { state = acceptance_unknown }
    else op

unfoldable pub set_unknown : String → Option Operation → State → Outcome (Unit {0})
set_unknown id none s = refuse absent
set_unknown id (some op) s =
    commit (record s { operations = insert id (unknown_op op) s.operations }) tt
