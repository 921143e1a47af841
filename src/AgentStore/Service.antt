-- ===== src/AgentStore/Service.antt =====
-- internal/agentenv/state.go: Open, and the store as its callers meet it over restarts.
use pomar.Prelude.{
  ℕ, Bool, true, false, ◌&&◌, ◌||◌, not, Option, none, some, List, [], ◌∷◌, String, str_eq,
  if◌then◌else◌,
}
use pomar.Prelude.Assoc.{Assoc, lookup, map_entries}
use pomar.ProviderFence.{is_identity}
use pomar.AgentStore.{
  acceptance_unknown, Operation, sent, unsupported, Control, State, conflict, absent, mismatch,
  Result, ok, err, Outcome, refuse, answer, commit, commit_refused, Save, is_durable, on_disk,
  Store, World, checked, ended, Task, begin,
}
use pomar.AgentStore.Calls.{ModelReply, observe_model, set_thread, accept, set_unknown}
use pomar.AgentStore.Events.{Params, observe_any, recover_turns}
use pomar.AgentStore.Controls.{
  bind_source, begin_control, finish_control, refuse_permission, is_dispatching,
}

-- Open, over what is on disk: the operations that are not complete become unknown, and so does the
-- model.
unfoldable pub reopened_op : String → Operation → Operation
reopened_op id op = if str_eq op.completion "" then record op { state = acceptance_unknown } else op

unfoldable pub reopened_control : String → Control → Control
reopened_control id c =
    if is_dispatching c.state then record c { state = acceptance_unknown } else c

unfoldable pub reopened : String → State → State
reopened incarnation s = record s {
  incarnation = incarnation;
  operations = map_entries reopened_op s.operations;
  controls = map_entries reopened_control s.controls;
  model_observation = none;
}

unfoldable pub new_state : String → String → String → State
new_state environment session incarnation = record {
  environment = environment;
  session = session;
  incarnation = incarnation;
  thread = "";
  operations = [];
  controls = [];
  events = [];
  rejected_events = [];
  continuations = [];
  source = "";
  model_observation = none;
  model_observations = [];
}

-- The state that Open goes on with, from the disk and the mark.
unfoldable pub loaded : String → String → String → Option State → Bool → Result State
loaded environment session incarnation none true = err absent
loaded environment session incarnation none false = ok (new_state environment session incarnation)
loaded environment session incarnation (some s) marked =
    if not (str_eq s.environment environment) || not (str_eq s.session session)
    then err mismatch
    else if str_eq s.incarnation incarnation
    then err conflict
    else ok (reopened incarnation s)

-- How the write of identity.json ends, where there is none yet.
unfoldable pub marking : Bool → World → World
marking writes world =
    if world.marked || writes then record world { marked = true } else record world { store = none }

unfoldable pub opened : Save → Bool → Result State → World → World
opened w writes (err e) world = world
opened w writes (ok s) world =
    let disk = on_disk w s world.disk in
    if is_durable w
    then marking writes
        (record world { disk = disk; store = some (record { s = s; fatal = false }) })
    else record world { disk = disk }

-- What Open is given, with whether the journal can be read and how its two writes end.
pub record Opening : Type 0 where
  pub environment : String
  pub session : String
  pub incarnation : String
  pub readable : Bool
  pub save : Save
  pub writes_mark : Bool

-- Open, where no process owns the store.
unfoldable pub open_store : Opening → World → World
open_store o world =
    if is_identity o.environment && is_identity o.session && is_identity o.incarnation && o.readable
    then opened o.save o.writes_mark
        (loaded o.environment o.session o.incarnation world.disk world.marked) world
    else world

-- The methods, as requests.
pub data Method : Type 0 where
  thread_is : String → String → Method
  begins : Task → Method
  observes_model : String → String → String → Option ModelReply → Method
  accepts : String → String → String → Method
  unknown : String → String → Method
  observes : String → String → ℕ → Option Params → Method
  recovers : String → String → String → Assoc String → Method
  binds_source : String → Method
  begins_control : String → String → String → String → Method
  finishes_control : String → Bool → Method
  unsupported_control : String → Method
  refuses_permission : String → Method

-- Whether the caller goes on to dispatch.
unfoldable pub dispatches {ℓ} : {A : Type ℓ} → Outcome (A × Bool) → Outcome Bool
dispatches (refuse e) = refuse e
dispatches (answer (a, b)) = answer b
dispatches (commit s (a, b)) = commit s b
dispatches (commit_refused s e) = commit_refused s e

unfoldable pub quiet : Outcome (Unit {0}) → Outcome Bool
quiet (refuse e) = refuse e
quiet (answer a) = answer false
quiet (commit s a) = commit s false
quiet (commit_refused s e) = commit_refused s e

unfoldable pub method : Method → Store → Outcome Bool
method (thread_is incarnation id) m = quiet (checked incarnation m (set_thread id m.s))
method (begins t) m = dispatches (checked t.incarnation m (begin t m.s))
method (observes_model incarnation id name r) m = quiet (observe_model incarnation id name r m)
method (accepts incarnation id turn) m =
    quiet (checked incarnation m (accept incarnation id turn m.s))
method (unknown incarnation id) m =
    quiet (checked incarnation m (set_unknown id (lookup id m.s.operations) m.s))
method (observes incarnation name size params) m =
    quiet (observe_any incarnation name size params m)
method (recovers incarnation id thread turns) m =
    quiet (
      checked incarnation m
        (recover_turns incarnation id (lookup id m.s.controls) thread turns m.s))
method (binds_source sha) m = quiet (bind_source sha m.s)
method (begins_control kind id incarnation hash) m = dispatches (
    checked incarnation m (
      begin_control kind id incarnation hash (lookup id m.s.operations) (lookup id m.s.controls)
        m.s))
method (finishes_control id known) m =
    quiet
      (finish_control (if known then sent else acceptance_unknown) id (lookup id m.s.controls) m)
method (unsupported_control id) m = quiet (finish_control unsupported id (lookup id m.s.controls) m)
method (refuses_permission id) m = quiet (refuse_permission id (lookup id m.s.controls) m)

-- A request is answered only while a process owns the store.
pub data Event : Type 0 where
  opens : Opening → Event
  closes : Event
  calls : Save → Method → Event

-- The lock keeps Open from a store that a process owns.
unfoldable pub open_free : Opening → Option Store → World → World
open_free o none world = open_store o world
open_free o (some m) world = world

unfoldable pub called : Save → Method → Option Store → World → World × Option (Result Bool)
called w c none world = (world, none)
called w c (some m) world =
    let ((new, disk), result) = ended w m world.disk (method c m) in
    (record world { disk = disk; store = some new }, some result)

unfoldable pub after : Event → World → World × Option (Result Bool)
after (opens o) world = (open_free o world.store world, none)
after closes world = (record world { store = none }, none)
after (calls w c) world = called w c world.store world

unfoldable pub run : List Event → World → World
run [] world = world
run (e ∷ events) world = run events (after e world).0
