-- ===== src/AgentStore.antt =====
-- internal/agentenv/state.go: the store of an agent environment's session. JSON texts are given
-- parsed, the hash of an input is given, and of an event its parameters are left out.
pub mod Calls
pub mod Events
pub mod Controls
pub mod Service
pub mod Kept
pub mod Grows
pub mod Retained
pub mod Once
use pomar.Prelude.{
  ℕ, ◌+◌, ◌-◌, ◌*◌, Bool, true, false, ◌&&◌, ◌||◌, not, Option, none, some, List, [], ◌∷◌, ◌++◌,
  ltb, leb, String, str_eq, if◌then◌else◌, length,
}
use pomar.ProviderFence.{is_identity}
use pomar.Prelude.Assoc.{Assoc, lookup, insert, map_entries}

pub data OpState : Type 0 where
  dispatching accepted acceptance_unknown finished : OpState

-- What a completion was recovered from, without the time.
pub record CompletionObservation : Type 0 where
  pub incarnation : String
  pub operation : String
  pub source_method : String

pub record Operation : Type 0 where
  pub incarnation : String
  pub input_hash : String
  pub state : OpState
  pub turn : String
  pub thread : String
  pub acknowledged : Bool
  pub completion : String
  pub observation : Option CompletionObservation

pub data ControlState : Type 0 where
  dispatching sent acceptance_unknown unsupported refused : ControlState

pub record Control : Type 0 where
  pub kind : String
  pub incarnation : String
  pub input_hash : String
  pub state : ControlState

pub record Event : Type 0 where
  pub sequence : ℕ
  pub incarnation : String
  pub method : String

pub record RejectedEvent : Type 0 where
  pub incarnation : String
  pub current : String
  pub method : String
  pub thread : String
  pub turn : String

-- What the store reads of a continuation's binding.
pub record Continuation : Type 0 where
  pub original : String
  pub closed : Bool
  pub successor : String
  pub successor_hash : String
  pub successor_thread : String

-- What an adapter reported of the model, without the time.
pub record ModelObservation : Type 0 where
  pub model : String
  pub provider : String
  pub thread : String
  pub incarnation : String
  pub operation : String
  pub method : String

-- The model observed last is unknown where there is none.
pub record State : Type 0 where
  pub environment : String
  pub session : String
  pub incarnation : String
  pub thread : String
  pub operations : Assoc Operation
  pub controls : Assoc Control
  pub events : List Event
  pub rejected_events : List RejectedEvent
  pub continuations : List Continuation
  pub source : String
  pub model_observation : Option ModelObservation
  pub model_observations : List ModelObservation

pub data Error : Type 0 where
  stale conflict busy invalid uncertain limit not_saved absent mismatch : Error

pub data Result {ℓ} (A : Type ℓ) : Type ℓ where
  ok : A → Result A
  err : Error → Result A

-- What a method does after its guards: it refuses, answers without a write, or saves a new state and
-- then answers or refuses.
pub data Outcome {ℓ} (A : Type ℓ) : Type ℓ where
  refuse : Error → Outcome A
  answer : A → Outcome A
  commit : State → A → Outcome A
  commit_refused : State → Error → Outcome A

-- A write of the journal: it is done, the file is the old one, or it is new though the sync failed.
pub data Save : Type 0 where
  durable lost unsure : Save

pub record Store : Type 0 where
  pub s : State
  pub fatal : Bool

-- The journal on disk, the mark that there was one, and the store of the process that owns it.
pub record World : Type 0 where
  pub disk : Option State
  pub marked : Bool
  pub store : Option Store

unfoldable pub on_disk : Save → State → Option State → Option State
on_disk durable s disk = some s
on_disk lost s disk = disk
on_disk unsure s disk = some s

unfoldable pub is_durable : Save → Bool
is_durable durable = true
is_durable lost = false
is_durable unsure = false

-- save, and how a method ends. After a write that failed the store is fatal.
unfoldable pub ended {ℓ} :
    {A : Type ℓ} → Save → Store → Option State → Outcome A → (Store × Option State) × Result A
ended w m disk (refuse e) = ((m, disk), err e)
ended w m disk (answer a) = ((m, disk), ok a)
ended w m disk (commit s a) = (
  (record { s = s; fatal = if is_durable w then m.fatal else true }, on_disk w s disk),
  if is_durable w then ok a else err not_saved,
)
ended w m disk (commit_refused s e) = (
  (record { s = s; fatal = if is_durable w then m.fatal else true }, on_disk w s disk),
  if is_durable w then err e else err not_saved,
)

-- check
unfoldable pub checked {ℓ} : {A : Type ℓ} → String → Store → Outcome A → Outcome A
checked incarnation m outcome =
    if m.fatal
    then refuse uncertain
    else if str_eq incarnation m.s.incarnation
    then outcome
    else refuse stale

-- The operation is closed by a continuation, whose successor is this one or is complete.
unfoldable pub completed : Option Operation → Bool
completed none = false
completed (some op) = not (str_eq op.completion "")

unfoldable pub continued_by : String → String → State → List Continuation → Bool
continued_by original successor s [] = false
continued_by original successor s (c ∷ rest) =
    let later = continued_by original successor s rest in
    if str_eq c.original original && c.closed
    then str_eq c.successor successor || completed (lookup c.successor s.operations)
    else later

-- Some operation is not complete and not continued.
unfoldable pub is_busy : String → State → Assoc Operation → Bool
is_busy id s [] = false
is_busy id s ((key, op) ∷ rest) =
    let later = is_busy id s rest in
    if str_eq op.completion "" && not (continued_by key id s s.continuations) then true else later

-- A continuation expects another input for this successor.
unfoldable pub other_input : String → String → List Continuation → Bool
other_input id hash [] = false
other_input id hash (c ∷ rest) =
    if str_eq c.successor id && not (str_eq c.successor_hash hash)
    then true
    else other_input id hash rest

pub record Task : Type 0 where
  pub id : String
  pub incarnation : String
  pub size : ℕ
  pub hash : String

unfoldable pub new_operation : Task → Operation
new_operation t = record {
  incarnation = t.incarnation;
  input_hash = t.hash;
  state = dispatching;
  turn = "";
  thread = "";
  acknowledged = false;
  completion = "";
  observation = none;
}

unfoldable pub begin_new : Task → State → Outcome (Operation × Bool)
begin_new t s =
    if is_busy t.id s s.operations
    then refuse busy
    else if other_input t.id t.hash s.continuations
    then refuse conflict
    else commit (record s { operations = insert t.id (new_operation t) s.operations })
        (new_operation t, true)

unfoldable pub begin_found : Task → Option Operation → State → Outcome (Operation × Bool)
begin_found t none s = begin_new t s
begin_found t (some op) s =
    if str_eq op.input_hash t.hash then answer (op, false) else refuse conflict

unfoldable pub begin_free : Task → Option Control → State → Outcome (Operation × Bool)
begin_free t (some c) s = refuse conflict
begin_free t none s = begin_found t (lookup t.id s.operations) s

-- Begin. The pattern of an id is that of a provider's identities.
unfoldable pub begin : Task → State → Outcome (Operation × Bool)
begin t s =
    if not (is_identity t.id) || ltb t.size 1 || ltb (64 * 1024) t.size
    then refuse invalid
    else begin_free t (lookup t.id s.controls) s
