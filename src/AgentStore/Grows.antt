-- ===== src/AgentStore/Grows.antt =====
-- What an outcome of internal/agentenv/state.go saves, against the operations that were there.
pub mod Methods
use mathlib.Core.Path.{subst}
use pomar.Prelude.{
  inr, sym, ℕ, ◌*◌, ◌≡◌, refl, sym, Bool, true, false, ◌&&◌, ◌||◌, not, Option, none, some, String,
  str_eq, [], if◌then◌else◌, length, ltb, leb,
}
use pomar.Prelude.Assoc.{Assoc, lookup}
use pomar.ProviderFence.{is_identity}
use pomar.AgentStore.{
  ModelObservation, Error, stale, conflict, Operation, Control, ControlState, State, Store, Outcome,
  refuse, answer, commit, commit_refused, checked, Task, new_operation, begin_new, begin_found,
  begin_free, begin, is_busy, other_input,
}
use pomar.AgentStore.Calls.{
  ModelReply, with_model, after_reply, observed_model, observe_model_of, observe_model, accept_op,
  unknown_op, set_thread, accept, accept_found, set_unknown,
}
use pomar.AgentStore.Events.{
  observe_op, recover_op, Params, is_turn_event, is_end, observe, observe_params, observe_any,
  reject_stale, recover_all, recover_turns, turn_map, params_limit,
}
use pomar.AgentStore.Controls.{
  begin_control_new, bind_source, begin_control, finish_control, end_control, refuse_permission,
  is_dispatching,
}
use pomar.AgentStore.Service.{
  observes_model, Method, thread_is, begins, accepts, unknown, observes, recovers, binds_source,
  begins_control, finishes_control, unsupported_control, refuses_permission, dispatches, quiet,
  method,
}
use pomar.AgentStore.Kept.{
  IsKept, Holds, Holds-map, Holds-insert, accept_op-IsKept, unknown_op-IsKept, observe_op-IsKept,
  recover_op-IsKept,
}

-- What is saved has each operation that the state has.
unfoldable pub Grows {ℓ} : {A : Type ℓ} → State → Outcome A → Type 0
Grows s (refuse e) = Unit
Grows s (answer a) = Unit
Grows s (commit s' a) =
    (id : String) (a : Operation) → Holds id a s.operations → Holds id a s'.operations
Grows s (commit_refused s' e) =
    (id : String) (a : Operation) → Holds id a s.operations → Holds id a s'.operations

refuse-Grows {ℓ} : (A : Type ℓ) (s : State) (e : Error) → Grows {A = A} s (refuse e)
unfolding Grows
refuse-Grows A s e = tt

module _ {ℓ} {A : Type ℓ} (s : State) where
  answer-Grows : (a : A) → Grows s (answer a)
  unfolding Grows
  answer-Grows a = tt

  commit-Grows :
      (s' : State) (a : A)
      → ((id : String) (op : Operation) → Holds id op s.operations → Holds id op s'.operations)
      → Grows s (commit s' a)
  unfolding Grows
  commit-Grows s' a h = h

  if-Grows :
      (b : Bool) (x y : Outcome A)
      → Grows s x
      → (b ≡ false → Grows s y)
      → Grows s (if b then x else y)
  if-Grows true x y h k = h
  if-Grows false x y h k = k refl

  -- A guard that refuses.
  guard-Grows :
      (b : Bool) (e : Error) (o : Outcome A)
      → (b ≡ false → Grows s o)
      → Grows s (if b then refuse e else o)
  guard-Grows b e o h = if-Grows b (refuse e) o (refuse-Grows _ s e) h

Grows-checked {ℓ} :
    {A : Type ℓ} (incarnation : String) (m : Store) (o : Outcome A)
    → Grows m.s o
    → Grows m.s (checked incarnation m o)
unfolding checked
Grows-checked incarnation m o h =
    guard-Grows m.s m.fatal _ _
      (λ _. if-Grows m.s (str_eq incarnation m.s.incarnation) o _ h (λ _. refuse-Grows _ m.s stale))

Grows-quiet : (s : State) (o : Outcome (Unit {0})) → Grows s o → Grows s (quiet o)
unfolding quiet Grows
Grows-quiet s (refuse e) h = h
Grows-quiet s (answer a) h = h
Grows-quiet s (commit s' a) h = h
Grows-quiet s (commit_refused s' e) h = h

Grows-dispatches {ℓ} :
    {A : Type ℓ} (s : State) (o : Outcome (A × Bool)) → Grows s o → Grows s (dispatches o)
unfolding dispatches Grows
Grows-dispatches s (refuse e) h = h
Grows-dispatches s (answer (a, b)) h = h
Grows-dispatches s (commit s' (a, b)) h = h
Grows-dispatches s (commit_refused s' e) h = h

same-Grows {ℓ} :
    {A : Type ℓ} (s s' : State) (a : A) → s'.operations ≡ s.operations → Grows s (commit s' a)
same-Grows s s' a e = commit-Grows s s' a (λ id op h. subst (Holds id op) (sym e) h)
