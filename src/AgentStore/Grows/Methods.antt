-- ===== src/AgentStore/Grows/Methods.antt =====
-- What the methods of internal/agentenv/state.go save keeps the operations.
use mathlib.Core.Path.{subst}
use pomar.Prelude.{
  sym, ℕ, ◌*◌, ◌≡◌, refl, sym, ◌&&◌, ◌||◌, not, Option, none, some, String, str_eq, [], length, ltb,
  leb,
}
use pomar.Prelude.Assoc.{Assoc, lookup}
use pomar.ProviderFence.{is_identity}
use pomar.AgentStore.{
  ModelObservation, stale, conflict, Operation, Control, ControlState, State, Store, Task,
  new_operation, begin_new, begin_found, begin_free, begin, is_busy, other_input,
}
use pomar.AgentStore.Calls.{
  ModelReply, with_model, after_reply, observed_model, observe_model_of, observe_model, accept_op,
  unknown_op, set_thread, accept, accept_found, set_unknown,
}
use pomar.AgentStore.Events.{
  observe_op, recover_op, Params, is_turn_event, is_end, observe, observe_params, observe_any,
  reject_stale, recover_all, recover_turns, turn_map, params_limit,
}
use pomar.AgentStore.Controls.{
  begin_control_new, bind_source, begin_control, finish_control, end_control, refuse_permission,
  is_dispatching,
}
use pomar.AgentStore.Service.{
  observes_model, Method, thread_is, begins, accepts, unknown, observes, recovers, binds_source,
  begins_control, finishes_control, unsupported_control, refuses_permission, method,
}
use pomar.AgentStore.Kept.{
  unset-IsKept, IsKept, Holds, Holds-map, Holds-insert, accept_op-IsKept, unknown_op-IsKept,
  observe_op-IsKept, recover_op-IsKept,
}
use pomar.AgentStore.Grows.{
  Grows, refuse-Grows, answer-Grows, commit-Grows, if-Grows, guard-Grows, same-Grows, Grows-checked,
  Grows-quiet, Grows-dispatches,
}

begin_new-Grows : (t : Task) (s : State) → lookup t.id s.operations ≡ none → Grows s (begin_new t s)
unfolding begin_new
begin_new-Grows t s new = guard-Grows s (is_busy t.id s s.operations) _ _ (λ _.
    guard-Grows s (other_input t.id t.hash s.continuations) _ _ (λ _.
      commit-Grows s _ _
        (λ id a. Holds-insert t.id (new_operation t) id a s.operations (λ old e. cc))))

begin_found-Grows :
    (t : Task) (o : Option Operation) (s : State)
    → lookup t.id s.operations ≡ o
    → Grows s (begin_found t o s)
unfolding begin_found
begin_found-Grows t none s e = begin_new-Grows t s e
begin_found-Grows t (some op) s e =
    if-Grows s (str_eq op.input_hash t.hash) _ _ (answer-Grows s _) (λ _. refuse-Grows _ s conflict)

begin_free-Grows : (t : Task) (o : Option Control) (s : State) → Grows s (begin_free t o s)
unfolding begin_free
begin_free-Grows t (some c) s = refuse-Grows _ s conflict
begin_free-Grows t none s = begin_found-Grows t (lookup t.id s.operations) s refl

begin-Grows : (t : Task) (s : State) → Grows s (begin t s)
unfolding begin
begin-Grows t s =
    guard-Grows s (not (is_identity t.id) || ltb t.size 1 || ltb (64 * 1024) t.size) _ _
      (λ _. begin_free-Grows t (lookup t.id s.controls) s)

accept_found-Grows :
    (incarnation id turn : String) (o : Option Operation) (s : State)
    → lookup id s.operations ≡ o
    → Grows s (accept_found incarnation id turn o s)
unfolding accept_found
accept_found-Grows incarnation id turn none s e = refuse-Grows _ s stale
accept_found-Grows incarnation id turn (some op) s e =
    guard-Grows s (not (str_eq op.incarnation incarnation)) _ _ (λ _.
      guard-Grows s (str_eq turn "") _ _ (λ _.
        guard-Grows s (not (str_eq op.turn "") && not (str_eq op.turn turn)) _ _ (λ may.
          commit-Grows s _ _ (λ i a.
            Holds-insert id (accept_op turn s.thread op) i a s.operations (λ old e'.
              let same : op ≡ old = cc in
              subst (λ o. IsKept o (accept_op turn s.thread op)) same
                (accept_op-IsKept turn s.thread op may))))))

with_model-operations :
    (o : Option ModelObservation) (s : State) → (with_model o s).operations ≡ s.operations
unfolding with_model
with_model-operations none s = refl
with_model-operations (some o) s = refl

thread-IsKept : (thread : String) (op : Operation) → IsKept op (record op { thread = thread })
thread-IsKept thread op = unset-IsKept op _ refl refl refl refl

observe_model_of-Grows :
    (incarnation id name : String) (r : ModelReply) (o : Option Operation) (c : Option Control)
    (s : State)
    → lookup id s.operations ≡ o
    → Grows s (observe_model_of incarnation id name r o c s)
unfolding observe_model_of after_reply
observe_model_of-Grows incarnation id name r (some op) c s e =
    let model = observed_model incarnation id name r in
    guard-Grows s (not (str_eq op.incarnation incarnation)) _ _ (λ _.
      guard-Grows s (str_eq name "thread/resume" && not (str_eq r.thread s.thread)) _ _ (λ _.
        guard-Grows s
          (str_eq name "thread/start"
            && not (str_eq op.thread "")
            && not (str_eq op.thread r.thread))
          _ _
          (λ _. commit-Grows s _ _ (λ i a h.
            subst (Holds i a) (sym (with_model-operations model _)) (
              Holds-insert id (record op { thread = r.thread }) i a s.operations
                (λ old e'.
                  let same : op ≡ old = cc in
                  subst (λ o. IsKept o (record op { thread = r.thread })) same
                    (thread-IsKept r.thread op))
                h)))))
observe_model_of-Grows incarnation id name r none none s e = refuse-Grows _ s _
observe_model_of-Grows incarnation id name r none (some c) s e =
    guard-Grows s (not (str_eq c.incarnation incarnation)) _ _ (λ _.
      guard-Grows s (str_eq name "thread/resume" && not (str_eq r.thread s.thread)) _ _
        (λ _. same-Grows s _ _ (with_model-operations (observed_model incarnation id name r) _)))

observe_model-Grows :
    (incarnation id name : String) (r : Option ModelReply) (m : Store)
    → Grows m.s (observe_model incarnation id name r m)
unfolding observe_model
observe_model-Grows incarnation id name none m = refuse-Grows _ m.s _
observe_model-Grows incarnation id name (some r) m = guard-Grows m.s (str_eq r.thread "") _ _ (λ _.
    Grows-checked incarnation m _ (
      guard-Grows m.s
        (not (str_eq name "thread/start") && not (str_eq name "thread/resume")
          || not (is_identity id))
        _ _ (λ _. observe_model_of-Grows incarnation id name r _ _ m.s refl)))

set_unknown-Grows :
    (id : String) (o : Option Operation) (s : State)
    → lookup id s.operations ≡ o
    → Grows s (set_unknown id o s)
unfolding set_unknown
set_unknown-Grows id none s e = refuse-Grows _ s _
set_unknown-Grows id (some op) s e = commit-Grows s _ _ (λ i a.
    Holds-insert id (unknown_op op) i a s.operations (λ old e'.
      let same : op ≡ old = cc in
      subst (λ o. IsKept o (unknown_op op)) same (unknown_op-IsKept op)))

observe_params-Grows :
    (incarnation name : String) (p : Option Params) (s : State)
    → Grows s (observe_params incarnation name p s)
unfolding observe_params
observe_params-Grows incarnation name none s = refuse-Grows _ s _
observe_params-Grows incarnation name (some p) s =
    guard-Grows s (not (str_eq p.thread "") && not (str_eq p.thread s.thread)) _ _ (λ _.
      guard-Grows s (is_turn_event name && (str_eq p.thread "" || str_eq p.turn "")) _ _ (λ _.
        guard-Grows s (str_eq name "turn/completed" && not (is_end p.status)) _ _ (λ _.
          commit-Grows s _ _ (λ id a.
            Holds-map (observe_op incarnation name p) id a s.operations
              (observe_op-IsKept incarnation name p)))))

reject_stale-Grows :
    (incarnation name : String) (size : ℕ) (p : Option Params) (s : State)
    → Grows s (reject_stale incarnation name size p s)
unfolding reject_stale Grows
reject_stale-Grows incarnation name size none s = tt
reject_stale-Grows incarnation name size (some p) s =
    guard-Grows s (leb 1024 (length s.rejected_events) || ltb params_limit size) _ _
      (λ _. λ id a h. h)

observe_any-Grows :
    (incarnation name : String) (size : ℕ) (p : Option Params) (m : Store)
    → Grows m.s (observe_any incarnation name size p m)
unfolding observe_any observe
observe_any-Grows incarnation name size p m = guard-Grows m.s m.fatal _ _ (λ _.
    if-Grows m.s (str_eq incarnation m.s.incarnation) _ _
      (guard-Grows m.s (leb 8192 (length m.s.events) || ltb params_limit size) _ _
        (λ _. observe_params-Grows incarnation name p m.s))
      (λ _. reject_stale-Grows incarnation name size p m.s))

recover_all-Grows :
    (incarnation control thread : String) (o : Option (Assoc String)) (s : State)
    → Grows s (recover_all incarnation control thread o s)
unfolding recover_all
recover_all-Grows incarnation control thread none s = refuse-Grows _ s _
recover_all-Grows incarnation control thread (some turns) s = commit-Grows s _ _ (λ id a.
    Holds-map (recover_op incarnation control thread s.continuations turns) id a s.operations
      (recover_op-IsKept incarnation control thread s.continuations turns))

recover_turns-Grows :
    (incarnation control : String) (o : Option Control) (thread : String) (turns : Assoc String)
    (s : State)
    → Grows s (recover_turns incarnation control o thread turns s)
unfolding recover_turns
recover_turns-Grows incarnation control none thread turns s = refuse-Grows _ s _
recover_turns-Grows incarnation control (some c) thread turns s =
    guard-Grows s
      (not (str_eq c.kind "resume")
        || not (str_eq c.incarnation incarnation)
        || not (str_eq thread s.thread)
        || str_eq thread "")
      _ _ (λ _. recover_all-Grows incarnation control thread (turn_map [] turns) s)

begin_control-Grows :
    (kind id incarnation hash : String) (o : Option Operation) (c : Option Control) (s : State)
    → Grows s (begin_control kind id incarnation hash o c s)
unfolding begin_control begin_control_new
begin_control-Grows kind id incarnation hash (some op) c s =
    if-Grows s (is_identity id) _ _ (refuse-Grows _ s _) (λ _. refuse-Grows _ s _)
begin_control-Grows kind id incarnation hash none (some c) s =
    guard-Grows s (not (is_identity id)) _ _
      (λ _. if-Grows s (str_eq c.input_hash hash) _ _ (answer-Grows s _) (λ _. refuse-Grows _ s _))
begin_control-Grows kind id incarnation hash none none s =
    if-Grows s (is_identity id) _ _ (same-Grows s _ _ refl) (λ _. refuse-Grows _ s _)

end_control-Grows :
    (state : ControlState) (id : String) (c : Control) (m : Store)
    → Grows m.s (end_control state id c m)
unfolding end_control
end_control-Grows state id c m = Grows-checked c.incarnation m _ (same-Grows m.s _ _ refl)

finish_control-Grows :
    (state : ControlState) (id : String) (o : Option Control) (m : Store)
    → Grows m.s (finish_control state id o m)
unfolding finish_control
finish_control-Grows state id none m = refuse-Grows _ m.s _
finish_control-Grows state id (some c) m = end_control-Grows state id c m

refuse_permission-Grows :
    (id : String) (o : Option Control) (m : Store) → Grows m.s (refuse_permission id o m)
unfolding refuse_permission
refuse_permission-Grows id none m = refuse-Grows _ m.s _
refuse_permission-Grows id (some c) m =
    if-Grows m.s (str_eq c.kind "permission" && is_dispatching c.state) _ _
      (end_control-Grows _ id c m) (λ _. refuse-Grows _ m.s _)

pub method-Grows : (c : Method) (m : Store) → Grows m.s (method c m)
unfolding method set_thread accept bind_source
method-Grows (thread_is incarnation id) m = Grows-quiet m.s _ (
    Grows-checked incarnation m _
      (guard-Grows m.s (str_eq id "") _ _ (λ _. same-Grows m.s _ _ refl)))
method-Grows (begins t) m =
    Grows-dispatches m.s _ (Grows-checked t.incarnation m _ (begin-Grows t m.s))
method-Grows (observes_model incarnation id name r) m =
    Grows-quiet m.s _ (observe_model-Grows incarnation id name r m)
method-Grows (accepts incarnation id turn) m =
    Grows-quiet m.s _
      (Grows-checked incarnation m _ (accept_found-Grows incarnation id turn _ m.s refl))
method-Grows (unknown incarnation id) m =
    Grows-quiet m.s _ (Grows-checked incarnation m _ (set_unknown-Grows id _ m.s refl))
method-Grows (observes incarnation name size params) m =
    Grows-quiet m.s _ (observe_any-Grows incarnation name size params m)
method-Grows (recovers incarnation id thread turns) m =
    Grows-quiet m.s _
      (Grows-checked incarnation m _ (recover_turns-Grows incarnation id _ thread turns m.s))
method-Grows (binds_source sha) m = Grows-quiet m.s _ (
    guard-Grows m.s (not (str_eq m.s.source "") && not (str_eq m.s.source sha)) _ _
      (λ _. same-Grows m.s _ _ refl))
method-Grows (begins_control kind id incarnation hash) m =
    Grows-dispatches m.s _
      (Grows-checked incarnation m _ (begin_control-Grows kind id incarnation hash _ _ m.s))
method-Grows (finishes_control id known) m = Grows-quiet m.s _ (finish_control-Grows _ id _ m)
method-Grows (unsupported_control id) m = Grows-quiet m.s _ (finish_control-Grows _ id _ m)
method-Grows (refuses_permission id) m = Grows-quiet m.s _ (refuse_permission-Grows id _ m)
