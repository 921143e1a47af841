-- ===== src/AgentStore/Controls.antt =====
-- internal/agentenv/state.go: the baseline of the workspace, and the controls of a session.
use pomar.Prelude.{Bool, true, false, ◌&&◌, not, Option, none, some, String, str_eq, if◌then◌else◌}
use pomar.Prelude.Assoc.{insert}
use pomar.ProviderFence.{is_identity}
use pomar.AgentStore.{
  Operation, ControlState, refused, Control, dispatching, State, conflict, invalid, absent,
  mismatch, Outcome, refuse, answer, commit, Store, checked,
}

-- BindSource does not ask `check`.
unfoldable pub bind_source : String → State → Outcome (Unit {0})
bind_source sha s =
    if not (str_eq s.source "") && not (str_eq s.source sha)
    then refuse mismatch
    else commit (record s { source = sha }) tt

unfoldable pub begin_control_new :
    String → String → String → String → State → Outcome (Control × Bool)
begin_control_new kind id incarnation hash s =
    let c : Control = record {
      kind = kind;
      incarnation = incarnation;
      input_hash = hash;
      state = dispatching;
    } in
    commit (record s { controls = insert id c s.controls }) (c, true)

unfoldable pub begin_control :
    String
    → String
    → String
    → String
    → Option Operation
    → Option Control
    → State
    → Outcome (Control × Bool)
begin_control kind id incarnation hash (some op) c s =
    if is_identity id then refuse conflict else refuse invalid
begin_control kind id incarnation hash none (some c) s =
    if not (is_identity id)
    then refuse invalid
    else if str_eq c.input_hash hash
    then answer (c, false)
    else refuse conflict
begin_control kind id incarnation hash none none s =
    if is_identity id then begin_control_new kind id incarnation hash s else refuse invalid

unfoldable pub end_control : ControlState → String → Control → Store → Outcome (Unit {0})
end_control state id c m =
    checked c.incarnation m
      (commit (record m.s { controls = insert id (record c { state = state }) m.s.controls }) tt)

-- FinishControl and UnsupportedControl.
unfoldable pub finish_control : ControlState → String → Option Control → Store → Outcome (Unit {0})
finish_control state id none m = refuse absent
finish_control state id (some c) m = end_control state id c m

unfoldable pub is_dispatching : ControlState → Bool
is_dispatching dispatching = true
is_dispatching _ = false

unfoldable pub refuse_permission : String → Option Control → Store → Outcome (Unit {0})
refuse_permission id none m = refuse mismatch
refuse_permission id (some c) m =
    if str_eq c.kind "permission" && is_dispatching c.state
    then end_control refused id c m
    else refuse mismatch
