-- ===== src/AgentStore/Kept.antt =====
-- What the methods of internal/agentenv/state.go leave of an operation.
use pomar.Prelude.{
  ◌≡◌, refl, ap, sym, ◌∙◌, ◌⊎◌, inl, inr, false, ◌&&◌, ◌||◌, not, Option, none, some, String,
  str_eq, eq_iff, List, arith, Bool-cases,
}
use pomar.Prelude.Assoc.{Assoc, lookup, insert, map_entries, lookup-insert, lookup-map_entries}
use pomar.AgentStore.{Operation, Continuation}
use pomar.AgentStore.Calls.{accept_op, unknown_op}
use pomar.AgentStore.Events.{
  Params, turn_of, started_op, observe_op, ended_op, recover_op, closed_unresolved, is_end,
}
use pomar.AgentStore.Service.{reopened_op}

-- The incarnation and the input stay, and so do a turn and a completion that are there.
pub record IsKept (a b : Operation) : Type 0 where
  pub same_incarnation : b.incarnation ≡ a.incarnation
  pub same_input : b.input_hash ≡ a.input_hash
  pub turn_stays : (a.turn ≡ "") ⊎ (b.turn ≡ a.turn)
  pub completion_stays : (a.completion ≡ "") ⊎ (b.completion ≡ a.completion)

-- Neither the incarnation nor the input, the turn or the completion is set.
pub unset-IsKept :
    (a b : Operation)
    → b.incarnation ≡ a.incarnation
    → b.input_hash ≡ a.input_hash
    → b.turn ≡ a.turn
    → b.completion ≡ a.completion
    → IsKept a b
unset-IsKept a b i h t c = record {
  same_incarnation = i;
  same_input = h;
  turn_stays = inr t;
  completion_stays = inr c;
}

pub same-IsKept : (a : Operation) → IsKept a a
same-IsKept a = unset-IsKept a a refl refl refl refl

text_stays : {a b c : String} → (a ≡ "") ⊎ (b ≡ a) → (b ≡ "") ⊎ (c ≡ b) → (a ≡ "") ⊎ (c ≡ a)
text_stays (inl e) q = inl e
text_stays (inr e) (inl e') = inl (sym e ∙ e')
text_stays (inr e) (inr e') = inr (e' ∙ e)

pub IsKept-trans : {a b c : Operation} → IsKept a b → IsKept b c → IsKept a c
IsKept-trans k l = record {
  same_incarnation = l.same_incarnation ∙ k.same_incarnation;
  same_input = l.same_input ∙ k.same_input;
  turn_stays = text_stays k.turn_stays l.turn_stays;
  completion_stays = text_stays k.completion_stays l.completion_stays;
}

-- A text that is empty or already the new one may be set.
set_stays :
    (old new : String)
    → (not (str_eq old "") && not (str_eq old new)) ≡ false
    → (old ≡ "") ⊎ (new ≡ old)
set_stays old new h = elim (Bool-cases (str_eq old "")) [
  | inl empty ↦ inl ((eq_iff old "").0 empty)
  | inr there ↦ inr (sym ((eq_iff old new).0 (ground arith)))
]

pub accept_op-IsKept :
    (turn thread : String) (op : Operation)
    → (not (str_eq op.turn "") && not (str_eq op.turn turn)) ≡ false
    → IsKept op (accept_op turn thread op)
unfolding accept_op
accept_op-IsKept turn thread op h = record {
  same_incarnation = refl;
  same_input = refl;
  turn_stays = set_stays op.turn turn h;
  completion_stays = inr refl;
}

pub unknown_op-IsKept : (op : Operation) → IsKept op (unknown_op op)
unfolding unknown_op
unknown_op-IsKept op = elim (Bool-cases (str_eq op.completion "" && str_eq op.turn "")) [
  | inl open_op ↦ rw open_op (unset-IsKept op _ refl refl refl refl)
  | inr going ↦ rw going (same-IsKept op)
]

pub reopened_op-IsKept : (id : String) (op : Operation) → IsKept op (reopened_op id op)
unfolding reopened_op
reopened_op-IsKept id op = elim (Bool-cases (str_eq op.completion "")) [
  | inl open_op ↦ rw open_op (unset-IsKept op _ refl refl refl refl)
  | inr complete ↦ rw complete (same-IsKept op)
]

-- The turn and the completion of an operation that is not complete are set.
set-IsKept :
    (op new : Operation)
    → new.incarnation ≡ op.incarnation
    → new.input_hash ≡ op.input_hash
    → (op.turn ≡ "") ⊎ (new.turn ≡ op.turn)
    → op.completion ≡ ""
    → IsKept op new
set-IsKept op new i h t c = record {
  same_incarnation = i;
  same_input = h;
  turn_stays = t;
  completion_stays = inl c;
}

pub observe_op-IsKept :
    (incarnation method : String) (p : Params) (id : String) (op : Operation)
    → IsKept op (observe_op incarnation method p id op)
unfolding observe_op started_op
observe_op-IsKept incarnation method p id op =
    elim (Bool-cases (not (str_eq op.incarnation incarnation) || not (str_eq op.completion ""))) [
      | inl skip ↦ rw skip (same-IsKept op)
      | inr c ↦
          let open_op : op.completion ≡ "" = (eq_iff op.completion "").0 (ground arith) in
          elim (Bool-cases (not (str_eq op.turn "") && not (str_eq op.turn (turn_of p)))) [
            | inl other ↦ rw c (rw other (same-IsKept op))
            | inr may ↦
                let stays = set_stays op.turn (turn_of p) may in
                elim (Bool-cases (str_eq method "turn/started")) [
                  | inl starts ↦ rw c (rw may (rw starts (set-IsKept op _ refl refl stays open_op)))
                  | inr goes_on ↦
                      elim (Bool-cases
                        (str_eq method "turn/completed" && not (str_eq (turn_of p) ""))) [
                          | inl ends ↦ rw c (
                              rw may
                                (rw goes_on (rw ends (set-IsKept op _ refl refl stays open_op))))
                          | inr nothing ↦ rw c (rw may (rw goes_on (rw nothing (same-IsKept op))))
                        ]
                ]
          ]
    ]

ended_op-IsKept :
    (incarnation control : String) (status : Option String) (op : Operation)
    → op.completion ≡ ""
    → IsKept op (ended_op incarnation control status op)
unfolding ended_op
ended_op-IsKept incarnation control none op c = same-IsKept op
ended_op-IsKept incarnation control (some status) op c = elim (Bool-cases (is_end status)) [
  | inl ends ↦ rw ends (set-IsKept op _ refl refl (inr refl) c)
  | inr goes_on ↦ rw goes_on (same-IsKept op)
]

pub recover_op-IsKept :
    (incarnation control thread : String) (cs : List Continuation) (turns : Assoc String)
    (id : String) (op : Operation)
    → IsKept op (recover_op incarnation control thread cs turns id op)
unfolding recover_op
recover_op-IsKept incarnation control thread cs turns id op =
    elim (Bool-cases (
      str_eq op.incarnation incarnation
      || not (str_eq op.completion "")
      || str_eq op.turn ""
      || closed_unresolved id cs
      || (not (str_eq op.thread "") && not (str_eq op.thread thread)))) [
        | inl skip ↦ rw skip (same-IsKept op)
        | inr goes ↦
            let open_op = (eq_iff op.completion "").0 (ground arith) in
            rw goes (ended_op-IsKept incarnation control (lookup op.turn turns) op open_op)
      ]

-- The map has the operation, as it was or further on.
pub record Holds (id : String) (a : Operation) (ops : Assoc Operation) : Type 0 where
  pub now : Operation
  pub found : lookup id ops ≡ some now
  pub kept : IsKept a now

pub Holds-map :
    (f : String → Operation → Operation) (id : String) (a : Operation) (ops : Assoc Operation)
    → ((key : String) (b : Operation) → IsKept b (f key b))
    → Holds id a ops
    → Holds id a (map_entries f ops)
Holds-map f id a ops keeps h = record {
  now = f id h.now;
  found =
      lookup-map_entries f id ops
      ∙ ap (λ o. elim o [ none ↦ none | some v ↦ some (f id v) ]) h.found;
  kept = IsKept-trans h.kept (keeps id h.now);
}

-- An operation is set whose key is new, or that goes on from the old one.
pub Holds-insert :
    (key : String) (new : Operation) (id : String) (a : Operation) (ops : Assoc Operation)
    → ((old : Operation) → lookup key ops ≡ some old → IsKept old new)
    → Holds id a ops
    → Holds id a (insert key new ops)
Holds-insert key new id a ops goes h = elim (Bool-cases (str_eq key id)) [
  | inl same ↦
      let e : lookup key ops ≡ some h.now =
        ap (λ k. lookup k ops) ((eq_iff key id).0 same) ∙ h.found in
      record {
        now = new;
        found = lookup-insert key id new ops ∙ rw same refl;
        kept = IsKept-trans h.kept (goes h.now e);
      }
  | inr other ↦ record {
    now = h.now;
    found = lookup-insert key id new ops ∙ rw other h.found;
    kept = h.kept;
  }
]
