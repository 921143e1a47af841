-- ===== src/ProviderFence/Calls.antt =====
-- The calls of internal/providerfence/store.go: Open, Reserve, Start, Abandon and Lookup.
use pomar.Prelude.{
  ℕ, ◌+◌, ◌*◌, ◌^◌, Bool, true, false, not, ◌||◌, List, [], ◌∷◌, ◌++◌, none, some, String, str_eq,
  ltb, leb, ◌==◌, if◌then◌else◌, length,
}
use pomar.Prelude.Assoc.{lookup, insert, map_entries}
use pomar.ProviderFence.{
  Phase, reserved, starting, unknown, expired, abandoned, Record, State, Store, Dir, World,
  invalid_arguments, retired_incarnation, incarnations_exhausted, binding_mismatch,
  capacity_exhausted, no_random, unknown_claim, claim_fenced, started_claim, not_observed, Result,
  ok, err, Outcome, transaction, is_identity, is_digest, encode_hex, max_records,
}

unfoldable pub mem : String → List String → Bool
mem k [] = false
mem k (x ∷ xs) = if str_eq x k then true else mem k xs

-- What a new incarnation makes of the records of the old one.
unfoldable pub migrate : String → Record → Record
migrate id r = elim r.phase [
  | reserved ↦ record r { phase = expired; token = "" }
  | starting ↦ record r { phase = unknown }
  | _ ↦ r
]

-- The list of retired incarnations is written before its length is checked.
unfoldable pub retire : State → List String
retire st = if str_eq st.incarnation "" then st.retired else st.retired ++ st.incarnation ∷ []

unfoldable pub adopt : String → State → State × Result (Unit {0})
adopt incarnation st =
    if str_eq st.incarnation incarnation
    then (st, ok tt)
    else if mem incarnation st.retired
    then (st, err retired_incarnation)
    else if ltb max_records (length (retire st))
    then (record st { retired = retire st }, err incarnations_exhausted)
    else (
      record st {
        retired = retire st;
        records = map_entries migrate st.records;
        incarnation = incarnation;
      },
      ok tt,
    )

-- `Open`, after its checks of the directory, which are part of `access`.
unfoldable pub open_store : String → String → World → Dir → Outcome (Unit {0})
open_store namespace incarnation w dir =
    if not (is_identity namespace) || not (is_identity incarnation)
    then record { dir = dir; answer = err invalid_arguments }
    else transaction (record { namespace = namespace; incarnation = incarnation }) w true
        (adopt incarnation) dir

-- Thirty seconds, in nanoseconds.
abbrev pub max_lease : ℕ
max_lease = 30 * 10 ^ 9

abbrev pub reservation : Store → World → String → String → ℕ → List ℕ → Record
reservation s w id binding lease b = record {
  id = id;
  binding_digest = binding;
  incarnation = s.incarnation;
  token = encode_hex b;
  phase = reserved;
  expires = w.lease_clock + lease;
}

unfoldable pub reserve_in : Store → World → String → String → ℕ → State → State × Result Record
reserve_in s w id binding lease st = elim (lookup id st.records) [
  | some r ↦
      if not (str_eq r.binding_digest binding) then (st, err binding_mismatch) else (st, ok r)
  | none ↦
      if leb max_records (length st.records) then (st, err capacity_exhausted) else elim w.random [
        | none ↦ (st, err no_random)
        | some b ↦
            let r = reservation s w id binding lease b in
            (record st { records = insert id r st.records }, ok r)
      ]
]

-- `lease` is a time.Duration that is not negative.
unfoldable pub reserve : Store → World → String → String → ℕ → Dir → Outcome Record
reserve s w id binding lease dir =
    if not (is_identity id) || not (is_digest binding) || lease == 0 || ltb max_lease lease
    then record { dir = dir; answer = err invalid_arguments }
    else transaction s w false (reserve_in s w id binding lease) dir

-- A result of `Start`: the record, and whether this call is the first start.
abbrev pub Started : Type 0
Started = Record × Bool

unfoldable pub start_record : String → Record → State → State × Result Started
start_record id r st = elim r.phase [
  | reserved ↦
      let r' : Record = record r { phase = starting } in
      (record st { records = insert id r' st.records }, ok (r', true))
  | starting ↦ (st, ok (r, false))
  | unknown ↦ (st, ok (r, false))
  | _ ↦ (st, err claim_fenced)
]

unfoldable pub start_in : Store → String → String → String → State → State × Result Started
start_in s id binding token st = elim (lookup id st.records) [
  | none ↦ (st, err unknown_claim)
  | some r ↦
      if not (str_eq r.binding_digest binding)
        || not (str_eq r.token token)
        || str_eq token ""
        || not (str_eq r.incarnation s.incarnation)
      then (st, err unknown_claim)
      else start_record id r st
]

unfoldable pub start : Store → World → String → String → String → Dir → Outcome Started
start s w id binding token dir = transaction s w false (start_in s id binding token) dir

unfoldable pub is_started : Phase → Bool
is_started starting = true
is_started unknown = true
is_started _ = false

abbrev pub never_seen : Store → String → String → Record
never_seen s id binding = record {
  id = id;
  binding_digest = binding;
  incarnation = s.incarnation;
  token = "";
  phase = abandoned;
  expires = 0;
}

unfoldable pub abandon_in : Store → String → String → State → State × Result Record
abandon_in s id binding st = elim (lookup id st.records) [
  | some r ↦
      if not (str_eq r.binding_digest binding)
      then (st, err binding_mismatch)
      else if is_started r.phase
      then (st, err started_claim)
      else (let r' : Record = record r { phase = abandoned; token = "" } in
          (record st { records = insert id r' st.records }, ok r'))
  | none ↦
      if leb max_records (length st.records)
      then (st, err capacity_exhausted)
      else (let r' = never_seen s id binding in
          (record st { records = insert id r' st.records }, ok r'))
]

unfoldable pub abandon : Store → World → String → String → Dir → Outcome Record
abandon s w id binding dir =
    if not (is_identity id) || not (is_digest binding)
    then record { dir = dir; answer = err invalid_arguments }
    else transaction s w false (abandon_in s id binding) dir

unfoldable pub lookup_in : String → State → State × Result Record
lookup_in id st = elim (lookup id st.records) [
  | some r ↦ (st, ok r)
  | none ↦ (st, err not_observed)
]

unfoldable pub lookup_record : Store → World → String → Dir → Outcome Record
lookup_record s w id dir = transaction s w false (lookup_in id) dir
