-- ===== src/ProviderFence.antt =====
-- internal/providerfence/store.go: the durable identity fence of a native provider.
-- A call reads the state file, changes the state in memory and replaces the file. What the file
-- system, the clock and the random source answer during a call is its `World`; the texts of errors
-- are left out, and so is the JSON form of the file, which a later call reads back as it was written.
-- Times are counted from Go's zero time, at 0.
pub mod Calls
pub mod Moves
pub mod History
pub mod Once
pub mod Abandoned
pub mod Incarnations
pub mod WellFormed
pub mod Reload
use Prim.Native.Char.{Char, code}
use pomar.Prelude.{
  ℕ, zero, suc, ◌+◌, ◌*◌, ◌/◌, ◌%◌, ◌^◌, Bool, true, false, not, ◌&&◌, ◌||◌, List, [], ◌∷◌, ◌++◌,
  Option, none, some, String, str_eq, ltb, leb, ◌==◌, if◌then◌else◌, length,
}
use pomar.Prelude.Assoc.{Assoc, lookup, insert, all_entries, map_entries}

-- The patterns `identity` and `digest`.
unfoldable pub is_alnum : ℕ → Bool
is_alnum c = (leb 65 c && leb c 90) || (leb 97 c && leb c 122) || (leb 48 c && leb c 57)

unfoldable pub is_tail : ℕ → String → Bool
is_tail n String.[] = true
is_tail zero (String.◌∷◌ c s) = false
is_tail (suc n) (String.◌∷◌ c s) =
    (is_alnum (code c) || (code c == 46) || (code c == 95) || (code c == 45)) && is_tail n s

unfoldable pub is_identity : String → Bool
unfolding is_alnum is_tail
is_identity String.[] = false
is_identity (String.◌∷◌ c s) = is_alnum (code c) && is_tail 127 s

unfoldable pub is_hex : ℕ → String → Bool
is_hex zero String.[] = true
is_hex (suc n) String.[] = false
is_hex zero (String.◌∷◌ c s) = false
is_hex (suc n) (String.◌∷◌ c s) =
    ((leb 48 (code c) && leb (code c) 57) || (leb 97 (code c) && leb (code c) 102)) && is_hex n s

unfoldable pub is_digest : String → Bool
unfolding is_hex
is_digest = is_hex 64

-- hex.EncodeToString, by its table of digits.
unfoldable pub pick : ℕ → String → Char
pick n String.[] = "0"
pick zero (String.◌∷◌ c s) = c
pick (suc n) (String.◌∷◌ c s) = pick n s

unfoldable pub nibble : ℕ → Char
unfolding pick
nibble n = pick n "0123456789abcdef"

unfoldable pub encode_hex : List ℕ → String
unfolding nibble
encode_hex [] = String.[]
encode_hex (b ∷ bs) = String.◌∷◌ (nibble (b / 16)) (String.◌∷◌ (nibble (b % 16)) (encode_hex bs))

abbrev pub max_records : ℕ
max_records = 2048

-- A stored phase may be any text; `other` stands for one that the code does not know.
pub data Phase : Type 0 where
  reserved starting unknown expired abandoned : Phase
  other : String → Phase

pub record Record : Type 0 where
  pub id : String
  pub binding_digest : String
  pub incarnation : String
  pub token : String
  pub phase : Phase
  pub expires : ℕ

pub record State : Type 0 where
  pub schema : String
  pub namespace : String
  pub incarnation : String
  pub retired : List String
  pub records : Assoc Record

-- The handle that `Open` returns.
pub record Store : Type 0 where
  pub namespace : String
  pub incarnation : String

-- The custodian's directory: the lock file, and the state file.
pub record Dir : Type 0 where
  pub lock : Bool
  pub state : Option State

-- How far opening and locking the files got, and how the replacement of the state file ended: a
-- failed save may have replaced it.
pub data Access : Type 0 where
  granted refused locked_only : Access

pub data Saved : Type 0 where
  durable lost uncertain : Saved

-- What the outside answers during one call. The loop over the records reads the clock at each.
pub record World : Type 0 where
  pub access : Access
  pub saved : Saved
  pub sweep_clock : String → ℕ
  pub lease_clock : ℕ
  pub random : Option (List ℕ)

pub data Error : Type 0 where
  invalid_arguments no_access missing_state state_mismatch incarnation_fenced : Error
  invalid_identity invalid_claim fenced_token unknown_phase not_saved : Error
  retired_incarnation incarnations_exhausted binding_mismatch capacity_exhausted : Error
  no_random unknown_claim claim_fenced started_claim not_observed : Error

pub data Result {ℓ} (A : Type ℓ) : Type ℓ where
  ok : A → Result A
  err : Error → Result A

-- The checks of a stored record, in the code's order.
unfoldable pub check_record : String → Record → Option Error
check_record id r =
    if not (str_eq id r.id)
      || not (is_identity id)
      || not (is_digest r.binding_digest)
      || not (is_identity r.incarnation)
    then some invalid_identity
    else elim r.phase [
      | reserved ↦ if not (is_digest r.token) || r.expires == 0 then some invalid_claim else none
      | starting ↦ if not (is_digest r.token) || r.expires == 0 then some invalid_claim else none
      | unknown ↦ if not (is_digest r.token) || r.expires == 0 then some invalid_claim else none
      | expired ↦ if not (str_eq r.token "") then some fenced_token else none
      | abandoned ↦ if not (str_eq r.token "") then some fenced_token else none
      | other p ↦ some unknown_phase
    ]

unfoldable pub first_fault : Assoc Record → Option Error
first_fault [] = none
first_fault ((id, r) ∷ m) = elim (check_record id r) [ some e ↦ some e | none ↦ first_fault m ]

-- A reservation that has run out.
unfoldable pub sweep : World → String → Record → Record
sweep w id r = elim r.phase [
  | reserved ↦
      if ltb (w.sweep_clock id) r.expires then r else record r { phase = expired; token = "" }
  | _ ↦ r
]

abbrev pub schema_name : String
schema_name = "pomar.provider-fence/v1"

abbrev pub fresh_state : Store → State
fresh_state s = record {
  schema = schema_name;
  namespace = s.namespace;
  incarnation = "";
  retired = [];
  records = [];
}

-- The state file; only the first `Open` in a directory may find none.
unfoldable pub stored : Store → Bool → Dir → Option State
stored s opening dir = elim dir.state [
  | some st ↦ some st
  | none ↦ if opening && not dir.lock then some (fresh_state s) else none
]

-- The state that a call works on: read, checked, and with reservations that ran out expired.
unfoldable pub load : Store → World → Bool → Dir → Result State
load s w opening dir = elim (stored s opening dir) [
  | none ↦ err missing_state
  | some st ↦
      if not (str_eq st.schema schema_name)
        || not (str_eq st.namespace s.namespace)
        || ltb max_records (length st.records)
      then err state_mismatch
      else if not opening && not (str_eq st.incarnation s.incarnation)
      then err incarnation_fenced
      else elim (first_fault st.records) [
        | some e ↦ err e
        | none ↦ ok (record st { records = map_entries (sweep w) st.records })
      ]
]

-- What is left in the directory, and what the call answers.
pub record Outcome {ℓ} (A : Type ℓ) : Type ℓ where
  pub dir : Dir
  pub answer : Result A

unfoldable pub save {ℓ} : {A : Type ℓ} → Saved → Dir → State → Result A → Outcome A
save durable dir st r = record { dir = record dir { state = some st }; answer = r }
save lost dir st r = record { dir = dir; answer = err not_saved }
save uncertain dir st r = record { dir = record dir { state = some st }; answer = err not_saved }

-- `transaction`: the mutation's error is returned, but what it and the sweep changed is saved.
unfoldable pub transaction {ℓ} :
    {A : Type ℓ} → Store → World → Bool → (State → State × Result A) → Dir → Outcome A
transaction s w opening mutate dir = elim w.access [
  | refused ↦ record { dir = dir; answer = err no_access }
  | locked_only ↦ record { dir = record dir { lock = true }; answer = err no_access }
  | granted ↦ elim (load s w opening dir) [
    | err e ↦ record { dir = record dir { lock = true }; answer = err e }
    | ok st ↦ save w.saved (record dir { lock = true }) (mutate st).0 (mutate st).1
  ]
]
