-- ===== src/ProviderFence/WellFormed.antt =====
-- What a call saves passes the checks of the next `load`: the fence does not lock itself out.
use Prim.Native.String.{String}
use pomar.Prelude.{
  ℕ, zero, suc, ◌+◌, ◌/◌, ◌%◌, ◌≤◌, ◌<◌, ◌≡◌, refl, ◌⊎◌, inl, inr, Bool, true, false, ◌&&◌, ◌||◌,
  ltb, leb, List, [], ◌∷◌, none, some, eq_iff, arith, length, Option-cases, Bool-cases,
}
use native.Mathlib.Nat.{suc-add, add-suc}
use Prim.Native.Char.{code}
use pomar.Prelude.Assoc.{
  Assoc, lookup, insert, all_entries, all_entries-insert, all_entries-lookup, all_entries-map,
  length-insert, length-map_entries,
}
use pomar.ProviderFence.{
  reserved, starting, unknown, expired, abandoned, Record, State, Store, World, sweep, is_identity,
  is_digest, is_hex, pick, nibble, encode_hex, check_record, first_fault, schema_name, max_records,
}
use pomar.ProviderFence.Calls.{
  migrate, adopt, reservation, never_seen, reserve_in, start_in, start_record, abandon_in,
  lookup_in,
}

abbrev pub passes : String → Record → Bool
passes id r = elim (check_record id r) [ none ↦ true | some e ↦ false ]

-- The checks of `load`, but for the incarnation of the handle.
pub record IsWellFormed (namespace : String) (st : State) : Type 0 where
  pub schema : st.schema ≡ schema_name
  pub named : st.namespace ≡ namespace
  pub current : is_identity st.incarnation ≡ true
  pub bounded : length st.records ≤ max_records
  pub entries : all_entries passes st.records ≡ true

pub first_fault-none : (m : Assoc Record) → all_entries passes m ≡ true → first_fault m ≡ none
unfolding first_fault all_entries
first_fault-none [] h = refl
first_fault-none ((id, r) ∷ m) h = ground (arith, first_fault-none m)

pub none-first_fault : (m : Assoc Record) → first_fault m ≡ none → all_entries passes m ≡ true
unfolding first_fault all_entries
none-first_fault [] h = refl
none-first_fault ((id, r) ∷ m) h = ground (arith, none-first_fault m)

-- Thirty-two random bytes make a token that has the form of a digest.
abbrev hex_digit : ℕ → Bool
hex_digit c = (leb 48 c && leb c 57) || (leb 97 c && leb c 102)

abbrev hex_digits : String → Bool
hex_digits String.[] = true
hex_digits (String.◌∷◌ c s) = hex_digit (code c) && hex_digits s

pick-hex : (n : ℕ) (s : String) → hex_digits s ≡ true → hex_digit (code (pick n s)) ≡ true
unfolding pick
pick-hex zero String.[] h = refl
pick-hex (suc n) String.[] h = refl
pick-hex zero (String.◌∷◌ c s) h = ground arith
pick-hex (suc n) (String.◌∷◌ c s) h = pick-hex n s (ground arith)

nibble-hex : (n : ℕ) → hex_digit (code (nibble n)) ≡ true
unfolding nibble
nibble-hex n = pick-hex n "0123456789abcdef" refl

encode_hex-is_hex : (bs : List ℕ) → is_hex (length bs + length bs) (encode_hex bs) ≡ true
unfolding is_hex encode_hex
encode_hex-is_hex [] = refl
encode_hex-is_hex (b ∷ bs) =
    rw (suc-add (length bs) (suc (length bs)), add-suc (length bs) (length bs))
      (rw (nibble-hex (b / 16)) (rw (nibble-hex (b % 16)) (encode_hex-is_hex bs)))

sweep-cases :
    (w : World) (id : String) (r : Record)
    → (sweep w id r ≡ r)
      ⊎ ((r.phase ≡ reserved) × (sweep w id r ≡ record r { phase = expired; token = "" }))
unfolding sweep
sweep-cases w id r = ground arith

migrate-cases :
    (id : String) (r : Record)
    → (migrate id r ≡ r)
      ⊎ (((r.phase ≡ reserved) × (migrate id r ≡ record r { phase = expired; token = "" }))
          ⊎ ((r.phase ≡ starting) × (migrate id r ≡ record r { phase = unknown })))
unfolding migrate
migrate-cases id r = ground arith

-- The changes that a call makes to a stored record.
expire-passes :
    (id : String) (r : Record)
    → passes id r ≡ true
    → passes id (record r { phase = expired; token = "" }) ≡ true
unfolding check_record
expire-passes id r h = ground arith

drop-passes :
    (id : String) (r : Record)
    → passes id r ≡ true
    → passes id (record r { phase = abandoned; token = "" }) ≡ true
unfolding check_record
drop-passes id r h = ground arith

launch-passes :
    (id : String) (r : Record)
    → r.phase ≡ reserved
    → passes id r ≡ true
    → passes id (record r { phase = starting }) ≡ true
unfolding check_record
launch-passes id r p h = ground arith

strand-passes :
    (id : String) (r : Record)
    → r.phase ≡ starting
    → passes id r ≡ true
    → passes id (record r { phase = unknown }) ≡ true
unfolding check_record
strand-passes id r p h = ground arith

pub sweep-passes :
    (w : World) (id : String) (r : Record) → passes id r ≡ true → passes id (sweep w id r) ≡ true
sweep-passes w id r h = elim (sweep-cases w id r) [
  | inl same ↦ rw same h
  | inr (p, new) ↦ rw new (expire-passes id r h)
]

migrate-passes : (id : String) (r : Record) → passes id r ≡ true → passes id (migrate id r) ≡ true
migrate-passes id r h = elim (migrate-cases id r) [
  | inl same ↦ rw same h
  | inr (inl (p, new)) ↦ rw new (expire-passes id r h)
  | inr (inr (p, new)) ↦ rw new (strand-passes id r p h)
]

reservation-passes :
    (s : Store) (w : World) (id binding : String) (lease : ℕ) (b : List ℕ)
    → is_identity id ≡ true
    → is_digest binding ≡ true
    → is_identity s.incarnation ≡ true
    → length b ≡ 32
    → 0 < lease
    → passes id (reservation s w id binding lease b) ≡ true
unfolding check_record is_digest
reservation-passes s w id binding lease b i d c l p =
    ground (arith, eq_iff id id, encode_hex-is_hex b)

never_seen-passes :
    (s : Store) (id b : String)
    → is_identity id ≡ true
    → is_digest b ≡ true
    → is_identity s.incarnation ≡ true
    → passes id (never_seen s id b) ≡ true
unfolding check_record
never_seen-passes s id b i d c = ground (arith, eq_iff id id)

-- A world whose random source fills what it is asked to fill.
pub record IsFair (w : World) : Type 0 where
  pub full : (b : List ℕ) → w.random ≡ some b → length b ≡ 32

module _ (namespace : String) where
  pub keep_records :
      (st : State) (m : Assoc Record)
      → IsWellFormed namespace st
      → length m ≤ max_records
      → all_entries passes m ≡ true
      → IsWellFormed namespace (record st { records = m })
  keep_records st m f l e = record {
    schema = f.schema;
    named = f.named;
    current = f.current;
    bounded = l;
    entries = e;
  }

  insert-wf :
      (id : String) (r : Record) (st : State)
      → IsWellFormed namespace st
      → passes id r ≡ true
      → (ltb (length st.records) max_records ≡ true)
        ⊎ ((old : Record) × (lookup id st.records ≡ some old))
      → IsWellFormed namespace (record st { records = insert id r st.records })
  insert-wf id r st f p (inl room) =
      keep_records st _ f (ground (arith, length-insert id r st.records, f.bounded))
        (all_entries-insert passes id r st.records p f.entries)
  insert-wf id r st f p (inr (old, e)) =
      keep_records st _ f (ground (arith, length-insert id r st.records, f.bounded))
        (all_entries-insert passes id r st.records p f.entries)

  pub adopt-wf :
      (inc : String) (st : State)
      → is_identity inc ≡ true
      → IsWellFormed namespace st
      → IsWellFormed namespace (adopt inc st).0
  unfolding adopt
  adopt-wf inc st i f = ground (
    arith,
    length-map_entries migrate st.records,
    all_entries-map passes passes migrate st.records migrate-passes f.entries,
  )

  pub reserve-wf :
      (s : Store) (w : World) (id b : String) (l : ℕ) (st : State)
      → IsFair w
      → is_identity id ≡ true
      → is_digest b ≡ true
      → 0 < l
      → is_identity s.incarnation ≡ true
      → IsWellFormed namespace st
      → IsWellFormed namespace (reserve_in s w id b l st).0
  unfolding reserve_in
  reserve-wf s w id b l st fair i d p c f = elim (Option-cases (lookup id st.records)) [
    | inr (old, e) ↦ let same : (reserve_in s w id b l st).0 ≡ st = ground arith in rw same f
    | inl e ↦ elim (Bool-cases (leb max_records (length st.records))) [
      | inl full ↦ let same : (reserve_in s w id b l st).0 ≡ st = ground arith in rw same f
      | inr room ↦ elim (Option-cases w.random) [
        | inl dry ↦ let same : (reserve_in s w id b l st).0 ≡ st = ground arith in rw same f
        | inr (bs, drawn) ↦
            let new : (reserve_in s w id b l st).0
                ≡ record st { records = insert id (reservation s w id b l bs) st.records } =
              ground arith in
            rw new (
              insert-wf id (reservation s w id b l bs) st f
                (reservation-passes s w id b l bs i d c (fair.full bs drawn) p)
                (inl (ground arith)))
      ]
    ]
  ]

  pub start-wf :
      (s : Store) (id b t : String) (st : State)
      → IsWellFormed namespace st
      → IsWellFormed namespace (start_in s id b t st).0
  unfolding start_in start_record
  start-wf s id b t st f = elim (Option-cases (lookup id st.records)) [
    | inl e ↦ let same : (start_in s id b t st).0 ≡ st = ground arith in rw same f
    | inr (old, e) ↦
        let either : ((start_in s id b t st).0 ≡ st)
            ⊎ ((old.phase ≡ reserved)
                × ((start_in s id b t st).0 ≡ record st {
                  records = insert id (record old { phase = starting }) st.records;
                })) =
          ground arith in
        elim either [
          | inl same ↦ rw same f
          | inr (p, new) ↦ rw new (
              insert-wf id _ st f
                (launch-passes id old p (all_entries-lookup passes id old st.records f.entries e))
                (inr (old, e)))
        ]
  ]

  pub abandon-wf :
      (s : Store) (id b : String) (st : State)
      → is_identity id ≡ true
      → is_digest b ≡ true
      → is_identity s.incarnation ≡ true
      → IsWellFormed namespace st
      → IsWellFormed namespace (abandon_in s id b st).0
  unfolding abandon_in
  abandon-wf s id b st i d c f = elim (Option-cases (lookup id st.records)) [
    | inl e ↦
        let either : ((abandon_in s id b st).0 ≡ st)
            ⊎ ((leb max_records (length st.records) ≡ false)
                × ((abandon_in s id b st).0
                    ≡ record st { records = insert id (never_seen s id b) st.records })) =
          ground arith in
        elim either [
          | inl same ↦ rw same f
          | inr (room, new) ↦ rw new (
              insert-wf id (never_seen s id b) st f (never_seen-passes s id b i d c)
                (inl (ground arith)))
        ]
    | inr (old, e) ↦
        let either : ((abandon_in s id b st).0 ≡ st)
            ⊎ ((abandon_in s id b st).0 ≡ record st {
              records = insert id (record old { phase = abandoned; token = "" }) st.records;
            }) =
          ground arith in
        elim either [
          | inl same ↦ rw same f
          | inr new ↦ rw new (
              insert-wf id _ st f
                (drop-passes id old (all_entries-lookup passes id old st.records f.entries e))
                (inr (old, e)))
        ]
  ]

  pub lookup-wf :
      (id : String) (st : State)
      → IsWellFormed namespace st
      → IsWellFormed namespace (lookup_in id st).0
  unfolding lookup_in
  lookup-wf id st f = let same : (lookup_in id st).0 ≡ st = ground arith in rw same f
