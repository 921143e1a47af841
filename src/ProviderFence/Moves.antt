-- ===== src/ProviderFence/Moves.antt =====
-- What a call may do to a record that is stored already.
use pomar.Prelude.{
  ℕ, ◌≡◌, refl, ◌⊎◌, inl, inr, Bool, true, false, none, some, String, str_eq, eq_iff, arith, length,
  leb, Option-cases, Bool-cases, ◌∙◌,
}
use pomar.Prelude.Assoc.{Assoc, lookup, insert, map_entries, lookup-insert, lookup-map_entries}
use pomar.ProviderFence.{
  Phase, reserved, starting, expired, abandoned, Record, State, Store, World, sweep, max_records,
}
use pomar.ProviderFence.Calls.{
  is_started, reservation, never_seen, migrate, adopt, reserve_in, start_record, start_in,
  abandon_in,
}

-- Never to be started: its token is gone.
unfoldable pub is_fenced : Phase → Bool
is_fenced expired = true
is_fenced abandoned = true
is_fenced _ = false

-- A record keeps its binding, and what was started or fenced stays so.
pub record Later (r r' : Record) : Type 0 where
  pub binding : r'.binding_digest ≡ r.binding_digest
  pub incarnation : r'.incarnation ≡ r.incarnation
  pub started : is_started r.phase ≡ true → is_started r'.phase ≡ true
  pub fenced : is_fenced r.phase ≡ true → is_fenced r'.phase ≡ true

pub Later-refl : (r : Record) → Later r r
Later-refl r = record { binding = refl; incarnation = refl; started = λ h. h; fenced = λ h. h }

pub Later-trans : (a b c : Record) → Later a b → Later b c → Later a c
Later-trans a b c h k = record {
  binding = k.binding ∙ h.binding;
  incarnation = k.incarnation ∙ h.incarnation;
  started = λ s. k.started (h.started s);
  fenced = λ s. k.fenced (h.fenced s);
}

pub sweep-Later : (w : World) (id : String) (r : Record) → Later r (sweep w id r)
unfolding sweep is_started is_fenced
sweep-Later w id r = ground arith

migrate-Later : (id : String) (r : Record) → Later r (migrate id r)
unfolding migrate is_started is_fenced
migrate-Later id r = ground arith

-- No record is lost, and each moves on only.
pub record Evolves (m m' : Assoc Record) : Type 0 where
  pub kept :
      (id : String) (r : Record)
      → lookup id m ≡ some r
      → (r' : Record) × (lookup id m' ≡ some r') × Later r r'

pub Evolves-refl : (m : Assoc Record) → Evolves m m
Evolves-refl m = record { kept = λ id r e. (r, e, Later-refl r) }

pub Evolves-trans : (a b c : Assoc Record) → Evolves a b → Evolves b c → Evolves a c
Evolves-trans a b c h k = record {
  kept = λ id r e.
      let (r', e', l) = h.kept id r e in
      let (r'', e'', l') = k.kept id r' e' in (r'', e'', Later-trans r r' r'' l l');
}

map-Evolves :
    (f : String → Record → Record) (m : Assoc Record)
    → ((id : String) (r : Record) → Later r (f id r))
    → Evolves m (map_entries f m)
map-Evolves f m h = record {
  kept = λ id r e. (f id r, rw (lookup-map_entries f id m) (rw e), h id r);
}

pub sweep-Evolves : (w : World) (m : Assoc Record) → Evolves m (map_entries (sweep w) m)
sweep-Evolves w m = map-Evolves (sweep w) m (sweep-Later w)

insert-Evolves :
    (id : String) (r : Record) (m : Assoc Record)
    → ((old : Record) → lookup id m ≡ some old → Later old r)
    → Evolves m (insert id r m)
insert-Evolves id r m h = record {
  kept = λ j old e. elim (Bool-cases (str_eq id j)) [
    | inl same ↦ (r, rw (lookup-insert id j r m) (rw same), h old (rw ((eq_iff id j).0 same) e))
    | inr apart ↦ (old, rw (lookup-insert id j r m) (rw apart e), Later-refl old)
  ];
}

-- What each mutation leaves: the records as they were, or one change to them.
same-Evolves : (m m' : Assoc Record) → m' ≡ m → Evolves m m'
same-Evolves m m' e = rw e (Evolves-refl m)

adopt-records :
    (inc : String) (st : State)
    → ((adopt inc st).0.records ≡ st.records)
      ⊎ ((adopt inc st).0.records ≡ map_entries migrate st.records)
unfolding adopt
adopt-records inc st = ground arith

pub adopt-Evolves : (inc : String) (st : State) → Evolves st.records (adopt inc st).0.records
adopt-Evolves inc st = elim (adopt-records inc st) [
  | inl same ↦ same-Evolves _ _ same
  | inr new ↦ rw new (map-Evolves migrate st.records migrate-Later)
]

reserve-records :
    (s : Store) (w : World) (id binding : String) (lease : ℕ) (st : State)
    → lookup id st.records ≡ none
    → ((reserve_in s w id binding lease st).0.records ≡ st.records)
      ⊎ ((r : Record) × ((reserve_in s w id binding lease st).0.records ≡ insert id r st.records))
unfolding reserve_in
reserve-records s w id binding lease st absent = elim (Option-cases w.random) [
  | inl dry ↦ inl (ground arith)
  | inr (b, some_b) ↦ elim (Bool-cases (leb max_records (length st.records))) [
    | inl full ↦ inl (ground arith)
    | inr room ↦ inr (reservation s w id binding lease b, ground arith)
  ]
]

reserve_old :
    (s : Store) (w : World) (id binding : String) (lease : ℕ) (st : State) (r : Record)
    → lookup id st.records ≡ some r
    → (reserve_in s w id binding lease st).0.records ≡ st.records
unfolding reserve_in
reserve_old s w id binding lease st r e = ground arith

pub reserve-Evolves :
    (s : Store) (w : World) (id binding : String) (lease : ℕ) (st : State)
    → Evolves st.records (reserve_in s w id binding lease st).0.records
reserve-Evolves s w id binding lease st = elim (Option-cases (lookup id st.records)) [
  | inl absent ↦ elim (reserve-records s w id binding lease st absent) [
    | inl same ↦ same-Evolves _ _ same
    | inr (r, new) ↦ rw new (insert-Evolves id r st.records (λ old e. cc))
  ]
  | inr (r, e) ↦ same-Evolves _ _ (reserve_old s w id binding lease st r e)
]

-- `Start` changes one record at most, from RESERVED to STARTING.
start-records :
    (s : Store) (id binding token : String) (st : State) (r : Record)
    → lookup id st.records ≡ some r
    → ((start_in s id binding token st).0.records ≡ st.records)
      ⊎ ((r.phase ≡ reserved)
          × ((start_in s id binding token st).0.records
              ≡ insert id (record r { phase = starting }) st.records))
unfolding start_in start_record
start-records s id binding token st r e = ground arith

start_absent :
    (s : Store) (id binding token : String) (st : State)
    → lookup id st.records ≡ none
    → (start_in s id binding token st).0.records ≡ st.records
unfolding start_in
start_absent s id binding token st e = ground arith

launch-Later : (r : Record) → r.phase ≡ reserved → Later r (record r { phase = starting })
unfolding is_started is_fenced
launch-Later r e = ground arith

pub start-Evolves :
    (s : Store) (id binding token : String) (st : State)
    → Evolves st.records (start_in s id binding token st).0.records
start-Evolves s id binding token st = elim (Option-cases (lookup id st.records)) [
  | inl absent ↦ same-Evolves _ _ (start_absent s id binding token st absent)
  | inr (r, e) ↦ elim (start-records s id binding token st r e) [
    | inl same ↦ same-Evolves _ _ same
    | inr (p, new) ↦ rw new (
        insert-Evolves id _ st.records
          (λ old e'. let same : r ≡ old = cc in rw (← same) (launch-Later r p)))
  ]
]

-- `Abandon` fences a record that was not started, or an identity that was not seen.
abandon-records :
    (s : Store) (id binding : String) (st : State) (r : Record)
    → lookup id st.records ≡ some r
    → ((abandon_in s id binding st).0.records ≡ st.records)
      ⊎ ((is_started r.phase ≡ false)
          × ((abandon_in s id binding st).0.records
              ≡ insert id (record r { phase = abandoned; token = "" }) st.records))
unfolding abandon_in
abandon-records s id binding st r e = ground arith

abandon_absent :
    (s : Store) (id binding : String) (st : State)
    → lookup id st.records ≡ none
    → ((abandon_in s id binding st).0.records ≡ st.records)
      ⊎ ((r : Record) × ((abandon_in s id binding st).0.records ≡ insert id r st.records))
unfolding abandon_in
abandon_absent s id binding st absent = elim (Bool-cases (leb max_records (length st.records))) [
  | inl full ↦ inl (ground arith)
  | inr room ↦ inr (never_seen s id binding, ground arith)
]

drop-Later :
    (r : Record) → is_started r.phase ≡ false → Later r (record r { phase = abandoned; token = "" })
unfolding is_started is_fenced
drop-Later r e = ground arith

pub abandon-Evolves :
    (s : Store) (id binding : String) (st : State)
    → Evolves st.records (abandon_in s id binding st).0.records
abandon-Evolves s id binding st = elim (Option-cases (lookup id st.records)) [
  | inl absent ↦ elim (abandon_absent s id binding st absent) [
    | inl same ↦ same-Evolves _ _ same
    | inr (r, new) ↦ rw new (insert-Evolves id r st.records (λ old e. cc))
  ]
  | inr (r, e) ↦ elim (abandon-records s id binding st r e) [
    | inl same ↦ same-Evolves _ _ same
    | inr (p, new) ↦ rw new (
        insert-Evolves id _ st.records
          (λ old e'. let same : r ≡ old = cc in rw (← same) (drop-Later r p)))
  ]
]
