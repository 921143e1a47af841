-- ===== src/ProviderFence/History.antt =====
-- Any sequence of calls on a custodian's directory, by any handles, with any failures.
use pomar.Prelude.{
  ℕ, ◌≡◌, refl, ◌⊎◌, inl, inr, Bool, true, false, ◌||◌, ◌==◌, ◌≢◌, not, ltb, List, [], ◌∷◌, some,
  String, arith, if◌then◌else◌, ◌∙◌,
}
use pomar.Prelude.Assoc.{map_entries}
use pomar.ProviderFence.{
  State, Store, Dir, World, Error, Access, granted, refused, locked_only, Saved, durable, lost,
  uncertain, Result, ok, err, Outcome, stored, load, save, sweep, transaction, is_identity,
  is_digest, invalid_arguments,
}
use pomar.ProviderFence.Calls.{
  adopt, reserve_in, start_in, abandon_in, lookup_in, open_store, reserve, start, abandon,
  lookup_record, max_lease,
}
use pomar.ProviderFence.Moves.{
  Evolves, Evolves-refl, Evolves-trans, adopt-Evolves, reserve-Evolves, start-Evolves,
  abandon-Evolves, sweep-Evolves,
}

-- The directory keeps its state file, and the file its records.
pub record Keeps (d d' : Dir) : Type 0 where
  pub kept :
      (st : State)
      → d.state ≡ some st
      → (st' : State) × (d'.state ≡ some st') × Evolves st.records st'.records

pub Keeps-refl : (d d' : Dir) → d'.state ≡ d.state → Keeps d d'
Keeps-refl d d' h = record { kept = λ st e. (st, h ∙ e, Evolves-refl st.records) }

pub Keeps-trans : (a b c : Dir) → Keeps a b → Keeps b c → Keeps a c
Keeps-trans a b c h k = record {
  kept = λ st e.
      let (st', e', v) = h.kept st e in
      let (st'', e'', v') = k.kept st' e' in
      (st'', e'', Evolves-trans st.records st'.records st''.records v v');
}

-- What `load` hands to the mutation.
pub load-sweep :
    (s : Store) (w : World) (opening : Bool) (dir : Dir) (st loaded : State)
    → dir.state ≡ some st
    → load s w opening dir ≡ ok loaded
    → loaded.records ≡ map_entries (sweep w) st.records
unfolding load stored
load-sweep s w opening dir st loaded e h = ground arith

save-Keeps {ℓ} :
    {A : Type ℓ} (v : Saved) (d : Dir) (st : State) (r : Result A)
    → ((old : State) → d.state ≡ some old → Evolves old.records st.records)
    → Keeps d (save v d st r).dir
unfolding save
save-Keeps durable d st r h = record { kept = λ old e. (st, refl, h old e) }
save-Keeps lost d st r h = Keeps-refl d d refl
save-Keeps uncertain d st r h = record { kept = λ old e. (st, refl, h old e) }

Access-cases : (a : Access) → (a ≡ granted) ⊎ ((a ≡ refused) ⊎ (a ≡ locked_only))
Access-cases granted = inl refl
Access-cases refused = inr (inl refl)
Access-cases locked_only = inr (inr refl)

pub Result-cases {ℓ} :
    {A : Type ℓ} (r : Result A) → ((a : A) × (r ≡ ok a)) ⊎ ((e : Error) × (r ≡ err e))
Result-cases (ok a) = inl (a, refl)
Result-cases (err e) = inr (e, refl)

-- A call either leaves the state file alone, or saves what the mutation makes of the loaded state.
pub transaction-cases {ℓ} :
    {A : Type ℓ} (s : Store) (w : World) (opening : Bool) (mutate : State → State × Result A)
    (dir : Dir)
    → ((transaction s w opening mutate dir).dir.state ≡ dir.state)
        × ((a : A) → (transaction s w opening mutate dir).answer ≢ ok a)
      ⊎ ((st : State) × (load s w opening dir ≡ ok st)
          × (transaction s w opening mutate dir
              ≡ save w.saved (record dir { lock = true }) (mutate st).0 (mutate st).1))
unfolding transaction
transaction-cases s w opening mutate dir = elim (Result-cases (load s w opening dir)) [
  | inl (st, e) ↦ elim (Access-cases w.access) [
    | inl free ↦ inr (st, e, ground arith)
    | inr shut ↦ inl (ground arith, λ a h. ground arith)
  ]
  | inr (x, e) ↦ inl (ground arith, λ a h. ground arith)
]

transaction-Keeps {ℓ} :
    {A : Type ℓ} (s : Store) (w : World) (opening : Bool) (mutate : State → State × Result A)
    (dir : Dir)
    → ((st : State) → Evolves st.records (mutate st).0.records)
    → Keeps dir (transaction s w opening mutate dir).dir
transaction-Keeps s w opening mutate dir h = elim (transaction-cases s w opening mutate dir) [
  | inl (same, _) ↦ Keeps-refl dir _ same
  | inr (st, e, saved) ↦
      let locked : Dir = record dir { lock = true } in
      rw saved (
        Keeps-trans dir locked _ (Keeps-refl dir locked refl) (
          save-Keeps w.saved locked (mutate st).0 (mutate st).1 (λ old here.
            let swept : st.records ≡ map_entries (sweep w) old.records =
              load-sweep s w opening dir old st here e in
            Evolves-trans old.records st.records (mutate st).0.records
              (rw swept (sweep-Evolves w old.records)) (h st))))
]

-- A call by any handle, with what the outside answers.
pub data Call : Type 0 where
  opens : String → String → Call
  reserves : Store → String → String → ℕ → Call
  starts : Store → String → String → String → Call
  abandons : Store → String → String → Call
  looks_up : Store → String → Call

-- What the call leaves in the directory.
unfoldable pub after : World × Call → Dir → Dir
after (w, opens namespace incarnation) dir = (open_store namespace incarnation w dir).dir
after (w, reserves s id binding lease) dir = (reserve s w id binding lease dir).dir
after (w, starts s id binding token) dir = (start s w id binding token dir).dir
after (w, abandons s id binding) dir = (abandon s w id binding dir).dir
after (w, looks_up s id) dir = (lookup_record s w id dir).dir

unfoldable pub run : List (World × Call) → Dir → Dir
run [] dir = dir
run (c ∷ cs) dir = run cs (after c dir)

lookup-Evolves : (id : String) (st : State) → Evolves st.records (lookup_in id st).0.records
unfolding lookup_in
lookup-Evolves id st =
    let same : (lookup_in id st).0.records ≡ st.records = ground arith in
    rw same (Evolves-refl st.records)

-- A refusal of the arguments touches nothing.
guarded-Keeps {ℓ} :
    {A : Type ℓ} (b : Bool) (dir : Dir) (r : Result A) (o : Outcome A)
    → Keeps dir o.dir
    → Keeps dir (if b then record { dir = dir; answer = r } else o).dir
guarded-Keeps true dir r o h = Keeps-refl dir dir refl
guarded-Keeps false dir r o h = h

pub after-Keeps : (c : World × Call) (dir : Dir) → Keeps dir (after c dir)
unfolding after open_store reserve start abandon lookup_record
after-Keeps (w, opens n i) dir =
    guarded-Keeps (not (is_identity n) || not (is_identity i)) dir (err invalid_arguments) _ (
      transaction-Keeps (record { namespace = n; incarnation = i }) w true (adopt i) dir
        (adopt-Evolves i))
after-Keeps (w, reserves s id b l) dir =
    guarded-Keeps (not (is_identity id) || not (is_digest b) || l == 0 || ltb max_lease l) dir
      (err invalid_arguments) _
      (transaction-Keeps s w false (reserve_in s w id b l) dir (reserve-Evolves s w id b l))
after-Keeps (w, starts s id b t) dir =
    transaction-Keeps s w false (start_in s id b t) dir (start-Evolves s id b t)
after-Keeps (w, abandons s id b) dir =
    guarded-Keeps (not (is_identity id) || not (is_digest b)) dir (err invalid_arguments) _
      (transaction-Keeps s w false (abandon_in s id b) dir (abandon-Evolves s id b))
after-Keeps (w, looks_up s id) dir =
    transaction-Keeps s w false (lookup_in id) dir (lookup-Evolves id)

pub run-Keeps : (cs : List (World × Call)) (dir : Dir) → Keeps dir (run cs dir)
unfolding run
run-Keeps [] dir = Keeps-refl dir dir refl
run-Keeps (c ∷ cs) dir =
    Keeps-trans dir (after c dir) _ (after-Keeps c dir) (run-Keeps cs (after c dir))
