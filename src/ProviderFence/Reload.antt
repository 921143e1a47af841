-- ===== src/ProviderFence/Reload.antt =====
-- Every state file that the calls leave can be loaded by the next call.
use Prim.Native.String.{String}
use pomar.Prelude.{
  ◌≤◌, ◌≡◌, refl, ◌⊎◌, inl, inr, Bool, true, false, ◌||◌, ◌==◌, not, ltb, List, [], ◌∷◌, some,
  str_eq, eq_iff, arith, if◌then◌else◌, length, All, Bool-cases, ◌∙◌,
}
use pomar.Prelude.Assoc.{map_entries, all_entries-map, length-map_entries}
use pomar.ProviderFence.{
  State, Store, Dir, World, Saved, durable, lost, uncertain, incarnation_fenced, invalid_arguments,
  Result, ok, err, Outcome, load, stored, save, sweep, transaction, is_identity, is_digest,
  schema_name, max_records,
}
use pomar.ProviderFence.Calls.{
  adopt, reserve_in, start_in, abandon_in, lookup_in, open_store, reserve, start, abandon,
  lookup_record, max_lease,
}
use pomar.ProviderFence.History.{
  Call, opens, reserves, starts, abandons, looks_up, after, run, transaction-cases,
}
use pomar.ProviderFence.WellFormed.{
  passes, IsWellFormed, IsFair, keep_records, first_fault-none, sweep-passes, adopt-wf, reserve-wf,
  start-wf, abandon-wf, lookup-wf,
}

abbrev pub WellFormedIn : String → Dir → Type 0
WellFormedIn namespace dir = (st : State) × (dir.state ≡ some st) × IsWellFormed namespace st

load-eq :
    (s : Store) (w : World) (opening : Bool) (dir : Dir) (st loaded : State)
    → dir.state ≡ some st
    → load s w opening dir ≡ ok loaded
    → loaded ≡ record st { records = map_entries (sweep w) st.records }
unfolding load stored
load-eq s w opening dir st loaded e h = ground arith

load-identity :
    (s : Store) (w : World) (dir : Dir) (st loaded : State)
    → dir.state ≡ some st
    → is_identity st.incarnation ≡ true
    → load s w false dir ≡ ok loaded
    → is_identity s.incarnation ≡ true
unfolding load stored
load-identity s w dir st loaded e i h = ground (arith, eq_iff st.incarnation s.incarnation)

-- A well-formed file is loaded, by any handle of its incarnation and by `Open`.
load_ok :
    (s : Store) (w : World) (opening : Bool) (dir : Dir) (st : State)
    → dir.state ≡ some st
    → IsWellFormed s.namespace st
    → (opening ≡ true) ⊎ (st.incarnation ≡ s.incarnation)
    → load s w opening dir ≡ ok (record st { records = map_entries (sweep w) st.records })
unfolding load stored
load_ok s w opening dir st e f o = ground (
  arith,
  eq_iff st.schema schema_name,
  eq_iff st.namespace s.namespace,
  eq_iff st.incarnation s.incarnation,
  first_fault-none st.records f.entries,
  f.schema,
  f.named,
  f.bounded,
)

module _ (namespace : String) where
  save-wf {ℓ} :
      {A : Type ℓ} (v : Saved) (d : Dir) (st : State) (r : Result A)
      → WellFormedIn namespace d
      → IsWellFormed namespace st
      → WellFormedIn namespace (save v d st r).dir
  unfolding save
  save-wf durable d st r h k = (st, refl, k)
  save-wf lost d st r h k = h
  save-wf uncertain d st r h k = (st, refl, k)

  transaction-wf {ℓ} :
      {A : Type ℓ} (s : Store) (w : World) (opening : Bool) (mutate : State → State × Result A)
      (dir : Dir)
      → ((st : State)
          → load s w opening dir ≡ ok st
          → IsWellFormed namespace st
          → IsWellFormed namespace (mutate st).0)
      → WellFormedIn namespace dir
      → WellFormedIn namespace (transaction s w opening mutate dir).dir
  transaction-wf s w opening mutate dir keep (old, here, f) =
      elim (transaction-cases s w opening mutate dir) [
        | inl (same, _) ↦ (old, same ∙ here, f)
        | inr (st, loaded, out) ↦
            let swept = load-eq s w opening dir old st here loaded in
            let f' : IsWellFormed namespace st = rw swept (
              keep_records namespace old (map_entries (sweep w) old.records) f
                (omega (arith, length-map_entries (sweep w) old.records, f.bounded))
                (all_entries-map passes passes (sweep w) old.records (sweep-passes w) f.entries)) in
            rw out (
              save-wf w.saved (record dir { lock = true }) (mutate st).0 (mutate st).1
                (old, here, f) (keep st loaded f'))
      ]

  guarded-wf {ℓ} :
      {A : Type ℓ} (b : Bool) (dir : Dir) (r : Result A) (o : Outcome A)
      → WellFormedIn namespace dir
      → (b ≡ false → WellFormedIn namespace o.dir)
      → WellFormedIn namespace (if b then record { dir = dir; answer = r } else o).dir
  guarded-wf true dir r o h k = h
  guarded-wf false dir r o h k = k refl

  after-wf :
      (c : World × Call) (dir : Dir)
      → IsFair c.0
      → WellFormedIn namespace dir
      → WellFormedIn namespace (after c dir)
  unfolding after open_store reserve start abandon lookup_record
  after-wf (w, opens n i) dir fair h =
      guarded-wf (not (is_identity n) || not (is_identity i)) dir (err invalid_arguments) _ h
        λ good.
          transaction-wf (record { namespace = n; incarnation = i }) w true (adopt i) dir
            (λ st _ f. adopt-wf namespace i st (ground arith) f) h
  after-wf (w, reserves s id b l) dir fair h =
      guarded-wf (not (is_identity id) || not (is_digest b) || l == 0 || ltb max_lease l) dir
        (err invalid_arguments) _ h
        λ good.
          transaction-wf s w false (reserve_in s w id b l) dir
            (λ st loaded f.
              reserve-wf namespace s w id b l st fair (ground arith) (ground arith) (ground arith)
                (load-identity s w dir h.0 st h.1 h.2.current loaded) f)
            h
  after-wf (w, starts s id b t) dir fair h =
      transaction-wf s w false (start_in s id b t) dir (λ st _ f. start-wf namespace s id b t st f)
        h
  after-wf (w, abandons s id b) dir fair h =
      guarded-wf (not (is_identity id) || not (is_digest b)) dir (err invalid_arguments) _ h λ good.
        transaction-wf s w false (abandon_in s id b) dir
          (λ st loaded f.
            abandon-wf namespace s id b st (ground arith) (ground arith)
              (load-identity s w dir h.0 st h.1 h.2.current loaded) f)
          h
  after-wf (w, looks_up s id) dir fair h =
      transaction-wf s w false (lookup_in id) dir (λ st _ f. lookup-wf namespace id st f) h

  run-wf :
      (cs : List (World × Call)) (dir : Dir)
      → All (λ (c : World × Call). IsFair c.0) cs
      → WellFormedIn namespace dir
      → WellFormedIn namespace (run cs dir)
  unfolding run
  run-wf [] dir fair h = h
  run-wf (c ∷ cs) dir fair h = run-wf cs (after c dir) fair.1 (after-wf c dir fair.0 h)

-- A handle of another incarnation is refused as fenced, whatever else is on file.
load_fenced :
    (s : Store) (w : World) (opening : Bool) (dir : Dir) (st : State)
    → dir.state ≡ some st
    → IsWellFormed s.namespace st
    → opening || str_eq st.incarnation s.incarnation ≡ false
    → load s w opening dir ≡ err incarnation_fenced
unfolding load stored
load_fenced s w opening dir st here f e = ground (
  arith,
  eq_iff st.schema schema_name,
  eq_iff st.namespace s.namespace,
  f.schema,
  f.named,
  f.bounded,
)

-- From a well-formed state file, any calls of any handles leave a file that the next call can load at
-- any time, with the limit of records kept: `Open` loads it, and so does a handle of the incarnation
-- on file, while any other handle is refused as fenced. So the checks of stored records never lock
-- the custodian out of what the calls stored themselves. The random bytes of a call are 32 when
-- there are any.
pub run_loads :
    (s : Store) (cs : List (World × Call)) (dir : Dir) (w : World) (opening : Bool)
    → All (λ (c : World × Call). IsFair c.0) cs
    → WellFormedIn s.namespace dir
    → (st : State) × ((run cs dir).state ≡ some st)
      × (length st.records ≤ max_records)
      × (load s w opening (run cs dir) ≡ (
          if opening || str_eq st.incarnation s.incarnation
          then ok (record st { records = map_entries (sweep w) st.records })
          else err incarnation_fenced))
run_loads s cs dir w opening fair h =
    let (st, here, f) = run-wf s.namespace cs dir fair h in
    (
      st,
      here,
      f.bounded,
      elim (Bool-cases (opening || str_eq st.incarnation s.incarnation)) [
        | inl e ↦ rw (e) (
            load_ok s w opening (run cs dir) st here f
              (ground (arith, eq_iff st.incarnation s.incarnation)))
        | inr e ↦ rw (e) (load_fenced s w opening (run cs dir) st here f e)
      ],
    )
