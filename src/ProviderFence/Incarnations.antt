-- ===== src/ProviderFence/Incarnations.antt =====
-- A retired incarnation stays retired, and its handles can change nothing.
use pomar.Prelude.{
  ℕ, ◌≡◌, ◌≢◌, refl, inl, inr, Bool, true, false, ◌||◌, ◌==◌, not, ltb, length-append, List, [],
  ◌∷◌, ◌++◌, some, String, str_eq, eq_iff, arith, if◌then◌else◌, length, Bool-cases, ◌∙◌,
}
use pomar.ProviderFence.{
  retired_incarnation, State, Store, Dir, World, Error, Saved, durable, lost, uncertain,
  invalid_arguments, Result, ok, err, Outcome, load, stored, save, transaction, is_identity,
  is_digest,
}
use pomar.ProviderFence.Calls.{
  mem, retire, adopt, reserve_in, start_in, start_record, abandon_in, lookup_in, open_store,
  reserve, start, abandon, lookup_record, max_lease,
}
use pomar.ProviderFence.History.{
  Call, opens, reserves, starts, abandons, looks_up, after, run, transaction-cases,
}

-- The incarnation is on the list of retired ones, and is not the current one.
pub record IsRetired (inc : String) (st : State) : Type 0 where
  pub listed : mem inc st.retired ≡ true
  pub replaced : str_eq st.incarnation inc ≡ false

abbrev pub RetiredIn : String → Dir → Type 0
RetiredIn inc dir = (st : State) × (dir.state ≡ some st) × IsRetired inc st

mem-append :
    (k : String) (xs : List String) (x : String) → mem k xs ≡ true → mem k (xs ++ x ∷ []) ≡ true
unfolding mem
mem-append k [] x h = cc
mem-append k (y ∷ xs) x h = ground (arith, mem-append k xs x)

retire-mem : (inc : String) (st : State) → mem inc st.retired ≡ true → mem inc (retire st) ≡ true
unfolding retire
retire-mem inc st h = ground (arith, mem-append inc st.retired st.incarnation)

adopt-IsRetired :
    (inc new : String) (st : State) → IsRetired inc st → IsRetired inc (adopt new st).0
unfolding adopt
adopt-IsRetired inc new st r = ground (arith, retire-mem inc st, eq_iff new inc)

-- The other mutations leave the incarnations as they are.
abbrev SameFence : State → State → Type 0
SameFence st st' = (st'.retired ≡ st.retired) × (st'.incarnation ≡ st.incarnation)

reserve-SameFence :
    (s : Store) (w : World) (id b : String) (l : ℕ) (st : State)
    → SameFence st (reserve_in s w id b l st).0
unfolding reserve_in
reserve-SameFence s w id b l st = ground arith

start-SameFence : (s : Store) (id b t : String) (st : State) → SameFence st (start_in s id b t st).0
unfolding start_in start_record
start-SameFence s id b t st = ground arith

abandon-SameFence : (s : Store) (id b : String) (st : State) → SameFence st (abandon_in s id b st).0
unfolding abandon_in
abandon-SameFence s id b st = ground arith

lookup-SameFence : (id : String) (st : State) → SameFence st (lookup_in id st).0
unfolding lookup_in
lookup-SameFence id st = ground arith

load-SameFence :
    (s : Store) (w : World) (opening : Bool) (dir : Dir) (st loaded : State)
    → dir.state ≡ some st
    → load s w opening dir ≡ ok loaded
    → SameFence st loaded
unfolding load stored
load-SameFence s w opening dir st loaded e h = ground arith

module _ (inc : String) where
  save-Retired {ℓ} :
      {A : Type ℓ} (v : Saved) (d : Dir) (st : State) (r : Result A)
      → RetiredIn inc d
      → IsRetired inc st
      → RetiredIn inc (save v d st r).dir
  unfolding save
  save-Retired durable d st r h k = (st, refl, k)
  save-Retired lost d st r h k = h
  save-Retired uncertain d st r h k = (st, refl, k)

  transaction-Retired {ℓ} :
      {A : Type ℓ} (s : Store) (w : World) (opening : Bool) (mutate : State → State × Result A)
      (dir : Dir)
      → ((st : State) → IsRetired inc st → IsRetired inc (mutate st).0)
      → RetiredIn inc dir
      → RetiredIn inc (transaction s w opening mutate dir).dir
  transaction-Retired s w opening mutate dir keep (old, here, r) =
      elim (transaction-cases s w opening mutate dir) [
        | inl (same, _) ↦ (old, same ∙ here, r)
        | inr (st, loaded, out) ↦
            let (p, q) = load-SameFence s w opening dir old st here loaded in
            let r' : IsRetired inc st = record {
              listed = rw p r.listed;
              replaced = rw q r.replaced;
            } in
            rw out (
              save-Retired w.saved (record dir { lock = true }) (mutate st).0 (mutate st).1
                (old, here, r) (keep st r'))
      ]

  keep_same : (st st' : State) → SameFence st st' → IsRetired inc st → IsRetired inc st'
  keep_same st st' (p, q) r = record { listed = rw p r.listed; replaced = rw q r.replaced }

  guarded-Retired {ℓ} :
      {A : Type ℓ} (b : Bool) (dir : Dir) (r : Result A) (o : Outcome A)
      → RetiredIn inc dir
      → RetiredIn inc o.dir
      → RetiredIn inc (if b then record { dir = dir; answer = r } else o).dir
  guarded-Retired true dir r o h k = h
  guarded-Retired false dir r o h k = k

  after-Retired : (c : World × Call) (dir : Dir) → RetiredIn inc dir → RetiredIn inc (after c dir)
  unfolding after open_store reserve start abandon lookup_record
  after-Retired (w, opens n i) dir h =
      guarded-Retired (not (is_identity n) || not (is_identity i)) dir (err invalid_arguments) _ h (
        transaction-Retired (record { namespace = n; incarnation = i }) w true (adopt i) dir
          (λ st. adopt-IsRetired inc i st) h)
  after-Retired (w, reserves s id b l) dir h =
      guarded-Retired (not (is_identity id) || not (is_digest b) || l == 0 || ltb max_lease l) dir
        (err invalid_arguments) _ h
        (transaction-Retired s w false (reserve_in s w id b l) dir
          (λ st. keep_same st _ (reserve-SameFence s w id b l st)) h)
  after-Retired (w, starts s id b t) dir h =
      transaction-Retired s w false (start_in s id b t) dir
        (λ st. keep_same st _ (start-SameFence s id b t st)) h
  after-Retired (w, abandons s id b) dir h =
      guarded-Retired (not (is_identity id) || not (is_digest b)) dir (err invalid_arguments) _ h (
        transaction-Retired s w false (abandon_in s id b) dir
          (λ st. keep_same st _ (abandon-SameFence s id b st)) h)
  after-Retired (w, looks_up s id) dir h =
      transaction-Retired s w false (lookup_in id) dir
        (λ st. keep_same st _ (lookup-SameFence id st)) h

  run-Retired :
      (cs : List (World × Call)) (dir : Dir) → RetiredIn inc dir → RetiredIn inc (run cs dir)
  unfolding run
  run-Retired [] dir h = h
  run-Retired (c ∷ cs) dir h = run-Retired cs (after c dir) (after-Retired c dir h)

load_current :
    (s : Store) (w : World) (dir : Dir) (old st : State)
    → dir.state ≡ some old
    → load s w false dir ≡ ok st
    → str_eq old.incarnation s.incarnation ≡ true
unfolding load stored
load_current s w dir old st e h = ground arith

-- The call was refused, and the state file is as before.
abbrev pub Refused {ℓ} : {A : Type ℓ} → Dir → Outcome A → Type ℓ
Refused {A} dir o = (o.dir.state ≡ dir.state) × ((a : A) → o.answer ≢ ok a)

transaction-Refused {ℓ} :
    {A : Type ℓ} (s : Store) (w : World) (mutate : State → State × Result A) (dir : Dir)
    → RetiredIn s.incarnation dir
    → Refused dir (transaction s w false mutate dir)
transaction-Refused s w mutate dir (old, here, r) = elim (transaction-cases s w false mutate dir) [
  | inl refused ↦ refused
  | inr (st, loaded, out) ↦
      absurd (ground (arith, load_current s w dir old st here loaded, r.replaced))
]

guarded-Refused {ℓ} :
    {A : Type ℓ} (b : Bool) (dir : Dir) (x : Error) (o : Outcome A)
    → Refused dir o
    → Refused dir (if b then record { dir = dir; answer = err x } else o)
guarded-Refused true dir x o h = (refl, λ a e. cc)
guarded-Refused false dir x o h = h

-- `Open` cannot bring a retired incarnation back.
adopt-refuses :
    (inc : String) (st : State) → IsRetired inc st → (adopt inc st).1 ≡ err retired_incarnation
unfolding adopt
adopt-refuses inc st r = ground arith

open-refuses :
    (namespace : String) (inc : String) (w : World) (dir : Dir)
    → RetiredIn inc dir
    → (open_store namespace inc w dir).answer ≢ ok tt
unfolding open_store save
open-refuses namespace inc w dir (old, here, r) e =
    elim (Bool-cases (not (is_identity namespace) || not (is_identity inc))) [
      | inl bad ↦ ground arith
      | inr good ↦
          let s : Store = record { namespace = namespace; incarnation = inc } in
          elim (transaction-cases s w true (adopt inc) dir) [
            | inl (_, never) ↦ never tt (ground arith)
            | inr (st, loaded, out) ↦
                let (p, q) = load-SameFence s w true dir old st here loaded in
                let r' : IsRetired inc st = record {
                  listed = rw p r.listed;
                  replaced = rw q r.replaced;
                } in
                ground (arith, adopt-refuses inc st r')
          ]
    ]

-- Once an incarnation is retired, every later call of a handle of that incarnation is refused and
-- leaves the state file alone, and no `Open` for it succeeds, whatever was called in between.
pub retired_powerless :
    (s : Store) (cs : List (World × Call)) (dir : Dir) (w : World)
    (id binding token namespace : String) (lease : ℕ)
    → RetiredIn s.incarnation dir
    → Refused (run cs dir) (reserve s w id binding lease (run cs dir))
      × Refused (run cs dir) (start s w id binding token (run cs dir))
      × Refused (run cs dir) (abandon s w id binding (run cs dir))
      × Refused (run cs dir) (lookup_record s w id (run cs dir))
      × ((open_store namespace s.incarnation w (run cs dir)).answer ≢ ok tt)
unfolding reserve start abandon lookup_record
retired_powerless s cs dir w id binding token namespace lease h =
    let d = run cs dir in
    let r = run-Retired s.incarnation cs dir h in
    (
      guarded-Refused
          (not (is_identity id) || not (is_digest binding) || lease == 0 || ltb max_lease lease) d
          invalid_arguments _ (transaction-Refused s w (reserve_in s w id binding lease) d r),
      transaction-Refused s w (start_in s id binding token) d r,
      guarded-Refused (not (is_identity id) || not (is_digest binding)) d invalid_arguments _
          (transaction-Refused s w (abandon_in s id binding) d r),
      transaction-Refused s w (lookup_in id) d r,
      open-refuses namespace s.incarnation w d r,
    )

-- Where the list of retired incarnations is full, a refused `Open` has appended the current
-- incarnation to it all the same, and the save keeps that.
pub refused_open_retires :
    (inc : String) (st : State)
    → str_eq st.incarnation inc ≡ false
    → mem inc st.retired ≡ false
    → str_eq st.incarnation "" ≡ false
    → ltb 2047 (length st.retired) ≡ true
    → (adopt inc st).0 ≡ record st { retired = st.retired ++ st.incarnation ∷ [] }
unfolding adopt retire
refused_open_retires inc st a b c d = ground (arith, length-append st.retired (st.incarnation ∷ []))
