-- ===== src/ProviderFence/Once.antt =====
-- An identity is started at most once, and never after it was fenced.
use pomar.Prelude.{
  ℕ, ◌+◌, ◌≤◌, ◌≡◌, refl, inl, inr, Bool, true, false, List, [], ◌∷◌, some, String, str_eq, eq_iff,
  arith, if◌then◌else◌, Option-cases, Bool-cases,
}
use pomar.Prelude.Assoc.{lookup, insert, lookup-insert, lookup-map_entries}
use pomar.ProviderFence.{
  Phase, reserved, starting, Record, State, Store, Dir, World, Saved, durable, lost, uncertain,
  Result, ok, err, load, save, sweep,
}
use pomar.ProviderFence.Calls.{is_started, start_record, start_in, start, Started}
use pomar.ProviderFence.Moves.{is_fenced}
use pomar.ProviderFence.History.{
  Keeps, Call, starts, after, after-Keeps, transaction-cases, load-sweep,
}

-- The call is a first start of the identity: its answer permits an execution.
abbrev first : Result Started → Bool
first (ok (r, f)) = f
first (err e) = false

unfoldable pub launches : String → World × Call → Dir → Bool
launches id (w, starts s j binding token) dir =
    if str_eq j id then first (start s w j binding token dir).answer else false
launches id (w, _) dir = false

unfoldable pub count_launches : String → List (World × Call) → Dir → ℕ
count_launches id [] dir = 0
count_launches id (c ∷ cs) dir =
    (if launches id c dir then 1 else 0) + count_launches id cs (after c dir)

-- The directory holds the identity, in a phase of the given kind.
pub record Holds (kind : Phase → Bool) (id : String) (dir : Dir) : Type 0 where
  pub state : State
  pub stored : dir.state ≡ some state
  pub entry : Record
  pub found : lookup id state.records ≡ some entry
  pub is_kind : kind entry.phase ≡ true

Keeps-started :
    {id : String} {d d' : Dir} → Keeps d d' → Holds is_started id d → Holds is_started id d'
Keeps-started {id} k h =
    let (st', e', v) = k.kept h.state h.stored in
    let (r', f', l) = v.kept id h.entry h.found in
    record { state = st'; stored = e'; entry = r'; found = f'; is_kind = l.started h.is_kind }

Keeps-fenced :
    {id : String} {d d' : Dir} → Keeps d d' → Holds is_fenced id d → Holds is_fenced id d'
Keeps-fenced {id} k h =
    let (st', e', v) = k.kept h.state h.stored in
    let (r', f', l) = v.kept id h.entry h.found in
    record { state = st'; stored = e'; entry = r'; found = f'; is_kind = l.fenced h.is_kind }

-- A first start finds a reservation.
first-start :
    (s : Store) (id binding token : String) (st : State) (r : Record)
    → (start_in s id binding token st).1 ≡ ok (r, true)
    → (old : Record) × (lookup id st.records ≡ some old)
      × (old.phase ≡ reserved)
      × ((start_in s id binding token st).0.records ≡ insert id r st.records)
      × (r.phase ≡ starting)
unfolding start_in start_record
first-start s id binding token st r e = elim (Option-cases (lookup id st.records)) [
  | inl absent ↦ ground arith
  | inr (old, found) ↦ (old, found, ground arith, ground arith, ground arith)
]

pub save-answer {ℓ} :
    {A : Type ℓ} (v : Saved) (d : Dir) (st : State) (r : Result A) (a : A)
    → (save v d st r).answer ≡ ok a
    → (r ≡ ok a) × ((save v d st r).dir.state ≡ some st)
unfolding save
save-answer durable d st r a e = (e, refl)
save-answer lost d st r a e = cc
save-answer uncertain d st r a e = cc

-- What a first start saw and left.
module _ (s : Store) (w : World) (id binding token : String) (dir : Dir) (r : Record)
    (e : (start s w id binding token dir).answer ≡ ok (r, true)) where
  saved_start :
      (st : State) × (load s w false dir ≡ ok st)
      × ((start_in s id binding token st).1 ≡ ok (r, true))
      × ((start s w id binding token dir).dir.state ≡ some (start_in s id binding token st).0)
  unfolding start
  saved_start = elim (transaction-cases s w false (start_in s id binding token) dir) [
    | inl (_, bad) ↦ absurd (bad (r, true) e)
    | inr (st, loaded, out) ↦
        let (a, b) =
          save-answer w.saved (record dir { lock = true }) (start_in s id binding token st).0
            (start_in s id binding token st).1 (r, true) (rw out at e) in
        (st, loaded, a, rw out b)
  ]

  launch-Holds : Holds is_started id (start s w id binding token dir).dir
  unfolding is_started
  launch-Holds =
      let (st, loaded, a, b) = saved_start in
      let (old, found, was, now, phase) = first-start s id binding token st r a in
      record {
        state = (start_in s id binding token st).0;
        stored = b;
        entry = r;
        found = rw now (ground (arith, lookup-insert id id r st.records, eq_iff id id));
        is_kind = rw phase;
      }

  -- It found a reservation, so the identity was neither started nor fenced.
  launch_fresh :
      (old : State) (before : Record)
      → dir.state ≡ some old
      → lookup id old.records ≡ some before
      → before.phase ≡ reserved
  unfolding sweep
  launch_fresh old before here found =
      let (st, loaded, a, b) = saved_start in
      let (entry, found', was, now, phase) = first-start s id binding token st r a in
      let swept = load-sweep s w false dir old st here loaded in
      ground (arith, lookup-map_entries (sweep w) id old.records)

first-inv : (x : Result Started) → first x ≡ true → (r : Record) × (x ≡ ok (r, true))
first-inv (ok (r, true)) h = (r, refl)
first-inv (ok (r, false)) h = cc
first-inv (err e) h = cc

module _ (id : String) where
  -- A launch of the identity is a call of `Start` for it, which found a reservation and left a start.
  launch-inv :
      (c : World × Call) (dir : Dir)
      → launches id c dir ≡ true
      → Holds is_started id (after c dir)
        × ((old : State) (before : Record)
            → dir.state ≡ some old
            → lookup id old.records ≡ some before
            → before.phase ≡ reserved)
  unfolding launches after
  launch-inv (w, starts s j binding token) dir h = elim (Bool-cases (str_eq j id)) [
    | inl same ↦
        let (r, e) = first-inv (start s w j binding token dir).answer (rw same at h) in
        let j_is : j ≡ id = (eq_iff j id).0 same in
        rw (← j_is)
          (launch-Holds s w j binding token dir r e, launch_fresh s w j binding token dir r e)
    | inr apart ↦ ground arith
  ]
  launch-inv (w, _) dir h = cc

  started_no_launch :
      (c : World × Call) (dir : Dir) → Holds is_started id dir → launches id c dir ≡ false
  unfolding is_started
  started_no_launch c dir h = elim (Bool-cases (launches id c dir)) [
    | inl yes_launch ↦
        ground (arith, (launch-inv c dir yes_launch).1 h.state h.entry h.stored h.found)
    | inr none_launch ↦ none_launch
  ]

  fenced_no_launch :
      (c : World × Call) (dir : Dir) → Holds is_fenced id dir → launches id c dir ≡ false
  unfolding is_fenced
  fenced_no_launch c dir h = elim (Bool-cases (launches id c dir)) [
    | inl yes_launch ↦
        ground (arith, (launch-inv c dir yes_launch).1 h.state h.entry h.stored h.found)
    | inr none_launch ↦ none_launch
  ]

  started_never :
      (cs : List (World × Call)) (dir : Dir)
      → Holds is_started id dir
      → count_launches id cs dir ≡ 0
  unfolding count_launches
  started_never [] dir h = refl
  started_never (c ∷ cs) dir h = ground (
    arith,
    started_no_launch c dir h,
    started_never cs (after c dir) (Keeps-started (after-Keeps c dir) h),
  )

-- An identity that is fenced on disk is never started again, by any handle, whatever is called and
-- whatever fails.
pub fenced_never :
    (id : String) (cs : List (World × Call)) (dir : Dir)
    → Holds is_fenced id dir
    → count_launches id cs dir ≡ 0
unfolding count_launches
fenced_never id [] dir h = refl
fenced_never id (c ∷ cs) dir h = ground (
  arith,
  fenced_no_launch id c dir h,
  fenced_never id cs (after c dir) (Keeps-fenced (after-Keeps c dir) h),
)

-- In any sequence of calls by any handles and incarnations, with any failures to read or save, at
-- most one call of `Start` answers that it is the first start of an identity.
pub starts_once :
    (id : String) (cs : List (World × Call)) (dir : Dir) → count_launches id cs dir ≤ 1
unfolding count_launches
starts_once id [] dir = omega arith
starts_once id (c ∷ cs) dir = elim (Bool-cases (launches id c dir)) [
  | inl hit ↦ ground (arith, started_never id cs (after c dir) (launch-inv id c dir hit).0)
  | inr miss ↦ ground (arith, starts_once id cs (after c dir))
]
