-- ===== src/OpJournal/Runs.antt =====
-- An operation over any calls and restarts: held for good, and new at most once.
use mathlib.Core.Path.{subst}
use pomar.Prelude.{
  ℕ, ◌+◌, ◌≤◌, ◌≡◌, ◌⊎◌, inl, inr, refl, ap, sym, ◌∙◌, Bool, true, false, Option, none, some, List,
  [], ◌∷◌, ◌++◌, arith, leb, String, str_eq, eq_iff, if◌then◌else◌, length, append_nil, Bool-cases,
  All,
}
use pomar.Prelude.Assoc.{lookup}
use pomar.Terminal.Text.{has_byte}
use pomar.OpJournal.{
  newline, read_limit, is_sent, OpRecord, OpEntry, Memory, added, begin_found, begin, Result, ok,
  err, Service, Event, begins, finishes, exits, restarts, opened, open_journal, unusable, conflict,
  call, call_closed, after, run,
}
use pomar.OpJournal.Known.{IsJson, IsLasting, Passes, IsLogged, is_whole}
use pomar.OpJournal.Steps.{
  IsKnown, IsKnownIn, InMemory, Spared, begin-IsKnown, finish-IsKnown, exit-IsKnownIn,
  open-IsKnownIn,
}

-- The answer says that the operation is new.
abbrev pub is_first : Result Bool → Bool
is_first (ok new) = new
is_first (err e) = false

-- What a history may meet: an append leaves a whole line or nothing, though its sync may fail; a cut
-- off write has no newline; and the file is within the limit of what an open reads.
unfoldable pub IsSound : Event → Service → Type 0
IsSound (begins now a id digest) s = is_whole a ≡ true
IsSound (finishes now a id known) s = is_whole a ≡ true
IsSound (exits now appends) s = All (λ a. is_whole a ≡ true) appends
IsSound (restarts extra false now appends) s = extra ≡ []
IsSound (restarts extra true now appends) s =
    (has_byte newline extra ≡ false)
    × (length (s.file ++ extra) ≤ read_limit)
    × All (λ a. is_whole a ≡ true) appends

-- No begin makes the journal evict.
unfoldable pub fits : Event → Option Memory → Bool
fits (begins now a key digest) (some m) = leb (length (added now key digest m).ops) m.bound
fits _ _ = true

module _ (encode : OpRecord → List ℕ) (decode : List ℕ → Option OpRecord) (bound : ℕ) where
  unfoldable pub AllSound : List Event → Service → Type 0
  AllSound [] s = Unit
  AllSound (e ∷ events) s = IsSound e s × AllSound events (after encode decode bound e s)

  -- The event is a begin of the operation that answers that it is new.
  unfoldable pub first_in : String → Event → Option Memory → List ℕ → Bool
  first_in id (begins now a key digest) (some m) file =
      if str_eq key id then is_first (begin encode now a key digest file m).1 else false
  first_in id _ _ file = false

  unfoldable pub count_first : String → List Event → Service → ℕ
  count_first id [] s = 0
  count_first id (e ∷ events) s =
      (if first_in id e s.memory s.file then 1 else 0)
      + count_first id events (after encode decode bound e s)

  unfoldable pub AllFit : List Event → Service → Type 0
  AllFit [] s = Unit
  AllFit (e ∷ events) s = (fits e s.memory ≡ true) × AllFit events (after encode decode bound e s)

module _ (encode : OpRecord → List ℕ) (decode : List ℕ → Option OpRecord)
    (json : IsJson encode decode) (bound : ℕ) (test : OpEntry → Bool) (lasting : IsLasting test)
    (id : String) where
  abbrev KnownIn : Service → Type 0
  KnownIn s = IsKnownIn encode decode json test lasting id s

  -- Nothing that passes is evicted by the event.
  abbrev SparedBy : Event → Service → Type 0
  SparedBy e s =
      ((x : OpEntry) → test x ≡ true → is_sent x.disposition ≡ false) ⊎ (fits e s.memory ≡ true)

  call-KnownIn :
      (e : Event) (file : List ℕ) (m : Memory)
      → IsSound e (record { file = file; memory = some m })
      → SparedBy e (record { file = file; memory = some m })
      → IsKnown encode decode json test lasting id file m.ops
      → KnownIn (call encode decode bound e file m)
  unfolding call IsSound fits Spared open_journal opened
  call-KnownIn (begins now a key digest) file m w h k =
      let g = begin-IsKnown encode decode json test lasting id now a key digest file m w h k in
      record { on_disk = g.on_disk; in_memory = g.in_memory }
  call-KnownIn (finishes now a key known) file m w h k =
      let g = finish-IsKnown encode decode json test lasting id now a key known file m w k in
      record { on_disk = g.on_disk; in_memory = g.in_memory }
  call-KnownIn (exits now appends) file m w h k = record {
    on_disk = exit-IsKnownIn encode decode json test lasting id now appends file m w k;
    in_memory = tt;
  }
  call-KnownIn (restarts extra false now appends) file m w h k =
      let at : file ++ extra ≡ file = ap (λ x. file ++ x) w ∙ append_nil file in
      subst (λ x. KnownIn (opened (x, err unusable))) (sym at)
        (record { on_disk = k.on_disk; in_memory = tt })
  call-KnownIn (restarts extra true now appends) file m w h k =
      open-IsKnownIn encode decode json test lasting id now appends bound file extra w.2 w.0 w.1
        k.on_disk

  closed-KnownIn :
      (e : Event) (file : List ℕ)
      → IsSound e (record { file = file; memory = none })
      → IsLogged decode test id file
      → KnownIn (call_closed encode decode bound e file)
  unfolding call_closed IsSound open_journal opened
  closed-KnownIn (begins now a key digest) file w l = record { on_disk = l; in_memory = tt }
  closed-KnownIn (finishes now a key known) file w l = record { on_disk = l; in_memory = tt }
  closed-KnownIn (exits now appends) file w l = record { on_disk = l; in_memory = tt }
  closed-KnownIn (restarts extra false now appends) file w l =
      let at : file ++ extra ≡ file = ap (λ x. file ++ x) w ∙ append_nil file in
      subst (λ x. KnownIn (opened (x, err unusable))) (sym at)
        (record { on_disk = l; in_memory = tt })
  closed-KnownIn (restarts extra true now appends) file w l =
      open-IsKnownIn encode decode json test lasting id now appends bound file extra w.2 w.0 w.1 l

  first_none : (e : Event) (file : List ℕ) → first_in encode decode bound id e none file ≡ false
  unfolding first_in
  first_none (begins now a key digest) file = refl
  first_none (finishes now a key known) file = refl
  first_none (exits now appends) file = refl
  first_none (restarts extra usable now appends) file = refl

  -- A known operation is not new.
  first_known :
      (e : Event) (file : List ℕ) (m : Memory)
      → Passes test id m.ops
      → first_in encode decode bound id e (some m) file ≡ false
  unfolding first_in begin begin_found
  first_known (finishes now a key known) file m p = refl
  first_known (exits now appends) file m p = refl
  first_known (restarts extra usable now appends) file m p = refl
  first_known (begins now a key digest) file m p = elim (Bool-cases (str_eq key id)) [
    | inr isnt ↦ rw isnt refl
    | inl is ↦
        let same : lookup key m.ops ≡ some p.entry =
          (let f = p.found in ground (arith, eq_iff key id)) in
        rw is (rw same (not_new (str_eq p.entry.digest digest)))
  ]
    where
      not_new : (b : Bool) → is_first (if b then ok false else err conflict) ≡ false
      not_new true = refl
      not_new false = refl

  at_memory :
      (e : Event) (file : List ℕ) (o : Option Memory)
      → IsSound e (record { file = file; memory = o })
      → SparedBy e (record { file = file; memory = o })
      → IsLogged decode test id file
      → InMemory encode decode json test lasting id o
      → KnownIn (after encode decode bound e (record { file = file; memory = o }))
        × (first_in encode decode bound id e o file ≡ false)
  unfolding after
  at_memory e file none w h l p = (closed-KnownIn e file w l, first_none e file)
  at_memory e file (some m) w h l p =
      (call-KnownIn e file m w h (record { on_disk = l; in_memory = p }), first_known e file m p)

  -- One event, and then all of them.
  step-KnownIn :
      (e : Event) (s : Service)
      → IsSound e s
      → SparedBy e s
      → KnownIn s
      → KnownIn (after encode decode bound e s)
        × (first_in encode decode bound id e s.memory s.file ≡ false)
  step-KnownIn e s w h k = at_memory e s.file s.memory w h k.on_disk k.in_memory

  pub run_unsent :
      (events : List Event) (s : Service)
      → ((x : OpEntry) → test x ≡ true → is_sent x.disposition ≡ false)
      → AllSound encode decode bound events s
      → KnownIn s
      → KnownIn (run encode decode bound events s)
        × (count_first encode decode bound id events s ≡ 0)
  unfolding AllSound run count_first
  run_unsent [] s u w k = (k, refl)
  run_unsent (e ∷ events) s u w k =
      let (next, old) = step-KnownIn e s w.0 (inl u) k in
      let (end, none_first) = run_unsent events (after encode decode bound e s) u w.1 next in
      (end, ground arith)

  pub run_fits :
      (events : List Event) (s : Service)
      → AllSound encode decode bound events s
      → AllFit encode decode bound events s
      → KnownIn s
      → count_first encode decode bound id events s ≡ 0
  unfolding AllSound AllFit count_first
  run_fits [] s w f k = refl
  run_fits (e ∷ events) s w f k =
      let (next, old) = step-KnownIn e s w.0 (inr f.0) k in
      let none_first = run_fits events (after encode decode bound e s) w.1 f.1 next in ground arith
