-- ===== src/OpJournal/Steps.antt =====
-- Each call keeps an operation known.
use mathlib.Core.Path.{subst}
use pomar.Prelude.{
  ℕ, ◌-◌, ◌≤◌, ◌≡◌, ◌⊎◌, inl, inr, refl, ap, sym, ◌∙◌, Bool, true, false, Option, none, some, List,
  [], ◌∷◌, ◌++◌, arith, leb, String, str_eq, eq_iff, if◌then◌else◌, length, take, Bool-cases,
  append_nil, take_all, length-append, All,
}
use pomar.Prelude.Assoc.{Assoc, lookup}
use pomar.Terminal.Text.{has_byte}
use pomar.OpJournal.{
  newline, read_limit, is_pending, is_sent, pending, OpRecord, OpEntry, Memory, Append, clean_part,
  scan_lines, replay, evict, append_record, Conversion, unchanged, stopped, converted, convert_one,
  convert, next_append, acceptance_unknown, sent, Disposition, added, begun, begin_found, begin,
  settled, settle, finish_found, finish, convert_pending, Service, opened, truncated, loaded,
  open_journal, Result,
}
use pomar.OpJournal.Lines.{clean_part-torn}
use pomar.OpJournal.Known.{
  IsJson, IsLasting, Passes, Passes-insert, Passes-evict_sent, IsLogged, append-IsLogged, is_whole,
  logged,
}

Conversion-cases :
    (c : Conversion)
    → (c ≡ unchanged)
      ⊎ (((file : List ℕ) × (c ≡ stopped file))
          ⊎ ((ops : Assoc OpEntry) × (file : List ℕ) × (c ≡ converted ops file)))
Conversion-cases unchanged = inl refl
Conversion-cases (stopped file) = inr (inl (file, refl))
Conversion-cases (converted ops file) = inr (inr (ops, file, refl))

truncated-torn :
    (file extra : List ℕ)
    → clean_part file ≡ file
    → has_byte newline extra ≡ false
    → truncated (file ++ extra) (file ++ extra) ≡ file
unfolding truncated
truncated-torn file [] c n =
    let e = append_nil file in let r = clean_part-torn file [] c n in ground arith
truncated-torn file (b ∷ extra) c n =
    let r = clean_part-torn file (b ∷ extra) c n in
    let l = length-append file (b ∷ extra) in ground arith

module _ (encode : OpRecord → List ℕ) (decode : List ℕ → Option OpRecord)
    (json : IsJson encode decode) (test : OpEntry → Bool) (lasting : IsLasting test)
    (id : String) where
  pub record IsKnown (file : List ℕ) (ops : Assoc OpEntry) : Type 0 where
    pub on_disk : IsLogged decode test id file
    pub in_memory : Passes test id ops

  -- A pending operation is another one, or passes in any new disposition.
  settled_or :
      (ops : Assoc OpEntry) (key : String) (e : OpEntry)
      → Passes test id ops
      → lookup key ops ≡ some e
      → is_pending e.disposition ≡ true
      → (d : Disposition) (t : ℕ)
      → (str_eq key id ≡ false)
        ⊎ (test (record { digest = e.digest; disposition = d; written = t }) ≡ true)
  settled_or ops key e p found open_op d t = elim (Bool-cases (str_eq key id)) [
    | inl is ↦
        let f = p.found in
        let same : p.entry ≡ e = ground (arith, eq_iff key id) in
        inr (lasting e (ap test (sym same) ∙ p.passes) open_op d t)
    | inr isnt ↦ inl isnt
  ]

  abbrev pub WholeList : List Append → Type 0
  WholeList = All (λ a. is_whole a ≡ true)

  next_whole :
      (appends : List Append)
      → WholeList appends
      → (is_whole (next_append appends).0 ≡ true) × WholeList (next_append appends).1
  unfolding next_append is_whole
  next_whole [] w = (refl, tt)
  next_whole (a ∷ appends) w = w

  -- What one conversion leaves known.
  abbrev KeptBy : Assoc OpEntry → Conversion → Type 0
  KeptBy ops unchanged = Unit
  KeptBy ops (stopped file) = IsKnown file ops
  KeptBy ops (converted ops' file) = IsKnown file ops'

  one-IsKnown :
      (now : ℕ) (a : Append) (key : String) (o : Option OpEntry) (ops : Assoc OpEntry)
      (file : List ℕ)
      → lookup key ops ≡ o
      → is_whole a ≡ true
      → IsKnown file ops
      → KeptBy ops (convert_one encode now a key o ops file)
  unfolding convert_one
  one-IsKnown now a key none ops file found w k = tt
  one-IsKnown now a key (some e) ops file found w k = elim (Bool-cases (is_pending e.disposition)) [
    | inr done ↦ rw done tt
    | inl open_op ↦
        let r : OpRecord = record {
          id = key;
          digest = e.digest;
          disposition = acceptance_unknown;
          written = now;
        } in
        let h = settled_or ops key e k.in_memory found open_op acceptance_unknown in
        let disk = append-IsLogged encode decode json test id a r file w (h now) k.on_disk in
        rw open_op (
          by_outcome (append_record encode a r file).1
            (record { on_disk = disk; in_memory = k.in_memory })
            (record {
              on_disk = disk;
              in_memory = Passes-insert test id key _ ops (h e.written) k.in_memory;
            }))
  ]
    where
      by_outcome :
          (done : Bool) {ops ops' : Assoc OpEntry} {file : List ℕ}
          → IsKnown file ops
          → IsKnown file ops'
          → KeptBy ops (if done then converted ops' file else stopped file)
      by_outcome true before now_known = now_known
      by_outcome false before now_known = before

  abbrev Kept : (Assoc OpEntry × List ℕ) × Bool → Type 0
  Kept x = IsKnown x.0.1 x.0.0

  convert-IsKnown :
      (now : ℕ) (appends : List Append) (order : List String) (ops : Assoc OpEntry) (file : List ℕ)
      → WholeList appends
      → IsKnown file ops
      → Kept (convert encode now appends order ops file)
  unfolding convert
  convert-IsKnown now appends [] ops file w k = k
  convert-IsKnown now appends (key ∷ order) ops file w k =
      let c = convert_one encode now (next_append appends).0 key (lookup key ops) ops file in
      let (w1, ws) = next_whole appends w in
      let one = one-IsKnown now (next_append appends).0 key (lookup key ops) ops file refl w1 k in
      elim (Conversion-cases c) [
        | inl same ↦ rw (same, convert) (convert-IsKnown now appends order ops file w k)
        | inr (inl (f, e)) ↦ rw (e, convert) (subst (KeptBy ops) e one)
        | inr (inr (o, f, e)) ↦
            rw (e, convert)
              (convert-IsKnown now (next_append appends).1 order o f ws (subst (KeptBy ops) e one))
      ]

  -- Nothing that passes is evicted: either no sent operation passes, or all operations fit.
  unfoldable pub Spared : Memory → Type 0
  Spared m =
      ((e : OpEntry) → test e ≡ true → is_sent e.disposition ≡ false)
      ⊎ (leb (length m.ops) m.bound ≡ true)

  evict-Passes : (m : Memory) → Spared m → Passes test id m.ops → Passes test id (evict m).ops
  unfolding evict Spared
  evict-Passes m h p = elim (Bool-cases (leb (length m.ops) m.bound)) [
    | inl fits ↦ rw fits p
    | inr over ↦ rw over (elim h [
      | inl unsent ↦ Passes-evict_sent test id unsent (length m.ops - m.bound) m.order m.ops p
      | inr fits ↦ absurd (ground arith)
    ])
  ]

  begun-IsKnown :
      (done : Bool) (now : ℕ) (key digest : String) (file : List ℕ) (m : Memory)
      → str_eq key id ≡ false
      → Spared (added now key digest m)
      → IsKnown file m.ops
      → IsKnown (begun done now key digest file m).0.0 (begun done now key digest file m).0.1.ops
  unfolding begun
  begun-IsKnown true now key digest file m other h k = record {
    on_disk = k.on_disk;
    in_memory =
        evict-Passes (added now key digest m) h
          (Passes-insert test id key _ m.ops (inl other) k.in_memory);
  }
  begun-IsKnown false now key digest file m other h k = k

  begin_found-IsKnown :
      (now : ℕ) (a : Append) (key digest : String) (o : Option OpEntry) (file : List ℕ) (m : Memory)
      → lookup key m.ops ≡ o
      → is_whole a ≡ true
      → Spared (added now key digest m)
      → IsKnown file m.ops
      → IsKnown
          (begin_found encode now a key digest o file m).0.0
          (begin_found encode now a key digest o file m).0.1.ops
  unfolding begin_found
  begin_found-IsKnown now a key digest (some e) file m found w h k = k
  begin_found-IsKnown now a key digest none file m found w h k =
      let other : str_eq key id ≡ false =
        (let f = k.in_memory.found in ground (arith, eq_iff key id)) in
      let r : OpRecord = record {
        id = key;
        digest = digest;
        disposition = pending;
        written = now;
      } in
      let disk = append-IsLogged encode decode json test id a r file w (inl other) k.on_disk in
      begun-IsKnown _ now key digest _ m other h
        (record { on_disk = disk; in_memory = k.in_memory })

  pub begin-IsKnown :
      (now : ℕ) (a : Append) (key digest : String) (file : List ℕ) (m : Memory)
      → is_whole a ≡ true
      → Spared (added now key digest m)
      → IsKnown file m.ops
      → IsKnown
          (begin encode now a key digest file m).0.0
          (begin encode now a key digest file m).0.1.ops
  unfolding begin
  begin-IsKnown now a key digest file m w h k =
      begin_found-IsKnown now a key digest (lookup key m.ops) file m refl w h k

  settled-IsKnown :
      (done : Bool) (key : String) (e : OpEntry) (file : List ℕ) (m : Memory)
      → (str_eq key id ≡ false) ⊎ (test e ≡ true)
      → IsKnown file m.ops
      → IsKnown (settled done key e file m).0.0 (settled done key e file m).0.1.ops
  unfolding settled
  settled-IsKnown true key e file m h k = record {
    on_disk = k.on_disk;
    in_memory = Passes-insert test id key e m.ops h k.in_memory;
  }
  settled-IsKnown false key e file m h k = k

  finish_found-IsKnown :
      (now : ℕ) (a : Append) (key : String) (known : Bool) (o : Option OpEntry) (file : List ℕ)
      (m : Memory)
      → lookup key m.ops ≡ o
      → is_whole a ≡ true
      → IsKnown file m.ops
      → IsKnown
          (finish_found encode now a key known o file m).0.0
          (finish_found encode now a key known o file m).0.1.ops
  unfolding finish_found settle
  finish_found-IsKnown now a key known none file m found w k = k
  finish_found-IsKnown now a key known (some e) file m found w k =
      elim (Bool-cases (is_pending e.disposition)) [
        | inr done ↦ rw done k
        | inl open_op ↦
            let d = if known then sent else acceptance_unknown in
            let r : OpRecord = record {
              id = key;
              digest = e.digest;
              disposition = d;
              written = now;
            } in
            let h = settled_or m.ops key e k.in_memory found open_op d in
            let disk = append-IsLogged encode decode json test id a r file w (h now) k.on_disk in
            rw open_op (
              settled-IsKnown (append_record encode a r file).1 key _ _ m (h e.written)
                (record { on_disk = disk; in_memory = k.in_memory }))
      ]

  pub finish-IsKnown :
      (now : ℕ) (a : Append) (key : String) (known : Bool) (file : List ℕ) (m : Memory)
      → is_whole a ≡ true
      → IsKnown file m.ops
      → IsKnown
          (finish encode now a key known file m).0.0
          (finish encode now a key known file m).0.1.ops
  unfolding finish
  finish-IsKnown now a key known file m w k =
      finish_found-IsKnown now a key known (lookup key m.ops) file m refl w k

  -- An operation of the service that is known: on disk, and in memory where the journal runs.
  abbrev pub InMemory : Option Memory → Type 0
  InMemory none = Unit
  InMemory (some m) = Passes test id m.ops

  pub record IsKnownIn (s : Service) : Type 0 where
    pub on_disk : IsLogged decode test id s.file
    pub in_memory : InMemory s.memory

  loaded-IsKnownIn :
      (bound : ℕ) (order : List String) (c : (Assoc OpEntry × List ℕ) × Bool)
      → Kept c
      → IsKnownIn (opened (loaded bound order c))
  unfolding loaded opened
  loaded-IsKnownIn bound order ((ops, file), true) k = record {
    on_disk = k.on_disk;
    in_memory = k.in_memory;
  }
  loaded-IsKnownIn bound order ((ops, file), false) k = record {
    on_disk = k.on_disk;
    in_memory = tt;
  }

  -- A restart reads every operation back, where the file is within the limit of what it reads.
  pub open-IsKnownIn :
      (now : ℕ) (appends : List Append) (bound : ℕ) (file extra : List ℕ)
      → WholeList appends
      → has_byte newline extra ≡ false
      → length (file ++ extra) ≤ read_limit
      → IsLogged decode test id file
      → IsKnownIn (opened (open_journal encode decode true now appends bound (file ++ extra)))
  unfolding open_journal logged
  open-IsKnownIn now appends bound file extra w n small l =
      let t = take_all read_limit (file ++ extra) small in
      let clean = ap clean_part t ∙ clean_part-torn file extra l.clean n in
      let kept = ap (λ x. truncated x (file ++ extra)) t ∙ truncated-torn file extra l.clean n in
      let (ops, order) = logged decode file in
      let now_known = loaded-IsKnownIn bound order (convert encode now appends order ops file) (
        convert-IsKnown now appends order ops file w
          (record { on_disk = l; in_memory = l.on_disk })) in
      subst
        (λ x.
          IsKnownIn
            (opened (reopened x (truncated (take read_limit (file ++ extra)) (file ++ extra)))))
        (sym clean) (subst (λ y. IsKnownIn (opened (reopened file y))) (sym kept) now_known)
    where
      reopened : List ℕ → List ℕ → List ℕ × Result Memory
      reopened x y =
          let (ops, order) = replay decode (scan_lines x) ([], []) in
          loaded bound order (convert encode now appends order ops y)

  pub exit-IsKnownIn :
      (now : ℕ) (appends : List Append) (file : List ℕ) (m : Memory)
      → WholeList appends
      → IsKnown file m.ops
      → IsLogged decode test id (convert_pending encode now appends file m).0.0
  unfolding convert_pending
  exit-IsKnownIn now appends file m w k =
      (convert-IsKnown now appends m.order m.ops file w k).on_disk
