-- ===== src/OpJournal.antt =====
-- internal/sessiond/opjournal.go: the journal of an adapter's operations, on disk and in memory. The
-- JSON of a record, which package encoding/json writes and reads, is a parameter.
pub mod Lines
pub mod Known
pub mod Steps
pub mod Runs
pub mod Held
use pomar.Prelude.{
  ℕ, ◌+◌, ◌-◌, ◌*◌, ◌≡◌, refl, Bool, true, false, ◌&&◌, ◌||◌, not, Option, none, some, List, [],
  ◌∷◌, ◌++◌, ltb, leb, ◌==◌, String, str_eq, if◌then◌else◌, length, take, drop,
}
use pomar.Prelude.Assoc.{Assoc, lookup, insert, remove}

abbrev pub newline : ℕ
newline = 0x0a

abbrev pub read_limit : ℕ
read_limit = 64 * 1024 * 1024

abbrev pub line_limit : ℕ
line_limit = 1024 * 1024

-- maxOpsPerSession
abbrev pub max_ops : ℕ
max_ops = 4096

-- A file that was not written by the code may hold any other word.
pub data Disposition : Type 0 where
  pending sent acceptance_unknown : Disposition
  other : String → Disposition

unfoldable pub is_pending : Disposition → Bool
is_pending pending = true
is_pending _ = false

unfoldable pub is_sent : Disposition → Bool
is_sent sent = true
is_sent _ = false

pub record OpRecord : Type 0 where
  pub id : String
  pub digest : String
  pub disposition : Disposition
  pub written : ℕ

pub record OpEntry : Type 0 where
  pub digest : String
  pub disposition : Disposition
  pub written : ℕ

pub record Memory : Type 0 where
  pub bound : ℕ
  pub ops : Assoc OpEntry
  pub order : List String

pub data Error : Type 0 where
  unusable append_failed conflict not_begun already_settled : Error

pub data Result {ℓ} (A : Type ℓ) : Type ℓ where
  ok : A → Result A
  err : Error → Result A

-- What becomes of one write and its sync: both are done, the sync fails, or the write stops early.
pub data Append : Type 0 where
  durable unsynced : Append
  torn : ℕ → Append

-- The first of some appends; where none is given, they are durable.
unfoldable pub next_append : List Append → Append × List Append
next_append [] = (durable, [])
next_append (a ∷ appends) = (a, appends)

-- The bytes up to the last newline.
unfoldable pub clean_part : List ℕ → List ℕ
clean_part [] = []
clean_part (c ∷ s) = elim (clean_part s) [
  | [] ↦ if c == newline then c ∷ [] else []
  | d ∷ t ↦ c ∷ d ∷ t
]

-- ScanLines of package bufio, without its test for a carriage return, which the JSON cannot end with.
unfoldable pub grow : ℕ → List (List ℕ) → List (List ℕ)
grow c [] = (c ∷ []) ∷ []
grow c (l ∷ ls) = (c ∷ l) ∷ ls

unfoldable pub scan_lines : List ℕ → List (List ℕ)
scan_lines [] = []
scan_lines (c ∷ s) = let rest = scan_lines s in if c == newline then [] ∷ rest else grow c rest

abbrev pub entry_of : OpRecord → OpEntry
entry_of r = record { digest = r.digest; disposition = r.disposition; written = r.written }

abbrev pub Replayed : Type 0
Replayed = Assoc OpEntry × List String

unfoldable pub replay_record : Option OpRecord → Replayed → Replayed
replay_record none m = m
replay_record (some r) (ops, order) = if str_eq r.id "" then (ops, order) else (
  insert r.id (entry_of r) ops,
  elim (lookup r.id ops) [ none ↦ order ++ r.id ∷ [] | some e ↦ order ],
)

-- The operation is evicted, where some are still to go.
unfoldable pub goes : ℕ → String → Assoc OpEntry → Bool
goes removed id ops = elim (lookup id ops) [
  | none ↦ false
  | some e ↦ ltb 0 removed && is_sent e.disposition
]

-- The loop of evictLocked: at most so many sent operations go, the oldest first.
unfoldable pub evict_sent : ℕ → List String → Assoc OpEntry → List String × Assoc OpEntry
evict_sent removed [] ops = ([], ops)
evict_sent removed (id ∷ order) ops = elim (goes removed id ops) [
  | true ↦ evict_sent (removed - 1) order (remove id ops)
  | false ↦ let (kept, left) = evict_sent removed order ops in (id ∷ kept, left)
]

unfoldable pub evict : Memory → Memory
evict m =
    let (order, ops) = evict_sent (length m.ops - m.bound) m.order m.ops in
    if leb (length m.ops) m.bound then m else record m { ops = ops; order = order }

unfoldable pub status : String → Memory → Option Disposition
status id m = elim (lookup id m.ops) [ none ↦ none | some e ↦ some e.disposition ]

-- The operations of acceptance_unknown, with their age at a time.
unfoldable pub held : ℕ → List String → Assoc OpEntry → List (String × ℕ)
held now [] ops = []
held now (id ∷ order) ops =
    let rest = held now order ops in
    elim (lookup id ops) [
      | none ↦ rest
      | some e ↦ elim e.disposition [ acceptance_unknown ↦ (id, now - e.written) ∷ rest | _ ↦ rest ]
    ]

module _ (decode : List ℕ → Option OpRecord) where
  -- The scanner stops for good at a line that does not fit its buffer.
  unfoldable pub replay : List (List ℕ) → Replayed → Replayed
  replay [] m = m
  replay (line ∷ lines) m =
      let rest = replay lines (replay_record (decode line) m) in
      if ltb (length line) line_limit then rest else m

-- What convertPending does to one operation: nothing, an append that fails, or a new disposition.
pub data Conversion : Type 0 where
  unchanged : Conversion
  stopped : List ℕ → Conversion
  converted : Assoc OpEntry → List ℕ → Conversion

-- The memory with a new operation, before the evictions.
abbrev pub added : ℕ → String → String → Memory → Memory
added now id digest m = record m {
  ops = insert id (record { digest = digest; disposition = pending; written = now }) m.ops;
  order = m.order ++ id ∷ [];
}

-- begin, after its append.
unfoldable pub begun :
    Bool → ℕ → String → String → List ℕ → Memory → (List ℕ × Memory) × Result Bool
begun true now id digest file m = ((file, evict (added now id digest m)), ok true)
begun false now id digest file m = ((file, m), err append_failed)

-- finish, after its append.
unfoldable pub settled :
    Bool → String → OpEntry → List ℕ → Memory → (List ℕ × Memory) × Result (Unit {0})
settled true id e file m = ((file, record m { ops = insert id e m.ops }), ok tt)
settled false id e file m = ((file, m), err append_failed)

-- A torn end of the text that was read is cut off the file, and all that follows it.
unfoldable pub truncated : List ℕ → List ℕ → List ℕ
truncated text file =
    let clean = clean_part text in if ltb (length clean) (length text) then clean else file

unfoldable pub loaded : ℕ → List String → (Assoc OpEntry × List ℕ) × Bool → List ℕ × Result Memory
loaded bound order ((ops, file), true) =
    (file, ok (record { bound = bound; ops = ops; order = order }))
loaded bound order ((ops, file), false) = (file, err append_failed)

module _ (encode : OpRecord → List ℕ) where
  -- The file after the append, and whether it gave no error.
  unfoldable pub append_record : Append → OpRecord → List ℕ → List ℕ × Bool
  append_record durable r file = (file ++ (encode r ++ newline ∷ []), true)
  append_record unsynced r file = (file ++ (encode r ++ newline ∷ []), false)
  append_record (torn n) r file = (file ++ take n (encode r ++ newline ∷ []), false)

  -- One operation of convertPending.
  unfoldable pub convert_one :
      ℕ → Append → String → Option OpEntry → Assoc OpEntry → List ℕ → Conversion
  convert_one now outcome id none ops file = unchanged
  convert_one now outcome id (some e) ops file =
      let unknown : OpEntry = record {
        digest = e.digest;
        disposition = acceptance_unknown;
        written = e.written;
      } in
      let (file', done) =
        append_record outcome
          (record { id = id; digest = e.digest; disposition = acceptance_unknown; written = now })
          file in
      if is_pending e.disposition
      then (if done then converted (insert id unknown ops) file' else stopped file')
      else unchanged

  -- The loop of convertPending; the appends are those of the operations still to come.
  unfoldable pub convert :
      ℕ → List Append → List String → Assoc OpEntry → List ℕ → (Assoc OpEntry × List ℕ) × Bool
  convert now appends [] ops file = ((ops, file), true)
  convert now appends (id ∷ order) ops file =
      elim (convert_one now (next_append appends).0 id (lookup id ops) ops file) [
        | unchanged ↦ convert now appends order ops file
        | stopped file' ↦ ((ops, file'), false)
        | converted ops' file' ↦ convert now (next_append appends).1 order ops' file'
      ]

  -- convertPending at the end of the session's program.
  unfoldable pub convert_pending : ℕ → List Append → List ℕ → Memory → (List ℕ × Memory) × Bool
  convert_pending now appends file m =
      let ((ops, file'), done) = convert now appends m.order m.ops file in
      ((file', record m { ops = ops }), done)

  -- begin of an operation that may have begun before: true where it is new.
  unfoldable pub begin_found :
      ℕ
      → Append
      → String
      → String
      → Option OpEntry
      → List ℕ
      → Memory
      → (List ℕ × Memory) × Result Bool
  begin_found now outcome id digest none file m =
      let r : OpRecord = record {
        id = id;
        digest = digest;
        disposition = pending;
        written = now;
      } in
      let (file', done) = append_record outcome r file in begun done now id digest file' m
  begin_found now outcome id digest (some e) file m =
      ((file, m), if str_eq e.digest digest then ok false else err conflict)

  unfoldable pub begin :
      ℕ → Append → String → String → List ℕ → Memory → (List ℕ × Memory) × Result Bool
  begin now outcome id digest file m = begin_found now outcome id digest (lookup id m.ops) file m

  unfoldable pub settle :
      ℕ
      → Append
      → String
      → OpEntry
      → Disposition
      → List ℕ
      → Memory
      → (List ℕ × Memory) × Result (Unit {0})
  settle now outcome id e d file m =
      let r : OpRecord = record { id = id; digest = e.digest; disposition = d; written = now } in
      let (file', done) = append_record outcome r file in
      settled done id (record { digest = e.digest; disposition = d; written = e.written }) file' m

  unfoldable pub finish_found :
      ℕ
      → Append
      → String
      → Bool
      → Option OpEntry
      → List ℕ
      → Memory
      → (List ℕ × Memory) × Result (Unit {0})
  finish_found now outcome id known none file m = ((file, m), err not_begun)
  finish_found now outcome id known (some e) file m =
      if is_pending e.disposition
      then settle now outcome id e (if known then sent else acceptance_unknown) file m
      else ((file, m), err already_settled)

  unfoldable pub finish :
      ℕ → Append → String → Bool → List ℕ → Memory → (List ℕ × Memory) × Result (Unit {0})
  finish now outcome id known file m = finish_found now outcome id known (lookup id m.ops) file m

module _ (encode : OpRecord → List ℕ) (decode : List ℕ → Option OpRecord) where
  -- The file after the open, with a running journal or an error.
  unfoldable pub open_journal : Bool → ℕ → List Append → ℕ → List ℕ → List ℕ × Result Memory
  open_journal false now appends bound file = (file, err unusable)
  open_journal true now appends bound file =
      let text = take read_limit file in
      let (ops, order) = replay decode (scan_lines (clean_part text)) ([], []) in
      loaded bound order (convert encode now appends order ops (truncated text file))

-- The service at one moment: the file, and the journal in memory where it runs.
pub record Service : Type 0 where
  pub file : List ℕ
  pub memory : Option Memory

-- A call of an adapter, the end of a session's program, and a restart after which the file has some
-- further bytes of a write that was cut off, and can be opened or not.
pub data Event : Type 0 where
  begins : ℕ → Append → String → String → Event
  finishes : ℕ → Append → String → Bool → Event
  exits : ℕ → List Append → Event
  restarts : List ℕ → Bool → ℕ → List Append → Event

unfoldable pub opened : List ℕ × Result Memory → Service
opened (file, ok m) = record { file = file; memory = some m }
opened (file, err e) = record { file = file; memory = none }

module _ (encode : OpRecord → List ℕ) (decode : List ℕ → Option OpRecord) (bound : ℕ) where
  unfoldable pub call : Event → List ℕ → Memory → Service
  call (begins now a id digest) file m =
      let ((file', m'), r) = begin encode now a id digest file m in
      record { file = file'; memory = some m' }
  call (finishes now a id known) file m =
      let ((file', m'), r) = finish encode now a id known file m in
      record { file = file'; memory = some m' }
  call (exits now appends) file m =
      let ((file', m'), r) = convert_pending encode now appends file m in
      record { file = file'; memory = none }
  call (restarts extra usable now appends) file m =
      opened (open_journal encode decode usable now appends bound (file ++ extra))

  unfoldable pub call_closed : Event → List ℕ → Service
  call_closed (restarts extra usable now appends) file =
      opened (open_journal encode decode usable now appends bound (file ++ extra))
  call_closed _ file = record { file = file; memory = none }

  unfoldable pub after : Event → Service → Service
  after e s = elim s.memory [ none ↦ call_closed e s.file | some m ↦ call e s.file m ]

  unfoldable pub run : List Event → Service → Service
  run [] s = s
  run (e ∷ events) s = run events (after e s)
