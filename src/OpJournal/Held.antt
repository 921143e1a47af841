-- ===== src/OpJournal/Held.antt =====
-- What the journal promises: an unknown outcome stays so, and an operation is new once.
use mathlib.Core.Path.{subst}
use pomar.Prelude.{
  ℕ, ◌≡◌, refl, ap, sym, ◌∙◌, Bool, true, false, ◌&&◌, Option, none, some, List, [], ◌∷◌, ◌++◌,
  arith, leb, String, str_eq, eq_iff, length, append_assoc,
}
use pomar.Prelude.Assoc.{lookup, lookup-insert}
use pomar.OpJournal.{
  newline, is_sent, is_pending, OpRecord, OpEntry, Memory, Append, durable, unsynced, torn,
  append_record, added, evict, begun, begin_found, begin, ok, Service, Event, begins, call, run,
  scan_lines, Disposition, pending, acceptance_unknown, replay_record, replay, entry_of,
}
use pomar.OpJournal.Lines.{IsClean, line-IsClean, scan_lines-line, replay_short, all_short}
use pomar.OpJournal.Known.{IsJson, IsLasting, Passes, IsLogged, logged}
use pomar.OpJournal.Steps.{IsKnownIn}
use pomar.OpJournal.Runs.{AllSound, AllFit, fits, count_first, run_unsent, run_fits}

unfoldable pub is_unknown : Disposition → Bool
is_unknown acceptance_unknown = true
is_unknown _ = false

-- The entry is held, with this digest.
abbrev pub is_held : String → OpEntry → Bool
is_held digest e = str_eq e.digest digest && is_unknown e.disposition

pub held-IsLasting : (digest : String) → IsLasting (is_held digest)
unfolding is_unknown is_pending
held-IsLasting digest e h p d t = absurd (ground arith)

held_unsent :
    (digest : String) (e : OpEntry) → is_held digest e ≡ true → is_sent e.disposition ≡ false
unfolding is_unknown is_sent
held_unsent digest e h = ground arith

abbrev pub is_any : OpEntry → Bool
is_any e = true

pub any-IsLasting : IsLasting is_any
any-IsLasting e h p d t = refl

module _ (encode : OpRecord → List ℕ) (decode : List ℕ → Option OpRecord)
    (json : IsJson encode decode) (bound : ℕ) (id : String) where
  -- The service holds the operation: its outcome is unknown, on disk and in memory.
  abbrev pub IsHeld : String → Service → Type 0
  IsHeld digest s = IsKnownIn encode decode json (is_held digest) (held-IsLasting digest) id s

  -- An operation whose acceptance is unknown stays so, on disk and in memory, with its digest,
  -- through any calls, evictions, exits and restarts, and no begin answers that it is new. Given are
  -- that each append leaves a whole line, that each open can read the whole file, and of JSON that
  -- a written record is read back and has no newline.
  pub run-IsHeld :
      (digest : String) (events : List Event) (s : Service)
      → AllSound encode decode bound events s
      → IsHeld digest s
      → IsHeld digest (run encode decode bound events s)
        × (count_first encode decode bound id events s ≡ 0)
  run-IsHeld digest events s w h =
      run_unsent encode decode json bound (is_held digest) (held-IsLasting digest) id events s
        (held_unsent digest) w h

  -- A begin that answers that the operation is new found no entry, and its append was whole.
  first-inv :
      (now : ℕ) (a : Append) (digest : String) (o : Option OpEntry) (file : List ℕ) (m : Memory)
      → (begin_found encode now a id digest o file m).1 ≡ ok true
      → (begin_found encode now a id digest o file m).0 ≡ (
        file
            ++ (encode (record { id = id; digest = digest; disposition = pending; written = now })
                ++ newline ∷ []),
        evict (added now id digest m),
      )
  unfolding begin_found begun append_record
  first-inv now durable digest none file m h = refl
  first-inv now unsynced digest none file m h = absurd (ground arith)
  first-inv now (torn n) digest none file m h = absurd (ground arith)
  first-inv now a digest (some e) file m h = absurd (ground arith)

  named_record :
      (r : OpRecord) (m : List (String × OpEntry) × List String)
      → str_eq r.id "" ≡ false
      → Passes is_any r.id (replay_record (some r) m).0
  unfolding replay_record
  named_record r (ops, order) named = rw named (record {
    entry = entry_of r;
    found = (let l = lookup-insert r.id r.id (entry_of r) ops in ground (arith, eq_iff r.id r.id));
    passes = refl;
  })

  first-IsLogged :
      (r : OpRecord) (file : List ℕ)
      → IsClean file
      → str_eq r.id "" ≡ false
      → all_short (scan_lines (file ++ (encode r ++ newline ∷ []))) ≡ true
      → IsLogged decode is_any r.id (file ++ (encode r ++ newline ∷ []))
  unfolding logged
  first-IsLogged r file c named short =
      let lines = scan_lines-line file (encode r) c (json.one_line r) in
      let read =
        replay_short decode (scan_lines file) (encode r) ([], [])
          (ap all_short (sym lines) ∙ short) in
      let e =
        ap (λ ls. replay decode ls ([], [])) lines
        ∙ read
        ∙ ap (λ o. replay_record o (logged decode file)) (json.reads r) in
      record {
        clean =
            subst IsClean (append_assoc file (encode r) (newline ∷ []))
              (line-IsClean (file ++ encode r));
        on_disk =
            subst (λ m. Passes is_any r.id m.0) (sym e) (named_record r (logged decode file) named);
      }

  evict_fits : (m : Memory) → leb (length m.ops) m.bound ≡ true → evict m ≡ m
  unfolding evict
  evict_fits m h = rw h refl

  -- After a begin that answers that the operation is new, no later begin of it does, through any
  -- calls, exits and restarts. Given are a named operation, a file of whole lines short enough for
  -- the scanner, that no begin makes the journal evict, that each append leaves a whole line and
  -- each open can read the whole file, and of JSON that a written record is read back and has no
  -- newline.
  pub begun_once :
      (now : ℕ) (a : Append) (digest : String) (file : List ℕ) (m : Memory) (events : List Event)
      → IsClean file
      → str_eq id "" ≡ false
      → (begin encode now a id digest file m).1 ≡ ok true
      → fits (begins now a id digest) (some m) ≡ true
      → all_short (scan_lines (begin encode now a id digest file m).0.0) ≡ true
      → AllSound encode decode bound events
          (call encode decode bound (begins now a id digest) file m)
      → AllFit encode decode bound events (call encode decode bound (begins now a id digest) file m)
      → count_first encode decode bound id events
          (call encode decode bound (begins now a id digest) file m)
        ≡ 0
  unfolding begin call fits
  begun_once now a digest file m events c named new room short w f =
      let r : OpRecord = record {
        id = id;
        digest = digest;
        disposition = pending;
        written = now;
      } in
      let out = first-inv now a digest (lookup id m.ops) file m new in
      let short' = subst (λ x. all_short (scan_lines x.0) ≡ true) out short in
      let disk = first-IsLogged r file c named short' in
      let kept = evict_fits (added now id digest m) room in
      run_fits encode decode json bound is_any any-IsLasting id events _ w f (record {
        on_disk = subst (λ x. IsLogged decode is_any id x.0) (sym out) disk;
        in_memory =
            subst (λ x. Passes is_any id x.1.ops) (sym out)
              (subst (λ x. Passes is_any id x.ops) (sym kept)
                (record {
                  entry = entry_of r;
                  found =
                      (let l = lookup-insert id id (entry_of r) m.ops in
                        ground (arith, eq_iff id id));
                  passes = refl;
                }));
      })
