-- ===== src/Tests/JournalRuns.antt =====
-- Runs of internal/sessiond/opjournal.go.
use pomar.Prelude.{◌≡◌, refl, true, some, List, [], ◌∷◌, ◌++◌, arith}
use pomar.Prelude.Assoc.{lookup, insert, remove}
use pomar.Terminal.Text.{has_byte}
use pomar.OpJournal.{
  max_ops, newline, OpRecord, OpEntry, Memory, durable, unsynced, torn, Service, Event, begins,
  finishes, restarts, ok, run, after, call, opened, open_journal, loaded, truncated, begin,
  begin_found, begun, evict, evict_sent, goes, finish, finish_found, settle, settled, convert,
  convert_one, next_append, append_record, replay, replay_record, scan_lines, grow, clean_part,
  is_pending, is_sent, acceptance_unknown,
}
use pomar.OpJournal.Lines.{IsClean, all_short}
use pomar.OpJournal.Known.{is_whole, logged}
use pomar.OpJournal.Runs.{AllSound, IsSound, AllFit, fits, count_first, first_in}
use pomar.OpJournal.Held.{is_unknown, IsHeld, run-IsHeld, begun_once}
use pomar.Tests.Codec.{
  encode, decode, put_text, put_chars, size, put_word, take_text, take_chars, join_char, to_char,
  with_char, scalar_of, both_of, after_id, after_digest, made, take_word, other_word, codec-IsJson,
}

abbrev empty : Memory
empty = record { bound = max_ops; ops = []; order = [] }

abbrev fresh : Service
fresh = record { file = []; memory = some empty }

is_empty : IsClean []
unfolding clean_part
is_empty = refl

begins_first : (begin encode 5 durable "op" "d" [] empty).1 ≡ ok true
unfolding begin begin_found begun append_record lookup
begins_first = refl

begins_short : all_short (scan_lines (begin encode 5 durable "op" "d" [] empty).0.0) ≡ true
unfolding begin begin_found begun append_record lookup all_short scan_lines grow encode put_text
    put_chars size put_word
begins_short = refl

op_fits : fits (begins 5 durable "op" "d") (some empty) ≡ true
unfolding fits insert
op_fits = refl

abbrev later : List Event
later = finishes 6 durable "op" true ∷ begins 7 durable "op" "d" ∷ []

later_sound :
    AllSound encode decode max_ops later
      (call encode decode max_ops (begins 5 durable "op" "d") [] empty)
unfolding AllSound IsSound is_whole
later_sound = (refl, (refl, tt))

later_fit :
    AllFit encode decode max_ops later
      (call encode decode max_ops (begins 5 durable "op" "d") [] empty)
unfolding AllFit fits call begin begin_found begun append_record lookup insert evict finish
    finish_found settle settled is_pending after
later_fit = (refl, (refl, tt))

begun_once_example :
    count_first encode decode max_ops "op" later
      (call encode decode max_ops (begins 5 durable "op" "d") [] empty)
    ≡ 0
begun_once_example =
    begun_once encode decode codec-IsJson max_ops "op" 5 durable "d" [] empty later is_empty refl
      begins_first op_fits begins_short later_sound later_fit

abbrev unknown_record : OpRecord
unknown_record = record { id = "op"; digest = "d"; disposition = acceptance_unknown; written = 3 }

abbrev unknown_entry : OpEntry
unknown_entry = record { digest = "d"; disposition = acceptance_unknown; written = 3 }

abbrev holding : Service
holding = record {
  file = encode unknown_record ++ (newline ∷ []);
  memory = some (record { bound = 1; ops = ("op", unknown_entry) ∷ []; order = "op" ∷ [] });
}

holds_op : IsHeld encode decode codec-IsJson 1 "op" "d" holding
unfolding encode decode put_text put_chars size put_word take_text take_chars join_char to_char
    with_char scalar_of both_of after_id after_digest made take_word clean_part scan_lines grow
    logged replay replay_record lookup insert is_unknown
holds_op = record {
  on_disk = record {
    clean = refl;
    on_disk = record { entry = unknown_entry; found = refl; passes = refl };
  };
  in_memory = record { entry = unknown_entry; found = refl; passes = refl };
}

-- It is held through a call with a failing sync, an eviction, and a restart with a torn end.
abbrev storm : List Event
storm =
    begins 4 unsynced "new" "x"
    ∷ begins 5 durable "new" "x"
    ∷ finishes 6 durable "new" true
    ∷ begins 7 durable "op" "d"
    ∷ restarts (1 ∷ 2 ∷ []) true 9 []
    ∷ []

storm_sound : AllSound encode decode 1 storm holding
unfolding AllSound IsSound is_whole after call begin begin_found begun append_record lookup insert
    evict remove finish finish_found settle settled is_pending has_byte encode put_text put_chars
    size put_word evict_sent goes is_sent
storm_sound = (refl, (refl, (refl, (refl, ((refl, omega arith, tt), tt)))))

run-IsHeld_example :
    IsHeld encode decode codec-IsJson 1 "op" "d" (run encode decode 1 storm holding)
    × (count_first encode decode 1 "op" storm holding ≡ 0)
run-IsHeld_example =
    run-IsHeld encode decode codec-IsJson 1 "op" "d" storm holding storm_sound holds_op

-- Where a write stops early and the journal goes on, the next line is joined to the torn one: after
-- a restart its operation is not known, and a begin answers a second time that it is new.
torn_write_forgets :
    count_first encode decode max_ops "op"
      (begins 1 (torn 3) "a" "d"
        ∷ begins 2 durable "op" "d"
        ∷ restarts [] true 3 []
        ∷ begins 4 durable "op" "d"
        ∷ [])
      fresh
    ≡ 2
unfolding count_first first_in after call begin begin_found begun append_record lookup insert evict
    opened open_journal loaded truncated convert convert_one next_append replay replay_record
    scan_lines grow clean_part is_pending encode decode put_text put_chars size put_word take_text
    take_chars join_char to_char with_char scalar_of both_of after_id after_digest made take_word
    other_word
torn_write_forgets = refl
