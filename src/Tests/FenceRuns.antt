-- ===== src/Tests/FenceRuns.antt =====
-- Runs of internal/providerfence.
use pomar.Prelude.{
  if◌then◌else◌, ◌||◌, str_eq, ◌≡◌, ◌≢◌, ◌≤◌, refl, true, false, List, [], ◌∷◌, arith, String, none,
  some, replicate, length,
}
use pomar.Prelude.Assoc.{lookup, insert, map_entries, all_entries}
use pomar.ProviderFence.{
  incarnation_fenced, Record, State, Store, Dir, World, granted, durable, expired, ok, err, load,
  stored, transaction, save, is_identity, is_alnum, is_tail, is_digest, is_hex, encode_hex,
  check_record, first_fault, sweep, schema_name,
}
use pomar.ProviderFence.Calls.{
  open_store, adopt, reserve, reserve_in, start, start_in, start_record, abandon, abandon_in,
  never_seen, lookup_record, mem, retire, migrate,
}
use pomar.ProviderFence.Moves.{is_fenced}
use pomar.ProviderFence.History.{Call, opens, reserves, starts, after, run}
use pomar.ProviderFence.Incarnations.{RetiredIn, Refused, retired_powerless}
use pomar.ProviderFence.WellFormed.{IsFair}
use pomar.ProviderFence.Reload.{WellFormedIn, run_loads}
use pomar.ProviderFence.Once.{launches, count_launches, starts_once, fenced_never, Holds}
use pomar.ProviderFence.Abandoned.{abandoned_never}

abbrev custodian : Store
custodian = record { namespace = "pool"; incarnation = "inc-1" }

abbrev calm : World
calm = record {
  access = granted;
  saved = durable;
  sweep_clock = λ id. 1000;
  lease_clock = 1000;
  random = some (replicate 32 171);
}

abbrev no_dir : Dir
no_dir = record { lock = false; state = none }

abbrev binding : String
binding = "0123456789abcdef0123456789abcdef0123456789abcdef0123456789abcdef"

abbrev token : String
token = "abababababababababababababababababababababababababababababababab"

abbrev calls : List (World × Call)
calls =
    (calm, opens "pool" "inc-1")
    ∷ (calm, reserves custodian "job-1" binding 5000)
    ∷ (calm, starts custodian "job-1" binding token)
    ∷ (calm, starts custodian "job-1" binding token)
    ∷ []

-- The first start is counted, and its replay is not.
start_and_replay : count_launches "job-1" calls no_dir ≡ 1
unfolding count_launches launches after open_store adopt mem retire reserve reserve_in start
    start_in start_record transaction load stored save sweep check_record first_fault is_identity
    is_alnum is_tail is_digest is_hex encode_hex lookup insert map_entries migrate
start_and_replay = refl

starts_once_example : count_launches "job-1" calls no_dir ≤ 1
starts_once_example = starts_once "job-1" calls no_dir

abbrev fenced_record : Record
fenced_record = never_seen custodian "job-3" binding

abbrev opened : Dir
opened = record {
  lock = true;
  state = some (record {
    schema = schema_name;
    namespace = "pool";
    incarnation = "inc-1";
    retired = [];
    records = [];
  });
}

abandons_unseen :
    (abandon custodian calm "job-2" binding opened).answer
    ≡ ok (never_seen custodian "job-2" binding)
unfolding abandon abandon_in transaction load stored save first_fault is_identity is_alnum is_tail
    is_digest is_hex lookup insert map_entries
abandons_unseen = refl

abandoned_never_example :
    count_launches "job-2" calls (abandon custodian calm "job-2" binding opened).dir ≡ 0
abandoned_never_example =
    abandoned_never custodian calm "job-2" binding opened (never_seen custodian "job-2" binding)
      calls abandons_unseen

abbrev fenced_dir : Dir
fenced_dir = record {
  lock = true;
  state = some (record {
    schema = schema_name;
    namespace = "pool";
    incarnation = "inc-1";
    retired = [];
    records = ("job-3", record fenced_record { phase = expired }) ∷ [];
  });
}

fenced_dir-Holds : Holds is_fenced "job-3" fenced_dir
unfolding lookup is_fenced
fenced_dir-Holds = record {
  state = record {
    schema = schema_name;
    namespace = "pool";
    incarnation = "inc-1";
    retired = [];
    records = ("job-3", record fenced_record { phase = expired }) ∷ [];
  };
  stored = refl;
  entry = record fenced_record { phase = expired };
  found = refl;
  is_kind = refl;
}

fenced_never_example : count_launches "job-3" calls fenced_dir ≡ 0
fenced_never_example = fenced_never "job-3" calls fenced_dir fenced_dir-Holds

abbrev replaced : Dir
replaced = record {
  lock = true;
  state = some (record {
    schema = schema_name;
    namespace = "pool";
    incarnation = "inc-2";
    retired = "inc-1" ∷ [];
    records = [];
  });
}

replaced-RetiredIn : RetiredIn "inc-1" replaced
unfolding mem
replaced-RetiredIn = (
  record {
    schema = schema_name;
    namespace = "pool";
    incarnation = "inc-2";
    retired = "inc-1" ∷ [];
    records = [];
  },
  refl,
  record { listed = refl; replaced = refl },
)

retired_powerless_example :
    Refused (run calls replaced) (reserve custodian calm "job-1" binding 5000 (run calls replaced))
    × Refused (run calls replaced) (start custodian calm "job-1" binding token (run calls replaced))
    × Refused (run calls replaced) (abandon custodian calm "job-1" binding (run calls replaced))
    × Refused (run calls replaced) (lookup_record custodian calm "job-1" (run calls replaced))
    × ((open_store "pool" "inc-1" calm (run calls replaced)).answer ≢ ok tt)
retired_powerless_example =
    retired_powerless custodian calls replaced calm "job-1" binding token "pool" 5000
      replaced-RetiredIn

calm-IsFair : IsFair calm
calm-IsFair = record { full = λ b e. ground arith }

opened-WellFormedIn : WellFormedIn "pool" opened
unfolding is_identity is_alnum is_tail all_entries
opened-WellFormedIn = (
  record {
    schema = schema_name;
    namespace = "pool";
    incarnation = "inc-1";
    retired = [];
    records = [];
  },
  refl,
  record { schema = refl; named = refl; current = refl; bounded = omega arith; entries = refl },
)

run_loads_example :
    (st : State) × ((run calls opened).state ≡ some st)
    × (length st.records ≤ 2048)
    × (load custodian calm false (run calls opened) ≡ (
        if false || str_eq st.incarnation "inc-1"
        then ok (record st { records = map_entries (sweep calm) st.records })
        else err incarnation_fenced))
run_loads_example =
    run_loads custodian calls opened calm false
      (calm-IsFair, (calm-IsFair, (calm-IsFair, (calm-IsFair, tt)))) opened-WellFormedIn
