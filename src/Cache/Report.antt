-- ===== src/Cache/Report.antt =====
-- cachesLocked of internal/manager/caches.go: which open objects are items of the plan, why some are
-- kept, and the pass that removes what the plan evicts. The size of an object, and whether a removal
-- fails, are the file system's; whether an attempt's result is disposable is read from its entry.
use pomar.Prelude.{
  ℕ, Bool, true, false, ◌&&◌, ◌||◌, not, Option, none, some, List, [], ◌∷◌, ◌++◌, if◌then◌else◌,
}
use pomar.Prelude.Int.{ℤ}
use pomar.Prelude.Bytes.{has_prefix, trim_prefix}
use pomar.Terminal.Text.{text_eq, codes}
use pomar.Cache.Paths.{clean, slash}
use pomar.Cache.{
  attempt, cache, same_class, Object, Budget, Keep, evictable, unlisted, live_attempt, unresolved,
  holds_open, pinned, serves_live, Item, Eviction, Usage, plan, contains, budget_for,
}

pub data AttemptState : Type 0 where
  starting running stopping exited stopped failed lost timed_out : AttemptState

unfoldable pub is_terminal : AttemptState → Bool
is_terminal starting = false
is_terminal running = false
is_terminal stopping = false
is_terminal _ = true

pub record Entry : Type 0 where
  pub state : AttemptState
  pub disposable : Bool

-- The attempt table, by id.
abbrev pub Entries : Type 0
Entries = List (List ℕ × Entry)

unfoldable pub find_entry : List ℕ → Entries → Option Entry
find_entry id [] = none
find_entry id ((key, e) ∷ entries) =
    let rest = find_entry id entries in if text_eq key id then some e else rest

unfoldable pub any_live : Entries → Bool
any_live [] = false
any_live ((key, e) ∷ entries) = if is_terminal e.state then any_live entries else true

unfoldable pub keep_while_live : List Budget → Object → Bool
keep_while_live budgets o = elim (budget_for budgets o) [
  | none ↦ false
  | some b ↦ b.keep_while_live
]

-- The object is pinned, or holds something that is.
unfoldable pub is_pinned : List ℕ → List (List ℕ) → Bool
is_pinned path [] = false
is_pinned path (q ∷ paths) =
    let p = clean path in
    let rest = is_pinned path paths in
    if text_eq (clean q) p || has_prefix (clean q) (p ++ slash ∷ []) then true else rest

abbrev pub attempt_prefix : List ℕ
attempt_prefix = codes "attempt-"

-- The object is the record of an attempt.
unfoldable pub is_record : Object → Bool
is_record o =
    same_class o.class attempt && text_eq o.kind (codes "volume") && has_prefix o.id attempt_prefix

unfoldable pub is_listed : Object → Bool
is_listed o = not (text_eq o.path []) && (same_class o.class cache || is_record o)

-- What the code reads beside the object.
pub record Scene : Type 0 where
  pub objects : List Object
  pub entries : Entries
  pub pins : List (List ℕ)
  pub budgets : List Budget
  pub size_of : Object → Option ℤ
  pub removes : Eviction → Bool

unfoldable pub keep_record : Option Entry → Keep
keep_record none = unlisted
keep_record (some e) =
    if not (is_terminal e.state)
    then live_attempt
    else if not e.disposable
    then unresolved
    else evictable

unfoldable pub keep_of : Scene → Object → Keep
keep_of s o =
    if is_record o
    then keep_record (find_entry (trim_prefix o.id attempt_prefix) s.entries)
    else if contains o s.objects
    then holds_open
    else if is_pinned o.path s.pins
    then pinned
    else if any_live s.entries && keep_while_live s.budgets o
    then serves_live
    else evictable

unfoldable pub sized_item : Scene → Object → Option ℤ → List Item → List Item
sized_item s o none rest = rest
sized_item s o (some size) rest = record { object = o; size = size; keep = keep_of s o } ∷ rest

-- The items of the plan. An object whose size is not known is left out.
unfoldable pub items_of : Scene → List Object → List Item
items_of s [] = []
items_of s (o ∷ objects) =
    let rest = items_of s objects in if is_listed o then sized_item s o (s.size_of o) rest else rest

-- What the pass removes; a removal that fails is left for the next pass.
unfoldable pub removed : Scene → List Eviction → List Eviction
removed s [] = []
removed s (e ∷ planned) = let rest = removed s planned in if s.removes e then e ∷ rest else rest

pub record CacheReport : Type 0 where
  pub usage : List Usage
  pub planned : List Eviction
  pub evicted : List Eviction
  pub unbudgeted : List Item

unfoldable pub caches : Scene → Bool → CacheReport
caches s apply =
    let p = plan s.budgets (items_of s s.objects) in
    record {
      usage = p.usage;
      planned = p.evict;
      evicted = if apply then removed s p.evict else [];
      unbudgeted = p.unbudgeted;
    }
