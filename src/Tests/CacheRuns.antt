-- ===== src/Tests/CacheRuns.antt =====
-- Runs of internal/cache/cache.go and of the pass of internal/manager/caches.go.
use pomar.Prelude.{ℕ, ◌<◌, ◌≡◌, refl, true, false, some, List, [], ◌∷◌, All, arith}
use pomar.Prelude.Int.{pos}
use pomar.Prelude.Int64.{half_range}
use pomar.Terminal.Text.{codes, split_on, text_eq}
use pomar.Cache.Paths.{clean, resolve, go_up, join_back, is_rooted, or_here}
use pomar.Cache.{attempt, cache, Object, Budget, Item, evictable, plan}
use pomar.Cache.Greedy.{sizes}
use pomar.Cache.Whole.{ArePlanned, stray, plan-ArePlanned}
use pomar.Cache.Report.{Scene, lost, caches}
use pomar.Cache.Spared.{IsSpare, caches-spares}

-- `..` takes back an element, and at the root nothing.
cleans : clean (codes "/../a/./b//c/../d/") ≡ codes "/a/b/d"
unfolding clean resolve go_up join_back is_rooted or_here split_on text_eq
cleans = refl

abbrev image : List ℕ → ℕ → Object
image path created = record {
  kind = codes "volume";
  class = cache;
  id = path;
  path = path;
  created = created;
}

abbrev old_base : Object
old_base = image (codes "bases/a") 1

abbrev new_base : Object
new_base = image (codes "bases/b") 2

abbrev bases : Budget
bases = record {
  name = "bases";
  prefix = codes "bases/";
  bytes = pos 10;
  evict = true;
  class = cache;
  keep_while_live = false;
}

abbrev two_items : List Item
two_items =
    record { object = new_base; size = pos 8; keep = evictable }
    ∷ record { object = old_base; size = pos 7; keep = evictable }
    ∷ []

two_fit : sizes two_items < half_range
unfolding sizes
two_fit = omega arith

plan-ArePlanned_example :
    ArePlanned two_items
      (bases ∷ [])
      (plan (bases ∷ []) two_items).usage
      (plan (bases ∷ []) two_items).evict
    × ((plan (bases ∷ []) two_items).unbudgeted ≡ stray (bases ∷ []) two_items)
plan-ArePlanned_example =
    plan-ArePlanned (bases ∷ []) two_items (refl, tt) (refl, (refl, tt)) two_fit

abbrev ended_record : Object
ended_record = record {
  kind = codes "volume";
  class = attempt;
  id = codes "attempt-7";
  path = codes "attempts/7";
  created = 3;
}

abbrev scene : Scene
scene = record {
  objects = old_base ∷ new_base ∷ ended_record ∷ [];
  entries = (codes "7", record { state = lost; disposable = true }) ∷ [];
  pins = codes "bases/a/kernel" ∷ [];
  budgets = bases ∷ [];
  size_of = λ o. some (pos 9);
  removes = λ e. true;
}

caches-spares_example :
    All (λ e. IsSpare scene e.budget e.object) (caches scene true).planned
    × All (λ e. IsSpare scene e.budget e.object) (caches scene true).evicted
caches-spares_example = caches-spares scene true
