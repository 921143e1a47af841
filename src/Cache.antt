-- ===== src/Cache.antt =====
-- internal/cache/cache.go: the eviction plan under a budget for each cache.
pub mod Paths
pub mod Greedy
pub mod Budgets
pub mod Whole
pub mod Report
pub mod Spared
use pomar.Prelude.{
  ℕ, ◌≡◌, refl, Bool, true, false, ◌&&◌, ◌||◌, not, Option, none, some, List, [], ◌∷◌, ◌++◌, ltb,
  String, if◌then◌else◌,
}
use pomar.Prelude.Int.{ℤ, pos, leb_ℤ, ltb_ℤ}
use pomar.Prelude.Int64.{add64, sub64}
use pomar.Prelude.Bytes.{has_prefix, ends_with}
use pomar.Terminal.Text.{text_eq}
use pomar.Cache.Paths.{clean, slash}

-- The class of an object; objects from before classes have none.
pub data Class : Type 0 where
  attempt cache unclassed : Class

unfoldable pub same_class : Class → Class → Bool
same_class attempt attempt = true
same_class cache cache = true
same_class unclassed unclassed = true
same_class _ _ = false

pub record Object : Type 0 where
  pub kind : List ℕ
  pub class : Class
  pub id : List ℕ
  pub path : List ℕ
  pub created : ℕ

pub record Budget : Type 0 where
  pub name : String
  pub prefix : List ℕ
  pub bytes : ℤ
  pub evict : Bool
  pub class : Class
  pub keep_while_live : Bool

-- Why an item may not be evicted, or nothing.
pub data Keep : Type 0 where
  evictable unlisted live_attempt unresolved holds_open pinned serves_live : Keep

unfoldable pub is_kept : Keep → Bool
is_kept evictable = false
is_kept _ = true

pub record Item : Type 0 where
  pub object : Object
  pub size : ℤ
  pub keep : Keep

pub record Eviction : Type 0 where
  pub budget : String
  pub object : Object
  pub size : ℤ

pub record Usage : Type 0 where
  pub budget : Budget
  pub bytes : ℤ
  pub items : List Item
  pub over : ℤ

unfoldable pub covers : Budget → Object → Bool
covers b o =
    let p = clean o.path in
    if same_class o.class b.class
    then (if ends_with b.prefix slash then has_prefix p b.prefix else text_eq p b.prefix)
    else false

-- The items of a budget, with their total.
unfoldable pub mine : Budget → List Item → List Item
mine b [] = []
mine b (it ∷ items) = let rest = mine b items in if covers b it.object then it ∷ rest else rest

unfoldable pub total : ℤ → List Item → ℤ
total sum [] = sum
total sum (it ∷ items) = total (add64 sum it.size) items

-- SliceStable by the time of creation: an item goes before the first that is not older than it.
unfoldable pub insert_item : Item → List Item → List Item
insert_item it [] = it ∷ []
insert_item it (x ∷ xs) =
    let rest = insert_item it xs in
    if ltb x.object.created it.object.created then x ∷ rest else it ∷ x ∷ xs

unfoldable pub sort_items : List Item → List Item
sort_items [] = []
sort_items (it ∷ items) = insert_item it (sort_items items)

unfoldable pub eviction : Budget → Item → Eviction
eviction b it = record { budget = b.name; object = it.object; size = it.size }

-- The loop that evicts: the evictions, and what is left.
unfoldable pub evict_from : Budget → List Item → ℤ → List Eviction × ℤ
evict_from b [] left = ([], left)
evict_from b (it ∷ items) left = elim (leb_ℤ left b.bytes) [
  | true ↦ ([], left)
  | false ↦ elim (is_kept it.keep) [
    | true ↦ evict_from b items left
    | false ↦
        let (more, rest) = evict_from b items (sub64 left it.size) in (eviction b it ∷ more, rest)
  ]
]

unfoldable pub enforce : Budget → List Item → ℤ → List Eviction × ℤ
enforce b items left = if b.evict then evict_from b items left else ([], left)

-- What is left over the budget.
unfoldable pub excess : Budget → ℤ → ℤ
excess b left = if ltb_ℤ b.bytes left then sub64 left b.bytes else pos 0

unfoldable pub plan_budget : Budget → List Item → Usage × List Eviction
plan_budget b items =
    let found = mine b items in
    let bytes = total (pos 0) found in
    let sorted = sort_items found in
    let (evictions, left) = enforce b sorted bytes in
    (record { budget = b; bytes = bytes; items = sorted; over = excess b left }, evictions)

-- Which items the budgets so far have claimed.
unfoldable pub claim_items : Budget → List Item → List Bool → List Bool
claim_items b [] claimed = []
claim_items b (it ∷ items) [] = []
claim_items b (it ∷ items) (c ∷ claimed) = (c || covers b it.object) ∷ claim_items b items claimed

unfoldable pub unclaimed : List Item → List Bool → List Item
unclaimed [] claimed = []
unclaimed (it ∷ items) [] = []
unclaimed (it ∷ items) (c ∷ claimed) =
    let rest = unclaimed items claimed in
    if not c && same_class it.object.class cache then it ∷ rest else rest

pub record Plan : Type 0 where
  pub usage : List Usage
  pub evict : List Eviction
  pub unbudgeted : List Item

-- The loop over the budgets.
unfoldable pub plan_all : List Budget → List Item → List Usage → List Eviction → List Bool → Plan
plan_all [] items usage evict claimed = record {
  usage = usage;
  evict = evict;
  unbudgeted = unclaimed items claimed;
}
plan_all (b ∷ budgets) items usage evict claimed =
    let (u, e) = plan_budget b items in
    plan_all budgets items (usage ++ u ∷ []) (evict ++ e) (claim_items b items claimed)

unfoldable pub none_claimed : List Item → List Bool
none_claimed [] = []
none_claimed (it ∷ items) = false ∷ none_claimed items

unfoldable pub plan : List Budget → List Item → Plan
plan budgets items = plan_all budgets items [] [] (none_claimed items)

-- The object's path holds another open object.
unfoldable pub contains_path : Object → List ℕ → List Object → Bool
contains_path o p [] = false
contains_path o p (x ∷ objects) =
    let rest = contains_path o p objects in
    if text_eq x.kind o.kind && text_eq x.id o.id
    then rest
    else if has_prefix (clean x.path) (p ++ slash ∷ [])
    then true
    else rest

unfoldable pub contains : Object → List Object → Bool
contains o objects =
    let p = clean o.path in
    if text_eq p [] || text_eq p (0x2e ∷ []) then false else contains_path o p objects

unfoldable pub budget_for : List Budget → Object → Option Budget
budget_for [] o = none
budget_for (b ∷ budgets) o = let rest = budget_for budgets o in if covers b o then some b else rest
