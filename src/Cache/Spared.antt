-- ===== src/Cache/Spared.antt =====
-- What the eviction pass never removes.
use mathlib.Core.Path.{subst}
use pomar.Prelude.{
  ◌≡◌, ◌⊎◌, inl, inr, refl, ap, sym, ◌∙◌, Bool, true, false, Option, none, some, List, [], ◌∷◌,
  String, arith, if◌then◌else◌, All, Any, All-map, All-append, All-Any, Bool-cases, ltb,
}
use pomar.Prelude.Int.{ℤ, leb_ℤ, pos}
use pomar.Prelude.Int64.{sub64}
use pomar.Prelude.Bytes.{trim_prefix}
use pomar.Cache.{
  Object, Budget, Item, Eviction, is_kept, covers, mine, insert_item, sort_items, eviction,
  evict_from, total, plan_budget, plan, none_claimed, contains,
}
use pomar.Cache.Report.{
  Entry, is_terminal, find_entry, any_live, keep_while_live, is_pinned, attempt_prefix, is_record,
  is_listed, Scene, keep_record, keep_of, sized_item, items_of, removed, caches,
}
use pomar.Cache.Budgets.{enforce-cases}
use pomar.Cache.Whole.{evictions_of, plan_all-eq}

module _ (b : Budget) (it : Item) (items : List Item) (left : ℤ) where
  stop_eq : leb_ℤ left b.bytes ≡ true → (evict_from b (it ∷ items) left).0 ≡ []
  unfolding evict_from
  stop_eq fits = ground arith

  skip_eq :
      leb_ℤ left b.bytes ≡ false
      → is_kept it.keep ≡ true
      → (evict_from b (it ∷ items) left).0 ≡ (evict_from b items left).0
  unfolding evict_from
  skip_eq over kept = ground arith

  take_eq :
      leb_ℤ left b.bytes ≡ false
      → is_kept it.keep ≡ false
      → (evict_from b (it ∷ items) left).0
        ≡ eviction b it ∷ (evict_from b items (sub64 left it.size)).0
  unfolding evict_from
  take_eq over free = ground arith

-- A predicate of the items that may be evicted holds of the evictions.
module _ (b : Budget) (P : Eviction → Type 0) where
  abbrev Evicts : Item → Type 0
  Evicts it = (is_kept it.keep ≡ true) ⊎ P (eviction b it)

  evict_from-All :
      (items : List Item) (left : ℤ) → All Evicts items → All P (evict_from b items left).0
  unfolding evict_from
  evict_from-All [] left a = tt
  evict_from-All (it ∷ items) left a = elim (Bool-cases (leb_ℤ left b.bytes)) [
    | inl fits ↦ subst (All P) (sym (stop_eq b it items left fits)) tt
    | inr over ↦ elim (Bool-cases (is_kept it.keep)) [
      | inl kept ↦
          subst (All P) (sym (skip_eq b it items left over kept)) (evict_from-All items left a.1)
      | inr free ↦
          subst (All P) (sym (take_eq b it items left over free))
            (holds it free a.0, evict_from-All items (sub64 left it.size) a.1)
    ]
  ]
    where
      holds : (it : Item) → is_kept it.keep ≡ false → Evicts it → P (eviction b it)
      holds it free (inl kept) = absurd (ground arith)
      holds it free (inr p) = p

All-insert :
    (Q : Item → Type 0) (it : Item) (xs : List Item) → Q it → All Q xs → All Q (insert_item it xs)
unfolding insert_item
All-insert Q it [] q a = (q, tt)
All-insert Q it (x ∷ xs) q a = elim (Bool-cases (ltb x.object.created it.object.created)) [
  | inl later ↦ rw later (a.0, All-insert Q it xs q a.1)
  | inr first ↦ rw first (q, a)
]

All-sort : (Q : Item → Type 0) (xs : List Item) → All Q xs → All Q (sort_items xs)
unfolding sort_items
All-sort Q [] a = tt
All-sort Q (x ∷ xs) a = All-insert Q x (sort_items xs) a.0 (All-sort Q xs a.1)

-- Of the items of a budget is known that it covers them.
All-mine :
    (b : Budget) (Q : Item → Type 0) (xs : List Item)
    → All Q xs
    → All (λ it. Q it × (covers b it.object ≡ true)) (mine b xs)
unfolding mine
All-mine b Q [] a = tt
All-mine b Q (x ∷ xs) a = elim (Bool-cases (covers b x.object)) [
  | inl c ↦ rw c ((a.0, c), All-mine b Q xs a.1)
  | inr n ↦ rw n (All-mine b Q xs a.1)
]

-- An object that the pass may remove: it is open and in a budget that evicts; the record of an
-- attempt is of one that ended, with its result settled; any other object holds no open object, is not
-- pinned, and serves no live attempt.
pub record IsSpare (s : Scene) (budget : String) (o : Object) : Type 0 where
  pub is_open : Any (λ x. x ≡ o) s.objects
  pub covered : Any (λ b. (budget ≡ b.name) × (b.evict ≡ true) × (covers b o ≡ true)) s.budgets
  pub listed : is_listed o ≡ true
  pub settled :
      (is_record o ≡ false)
      ⊎ ((e : Entry) × (find_entry (trim_prefix o.id attempt_prefix) s.entries ≡ some e)
          × (is_terminal e.state ≡ true)
          × (e.disposable ≡ true))
  pub holds_none : (is_record o ≡ true) ⊎ (contains o s.objects ≡ false)
  pub unpinned : (is_record o ≡ true) ⊎ (is_pinned o.path s.pins ≡ false)
  pub unserving :
      (is_record o ≡ true) ⊎ (any_live s.entries ≡ false) ⊎ (keep_while_live s.budgets o ≡ false)

record_settled :
    (r : Option Entry)
    → is_kept (keep_record r) ≡ false
    → (e : Entry) × (r ≡ some e) × (is_terminal e.state ≡ true) × (e.disposable ≡ true)
unfolding is_kept keep_record
record_settled none k = absurd (ground arith)
record_settled (some e) k = (e, refl, ground arith, ground arith)

-- What is known of an item.
abbrev Known : Scene → Item → Type 0
Known s it =
    Any (λ x. x ≡ it.object) s.objects
    × (it.keep ≡ keep_of s it.object)
    × (is_listed it.object ≡ true)

budget_found :
    (b : Budget) (o : Object) (bs : List Budget)
    → Any (λ x. x ≡ b) bs
    → b.evict ≡ true
    → covers b o ≡ true
    → Any (λ x. (b.name ≡ x.name) × (x.evict ≡ true) × (covers x o ≡ true)) bs
budget_found b o [] has on c = elim has [ ]
budget_found b o (x ∷ bs) (inl e) on c =
    inl (ap (λ y. y.name) (sym e), ap (λ y. y.evict) e ∙ on, ap (λ y. covers y o) e ∙ c)
budget_found b o (x ∷ bs) (inr r) on c = inr (budget_found b o bs r on c)

-- What an evictable object is not.
module _ (s : Scene) (o : Object) (k : is_kept (keep_of s o) ≡ false) where
  unheld : (is_record o ≡ true) ⊎ (contains o s.objects ≡ false)
  unfolding keep_of is_kept
  unheld = ground arith

  unpinned_of : (is_record o ≡ true) ⊎ (is_pinned o.path s.pins ≡ false)
  unfolding keep_of is_kept
  unpinned_of = ground arith

  unserving_of :
      (is_record o ≡ true) ⊎ (any_live s.entries ≡ false) ⊎ (keep_while_live s.budgets o ≡ false)
  unfolding keep_of is_kept
  unserving_of = ground arith

item-IsSpare :
    (s : Scene) (b : Budget) (it : Item)
    → Any (λ x. x ≡ b) s.budgets
    → b.evict ≡ true
    → Known s it
    → covers b it.object ≡ true
    → is_kept it.keep ≡ false
    → IsSpare s b.name it.object
unfolding keep_of
item-IsSpare s b it has on (open_object, keep, listed) c free =
    let o = it.object in
    let k : is_kept (keep_of s o) ≡ false = ap is_kept (sym keep) ∙ free in
    record {
      is_open = open_object;
      covered = budget_found b o s.budgets has on c;
      listed = listed;
      settled = elim (Bool-cases (is_record o)) [
        | inl is ↦
            inr (
              record_settled (find_entry (trim_prefix o.id attempt_prefix) s.entries)
                (ground arith))
        | inr not_record ↦ inl not_record
      ];
      holds_none = unheld s o k;
      unpinned = unpinned_of s o k;
      unserving = unserving_of s o k;
    }

sized-Known :
    (s : Scene) (o : Object) (size : Option ℤ) (rest : List Item)
    → Any (λ x. x ≡ o) s.objects
    → is_listed o ≡ true
    → All (Known s) rest
    → All (Known s) (sized_item s o size rest)
unfolding sized_item
sized-Known s o none rest has listed a = a
sized-Known s o (some size) rest has listed a = ((has, refl, listed), a)

items-Known :
    (s : Scene) (objects : List Object)
    → All (λ o. Any (λ x. x ≡ o) s.objects) objects
    → All (Known s) (items_of s objects)
unfolding items_of
items-Known s [] a = tt
items-Known s (o ∷ objects) a = elim (Bool-cases (is_listed o)) [
  | inl listed ↦ rw listed (sized-Known s o (s.size_of o) _ a.0 listed (items-Known s objects a.1))
  | inr left_out ↦ rw left_out (items-Known s objects a.1)
]

All-removed :
    (s : Scene) (P : Eviction → Type 0) (es : List Eviction) → All P es → All P (removed s es)
unfolding removed
All-removed s P [] a = tt
All-removed s P (e ∷ es) a = elim (Bool-cases (s.removes e)) [
  | inl done ↦ rw done (a.0, All-removed s P es a.1)
  | inr failed ↦ rw failed (All-removed s P es a.1)
]

module _ (s : Scene) where
  abbrev Spare : Eviction → Type 0
  Spare e = IsSpare s e.budget e.object

  budget-Spare :
      (b : Budget)
      → Any (λ x. x ≡ b) s.budgets
      → (items : List Item) → All (Known s) items
      → All Spare (plan_budget b items).1
  unfolding plan_budget eviction
  budget-Spare b has items a =
      let found = mine b items in
      elim (enforce-cases b (sort_items found) (total (pos 0) found)) [
        | inl (on, r) ↦
            let known = All-sort _ found (All-mine b (Known s) items a) in
            let spare =
              All-map (λ it. Known s it × (covers b it.object ≡ true)) (Evicts b Spare)
                (sort_items found)
                (λ it k. kept_or it (λ free. item-IsSpare s b it has on k.0 k.1 free)) known in
            subst (λ x. All Spare x.0) (sym r)
              (evict_from-All b Spare (sort_items found) (total (pos 0) found) spare)
        | inr (off, r) ↦ subst (λ x. All Spare x.0) (sym r) tt
      ]
    where
      kept_or :
          {P : Type 0} (it : Item) → (is_kept it.keep ≡ false → P) → (is_kept it.keep ≡ true) ⊎ P
      kept_or it f = elim (Bool-cases (is_kept it.keep)) [ inl k ↦ inl k | inr free ↦ inr (f free) ]

  budgets-Spare :
      (bs : List Budget)
      → All (λ b. Any (λ x. x ≡ b) s.budgets) bs
      → (items : List Item) → All (Known s) items
      → All Spare (evictions_of bs items)
  unfolding evictions_of
  budgets-Spare [] has items a = tt
  budgets-Spare (b ∷ bs) has items a =
      All-append Spare (plan_budget b items).1 (evictions_of bs items)
        (budget-Spare b has.0 items a) (budgets-Spare bs has.1 items a)

  -- Whatever the sizes and the budgets, the eviction pass plans and removes only open objects that a
  -- budget which evicts covers. It spares the record of an attempt that is live, is missing in the
  -- table or has an unresolved result, and any other object that holds an open object, is pinned, or
  -- serves live attempts.
  pub caches-spares :
      (apply : Bool) → All Spare (caches s apply).planned × All Spare (caches s apply).evicted
  unfolding caches plan
  caches-spares apply =
      let items = items_of s s.objects in
      let known = items-Known s s.objects (All-Any s.objects) in
      let e = plan_all-eq s.budgets items [] [] (none_claimed items) in
      let planned : All Spare (plan s.budgets items).evict =
        subst (λ p. All Spare p.evict) (sym e)
          (budgets-Spare s.budgets (All-Any s.budgets) items known) in
      (planned, applied apply _ planned)
    where
      applied :
          (apply : Bool) (es : List Eviction)
          → All Spare es
          → All Spare (if apply then removed s es else [])
      applied true es a = All-removed s Spare es a
      applied false es a = tt
