-- ===== src/Cache/Whole.antt =====
-- The whole of Plan: budget after budget.
use mathlib.Core.Path.{subst}
use pomar.Prelude.{
  ◌<◌, ◌≡◌, refl, ap, sym, ◌∙◌, Bool, true, false, List, [], ◌∷◌, ◌++◌, map, arith, if◌then◌else◌,
  All, ◌||◌, append_assoc, append_nil,
}
use pomar.Prelude.Int.{neg_part}
use pomar.Prelude.Int64.{half_range}
use pomar.Cache.{
  Item, Budget, Eviction, Usage, Plan, covers, plan_budget, plan_all, plan, claim_items,
  none_claimed, unclaimed, same_class, cache,
}
use pomar.Cache.Greedy.{sizes, IsSized}
use pomar.Cache.Budgets.{IsPlanned, plan_budget-IsPlanned}

-- The plans of the budgets, one after the other.
unfoldable pub ArePlanned : List Item → List Budget → List Usage → List Eviction → Type 0
ArePlanned items [] [] evicted = evicted ≡ []
ArePlanned items [] (u ∷ us) evicted = ⊥
ArePlanned items (b ∷ bs) [] evicted = ⊥
ArePlanned items (b ∷ bs) (u ∷ us) evicted =
    (first : List Eviction) × (later : List Eviction) × IsPlanned items b u first
    × ArePlanned items bs us later
    × (evicted ≡ first ++ later)

-- No budget covers the item.
unfoldable pub is_covered : List Budget → Item → Bool
is_covered [] it = false
is_covered (b ∷ bs) it = if covers b it.object then true else is_covered bs it

-- Cache items that no budget covers.
unfoldable pub stray : List Budget → List Item → List Item
stray bs [] = []
stray bs (it ∷ items) =
    if is_covered bs it
    then stray bs items
    else if same_class it.object.class cache
    then it ∷ stray bs items
    else stray bs items

abbrev usages : List Budget → List Item → List Usage
usages bs items = map (λ b. (plan_budget b items).0) bs

unfoldable pub evictions_of : List Budget → List Item → List Eviction
evictions_of [] items = []
evictions_of (b ∷ bs) items = (plan_budget b items).1 ++ evictions_of bs items

unfoldable pub claims : List Budget → List Item → List Bool → List Bool
claims [] items claimed = claimed
claims (b ∷ bs) items claimed = claims bs items (claim_items b items claimed)

plan_path :
    {us us' : List Usage} {es es' : List Eviction}
    → us ≡ us'
    → es ≡ es'
    → (left : List Item)
    → ◌≡◌ {A = Plan}
        (record { usage = us; evict = es; unbudgeted = left })
        (record { usage = us'; evict = es'; unbudgeted = left })
plan_path p q left = cc

pub plan_all-eq :
    (bs : List Budget) (items : List Item) (us : List Usage) (es : List Eviction)
    (claimed : List Bool)
    → plan_all bs items us es claimed ≡ (record {
      usage = us ++ usages bs items;
      evict = es ++ evictions_of bs items;
      unbudgeted = unclaimed items (claims bs items claimed);
    })
unfolding plan_all evictions_of claims
plan_all-eq [] items us es claimed =
    plan_path (sym (append_nil us)) (sym (append_nil es)) (unclaimed items claimed)
plan_all-eq (b ∷ bs) items us es claimed =
    let (u, e) = plan_budget b items in
    plan_all-eq bs items (us ++ u ∷ []) (es ++ e) (claim_items b items claimed)
    ∙ plan_path (append_assoc us (u ∷ []) (usages bs items))
        (append_assoc es e (evictions_of bs items))
        (unclaimed items (claims bs items (claim_items b items claimed)))

claims-cons :
    (bs : List Budget) (it : Item) (items : List Item) (c : Bool) (claimed : List Bool)
    → claims bs (it ∷ items) (c ∷ claimed) ≡ (c || is_covered bs it) ∷ claims bs items claimed
unfolding claims is_covered claim_items
claims-cons [] it items c claimed = ground arith
claims-cons (b ∷ bs) it items c claimed =
    let r = claims-cons bs it items (c || covers b it.object) (claim_items b items claimed) in
    r ∙ ground arith

unclaimed-stray :
    (bs : List Budget) (items : List Item)
    → unclaimed items (claims bs items (none_claimed items)) ≡ stray bs items
unfolding stray none_claimed unclaimed
unclaimed-stray bs [] = refl
unclaimed-stray bs (it ∷ items) =
    let r = unclaimed-stray bs items in
    let c = claims-cons bs it items false (none_claimed items) in
    ap (unclaimed (it ∷ items)) c ∙ ground arith

usages-ArePlanned :
    (bs : List Budget) (items : List Item)
    → All (λ b. neg_part b.bytes ≡ 0) bs
    → All IsSized items
    → sizes items < half_range
    → ArePlanned items bs (usages bs items) (evictions_of bs items)
unfolding ArePlanned evictions_of
usages-ArePlanned [] items n a h = refl
usages-ArePlanned (b ∷ bs) items n a h = (
  (plan_budget b items).1,
  evictions_of bs items,
  plan_budget-IsPlanned b items n.0 a h,
  usages-ArePlanned bs items n.1 a h,
  refl,
)

-- For budgets and sizes that are not negative, and together below 2 ^ 63: Plan goes through the
-- budgets in order. For each it sorts the items by age, stably, and evicts the evictable ones among
-- the oldest, no more than are needed; it ends within the budget, or over it by exactly the reported
-- excess with everything left kept. The unbudgeted items are the cache items that no budget covers.
pub plan-ArePlanned :
    (budgets : List Budget) (items : List Item)
    → All (λ b. neg_part b.bytes ≡ 0) budgets
    → All IsSized items
    → sizes items < half_range
    → ArePlanned items budgets (plan budgets items).usage (plan budgets items).evict
      × ((plan budgets items).unbudgeted ≡ stray budgets items)
unfolding plan
plan-ArePlanned bs items n a h =
    let e = plan_all-eq bs items [] [] (none_claimed items) in
    (
      subst (λ p. ArePlanned items bs p.usage p.evict) (sym e) (usages-ArePlanned bs items n a h),
      ap (λ p. p.unbudgeted) e ∙ unclaimed-stray bs items,
    )
