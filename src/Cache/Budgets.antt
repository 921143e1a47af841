-- ===== src/Cache/Budgets.antt =====
-- What Plan does for each budget, described apart from its loops.
use pomar.Prelude.{
  ℕ, ◌+◌, ◌-◌, ◌<◌, ◌≤◌, ◌≡◌, ◌⊎◌, inl, inr, refl, ap, sym, ◌∙◌, true, false, List, [], ◌∷◌, map,
  arith, ltb, ◌==◌, if◌then◌else◌, take, drop, All, Bool-cases,
}
use pomar.Prelude.Int.{ℤ, pos, pos_part, neg_part, ltb_ℤ}
use pomar.Prelude.Int64.{sub64, half_range}
use pomar.Cache.{
  Item, Budget, Eviction, Usage, eviction, evict_from, total, mine, insert_item, sort_items,
  plan_budget, enforce, excess,
}
use pomar.Cache.Greedy.{sizes, IsSized, loose, total-eq, sub_sizes, pos_of, evict_from-IsGreedy}

-- Oldest first.
unfoldable pub IsOldestFirst : List Item → Type 0
IsOldestFirst [] = Unit
IsOldestFirst (it ∷ items) =
    All (λ x. it.object.created ≤ x.object.created) items × IsOldestFirst items

-- The items that were created at one time, in their order.
unfoldable pub at_time : ℕ → List Item → List Item
at_time t [] = []
at_time t (it ∷ items) = if it.object.created == t then it ∷ at_time t items else at_time t items

insert_above :
    (n : ℕ) (it : Item) (xs : List Item)
    → n ≤ it.object.created
    → All (λ x. n ≤ x.object.created) xs
    → All (λ x. n ≤ x.object.created) (insert_item it xs)
unfolding insert_item
insert_above n it [] h a = (h, tt)
insert_above n it (x ∷ xs) h a = let r = insert_above n it xs h a.1 in ground arith

above_mono :
    (m n : ℕ) (xs : List Item)
    → m ≤ n
    → All (λ x. n ≤ x.object.created) xs
    → All (λ x. m ≤ x.object.created) xs
above_mono m n [] h a = tt
above_mono m n (x ∷ xs) h a = (omega arith, above_mono m n xs h a.1)

insert-IsOldestFirst :
    (it : Item) (xs : List Item) → IsOldestFirst xs → IsOldestFirst (insert_item it xs)
unfolding IsOldestFirst insert_item
insert-IsOldestFirst it [] s = (tt, tt)
insert-IsOldestFirst it (x ∷ xs) s = elim (Bool-cases (ltb x.object.created it.object.created)) [
  | inl later ↦
      let r = insert-IsOldestFirst it xs s.1 in
      let a = insert_above x.object.created it xs (ground arith) s.0 in rw later (a, r)
  | inr first ↦
      let a = above_mono it.object.created x.object.created xs (ground arith) s.0 in
      rw first ((ground arith, a), s)
]

sort-IsOldestFirst : (xs : List Item) → IsOldestFirst (sort_items xs)
unfolding sort_items IsOldestFirst
sort-IsOldestFirst [] = tt
sort-IsOldestFirst (x ∷ xs) = insert-IsOldestFirst x (sort_items xs) (sort-IsOldestFirst xs)

insert-at_time :
    (t : ℕ) (it : Item) (xs : List Item) → at_time t (insert_item it xs) ≡ at_time t (it ∷ xs)
unfolding at_time insert_item
insert-at_time t it [] = refl
insert-at_time t it (x ∷ xs) = let r = insert-at_time t it xs in ground arith

sort-at_time : (t : ℕ) (xs : List Item) → at_time t (sort_items xs) ≡ at_time t xs
unfolding sort_items at_time
sort-at_time t [] = refl
sort-at_time t (x ∷ xs) =
    let r = sort-at_time t xs in let i = insert-at_time t x (sort_items xs) in ground arith

-- Sorting keeps the sizes.
sizes-insert :
    (it : Item) (xs : List Item) → sizes (insert_item it xs) ≡ pos_part it.size + sizes xs
unfolding sizes insert_item
sizes-insert it [] = refl
sizes-insert it (x ∷ xs) = let r = sizes-insert it xs in ground arith

sizes-sort : (xs : List Item) → sizes (sort_items xs) ≡ sizes xs
unfolding sizes sort_items
sizes-sort [] = refl
sizes-sort (x ∷ xs) = let i = sizes-insert x (sort_items xs) in let r = sizes-sort xs in omega arith

IsSized-insert :
    (it : Item) (xs : List Item) → IsSized it → All IsSized xs → All IsSized (insert_item it xs)
unfolding insert_item
IsSized-insert it [] h a = (h, tt)
IsSized-insert it (x ∷ xs) h a = let r = IsSized-insert it xs h a.1 in ground arith

IsSized-sort : (xs : List Item) → All IsSized xs → All IsSized (sort_items xs)
unfolding sort_items
IsSized-sort [] a = tt
IsSized-sort (x ∷ xs) a = IsSized-insert x (sort_items xs) a.0 (IsSized-sort xs a.1)

IsSized-mine : (b : Budget) (xs : List Item) → All IsSized xs → All IsSized (mine b xs)
unfolding mine
IsSized-mine b [] a = tt
IsSized-mine b (x ∷ xs) a = let r = IsSized-mine b xs a.1 in ground arith

sizes-mine : (b : Budget) (xs : List Item) → sizes (mine b xs) ≤ sizes xs
unfolding mine sizes
sizes-mine b [] = omega arith
sizes-mine b (x ∷ xs) = let r = sizes-mine b xs in ground arith

sizes-loose : (xs : List Item) → sizes (loose xs) ≤ sizes xs
unfolding loose sizes
sizes-loose [] = omega arith
sizes-loose (x ∷ xs) = let r = sizes-loose xs in ground arith

-- The plan of one budget: its items are sorted by age, with those of one time in their old order;
-- it evicts the evictable ones among the first of them, no more than are needed, and stops short
-- of the budget only where all the others are kept.
pub record IsPlanned (items : List Item) (b : Budget) (u : Usage) (evicted : List Eviction)
    : Type 0 where
  pub budget : u.budget ≡ b
  pub bytes : u.bytes ≡ pos (sizes (mine b items))
  pub sorted : IsOldestFirst u.items
  pub stable : (t : ℕ) → at_time t u.items ≡ at_time t (mine b items)
  pub cut : ℕ
  pub evictions : evicted ≡ map (eviction b) (loose (take cut u.items))
  pub over :
      u.over ≡ pos (sizes (mine b items) - sizes (loose (take cut u.items)) - pos_part b.bytes)
  pub enough : (b.evict ≡ false) ⊎ ((u.over ≡ pos 0) ⊎ (loose (drop cut u.items) ≡ []))
  pub shortest :
      (m : ℕ)
      → (cut ≤ m) ⊎ (pos_part b.bytes < sizes (mine b items) - sizes (loose (take m u.items)))
  pub enforced : (b.evict ≡ true) ⊎ (cut ≡ 0)

excess-eq :
    (b : Budget) (left : ℕ)
    → neg_part b.bytes ≡ 0
    → left < half_range
    → excess b (pos left) ≡ pos (left - pos_part b.bytes)
unfolding excess
excess-eq b left nb h = elim (Bool-cases (ltb_ℤ b.bytes (pos left))) [
  | inl more ↦
      let e =
        ap (sub64 (pos left)) (pos_of b.bytes nb)
        ∙ sub_sizes left (pos_part b.bytes) (ground arith) h in
      rw more e
  | inr fits ↦ let z : 0 ≡ left - pos_part b.bytes = ground arith in rw fits (ap pos z)
]

-- A budget that is only reported evicts nothing.
pub enforce-cases :
    (b : Budget) (items : List Item) (left : ℤ)
    → ((b.evict ≡ true) × (enforce b items left ≡ evict_from b items left))
      ⊎ ((b.evict ≡ false) × (enforce b items left ≡ ([], left)))
unfolding enforce
enforce-cases b items left = elim (Bool-cases b.evict) [
  | inl on ↦ inl (on, rw on refl)
  | inr off ↦ inr (off, rw off refl)
]

nothing_loose : (loose [] ≡ []) × (sizes (loose []) ≡ 0)
unfolding loose sizes
nothing_loose = (refl, refl)

module _ (b : Budget) (items : List Item) (nb : neg_part b.bytes ≡ 0) (a : All IsSized items)
    (h : sizes items < half_range) where
  found_size : sizes (mine b items) < half_range
  found_size = omega (arith, sizes-mine b items)

  bytes-eq : total (pos 0) (mine b items) ≡ pos (sizes (mine b items))
  bytes-eq =
      total-eq 0 (mine b items) (IsSized-mine b items a) (let f = found_size in omega arith)
      ∙ ap pos (omega arith)

  over-eq :
      (n : ℕ) (z : ℤ)
      → z ≡ pos (sizes (mine b items) - n)
      → excess b z ≡ pos (sizes (mine b items) - n - pos_part b.bytes)
  over-eq n z e =
      ap (excess b) e
      ∙ excess-eq b (sizes (mine b items) - n) nb (let f = found_size in omega arith)

  pub plan_budget-IsPlanned : IsPlanned items b (plan_budget b items).0 (plan_budget b items).1
  unfolding plan_budget
  plan_budget-IsPlanned =
      let m = mine b items in
      let s = sort_items m in
      let e = ap (enforce b s) bytes-eq in
      let low : sizes (loose s) ≤ sizes m = omega (arith, sizes-loose s, sizes-sort m) in
      elim (enforce-cases b s (pos (sizes m))) [
        | inl (on, r) ↦
            let g =
              evict_from-IsGreedy b s (sizes m) nb (IsSized-sort m (IsSized-mine b items a)) low
                found_size in
            let over = over-eq (sizes (loose (take g.cut s))) _ (ap (λ r. r.1) (e ∙ r) ∙ g.rest) in
            record {
              budget = refl;
              bytes = bytes-eq;
              sorted = sort-IsOldestFirst m;
              stable = λ t. sort-at_time t m;
              cut = g.cut;
              evictions = ap (λ r. r.0) (e ∙ r) ∙ g.evicted;
              over = over;
              enough = inr (elim g.enough [
                | inl fits ↦ inl (over ∙ ap pos (omega arith))
                | inr kept ↦ inr kept
              ]);
              shortest = g.shortest;
              enforced = inl on;
            }
        | inr (off, r) ↦ record {
          budget = refl;
          bytes = bytes-eq;
          sorted = sort-IsOldestFirst m;
          stable = λ t. sort-at_time t m;
          cut = 0;
          evictions = ap (λ r. r.0) (e ∙ r) ∙ ap (map (eviction b)) (sym nothing_loose.0);
          over =
              over-eq (sizes (loose [])) _
                (ap (λ r. r.1) (e ∙ r) ∙ ap pos (let z = nothing_loose.1 in omega arith));
          enough = inl off;
          shortest = λ m. inl (omega arith);
          enforced = inr refl;
        }
      ]
