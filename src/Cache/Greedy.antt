-- ===== src/Cache/Greedy.antt =====
-- Which items the loop of Plan evicts, and that the sort is stable.
use pomar.Prelude.{
  ℕ, zero, suc, ◌+◌, ◌-◌, ◌<◌, ◌≤◌, ◌≡◌, ◌⊎◌, inl, inr, refl, ap, sym, ◌∙◌, true, false, List, [],
  ◌∷◌, map, arith, if◌then◌else◌, take, drop, All, Bool-cases,
}
use pomar.Prelude.Int.{ℤ, pos, pos_part, neg_part, leb_ℤ, ◌+ℤ◌, ◌-ℤ◌, eq_of_parts}
use pomar.Prelude.Int64.{add64, sub64, half_range, wrap64_id}
use pomar.Cache.{Item, Budget, Eviction, is_kept, eviction, evict_from, total}

-- The sizes of some items, as numbers.
unfoldable pub sizes : List Item → ℕ
sizes [] = 0
sizes (it ∷ items) = pos_part it.size + sizes items

abbrev pub IsSized : Item → Type 0
IsSized it = neg_part it.size ≡ 0

-- The items that may be evicted.
unfoldable pub loose : List Item → List Item
loose [] = []
loose (it ∷ items) = if is_kept it.keep then loose items else it ∷ loose items

pub add_sizes : (a b : ℕ) → a + b < half_range → add64 (pos a) (pos b) ≡ pos (a + b)
unfolding ◌+ℤ◌
add_sizes a b h = wrap64_id (pos a +ℤ pos b) (ground arith) ∙ ground arith

pub sub_sizes : (a b : ℕ) → b ≤ a → a < half_range → sub64 (pos a) (pos b) ≡ pos (a - b)
unfolding ◌-ℤ◌
sub_sizes a b h l = wrap64_id (pos a -ℤ pos b) (ground arith) ∙ ground arith

pub pos_of : (z : ℤ) → neg_part z ≡ 0 → z ≡ pos (pos_part z)
pos_of z h = eq_of_parts z (pos (pos_part z)) (omega arith)

pub total-eq :
    (s : ℕ) (items : List Item)
    → All IsSized items
    → s + sizes items < half_range
    → total (pos s) items ≡ pos (s + sizes items)
unfolding total sizes
total-eq s [] n h = let e : s ≡ s + 0 = omega arith in ap pos e
total-eq s (it ∷ items) n h =
    let a =
      ap (add64 (pos s)) (pos_of it.size n.0) ∙ add_sizes s (pos_part it.size) (omega arith) in
    let e : s + pos_part it.size + sizes items ≡ s + (pos_part it.size + sizes items) =
      omega arith in
    ap (λ z. total z items) a ∙ total-eq (s + pos_part it.size) items n.1 (omega arith) ∙ ap pos e

-- What the loop evicts: the evictable items among the first `cut`, and no more than it needs.
pub record IsGreedy (b : Budget) (items : List Item) (left : ℕ) (r : List Eviction × ℤ)
    : Type 0 where
  pub cut : ℕ
  pub evicted : r.0 ≡ map (eviction b) (loose (take cut items))
  pub rest : r.1 ≡ pos (left - sizes (loose (take cut items)))
  pub enough :
      (left - sizes (loose (take cut items)) ≤ pos_part b.bytes) ⊎ (loose (drop cut items) ≡ [])
  pub shortest : (m : ℕ) → (cut ≤ m) ⊎ (pos_part b.bytes < left - sizes (loose (take m items)))

evict-stop :
    (b : Budget) (it : Item) (items : List Item) (left : ℕ)
    → leb_ℤ (pos left) b.bytes ≡ true
    → IsGreedy b (it ∷ items) left (evict_from b (it ∷ items) (pos left))
unfolding evict_from loose sizes
evict-stop b it items left fits = record {
  cut = 0;
  evicted = ground arith;
  rest = ground arith;
  enough = inl (ground arith);
  shortest = λ m. inl (omega arith);
}

-- The rounds that go on, with the budget still exceeded.
module _ (b : Budget) (it : Item) (items : List Item) (left : ℕ) (nb : neg_part b.bytes ≡ 0)
    (over : leb_ℤ (pos left) b.bytes ≡ false) where
  loose_kept : (xs : List Item) → is_kept it.keep ≡ true → loose (it ∷ xs) ≡ loose xs
  unfolding loose
  loose_kept xs k = rw k

  loose_free : (xs : List Item) → is_kept it.keep ≡ false → loose (it ∷ xs) ≡ it ∷ loose xs
  unfolding loose
  loose_free xs k = rw k

  skip_shortest :
      is_kept it.keep ≡ true
      → (cut : ℕ) → ((m : ℕ) → (cut ≤ m) ⊎ (pos_part b.bytes < left - sizes (loose (take m items))))
      → (m : ℕ) → (suc cut ≤ m) ⊎ (pos_part b.bytes < left - sizes (loose (take m (it ∷ items))))
  unfolding sizes loose
  skip_shortest k cut s zero = inr (ground arith)
  skip_shortest k cut s (suc m) = let s' = s m in ground arith

  evict-skip :
      is_kept it.keep ≡ true
      → IsGreedy b items left (evict_from b items (pos left))
      → IsGreedy b (it ∷ items) left (evict_from b (it ∷ items) (pos left))
  unfolding evict_from
  evict-skip k g =
      let l = loose_kept (take g.cut items) k in
      record {
        cut = suc g.cut;
        evicted = (let e = g.evicted in ground arith);
        rest = (let e = g.rest in ground arith);
        enough = (let e = g.enough in rw l e);
        shortest = skip_shortest k g.cut g.shortest;
      }

  take_shortest :
      is_kept it.keep ≡ false
      → (cut : ℕ)
      → ((m : ℕ)
          → (cut ≤ m) ⊎ (pos_part b.bytes < left - pos_part it.size - sizes (loose (take m items))))
      → (m : ℕ) → (suc cut ≤ m) ⊎ (pos_part b.bytes < left - sizes (loose (take m (it ∷ items))))
  unfolding sizes loose
  take_shortest k cut s zero = inr (ground arith)
  take_shortest k cut s (suc m) = let s' = s m in ground arith

  take_step :
      is_kept it.keep ≡ false
      → (z : ℤ) → sub64 (pos left) it.size ≡ z
      → evict_from b (it ∷ items) (pos left)
        ≡ (eviction b it ∷ (evict_from b items z).0, (evict_from b items z).1)
  unfolding evict_from
  take_step k z e = ground arith

  evict-take :
      is_kept it.keep ≡ false
      → sub64 (pos left) it.size ≡ pos (left - pos_part it.size)
      → IsGreedy b items
          (left - pos_part it.size)
          (evict_from b items (pos (left - pos_part it.size)))
      → IsGreedy b (it ∷ items) left (evict_from b (it ∷ items) (pos left))
  unfolding evict_from sizes
  evict-take k e g =
      let l = loose_free (take g.cut items) k in
      let less : left - pos_part it.size - sizes (loose (take g.cut items))
          ≡ left - sizes (loose (it ∷ take g.cut items)) =
        rw l (omega arith) in
      let step = take_step k (pos (left - pos_part it.size)) e in
      record {
        cut = suc g.cut;
        evicted =
            ap (λ r. r.0) step
            ∙ ap (λ es. eviction b it ∷ es) g.evicted
            ∙ sym (ap (map (eviction b)) l);
        rest = ap (λ r. r.1) step ∙ g.rest ∙ ap pos less;
        enough = (let f = g.enough in rw (sym less) f);
        shortest = take_shortest k g.cut g.shortest;
      }

pub evict_from-IsGreedy :
    (b : Budget) (items : List Item) (left : ℕ)
    → neg_part b.bytes ≡ 0
    → All IsSized items
    → sizes (loose items) ≤ left
    → left < half_range
    → IsGreedy b items left (evict_from b items (pos left))
unfolding evict_from loose sizes
evict_from-IsGreedy b [] left nb n h l = record {
  cut = 0;
  evicted = refl;
  rest = (let e : left ≡ left - 0 = omega arith in ap pos e);
  enough = inr refl;
  shortest = λ m. inl (omega arith);
}
evict_from-IsGreedy b (it ∷ items) left nb n h l = elim (Bool-cases (leb_ℤ (pos left) b.bytes)) [
  | inl fits ↦ evict-stop b it items left fits
  | inr over ↦ elim (Bool-cases (is_kept it.keep)) [
    | inl k ↦
        evict-skip b it items left nb over k
          (evict_from-IsGreedy b items left nb n.1 (ground arith) l)
    | inr k ↦
        let less : pos_part it.size + sizes (loose items) ≤ left = ground arith in
        evict-take b it items left nb over k
          (ap (sub64 (pos left)) (pos_of it.size n.0)
            ∙ sub_sizes left (pos_part it.size) (omega arith) l)
          (evict_from-IsGreedy b items (left - pos_part it.size) nb n.1 (omega arith) (omega arith))
  ]
]
