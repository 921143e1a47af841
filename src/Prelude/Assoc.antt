-- ===== src/Prelude/Assoc.antt =====
-- Go maps with string keys, as lists of entries in no particular order. A program that only looks up
-- and sets keys meets each key once.
use pomar.Prelude.{
  ◌+◌, String, str_eq, eq_iff, ◌≡◌, refl, Bool, true, false, Option, none, some, List, [], ◌∷◌,
  arith, if◌then◌else◌, length,
}

abbrev pub Assoc {ℓ} : Type ℓ → Type ℓ
Assoc V = List (String × V)

module _ {ℓ} {V : Type ℓ} where
  unfoldable pub lookup : String → Assoc V → Option V
  lookup id [] = none
  lookup id ((key, value) ∷ rest) = if str_eq key id then some value else lookup id rest

  -- A key that is there keeps its place.
  unfoldable pub insert : String → V → Assoc V → Assoc V
  insert id new [] = (id, new) ∷ []
  insert id new ((key, value) ∷ rest) =
      if str_eq key id then (id, new) ∷ rest else (key, value) ∷ insert id new rest

  pub lookup-insert :
      (id other : String) (new : V) (entries : Assoc V)
      → lookup other (insert id new entries)
        ≡ (if str_eq id other then some new else lookup other entries)
  unfolding lookup insert
  lookup-insert id other new [] = refl
  lookup-insert id other new ((key, value) ∷ rest) =
      ground
        (arith, lookup-insert id other new rest, eq_iff key other, eq_iff key id, eq_iff id other)

  -- A new key makes the map longer by one, and an old key does not.
  pub length-insert :
      (k : String) (v : V) (m : Assoc V)
      → length (insert k v m) ≡ elim (lookup k m) [ none ↦ length m + 1 | some w ↦ length m ]
  unfolding lookup insert
  length-insert k v [] = refl
  length-insert k v ((i, w) ∷ m) = ground (arith, length-insert k v m)

  -- Each entry passes a test.
  unfoldable pub all_entries : (String → V → Bool) → Assoc V → Bool
  all_entries p [] = true
  all_entries p ((k, v) ∷ m) = if p k v then all_entries p m else false

  pub all_entries-insert :
      (p : String → V → Bool) (k : String) (v : V) (m : Assoc V)
      → p k v ≡ true
      → all_entries p m ≡ true
      → all_entries p (insert k v m) ≡ true
  unfolding all_entries insert
  all_entries-insert p k v [] h a = rw h
  all_entries-insert p k v ((i, w) ∷ m) h a = ground (arith, all_entries-insert p k v m h)

  pub all_entries-lookup :
      (p : String → V → Bool) (k : String) (v : V) (m : Assoc V)
      → all_entries p m ≡ true
      → lookup k m ≡ some v
      → p k v ≡ true
  unfolding all_entries lookup
  all_entries-lookup p k v [] a h = cc
  all_entries-lookup p k v ((i, w) ∷ m) a h = ground (arith, eq_iff i k, all_entries-lookup p k v m)

  -- A loop over the map that sets each value anew.
  unfoldable pub map_entries : (String → V → V) → Assoc V → Assoc V
  map_entries f [] = []
  map_entries f ((k, v) ∷ m) = (k, f k v) ∷ map_entries f m

  pub lookup-map_entries :
      (f : String → V → V) (k : String) (m : Assoc V)
      → lookup k (map_entries f m) ≡ elim (lookup k m) [ none ↦ none | some v ↦ some (f k v) ]
  unfolding lookup map_entries
  lookup-map_entries f k [] = refl
  lookup-map_entries f k ((i, w) ∷ m) = ground (arith, eq_iff i k, lookup-map_entries f k m)

  pub length-map_entries : (f : String → V → V) (m : Assoc V) → length (map_entries f m) ≡ length m
  unfolding map_entries
  length-map_entries f [] = refl
  length-map_entries f ((i, w) ∷ m) = omega (arith, length-map_entries f m)

  pub all_entries-map :
      (p q : String → V → Bool) (f : String → V → V) (m : Assoc V)
      → ((k : String) (v : V) → p k v ≡ true → q k (f k v) ≡ true)
      → all_entries p m ≡ true
      → all_entries q (map_entries f m) ≡ true
  unfolding all_entries map_entries
  all_entries-map p q f [] h a = refl
  all_entries-map p q f ((i, w) ∷ m) h a = ground (arith, h i w, all_entries-map p q f m h)

  -- `delete` of a key.
  unfoldable pub remove : String → Assoc V → Assoc V
  remove id [] = []
  remove id ((key, value) ∷ rest) =
      let others = remove id rest in if str_eq key id then others else (key, value) ∷ others

  pub lookup-remove :
      (id other : String) (entries : Assoc V)
      → str_eq id other ≡ false
      → lookup other (remove id entries) ≡ lookup other entries
  unfolding lookup remove
  lookup-remove id other [] h = refl
  lookup-remove id other ((key, value) ∷ rest) h =
      ground (arith, lookup-remove id other rest, eq_iff key other, eq_iff key id, eq_iff id other)
