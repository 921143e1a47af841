-- ===== src/SessionLog/Pages.antt =====
-- Pages of a log, one after the other.
use mathlib.Core.Path.{subst}
use pomar.Prelude.{
  ℕ, zero, suc, ◌+◌, ◌-◌, ◌≤◌, ◌<◌, ◌≡◌, ◌⊎◌, inl, inr, refl, ap, sym, ◌∙◌, Bool, true, false,
  Option, none, some, List, [], ◌∷◌, ◌++◌, ltb, if◌then◌else◌, length, take, drop, arith,
  length-take, length-drop, take_all, Bool-cases, drop_all, drop-take, drop-drop, take-append-drop,
  append_nil, drop-append_self,
}
use pomar.SessionLog.{chunk_of, page_at, page}

-- The client names no limit, or a positive one.
unfoldable pub IsLimit : Option ℕ → Type 0
IsLimit none = Unit
IsLimit (some n) = 0 < n

take-more : (a n : ℕ) (xs : List ℕ) → take a xs ++ take n (drop a xs) ≡ take (a + n) xs
take-more zero n xs = let e : n ≡ 0 + n = omega arith in ap (λ k. take k xs) e
take-more (suc a) n [] =
    let none_left : (m : ℕ) → take {A = ℕ} m [] ≡ [] = λ m. take_all m [] (omega arith) in
    none_left n ∙ sym (none_left (suc a + n))
take-more (suc a) n (x ∷ xs) =
    let e : suc (a + n) ≡ suc a + n = omega arith in
    ap (λ l. x ∷ l) (take-more a n xs) ∙ ap (λ k. take k (x ∷ xs)) e

-- A page that starts within the log continues what comes before it; a truncated one is not empty,
-- and any other ends the log.
pub record Continues (from : ℕ) (file : List ℕ) (p : (List ℕ × ℕ) × Bool) : Type 0 where
  pub starts : p.0.1 ≡ from
  pub joined : take from file ++ p.0.0 ≡ take (from + length p.0.0) file
  pub goes_on :
      ((p.1 ≡ true) × (0 < length p.0.0) × (from + length p.0.0 < length file))
      ⊎ ((p.1 ≡ false) × (from + length p.0.0 ≡ length file))

page_at-Continues :
    (from chunk : ℕ) (file : List ℕ)
    → 0 < chunk
    → from ≤ length file
    → Continues from file (page_at from chunk file)
unfolding page_at
page_at-Continues from chunk file c h =
    let left = length file - from in
    let n = if ltb chunk left then chunk else left in
    let small : n ≤ left = ground arith in
    let size : length (take n (drop from file)) ≡ n =
      omega (arith, length-take n (drop from file), length-drop from file) in
    record {
      starts = refl;
      joined = take-more from n file ∙ ap (λ k. take (from + k) file) (sym size);
      goes_on = elim (Bool-cases (ltb chunk left)) [
        | inl more ↦
            let e : n ≡ chunk = rw more refl in
            let less : chunk < left = ground arith in
            let some_bytes : 0 < length (take n (drop from file)) = omega arith in
            let more_left : from + length (take n (drop from file)) < length file = omega arith in
            inl (ground arith, some_bytes, more_left)
        | inr last ↦
            let e : n ≡ left = rw last refl in
            let enough : left ≤ chunk = ground arith in
            let at_end : from + length (take n (drop from file)) ≡ length file = omega arith in
            inr (ground arith, at_end)
      ];
    }

chunk-positive : (limit : Option ℕ) → IsLimit limit → 0 < chunk_of limit
unfolding chunk_of IsLimit
chunk-positive none l = omega arith
chunk-positive (some n) l = ground arith

page-Continues :
    (from : ℕ) (limit : Option ℕ) (file : List ℕ)
    → IsLimit limit
    → from ≤ length file
    → Continues from file (page from limit file)
unfolding page
page-Continues from limit file l h =
    let e : (if ltb (length file) from then length file else from) ≡ from = ground arith in
    subst (λ s. Continues from file (page_at s (chunk_of limit) file)) (sym e)
      (page_at-Continues from (chunk_of limit) file (chunk-positive limit l) h)

-- A client that asks for pages of a log that does not grow: after a page that is marked as truncated it
-- goes on at the offset that the page's own offset and length give. At most so many pages; and whether
-- the last was not truncated.
unfoldable pub read_on : ℕ → ℕ → Option ℕ → List ℕ → List ℕ × Bool
read_on zero from limit file = ([], false)
read_on (suc n) from limit file =
    let p = page from limit file in
    let rest = read_on n (p.0.1 + length p.0.0) limit file in
    if p.1 then (p.0.0 ++ rest.0, rest.1) else (p.0.0, true)

-- The bytes of a page, and those behind it.
page-drop :
    (from : ℕ) (file b : List ℕ)
    → from ≤ length file
    → take from file ++ b ≡ take (from + length b) file
    → b ++ drop (from + length b) file ≡ drop from file
page-drop from file b h joined =
    let at : from ≡ length (take from file) = omega (arith, length-take from file) in
    let n : from + length b - from ≡ length b = omega arith in
    let next : from + length b ≡ length b + from = omega arith in
    let same : b ≡ take (length b) (drop from file) =
      sym (ap (λ k. drop k (take from file ++ b)) at ∙ drop-append_self (take from file) b)
      ∙ ap (drop from) joined
      ∙ drop-take from (from + length b) file
      ∙ ap (λ k. take k (drop from file)) n in
    ap (λ k. b ++ drop k file) next
    ∙ ap (λ x. b ++ x) (sym (drop-drop (length b) from file))
    ∙ ap (λ x. x ++ drop (length b) (drop from file)) same
    ∙ take-append-drop (length b) (drop from file)

-- For a limit that is positive, or none, an offset within the log, and a log that does not grow, a
-- client that asks for page after page, going on after each that is marked as truncated, comes to one
-- that is not after no more pages than there are bytes from the offset, and one; and the pages together
-- are the log from the offset to its end.
pub read_on-eq :
    (n from : ℕ) (limit : Option ℕ) (file : List ℕ)
    → IsLimit limit
    → from ≤ length file
    → length file - from < n
    → read_on n from limit file ≡ (drop from file, true)
unfolding read_on
read_on-eq zero from limit file l h enough = absurd (omega arith)
read_on-eq (suc n) from limit file l h enough =
    let p = page from limit file in
    let c = page-Continues from limit file l h in
    elim c.goes_on [
      | inl (more, some_bytes, before_end) ↦
          let at : p.0.1 + length p.0.0 ≡ from + length p.0.0 =
            ap (λ k. k + length p.0.0) c.starts in
          let rest =
            ap (λ k. read_on n k limit file) at
            ∙ read_on-eq n (from + length p.0.0) limit file l (omega arith) (omega arith) in
          rw more (
            ap (λ r. (p.0.0 ++ r.0, r.1)) rest
            ∙ ap (λ x. (x, true)) (page-drop from file p.0.0 h c.joined))
      | inr (last, at_end) ↦
          let none_left = drop_all (from + length p.0.0) file (omega arith) in
          rw last (
            ap (λ x. (x, true))
              (sym (append_nil p.0.0)
                ∙ ap (λ x. p.0.0 ++ x) (sym none_left)
                ∙ page-drop from file p.0.0 h c.joined))
    ]
