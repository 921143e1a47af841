-- ===== src/OpJournal/Lines.antt =====
-- The lines of a journal's file, and what an append or a torn end does to them.
use pomar.Prelude.{
  ℕ, ◌≡◌, ◌⊎◌, inl, inr, refl, ap, sym, ◌∙◌, Bool, true, false, Option, List, [], ◌∷◌, ◌++◌, arith,
  ltb, ◌==◌, if◌then◌else◌, length, Bool-cases,
}
use pomar.Terminal.Text.{has_byte}
use pomar.OpJournal.{
  newline, line_limit, clean_part, grow, scan_lines, OpRecord, Replayed, replay_record, replay,
}

-- A file that ends with a whole line.
abbrev pub IsClean : List ℕ → Type 0
IsClean file = clean_part file ≡ file

pub line-IsClean : (s : List ℕ) → IsClean (s ++ newline ∷ [])
unfolding clean_part
line-IsClean [] = refl
line-IsClean (c ∷ []) = ground arith
line-IsClean (c ∷ d ∷ s) = let r = line-IsClean (d ∷ s) in ground arith

tail-IsClean : (c : ℕ) (s : List ℕ) → IsClean (c ∷ s) → IsClean s
unfolding clean_part
tail-IsClean c s h = ground arith

torn_part : (torn : List ℕ) → has_byte newline torn ≡ false → clean_part torn ≡ []
unfolding clean_part has_byte
torn_part [] h = refl
torn_part (c ∷ s) h = let r = torn_part s (ground arith) in ground arith

-- A torn end is what the clean part leaves out.
pub clean_part-torn :
    (file torn : List ℕ)
    → IsClean file
    → has_byte newline torn ≡ false
    → clean_part (file ++ torn) ≡ file
unfolding clean_part
clean_part-torn [] torn h t = torn_part torn t
clean_part-torn (c ∷ []) torn h t = let r = torn_part torn t in ground arith
clean_part-torn (c ∷ d ∷ s) torn h t =
    let r = clean_part-torn (d ∷ s) torn (tail-IsClean c (d ∷ s) h) t in ground arith

ends_line : (c : ℕ) → IsClean (c ∷ []) → (c == newline) ≡ true
unfolding clean_part
ends_line c h = ground arith

scan_end : (c : ℕ) (s : List ℕ) → (c == newline) ≡ true → scan_lines (c ∷ s) ≡ [] ∷ scan_lines s
unfolding scan_lines
scan_end c s h = ground arith

scan_inside :
    (c : ℕ) (s : List ℕ) → (c == newline) ≡ false → scan_lines (c ∷ s) ≡ grow c (scan_lines s)
unfolding scan_lines
scan_inside c s h = ground arith

first_line :
    (c : ℕ) (ls : List (List ℕ)) → (l : List ℕ) × (ms : List (List ℕ)) × (grow c ls ≡ l ∷ ms)
unfolding grow
first_line c [] = (c ∷ [], [], refl)
first_line c (l ∷ ls) = (c ∷ l, ls, refl)

some_lines :
    (c : ℕ) (s : List ℕ) → (l : List ℕ) × (ls : List (List ℕ)) × (scan_lines (c ∷ s) ≡ l ∷ ls)
some_lines c s = elim (Bool-cases (c == newline)) [
  | inl e ↦ ([], scan_lines s, scan_end c s e)
  | inr e ↦ let (l, ls, g) = first_line c (scan_lines s) in (l, ls, scan_inside c s e ∙ g)
]

grow-append :
    (c : ℕ) (l : List ℕ) (ls ys : List (List ℕ)) → grow c ((l ∷ ls) ++ ys) ≡ grow c (l ∷ ls) ++ ys
unfolding grow
grow-append c l ls ys = refl

pub scan_lines-append :
    (file more : List ℕ)
    → IsClean file
    → scan_lines (file ++ more) ≡ scan_lines file ++ scan_lines more
unfolding scan_lines
scan_lines-append [] more h = refl
scan_lines-append (c ∷ []) more h = let e = ends_line c h in ground arith
scan_lines-append (c ∷ d ∷ s) more h =
    let r = scan_lines-append (d ∷ s) more (tail-IsClean c (d ∷ s) h) in
    let (l, ls, e) = some_lines d s in
    elim (Bool-cases (c == newline)) [
      | inl n ↦
          scan_end c ((d ∷ s) ++ more) n
          ∙ ap (λ x. [] ∷ x) r
          ∙ sym (ap (λ x. x ++ scan_lines more) (scan_end c (d ∷ s) n))
      | inr n ↦
          scan_inside c ((d ∷ s) ++ more) n
          ∙ ap (grow c) (r ∙ ap (λ x. x ++ scan_lines more) e)
          ∙ grow-append c l ls (scan_lines more)
          ∙ sym (ap (λ x. x ++ scan_lines more) (scan_inside c (d ∷ s) n ∙ ap (grow c) e))
    ]

scan_line :
    (line : List ℕ) → has_byte newline line ≡ false → scan_lines (line ++ newline ∷ []) ≡ line ∷ []
unfolding scan_lines grow has_byte
scan_line [] h = refl
scan_line (c ∷ s) h = let r = scan_line s (ground arith) in ground arith

unfoldable pub all_short : List (List ℕ) → Bool
all_short [] = true
all_short (l ∷ ls) = if ltb (length l) line_limit then all_short ls else false

-- An appended line is the last one.
pub scan_lines-line :
    (file line : List ℕ)
    → IsClean file
    → has_byte newline line ≡ false
    → scan_lines (file ++ (line ++ newline ∷ [])) ≡ scan_lines file ++ line ∷ []
scan_lines-line file line c n =
    scan_lines-append file (line ++ newline ∷ []) c
    ∙ ap (λ ls. scan_lines file ++ ls) (scan_line line n)

module _ (decode : List ℕ → Option OpRecord) where
  -- A further line counts, unless an earlier one stopped the scanner.
  pub replay-line :
      (ls : List (List ℕ)) (line : List ℕ) (m : Replayed)
      → (replay decode (ls ++ line ∷ []) m ≡ replay decode ls m)
        ⊎ (replay decode (ls ++ line ∷ []) m ≡ replay_record (decode line) (replay decode ls m))
  unfolding replay
  replay-line [] line m = ground arith
  replay-line (l ∷ ls) line m =
      let r = replay-line ls line (replay_record (decode l) m) in ground arith

  -- With only short lines the scanner reads them all.
  pub replay_short :
      (ls : List (List ℕ)) (line : List ℕ) (m : Replayed)
      → all_short (ls ++ line ∷ []) ≡ true
      → replay decode (ls ++ line ∷ []) m ≡ replay_record (decode line) (replay decode ls m)
  unfolding replay all_short
  replay_short [] line m h = ground arith
  replay_short (l ∷ ls) line m h =
      let r = replay_short ls line (replay_record (decode l) m) in ground arith
