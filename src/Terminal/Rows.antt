-- ===== src/Terminal/Rows.antt =====
-- Rows of cells: what internal/termstate does to one row, in terminal.go and parser.go.
use pomar.Prelude.{
  ℕ, zero, suc, ◌+◌, ◌-◌, ◌&&◌, List, [], ◌∷◌, ◌++◌, none, some, ltb, ◌==◌, if◌then◌else◌, length,
  take, drop, get_elem?,
}
use pomar.Terminal.{Cell, Row, blank}

-- The width at a column, and 1 outside the row.
unfoldable pub width_at : Row → ℕ → ℕ
width_at r x = elim (get_elem? r x) [ some c ↦ c.width | none ↦ 1 ]

-- A change of the cell at a column.
unfoldable pub set_cell : ℕ → (Cell → Cell) → Row → Row
set_cell x f [] = []
set_cell zero f (c ∷ r) = f c ∷ r
set_cell (suc x) f (c ∷ r) = c ∷ set_cell x f r

abbrev pub reblank : Cell → Cell
reblank c = blank c.attr

unfoldable pub blank_at : Row → ℕ → Row
unfolding set_cell
blank_at r x = set_cell x reblank r

-- `clearWide` blanks the other half of a wide character.
unfoldable pub clear_wide : Row → ℕ → Row
clear_wide r x = elim (get_elem? r x) [
  | none ↦ r
  | some c ↦
      if c.width == 2
      then blank_at r (x + 1)
      else if c.width == 0
      then (if ltb 0 x && width_at r (x - 1) == 2 then blank_at r (x - 1) else r)
      else r
]

-- `mend`, from left to right: the width to the left is one that was mended already, and it is 1
-- before the first column.
unfoldable pub mend_cell : ℕ → Cell → Row → Cell
mend_cell before c rest =
    if c.width == 2
    then elim rest [ [] ↦ blank c.attr | d ∷ _ ↦ if d.width == 0 then c else blank c.attr ]
    else if c.width == 0
    then if before == 2 then c else blank c.attr
    else c

unfoldable pub mend_from : ℕ → Row → Row
mend_from before [] = []
mend_from before (c ∷ rest) = let c' = mend_cell before c rest in c' ∷ mend_from c'.width rest

unfoldable pub mend : Row → Row
unfolding mend_from
mend = mend_from 1

-- `copy(row[x+n:], row[x:])` and `copy(row[x:], row[x+n:])`
unfoldable pub shift_right : ℕ → ℕ → Row → Row
shift_right x n r = take (x + n) r ++ take (length r - (x + n)) (drop x r)

unfoldable pub shift_left : ℕ → ℕ → Row → Row
shift_left x n r = take x r ++ drop (x + n) r ++ drop (length r - n) r

-- The loops that put a cell in `n` columns from a column on.
unfoldable pub fill : ℕ → ℕ → Cell → Row → Row
fill x n c [] = []
fill zero zero c (d ∷ r) = d ∷ r
fill zero (suc n) c (d ∷ r) = c ∷ fill zero n c r
fill (suc x) n c (d ∷ r) = d ∷ fill x n c r

-- `rowText`: the text of a row, without its trailing blanks. `kept` is the text up to the last cell
-- that has one, and `all` the whole text so far.
unfoldable pub text_from : List ℕ → List ℕ → Row → List ℕ
text_from kept all [] = kept
text_from kept all (c ∷ r) = if c.width == 0 then text_from kept all r else elim c.text [
  | [] ↦ text_from kept (all ++ 32 ∷ []) r
  | k ∷ ks ↦ text_from (all ++ c.text) (all ++ c.text) r
]

unfoldable pub row_text : Row → List ℕ
unfolding text_from
row_text r = text_from [] [] r
