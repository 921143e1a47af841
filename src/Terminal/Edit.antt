-- ===== src/Terminal/Edit.antt =====
-- Erasing, inserting and deleting: the editing sequences of internal/termstate/parser.go.
use pomar.Prelude.{
  ℕ, zero, suc, ◌+◌, ◌-◌, ◌&&◌, ◌||◌, not, [], ◌∷◌, leb, ltb, ◌==◌, if◌then◌else◌, map,
}
use pomar.Terminal.{Cell, Row, Grid, Attr, Terminal, plain, blank, grid, with_grid}
use pomar.Terminal.Rows.{clear_wide, mend, shift_right, shift_left, fill}
use pomar.Terminal.Screen.{clamp, map_row, at_x, scroll_down, scroll_up_no_history}

abbrev pub edit_row : (Row → Row) → Terminal → Terminal
edit_row f t = with_grid t (map_row t.cur.y f (grid t))

-- `eraseLine`: from the cursor on, up to the cursor, or all of the row.
unfoldable pub erase_from : ℕ → ℕ → ℕ
erase_from mode x = if mode == 1 || mode == 2 then 0 else x

unfoldable pub erase_to : ℕ → ℕ → ℕ → ℕ
erase_to mode x cols = if mode == 1 then x + 1 else cols

unfoldable pub erase_row : ℕ → ℕ → Attr → ℕ → Row → Row
erase_row from to a cols r =
    fill from ((if ltb cols to then cols else to) - from) (blank a)
      (clear_wide (clear_wide r from) (to - 1))

unfoldable pub erase_line : ℕ → Terminal → Terminal
erase_line mode t =
    edit_row (erase_row (erase_from mode t.cur.x) (erase_to mode t.cur.x t.cols) t.cur.attr t.cols)
      t

abbrev pub wipe : Attr → Row → Row
wipe a r = map (λ (c : Cell). blank a) r

-- The rows from `y` on, `n` of them.
unfoldable pub wipe_rows : ℕ → ℕ → Attr → Grid → Grid
wipe_rows y n a [] = []
wipe_rows zero zero a (r ∷ g) = r ∷ g
wipe_rows zero (suc n) a (r ∷ g) = wipe a r ∷ wipe_rows zero n a g
wipe_rows (suc y) n a (r ∷ g) = r ∷ wipe_rows y n a g

-- The cases of `eraseDisplay`.
unfoldable pub erase_below : Terminal → Terminal
erase_below t =
    let t' = erase_line 0 t in
    with_grid t' (wipe_rows (t.cur.y + 1) (t.rows - (t.cur.y + 1)) t.cur.attr (grid t'))

unfoldable pub erase_above : Terminal → Terminal
erase_above t = let t' = erase_line 1 t in with_grid t' (wipe_rows 0 t.cur.y t.cur.attr (grid t'))

unfoldable pub erase_all : Terminal → Terminal
erase_all t = with_grid t (map (wipe t.cur.attr) (grid t))

unfoldable pub erase_display : ℕ → Terminal → Terminal
erase_display mode t =
    if mode == 0
    then erase_below t
    else if mode == 1
    then erase_above t
    else if mode == 2
    then erase_all t
    else if mode == 3 && not t.alt_active
    then record t { history = []; hist_start = 0 }
    else t

-- ICH, DCH and ECH of `n` columns, mended afterwards.
abbrev pub span : ℕ → Terminal → ℕ
span n t = clamp n 1 (t.cols - t.cur.x)

unfoldable pub insert_cells : ℕ → Terminal → Terminal
insert_cells n t =
    edit_row
      (λ r. mend (fill t.cur.x (span n t) (blank t.cur.attr) (shift_right t.cur.x (span n t) r))) t

unfoldable pub delete_cells : ℕ → Terminal → Terminal
delete_cells n t =
    edit_row
      (λ r.
        mend (
          fill (t.cols - span n t) (span n t) (blank t.cur.attr) (shift_left t.cur.x (span n t) r)))
      t

unfoldable pub erase_cells : ℕ → Terminal → Terminal
erase_cells n t = edit_row (λ r. mend (fill t.cur.x (span n t) (blank t.cur.attr) r)) t

-- IL and DL: the region below the cursor scrolls, with the cursor's row as its top for that time.
unfoldable pub insert_lines : ℕ → Terminal → Terminal
insert_lines n t =
    if leb t.top t.cur.y && leb t.cur.y t.bot
    then at_x (record (scroll_down n (record t { top = t.cur.y })) { top = t.top }) 0
    else t

unfoldable pub delete_lines : ℕ → Terminal → Terminal
delete_lines n t =
    if leb t.top t.cur.y && leb t.cur.y t.bot
    then at_x (record (scroll_up_no_history n (record t { top = t.cur.y })) { top = t.top }) 0
    else t

-- DECALN
unfoldable pub align : Terminal → Terminal
align t = with_grid t (
    map (λ (r : Row). map (λ (c : Cell). record { text = b'E' ∷ []; width = 1; attr = plain }) r)
      (grid t))
