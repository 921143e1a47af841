-- ===== src/Terminal/Resize.antt =====
-- `Resize` of internal/termstate/terminal.go.
use pomar.Prelude.{
  ℕ, zero, suc, ◌-◌, Bool, false, ◌&&◌, ◌||◌, List, ◌++◌, ltb, ◌==◌, if◌then◌else◌, length, take,
  drop, map, replicate,
}
use pomar.Terminal.{Cell, Row, Grid, Terminal, Cursor, plain, blank, new_row, tab_stops}
use pomar.Terminal.Rows.{set_cell}
use pomar.Terminal.Screen.{clamp, row_at, push_history, at_y}

-- A row cut or padded to the columns; half a wide character at the cut is blanked.
abbrev pub cut_half : Cell → Cell
cut_half c = if c.width == 2 then blank c.attr else c

unfoldable pub fit_row : ℕ → Row → Row
fit_row cols r =
    if ltb cols (length r)
    then set_cell (cols - 1) cut_half (take cols r)
    else r ++ replicate (cols - length r) (blank plain)

-- The loop that shortens the main screen by `n` rows: from the top into history while the cursor has
-- rows above it, and from the bottom else.
unfoldable pub shrink_main : ℕ → Grid → Terminal → Grid × Terminal
shrink_main zero g t = (g, t)
shrink_main (suc n) g t =
    if ltb 0 t.cur.y
    then (let t' = push_history (row_at g 0) t in
        shrink_main n (drop 1 g) (if t.alt_active then t' else at_y t' (t'.cur.y - 1)))
    else shrink_main n (take (length g - 1) g) t

-- A grid that is short of rows gets blank ones, and its rows are fitted.
unfoldable pub fit_grid : ℕ → ℕ → Grid → Grid
fit_grid cols rows g = map (fit_row cols) (g ++ replicate (rows - length g) (new_row cols plain))

unfoldable pub fit_tabs : ℕ → List Bool → List Bool
fit_tabs cols tabs = take cols tabs ++ tab_stops (length tabs) (cols - length tabs)

unfoldable pub fit_cursor : ℕ → ℕ → Cursor → Cursor
fit_cursor cols rows c = record c { x = clamp c.x 0 (cols - 1); y = clamp c.y 0 (rows - 1) }

unfoldable pub resized : ℕ → ℕ → Grid × Terminal → Terminal
resized cols rows (g, t) = record t {
  main = fit_grid cols rows g;
  alt = fit_grid cols rows (take rows t.alt);
  cols = cols;
  rows = rows;
  top = 0;
  bot = rows - 1;
  tabs = fit_tabs cols t.tabs;
  cur = record (fit_cursor cols rows t.cur) { wrap_pending = false };
  saved = fit_cursor cols rows t.saved;
}

-- A size that is not positive changes nothing.
unfoldable pub resize : ℕ → ℕ → Terminal → Terminal
resize cols rows t =
    if ltb cols 1 || ltb rows 1 || (cols == t.cols && rows == t.rows)
    then t
    else resized cols rows (shrink_main (length t.main - rows) t.main t)
