-- ===== src/Terminal/Screen.antt =====
-- The screen and its history: printing, line feeds and scrolling of internal/termstate/terminal.go.
use pomar.Prelude.{
  ℕ, zero, suc, ◌+◌, ◌-◌, ◌%◌, ◌^◌, Bool, true, false, ◌&&◌, not, List, [], ◌∷◌, ◌++◌, none, some,
  leb, ltb, ◌==◌, if◌then◌else◌, length, take, drop, set, get_elem?, map,
}
use pomar.Terminal.{Row, Grid, Line, Terminal, plain, new_row, grid, with_grid}
use pomar.Terminal.Rows.{row_text}

-- `clamp` of numbers that are not negative; a lower end of 0 needs no test.
unfoldable pub clamp : ℕ → ℕ → ℕ → ℕ
clamp v lo hi = if ltb v lo then lo else if ltb hi v then hi else v

unfoldable pub map_row : ℕ → (Row → Row) → Grid → Grid
map_row y f [] = []
map_row zero f (r ∷ g) = f r ∷ g
map_row (suc y) f (r ∷ g) = r ∷ map_row y f g

abbrev pub row_at : Grid → ℕ → Row
row_at g y = elim (get_elem? g y) [ some r ↦ r | none ↦ [] ]

-- `pushHistory`: the ring overwrites its oldest line once it is full.
unfoldable pub push_history : Row → Terminal → Terminal
push_history r t =
    if t.max_history == 0
    then t
    else (let line : Line = record { id = t.next_line; cells = r } in
        let next = (t.next_line + 1) % 2 ^ 64 in
        if ltb (length t.history) t.max_history
        then record t { history = t.history ++ line ∷ []; next_line = next }
        else record t {
          history = set t.history t.hist_start line;
          hist_start = (t.hist_start + 1) % t.max_history;
          next_line = next;
        })

-- `History`, oldest line first.
unfoldable pub history : Terminal → List Line
history t =
    if ltb (length t.history) t.max_history
    then t.history
    else drop t.hist_start t.history ++ take t.hist_start t.history

unfoldable pub history_text : Terminal → List (List ℕ)
history_text t = map (λ (l : Line). row_text l.cells) (history t)

-- `Row`
unfoldable pub screen_row : Terminal → ℕ → List ℕ
screen_row t y = if leb t.rows y then [] else row_text (row_at (grid t) y)

-- One round of the loops that scroll the region from `top` to `bot`.
unfoldable pub rows_up : ℕ → ℕ → Row → Grid → Grid
rows_up top bot r g = take top g ++ take (bot - top) (drop (top + 1) g) ++ r ∷ drop (bot + 1) g

unfoldable pub rows_down : ℕ → ℕ → Row → Grid → Grid
rows_down top bot r g = take top g ++ r ∷ (take (bot - top) (drop top g) ++ drop (bot + 1) g)

abbrev pub fresh_row : Terminal → Row
fresh_row t = new_row t.cols (record plain { bg = t.cur.attr.bg })

unfoldable pub scroll_once : Bool → Terminal → Terminal
scroll_once keep t =
    let t' =
      if keep && not t.alt_active && t.top == 0
      then push_history (row_at (grid t) t.top) t
      else t in
    with_grid t' (rows_up t.top t.bot (fresh_row t) (grid t'))

unfoldable pub scroll_up_by : Bool → ℕ → Terminal → Terminal
scroll_up_by keep zero t = t
scroll_up_by keep (suc n) t = scroll_up_by keep n (scroll_once keep t)

-- `scrollUp`, and `scrollUpNoHistory`
unfoldable pub scroll_up : ℕ → Terminal → Terminal
scroll_up n t = scroll_up_by true (clamp n 0 (t.bot - t.top + 1)) t

unfoldable pub scroll_up_no_history : ℕ → Terminal → Terminal
scroll_up_no_history n t = scroll_up_by false (clamp n 0 (t.bot - t.top + 1)) t

unfoldable pub scroll_down_by : ℕ → Terminal → Terminal
scroll_down_by zero t = t
scroll_down_by (suc n) t =
    scroll_down_by n (with_grid t (rows_down t.top t.bot (fresh_row t) (grid t)))

unfoldable pub scroll_down : ℕ → Terminal → Terminal
scroll_down n t = scroll_down_by (clamp n 0 (t.bot - t.top + 1)) t

abbrev pub at_x : Terminal → ℕ → Terminal
at_x t x = record t { cur = record t.cur { x = x } }

abbrev pub at_y : Terminal → ℕ → Terminal
at_y t y = record t { cur = record t.cur { y = y } }

abbrev pub pending : Terminal → Bool → Terminal
pending t b = record t { cur = record t.cur { wrap_pending = b } }

unfoldable pub line_feed : Terminal → Terminal
line_feed t =
    if t.cur.y == t.bot
    then scroll_up 1 t
    else if ltb t.cur.y (t.rows - 1)
    then at_y t (t.cur.y + 1)
    else t

unfoldable pub reverse_index : Terminal → Terminal
reverse_index t =
    if t.cur.y == t.top then scroll_down 1 t else if ltb 0 t.cur.y then at_y t (t.cur.y - 1) else t
