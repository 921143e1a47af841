-- ===== src/Terminal/Print.antt =====
-- `print` of internal/termstate/terminal.go.
use pomar.Prelude.{
  ℕ, ◌+◌, ◌-◌, Bool, true, false, ◌&&◌, List, [], ◌∷◌, ◌++◌, Option, none, some, leb, ltb, ◌==◌,
  if◌then◌else◌, length, set, get_elem?,
}
use pomar.Terminal.{Cell, Row, Attr, Terminal, blank, grid, with_grid}
use pomar.Terminal.Rows.{set_cell, width_at, clear_wide, mend, shift_right}
use pomar.Terminal.Screen.{map_row, row_at, at_x, pending, line_feed}

-- The bytes of a rune and of a text in UTF-8.
unfoldable pub rune_len : ℕ → ℕ
rune_len r = if ltb r 0x80 then 1 else if ltb r 0x800 then 2 else if ltb r 0x10000 then 3 else 4

unfoldable pub text_len : List ℕ → ℕ
text_len [] = 0
text_len (r ∷ s) = rune_len r + text_len s

-- `combiningRoom`, and the test of `print` on it: at most 16 marks, of 64 bytes, after the base.
unfoldable pub has_room : List ℕ → List ℕ → Bool
has_room [] mark = true
has_room (base ∷ marks) mark = ltb (length marks) 16 && leb (text_len marks + text_len mark) 64

unfoldable pub column_before : Terminal → Option ℕ
column_before t =
    if t.cur.wrap_pending then some t.cur.x else if ltb 0 t.cur.x then some (t.cur.x - 1) else none

-- The column of the character before the cursor, which a combining mark joins.
unfoldable pub joined_column : Terminal → Option ℕ
joined_column t = elim (column_before t) [
  | none ↦ none
  | some k ↦ if width_at (row_at (grid t) t.cur.y) k == 0 && ltb 0 k then some (k - 1) else some k
]

-- A mark on a blank joins the space that a terminal shows there.
unfoldable pub shown_text : List ℕ → List ℕ
shown_text [] = 32 ∷ []
shown_text (r ∷ s) = r ∷ s

unfoldable pub join_cell : List ℕ → Cell → Cell
join_cell mark c =
    let shown = shown_text c.text in
    if has_room shown mark then record c { text = shown ++ mark } else record c { text = shown }

-- The mark joined to the cell at that column.
unfoldable pub join_at : List ℕ → Option ℕ → Terminal → Terminal
join_at mark none t = t
join_at mark (some x) t =
    let g = map_row t.cur.y (set_cell x (join_cell mark)) (grid t) in
    record (with_grid t g) {
      last = elim (get_elem? (row_at g t.cur.y) x) [ some c ↦ c.text | none ↦ t.last ];
    }

unfoldable pub join_mark : List ℕ → Terminal → Terminal
join_mark mark t = join_at mark (joined_column t) t

-- The pending wrap, taken when the next character comes.
unfoldable pub take_wrap : Terminal → Terminal
take_wrap t =
    if t.cur.wrap_pending && t.modes.auto_wrap then pending (line_feed (at_x t 0)) false else t

abbrev pub blank_cell : ℕ → Cell → Row → Row
blank_cell x c r = set r x c

unfoldable pub blank_here : Terminal → Terminal
blank_here t = with_grid t (map_row t.cur.y (blank_cell t.cur.x (blank t.cur.attr)) (grid t))

-- A wide character that does not fit in the last column goes to the next line; `none` where it is
-- not printed at all.
unfoldable pub make_room : ℕ → Terminal → Option Terminal
make_room w t =
    if w == 2 && t.cur.x == t.cols - 1
    then if t.modes.auto_wrap then some (line_feed (at_x (blank_here t) 0)) else none
    else some t

-- The row with the character put at a column.
unfoldable pub put_char : Bool → ℕ → ℕ → List ℕ → Attr → Row → Row
put_char inserting x w s a r =
    let r1 = if inserting then shift_right x w r else r in
    let r2 = clear_wide r1 x in
    let r3 = if w == 2 then clear_wide r2 (x + 1) else r2 in
    let r4 = set r3 x (record { text = s; width = w; attr = a }) in
    let r5 = if w == 2 then set r4 (x + 1) (record { text = []; width = 0; attr = a }) else r4 in
    if inserting then mend r5 else r5

unfoldable pub advance : ℕ → Terminal → Terminal
advance w t =
    if leb t.cols (t.cur.x + w)
    then pending (at_x t (t.cols - 1)) t.modes.auto_wrap
    else at_x t (t.cur.x + w)

unfoldable pub place : List ℕ → ℕ → Terminal → Terminal
place s w t =
    advance w
      (record (with_grid t
        (map_row t.cur.y (put_char t.modes.insert t.cur.x w s t.cur.attr) (grid t))) { last = s })

-- `print` of a text of the given width.
unfoldable pub print : List ℕ → ℕ → Terminal → Terminal
print s w t =
    if w == 0
    then join_mark s t
    else if w == 2 && ltb t.cols 2
    then t
    else elim (make_room w (take_wrap t)) [ none ↦ take_wrap t | some t' ↦ place s w t' ]
