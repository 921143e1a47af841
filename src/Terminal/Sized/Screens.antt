-- ===== src/Terminal/Sized/Screens.antt =====
-- Both screens keep their rows and columns: scrolling, printing and editing of internal/termstate.
use mathlib.Core.Path.{subst}
use pomar.Prelude.{
  ℕ, zero, suc, ◌-◌, ◌≡◌, ap, sym, ◌∙◌, Bool, true, false, ◌&&◌, not, List, Option, none, some, ltb,
  ◌==◌, arith, Bool-cases, Option-cases, inl, inr, length, length-set, length-replicate,
}
use pomar.Terminal.{Row, Grid, Terminal, blank, new_row, grid, with_grid}
use pomar.Terminal.Rows.{set_cell}
use pomar.Terminal.Screen.{
  map_row, row_at, push_history, fresh_row, scroll_once, scroll_up_by, scroll_up,
  scroll_up_no_history, scroll_down_by, scroll_down, at_x, line_feed, reverse_index,
}
use pomar.Terminal.Print.{
  join_cell, join_at, join_mark, take_wrap, blank_cell, blank_here, make_room, put_char, advance,
  place, print,
}
use pomar.Terminal.Placed.{
  IsPlaced, keeps, with_grid-frame, scroll_once-frame, take_wrap-IsPlaced, blank_here-IsPlaced,
}
use pomar.Terminal.Sized.{
  IsGrid, rows_wide-map_row, length-map_row, rows_up-IsGrid, rows_down-IsGrid, length-set_cell,
  length-put_char,
}

-- The screens and the tab stops.
pub record Screens : Type 0 where
  pub cols : ℕ
  pub rows : ℕ
  pub main : Grid
  pub alt : Grid
  pub tabs : List Bool

abbrev pub screens : Terminal → Screens
screens t = record { cols = t.cols; rows = t.rows; main = t.main; alt = t.alt; tabs = t.tabs }

pub record IsSized (s : Screens) : Type 0 where
  pub main : IsGrid s.cols s.rows s.main
  pub alt : IsGrid s.cols s.rows s.alt
  pub stops : length s.tabs ≡ s.cols

abbrev pub HasSize : Terminal → Type 0
HasSize t = IsSized (screens t)

pub same_size : (s r : Screens) → r ≡ s → IsSized s → IsSized r
same_size s r e h = subst IsSized (sym e) h

pub grid-IsGrid : (t : Terminal) → HasSize t → IsGrid t.cols t.rows (grid t)
unfolding grid
grid-IsGrid t h = elim (Bool-cases t.alt_active) [ inl e ↦ rw (e) h.alt | inr e ↦ rw (e) h.main ]

pub with_grid-HasSize :
    (t : Terminal) (g : Grid) → IsGrid t.cols t.rows g → HasSize t → HasSize (with_grid t g)
unfolding with_grid
with_grid-HasSize t g k h = elim (Bool-cases t.alt_active) [
  | inl e ↦ rw (e) (record { main = h.main; alt = k; stops = h.stops })
  | inr e ↦ rw (e) (record { main = k; alt = h.alt; stops = h.stops })
]

push_history-screens : (r : Row) (t : Terminal) → screens (push_history r t) ≡ screens t
unfolding push_history
push_history-screens r t = ground arith

length-fresh_row : (t : Terminal) → length (fresh_row t) ≡ t.cols
unfolding new_row
length-fresh_row t = length-replicate t.cols _

scroll_once-HasSize :
    (keep : Bool) (t : Terminal) → IsPlaced t → HasSize t → HasSize (scroll_once keep t)
unfolding scroll_once
scroll_once-HasSize keep t p h = elim (Bool-cases (keep && not t.alt_active && t.top == 0)) [
  | inl e ↦ rw (e) (
      let u = push_history (row_at (grid t) t.top) t in
      let hu =
        same_size (screens t) (screens u) (push_history-screens (row_at (grid t) t.top) t) h in
      let e' = push_history-screens (row_at (grid t) t.top) t in
      let c : u.cols ≡ t.cols = ap (λ s. s.cols) e' in
      let r : u.rows ≡ t.rows = ap (λ s. s.rows) e' in
      with_grid-HasSize u _
        (rows_up-IsGrid u.cols u.rows t.top t.bot (fresh_row t) (grid u) (ground arith)
          (ground arith) (length-fresh_row t ∙ sym c) (grid-IsGrid u hu))
        hu)
  | inr e ↦ rw (e) (
      with_grid-HasSize t _
        (rows_up-IsGrid t.cols t.rows t.top t.bot (fresh_row t) (grid t) (ground arith)
          (ground arith) (length-fresh_row t) (grid-IsGrid t h))
        h)
]

scroll_up_by-HasSize :
    (keep : Bool) (n : ℕ) (t : Terminal) → IsPlaced t → HasSize t → HasSize (scroll_up_by keep n t)
unfolding scroll_up_by
scroll_up_by-HasSize keep zero t p h = h
scroll_up_by-HasSize keep (suc n) t p h =
    scroll_up_by-HasSize keep n (scroll_once keep t) (keeps (scroll_once-frame keep t) p)
      (scroll_once-HasSize keep t p h)

pub scroll_up-HasSize : (n : ℕ) (t : Terminal) → IsPlaced t → HasSize t → HasSize (scroll_up n t)
unfolding scroll_up
scroll_up-HasSize n t p h = scroll_up_by-HasSize true _ t p h

pub scroll_up_no_history-HasSize :
    (n : ℕ) (t : Terminal) → IsPlaced t → HasSize t → HasSize (scroll_up_no_history n t)
unfolding scroll_up_no_history
scroll_up_no_history-HasSize n t p h = scroll_up_by-HasSize false _ t p h

scroll_down_by-HasSize :
    (n : ℕ) (t : Terminal) → IsPlaced t → HasSize t → HasSize (scroll_down_by n t)
unfolding scroll_down_by
scroll_down_by-HasSize zero t p h = h
scroll_down_by-HasSize (suc n) t p h = scroll_down_by-HasSize n _ (keeps (with_grid-frame t _) p) (
    with_grid-HasSize t _
      (rows_down-IsGrid t.cols t.rows t.top t.bot (fresh_row t) (grid t) (ground arith)
        (ground arith) (length-fresh_row t) (grid-IsGrid t h))
      h)

pub scroll_down-HasSize :
    (n : ℕ) (t : Terminal) → IsPlaced t → HasSize t → HasSize (scroll_down n t)
unfolding scroll_down
scroll_down-HasSize n t p h = scroll_down_by-HasSize _ t p h

pub line_feed-HasSize : (t : Terminal) → IsPlaced t → HasSize t → HasSize (line_feed t)
unfolding line_feed
line_feed-HasSize t p h = elim (Bool-cases (t.cur.y == t.bot)) [
  | inl e ↦ rw (e) (scroll_up-HasSize 1 t p h)
  | inr e ↦
      rw (e) (elim (Bool-cases (ltb t.cur.y (t.rows - 1))) [ inl f ↦ rw (f) h | inr f ↦ rw (f) h ])
]

pub reverse_index-HasSize : (t : Terminal) → IsPlaced t → HasSize t → HasSize (reverse_index t)
unfolding reverse_index
reverse_index-HasSize t p h = elim (Bool-cases (t.cur.y == t.top)) [
  | inl e ↦ rw (e) (scroll_down-HasSize 1 t p h)
  | inr e ↦ rw (e) (elim (Bool-cases (ltb 0 t.cur.y)) [ inl f ↦ rw (f) h | inr f ↦ rw (f) h ])
]

-- A change of one row that keeps its length.
pub row_kept :
    (y : ℕ) (f : Row → Row) (t : Terminal)
    → ((r : Row) → length r ≡ t.cols → length (f r) ≡ t.cols)
    → HasSize t
    → HasSize (with_grid t (map_row y f (grid t)))
row_kept y f t k h =
    let g = grid-IsGrid t h in
    with_grid-HasSize t _
      (record {
        tall = length-map_row y f (grid t) ∙ g.tall;
        wide = rows_wide-map_row t.cols y f (grid t) k g.wide;
      })
      h

join_at-HasSize :
    (mark : List ℕ) (o : Option ℕ) (t : Terminal) → HasSize t → HasSize (join_at mark o t)
unfolding join_at
join_at-HasSize mark none t h = h
join_at-HasSize mark (some x) t h =
    row_kept t.cur.y (set_cell x (join_cell mark)) t
      (λ r e. length-set_cell x (join_cell mark) r ∙ e) h

blank_here-HasSize : (t : Terminal) → HasSize t → HasSize (blank_here t)
unfolding blank_here
blank_here-HasSize t h =
    row_kept t.cur.y (blank_cell t.cur.x (blank t.cur.attr)) t
      (λ r e. length-set r t.cur.x (blank t.cur.attr) ∙ e) h

take_wrap-HasSize : (t : Terminal) → IsPlaced t → HasSize t → HasSize (take_wrap t)
unfolding take_wrap
take_wrap-HasSize t p h = elim (Bool-cases (t.cur.wrap_pending && t.modes.auto_wrap)) [
  | inl e ↦ rw (e) (line_feed-HasSize (at_x t 0) (ground arith) h)
  | inr e ↦ rw (e) h
]

make_room-HasSize :
    (w : ℕ) (t u : Terminal) → IsPlaced t → HasSize t → make_room w t ≡ some u → HasSize u
unfolding make_room
make_room-HasSize w t u p h e =
    let here =
      line_feed-HasSize (at_x (blank_here t) 0) (blank_here-IsPlaced t p)
        (blank_here-HasSize t h) in
    ground arith

advance-screens : (w : ℕ) (t : Terminal) → screens (advance w t) ≡ screens t
unfolding advance
advance-screens w t = ground arith

place-HasSize : (s : List ℕ) (w : ℕ) (t : Terminal) → HasSize t → HasSize (place s w t)
unfolding place
place-HasSize s w t h =
    let k =
      row_kept t.cur.y (put_char t.modes.insert t.cur.x w s t.cur.attr) t
        (λ r e. length-put_char t.modes.insert t.cur.x w s t.cur.attr r ∙ e) h in
    same_size _ _ (advance-screens w _) k

pub print-HasSize :
    (s : List ℕ) (w : ℕ) (t : Terminal) → IsPlaced t → HasSize t → HasSize (print s w t)
unfolding print join_mark
print-HasSize s w t p h = elim (Bool-cases (w == 0)) [
  | inl e ↦ rw (e) (join_at-HasSize s _ t h)
  | inr e ↦ rw (e) (elim (Bool-cases (w == 2 && ltb t.cols 2)) [
    | inl e' ↦ rw (e') h
    | inr e' ↦ rw (e') (elim (Option-cases (make_room w (take_wrap t))) [
      | inl n ↦ rw (n) (take_wrap-HasSize t p h)
      | inr (u, n) ↦ rw (n) (
          place-HasSize s w u
            (make_room-HasSize w _ u (take_wrap-IsPlaced t p) (take_wrap-HasSize t p h) n))
    ])
  ])
]
