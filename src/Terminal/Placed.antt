-- ===== src/Terminal/Placed.antt =====
-- The cursor, the saved cursor and the scroll region stay on the screen: internal/termstate.
pub mod Commands
pub mod Bytes
use pomar.Prelude.{
  ℕ, zero, suc, ◌+◌, ◌-◌, ◌<◌, ◌≤◌, ◌≡◌, refl, Bool, true, false, ◌&&◌, ◌||◌, not, List, [], ◌∷◌,
  ◌++◌, Option, none, some, leb, ltb, ◌==◌, if◌then◌else◌, length, set, arith, Bool-cases,
  Option-cases, ◌⊎◌, inl, inr, ◌∙◌, sym,
}
use mathlib.Core.Path.{subst}
use pomar.Terminal.{Terminal, Cursor, Row, Grid, Cell, new, reset, grid, with_grid}
use pomar.Terminal.Screen.{
  clamp, push_history, scroll_once, scroll_up_by, scroll_up, scroll_up_no_history, scroll_down_by,
  scroll_down, at_x, at_y, line_feed, reverse_index,
}
use pomar.Terminal.Screen.{map_row}
use pomar.Terminal.{blank}
use pomar.Terminal.Print.{
  join_at, blank_here, join_mark, joined_column, take_wrap, make_room, advance, place, print,
}

abbrev pub On : ℕ → ℕ → Cursor → Type 0
On cols rows c = (c.x < cols) × (c.y < rows)

-- The columns, rows, cursors and region of a terminal.
pub record Frame : Type 0 where
  pub cols : ℕ
  pub rows : ℕ
  pub cur : Cursor
  pub saved : Cursor
  pub top : ℕ
  pub bot : ℕ

abbrev pub frame : Terminal → Frame
frame t = record {
  cols = t.cols;
  rows = t.rows;
  cur = t.cur;
  saved = t.saved;
  top = t.top;
  bot = t.bot;
}

abbrev pub InFrame : Frame → Type 0
InFrame f = On f.cols f.rows f.cur × On f.cols f.rows f.saved × (f.top ≤ f.bot) × (f.bot < f.rows)

abbrev pub IsPlaced : Terminal → Type 0
IsPlaced t = InFrame (frame t)

-- Changes of the screen and the history leave the frame.
pub with_grid-frame : (t : Terminal) (g : Grid) → frame (with_grid t g) ≡ frame t
unfolding with_grid
with_grid-frame t g = ground arith

pub push_history-frame : (r : Row) (t : Terminal) → frame (push_history r t) ≡ frame t
unfolding push_history
push_history-frame r t = ground arith

pub scroll_once-frame : (keep : Bool) (t : Terminal) → frame (scroll_once keep t) ≡ frame t
unfolding scroll_once
scroll_once-frame keep t = elim (Bool-cases (keep && not t.alt_active && t.top == 0)) [
  | inl e ↦ rw (e) (with_grid-frame _ _ ∙ push_history-frame _ t)
  | inr e ↦ rw (e) (with_grid-frame t _)
]

pub scroll_up_by-frame :
    (keep : Bool) (n : ℕ) (t : Terminal) → frame (scroll_up_by keep n t) ≡ frame t
unfolding scroll_up_by
scroll_up_by-frame keep zero t = refl
scroll_up_by-frame keep (suc n) t =
    scroll_up_by-frame keep n (scroll_once keep t) ∙ scroll_once-frame keep t

pub scroll_up-frame : (n : ℕ) (t : Terminal) → frame (scroll_up n t) ≡ frame t
unfolding scroll_up
scroll_up-frame n t = scroll_up_by-frame true _ t

pub scroll_up_no_history-frame : (n : ℕ) (t : Terminal) → frame (scroll_up_no_history n t) ≡ frame t
unfolding scroll_up_no_history
scroll_up_no_history-frame n t = scroll_up_by-frame false _ t

pub scroll_down_by-frame : (n : ℕ) (t : Terminal) → frame (scroll_down_by n t) ≡ frame t
unfolding scroll_down_by
scroll_down_by-frame zero t = refl
scroll_down_by-frame (suc n) t = scroll_down_by-frame n _ ∙ with_grid-frame t _

pub scroll_down-frame : (n : ℕ) (t : Terminal) → frame (scroll_down n t) ≡ frame t
unfolding scroll_down
scroll_down-frame n t = scroll_down_by-frame _ t

pub keeps : {f g : Frame} → g ≡ f → InFrame f → InFrame g
keeps e h = subst InFrame (sym e) h

pub line_feed-IsPlaced : (t : Terminal) → IsPlaced t → IsPlaced (line_feed t)
unfolding line_feed
line_feed-IsPlaced t h = elim (Bool-cases (t.cur.y == t.bot)) [
  | inl e ↦ rw (e) (keeps (scroll_up-frame 1 t) h)
  | inr e ↦ rw (e) (ground arith)
]

pub reverse_index-IsPlaced : (t : Terminal) → IsPlaced t → IsPlaced (reverse_index t)
unfolding reverse_index
reverse_index-IsPlaced t h = elim (Bool-cases (t.cur.y == t.top)) [
  | inl e ↦ rw (e) (keeps (scroll_down-frame 1 t) h)
  | inr e ↦ rw (e) (ground arith)
]

-- `print`
pub join_at-frame :
    (mark : List ℕ) (o : Option ℕ) (t : Terminal) → frame (join_at mark o t) ≡ frame t
unfolding join_at
join_at-frame mark none t = refl
join_at-frame mark (some x) t = with_grid-frame t _

pub blank_here-frame : (t : Terminal) → frame (blank_here t) ≡ frame t
unfolding blank_here
blank_here-frame t = with_grid-frame t _

pub blank_here-IsPlaced : (t : Terminal) → IsPlaced t → IsPlaced (at_x (blank_here t) 0)
blank_here-IsPlaced t h = ground (arith, keeps (blank_here-frame t) h)

pub take_wrap-IsPlaced : (t : Terminal) → IsPlaced t → IsPlaced (take_wrap t)
unfolding take_wrap
take_wrap-IsPlaced t h = elim (Bool-cases (t.cur.wrap_pending && t.modes.auto_wrap)) [
  | inl e ↦ rw (e) (line_feed-IsPlaced (at_x t 0) (ground arith))
  | inr e ↦ rw (e) h
]

pub make_room-IsPlaced : (w : ℕ) (t u : Terminal) → IsPlaced t → make_room w t ≡ some u → IsPlaced u
unfolding make_room
make_room-IsPlaced w t u h e =
    let here = line_feed-IsPlaced (at_x (blank_here t) 0) (blank_here-IsPlaced t h) in ground arith

advance-IsPlaced : (w : ℕ) (t : Terminal) → IsPlaced t → IsPlaced (advance w t)
unfolding advance
advance-IsPlaced w t h = ground arith

pub place-IsPlaced : (s : List ℕ) (w : ℕ) (t : Terminal) → IsPlaced t → IsPlaced (place s w t)
unfolding place
place-IsPlaced s w t h = advance-IsPlaced w _ (keeps (with_grid-frame t _) h)

pub print-IsPlaced : (s : List ℕ) (w : ℕ) (t : Terminal) → IsPlaced t → IsPlaced (print s w t)
unfolding print join_mark
print-IsPlaced s w t h = elim (Bool-cases (w == 0)) [
  | inl e ↦ rw (e) (keeps (join_at-frame s _ t) h)
  | inr e ↦ rw (e) (elim (Bool-cases (w == 2 && ltb t.cols 2)) [
    | inl e' ↦ rw (e') h
    | inr e' ↦ rw (e') (elim (Option-cases (make_room w (take_wrap t))) [
      | inl n ↦ rw (n) (take_wrap-IsPlaced t h)
      | inr (u, n) ↦
          rw (n) (place-IsPlaced s w u (make_room-IsPlaced w _ u (take_wrap-IsPlaced t h) n))
    ])
  ])
]
