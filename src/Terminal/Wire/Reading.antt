-- ===== src/Terminal/Wire/Reading.antt =====
-- What the parser of internal/termstate holds stays through each command to the terminal.
use pomar.Prelude.{
  ℕ, zero, suc, ◌≡◌, refl, Bool, true, false, ◌&&◌, not, List, Option, none, some, ltb, ◌==◌, arith,
  ◌∙◌, Bool-cases, Option-cases, inl, inr,
}
use pomar.Terminal.{Terminal, ParserState, Row, Grid, grid, with_grid}
use pomar.Terminal.Screen.{
  push_history, scroll_once, scroll_up_by, scroll_up, scroll_up_no_history, scroll_down_by,
  scroll_down, at_x, line_feed, reverse_index, map_row,
}
use pomar.Terminal.Print.{
  join_at, blank_here, join_mark, take_wrap, make_room, advance, place, print, put_char,
}

-- The state of the parser, and the bytes of a sequence or a character in progress.
pub record Reading : Type 0 where
  pub state : ParserState
  pub seq : List ℕ
  pub utf8 : List ℕ

abbrev pub reading : Terminal → Reading
reading t = record { state = t.p.state; seq = t.p.seq; utf8 = t.p.utf8 }

pub with_grid-reading : (t : Terminal) (g : Grid) → reading (with_grid t g) ≡ reading t
unfolding with_grid
with_grid-reading t g = ground arith

push_history-reading : (r : Row) (t : Terminal) → reading (push_history r t) ≡ reading t
unfolding push_history
push_history-reading r t = ground arith

scroll_once-reading : (keep : Bool) (t : Terminal) → reading (scroll_once keep t) ≡ reading t
unfolding scroll_once
scroll_once-reading keep t = elim (Bool-cases (keep && not t.alt_active && t.top == 0)) [
  | inl e ↦ rw e (with_grid-reading _ _ ∙ push_history-reading _ t)
  | inr e ↦ rw e (with_grid-reading t _)
]

scroll_up_by-reading :
    (keep : Bool) (n : ℕ) (t : Terminal) → reading (scroll_up_by keep n t) ≡ reading t
unfolding scroll_up_by
scroll_up_by-reading keep zero t = refl
scroll_up_by-reading keep (suc n) t =
    scroll_up_by-reading keep n (scroll_once keep t) ∙ scroll_once-reading keep t

pub scroll_up-reading : (n : ℕ) (t : Terminal) → reading (scroll_up n t) ≡ reading t
unfolding scroll_up
scroll_up-reading n t = scroll_up_by-reading true _ t

pub scroll_up_no_history-reading :
    (n : ℕ) (t : Terminal) → reading (scroll_up_no_history n t) ≡ reading t
unfolding scroll_up_no_history
scroll_up_no_history-reading n t = scroll_up_by-reading false _ t

scroll_down_by-reading : (n : ℕ) (t : Terminal) → reading (scroll_down_by n t) ≡ reading t
unfolding scroll_down_by
scroll_down_by-reading zero t = refl
scroll_down_by-reading (suc n) t = scroll_down_by-reading n _ ∙ with_grid-reading t _

pub scroll_down-reading : (n : ℕ) (t : Terminal) → reading (scroll_down n t) ≡ reading t
unfolding scroll_down
scroll_down-reading n t = scroll_down_by-reading _ t

pub line_feed-reading : (t : Terminal) → reading (line_feed t) ≡ reading t
unfolding line_feed
line_feed-reading t = ground (arith, scroll_up-reading 1 t)

pub reverse_index-reading : (t : Terminal) → reading (reverse_index t) ≡ reading t
unfolding reverse_index
reverse_index-reading t = ground (arith, scroll_down-reading 1 t)

-- `print`
join_at-reading :
    (mark : List ℕ) (o : Option ℕ) (t : Terminal) → reading (join_at mark o t) ≡ reading t
unfolding join_at
join_at-reading mark none t = refl
join_at-reading mark (some x) t = with_grid-reading t _

blank_here-reading : (t : Terminal) → reading (blank_here t) ≡ reading t
unfolding blank_here
blank_here-reading t = with_grid-reading t _

take_wrap-reading : (t : Terminal) → reading (take_wrap t) ≡ reading t
unfolding take_wrap
take_wrap-reading t = ground (arith, line_feed-reading (at_x t 0))

make_room-reading : (w : ℕ) (t u : Terminal) → make_room w t ≡ some u → reading u ≡ reading t
unfolding make_room
make_room-reading w t u e =
    ground (arith, blank_here-reading t, line_feed-reading (at_x (blank_here t) 0))

place-reading : (s : List ℕ) (w : ℕ) (t : Terminal) → reading (place s w t) ≡ reading t
unfolding place advance
place-reading s w t =
    let e =
      with_grid-reading t
        (map_row t.cur.y (put_char t.modes.insert t.cur.x w s t.cur.attr) (grid t)) in
    ground arith

pub print-reading : (s : List ℕ) (w : ℕ) (t : Terminal) → reading (print s w t) ≡ reading t
unfolding print join_mark
print-reading s w t = elim (Bool-cases (w == 0)) [
  | inl e ↦ rw e (join_at-reading s _ t)
  | inr e ↦ rw e (elim (Bool-cases (w == 2 && ltb t.cols 2)) [
    | inl e' ↦ rw e' refl
    | inr e' ↦ rw e' (elim (Option-cases (make_room w (take_wrap t))) [
      | inl n ↦ rw n (take_wrap-reading t)
      | inr (u, n) ↦ rw n (place-reading s w u ∙ make_room-reading w _ u n ∙ take_wrap-reading t)
    ])
  ])
]
