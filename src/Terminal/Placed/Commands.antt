-- ===== src/Terminal/Placed/Commands.antt =====
-- Modes, moves and edits keep the cursors and the region on the screen: `setPrivate`, `moveTo` and the
-- control sequences of internal/termstate/parser.go.
use pomar.Prelude.{
  ℕ, zero, suc, ◌+◌, ◌-◌, ◌<◌, ◌≤◌, ◌≡◌, refl, Bool, true, false, List, [], ◌∷◌, Option, none, some,
  ◌==◌, arith, ◌∙◌, ◌^◌,
}
use pomar.Terminal.{Terminal}
use pomar.Terminal.Screen.{clamp}
use pomar.Terminal.Controls.{
  save_cursor, restore_cursor, move_to, top0, bot0, find_stop, next_tab, prev_tab, switch_screen,
  set_private, soft_reset,
}
use pomar.Terminal.Edit.{
  erase_line, erase_display, insert_cells, delete_cells, erase_cells, insert_lines, delete_lines,
}
use pomar.Terminal.Edit.{erase_below, erase_above, erase_all}
use pomar.Terminal.Text.{arg, params}
use pomar.Terminal.Csi.{
  cursor_up, cursor_down, cursor_right, cursor_left, cursor_column, line_start, scroll_down_bare,
  save_bare, mended_line, Sequence, with_inter, with_prefix, set_privates, tabs_on, tabs_back,
  print_again, repeat, clear_tabs, set_ansi, set_region, moved, edited, answered, commanded,
  or_forward, unprefixed, dispatch, csi_dispatch, report_mode, parsed,
}
use pomar.Terminal.Placed.{
  frame, IsPlaced, keeps, with_grid-frame, scroll_up-frame, scroll_up_no_history-frame,
  scroll_down-frame, print-IsPlaced,
}

move_to-IsPlaced : (x y : ℕ) (t : Terminal) → IsPlaced t → IsPlaced (move_to x y t)
unfolding move_to clamp
move_to-IsPlaced x y t h = ground arith

restore_cursor-IsPlaced : (t : Terminal) → IsPlaced t → IsPlaced (restore_cursor t)
unfolding restore_cursor
restore_cursor-IsPlaced t h = ground arith

find_stop-bound : (n i : ℕ) (t : Terminal) → n + i ≤ t.cols → 0 < t.cols → find_stop n i t < t.cols
unfolding find_stop
find_stop-bound zero i t h p = ground arith
find_stop-bound (suc n) i t h p = ground (arith, find_stop-bound n (i + 1) t)

pub next_tab-bound : (t : Terminal) (x : ℕ) → 0 < t.cols → x < t.cols → next_tab t x < t.cols
unfolding next_tab
next_tab-bound t x p q = find_stop-bound _ _ t (omega arith) p

prev_tab-bound : (t : Terminal) (x : ℕ) → x < t.cols → prev_tab t x < t.cols
unfolding prev_tab
prev_tab-bound t zero h = h
prev_tab-bound t (suc i) h = ground (arith, prev_tab-bound t i)

tabs_on-IsPlaced : (n : ℕ) (t : Terminal) → IsPlaced t → IsPlaced (tabs_on n t)
unfolding tabs_on
tabs_on-IsPlaced zero t h = h
tabs_on-IsPlaced (suc n) t h = tabs_on-IsPlaced n _ (ground (arith, next_tab-bound t t.cur.x))

tabs_back-IsPlaced : (n : ℕ) (t : Terminal) → IsPlaced t → IsPlaced (tabs_back n t)
unfolding tabs_back
tabs_back-IsPlaced zero t h = h
tabs_back-IsPlaced (suc n) t h = tabs_back-IsPlaced n _ (ground (arith, prev_tab-bound t t.cur.x))

switch_screen-IsPlaced :
    (alt save : Bool) (t : Terminal) → IsPlaced t → IsPlaced (switch_screen alt save t)
unfolding switch_screen restore_cursor save_cursor
switch_screen-IsPlaced alt save t h = ground arith

set_private-IsPlaced :
    (m : ℕ) (on : Bool) (t : Terminal) → IsPlaced t → IsPlaced (set_private m on t)
unfolding set_private save_cursor
set_private-IsPlaced m on t h = ground (
  arith,
  move_to-IsPlaced 0 0 (record t { cur = record t.cur { origin = on } }) h,
  switch_screen-IsPlaced on false t h,
  switch_screen-IsPlaced on true t h,
  restore_cursor-IsPlaced t h,
)

pub set_privates-IsPlaced :
    (ms : List ℕ) (on : Bool) (t : Terminal) → IsPlaced t → IsPlaced (set_privates ms on t)
unfolding set_privates
set_privates-IsPlaced [] on t h = h
set_privates-IsPlaced (m ∷ ms) on t h =
    set_privates-IsPlaced ms on _ (set_private-IsPlaced m on t h)

set_ansi-frame : (ms : List ℕ) (on : Bool) (t : Terminal) → frame (set_ansi ms on t) ≡ frame t
unfolding set_ansi
set_ansi-frame [] on t = refl
set_ansi-frame (m ∷ ms) on t = set_ansi-frame ms on _ ∙ ground arith

erase_line-frame : (mode : ℕ) (t : Terminal) → frame (erase_line mode t) ≡ frame t
unfolding erase_line
erase_line-frame mode t = with_grid-frame t _

erase_below-frame : (t : Terminal) → frame (erase_below t) ≡ frame t
unfolding erase_below
erase_below-frame t = with_grid-frame _ _ ∙ erase_line-frame 0 t

erase_above-frame : (t : Terminal) → frame (erase_above t) ≡ frame t
unfolding erase_above
erase_above-frame t = with_grid-frame _ _ ∙ erase_line-frame 1 t

erase_all-frame : (t : Terminal) → frame (erase_all t) ≡ frame t
unfolding erase_all
erase_all-frame t = with_grid-frame t _

erase_display-frame : (mode : ℕ) (t : Terminal) → frame (erase_display mode t) ≡ frame t
unfolding erase_display
erase_display-frame mode t =
    ground (arith, erase_below-frame t, erase_above-frame t, erase_all-frame t)

insert_lines-IsPlaced : (n : ℕ) (t : Terminal) → IsPlaced t → IsPlaced (insert_lines n t)
unfolding insert_lines
insert_lines-IsPlaced n t h =
    let e = scroll_down-frame n (record t { top = t.cur.y }) in ground arith

delete_lines-IsPlaced : (n : ℕ) (t : Terminal) → IsPlaced t → IsPlaced (delete_lines n t)
unfolding delete_lines
delete_lines-IsPlaced n t h =
    let e = scroll_up_no_history-frame n (record t { top = t.cur.y }) in ground arith

insert_cells-frame : (n : ℕ) (t : Terminal) → frame (insert_cells n t) ≡ frame t
unfolding insert_cells
insert_cells-frame n t = with_grid-frame t _

delete_cells-frame : (n : ℕ) (t : Terminal) → frame (delete_cells n t) ≡ frame t
unfolding delete_cells
delete_cells-frame n t = with_grid-frame t _

erase_cells-frame : (n : ℕ) (t : Terminal) → frame (erase_cells n t) ≡ frame t
unfolding erase_cells
erase_cells-frame n t = with_grid-frame t _

clear_tabs-frame : (n : ℕ) (t : Terminal) → frame (clear_tabs n t) ≡ frame t
unfolding clear_tabs
clear_tabs-frame n t = ground arith

pub print_again-IsPlaced :
    (is_mark : ℕ → Bool) (s : List ℕ) (t : Terminal)
    → IsPlaced t
    → IsPlaced (print_again is_mark s t)
unfolding print_again
print_again-IsPlaced is_mark [] t h = h
print_again-IsPlaced is_mark (r ∷ s) t h = print-IsPlaced (r ∷ s) _ t h

repeat-IsPlaced :
    (is_mark : ℕ → Bool) (n : ℕ) (t : Terminal) → IsPlaced t → IsPlaced (repeat is_mark n t)
unfolding repeat
repeat-IsPlaced is_mark zero t h = h
repeat-IsPlaced is_mark (suc n) t h =
    repeat-IsPlaced is_mark n _ (print_again-IsPlaced is_mark t.last t h)

set_region-IsPlaced : (top bot : ℕ) (t : Terminal) → IsPlaced t → IsPlaced (set_region top bot t)
unfolding set_region move_to clamp
set_region-IsPlaced top bot t h = ground arith

cursor_up-IsPlaced : (n : ℕ) (t : Terminal) → IsPlaced t → IsPlaced (cursor_up n t)
unfolding cursor_up top0 clamp
cursor_up-IsPlaced n t h = ground arith

cursor_down-IsPlaced : (n : ℕ) (t : Terminal) → IsPlaced t → IsPlaced (cursor_down n t)
unfolding cursor_down bot0 clamp
cursor_down-IsPlaced n t h = ground arith

cursor_right-IsPlaced : (n : ℕ) (t : Terminal) → IsPlaced t → IsPlaced (cursor_right n t)
unfolding cursor_right clamp
cursor_right-IsPlaced n t h = ground arith

cursor_left-IsPlaced : (n : ℕ) (t : Terminal) → IsPlaced t → IsPlaced (cursor_left n t)
unfolding cursor_left clamp
cursor_left-IsPlaced n t h = ground arith

cursor_column-IsPlaced : (n : ℕ) (t : Terminal) → IsPlaced t → IsPlaced (cursor_column n t)
unfolding cursor_column clamp
cursor_column-IsPlaced n t h = ground arith

line_start-IsPlaced : (t : Terminal) → IsPlaced t → IsPlaced (line_start t)
unfolding line_start
line_start-IsPlaced t h = ground arith

scroll_down_bare-frame :
    (ps : List ℕ) (n : ℕ) (t : Terminal) → frame (scroll_down_bare ps n t) ≡ frame t
unfolding scroll_down_bare
scroll_down_bare-frame ps n t = ground (arith, scroll_down-frame n t)

mended_line-frame : (mode : ℕ) (t : Terminal) → frame (mended_line mode t) ≡ frame t
unfolding mended_line
mended_line-frame mode t = with_grid-frame _ _ ∙ erase_line-frame mode t

save_bare-IsPlaced : (ps : List ℕ) (t : Terminal) → IsPlaced t → IsPlaced (save_bare ps t)
unfolding save_bare save_cursor
save_bare-IsPlaced ps t h = ground arith

edited-IsPlaced :
    (is_mark : ℕ → Bool) (final : ℕ) (ps : List ℕ) (t : Terminal)
    → IsPlaced t
    → IsPlaced (edited is_mark final ps t)
unfolding edited
edited-IsPlaced is_mark final ps t h =
    let n = arg ps 0 1 in
    let e1 = insert_cells-frame n t in
    let e2 = erase_display-frame (arg ps 0 0) t in
    let e3 = mended_line-frame (arg ps 0 0) t in
    let e4 = insert_lines-IsPlaced n t h in
    let e5 = delete_lines-IsPlaced n t h in
    let e6 = delete_cells-frame n t in
    let e7 = scroll_up-frame n t in
    let e8 = scroll_down_bare-frame ps n t in
    let e9 = erase_cells-frame n t in
    let e10 = repeat-IsPlaced is_mark (clamp n 1 (2 ^ 16)) t h in
    let e11 = clear_tabs-frame (arg ps 0 0) t in
    let e12 = set_ansi-frame ps (final == b'h') t in
    let e13 = set_region-IsPlaced (n - 1) (arg ps 1 t.rows - 1) t h in
    let e14 = save_bare-IsPlaced ps t h in let e15 = restore_cursor-IsPlaced t h in ground arith

moved-IsPlaced :
    (is_mark : ℕ → Bool) (final : ℕ) (ps : List ℕ) (t : Terminal)
    → IsPlaced t
    → IsPlaced (moved is_mark final ps t)
unfolding moved
moved-IsPlaced is_mark final ps t h =
    let n = arg ps 0 1 in
    let e1 = cursor_up-IsPlaced n t h in
    let e2 = cursor_down-IsPlaced n t h in
    let e3 = cursor_right-IsPlaced n t h in
    let e4 = cursor_left-IsPlaced n t h in
    let e5 = line_start-IsPlaced (cursor_down n t) e2 in
    let e6 = line_start-IsPlaced (cursor_up n t) e1 in
    let e7 = cursor_column-IsPlaced n t h in
    let e8 = move_to-IsPlaced (arg ps 1 1 - 1) (n - 1) t h in
    let e9 = tabs_on-IsPlaced n t h in
    let e10 = tabs_back-IsPlaced n t h in
    let e11 = move_to-IsPlaced t.cur.x (n - 1) t h in
    let e12 = edited-IsPlaced is_mark final ps t h in ground arith

answered-frame :
    (final : ℕ) (ps : List ℕ) (t u : Terminal) → answered final ps t ≡ some u → frame u ≡ frame t
unfolding answered
answered-frame final ps t u h = ground arith

with_inter-IsPlaced :
    (s : Sequence) (ps : List ℕ) (t : Terminal) → IsPlaced t → IsPlaced (with_inter s ps t).0
unfolding with_inter soft_reset report_mode
with_inter-IsPlaced s ps t h = ground arith

with_prefix-IsPlaced :
    (s : Sequence) (ps : List ℕ) (t : Terminal) → IsPlaced t → IsPlaced (with_prefix s ps t).0
unfolding with_prefix
with_prefix-IsPlaced s ps t h =
    let e = set_privates-IsPlaced ps (s.final == b'h') t h in ground arith

commanded-IsPlaced :
    (is_mark : ℕ → Bool) (s : Sequence) (ps : List ℕ) (t : Terminal)
    → IsPlaced t
    → IsPlaced (commanded is_mark s ps t)
unfolding commanded
commanded-IsPlaced is_mark s ps t h = let m = moved-IsPlaced is_mark s.final ps t h in ground arith

or_forward-IsPlaced :
    (o : Option Terminal) (t u : Terminal)
    → ((v : Terminal) → o ≡ some v → frame v ≡ frame t)
    → IsPlaced t
    → IsPlaced u
    → IsPlaced (or_forward o u).0
unfolding or_forward
or_forward-IsPlaced none t u f h k = k
or_forward-IsPlaced (some v) t u f h k = keeps (f v refl) h

unprefixed-IsPlaced :
    (is_mark : ℕ → Bool) (s : Sequence) (ps : List ℕ) (t : Terminal)
    → IsPlaced t
    → IsPlaced (unprefixed is_mark s ps t).0
unfolding unprefixed
unprefixed-IsPlaced is_mark s ps t h =
    or_forward-IsPlaced (answered s.final ps t) t _ (answered-frame s.final ps t) h
      (commanded-IsPlaced is_mark s ps t h)

pub csi_dispatch-IsPlaced :
    (is_mark : ℕ → Bool) (seq : List ℕ) (t : Terminal)
    → IsPlaced t
    → IsPlaced (csi_dispatch is_mark seq t).0
unfolding csi_dispatch dispatch
csi_dispatch-IsPlaced is_mark seq t h =
    let s = parsed seq in
    let e1 = with_inter-IsPlaced s (params s.body) t h in
    let e2 = with_prefix-IsPlaced s (params s.body) t h in
    let e3 = unprefixed-IsPlaced is_mark s (params s.body) t h in ground arith
