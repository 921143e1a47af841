-- ===== src/Terminal/Sized/Commands.antt =====
-- Both screens keep their rows and columns: the control sequences of internal/termstate/parser.go.
use pomar.Prelude.{
  ℕ, zero, suc, ◌+◌, ◌-◌, ◌≤◌, ◌^◌, ◌≡◌, refl, ◌∙◌, Bool, true, false, ◌&&◌, List, [], ◌∷◌, Option,
  none, some, leb, ◌==◌, arith, Bool-cases, inl, inr, length, map, length-set, length-replicate,
  length-map, replicate,
}
use pomar.Terminal.{Cell, Row, Attr, Terminal, plain, blank, new_row, new_grid, grid, with_grid}
use pomar.Terminal.Rows.{mend}
use pomar.Terminal.Screen.{clamp}
use pomar.Terminal.Edit.{
  erase_from, erase_to, erase_line, wipe_rows, erase_below, erase_above, erase_all, erase_display,
  span, insert_cells, delete_cells, erase_cells, insert_lines, delete_lines, align,
}
use pomar.Terminal.Controls.{
  save_cursor, restore_cursor, move_to, switch_screen, set_private, soft_reset,
}
use pomar.Terminal.Text.{arg, params}
use pomar.Terminal.Csi.{
  cursor_up, cursor_down, cursor_right, cursor_left, cursor_column, line_start, scroll_down_bare,
  save_bare, mended_line, Sequence, with_inter, with_prefix, set_privates, tabs_on, tabs_back,
  print_again, repeat, clear_tabs, set_ansi, set_region, moved, edited, answered, commanded,
  or_forward, unprefixed, dispatch, csi_dispatch, report_mode, parsed,
}
use pomar.Terminal.Placed.{IsPlaced}
use pomar.Terminal.Placed.Commands.{print_again-IsPlaced}
use pomar.Terminal.Sized.{
  IsGrid, rows_wide-map, rows_wide-wipe_rows, rows_wide-replicate, length-wipe_rows, length-mend,
  length-shift_right, length-shift_left, length-fill, length-erase_row,
}
use pomar.Terminal.Sized.Screens.{
  screens, HasSize, same_size, grid-IsGrid, with_grid-HasSize, row_kept, scroll_up-HasSize,
  scroll_down-HasSize, scroll_up_no_history-HasSize, print-HasSize,
}

erase_line-HasSize : (mode : ℕ) (t : Terminal) → HasSize t → HasSize (erase_line mode t)
unfolding erase_line
erase_line-HasSize mode t h =
    row_kept t.cur.y _ t
      (λ r e.
        length-erase_row (erase_from mode t.cur.x) (erase_to mode t.cur.x t.cols) t.cur.attr t.cols
          r
        ∙ e)
      h

rows_wiped :
    (y n : ℕ) (a : Attr) (t : Terminal)
    → HasSize t
    → HasSize (with_grid t (wipe_rows y n a (grid t)))
rows_wiped y n a t h =
    let g = grid-IsGrid t h in
    with_grid-HasSize t _
      (record {
        tall = length-wipe_rows y n a (grid t) ∙ g.tall;
        wide = rows_wide-wipe_rows t.cols y n a (grid t) g.wide;
      })
      h

erase_below-HasSize : (t : Terminal) → HasSize t → HasSize (erase_below t)
unfolding erase_below
erase_below-HasSize t h = rows_wiped _ _ t.cur.attr (erase_line 0 t) (erase_line-HasSize 0 t h)

erase_above-HasSize : (t : Terminal) → HasSize t → HasSize (erase_above t)
unfolding erase_above
erase_above-HasSize t h = rows_wiped _ _ t.cur.attr (erase_line 1 t) (erase_line-HasSize 1 t h)

-- A change of every cell.
cells_kept :
    (f : Cell → Cell) (t : Terminal)
    → HasSize t
    → HasSize (with_grid t (map (λ (r : Row). map f r) (grid t)))
cells_kept f t h =
    let g = grid-IsGrid t h in
    with_grid-HasSize t _
      (record {
        tall = length-map (grid t) (λ (r : Row). map f r) ∙ g.tall;
        wide =
            rows_wide-map t.cols t.cols (λ (r : Row). map f r) (grid t) (λ r e. length-map r f ∙ e)
              g.wide;
      })
      h

erase_all-HasSize : (t : Terminal) → HasSize t → HasSize (erase_all t)
unfolding erase_all
erase_all-HasSize t h = cells_kept (λ (c : Cell). blank t.cur.attr) t h

pub align-HasSize : (t : Terminal) → HasSize t → HasSize (align t)
unfolding align
align-HasSize t h = cells_kept _ t h

erase_display-HasSize : (mode : ℕ) (t : Terminal) → HasSize t → HasSize (erase_display mode t)
unfolding erase_display
erase_display-HasSize mode t h =
    let e1 = erase_below-HasSize t h in
    let e2 = erase_above-HasSize t h in let e3 = erase_all-HasSize t h in ground arith

insert_cells-HasSize : (n : ℕ) (t : Terminal) → HasSize t → HasSize (insert_cells n t)
unfolding insert_cells
insert_cells-HasSize n t h =
    row_kept t.cur.y _ t
      (λ r e.
        length-mend _
        ∙ length-fill t.cur.x (span n t) (blank t.cur.attr) _
        ∙ length-shift_right t.cur.x (span n t) r
        ∙ e)
      h

span-bound : (n : ℕ) (t : Terminal) → IsPlaced t → t.cur.x + span n t ≤ t.cols
unfolding clamp
span-bound n t p = ground arith

delete_cells-HasSize : (n : ℕ) (t : Terminal) → IsPlaced t → HasSize t → HasSize (delete_cells n t)
unfolding delete_cells
delete_cells-HasSize n t p h =
    row_kept t.cur.y _ t
      (λ r e.
        let b : t.cur.x + span n t ≤ length r = omega (arith, span-bound n t p, e) in
        length-mend _
        ∙ length-fill (t.cols - span n t) (span n t) (blank t.cur.attr) _
        ∙ length-shift_left t.cur.x (span n t) r b
        ∙ e)
      h

erase_cells-HasSize : (n : ℕ) (t : Terminal) → HasSize t → HasSize (erase_cells n t)
unfolding erase_cells
erase_cells-HasSize n t h =
    row_kept t.cur.y _ t
      (λ r e. length-mend _ ∙ length-fill t.cur.x (span n t) (blank t.cur.attr) r ∙ e) h

insert_lines-HasSize : (n : ℕ) (t : Terminal) → IsPlaced t → HasSize t → HasSize (insert_lines n t)
unfolding insert_lines
insert_lines-HasSize n t p h = elim (Bool-cases (leb t.top t.cur.y && leb t.cur.y t.bot)) [
  | inl e ↦ rw (e) (scroll_down-HasSize n (record t { top = t.cur.y }) (ground arith) h)
  | inr e ↦ rw (e) h
]

delete_lines-HasSize : (n : ℕ) (t : Terminal) → IsPlaced t → HasSize t → HasSize (delete_lines n t)
unfolding delete_lines
delete_lines-HasSize n t p h = elim (Bool-cases (leb t.top t.cur.y && leb t.cur.y t.bot)) [
  | inl e ↦ rw (e) (scroll_up_no_history-HasSize n (record t { top = t.cur.y }) (ground arith) h)
  | inr e ↦ rw (e) h
]

-- The moves of the cursor leave the screens.
moves_kept :
    (n : ℕ) (t : Terminal)
    → HasSize t
    → HasSize (cursor_up n t)
      × HasSize (cursor_down n t)
      × HasSize (cursor_right n t)
      × HasSize (cursor_left n t)
      × HasSize (cursor_column n t)
      × HasSize (line_start (cursor_down n t))
      × HasSize (line_start (cursor_up n t))
unfolding cursor_up cursor_down cursor_right cursor_left cursor_column line_start
moves_kept n t h = (h, h, h, h, h, h, h)

move_to-HasSize : (x y : ℕ) (t : Terminal) → HasSize t → HasSize (move_to x y t)
unfolding move_to
move_to-HasSize x y t h = h

tabs_on-HasSize : (n : ℕ) (t : Terminal) → HasSize t → HasSize (tabs_on n t)
unfolding tabs_on
tabs_on-HasSize zero t h = h
tabs_on-HasSize (suc n) t h = tabs_on-HasSize n _ h

tabs_back-HasSize : (n : ℕ) (t : Terminal) → HasSize t → HasSize (tabs_back n t)
unfolding tabs_back
tabs_back-HasSize zero t h = h
tabs_back-HasSize (suc n) t h = tabs_back-HasSize n _ h

restore_cursor-screens : (t : Terminal) → screens (restore_cursor t) ≡ screens t
unfolding restore_cursor
restore_cursor-screens t = ground arith

pub new_grid-IsGrid : (cols rows : ℕ) (a : Attr) → IsGrid cols rows (new_grid cols rows a)
unfolding new_grid new_row
new_grid-IsGrid cols rows a = record {
  tall = length-replicate rows (replicate cols (blank a));
  wide = rows_wide-replicate cols rows (replicate cols (blank a)) (length-replicate cols (blank a));
}

switch_screen-HasSize :
    (alt save_it : Bool) (t : Terminal) → HasSize t → HasSize (switch_screen alt save_it t)
unfolding switch_screen restore_cursor save_cursor
switch_screen-HasSize alt save_it t h = let n = new_grid-IsGrid t.cols t.rows plain in ground arith

set_private-HasSize : (m : ℕ) (on : Bool) (t : Terminal) → HasSize t → HasSize (set_private m on t)
unfolding set_private save_cursor
set_private-HasSize m on t h =
    let e1 = move_to-HasSize 0 0 (record t { cur = record t.cur { origin = on } }) h in
    let e2 = switch_screen-HasSize on false t h in
    let e3 = switch_screen-HasSize on true t h in
    let e4 = same_size (screens t) _ (restore_cursor-screens t) h in ground arith

set_privates-HasSize :
    (ms : List ℕ) (on : Bool) (t : Terminal) → HasSize t → HasSize (set_privates ms on t)
unfolding set_privates
set_privates-HasSize [] on t h = h
set_privates-HasSize (m ∷ ms) on t h = set_privates-HasSize ms on _ (set_private-HasSize m on t h)

set_ansi-screens : (ms : List ℕ) (on : Bool) (t : Terminal) → screens (set_ansi ms on t) ≡ screens t
unfolding set_ansi
set_ansi-screens [] on t = refl
set_ansi-screens (m ∷ ms) on t = set_ansi-screens ms on _ ∙ ground arith

clear_tabs-HasSize : (n : ℕ) (t : Terminal) → HasSize t → HasSize (clear_tabs n t)
unfolding clear_tabs
clear_tabs-HasSize n t h =
    ground (arith, length-set t.tabs t.cur.x false, length-map t.tabs (λ (b : Bool). false))

print_again-HasSize :
    (is_mark : ℕ → Bool) (s : List ℕ) (t : Terminal)
    → IsPlaced t
    → HasSize t
    → HasSize (print_again is_mark s t)
unfolding print_again
print_again-HasSize is_mark [] t p h = h
print_again-HasSize is_mark (r ∷ s) t p h = print-HasSize (r ∷ s) _ t p h

repeat-HasSize :
    (is_mark : ℕ → Bool) (n : ℕ) (t : Terminal)
    → IsPlaced t
    → HasSize t
    → HasSize (repeat is_mark n t)
unfolding repeat
repeat-HasSize is_mark zero t p h = h
repeat-HasSize is_mark (suc n) t p h =
    repeat-HasSize is_mark n _ (print_again-IsPlaced is_mark t.last t p)
      (print_again-HasSize is_mark t.last t p h)

set_region-screens : (top bot : ℕ) (t : Terminal) → screens (set_region top bot t) ≡ screens t
unfolding set_region move_to
set_region-screens top bot t = ground arith

scroll_down_bare-HasSize :
    (ps : List ℕ) (n : ℕ) (t : Terminal)
    → IsPlaced t
    → HasSize t
    → HasSize (scroll_down_bare ps n t)
unfolding scroll_down_bare
scroll_down_bare-HasSize ps n t p h = let e = scroll_down-HasSize n t p h in ground arith

save_bare-screens : (ps : List ℕ) (t : Terminal) → screens (save_bare ps t) ≡ screens t
unfolding save_bare save_cursor
save_bare-screens ps t = ground arith

mended_line-HasSize : (mode : ℕ) (t : Terminal) → HasSize t → HasSize (mended_line mode t)
unfolding mended_line
mended_line-HasSize mode t h =
    row_kept _ mend (erase_line mode t) (λ r e. length-mend r ∙ e) (erase_line-HasSize mode t h)

edited-HasSize :
    (is_mark : ℕ → Bool) (final : ℕ) (ps : List ℕ) (t : Terminal)
    → IsPlaced t
    → HasSize t
    → HasSize (edited is_mark final ps t)
unfolding edited
edited-HasSize is_mark final ps t p h =
    let n = arg ps 0 1 in
    let e1 = insert_cells-HasSize n t h in
    let e2 = erase_display-HasSize (arg ps 0 0) t h in
    let e3 = mended_line-HasSize (arg ps 0 0) t h in
    let e4 = insert_lines-HasSize n t p h in
    let e5 = delete_lines-HasSize n t p h in
    let e6 = delete_cells-HasSize n t p h in
    let e7 = scroll_up-HasSize n t p h in
    let e8 = scroll_down_bare-HasSize ps n t p h in
    let e9 = erase_cells-HasSize n t h in
    let e10 = repeat-HasSize is_mark (clamp n 1 (2 ^ 16)) t p h in
    let e11 = clear_tabs-HasSize (arg ps 0 0) t h in
    let e12 = same_size (screens t) _ (set_ansi-screens ps (final == b'h') t) h in
    let e13 = same_size (screens t) _ (set_region-screens (n - 1) (arg ps 1 t.rows - 1) t) h in
    let e14 = same_size (screens t) _ (save_bare-screens ps t) h in
    let e15 = same_size (screens t) _ (restore_cursor-screens t) h in ground arith

moved-HasSize :
    (is_mark : ℕ → Bool) (final : ℕ) (ps : List ℕ) (t : Terminal)
    → IsPlaced t
    → HasSize t
    → HasSize (moved is_mark final ps t)
unfolding moved
moved-HasSize is_mark final ps t p h =
    let n = arg ps 0 1 in
    let (e1, e2, e3, e4, e5, e6, e7) = moves_kept n t h in
    let e8 = move_to-HasSize (arg ps 1 1 - 1) (n - 1) t h in
    let e9 = tabs_on-HasSize n t h in
    let e10 = tabs_back-HasSize n t h in
    let e11 = move_to-HasSize t.cur.x (n - 1) t h in
    let e12 = edited-HasSize is_mark final ps t p h in ground arith

answered-screens :
    (final : ℕ) (ps : List ℕ) (t u : Terminal)
    → answered final ps t ≡ some u
    → screens u ≡ screens t
unfolding answered
answered-screens final ps t u h = ground arith

with_inter-screens :
    (s : Sequence) (ps : List ℕ) (t : Terminal) → screens (with_inter s ps t).0 ≡ screens t
unfolding with_inter soft_reset report_mode
with_inter-screens s ps t = ground arith

with_prefix-HasSize :
    (s : Sequence) (ps : List ℕ) (t : Terminal) → HasSize t → HasSize (with_prefix s ps t).0
unfolding with_prefix
with_prefix-HasSize s ps t h = let e = set_privates-HasSize ps (s.final == b'h') t h in ground arith

commanded-HasSize :
    (is_mark : ℕ → Bool) (s : Sequence) (ps : List ℕ) (t : Terminal)
    → IsPlaced t
    → HasSize t
    → HasSize (commanded is_mark s ps t)
unfolding commanded
commanded-HasSize is_mark s ps t p h =
    let m = moved-HasSize is_mark s.final ps t p h in ground arith

or_forward-HasSize :
    (o : Option Terminal) (t u : Terminal)
    → ((v : Terminal) → o ≡ some v → screens v ≡ screens t)
    → HasSize t
    → HasSize u
    → HasSize (or_forward o u).0
unfolding or_forward
or_forward-HasSize none t u f h k = k
or_forward-HasSize (some v) t u f h k = same_size _ _ (f v refl) h

unprefixed-HasSize :
    (is_mark : ℕ → Bool) (s : Sequence) (ps : List ℕ) (t : Terminal)
    → IsPlaced t
    → HasSize t
    → HasSize (unprefixed is_mark s ps t).0
unfolding unprefixed
unprefixed-HasSize is_mark s ps t p h =
    or_forward-HasSize (answered s.final ps t) t _ (answered-screens s.final ps t) h
      (commanded-HasSize is_mark s ps t p h)

pub csi_dispatch-HasSize :
    (is_mark : ℕ → Bool) (seq : List ℕ) (t : Terminal)
    → IsPlaced t
    → HasSize t
    → HasSize (csi_dispatch is_mark seq t).0
unfolding csi_dispatch dispatch
csi_dispatch-HasSize is_mark seq t p h =
    let s = parsed seq in
    let ps = params s.body in
    let e1 = same_size (screens t) _ (with_inter-screens s ps t) h in
    let e2 = with_prefix-HasSize s ps t h in
    let e3 = unprefixed-HasSize is_mark s ps t p h in ground arith
