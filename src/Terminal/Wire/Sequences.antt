-- ===== src/Terminal/Wire/Sequences.antt =====
-- What the parser of internal/termstate holds stays through each control sequence.
use pomar.Prelude.{
  ℕ, zero, suc, ◌-◌, ◌≡◌, refl, Bool, true, false, ◌||◌, List, [], ◌∷◌, ◌++◌, Option, none, some,
  ◌==◌, arith, ◌∙◌, ◌^◌, sym, ap,
}
use pomar.Terminal.{Terminal}
use pomar.Terminal.Screen.{clamp, at_x}
use pomar.Terminal.Controls.{
  save_cursor, restore_cursor, move_to, next_tab, prev_tab, switch_screen, set_private, soft_reset,
}
use pomar.Terminal.Edit.{
  erase_line, erase_display, insert_cells, delete_cells, erase_cells, insert_lines, delete_lines,
  erase_below, erase_above, erase_all,
}
use pomar.Terminal.Text.{arg, params}
use pomar.Terminal.Csi.{
  cursor_up, cursor_down, cursor_right, cursor_left, cursor_column, line_start, scroll_down_bare,
  save_bare, mended_line, Sequence, with_inter, with_prefix, set_privates, tabs_on, tabs_back,
  print_again, repeat, clear_tabs, set_ansi, set_region, moved, edited, answered, commanded,
  or_forward, unprefixed, dispatch, csi_dispatch, report_mode, parsed, sequence_of, last_byte,
  init_bytes,
}
use pomar.Terminal.Wire.Reading.{
  reading, with_grid-reading, scroll_up-reading, scroll_up_no_history-reading, scroll_down-reading,
  print-reading,
}

tabs_on-reading : (n : ℕ) (t : Terminal) → reading (tabs_on n t) ≡ reading t
unfolding tabs_on
tabs_on-reading zero t = refl
tabs_on-reading (suc n) t = tabs_on-reading n (at_x t (next_tab t t.cur.x))

tabs_back-reading : (n : ℕ) (t : Terminal) → reading (tabs_back n t) ≡ reading t
unfolding tabs_back
tabs_back-reading zero t = refl
tabs_back-reading (suc n) t = tabs_back-reading n (at_x t (prev_tab t t.cur.x))

switch_screen-reading :
    (alt save : Bool) (t : Terminal) → reading (switch_screen alt save t) ≡ reading t
unfolding switch_screen restore_cursor save_cursor
switch_screen-reading alt save t = ground arith

restore_cursor-reading : (t : Terminal) → reading (restore_cursor t) ≡ reading t
unfolding restore_cursor
restore_cursor-reading t = ground arith

set_private-reading : (m : ℕ) (on : Bool) (t : Terminal) → reading (set_private m on t) ≡ reading t
unfolding set_private save_cursor move_to
set_private-reading m on t = ground (
  arith,
  switch_screen-reading on false t,
  switch_screen-reading on true t,
  restore_cursor-reading t,
)

set_privates-reading :
    (ms : List ℕ) (on : Bool) (t : Terminal) → reading (set_privates ms on t) ≡ reading t
unfolding set_privates
set_privates-reading [] on t = refl
set_privates-reading (m ∷ ms) on t = set_privates-reading ms on _ ∙ set_private-reading m on t

set_ansi-reading : (ms : List ℕ) (on : Bool) (t : Terminal) → reading (set_ansi ms on t) ≡ reading t
unfolding set_ansi
set_ansi-reading [] on t = refl
set_ansi-reading (m ∷ ms) on t = set_ansi-reading ms on _ ∙ ground arith

erase_line-reading : (mode : ℕ) (t : Terminal) → reading (erase_line mode t) ≡ reading t
unfolding erase_line
erase_line-reading mode t = with_grid-reading t _

erase_below-reading : (t : Terminal) → reading (erase_below t) ≡ reading t
unfolding erase_below
erase_below-reading t = with_grid-reading _ _ ∙ erase_line-reading 0 t

erase_above-reading : (t : Terminal) → reading (erase_above t) ≡ reading t
unfolding erase_above
erase_above-reading t = with_grid-reading _ _ ∙ erase_line-reading 1 t

erase_all-reading : (t : Terminal) → reading (erase_all t) ≡ reading t
unfolding erase_all
erase_all-reading t = with_grid-reading t _

erase_display-reading : (mode : ℕ) (t : Terminal) → reading (erase_display mode t) ≡ reading t
unfolding erase_display
erase_display-reading mode t =
    ground (arith, erase_below-reading t, erase_above-reading t, erase_all-reading t)

insert_lines-reading : (n : ℕ) (t : Terminal) → reading (insert_lines n t) ≡ reading t
unfolding insert_lines
insert_lines-reading n t = ground (arith, scroll_down-reading n (record t { top = t.cur.y }))

delete_lines-reading : (n : ℕ) (t : Terminal) → reading (delete_lines n t) ≡ reading t
unfolding delete_lines
delete_lines-reading n t =
    ground (arith, scroll_up_no_history-reading n (record t { top = t.cur.y }))

insert_cells-reading : (n : ℕ) (t : Terminal) → reading (insert_cells n t) ≡ reading t
unfolding insert_cells
insert_cells-reading n t = with_grid-reading t _

delete_cells-reading : (n : ℕ) (t : Terminal) → reading (delete_cells n t) ≡ reading t
unfolding delete_cells
delete_cells-reading n t = with_grid-reading t _

erase_cells-reading : (n : ℕ) (t : Terminal) → reading (erase_cells n t) ≡ reading t
unfolding erase_cells
erase_cells-reading n t = with_grid-reading t _

clear_tabs-reading : (n : ℕ) (t : Terminal) → reading (clear_tabs n t) ≡ reading t
unfolding clear_tabs
clear_tabs-reading n t = ground arith

print_again-reading :
    (is_mark : ℕ → Bool) (s : List ℕ) (t : Terminal) → reading (print_again is_mark s t) ≡ reading t
unfolding print_again
print_again-reading is_mark [] t = refl
print_again-reading is_mark (r ∷ s) t = print-reading (r ∷ s) _ t

repeat-reading :
    (is_mark : ℕ → Bool) (n : ℕ) (t : Terminal) → reading (repeat is_mark n t) ≡ reading t
unfolding repeat
repeat-reading is_mark zero t = refl
repeat-reading is_mark (suc n) t = repeat-reading is_mark n _ ∙ print_again-reading is_mark t.last t

set_region-reading : (top bot : ℕ) (t : Terminal) → reading (set_region top bot t) ≡ reading t
unfolding set_region move_to
set_region-reading top bot t = ground arith

scroll_down_bare-reading :
    (ps : List ℕ) (n : ℕ) (t : Terminal) → reading (scroll_down_bare ps n t) ≡ reading t
unfolding scroll_down_bare
scroll_down_bare-reading ps n t = ground (arith, scroll_down-reading n t)

mended_line-reading : (mode : ℕ) (t : Terminal) → reading (mended_line mode t) ≡ reading t
unfolding mended_line
mended_line-reading mode t = with_grid-reading _ _ ∙ erase_line-reading mode t

save_bare-reading : (ps : List ℕ) (t : Terminal) → reading (save_bare ps t) ≡ reading t
unfolding save_bare save_cursor
save_bare-reading ps t = ground arith

edited-reading :
    (is_mark : ℕ → Bool) (final : ℕ) (ps : List ℕ) (t : Terminal)
    → reading (edited is_mark final ps t) ≡ reading t
unfolding edited
edited-reading is_mark final ps t =
    let n = arg ps 0 1 in
    ground (
      arith,
      insert_cells-reading n t,
      erase_display-reading (arg ps 0 0) t,
      mended_line-reading (arg ps 0 0) t,
      insert_lines-reading n t,
      delete_lines-reading n t,
      delete_cells-reading n t,
      scroll_up-reading n t,
      scroll_down_bare-reading ps n t,
      erase_cells-reading n t,
      repeat-reading is_mark (clamp n 1 (2 ^ 16)) t,
      clear_tabs-reading (arg ps 0 0) t,
      set_ansi-reading ps (final == b'h') t,
      set_region-reading (n - 1) (arg ps 1 t.rows - 1) t,
      save_bare-reading ps t,
      restore_cursor-reading t,
    )

moved-reading :
    (is_mark : ℕ → Bool) (final : ℕ) (ps : List ℕ) (t : Terminal)
    → reading (moved is_mark final ps t) ≡ reading t
unfolding moved cursor_up cursor_down cursor_right cursor_left cursor_column line_start move_to
moved-reading is_mark final ps t =
    let n = arg ps 0 1 in
    ground (arith, tabs_on-reading n t, tabs_back-reading n t, edited-reading is_mark final ps t)

answered-reading :
    (final : ℕ) (ps : List ℕ) (t u : Terminal)
    → answered final ps t ≡ some u
    → reading u ≡ reading t
unfolding answered
answered-reading final ps t u h = ground arith

with_inter-reading :
    (s : Sequence) (ps : List ℕ) (t : Terminal) → reading (with_inter s ps t).0 ≡ reading t
unfolding with_inter soft_reset report_mode
with_inter-reading s ps t = ground arith

with_prefix-reading :
    (s : Sequence) (ps : List ℕ) (t : Terminal) → reading (with_prefix s ps t).0 ≡ reading t
unfolding with_prefix
with_prefix-reading s ps t = ground (arith, set_privates-reading ps (s.final == b'h') t)

commanded-reading :
    (is_mark : ℕ → Bool) (s : Sequence) (ps : List ℕ) (t : Terminal)
    → reading (commanded is_mark s ps t) ≡ reading t
unfolding commanded
commanded-reading is_mark s ps t = ground (arith, moved-reading is_mark s.final ps t)

or_forward-reading :
    (o : Option Terminal) (t u : Terminal)
    → ((v : Terminal) → o ≡ some v → reading v ≡ reading t)
    → reading u ≡ reading t
    → reading (or_forward o u).0 ≡ reading t
unfolding or_forward
or_forward-reading none t u f k = k
or_forward-reading (some v) t u f k = f v refl

unprefixed-reading :
    (is_mark : ℕ → Bool) (s : Sequence) (ps : List ℕ) (t : Terminal)
    → reading (unprefixed is_mark s ps t).0 ≡ reading t
unfolding unprefixed
unprefixed-reading is_mark s ps t =
    or_forward-reading (answered s.final ps t) t _ (answered-reading s.final ps t)
      (commanded-reading is_mark s ps t)

pub csi_dispatch-reading :
    (is_mark : ℕ → Bool) (seq : List ℕ) (t : Terminal)
    → reading (csi_dispatch is_mark seq t).0 ≡ reading t
unfolding csi_dispatch dispatch
csi_dispatch-reading is_mark seq t =
    let s = parsed seq in
    let e1 = with_inter-reading s (params s.body) t in
    let e2 = with_prefix-reading s (params s.body) t in
    let e3 = unprefixed-reading is_mark s (params s.body) t in ground arith

-- The final bytes of the sequences that the host answers, or keeps to itself.
unfoldable pub is_query_final : ℕ → Bool
is_query_final c = c == b'c' || c == b'n' || c == b'p' || c == b'q' || c == b't' || c == b'u'

with_inter-query :
    (s : Sequence) (ps : List ℕ) (t : Terminal)
    → (with_inter s ps t).1 ≡ true
    → is_query_final s.final ≡ true
unfolding with_inter is_query_final
with_inter-query s ps t h = ground arith

with_prefix-query :
    (s : Sequence) (ps : List ℕ) (t : Terminal)
    → (with_prefix s ps t).1 ≡ true
    → is_query_final s.final ≡ true
unfolding with_prefix is_query_final
with_prefix-query s ps t h = ground arith

unprefixed-query :
    (is_mark : ℕ → Bool) (s : Sequence) (ps : List ℕ) (t : Terminal)
    → (unprefixed is_mark s ps t).1 ≡ true
    → is_query_final s.final ≡ true
unfolding unprefixed or_forward answered is_query_final
unprefixed-query is_mark s ps t h = ground arith

sequence_of-final : (s : List ℕ) (final : ℕ) → (sequence_of s final).final ≡ final
unfolding sequence_of
sequence_of-final [] final = refl
sequence_of-final (c ∷ s) final = ground arith

parsed-final : (s : List ℕ) → (parsed s).final ≡ last_byte s
unfolding parsed last_byte
parsed-final [] = refl
parsed-final (e ∷ []) = refl
parsed-final (e ∷ b ∷ []) = refl
parsed-final (e ∷ b ∷ c ∷ s) = sequence_of-final (init_bytes (c ∷ s)) (last_byte (c ∷ s))

last_byte-append : (s : List ℕ) (c : ℕ) → last_byte (s ++ c ∷ []) ≡ c
unfolding last_byte
last_byte-append [] c = refl
last_byte-append (d ∷ []) c = refl
last_byte-append (d ∷ e ∷ s) c = last_byte-append (e ∷ s) c

pub csi_dispatch-query :
    (is_mark : ℕ → Bool) (seq : List ℕ) (c : ℕ) (t : Terminal)
    → (csi_dispatch is_mark (seq ++ c ∷ []) t).1 ≡ true
    → is_query_final c ≡ true
unfolding csi_dispatch dispatch
csi_dispatch-query is_mark seq c t h =
    let s = parsed (seq ++ c ∷ []) in
    let e : s.final ≡ c = parsed-final (seq ++ c ∷ []) ∙ last_byte-append seq c in
    let e1 = with_inter-query s (params s.body) t in
    let e2 = with_prefix-query s (params s.body) t in
    let e3 = unprefixed-query is_mark s (params s.body) t in
    let final : is_query_final s.final ≡ true = ground arith in ap is_query_final (sym e) ∙ final
