-- ===== src/Terminal/Sized/Bytes.antt =====
-- Every byte that is fed and every resize keeps the rows and columns of both screens: `step`, `Feed`
-- and `Resize` of internal/termstate.
use pomar.Prelude.{
  ℕ, zero, suc, ◌+◌, ◌-◌, ◌≤◌, ◌≡◌, refl, ap, ◌∙◌, Bool, true, false, List, [], ◌∷◌, ◌++◌, ltb,
  if◌then◌else◌, length, take, drop, replicate, get_or, arith, Bool-cases, inl, inr, length-set,
  length-append, length-replicate, length-map, length-take, length-drop,
}
use pomar.Terminal.{Terminal, Grid, ParserState, plain, reset, new, new_row, tab_stops}
use pomar.Terminal.Screen.{at_x}
use pomar.Terminal.Controls.{save_cursor}
use pomar.Terminal.Utf8.{rune_error, decode_rune}
use pomar.Terminal.Text.{before, after}
use pomar.Terminal.Parse.{
  with_seq, with_utf8, in_state, print_rune, dec_graphics, print_ascii, control, esc_action,
  esc_dispatch, esc_inter_dispatch, string_body, end_osc, end_dcs, end_string, ground_byte,
  held_step, ground_step, escape_step, esc_inter_step, csi_step, string_step, fresh_escape,
  string_esc_step, pass_step, pass_esc_step, step, feed, take_replies, Event, fed, sized,
  replies_read, handle, session,
}
use pomar.Terminal.Resize.{fit_row, fit_grid, fit_tabs, shrink_main, resized, resize}
use pomar.Terminal.Placed.{IsPlaced}
use pomar.Terminal.Placed.Bytes.{print_rune-IsPlaced, step-IsPlaced, handle-IsPlaced}
use pomar.Terminal.Sized.{IsGrid, rows_wide-fit}
use pomar.Terminal.Sized.Screens.{
  screens, HasSize, same_size, line_feed-HasSize, reverse_index-HasSize, print-HasSize,
}
use pomar.Terminal.Sized.Commands.{new_grid-IsGrid, align-HasSize, csi_dispatch-HasSize}

length-tab_stops : (n i : ℕ) → length (tab_stops i n) ≡ n
unfolding tab_stops
length-tab_stops zero i = refl
length-tab_stops (suc n) i = ap suc (length-tab_stops n (i + 1))

reset-HasSize : (t : Terminal) → HasSize (reset t)
unfolding reset
reset-HasSize t = record {
  main = new_grid-IsGrid t.cols t.rows plain;
  alt = new_grid-IsGrid t.cols t.rows plain;
  stops = length-tab_stops t.cols 0;
}

pub new-HasSize : (cols rows max_history : ℕ) → HasSize (new cols rows max_history)
unfolding new reset
new-HasSize cols rows max_history =
    let c = if ltb cols 1 then 1 else cols in
    let r = if ltb rows 1 then 1 else rows in
    record {
      main = new_grid-IsGrid c r plain;
      alt = new_grid-IsGrid c r plain;
      stops = length-tab_stops c 0;
    }

control-HasSize : (c : ℕ) (t : Terminal) → IsPlaced t → HasSize t → HasSize (control c t)
unfolding control
control-HasSize c t p h = let e = line_feed-HasSize t p h in ground arith

print_ascii-HasSize : (c : ℕ) (t : Terminal) → IsPlaced t → HasSize t → HasSize (print_ascii c t)
unfolding print_ascii
print_ascii-HasSize c t p h =
    let e1 = print-HasSize (get_or dec_graphics (c - 0x5f) 0 ∷ []) 1 t p h in
    let e2 = print-HasSize (c ∷ []) 1 t p h in ground arith

print_rune-HasSize :
    (is_mark : ℕ → Bool) (r : ℕ) (t : Terminal)
    → IsPlaced t
    → HasSize t
    → HasSize (print_rune is_mark r t)
unfolding print_rune
print_rune-HasSize is_mark r t p h = print-HasSize _ _ t p h

esc_action-HasSize : (c : ℕ) (t : Terminal) → IsPlaced t → HasSize t → HasSize (esc_action c t)
unfolding esc_action save_cursor
esc_action-HasSize c t p h =
    let e1 = line_feed-HasSize t p h in
    let e2 = line_feed-HasSize (at_x t 0) (ground arith) h in
    let e3 = reverse_index-HasSize t p h in
    let e4 = reset-HasSize t in let e5 = length-set t.tabs t.cur.x true in ground arith

esc_dispatch-HasSize : (c : ℕ) (t : Terminal) → IsPlaced t → HasSize t → HasSize (esc_dispatch c t)
unfolding esc_dispatch
esc_dispatch-HasSize c t p h = esc_action-HasSize c t p h

esc_inter_dispatch-HasSize :
    (s : List ℕ) (t : Terminal) → HasSize t → HasSize (esc_inter_dispatch s t)
unfolding esc_inter_dispatch
esc_inter_dispatch-HasSize [] t h = h
esc_inter_dispatch-HasSize (e ∷ []) t h = h
esc_inter_dispatch-HasSize (e ∷ i ∷ []) t h = h
esc_inter_dispatch-HasSize (e ∷ i ∷ f ∷ []) t h = let a = align-HasSize t h in ground arith
esc_inter_dispatch-HasSize (e ∷ i ∷ f ∷ g ∷ s) t h = h

end_osc-screens :
    (seq num rest : List ℕ) (t : Terminal) → screens (end_osc seq num rest t).0 ≡ screens t
unfolding end_osc
end_osc-screens seq num rest t = ground arith

end_string-screens : (s : List ℕ) (t : Terminal) → screens (end_string s t).0 ≡ screens t
unfolding end_string end_dcs
end_string-screens [] t = refl
end_string-screens (e ∷ []) t = refl
end_string-screens (e ∷ k ∷ s) t =
    let e1 =
      end_osc-screens (e ∷ k ∷ s) (before b';' (string_body s)) (after b';' (string_body s))
        (in_state ParserState.ground t) in
    ground arith

ground_byte-HasSize :
    (is_mark : ℕ → Bool) (c : ℕ) (t : Terminal)
    → IsPlaced t
    → HasSize t
    → HasSize (ground_byte is_mark c t).0
unfolding ground_byte
ground_byte-HasSize is_mark c t p h =
    let e1 = control-HasSize c t p h in
    let e2 = print_ascii-HasSize c t p h in
    let e3 = print_rune-HasSize is_mark rune_error t p h in ground arith

held_step-HasSize :
    (is_mark : ℕ → Bool) (s : List ℕ) (c : ℕ) (t : Terminal)
    → IsPlaced t
    → HasSize t
    → HasSize (held_step is_mark s c t).0
unfolding held_step
held_step-HasSize is_mark [] c t p h = ground_byte-HasSize is_mark c t p h
held_step-HasSize is_mark (l ∷ s) c t p h =
    let held = l ∷ s ++ c ∷ [] in
    let e1 = print_rune-HasSize is_mark (decode_rune held).0 (with_utf8 held t) p h in
    let e2 = print_rune-HasSize is_mark rune_error t p h in
    let e3 =
      ground_byte-HasSize is_mark c (with_utf8 [] (print_rune is_mark rune_error t))
        (print_rune-IsPlaced is_mark rune_error t p) e2 in
    ground arith

ground_step-HasSize :
    (is_mark : ℕ → Bool) (c : ℕ) (t : Terminal)
    → IsPlaced t
    → HasSize t
    → HasSize (ground_step is_mark c t).0
unfolding ground_step
ground_step-HasSize is_mark c t p h = held_step-HasSize is_mark t.p.utf8 c t p h

escape_step-HasSize : (c : ℕ) (t : Terminal) → IsPlaced t → HasSize t → HasSize (escape_step c t).0
unfolding escape_step
escape_step-HasSize c t p h =
    let u = with_seq (t.p.seq ++ c ∷ []) t in
    let e1 = control-HasSize c u p h in let e2 = esc_dispatch-HasSize c u p h in ground arith

esc_inter_step-HasSize : (c : ℕ) (t : Terminal) → HasSize t → HasSize (esc_inter_step c t).0
unfolding esc_inter_step
esc_inter_step-HasSize c t h =
    let seq = t.p.seq ++ c ∷ [] in
    let e = esc_inter_dispatch-HasSize seq (with_seq seq t) h in ground arith

csi_step-HasSize :
    (is_mark : ℕ → Bool) (c : ℕ) (t : Terminal)
    → IsPlaced t
    → HasSize t
    → HasSize (csi_step is_mark c t).0
unfolding csi_step
csi_step-HasSize is_mark c t p h =
    let seq = t.p.seq ++ c ∷ [] in
    let e1 = control-HasSize c (with_seq seq t) p h in
    let e2 = csi_dispatch-HasSize is_mark seq (with_seq seq t) p h in ground arith

string_step-screens :
    (osc : Bool) (c : ℕ) (t : Terminal) → screens (string_step osc c t).0 ≡ screens t
unfolding string_step
string_step-screens osc c t =
    let seq = t.p.seq ++ c ∷ [] in let e = end_string-screens seq (with_seq seq t) in ground arith

fresh_escape-HasSize :
    (c : ℕ) (t : Terminal) → IsPlaced t → HasSize t → HasSize (fresh_escape c t).0
unfolding fresh_escape
fresh_escape-HasSize c t p h = escape_step-HasSize c _ p h

string_esc_step-HasSize :
    (c : ℕ) (t : Terminal) → IsPlaced t → HasSize t → HasSize (string_esc_step c t).0
unfolding string_esc_step
string_esc_step-HasSize c t p h =
    let seq = t.p.seq ++ c ∷ [] in
    let e1 = same_size (screens t) _ (end_string-screens seq (with_seq seq t)) h in
    let e2 = fresh_escape-HasSize c t p h in ground arith

pass_esc_step-HasSize :
    (c : ℕ) (t : Terminal) → IsPlaced t → HasSize t → HasSize (pass_esc_step c t).0
unfolding pass_esc_step
pass_esc_step-HasSize c t p h = let e = fresh_escape-HasSize c t p h in ground arith

pass_step-screens : (c : ℕ) (t : Terminal) → screens (pass_step c t).0 ≡ screens t
unfolding pass_step
pass_step-screens c t = ground arith

step-HasSize :
    (is_mark : ℕ → Bool) (c : ℕ) (t : Terminal)
    → IsPlaced t
    → HasSize t
    → HasSize (step is_mark c t).0
unfolding step
step-HasSize is_mark c t p h =
    let e1 = ground_step-HasSize is_mark c t p h in
    let e2 = escape_step-HasSize c t p h in
    let e3 = esc_inter_step-HasSize c t h in
    let e4 = csi_step-HasSize is_mark c t p h in
    let e5 = same_size (screens t) _ (string_step-screens true c t) h in
    let e6 = same_size (screens t) _ (string_step-screens false c t) h in
    let e7 = string_esc_step-HasSize c t p h in
    let e8 = same_size (screens t) _ (pass_step-screens c t) h in
    let e9 = pass_esc_step-HasSize c t p h in ground arith

feed-HasSize :
    (is_mark : ℕ → Bool) (s : List ℕ) (t : Terminal)
    → IsPlaced t
    → HasSize t
    → HasSize (feed is_mark s t).0
unfolding feed
feed-HasSize is_mark [] t p h = h
feed-HasSize is_mark (c ∷ s) t p h =
    feed-HasSize is_mark s _ (step-IsPlaced is_mark c t p) (step-HasSize is_mark c t p h)

length-shrink_main : (n : ℕ) (g : Grid) (t : Terminal) → length (shrink_main n g t).0 ≡ length g - n
unfolding shrink_main
length-shrink_main zero g t = omega arith
length-shrink_main (suc n) g t = elim (Bool-cases (ltb 0 t.cur.y)) [
  | inl e ↦ rw (e) (length-shrink_main n (drop 1 g) _ ∙ omega (arith, length-drop 1 g))
  | inr e ↦
      rw (e) (
        length-shrink_main n (take (length g - 1) g) t
        ∙ omega (arith, length-take (length g - 1) g))
]

fit_grid-IsGrid :
    (cols rows : ℕ) (g : Grid) → length g ≤ rows → IsGrid cols rows (fit_grid cols rows g)
unfolding fit_grid
fit_grid-IsGrid cols rows g h = record {
  tall = omega (
    arith,
    h,
    length-map (g ++ replicate (rows - length g) (new_row cols plain)) (fit_row cols),
    length-append g (replicate (rows - length g) (new_row cols plain)),
    length-replicate (rows - length g) (new_row cols plain),
  );
  wide = rows_wide-fit cols _;
}

length-fit_tabs : (cols : ℕ) (tabs : List Bool) → length (fit_tabs cols tabs) ≡ cols
unfolding fit_tabs
length-fit_tabs cols tabs = omega (
  arith,
  length-append (take cols tabs) (tab_stops (length tabs) (cols - length tabs)),
  length-take cols tabs,
  length-tab_stops (cols - length tabs) (length tabs),
)

resized-HasSize :
    (cols rows : ℕ) (g : Grid) (t : Terminal) → length g ≤ rows → HasSize (resized cols rows (g, t))
unfolding resized
resized-HasSize cols rows g t h = record {
  main = fit_grid-IsGrid cols rows g h;
  alt = fit_grid-IsGrid cols rows (take rows t.alt) (omega (arith, length-take rows t.alt));
  stops = length-fit_tabs cols t.tabs;
}

resize-HasSize : (cols rows : ℕ) (t : Terminal) → HasSize t → HasSize (resize cols rows t)
unfolding resize
resize-HasSize cols rows t h =
    let n = length t.main - rows in
    let r = shrink_main n t.main t in
    let short : length r.0 ≤ rows = omega (arith, length-shrink_main n t.main t) in
    let e = resized-HasSize cols rows r.0 r.1 short in ground arith

handle-HasSize :
    (is_mark : ℕ → Bool) (e : Event) (t : Terminal)
    → IsPlaced t
    → HasSize t
    → HasSize (handle is_mark e t)
unfolding handle take_replies
handle-HasSize is_mark (fed s) t p h = feed-HasSize is_mark s t p h
handle-HasSize is_mark (sized cols rows) t p h = resize-HasSize cols rows t h
handle-HasSize is_mark replies_read t p h = h

-- Whatever bytes are fed to a terminal, at once or in parts, and whatever sizes it gets in between,
-- both of its screens have as many rows as the terminal and as many columns in each row, and it has a
-- tab stop's place for each column. The terminal begins with a cursor and a region on the screen, and screens of its size.
pub session-HasSize :
    (is_mark : ℕ → Bool) (es : List Event) (t : Terminal)
    → IsPlaced t
    → HasSize t
    → HasSize (session is_mark es t)
unfolding session
session-HasSize is_mark [] t p h = h
session-HasSize is_mark (e ∷ es) t p h =
    session-HasSize is_mark es _ (handle-IsPlaced is_mark e t p) (handle-HasSize is_mark e t p h)
