-- ===== src/Terminal/Placed/Bytes.antt =====
-- Every byte that is fed keeps the cursors and the region on the screen: `step` and `Feed` of
-- internal/termstate.
use pomar.Prelude.{ℕ, ◌-◌, ◌≡◌, refl, Bool, true, false, List, [], ◌∷◌, ◌++◌, length, get_or, arith}
use pomar.Terminal.{Terminal, ParserState, reset, new}
use pomar.Terminal.Screen.{at_x}
use pomar.Terminal.Controls.{save_cursor}
use pomar.Terminal.Edit.{align}
use pomar.Terminal.Utf8.{rune_error, decode_rune}
use pomar.Terminal.Text.{before, after}
use pomar.Terminal.Parse.{
  with_seq, with_utf8, in_state, print_rune, print_ascii, control, esc_action, esc_dispatch,
  esc_inter_dispatch, dec_graphics, string_body, end_osc, end_dcs, end_string, ground_byte,
  held_step, Event, fed, sized, replies_read, handle, session, take_replies, ground_step,
  escape_step, esc_inter_step, csi_step, string_step, fresh_escape, string_esc_step, pass_step,
  pass_esc_step, step, feed,
}
use pomar.Terminal.Resize.{shrink_main, resized, resize, fit_cursor}
use pomar.Terminal.Screen.{clamp}
use pomar.Terminal.Placed.{
  frame, IsPlaced, with_grid-frame, line_feed-IsPlaced, reverse_index-IsPlaced, print-IsPlaced,
}
use pomar.Terminal.Placed.Commands.{next_tab-bound, csi_dispatch-IsPlaced}

pub new-IsPlaced : (cols rows max_history : ℕ) → IsPlaced (new cols rows max_history)
unfolding new reset
new-IsPlaced cols rows max_history = ground arith

pub reset-IsPlaced : (t : Terminal) → IsPlaced t → IsPlaced (reset t)
unfolding reset
reset-IsPlaced t h = ground arith

pub control-IsPlaced : (c : ℕ) (t : Terminal) → IsPlaced t → IsPlaced (control c t)
unfolding control
control-IsPlaced c t h = ground (arith, next_tab-bound t t.cur.x, line_feed-IsPlaced t h)

pub print_rune-IsPlaced :
    (is_mark : ℕ → Bool) (r : ℕ) (t : Terminal) → IsPlaced t → IsPlaced (print_rune is_mark r t)
unfolding print_rune
print_rune-IsPlaced is_mark r t h = print-IsPlaced _ _ t h

print_ascii-IsPlaced : (c : ℕ) (t : Terminal) → IsPlaced t → IsPlaced (print_ascii c t)
unfolding print_ascii
print_ascii-IsPlaced c t h =
    let e1 = print-IsPlaced (get_or dec_graphics (c - 0x5f) 0 ∷ []) 1 t h in
    let e2 = print-IsPlaced (c ∷ []) 1 t h in ground arith

pub esc_action-IsPlaced : (c : ℕ) (t : Terminal) → IsPlaced t → IsPlaced (esc_action c t)
unfolding esc_action save_cursor
esc_action-IsPlaced c t h =
    let e1 = line_feed-IsPlaced t h in
    let e2 = line_feed-IsPlaced (at_x t 0) (ground arith) in
    let e3 = reverse_index-IsPlaced t h in let e4 = reset-IsPlaced t h in ground arith

esc_dispatch-IsPlaced : (c : ℕ) (t : Terminal) → IsPlaced t → IsPlaced (esc_dispatch c t)
unfolding esc_dispatch
esc_dispatch-IsPlaced c t h = esc_action-IsPlaced c t h

align-frame : (t : Terminal) → frame (align t) ≡ frame t
unfolding align
align-frame t = with_grid-frame t _

esc_inter_dispatch-frame : (s : List ℕ) (t : Terminal) → frame (esc_inter_dispatch s t) ≡ frame t
unfolding esc_inter_dispatch
esc_inter_dispatch-frame [] t = refl
esc_inter_dispatch-frame (e ∷ []) t = refl
esc_inter_dispatch-frame (e ∷ i ∷ []) t = refl
esc_inter_dispatch-frame (e ∷ i ∷ f ∷ []) t = ground (arith, align-frame t)
esc_inter_dispatch-frame (e ∷ i ∷ f ∷ g ∷ s) t = refl

end_osc-frame : (seq num rest : List ℕ) (t : Terminal) → frame (end_osc seq num rest t).0 ≡ frame t
unfolding end_osc
end_osc-frame seq num rest t = ground arith

end_string-frame : (s : List ℕ) (t : Terminal) → frame (end_string s t).0 ≡ frame t
unfolding end_string end_dcs
end_string-frame [] t = refl
end_string-frame (e ∷ []) t = refl
end_string-frame (e ∷ k ∷ s) t =
    let e1 =
      end_osc-frame (e ∷ k ∷ s) (before b';' (string_body s)) (after b';' (string_body s))
        (in_state ParserState.ground t) in
    ground arith

ground_byte-IsPlaced :
    (is_mark : ℕ → Bool) (c : ℕ) (t : Terminal) → IsPlaced t → IsPlaced (ground_byte is_mark c t).0
unfolding ground_byte
ground_byte-IsPlaced is_mark c t h =
    let e1 = control-IsPlaced c t h in
    let e2 = print_ascii-IsPlaced c t h in
    let e3 = print_rune-IsPlaced is_mark rune_error t h in ground arith

held_step-IsPlaced :
    (is_mark : ℕ → Bool) (s : List ℕ) (c : ℕ) (t : Terminal)
    → IsPlaced t
    → IsPlaced (held_step is_mark s c t).0
unfolding held_step
held_step-IsPlaced is_mark [] c t h = ground_byte-IsPlaced is_mark c t h
held_step-IsPlaced is_mark (l ∷ s) c t h =
    let held = l ∷ s ++ c ∷ [] in
    let e1 = print_rune-IsPlaced is_mark (decode_rune held).0 (with_utf8 held t) h in
    let e2 = print_rune-IsPlaced is_mark rune_error t h in
    let e3 = ground_byte-IsPlaced is_mark c (with_utf8 [] (print_rune is_mark rune_error t)) e2 in
    ground arith

ground_step-IsPlaced :
    (is_mark : ℕ → Bool) (c : ℕ) (t : Terminal) → IsPlaced t → IsPlaced (ground_step is_mark c t).0
unfolding ground_step
ground_step-IsPlaced is_mark c t h = held_step-IsPlaced is_mark t.p.utf8 c t h

escape_step-IsPlaced : (c : ℕ) (t : Terminal) → IsPlaced t → IsPlaced (escape_step c t).0
unfolding escape_step
escape_step-IsPlaced c t h =
    let u = with_seq (t.p.seq ++ c ∷ []) t in
    let e1 = control-IsPlaced c u h in let e2 = esc_dispatch-IsPlaced c u h in ground arith

esc_inter_step-frame : (c : ℕ) (t : Terminal) → frame (esc_inter_step c t).0 ≡ frame t
unfolding esc_inter_step
esc_inter_step-frame c t =
    let seq = t.p.seq ++ c ∷ [] in
    let e = esc_inter_dispatch-frame seq (with_seq seq t) in ground arith

csi_step-IsPlaced :
    (is_mark : ℕ → Bool) (c : ℕ) (t : Terminal) → IsPlaced t → IsPlaced (csi_step is_mark c t).0
unfolding csi_step
csi_step-IsPlaced is_mark c t h =
    let seq = t.p.seq ++ c ∷ [] in
    let e1 = control-IsPlaced c (with_seq seq t) h in
    let e2 = csi_dispatch-IsPlaced is_mark seq (with_seq seq t) h in ground arith

string_step-frame : (osc : Bool) (c : ℕ) (t : Terminal) → frame (string_step osc c t).0 ≡ frame t
unfolding string_step
string_step-frame osc c t =
    let seq = t.p.seq ++ c ∷ [] in let e = end_string-frame seq (with_seq seq t) in ground arith

fresh_escape-IsPlaced : (c : ℕ) (t : Terminal) → IsPlaced t → IsPlaced (fresh_escape c t).0
unfolding fresh_escape
fresh_escape-IsPlaced c t h = escape_step-IsPlaced c _ h

string_esc_step-IsPlaced : (c : ℕ) (t : Terminal) → IsPlaced t → IsPlaced (string_esc_step c t).0
unfolding string_esc_step
string_esc_step-IsPlaced c t h =
    let seq = t.p.seq ++ c ∷ [] in
    let e1 = end_string-frame seq (with_seq seq t) in
    let e2 = fresh_escape-IsPlaced c t h in ground arith

pass_esc_step-IsPlaced : (c : ℕ) (t : Terminal) → IsPlaced t → IsPlaced (pass_esc_step c t).0
unfolding pass_esc_step
pass_esc_step-IsPlaced c t h = let e = fresh_escape-IsPlaced c t h in ground arith

pass_step-frame : (c : ℕ) (t : Terminal) → frame (pass_step c t).0 ≡ frame t
unfolding pass_step
pass_step-frame c t = ground arith

pub step-IsPlaced :
    (is_mark : ℕ → Bool) (c : ℕ) (t : Terminal) → IsPlaced t → IsPlaced (step is_mark c t).0
unfolding step
step-IsPlaced is_mark c t h =
    let e1 = ground_step-IsPlaced is_mark c t h in
    let e2 = escape_step-IsPlaced c t h in
    let e3 = esc_inter_step-frame c t in
    let e4 = csi_step-IsPlaced is_mark c t h in
    let e5 = string_step-frame true c t in
    let e6 = string_step-frame false c t in
    let e7 = string_esc_step-IsPlaced c t h in
    let e8 = pass_step-frame c t in let e9 = pass_esc_step-IsPlaced c t h in ground arith

feed-IsPlaced :
    (is_mark : ℕ → Bool) (s : List ℕ) (t : Terminal) → IsPlaced t → IsPlaced (feed is_mark s t).0
unfolding feed
feed-IsPlaced is_mark [] t h = h
feed-IsPlaced is_mark (c ∷ s) t h = feed-IsPlaced is_mark s _ (step-IsPlaced is_mark c t h)

resize-IsPlaced : (cols rows : ℕ) (t : Terminal) → IsPlaced t → IsPlaced (resize cols rows t)
unfolding resize resized fit_cursor clamp
resize-IsPlaced cols rows t h = let u = shrink_main (length t.main - rows) t.main t in ground arith

pub handle-IsPlaced :
    (is_mark : ℕ → Bool) (e : Event) (t : Terminal) → IsPlaced t → IsPlaced (handle is_mark e t)
unfolding handle take_replies
handle-IsPlaced is_mark (fed s) t h = feed-IsPlaced is_mark s t h
handle-IsPlaced is_mark (sized cols rows) t h = resize-IsPlaced cols rows t h
handle-IsPlaced is_mark replies_read t h = h

-- Whatever bytes are fed to a terminal, at once or in parts, and whatever sizes it gets in between,
-- the cursor and the saved cursor are on the screen, and the scroll region is on it with its top
-- at or above its bottom, where they are so at the beginning.
pub session-IsPlaced :
    (is_mark : ℕ → Bool) (es : List Event) (t : Terminal)
    → IsPlaced t
    → IsPlaced (session is_mark es t)
unfolding session
session-IsPlaced is_mark [] t h = h
session-IsPlaced is_mark (e ∷ es) t h =
    session-IsPlaced is_mark es _ (handle-IsPlaced is_mark e t h)
