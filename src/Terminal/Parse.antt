-- ===== src/Terminal/Parse.antt =====
-- The parser of internal/termstate/parser.go, a byte at a time. A step gives the terminal, and the
-- bytes that the code appends to those for the clients.
use pomar.Prelude.{
  ℕ, ◌-◌, ◌*◌, Bool, true, false, ◌&&◌, ◌||◌, not, List, [], ◌∷◌, ◌++◌, leb, ltb, ◌==◌,
  if◌then◌else◌, length, set, get_or,
}
use pomar.Terminal.{
  Terminal, ParserState, ground, escape, esc_inter, csi_entry, osc_string, osc_esc, ctl_string,
  ctl_string_esc, pass_string, pass_string_esc, home, reset,
}
use pomar.Terminal.Screen.{at_x, pending, line_feed, reverse_index}
use pomar.Terminal.Print.{print}
use pomar.Terminal.Controls.{save_cursor, with_modes, next_tab}
use pomar.Terminal.Edit.{align}
use pomar.Terminal.Text.{codes, before, after, text_eq}
use pomar.Terminal.Width.{rune_width}
use pomar.Terminal.Csi.{init_bytes, last_byte, csi_dispatch, reply}
use pomar.Terminal.Resize.{resize}
use pomar.Terminal.Utf8.{rune_error, full_rune, decode_rune, runes_from, is_continuation}

abbrev pub max_string : ℕ
max_string = 64 * 1024

abbrev pub max_csi : ℕ
max_csi = 512

abbrev pub in_state : ParserState → Terminal → Terminal
in_state s t = record t { p = record t.p { state = s } }

abbrev pub with_seq : List ℕ → Terminal → Terminal
with_seq s t = record t { p = record t.p { seq = s } }

abbrev pub with_utf8 : List ℕ → Terminal → Terminal
with_utf8 s t = record t { p = record t.p { utf8 = s } }

abbrev with_shift : ℕ → Terminal → Terminal
with_shift n t = record t { p = record t.p { shift = n } }

-- `printRune`
unfoldable pub print_rune : (ℕ → Bool) → ℕ → Terminal → Terminal
print_rune is_mark r t = print (r ∷ []) (rune_width is_mark r) t

-- The DEC special graphics set.
abbrev pub dec_graphics : List ℕ
dec_graphics =
    0x20 ∷ 0x25c6 ∷ 0x2592 ∷ 0x2409 ∷ 0x240c ∷ 0x240d ∷ 0x240a ∷ 0xb0 ∷ 0xb1 ∷ 0x2424 ∷ 0x240b
    ∷ 0x2518 ∷ 0x2510 ∷ 0x250c ∷ 0x2514 ∷ 0x253c ∷ 0x23ba ∷ 0x23bb ∷ 0x2500 ∷ 0x23bc ∷ 0x23bd
    ∷ 0x251c ∷ 0x2524 ∷ 0x2534 ∷ 0x252c ∷ 0x2502 ∷ 0x2264 ∷ 0x2265 ∷ 0x3c0 ∷ 0x2260 ∷ 0xa3 ∷ 0xb7
    ∷ []

-- `printASCII`
unfoldable pub print_ascii : ℕ → Terminal → Terminal
print_ascii c t =
    let charset = if t.p.shift == 0 then t.p.g0 else t.p.g1 in
    if charset == b'0' && leb 0x5f c && leb c 0x7e
    then print (get_or dec_graphics (c - 0x5f) 0 ∷ []) 1 t
    else print (c ∷ []) 1 t

unfoldable pub control : ℕ → Terminal → Terminal
control c t =
    if c == 0x08
    then pending (if ltb 0 t.cur.x then at_x t (t.cur.x - 1) else t) false
    else if c == 0x09
    then pending (at_x t (next_tab t t.cur.x)) false
    else if c == 0x0a || c == 0x0b || c == 0x0c
    then pending (line_feed t) false
    else if c == 0x0d
    then pending (at_x t 0) false
    else if c == 0x0e
    then with_shift 1 t
    else if c == 0x0f
    then with_shift 0 t
    else t

unfoldable pub esc_action : ℕ → Terminal → Terminal
esc_action c t =
    if c == b'7'
    then save_cursor t
    else if c == b'8'
    then record t { cur = if t.saved_set then t.saved else home }
    else if c == b'D'
    then line_feed t
    else if c == b'E'
    then line_feed (at_x t 0)
    else if c == b'M'
    then reverse_index t
    else if c == b'H'
    then record t { tabs = set t.tabs t.cur.x true }
    else if c == b'c'
    then record (reset t) { p = record t.p { g0 = b'B'; g1 = b'B'; shift = 0 } }
    else if c == b'='
    then with_modes t (record t.modes { app_keypad = true })
    else if c == b'>'
    then with_modes t (record t.modes { app_keypad = false })
    else t

-- `escDispatch`
unfoldable pub esc_dispatch : ℕ → Terminal → Terminal
esc_dispatch c t =
    let t' = esc_action c t in
    pending t' (t'.cur.wrap_pending && (c == b'=' || c == b'>' || c == b'H' || c == b'7'))

-- `escInterDispatch`
unfoldable pub esc_inter_dispatch : List ℕ → Terminal → Terminal
esc_inter_dispatch (e ∷ i ∷ f ∷ []) t =
    if i == b'('
    then record t { p = record t.p { g0 = f } }
    else if i == b')'
    then record t { p = record t.p { g1 = f } }
    else if i == b'#' && f == b'8'
    then align t
    else t
esc_inter_dispatch _ t = t

-- `stripControls`, over the runes.
unfoldable pub strip_controls : List ℕ → List ℕ
strip_controls [] = []
strip_controls (r ∷ s) =
    if r == rune_error || ltb r 0x20 || r == 0x7f || (leb 0x80 r && leb r 0x9f)
    then strip_controls s
    else r ∷ strip_controls s

-- A string's body, without its terminator.
unfoldable pub string_body : List ℕ → List ℕ
string_body s =
    if last_byte s == 0x07
    then init_bytes s
    else if last_byte s == b'\\' && last_byte (init_bytes s) == 0x1b
    then init_bytes (init_bytes s)
    else s

-- The answer to a query of a default colour.
unfoldable pub color_reply : List ℕ → List ℕ
color_reply num =
    27 ∷ b']' ∷ num
    ++ codes ";rgb:"
    ++ (if text_eq num (codes "11") then codes "0000/0000/0000" else codes "ffff/ffff/ffff")
    ++ 27 ∷ b'\\' ∷ []

abbrev is_color : List ℕ → Bool
is_color num = text_eq num (codes "10") || text_eq num (codes "11") || text_eq num (codes "12")

unfoldable pub end_osc : List ℕ → List ℕ → List ℕ → Terminal → Terminal × List ℕ
end_osc seq num rest t =
    if text_eq num (codes "0") || text_eq num (codes "2")
    then (record t { title = strip_controls (runes_from 0 rest) }, seq)
    else if is_color num && text_eq rest (codes "?")
    then (reply (color_reply num) t, [])
    else (t, seq)

abbrev asks_setting : List ℕ → Bool
asks_setting (c ∷ d ∷ _) = c == b'$' && d == b'q'
asks_setting _ = false

unfoldable pub end_dcs : List ℕ → List ℕ → Terminal → Terminal × List ℕ
end_dcs seq body t =
    if asks_setting body then (reply (27 ∷ codes "P0$r" ++ 27 ∷ b'\\' ∷ []) t, []) else (t, seq)

-- `endString` of a held string.
unfoldable pub end_string : List ℕ → Terminal → Terminal × List ℕ
end_string (e ∷ kind ∷ s) t =
    let t' = in_state ground t in
    let body = string_body s in
    if kind == b']'
    then end_osc (e ∷ kind ∷ s) (before b';' body) (after b';' body) t'
    else if kind == b'P'
    then end_dcs (e ∷ kind ∷ s) body t'
    else (t', e ∷ kind ∷ s)
end_string s t = (in_state ground t, s)

abbrev pub is_cancel : ℕ → Bool
is_cancel c = c == 0x18 || c == 0x1a

-- A byte in the ground state when no character is in progress.
unfoldable pub ground_byte : (ℕ → Bool) → ℕ → Terminal → Terminal × List ℕ
ground_byte is_mark c t =
    if c == 0x1b
    then (in_state escape (with_seq (c ∷ []) t), [])
    else if ltb c 0x20 || c == 0x7f
    then (control c t, c ∷ [])
    else if ltb c 0x80
    then (print_ascii c t, c ∷ [])
    else if leb 0xc0 c && ltb c 0xf8
    then (with_utf8 (c ∷ []) t, [])
    else (print_rune is_mark rune_error t, c ∷ [])

-- A byte while the bytes of a character are in progress.
unfoldable pub held_step : (ℕ → Bool) → List ℕ → ℕ → Terminal → Terminal × List ℕ
held_step is_mark [] c t = ground_byte is_mark c t
held_step is_mark (l ∷ s) c t =
    let held = l ∷ s ++ c ∷ [] in
    if is_continuation c
    then if full_rune held
      then (with_utf8 [] (print_rune is_mark (decode_rune held).0 (with_utf8 held t)), held)
      else (with_utf8 held t, [])
    else (let r = ground_byte is_mark c (with_utf8 [] (print_rune is_mark rune_error t)) in
        (r.0, l ∷ s ++ r.1))

unfoldable pub ground_step : (ℕ → Bool) → ℕ → Terminal → Terminal × List ℕ
ground_step is_mark c t = held_step is_mark t.p.utf8 c t

unfoldable pub escape_step : ℕ → Terminal → Terminal × List ℕ
escape_step c t0 =
    let seq = t0.p.seq ++ c ∷ [] in
    let t = with_seq seq t0 in
    if c == b'['
    then (in_state csi_entry t, [])
    else if c == b']'
    then (in_state osc_string t, [])
    else if c == b'P' || c == b'X' || c == b'^' || c == b'_'
    then (in_state ctl_string t, [])
    else if leb 0x20 c && leb c 0x2f
    then (in_state esc_inter t, [])
    else if is_cancel c
    then (in_state ground t, seq)
    else if ltb c 0x20
    then (control c t, [])
    else (in_state ground (esc_dispatch c t), seq)

unfoldable pub esc_inter_step : ℕ → Terminal → Terminal × List ℕ
esc_inter_step c t0 =
    let seq = t0.p.seq ++ c ∷ [] in
    let t = with_seq seq t0 in
    if leb 0x20 c && leb c 0x2f then (t, []) else (in_state ground (esc_inter_dispatch seq t), seq)

unfoldable pub csi_step : (ℕ → Bool) → ℕ → Terminal → Terminal × List ℕ
csi_step is_mark c t0 =
    let seq = t0.p.seq ++ c ∷ [] in
    let t = with_seq seq t0 in
    if leb 0x40 c && leb c 0x7e
    then (let r = csi_dispatch is_mark seq t in (in_state ground r.0, if r.1 then [] else seq))
    else if is_cancel c || ltb max_csi (length seq)
    then (in_state ground t, seq)
    else if ltb c 0x20
    then (control c t, [])
    else (t, [])

-- A byte of an OSC string, or of another one.
unfoldable pub string_step : Bool → ℕ → Terminal → Terminal × List ℕ
string_step osc c t0 =
    let seq = t0.p.seq ++ c ∷ [] in
    let t = with_seq seq t0 in
    if c == 0x07 && osc
    then end_string seq t
    else if c == 0x1b
    then (in_state (if osc then osc_esc else ctl_string_esc) t, [])
    else if is_cancel c
    then (in_state ground t, seq)
    else if ltb max_string (length seq)
    then (in_state pass_string t, seq)
    else (t, [])

-- An ESC in a string that does not end it begins a sequence of its own.
unfoldable pub fresh_escape : ℕ → Terminal → Terminal × List ℕ
fresh_escape c t = escape_step c (in_state escape (with_seq (27 ∷ []) t))

unfoldable pub string_esc_step : ℕ → Terminal → Terminal × List ℕ
string_esc_step c t =
    if c == b'\\'
    then end_string (t.p.seq ++ c ∷ []) (with_seq (t.p.seq ++ c ∷ []) t)
    else fresh_escape c t

unfoldable pub pass_step : ℕ → Terminal → Terminal × List ℕ
pass_step c t =
    if c == 0x07 || is_cancel c
    then (in_state ground t, c ∷ [])
    else if c == 0x1b
    then (in_state pass_string_esc t, [])
    else (t, c ∷ [])

unfoldable pub pass_esc_step : ℕ → Terminal → Terminal × List ℕ
pass_esc_step c t =
    if c == b'\\'
    then (in_state ground t, 27 ∷ c ∷ [])
    else (let r = fresh_escape c t in (r.0, 27 ∷ b'\\' ∷ r.1))

unfoldable pub step : (ℕ → Bool) → ℕ → Terminal → Terminal × List ℕ
step is_mark c t = elim t.p.state [
  | ground ↦ ground_step is_mark c t
  | escape ↦ escape_step c t
  | esc_inter ↦ esc_inter_step c t
  | csi_entry ↦ csi_step is_mark c t
  | osc_string ↦ string_step true c t
  | osc_esc ↦ string_esc_step c t
  | ctl_string ↦ string_step false c t
  | ctl_string_esc ↦ string_esc_step c t
  | pass_string ↦ pass_step c t
  | pass_string_esc ↦ pass_esc_step c t
]

-- `Feed`: the terminal, and the bytes to forward.
unfoldable pub feed : (ℕ → Bool) → List ℕ → Terminal → Terminal × List ℕ
feed is_mark [] t = (t, [])
feed is_mark (c ∷ s) t =
    let r = step is_mark c t in let r' = feed is_mark s r.0 in (r'.0, r.1 ++ r'.1)

-- `Replies`
unfoldable pub take_replies : Terminal → Terminal × List ℕ
take_replies t = (record t { replies = [] }, t.replies)

-- `Held`: the bytes held, and whether a snapshot and those bytes give the same screen.
unfoldable pub no_control : List ℕ → Bool
no_control [] = true
no_control (c ∷ s) = not (ltb c 0x20) && no_control s

abbrev after_first : List ℕ → List ℕ
after_first [] = []
after_first (c ∷ s) = s

unfoldable pub held : Terminal → ℕ × Bool
held t = elim t.p.state [
  | ground ↦ (length t.p.utf8, true)
  | escape ↦ (length t.p.seq, no_control (after_first t.p.seq))
  | esc_inter ↦ (length t.p.seq, no_control (after_first t.p.seq))
  | csi_entry ↦ (length t.p.seq, no_control (after_first t.p.seq))
  | osc_string ↦ (length t.p.seq, true)
  | osc_esc ↦ (length t.p.seq, true)
  | ctl_string ↦ (length t.p.seq, true)
  | ctl_string_esc ↦ (length t.p.seq, true)
  | pass_string ↦ (0, false)
  | pass_string_esc ↦ (0, false)
]

-- What a host does with a terminal.
pub data Event : Type 0 where
  fed : List ℕ → Event
  sized : ℕ → ℕ → Event
  replies_read : Event

unfoldable pub handle : (ℕ → Bool) → Event → Terminal → Terminal
handle is_mark (fed s) t = (feed is_mark s t).0
handle is_mark (sized cols rows) t = resize cols rows t
handle is_mark replies_read t = (take_replies t).0

unfoldable pub session : (ℕ → Bool) → List Event → Terminal → Terminal
session is_mark [] t = t
session is_mark (e ∷ es) t = session is_mark es (handle is_mark e t)
