-- ===== src/Terminal/Csi.antt =====
-- Control sequences: `csiDispatch` of internal/termstate/parser.go.
use pomar.Prelude.{
  ℕ, zero, suc, ◌+◌, ◌-◌, ◌^◌, Bool, true, false, ◌&&◌, ◌||◌, List, [], ◌∷◌, ◌++◌, Option, none,
  some, leb, ltb, ◌==◌, if◌then◌else◌, length, set, map,
}
use pomar.Terminal.{Terminal}
use pomar.Terminal.Rows.{mend}
use pomar.Terminal.Screen.{clamp, at_x, at_y, pending, scroll_up, scroll_down}
use pomar.Terminal.Print.{print}
use pomar.Terminal.Controls.{
  save_cursor, restore_cursor, move_to, top0, bot0, report_row, next_tab, prev_tab, with_modes,
  set_private, mode_state, soft_reset,
}
use pomar.Terminal.Edit.{
  edit_row, erase_line, erase_display, insert_cells, delete_cells, erase_cells, insert_lines,
  delete_lines,
}
use pomar.Terminal.Text.{codes, params, arg, itoa, itoa_ℤ, text_eq, has_byte}
use pomar.Terminal.Sgr.{sgr}
use pomar.Terminal.Width.{rune_width}

-- A sequence's bytes: the prefix or 0, the parameters, the intermediates, and the final byte.
pub record Sequence : Type 0 where
  pub prefix : ℕ
  pub body : List ℕ
  pub inter : List ℕ
  pub final : ℕ

unfoldable pub init_bytes : List ℕ → List ℕ
init_bytes [] = []
init_bytes (c ∷ []) = []
init_bytes (c ∷ d ∷ s) = c ∷ init_bytes (d ∷ s)

unfoldable pub last_byte : List ℕ → ℕ
last_byte [] = 0
last_byte (c ∷ []) = c
last_byte (c ∷ d ∷ s) = last_byte (d ∷ s)

-- The bytes before the trailing ones of 0x20 to 0x2f, and those.
unfoldable pub split_inter : List ℕ → List ℕ × List ℕ
split_inter [] = ([], [])
split_inter (c ∷ s) =
    let rest = split_inter s in
    elim rest.0 [
      | [] ↦ if leb 0x20 c && leb c 0x2f then ([], c ∷ rest.1) else (c ∷ [], rest.1)
      | d ∷ ds ↦ (c ∷ d ∷ ds, rest.1)
    ]

abbrev is_prefix : ℕ → Bool
is_prefix c = leb 0x3c c && leb c 0x3f

unfoldable pub sequence_of : List ℕ → ℕ → Sequence
sequence_of [] final = record { prefix = 0; body = []; inter = []; final = final }
sequence_of (c ∷ s) final =
    if is_prefix c
    then record { prefix = c; body = (split_inter s).0; inter = (split_inter s).1; final = final }
    else record {
      prefix = 0;
      body = (split_inter (c ∷ s)).0;
      inter = (split_inter (c ∷ s)).1;
      final = final;
    }

-- The held bytes are ESC, `[`, the body and the final byte.
unfoldable pub parsed : List ℕ → Sequence
parsed (e ∷ b ∷ c ∷ s) = sequence_of (init_bytes (c ∷ s)) (last_byte (c ∷ s))
parsed s = record { prefix = 0; body = []; inter = []; final = last_byte s }

abbrev pub reply : List ℕ → Terminal → Terminal
reply s t = record t { replies = t.replies ++ s }

abbrev pub csi : List ℕ
csi = 27 ∷ b'[' ∷ []

-- `\x1b[...;...`, with a mark before the first number and the final bytes after the second.
unfoldable pub two_numbers : List ℕ → List ℕ → List ℕ → List ℕ → List ℕ
two_numbers mark m n final = csi ++ mark ++ m ++ (b';' ∷ n) ++ final

unfoldable pub position : List ℕ → Terminal → List ℕ
position mark t = two_numbers mark (itoa_ℤ (report_row t)) (itoa (t.cur.x + 1)) (b'R' ∷ [])

unfoldable pub report_mode : Bool → ℕ → Terminal → Terminal
report_mode is_private m t =
    reply
      (two_numbers (if is_private then b'?' ∷ [] else []) (itoa m)
        (itoa (mode_state is_private m t)) (codes "$y"))
      t

-- The sequences with an intermediate: those that are not modelled are forwarded.
unfoldable pub with_inter : Sequence → List ℕ → Terminal → Terminal × Bool
with_inter s ps t =
    if text_eq s.inter (codes "$") && s.final == b'p'
    then (report_mode (s.prefix == b'?') (arg ps 0 0) t, true)
    else if text_eq s.inter (codes "!") && s.final == b'p'
    then (soft_reset t, false)
    else if text_eq s.inter (codes " ") && s.final == b'q'
    then (record t { cursor_style = arg ps 0 0 }, false)
    else (t, false)

unfoldable pub set_privates : List ℕ → Bool → Terminal → Terminal
set_privates [] on t = t
set_privates (m ∷ ms) on t = set_privates ms on (set_private m on t)

-- The sequences with a prefix.
unfoldable pub with_prefix : Sequence → List ℕ → Terminal → Terminal × Bool
with_prefix s ps t =
    if s.prefix == b'>'
    then if s.final == b'c'
      then (reply (csi ++ codes ">1;10;0c") t, true)
      else if s.final == b'q'
      then (reply (27 ∷ codes "P>|pomar-termstate" ++ 27 ∷ b'\\' ∷ []) t, true)
      else (t, false)
    else if s.prefix == b'='
    then (t, s.final == b'c')
    else if s.prefix == b'?'
    then if s.final == b'h' || s.final == b'l'
      then (set_privates ps (s.final == b'h') t, false)
      else if s.final == b'n'
      then (if arg ps 0 0 == 6 then reply (position (b'?' ∷ []) t) t else t, true)
      else (t, s.final == b'u')
    else (t, false)

unfoldable pub tabs_on : ℕ → Terminal → Terminal
tabs_on zero t = t
tabs_on (suc n) t = tabs_on n (at_x t (next_tab t t.cur.x))

unfoldable pub tabs_back : ℕ → Terminal → Terminal
tabs_back zero t = t
tabs_back (suc n) t = tabs_back n (at_x t (prev_tab t t.cur.x))

-- A round of REP: a text again, with the width of its base, which is at least 1.
unfoldable pub print_again : (ℕ → Bool) → List ℕ → Terminal → Terminal
print_again is_mark [] t = t
print_again is_mark (r ∷ s) t =
    let w = rune_width is_mark r in print (r ∷ s) (if w == 0 then 1 else w) t

-- Each round reads the last text anew, which never becomes empty.
unfoldable pub repeat : (ℕ → Bool) → ℕ → Terminal → Terminal
repeat is_mark zero t = t
repeat is_mark (suc n) t = repeat is_mark n (print_again is_mark t.last t)

unfoldable pub clear_tabs : ℕ → Terminal → Terminal
clear_tabs n t =
    if n == 0
    then record t { tabs = set t.tabs t.cur.x false }
    else if n == 3
    then record t { tabs = map (λ (b : Bool). false) t.tabs }
    else t

unfoldable pub set_ansi : List ℕ → Bool → Terminal → Terminal
set_ansi [] on t = t
set_ansi (m ∷ ms) on t =
    set_ansi ms on (if m == 4 then with_modes t (record t.modes { insert = on }) else t)

-- DECSTBM
unfoldable pub set_region : ℕ → ℕ → Terminal → Terminal
set_region top bot t =
    if ltb top bot && ltb bot t.rows then move_to 0 0 (record t { top = top; bot = bot }) else t

-- The cursor's moves.
unfoldable pub cursor_up : ℕ → Terminal → Terminal
cursor_up n t = at_y t (clamp (t.cur.y - n) (top0 t) (t.rows - 1))

unfoldable pub cursor_down : ℕ → Terminal → Terminal
cursor_down n t = at_y t (clamp (t.cur.y + n) 0 (bot0 t))

unfoldable pub cursor_right : ℕ → Terminal → Terminal
cursor_right n t = at_x t (clamp (t.cur.x + n) 0 (t.cols - 1))

unfoldable pub cursor_left : ℕ → Terminal → Terminal
cursor_left n t = at_x t (clamp (t.cur.x - n) 0 (t.cols - 1))

unfoldable pub cursor_column : ℕ → Terminal → Terminal
cursor_column n t = at_x t (clamp (n - 1) 0 (t.cols - 1))

unfoldable pub line_start : Terminal → Terminal
line_start t = at_x t 0

-- SD with more than one parameter is another sequence, and so is `s` with any.
unfoldable pub scroll_down_bare : List ℕ → ℕ → Terminal → Terminal
scroll_down_bare ps n t = if leb (length ps) 1 then scroll_down n t else t

unfoldable pub save_bare : List ℕ → Terminal → Terminal
save_bare ps t = if length ps == 0 then save_cursor t else t

unfoldable pub mended_line : ℕ → Terminal → Terminal
mended_line mode t = edit_row mend (erase_line mode t)

-- The sequences that edit the screen or set something.
unfoldable pub edited : (ℕ → Bool) → ℕ → List ℕ → Terminal → Terminal
edited is_mark final ps t =
    let n = arg ps 0 1 in
    if final == b'@'
    then insert_cells n t
    else if final == b'J'
    then erase_display (arg ps 0 0) t
    else if final == b'K'
    then mended_line (arg ps 0 0) t
    else if final == b'L'
    then insert_lines n t
    else if final == b'M'
    then delete_lines n t
    else if final == b'P'
    then delete_cells n t
    else if final == b'S'
    then scroll_up n t
    else if final == b'T'
    then scroll_down_bare ps n t
    else if final == b'X'
    then erase_cells n t
    else if final == b'b'
    then repeat is_mark (clamp n 1 (2 ^ 16)) t
    else if final == b'g'
    then clear_tabs (arg ps 0 0) t
    else if final == b'h' || final == b'l'
    then set_ansi ps (final == b'h') t
    else if final == b'r'
    then set_region (n - 1) (arg ps 1 t.rows - 1) t
    else if final == b's'
    then save_bare ps t
    else if final == b'u'
    then restore_cursor t
    else t

-- The sequences that move the cursor, and the others.
unfoldable pub moved : (ℕ → Bool) → ℕ → List ℕ → Terminal → Terminal
moved is_mark final ps t =
    let n = arg ps 0 1 in
    if final == b'A'
    then cursor_up n t
    else if final == b'B' || final == b'e'
    then cursor_down n t
    else if final == b'C' || final == b'a'
    then cursor_right n t
    else if final == b'D'
    then cursor_left n t
    else if final == b'E'
    then line_start (cursor_down n t)
    else if final == b'F'
    then line_start (cursor_up n t)
    else if final == b'G' || final == b'`'
    then cursor_column n t
    else if final == b'H' || final == b'f'
    then move_to (arg ps 1 1 - 1) (n - 1) t
    else if final == b'I'
    then tabs_on n t
    else if final == b'Z'
    then tabs_back n t
    else if final == b'd'
    then move_to t.cur.x (n - 1) t
    else edited is_mark final ps t

-- The queries, which the host answers.
unfoldable pub answered : ℕ → List ℕ → Terminal → Option Terminal
answered final ps t =
    let n = arg ps 0 0 in
    if final == b'c'
    then some (if n == 0 then reply (csi ++ codes "?62;22c") t else t)
    else if final == b'n'
    then some (
        if n == 5
        then reply (csi ++ codes "0n") t
        else if n == 6
        then reply (position [] t) t
        else t)
    else if final == b't'
    then some (
        if n == 18
        then reply (two_numbers (codes "8;") (itoa t.rows) (itoa t.cols) (b't' ∷ [])) t
        else t)
    else none

-- Only a move of the cursor or an edit ends a pending wrap.
unfoldable pub ends_wrap : ℕ → Bool
ends_wrap final = has_byte final (codes "@ABCDEFGHfIZJKLMPSTX`ader")

unfoldable pub commanded : (ℕ → Bool) → Sequence → List ℕ → Terminal → Terminal
commanded is_mark s ps t =
    if s.final == b'm'
    then record t { cur = record t.cur { attr = sgr ps s.body t.cur.attr } }
    else (let t' = moved is_mark s.final ps t in if ends_wrap s.final then pending t' false else t')

unfoldable pub or_forward : Option Terminal → Terminal → Terminal × Bool
or_forward none t = (t, false)
or_forward (some u) t = (u, true)

unfoldable pub unprefixed : (ℕ → Bool) → Sequence → List ℕ → Terminal → Terminal × Bool
unprefixed is_mark s ps t = or_forward (answered s.final ps t) (commanded is_mark s ps t)

-- The terminal, and whether the host answered the sequence, which then is not forwarded.
unfoldable pub dispatch : (ℕ → Bool) → Sequence → Terminal → Terminal × Bool
dispatch is_mark s t = elim s.inter [
  | _ ∷ _ ↦ with_inter s (params s.body) t
  | [] ↦
      if s.prefix == 0
      then unprefixed is_mark s (params s.body) t
      else with_prefix s (params s.body) t
]

-- `csiDispatch`
unfoldable pub csi_dispatch : (ℕ → Bool) → List ℕ → Terminal → Terminal × Bool
csi_dispatch is_mark seq t = dispatch is_mark (parsed seq) t
