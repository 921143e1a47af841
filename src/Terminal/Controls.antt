-- ===== src/Terminal/Controls.antt =====
-- The modes, the alternate screen and the cursor's moves of internal/termstate/parser.go.
use pomar.Prelude.{
  ℕ, zero, suc, ◌+◌, ◌-◌, Bool, true, false, ◌||◌, not, none, some, leb, ◌==◌, if◌then◌else◌,
  get_elem?,
}
use pomar.Prelude.Int.{ℤ, pos, sub_ℕ}
use pomar.Terminal.{Terminal, Modes, plain, home, new_grid}
use pomar.Terminal.Screen.{clamp}

unfoldable pub bool_eq : Bool → Bool → Bool
bool_eq true b = b
bool_eq false b = not b

unfoldable pub save_cursor : Terminal → Terminal
save_cursor t = record t { saved = t.cur; saved_set = true }

unfoldable pub restore_cursor : Terminal → Terminal
restore_cursor t = if t.saved_set then record t { cur = t.saved } else t

-- `moveTo`
unfoldable pub move_to : ℕ → ℕ → Terminal → Terminal
move_to x y t =
    let y' = if t.cur.origin then clamp (y + t.top) t.top t.bot else clamp y 0 (t.rows - 1) in
    record t { cur = record t.cur { x = clamp x 0 (t.cols - 1); y = y'; wrap_pending = false } }

-- `top0` and `bot0`: where upward and downward moves stop.
unfoldable pub top0 : Terminal → ℕ
top0 t = if leb t.top t.cur.y then t.top else 0

unfoldable pub bot0 : Terminal → ℕ
bot0 t = if leb t.cur.y t.bot then t.bot else t.rows - 1

-- `reportPosition`; in origin mode a cursor above the region has a row that is not positive.
unfoldable pub report_row : Terminal → ℤ
report_row t = if t.cur.origin then sub_ℕ (t.cur.y + 1) t.top else pos (t.cur.y + 1)

-- `nextTab`: the first stop right of the column, within the `n` columns from `i` on.
unfoldable pub find_stop : ℕ → ℕ → Terminal → ℕ
find_stop zero i t = t.cols - 1
find_stop (suc n) i t =
    let rest = find_stop n (i + 1) t in
    elim (get_elem? t.tabs i) [ some b ↦ if b then i else rest | none ↦ rest ]

unfoldable pub next_tab : Terminal → ℕ → ℕ
next_tab t x = find_stop (t.cols - (x + 1)) (x + 1) t

-- `prevTab`: the first stop left of the column, down to column 1.
unfoldable pub prev_tab : Terminal → ℕ → ℕ
prev_tab t zero = 0
prev_tab t (suc i) =
    let rest = prev_tab t i in
    if i == 0 then 0 else elim (get_elem? t.tabs i) [ some b ↦ if b then i else rest | none ↦ rest ]

-- `switchScreen`
unfoldable pub switch_screen : Bool → Bool → Terminal → Terminal
switch_screen alt save_it t =
    if bool_eq alt t.alt_active
    then t
    else if alt
    then record (if save_it then save_cursor t else t) {
      alt_active = true;
      alt = new_grid t.cols t.rows plain;
    }
    else (let t' = record t { alt_active = false } in if save_it then restore_cursor t' else t')

-- A mouse mode or encoding: set to `m`, or reset if it is `m`.
abbrev pub toggle : ℕ → Bool → ℕ → ℕ
toggle m on old = if on then m else if old == m then 0 else old

abbrev pub with_modes : Terminal → Modes → Terminal
with_modes t m = record t { modes = m }

abbrev is_mouse : ℕ → Bool
is_mouse m = m == 9 || m == 1000 || m == 1002 || m == 1003

abbrev is_encoding : ℕ → Bool
is_encoding m = m == 1005 || m == 1006 || m == 1015

-- `setPrivate`
unfoldable pub set_private : ℕ → Bool → Terminal → Terminal
set_private m on t =
    if m == 1
    then with_modes t (record t.modes { app_cursor_keys = on })
    else if m == 5
    then with_modes t (record t.modes { reverse_video = on })
    else if m == 6
    then move_to 0 0 (record t { cur = record t.cur { origin = on } })
    else if m == 7
    then with_modes t (record t.modes { auto_wrap = on })
    else if m == 25
    then with_modes t (record t.modes { cursor_visible = on })
    else if is_mouse m
    then with_modes t (record t.modes { mouse = toggle m on t.modes.mouse })
    else if is_encoding m
    then with_modes t (record t.modes { mouse_encoding = toggle m on t.modes.mouse_encoding })
    else if m == 1004
    then with_modes t (record t.modes { focus_events = on })
    else if m == 2004
    then with_modes t (record t.modes { bracketed_paste = on })
    else if m == 47 || m == 1047
    then switch_screen on false t
    else if m == 1048
    then (if on then save_cursor t else restore_cursor t)
    else if m == 1049
    then switch_screen on true t
    else t

abbrev answer : Bool → ℕ
answer b = if b then 1 else 2

-- `modeState`: 1 set, 2 reset, 0 not recognised.
unfoldable pub mode_state : Bool → ℕ → Terminal → ℕ
mode_state is_private m t =
    if not is_private
    then (if m == 4 then answer t.modes.insert else 0)
    else if m == 1
    then answer t.modes.app_cursor_keys
    else if m == 5
    then answer t.modes.reverse_video
    else if m == 6
    then answer t.cur.origin
    else if m == 7
    then answer t.modes.auto_wrap
    else if m == 25
    then answer t.modes.cursor_visible
    else if is_mouse m
    then answer (t.modes.mouse == m)
    else if is_encoding m
    then answer (t.modes.mouse_encoding == m)
    else if m == 1004
    then answer t.modes.focus_events
    else if m == 2004
    then answer t.modes.bracketed_paste
    else if m == 47 || m == 1047 || m == 1049
    then answer t.alt_active
    else 0

-- `DECSTR`, the soft reset.
unfoldable pub soft_reset : Terminal → Terminal
soft_reset t = record t {
  modes = record {
    auto_wrap = true;
    origin = false;
    insert = false;
    cursor_visible = true;
    app_cursor_keys = false;
    app_keypad = false;
    bracketed_paste = false;
    focus_events = false;
    mouse = 0;
    mouse_encoding = 0;
    reverse_video = false;
  };
  cur = record t.cur { attr = plain; origin = false };
  top = 0;
  bot = t.rows - 1;
  saved = home;
  saved_set = false;
}
