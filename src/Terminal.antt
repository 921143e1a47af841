-- ===== src/Terminal.antt =====
-- internal/termstate: the state of a terminal. This file has the types of terminal.go and the start
-- state; the columns, rows and counts of the code are ints that never are negative, and a cell's
-- text, a Go string that holds encoded runes only, is the list of its runes. The fields `exact` and
-- `repExact`, which only a snapshot sets and reads, are left out.
pub mod Rows
pub mod Screen
pub mod Print
pub mod Controls
pub mod Edit
pub mod Text
pub mod Sgr
pub mod Width
pub mod Csi
pub mod Utf8
pub mod Parse
pub mod Resize
pub mod Placed
pub mod Ring
pub mod Pairs
pub mod Sized
pub mod Wire
use pomar.Prelude.{
  ℕ, zero, suc, ◌+◌, ◌-◌, ◌*◌, ◌%◌, ◌^◌, Bool, true, false, ◌&&◌, List, [], ◌∷◌, Option, none, some,
  leb, ltb, ◌==◌, if◌then◌else◌, replicate, length,
}

-- The default colour, one of 256, or a 24-bit one.
pub data Color : Type 0 where
  default : Color
  indexed : ℕ → Color
  rgb : ℕ → ℕ → ℕ → Color

-- The rendition bits of `Flags`.
pub record Flags : Type 0 where
  pub bold : Bool
  pub dim : Bool
  pub italic : Bool
  pub underline : Bool
  pub blink : Bool
  pub reverse : Bool
  pub hidden : Bool
  pub strike : Bool

pub record Attr : Type 0 where
  pub fg : Color
  pub bg : Color
  pub flags : Flags

abbrev pub no_flags : Flags
no_flags = record {
  bold = false;
  dim = false;
  italic = false;
  underline = false;
  blink = false;
  reverse = false;
  hidden = false;
  strike = false;
}

abbrev pub plain : Attr
plain = record { fg = default; bg = default; flags = no_flags }

pub record Cell : Type 0 where
  pub text : List ℕ
  pub width : ℕ
  pub attr : Attr

abbrev pub Row : Type 0
Row = List Cell

abbrev pub Grid : Type 0
Grid = List Row

unfoldable pub blank : Attr → Cell
blank a = record {
  text = [];
  width = 1;
  attr = record { fg = default; bg = a.bg; flags = no_flags };
}

pub record Line : Type 0 where
  pub id : ℕ
  pub cells : Row

pub record Modes : Type 0 where
  pub auto_wrap : Bool
  pub origin : Bool
  pub insert : Bool
  pub cursor_visible : Bool
  pub app_cursor_keys : Bool
  pub app_keypad : Bool
  pub bracketed_paste : Bool
  pub focus_events : Bool
  pub mouse : ℕ
  pub mouse_encoding : ℕ
  pub reverse_video : Bool

pub record Cursor : Type 0 where
  pub x : ℕ
  pub y : ℕ
  pub attr : Attr
  pub origin : Bool
  pub wrap_pending : Bool

-- The state of the parser: parser.go.
pub data ParserState : Type 0 where
  ground escape esc_inter csi_entry osc_string osc_esc ctl_string ctl_string_esc : ParserState
  pass_string pass_string_esc : ParserState

pub record Parser : Type 0 where
  pub state : ParserState
  pub seq : List ℕ
  pub utf8 : List ℕ
  pub g0 : ℕ
  pub g1 : ℕ
  pub shift : ℕ

pub record Terminal : Type 0 where
  pub cols : ℕ
  pub rows : ℕ
  pub main : Grid
  pub alt : Grid
  pub alt_active : Bool
  pub cur : Cursor
  pub saved : Cursor
  pub saved_set : Bool
  pub top : ℕ
  pub bot : ℕ
  pub modes : Modes
  pub tabs : List Bool
  pub history : List Line
  pub hist_start : ℕ
  pub next_line : ℕ
  pub max_history : ℕ
  pub title : List ℕ
  pub cursor_style : ℕ
  pub last : List ℕ
  pub p : Parser
  pub replies : List ℕ

abbrev pub home : Cursor
home = record { x = 0; y = 0; attr = plain; origin = false; wrap_pending = false }

abbrev pub default_modes : Modes
default_modes = record {
  auto_wrap = true;
  origin = false;
  insert = false;
  cursor_visible = true;
  app_cursor_keys = false;
  app_keypad = false;
  bracketed_paste = false;
  focus_events = false;
  mouse = 0;
  mouse_encoding = 0;
  reverse_video = false;
}

unfoldable pub new_row : ℕ → Attr → Row
new_row cols a = replicate cols (blank a)

unfoldable pub new_grid : ℕ → ℕ → Attr → Grid
new_grid cols rows a = replicate rows (new_row cols a)

-- A stop at each eighth column but the first: `n` columns from column `i` on.
unfoldable pub tab_stops : ℕ → ℕ → List Bool
tab_stops i zero = []
tab_stops i (suc n) = (ltb 0 i && i % 8 == 0) ∷ tab_stops (i + 1) n

unfoldable pub reset : Terminal → Terminal
reset t = record t {
  main = new_grid cols rows plain;
  alt = new_grid cols rows plain;
  alt_active = false;
  cur = home;
  saved = home;
  saved_set = false;
  top = 0;
  bot = rows - 1;
  modes = default_modes;
  tabs = tab_stops 0 cols;
  title = [];
  last = [];
  cursor_style = 0;
}
  where
    open t use {cols, rows}

abbrev pub new_parser : Parser
new_parser = record { state = ground; seq = []; utf8 = []; g0 = b'B'; g1 = b'B'; shift = 0 }

-- `New`; a history limit that is not positive keeps no history, as 0 does.
unfoldable pub new : ℕ → ℕ → ℕ → Terminal
unfolding reset
new cols rows max_history = reset (record {
  cols = if ltb cols 1 then 1 else cols;
  rows = if ltb rows 1 then 1 else rows;
  main = [];
  alt = [];
  alt_active = false;
  cur = home;
  saved = home;
  saved_set = false;
  top = 0;
  bot = 0;
  modes = default_modes;
  tabs = [];
  history = [];
  hist_start = 0;
  next_line = 0;
  max_history = max_history;
  title = [];
  cursor_style = 0;
  last = [];
  p = new_parser;
  replies = [];
})

unfoldable pub grid : Terminal → Grid
grid t = if t.alt_active then t.alt else t.main

-- The code changes the active screen in place.
unfoldable pub with_grid : Terminal → Grid → Terminal
with_grid t g = if t.alt_active then record t { alt = g } else record t { main = g }
