-- ===== src/Tests/WideRun.antt =====
-- A run of internal/termstate: a wide character printed in the last column over the second half of
-- another one, which leaves the first half of that one alone.
use pomar.Prelude.{◌≡◌, refl, false}
use pomar.Tests.TerminalRuns.{no_marks, small, wide_twice}
use pomar.Terminal.Screen.{row_at}
use pomar.Terminal.Pairs.{paired}
use pomar.Terminal.{blank, new_row, new_grid, tab_stops, reset, new, grid, with_grid}
use pomar.Terminal.Controls.{
  bool_eq, save_cursor, restore_cursor, move_to, top0, bot0, report_row, find_stop, next_tab,
  prev_tab, switch_screen, set_private, mode_state, soft_reset,
}
use pomar.Terminal.Csi.{
  init_bytes, last_byte, split_inter, sequence_of, parsed, two_numbers, position, report_mode,
  with_inter, set_privates, with_prefix, tabs_on, tabs_back, print_again, repeat, clear_tabs,
  set_ansi, set_region, cursor_up, cursor_down, cursor_right, cursor_left, cursor_column,
  line_start, scroll_down_bare, save_bare, mended_line, edited, moved, answered, ends_wrap,
  commanded, or_forward, unprefixed, dispatch, csi_dispatch,
}
use pomar.Terminal.Edit.{
  erase_from, erase_to, erase_row, erase_line, wipe_rows, erase_below, erase_above, erase_all,
  erase_display, insert_cells, delete_cells, erase_cells, insert_lines, delete_lines, align,
}
use pomar.Terminal.Parse.{
  print_rune, print_ascii, control, esc_action, esc_dispatch, esc_inter_dispatch, strip_controls,
  string_body, color_reply, end_osc, end_dcs, end_string, ground_byte, held_step, ground_step,
  escape_step, esc_inter_step, csi_step, string_step, fresh_escape, string_esc_step, pass_step,
  pass_esc_step, step, feed, take_replies, no_control, held, handle, session,
}
use pomar.Terminal.Print.{
  rune_len, text_len, has_room, column_before, joined_column, shown_text, join_cell, join_at,
  join_mark, take_wrap, blank_here, make_room, put_char, advance, place, print,
}
use pomar.Terminal.Rows.{
  width_at, set_cell, blank_at, clear_wide, mend_cell, mend_from, mend, shift_right, shift_left,
  fill, text_from, row_text,
}
use pomar.Terminal.Screen.{
  clamp, map_row, push_history, history, history_text, screen_row, rows_up, rows_down, scroll_once,
  scroll_up_by, scroll_up, scroll_up_no_history, scroll_down_by, scroll_down, line_feed,
  reverse_index,
}
use pomar.Terminal.Sgr.{
  atoi_byte, semicolon_color, colon_color, apply_code, plain_field, colon_field, code_of, field,
  fields, sgr,
}
use pomar.Terminal.Text.{
  split_on, before, after, text_eq, has_byte, digits_value, signed, atoi, param, params, arg,
  itoa_fuel, itoa, itoa_ℤ,
}
use pomar.Terminal.Utf8.{rune_size, accepts, full_rune, decode_rune, runes_from}
use pomar.Terminal.Width.{width_in, rune_width}
use pomar.Terminal.Pairs.{paired_from}

half_is_left : paired (row_at (grid (feed no_marks wide_twice small).0) 0) ≡ false
unfolding blank new_row new_grid tab_stops reset new grid with_grid bool_eq save_cursor
    restore_cursor move_to top0 bot0 report_row find_stop next_tab prev_tab switch_screen
    set_private mode_state soft_reset init_bytes last_byte split_inter sequence_of parsed
    two_numbers position report_mode with_inter set_privates with_prefix tabs_on tabs_back
    print_again repeat clear_tabs set_ansi set_region cursor_up cursor_down cursor_right cursor_left
    cursor_column line_start scroll_down_bare save_bare mended_line edited moved answered ends_wrap
    commanded or_forward unprefixed dispatch csi_dispatch erase_from erase_to erase_row erase_line
    wipe_rows erase_below erase_above erase_all erase_display insert_cells delete_cells erase_cells
    insert_lines delete_lines align print_rune print_ascii control esc_action esc_dispatch
    esc_inter_dispatch strip_controls string_body color_reply end_osc end_dcs end_string ground_byte
    held_step ground_step escape_step esc_inter_step csi_step string_step fresh_escape
    string_esc_step pass_step pass_esc_step step feed take_replies no_control held handle session
    rune_len text_len has_room column_before joined_column shown_text join_cell join_at join_mark
    take_wrap blank_here make_room put_char advance place print width_at set_cell blank_at
    clear_wide mend_cell mend_from mend shift_right shift_left fill text_from row_text clamp map_row
    push_history history history_text screen_row rows_up rows_down scroll_once scroll_up_by
    scroll_up scroll_up_no_history scroll_down_by scroll_down line_feed reverse_index atoi_byte
    semicolon_color colon_color apply_code plain_field colon_field code_of field fields sgr split_on
    before after text_eq has_byte digits_value signed atoi param params arg itoa_fuel itoa itoa_ℤ
    rune_size accepts full_rune decode_rune runes_from width_in rune_width paired paired_from
half_is_left = refl
