-- ===== src/BootMenu.antt =====
-- boot/common/bootmenu.c: the state machine of the boot menu.
pub mod Reach
pub mod Countdown
mod Tests
use bongos.Common.{
  ℕ, ◌+◌, ◌-◌, Bool, true, false, not, ◌&&◌, ◌||◌, ltb, leb, ◌==◌, if◌then◌else◌, sub32, add32,
}

pub data BootKey : Type 0 where
  key_none key_up key_down key_enter key_other : BootKey
  key_digit : ℕ → BootKey

pub data BootMenuAction : Type 0 where
  menu_none menu_redraw_rows menu_redraw_countdown menu_boot : BootMenuAction

abbrev pub timeout_forever : ℕ
timeout_forever = 0xffffffff

pub record BootMenuState : Type 0 where
  pub entry_count : ℕ
  pub selected : ℕ
  pub old_selected : ℕ
  pub timeout_sec : ℕ
  pub remaining_sec : ℕ
  pub countdown_active : Bool

-- The three fields of the `BootCfg` that bootMenuInit reads.
pub init : ℕ → ℕ → ℕ → BootMenuState
init entry_count default_index timeout_sec = record {
  entry_count = entry_count;
  selected = default_index;
  old_selected = default_index;
  timeout_sec = timeout_sec;
  remaining_sec = timeout_sec;
  countdown_active = ltb 0 timeout_sec;
}

pub stop_countdown : BootMenuState → BootMenuState × BootMenuAction
stop_countdown state =
    if state.countdown_active
    then (record state { countdown_active = false }, menu_redraw_countdown)
    else (state, menu_none)

-- What a move that is already at its end reports.
abbrev stopped : Bool → BootMenuAction
stopped was_active = if was_active then menu_redraw_countdown else menu_none

pub key : BootMenuState → BootKey → BootMenuState × BootMenuAction
key state key_up =
    if state.selected == 0
    then (record state { countdown_active = false }, stopped state.countdown_active)
    else (
      record state {
        countdown_active = false;
        old_selected = state.selected;
        selected = state.selected - 1;
      },
      menu_redraw_rows,
    )
key state key_down =
    if leb state.entry_count (add32 state.selected 1)
    then (record state { countdown_active = false }, stopped state.countdown_active)
    else (
      record state {
        countdown_active = false;
        old_selected = state.selected;
        selected = add32 state.selected 1;
      },
      menu_redraw_rows,
    )
key state key_enter = (state, menu_boot)
key state (key_digit n) =
    if leb 1 n && leb n state.entry_count
    then (record state { old_selected = state.selected; selected = n - 1 }, menu_boot)
    else (state, menu_none)
key state key_other = stop_countdown state
key state key_none = (state, menu_none)

pub tick : BootMenuState → BootMenuState × BootMenuAction
tick state =
    if not state.countdown_active || state.timeout_sec == timeout_forever
    then (state, menu_none)
    else if state.remaining_sec == 0
    then (state, menu_none)
    else if state.remaining_sec == 1
    then (record state { remaining_sec = 0; countdown_active = false }, menu_boot)
    else (record state { remaining_sec = state.remaining_sec - 1 }, menu_redraw_countdown)
