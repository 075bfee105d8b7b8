-- ===== src/BootMenu/Tests.antt =====
-- The boot menu at small inputs.
use bongos.Common.{◌≡◌, refl, arith, [], ◌∷◌, ◌++◌, replicate}
use bongos.BootMenu.{
  BootMenuState, key_up, key_down, key_digit, menu_none, menu_boot, menu_redraw_rows,
  menu_redraw_countdown, init, key, tick,
}
use bongos.BootMenu.Reach.{IsValid, begins, pressed, ticked, reached-IsValid}
use bongos.BootMenu.Countdown.{seconds, after, countdown_boots, stopped_stays}

abbrev menu : BootMenuState
menu = init 3 1 5

down_from_one : (key menu key_down).1 ≡ menu_redraw_rows
unfolding key init
down_from_one = refl

digit_past_the_end : (key menu (key_digit 4)).1 ≡ menu_none
unfolding key init
digit_past_the_end = refl

reached-IsValid_example : IsValid 3 5 (tick (key menu key_down).0).0
reached-IsValid_example =
    reached-IsValid 3 5 (omega arith) 1 (tick (key menu key_down).0).0 (omega arith)
      (ticked (key menu key_down).0 (pressed menu key_down begins))

countdown_boots_example :
    (seconds 5 (init 3 1 5) ≡ replicate 4 menu_redraw_countdown ++ menu_boot ∷ [])
    × ((after 5 (init 3 1 5)).selected ≡ 1)
countdown_boots_example = countdown_boots 3 1 4 (omega arith)

stopped_stays_example :
    (seconds 7 (key menu key_up).0 ≡ replicate 7 menu_none)
    × (after 7 (key menu key_up).0 ≡ (key menu key_up).0)
stopped_stays_example = stopped_stays menu key_up 7 tt
