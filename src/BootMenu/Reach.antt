-- ===== src/BootMenu/Reach.antt =====
-- The states that the menu reaches as its caller feeds it keys and seconds.
use bongos.Common.{ℕ, ◌≤◌, ◌<◌, ◌≡◌, refl, arith, u32_mod}
use bongos.BootMenu.{
  BootKey, key_none, key_up, key_down, key_enter, key_digit, key_other, BootMenuState, init, key,
  tick, stop_countdown,
}

-- What the caller does: it feeds a key or lets a second pass.
pub data Reaches (start : BootMenuState) : BootMenuState → Type 0 where
  begins : Reaches start start
  pressed : (s : BootMenuState) (k : BootKey) → Reaches start s → Reaches start (key s k).0
  ticked : (s : BootMenuState) → Reaches start s → Reaches start (tick s).0

-- The selection is an entry, and so is the one it left; the count is that of the configuration;
-- the countdown has not gone up.
pub record IsValid (count timeout : ℕ) (s : BootMenuState) : Type 0 where
  pub count_kept : s.entry_count ≡ count
  pub in_menu : s.selected < count
  pub old_in_menu : s.old_selected < count
  pub timeout_kept : s.timeout_sec ≡ timeout
  pub counted : s.remaining_sec ≤ timeout

module _ (count timeout : ℕ) (small : count < u32_mod) where
  key-IsValid :
      (s : BootMenuState) (k : BootKey)
      → IsValid count timeout s
      → IsValid count timeout (key s k).0
  unfolding key stop_countdown
  key-IsValid s key_none v = v
  key-IsValid s key_up v = record {
    count_kept = ground (arith, v.count_kept);
    in_menu = ground (arith, v.in_menu);
    old_in_menu = ground (arith, v.in_menu, v.old_in_menu);
    timeout_kept = ground (arith, v.timeout_kept);
    counted = ground (arith, v.counted);
  }
  key-IsValid s key_down v = record {
    count_kept = ground (arith, v.count_kept);
    in_menu = ground (arith, v.in_menu, v.count_kept, small);
    old_in_menu = ground (arith, v.in_menu, v.old_in_menu);
    timeout_kept = ground (arith, v.timeout_kept);
    counted = ground (arith, v.counted);
  }
  key-IsValid s key_enter v = v
  key-IsValid s (key_digit n) v = record {
    count_kept = ground (arith, v.count_kept);
    in_menu = ground (arith, v.in_menu, v.count_kept);
    old_in_menu = ground (arith, v.in_menu, v.old_in_menu);
    timeout_kept = ground (arith, v.timeout_kept);
    counted = ground (arith, v.counted);
  }
  key-IsValid s key_other v = record {
    count_kept = ground (arith, v.count_kept);
    in_menu = ground (arith, v.in_menu);
    old_in_menu = ground (arith, v.old_in_menu);
    timeout_kept = ground (arith, v.timeout_kept);
    counted = ground (arith, v.counted);
  }

  tick-IsValid : (s : BootMenuState) → IsValid count timeout s → IsValid count timeout (tick s).0
  unfolding tick
  tick-IsValid s v = record {
    count_kept = ground (arith, v.count_kept);
    in_menu = ground (arith, v.in_menu);
    old_in_menu = ground (arith, v.old_in_menu);
    timeout_kept = ground (arith, v.timeout_kept);
    counted = ground (arith, v.counted);
  }

  -- Whatever keys are pressed and seconds pass, the selection of a menu that begins at an entry of
  -- the configuration is an entry of it.
  pub reached-IsValid :
      (default_index : ℕ) (s : BootMenuState)
      → default_index < count
      → Reaches (init count default_index timeout) s
      → IsValid count timeout s
  unfolding init
  reached-IsValid d s h begins = record {
    count_kept = refl;
    in_menu = h;
    old_in_menu = h;
    timeout_kept = refl;
    counted = omega arith;
  }
  reached-IsValid d s h (pressed s' k r) = key-IsValid s' k (reached-IsValid d s' h r)
  reached-IsValid d s h (ticked s' r) = tick-IsValid s' (reached-IsValid d s' h r)
