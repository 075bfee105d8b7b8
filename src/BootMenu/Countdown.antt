-- ===== src/BootMenu/Countdown.antt =====
-- The countdown of the boot menu.
use bongos.Common.{
  ℕ, zero, suc, ◌-◌, ◌<◌, ◌≡◌, ◌≢◌, refl, ap, true, false, arith, List, [], ◌∷◌, ◌++◌, replicate,
}
use bongos.BootMenu.{
  BootKey, key_none, key_up, key_down, key_enter, key_digit, key_other, BootMenuState,
  BootMenuAction, menu_none, menu_boot, menu_redraw_countdown, init, key, tick, stop_countdown,
  timeout_forever,
}

-- What `n` seconds without a key report.
abbrev pub seconds : ℕ → BootMenuState → List BootMenuAction
seconds zero s = []
seconds (suc n) s = (tick s).1 ∷ seconds n (tick s).0

abbrev pub after : ℕ → BootMenuState → BootMenuState
after zero s = s
after (suc n) s = after n (tick s).0

seconds_running :
    (n : ℕ) (s : BootMenuState)
    → s.remaining_sec ≡ suc n
    → s.countdown_active ≡ true
    → s.timeout_sec ≢ timeout_forever
    → (seconds (suc n) s ≡ replicate n menu_redraw_countdown ++ menu_boot ∷ [])
      × ((after (suc n) s).selected ≡ s.selected)
unfolding tick
seconds_running zero s r a t =
    let now : tick s ≡ (record s { remaining_sec = 0; countdown_active = false }, menu_boot) =
      ground arith in
    (rw now refl, rw (after, now) refl)
seconds_running (suc n) s r a t =
    let s' = record s { remaining_sec = s.remaining_sec - 1 } in
    let now : tick s ≡ (s', menu_redraw_countdown) = ground arith in
    let later = seconds_running n s' (omega arith) a t in
    (rw now (ap (λ l. menu_redraw_countdown ∷ l) later.0), rw (after, now) later.1)

-- A menu with a countdown that no key stops boots the default entry after just that many seconds.
pub countdown_boots :
    (count default_index n : ℕ)
    → suc n < timeout_forever
    → (seconds (suc n) (init count default_index (suc n))
        ≡ replicate n menu_redraw_countdown ++ menu_boot ∷ [])
      × ((after (suc n) (init count default_index (suc n))).selected ≡ default_index)
unfolding init
countdown_boots count d n h =
    seconds_running n (init count d (suc n)) refl (ground arith) (λ e. omega arith)

seconds_stopped :
    (n : ℕ) (s : BootMenuState)
    → s.countdown_active ≡ false
    → (seconds n s ≡ replicate n menu_none) × (after n s ≡ s)
unfolding tick
seconds_stopped zero s h = (refl, refl)
seconds_stopped (suc n) s h =
    let now : tick s ≡ (s, menu_none) = ground arith in
    let later = seconds_stopped n s h in rw now (ap (λ l. menu_none ∷ l) later.0, later.1)

-- The keys that stop the countdown.
abbrev pub Stops : BootKey → Type 0
Stops key_up = Unit {0}
Stops key_down = Unit {0}
Stops key_other = Unit {0}
Stops key_none = ⊥
Stops key_enter = ⊥
Stops (key_digit n) = ⊥

key-stopped : (s : BootMenuState) (k : BootKey) → Stops k → (key s k).0.countdown_active ≡ false
unfolding key stop_countdown
key-stopped s key_up h = ground arith
key-stopped s key_down h = ground arith
key-stopped s key_other h = ground arith
key-stopped s key_none h = absurd h
key-stopped s key_enter h = absurd h
key-stopped s (key_digit n) h = absurd h

-- After an arrow, whether it moves the selection or not, or a key that the menu does not know, the
-- passing seconds report nothing and change nothing.
pub stopped_stays :
    (s : BootMenuState) (k : BootKey) (n : ℕ)
    → Stops k
    → (seconds n (key s k).0 ≡ replicate n menu_none) × (after n (key s k).0 ≡ (key s k).0)
stopped_stays s k n h = seconds_stopped n (key s k).0 (key-stopped s k h)
