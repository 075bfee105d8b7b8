-- ===== src/Irq/Vectors/Marks.antt =====
-- The vectors that a change of one bit leaves alone.
use bongos.Common.{
  ℕ, ◌/◌, ◌%◌, ◌<◌, ◌≡◌, ◌≢◌, true, false, inl, inr, arith, ◌==◌, length, get_or, set, Bool-cases,
  get_or-set_self, get_or-set_ne,
}
use bongos.Common.Bits.{
  test_bit, set_bit, clear_bit, test_bit-set_self, test_bit-set_ne, test_bit-clear_self,
  test_bit-clear_ne,
}
use bongos.Irq.Vectors.{IrqVectorMap, is_used, mark, unmark}

-- The map has its four words.
abbrev pub IsMap : IrqVectorMap → Type 0
IsMap m = length m.used ≡ 4

pub mark_self : (m : IrqVectorMap) (v : ℕ) → IsMap m → v < 256 → is_used (mark m v) v ≡ true
unfolding mark is_used
mark_self m v l h =
    rw
      (get_or-set_self m.used (v / 64) (set_bit (get_or m.used (v / 64) 0) (v % 64)) 0
        (omega arith))
      (test_bit-set_self (get_or m.used (v / 64) 0) (v % 64))

pub unmark_self : (m : IrqVectorMap) (v : ℕ) → IsMap m → v < 256 → is_used (unmark m v) v ≡ false
unfolding unmark is_used
unmark_self m v l h =
    rw
      (get_or-set_self m.used (v / 64) (clear_bit (get_or m.used (v / 64) 0) (v % 64)) 0
        (omega arith))
      (test_bit-clear_self (get_or m.used (v / 64) 0) (v % 64))

-- A word that is changed at bit `v % 64` alone answers as before for every other vector.
module _ (m : IrqVectorMap) (v u w : ℕ) (l : IsMap m) (h : v < 256) (ne : v ≢ u) where
  other_word :
      (v % 64 ≢ u % 64 → test_bit w (u % 64) ≡ test_bit (get_or m.used (v / 64) 0) (u % 64))
      → test_bit (get_or (set m.used (v / 64) w) (u / 64) 0) (u % 64)
        ≡ test_bit (get_or m.used (u / 64) 0) (u % 64)
  other_word same = elim (Bool-cases (v / 64 == u / 64)) [
    | inl e ↦
        let e' : v / 64 ≡ u / 64 = ground arith in
        rw (← e') (rw (get_or-set_self m.used (v / 64) w 0 (omega arith)) (same (omega arith)))
    | inr n ↦ rw (get_or-set_ne m.used {i = v / 64} {j = u / 64} w 0 (ground arith))
  ]

pub mark_ne :
    (m : IrqVectorMap) (v u : ℕ) → IsMap m → v < 256 → v ≢ u → is_used (mark m v) u ≡ is_used m u
unfolding mark is_used
mark_ne m v u l h ne =
    other_word m v u _ l h ne (test_bit-set_ne (get_or m.used (v / 64) 0) (v % 64) (u % 64))

pub unmark_ne :
    (m : IrqVectorMap) (v u : ℕ) → IsMap m → v < 256 → v ≢ u → is_used (unmark m v) u ≡ is_used m u
unfolding unmark is_used
unmark_ne m v u l h ne =
    other_word m v u _ l h ne (test_bit-clear_ne (get_or m.used (v / 64) 0) (v % 64) (u % 64))
