-- ===== src/Common/Bits.antt =====
-- Single bits of a machine word, by the bit's position: `(w >> b) & 1`, `w | 1 << b`, `w & ~(1 << b)`.
use native.Mathlib.Nat.{
  mod-add-div', add-mul-mod_self_right, mod-eq_of_lt, mod-lt, pow-suc, div-div-eq-div-mul,
}
use Prim.Native.Nat.{ℕ, max, zero, suc, ◌+◌, ◌-◌, ◌*◌, ◌/◌, ◌%◌, ◌^◌, ◌<◌, ◌≤◌}
use mathlib.Core.Bool.{Bool, true, false}
use mathlib.Core.Path.{◌≡◌, refl}
use mathlib.Core.Logic.{◌≢◌}
use native.Mathlib.Omega.{arith}
use bongos.Common.{◌==◌, if◌then◌else◌, ap, ◌∙◌}

unfoldable pub test_bit : ℕ → ℕ → Bool
test_bit w zero = w % 2 == 1
test_bit w (suc b) = test_bit (w / 2) b

unfoldable pub set_bit : ℕ → ℕ → ℕ
set_bit w zero = w / 2 * 2 + 1
set_bit w (suc b) = set_bit (w / 2) b * 2 + w % 2

unfoldable pub clear_bit : ℕ → ℕ → ℕ
clear_bit w zero = w / 2 * 2
clear_bit w (suc b) = clear_bit (w / 2) b * 2 + w % 2

half-double : (x w : ℕ) → (x * 2 + w % 2) / 2 ≡ x
half-double x w = omega arith

pub test_bit-set_self : (w b : ℕ) → test_bit (set_bit w b) b ≡ true
unfolding test_bit set_bit
test_bit-set_self w zero = ground arith
test_bit-set_self w (suc b) = rw (half-double (set_bit (w / 2) b) w) (test_bit-set_self (w / 2) b)

pub test_bit-clear_self : (w b : ℕ) → test_bit (clear_bit w b) b ≡ false
unfolding test_bit clear_bit
test_bit-clear_self w zero = ground arith
test_bit-clear_self w (suc b) =
    rw (half-double (clear_bit (w / 2) b) w) (test_bit-clear_self (w / 2) b)

pub test_bit-set_ne : (w b c : ℕ) → b ≢ c → test_bit (set_bit w b) c ≡ test_bit w c
unfolding test_bit set_bit
test_bit-set_ne w zero zero h = absurd (h refl)
test_bit-set_ne w zero (suc c) h = let e : (w / 2 * 2 + 1) / 2 ≡ w / 2 = omega arith in rw e
test_bit-set_ne w (suc b) zero h = ground arith
test_bit-set_ne w (suc b) (suc c) h =
    rw (half-double (set_bit (w / 2) b) w) (test_bit-set_ne (w / 2) b c (omega arith))

pub test_bit-clear_ne : (w b c : ℕ) → b ≢ c → test_bit (clear_bit w b) c ≡ test_bit w c
unfolding test_bit clear_bit
test_bit-clear_ne w zero zero h = absurd (h refl)
test_bit-clear_ne w zero (suc c) h = let e : (w / 2 * 2) / 2 ≡ w / 2 = omega arith in rw e
test_bit-clear_ne w (suc b) zero h = ground arith
test_bit-clear_ne w (suc b) (suc c) h =
    rw (half-double (clear_bit (w / 2) b) w) (test_bit-clear_ne (w / 2) b c (omega arith))

pub test_bit-zero : (b : ℕ) → test_bit 0 b ≡ false
unfolding test_bit
test_bit-zero zero = refl
test_bit-zero (suc b) = test_bit-zero b

-- `a | b` on words of `n` bits.
unfoldable pub or_bits : ℕ → ℕ → ℕ → ℕ
or_bits zero a b = 0
or_bits (suc n) a b = or_bits n (a / 2) (b / 2) * 2 + max (a % 2) (b % 2)

-- `a & b` on words of `n` bits.
unfoldable pub and_bits : ℕ → ℕ → ℕ → ℕ
and_bits zero a b = 0
and_bits (suc n) a b = and_bits n (a / 2) (b / 2) * 2 + a % 2 * (b % 2)

zero-and_bits : (n a : ℕ) → and_bits n a 0 ≡ 0
unfolding and_bits
zero-and_bits zero a = refl
zero-and_bits (suc n) a = omega (arith, zero-and_bits n (a / 2))

pub pow2_pos : (k : ℕ) → 0 < 2 ^ k
pow2_pos zero = omega arith
pow2_pos (suc k) = omega (arith, pow2_pos k, pow-suc 2 k)

pub pow2-le : (n k : ℕ) → k ≤ n → 2 ^ k ≤ 2 ^ n
pow2-le n zero h = pow2_pos n
pow2-le zero (suc k) h = absurd (omega arith)
pow2-le (suc n) (suc k) h = omega (arith, pow-suc 2 n, pow-suc 2 k, pow2-le n k (omega arith))

mod_double : (a x : ℕ) → 0 < x → a % (x * 2) ≡ a / 2 % x * 2 + a % 2
mod_double a x h =
    let q = a / 2 / x in
    let r = a / 2 % x * 2 + a % 2 in
    let split : a ≡ r + q * (x * 2) =
      omega (arith, mod-add-div' (a / 2) x, ap (λ t. t * 2) (mod-add-div' (a / 2) x)) in
    ap (λ t. t % (x * 2)) split
    ∙ add-mul-mod_self_right r q (x * 2)
    ∙ mod-eq_of_lt (omega (arith, mod-lt (a / 2) h))

-- `a & (1 << k) - 1` keeps the low `k` bits.
pub and_bits_mask : (n k a m : ℕ) → k ≤ n → m + 1 ≡ 2 ^ k → and_bits n a m ≡ a % 2 ^ k
unfolding and_bits
and_bits_mask n zero a m h e = let z : m ≡ 0 = omega arith in rw (z, zero-and_bits) (omega arith)
and_bits_mask zero (suc k) a m h e = absurd (omega arith)
and_bits_mask (suc n) (suc k) a m h e =
    let p : 2 ^ suc k ≡ 2 ^ k * 2 = pow-suc 2 k in
    rw p (
      let odd : m % 2 ≡ 1 = omega arith in
      rw (odd, mod_double a (2 ^ k) (pow2_pos k))
        (omega (arith, and_bits_mask n k (a / 2) (m / 2) (omega arith) (omega arith))))

-- `a & ~((1 << k) - 1)` on words of `n` bits clears the low `k` bits.
pub and_bits-not_mask :
    (n k a m : ℕ) → k ≤ n → m + 2 ^ k ≡ 2 ^ n → a < 2 ^ n → and_bits n a m ≡ a - a % 2 ^ k
unfolding and_bits
and_bits-not_mask zero k a m h e small = omega arith
and_bits-not_mask (suc n) zero a m h e small =
    let p : 2 ^ suc n ≡ 2 ^ n * 2 = pow-suc 2 n in
    let odd : m % 2 ≡ 1 = omega (arith, pow2_pos n) in
    rw odd (
      omega (
        arith,
        and_bits-not_mask n zero (a / 2) (m / 2) (omega arith) (omega (arith, pow2_pos n))
            (omega arith),
      ))
and_bits-not_mask (suc n) (suc k) a m h e small =
    let p : 2 ^ suc n ≡ 2 ^ n * 2 = pow-suc 2 n in
    let q : 2 ^ suc k ≡ 2 ^ k * 2 = pow-suc 2 k in
    let even : m % 2 ≡ 0 = omega arith in
    rw (even, q, mod_double a (2 ^ k) (pow2_pos k))
      (omega (
        arith,
        and_bits-not_mask n k (a / 2) (m / 2) (omega arith) (omega arith) (omega arith),
        mod-lt (a / 2) (pow2_pos k),
      ))

pub test_bit-div : (w b : ℕ) → test_bit w b ≡ (w / 2 ^ b % 2 == 1)
unfolding test_bit
test_bit-div w zero = let e : w / 1 ≡ w = omega arith in rw e
test_bit-div w (suc b) = test_bit-div (w / 2) b ∙ ap (λ t. t % 2 == 1) (half_shift w b)
  where
    half_shift : (w b : ℕ) → w / 2 / 2 ^ b ≡ w / 2 ^ suc b
    half_shift w b = div-div-eq-div-mul w 2 (2 ^ b) ∙ ap (λ t. w / t) (omega (arith, pow-suc 2 b))

pub set_bit-add : (w b : ℕ) → set_bit w b ≡ (if test_bit w b then w else w + 2 ^ b)
unfolding test_bit set_bit
set_bit-add w zero = ground arith
set_bit-add w (suc b) = rw pow-suc (ground (arith, set_bit-add (w / 2) b))

zero-or_bits : (n d : ℕ) → d < 2 ^ n → or_bits n 0 d ≡ d
unfolding or_bits
zero-or_bits zero d h = omega arith
zero-or_bits (suc n) d h =
    let e : 2 ^ suc n ≡ 2 ^ n * 2 = pow-suc 2 n in
    omega (arith, zero-or_bits n (d / 2) (omega arith))

-- `a | d << k` for `a < 1 << k` on words of `n = m + k` bits.
pub or_bits-shifted :
    (n k m a d : ℕ) → n ≡ m + k → a < 2 ^ k → d < 2 ^ m → or_bits n a (d * 2 ^ k) ≡ a + d * 2 ^ k
unfolding or_bits
or_bits-shifted n zero m a d e ha hd =
    let za : a ≡ 0 = omega arith in
    let zd : d * 1 ≡ d = omega arith in
    let en : n ≡ m = omega arith in rw (za, zd, en) (zero-or_bits m d hd ∙ omega arith)
or_bits-shifted zero (suc k) m a d e ha hd = absurd (omega arith)
or_bits-shifted (suc n) (suc k) m a d e ha hd =
    let p : 2 ^ suc k ≡ 2 ^ k * 2 = pow-suc 2 k in
    let q : d * 2 ^ suc k ≡ d * 2 ^ k * 2 = omega (arith, ap (λ t. d * t) p) in
    let half : d * 2 ^ k * 2 / 2 ≡ d * 2 ^ k = omega arith in
    rw (q, half) (omega (arith, or_bits-shifted n k m (a / 2) d (omega arith) (omega arith) hd))

pub clear_bit-add : (w b : ℕ) → clear_bit w b + (if test_bit w b then 2 ^ b else 0) ≡ w
unfolding test_bit clear_bit
clear_bit-add w zero = ground arith
clear_bit-add w (suc b) = rw pow-suc (ground (arith, clear_bit-add (w / 2) b))
