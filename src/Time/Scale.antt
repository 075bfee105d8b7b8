-- ===== src/Time/Scale.antt =====
-- timeScale and timeMakeMult: how exact a conversion of clock ticks is; timeRefDelta and timeMedian3.
use native.Mathlib.Nat.{
  mod-add-div', mod-lt, pow-suc, add-mul-mod_self_left, mod-eq_of_lt, mod-eq-sub-mod,
}
use bongos.Common.{
  ℕ, zero, suc, ◌+◌, ◌-◌, ◌*◌, ◌/◌, ◌%◌, ◌^◌, ◌≤◌, ◌<◌, ◌≡◌, ◌⊎◌, inl, inr, some, arith, ltb,
  Bool-cases, u64_mod, sub32, ltb→lt, ap, ◌∙◌,
}
use bongos.Common.Bits.{and_bits_mask}
use bongos.Time.{scale, make_mult, median3, ref_delta}

make_mult-parts :
    (from to m : ℕ)
    → from < u64_mod
    → to < u64_mod
    → make_mult from to ≡ some m
    → (0 < from)
      × (to / from < 2 ^ 32)
      × (to % from < 2 ^ 32)
      × (m ≡ (to / from * 2 ^ 32 + to % from * 2 ^ 32 / from) % u64_mod)
unfolding make_mult
make_mult-parts from to m h k e = ground arith

frac_lt : (from r : ℕ) → r < from → r * 2 ^ 32 / from < 2 ^ 32
frac_lt from r h = grind (arith, mod-add-div' (r * 2 ^ 32) from)

-- The multiplier is the quotient, rounded down.
pub make_mult-floor :
    (from to m : ℕ)
    → from < u64_mod
    → to < u64_mod
    → make_mult from to ≡ some m
    → (m * from ≤ to * 2 ^ 32) × (to * 2 ^ 32 < (m + 1) * from) × (m < u64_mod)
make_mult-floor from to m h k e =
    let (pos, whole, rem, eq) = make_mult-parts from to m h k e in
    let r_lt = mod-lt to pos in
    let f_lt = frac_lt from (to % from) r_lt in
    let sum : m ≡ to / from * 2 ^ 32 + to % from * 2 ^ 32 / from = omega arith in
    let product = ap (λ t. t * from) sum in
    let split = mod-add-div' to from in
    let split' = mod-add-div' (to % from * 2 ^ 32) from in
    let rest = mod-lt (to % from * 2 ^ 32) pos in (omega arith, omega arith, omega arith)

pow_split : (k n : ℕ) → k ≤ n → 2 ^ k * 2 ^ (n - k) ≡ 2 ^ n
pow_split zero n h = let e : n - 0 ≡ n = omega arith in rw e (omega arith)
pow_split (suc k) zero h = absurd (omega arith)
pow_split (suc k) (suc n) h =
    let e : suc n - suc k ≡ n - k = omega arith in
    rw (e, pow-suc) (omega (arith, pow_split k n (omega arith), pow-suc 2 n, pow-suc 2 k))

sum_mod : (p t d : ℕ) → t < p → d < p → ((t + d) % p ≡ t + d) ⊎ ((t + d) % p + p ≡ t + d)
sum_mod p t d a b = elim (Bool-cases (ltb (t + d) p)) [
  | inl small ↦ inl (mod-eq_of_lt (ltb→lt _ _ small))
  | inr big ↦
      let ge : p ≤ t + d = ground arith in
      let m = mod-eq-sub-mod {n = t + d} {m = p} ge in
      let l = mod-eq_of_lt {n = t + d - p} {m = p} (omega arith) in inr (omega arith)
]

wrap_back : (p q t d : ℕ) → p * q ≡ 2 ^ 32 → t < p → d < p → sub32 ((t + d) % p) t % p ≡ d
wrap_back p zero t d e a b = absurd (omega arith)
wrap_back p (suc q) t d e a b =
    let whole : p * q + p ≡ 2 ^ 32 = omega arith in
    elim (sum_mod p t d a b) [
      | inl small ↦ let v : sub32 ((t + d) % p) t ≡ d = omega arith in rw v (mod-eq_of_lt b)
      | inr big ↦
          let v : sub32 ((t + d) % p) t ≡ d + p * q = omega arith in
          rw v (add-mul-mod_self_left d p q ∙ mod-eq_of_lt b)
    ]

-- A counter of `k` bits that has advanced by `d` since `then_`, over one wrap or none, reads as `d`.
pub ref_delta_lem :
    (k then_ d : ℕ)
    → k ≤ 32
    → then_ < 2 ^ k
    → d < 2 ^ k
    → ref_delta ((then_ + d) % 2 ^ k) then_ (2 ^ k - 1) ≡ d
unfolding ref_delta
ref_delta_lem k then_ d h a b =
    let whole = pow_split k 32 h in
    and_bits_mask 32 k _ (2 ^ k - 1) h (omega arith)
    ∙ wrap_back (2 ^ k) (2 ^ (32 - k)) then_ d whole a b

-- timeMedian3 returns one of its arguments, with two of them at most as large and two at least as
-- large.
pub median3_lem :
    (a b c : ℕ)
    → let m = median3 a b c in
      ((m ≡ a) ⊎ (m ≡ b) ⊎ (m ≡ c))
      × ((a ≤ m) × (b ≤ m) ⊎ (a ≤ m) × (c ≤ m) ⊎ (b ≤ m) × (c ≤ m))
      × ((m ≤ a) × (m ≤ b) ⊎ (m ≤ a) × (m ≤ c) ⊎ (m ≤ b) × (m ≤ c))
unfolding median3
median3_lem a b c = ground arith

scale-eq : (v m : ℕ) → v * m < 2 ^ 96 → scale v m ≡ v * m / 2 ^ 32
unfolding scale
scale-eq v m h = omega arith

times_le : (x y z : ℕ) → x ≤ y → x * z ≤ y * z
times_le x y z h = grind arith

-- timeScale by a multiplier that timeMakeMult built never exceeds the exact `v * to / from`, and
-- falls short of it by at most `1 + v / 2^32`, if the product fits in 96 bits.
pub scale-make_mult :
    (from to m v : ℕ)
    → from < u64_mod
    → to < u64_mod
    → make_mult from to ≡ some m
    → v * m < 2 ^ 96
    → (scale v m * from ≤ v * to) × (v * to * 2 ^ 32 ≤ (scale v m * 2 ^ 32 + 2 ^ 32 + v) * from)
scale-make_mult from to m v h k e small =
    let (low, high, _) = make_mult-floor from to m h k e in
    let s = scale-eq v m small in
    let exact : scale v m * 2 ^ 32 ≤ v * m = omega arith in
    let near : v * m + v ≤ scale v m * 2 ^ 32 + 2 ^ 32 + v = omega arith in
    let a = times_le _ _ from exact in
    let b = times_le _ _ v low in
    let c = times_le _ _ from near in
    let d = times_le (to * 2 ^ 32) ((m + 1) * from) v (omega arith) in (omega arith, omega arith)
