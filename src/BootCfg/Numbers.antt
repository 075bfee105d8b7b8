-- ===== src/BootCfg/Numbers.antt =====
-- cfgParseUint against the value of a decimal number.
use bongos.Common.{ℕ, ◌+◌, ◌-◌, ◌*◌, ◌≤◌, ◌≡◌, ◌⊎◌, some, List, [], ◌∷◌, arith}
use bongos.BootCfg.{is_digit, parse_digits, parse_uint, dimensions, dim_max, parse_resolution}

abbrev pub value_from : ℕ → List ℕ → ℕ
value_from v [] = v
value_from v (c ∷ cs) = value_from (v * 10 + (c - 48)) cs

abbrev pub AreDigits : List ℕ → Type 0
AreDigits [] = Unit {0}
AreDigits (c ∷ cs) = (48 ≤ c) × (c ≤ 57) × AreDigits cs

parse_digits-value :
    (v n : ℕ) (cs : List ℕ)
    → v ≤ 999999
    → parse_digits v cs ≡ some n
    → AreDigits cs × (n ≡ value_from v cs) × (n ≤ 999999)
unfolding parse_digits is_digit
parse_digits-value v n [] b e = ground arith
parse_digits-value v n (c ∷ cs) b e = ground (arith, parse_digits-value (v * 10 + (c - 48)) n cs)

-- What cfgParseUint accepts is a non-empty run of decimal digits, its result is their value, and
-- that is below a million.
pub parse_uint-value :
    (n : ℕ) (cs : List ℕ)
    → parse_uint cs ≡ some n
    → AreDigits cs × (n ≡ value_from 0 cs) × (n ≤ 999999)
unfolding parse_uint
parse_uint-value n [] e = absurd (cc)
parse_uint-value n (c ∷ cs) e = parse_digits-value 0 n (c ∷ cs) (omega arith) e

-- A resolution that cfgParseResolution accepts is 0 by 0 for "auto", or both of its numbers lie
-- within 1 and 16384.
pub parse_resolution-bounds :
    (cs : List ℕ) (w h : ℕ)
    → parse_resolution cs ≡ some (w, h)
    → (w ≡ 0) × (h ≡ 0) ⊎ (1 ≤ w) × (w ≤ dim_max) × (1 ≤ h) × (h ≤ dim_max)
unfolding parse_resolution dimensions
parse_resolution-bounds cs w h e = ground arith
