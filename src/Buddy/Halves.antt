-- ===== src/Buddy/Halves.antt =====
-- A block and its buddy are the halves of a block of the next order.
use native.Mathlib.Nat.{pow-suc, mul_assoc, mul_comm, add-mul, mul-div_left}
use bongos.Common.{
  ℕ, ◌+◌, ◌*◌, ◌/◌, ◌%◌, ◌^◌, ◌≤◌, ◌<◌, ◌≡◌, ◌⊎◌, refl, sym, ◌∙◌, ap, ◌==◌, arith, inl, inr,
  Bool-cases, ltb,
}
use bongos.Common.Bits.{
  pow2_pos, test_bit, set_bit, clear_bit, test_bit-div, set_bit-add, clear_bit-add,
}
use bongos.Buddy.{buddy_of}
use bongos.Buddy.Blocks.{Within, IsAligned}

pub pow2-next : (k : ℕ) → 2 ^ (k + 1) ≡ 2 ^ k * 2
pow2-next k = ap (λ n. 2 ^ n) (omega arith) ∙ pow-suc 2 k

-- What buddyFreeBlock computes from the frame number of a block.
pub record Halves (p k : ℕ) : Type 0 where
  pub aligned : IsAligned (clear_bit p k) (k + 1)
  pub other_aligned : IsAligned (buddy_of p k) k
  pub halves :
      (x : ℕ)
      → (Within (clear_bit p k) (k + 1) x → Within p k x ⊎ Within (buddy_of p k) k x)
        × (Within p k x ⊎ Within (buddy_of p k) k x → Within (clear_bit p k) (k + 1) x)

test_bit-multiple : (q k : ℕ) → test_bit (q * 2 ^ k) k ≡ (q % 2 == 1)
test_bit-multiple q k =
    test_bit-div (q * 2 ^ k) k ∙ ap (λ n. n % 2 == 1) (mul-div_left q (pow2_pos k))

pub double : (q k : ℕ) → q * 2 ^ (k + 1) ≡ q * 2 * 2 ^ k
double q k = ap (λ n. q * n) (pow2-next k ∙ mul_comm (2 ^ k) 2) ∙ sym (mul_assoc q 2 (2 ^ k))

-- The frames of two neighbours.
pub two_halves :
    (a n x : ℕ)
    → ((a ≤ x) × (x < a + n * 2) → (a ≤ x) × (x < a + n) ⊎ (a + n ≤ x) × (x < a + n + n))
      × ((a ≤ x) × (x < a + n) ⊎ (a + n ≤ x) × (x < a + n + n) → (a ≤ x) × (x < a + n * 2))
two_halves a n x = (
  (λ (l, r). elim (Bool-cases (ltb x (a + n))) [
    | inl e ↦ inl (l, ground arith)
    | inr e ↦ inr (ground arith, omega arith)
  ]),
  (λ m. elim m [ inl (l, r) ↦ (l, omega arith) | inr (l, r) ↦ (omega arith, omega arith) ]),
)

-- The lower half of the block of the next order.
Halves-lower :
    (p k c : ℕ)
    → IsAligned c (k + 1)
    → clear_bit p k ≡ c
    → (p ≡ c) × (buddy_of p k ≡ c + 2 ^ k) ⊎ (p ≡ c + 2 ^ k) × (buddy_of p k ≡ c)
    → Halves p k
Halves-lower p k c (r, e) clear places =
    let next = pow2-next k in
    let low : c ≡ r * 2 * 2 ^ k = e ∙ double r k in
    let high : c + 2 ^ k ≡ (r * 2 + 1) * 2 ^ k = omega (arith, low, add-mul (r * 2) 1 (2 ^ k)) in
    elim places [
      | inl (at_low, other) ↦ record {
        aligned = (r, clear ∙ e);
        other_aligned = (r * 2 + 1, other ∙ high);
        halves = λ x. rw (clear, other, at_low, next) (two_halves c (2 ^ k) x);
      }
      | inr (at_high, other) ↦ record {
        aligned = (r, clear ∙ e);
        other_aligned = (r * 2, other ∙ low);
        halves = λ x.
            let (apart, together) = two_halves c (2 ^ k) x in
            rw (clear, other, at_high, next)
              (
                (λ w. elim (apart w) [ inl l ↦ inr l | inr h ↦ inl h ]),
                (λ m. together (elim m [ inl h ↦ inr h | inr l ↦ inl l ])),
              );
      }
    ]

pub Halves-aligned : (p k : ℕ) → IsAligned p k → Halves p k
unfolding buddy_of
Halves-aligned p k (q, e) =
    let bit : test_bit p k ≡ (q % 2 == 1) = ap (λ n. test_bit n k) e ∙ test_bit-multiple q k in
    let whole = clear_bit-add p k in
    let twice = double (q / 2) k in
    elim (Bool-cases (test_bit p k)) [
      | inr even ↦
          let half : q / 2 * 2 ≡ q = ground arith in
          let clear : clear_bit p k ≡ p = let w = rw even at whole in omega (arith, w) in
          let set : set_bit p k ≡ p + 2 ^ k = set_bit-add p k ∙ rw even refl in
          Halves-lower p k p (q / 2, e ∙ ap (λ n. n * 2 ^ k) (sym half) ∙ sym twice) clear
            (inl (refl, rw (buddy_of, even) set))
      | inl odd ↦
          let half : q / 2 * 2 + 1 ≡ q = ground arith in
          let sum : clear_bit p k + 2 ^ k ≡ p = let w = rw odd at whole in omega (arith, w) in
          let product : q * 2 ^ k ≡ q / 2 * 2 * 2 ^ k + 1 * 2 ^ k =
            ap (λ n. n * 2 ^ k) (sym half) ∙ add-mul (q / 2 * 2) 1 (2 ^ k) in
          let multiple : clear_bit p k ≡ q / 2 * 2 * 2 ^ k = omega (arith, sum, product, e) in
          Halves-lower p k (clear_bit p k) (q / 2, multiple ∙ sym twice) refl
            (inr (sym sum, rw (buddy_of, odd) refl))
    ]
