-- ===== src/Irq/Ranges.antt =====
-- irqCoreRteEncode, irqCoreIoapicPins, irqCoreGsiLookup and irqCoreGsiOverlaps.
use bongos.Common.{
  ℕ, ◌+◌, ◌-◌, ◌*◌, ◌/◌, ◌%◌, ◌^◌, ◌<◌, ◌≡◌, refl, Bool, true, false, ◌&&◌, ◌||◌, Option, none,
  some, List, [], ◌∷◌, ◌++◌, arith, ltb, leb, ◌==◌, if◌then◌else◌, length, ap, ◌∙◌,
}
use bongos.Common.Bits.{test_bit, set_bit, or_bits, or_bits-shifted, test_bit-div, set_bit-add}

-- `e |= 1ULL << b` under its flag.
abbrev set_if : Bool → ℕ → ℕ → ℕ
set_if flag b e = if flag then set_bit e b else e

unfoldable pub rte_encode : ℕ → Bool → Bool → Bool → ℕ → ℕ
rte_encode vector active_low level masked dest =
    or_bits 64 (set_if masked 16 (set_if level 15 (set_if active_low 13 vector))) (dest * 2 ^ 56)

-- `versionReg >> 16 & 0xFF`, plus one.
unfoldable pub ioapic_pins : ℕ → ℕ
ioapic_pins version_reg = version_reg / 2 ^ 16 % 256 + 1

pub record IrqGsiRange : Type 0 where
  pub gsi_base : ℕ
  pub pins : ℕ

abbrev pub has_gsi : IrqGsiRange → ℕ → Bool
has_gsi r gsi = leb r.gsi_base gsi && ltb gsi (r.gsi_base + r.pins)

-- The loop from index `i` on; the result is the index and the pin, and `none` stands for -1.
unfoldable pub gsi_lookup_from : List IrqGsiRange → ℕ → ℕ → Option (ℕ × ℕ)
gsi_lookup_from [] gsi i = none
gsi_lookup_from (r ∷ rs) gsi i =
    let rest = gsi_lookup_from rs gsi (i + 1) in
    if has_gsi r gsi then some (i, gsi - r.gsi_base) else rest

unfoldable pub gsi_lookup : List IrqGsiRange → ℕ → Option (ℕ × ℕ)
gsi_lookup rs gsi = gsi_lookup_from rs gsi 0

-- The sums are of 64 bits and do not wrap.
unfoldable pub any_overlap : List IrqGsiRange → IrqGsiRange → Bool
any_overlap [] cand = false
any_overlap (r ∷ rs) cand =
    ltb cand.gsi_base (r.gsi_base + r.pins) && ltb r.gsi_base (cand.gsi_base + cand.pins)
    || any_overlap rs cand

unfoldable pub gsi_overlaps : List IrqGsiRange → IrqGsiRange → Bool
gsi_overlaps rs cand = if cand.pins == 0 then true else any_overlap rs cand

-- A candidate that does not overlap shares no GSI with a range of the table.
overlap-has_gsi :
    (rs : List IrqGsiRange) (cand : IrqGsiRange) (gsi i : ℕ)
    → any_overlap rs cand ≡ false
    → has_gsi cand gsi ≡ true
    → gsi_lookup_from rs gsi i ≡ none
unfolding any_overlap gsi_lookup_from
overlap-has_gsi [] cand gsi i h g = refl
overlap-has_gsi (r ∷ rs) cand gsi i h g = ground (arith, overlap-has_gsi rs cand gsi (i + 1))

gsi_lookup_from-append :
    (rs : List IrqGsiRange) (cand : IrqGsiRange) (gsi i : ℕ)
    → any_overlap rs cand ≡ false
    → gsi_lookup_from (rs ++ (cand ∷ [])) gsi i ≡ (
        if has_gsi cand gsi
        then some (i + length rs, gsi - cand.gsi_base)
        else gsi_lookup_from rs gsi i)
unfolding any_overlap gsi_lookup_from
gsi_lookup_from-append [] cand gsi i h = ground arith
gsi_lookup_from-append (r ∷ rs) cand gsi i h =
    ground (arith, gsi_lookup_from-append rs cand gsi (i + 1))

-- Adding a range that irqCoreGsiOverlaps accepts gives exactly its GSIs to the new index, and
-- leaves the answer of irqCoreGsiLookup for every other GSI as it was.
pub gsi_lookup-append :
    (rs : List IrqGsiRange) (cand : IrqGsiRange) (gsi : ℕ)
    → gsi_overlaps rs cand ≡ false
    → gsi_lookup (rs ++ (cand ∷ [])) gsi
      ≡ (if has_gsi cand gsi then some (length rs, gsi - cand.gsi_base) else gsi_lookup rs gsi)
unfolding gsi_lookup gsi_overlaps
gsi_lookup-append rs cand gsi h = ground (arith, gsi_lookup_from-append rs cand gsi 0)

-- Reading an IOAPIC redirection entry back.
pub record IsRte (vector : ℕ) (active_low level masked : Bool) (dest e : ℕ) : Type 0 where
  pub fits : e < 2 ^ 64
  pub vector_bits : e % 2 ^ 8 ≡ vector
  pub polarity : test_bit e 13 ≡ active_low
  pub trigger : test_bit e 15 ≡ level
  pub mask : test_bit e 16 ≡ masked
  pub fixed_physical : (e / 2 ^ 8 % 2 ^ 5 ≡ 0) × (test_bit e 14 ≡ false) × (e / 2 ^ 17 % 2 ^ 39 ≡ 0)
  pub destination : e / 2 ^ 56 ≡ dest

abbrev bit_value : Bool → ℕ → ℕ
bit_value flag b = if flag then 2 ^ b else 0

low_bits-sum :
    (vector : ℕ) (active_low level masked : Bool)
    → vector < 2 ^ 8
    → set_if masked 16 (set_if level 15 (set_if active_low 13 vector))
      ≡ vector + bit_value active_low 13 + bit_value level 15 + bit_value masked 16
low_bits-sum vector active_low level masked h = ground (
  arith,
  set_bit-add vector 13,
  test_bit-div vector 13,
  set_bit-add (set_if active_low 13 vector) 15,
  test_bit-div (set_if active_low 13 vector) 15,
  set_bit-add (set_if level 15 (set_if active_low 13 vector)) 16,
  test_bit-div (set_if level 15 (set_if active_low 13 vector)) 16,
)

rte_encode-sum :
    (vector : ℕ) (active_low level masked : Bool) (dest : ℕ)
    → vector < 2 ^ 8
    → dest < 2 ^ 8
    → rte_encode vector active_low level masked dest
      ≡ vector + bit_value active_low 13 + bit_value level 15 + bit_value masked 16 + dest * 2 ^ 56
unfolding rte_encode
rte_encode-sum vector active_low level masked dest h k =
    let e = low_bits-sum vector active_low level masked h in
    or_bits-shifted 64 56 8 _ dest refl (rw e (ground arith)) k ∙ ap (λ t. t + dest * 2 ^ 56) e

-- Every field of the entry that irqCoreRteEncode builds reads back as it was given: the vector in
-- bits 7:0, fixed delivery and physical destination mode, polarity, trigger and mask at bits 13,
-- 15 and 16, the destination in bits 63:56, and 0 in every bit between and around them.
pub rte_encode-IsRte :
    (vector : ℕ) (active_low level masked : Bool) (dest : ℕ)
    → vector < 2 ^ 8
    → dest < 2 ^ 8
    → IsRte vector active_low level masked dest (rte_encode vector active_low level masked dest)
rte_encode-IsRte vector active_low level masked dest h k =
    let e = rte_encode-sum vector active_low level masked dest h k in
    let bit = λ (b : ℕ). test_bit-div (rte_encode vector active_low level masked dest) b in
    record {
      fits = ground (arith, e);
      vector_bits = ground (arith, e);
      polarity = ground (arith, e, bit 13);
      trigger = ground (arith, e, bit 15);
      mask = ground (arith, e, bit 16);
      fixed_physical = ground (arith, e, bit 14);
      destination = ground (arith, e);
    }
