-- ===== src/Irq/Tests.antt =====
-- The interrupt core at small inputs.
use bongos.Common.{ℕ, ◌-◌, ◌^◌, ◌≡◌, refl, true, false, some, List, [], ◌∷◌}
use bongos.Common.Bits.{test_bit, set_bit, clear_bit, or_bits}
use bongos.Irq.Vectors.{
  IrqVectorMap, ok, err_invalid, is_used, mark, unmark, mark_from, init, alloc_from, alloc,
  is_allocated, free,
}
use bongos.Irq.Vectors.Laws.{Allocated, alloc-Allocated}
use bongos.Irq.Ranges.{IrqGsiRange, rte_encode, ioapic_pins}
use bongos.Irq.Routes.{
  AcpiIso, IrqIsaRoute, route, not_found, isa_route, isa_route_injective, accept, is_dup, resolve,
  override_of, is_claimed, decode_flags,
}

abbrev fresh : IrqVectorMap
fresh = record { used = (2 ^ 48 - 1) ∷ 0 ∷ 0 ∷ (2 ^ 64 - 2 ^ 48) ∷ [] }

abbrev one_taken : IrqVectorMap
one_taken = record { used = (2 ^ 49 - 1) ∷ 0 ∷ 0 ∷ (2 ^ 64 - 2 ^ 48) ∷ [] }

init_words : init ≡ fresh
unfolding init mark_from mark set_bit
init_words = refl

alloc_first : alloc fresh ≡ (ok, some 48, one_taken)
unfolding alloc alloc_from is_used mark test_bit set_bit
alloc_first = refl

free_first : (free one_taken 48 ≡ (ok, fresh)) × (free fresh 48 ≡ (err_invalid, fresh))
unfolding free is_allocated is_used unmark test_bit clear_bit
free_first = (refl, refl)

alloc-Allocated_example : Allocated fresh 48 one_taken
alloc-Allocated_example = alloc-Allocated fresh refl alloc_first

rte_value : rte_encode 0x31 true false true 3 ≡ 0x0300_0000_0001_2031
unfolding rte_encode set_bit or_bits
rte_value = refl

pins_24 : ioapic_pins 0x0017_0020 ≡ 24
unfolding ioapic_pins
pins_24 = refl

abbrev ioapics : List IrqGsiRange
ioapics = record { gsi_base = 0; pins = 24 } ∷ []

-- IRQ 0 goes to GSI 2, and IRQ 9 is level-triggered, active low.
abbrev overrides : List AcpiIso
overrides =
    record { bus = 0; source = 0; gsi = 2; flags = 0 }
    ∷ record { bus = 0; source = 9; gsi = 9; flags = 15 }
    ∷ []

abbrev plain : ℕ → IrqIsaRoute
plain g = record { gsi = g; active_low = false; level = false }

routes :
    (isa_route overrides 0 ≡ route (plain 2) false)
    × (isa_route overrides 1 ≡ route (plain 1) false)
    × (isa_route overrides 2 ≡ not_found false)
    × (isa_route overrides 9 ≡ route (record { gsi = 9; active_low = true; level = true }) false)
unfolding isa_route accept is_dup resolve override_of is_claimed decode_flags
routes = (refl, refl, refl, refl)

isa_route_injective_example : ◌≡◌ {A = ℕ} 0 0
isa_route_injective_example =
    isa_route_injective overrides 0 0 (plain 2) (plain 2) false false routes.0 routes.0 refl
