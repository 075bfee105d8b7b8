-- ===== src/Irq/Routes.antt =====
-- irqCoreIsaRoute: ISA interrupts to global system interrupts through the MADT overrides.
use bongos.Common.{
  ℕ, ◌/◌, ◌%◌, ◌≡◌, ◌≢◌, sym, Bool, true, false, not, ◌||◌, Option, none, some, List, [], ◌∷◌, ◌++◌,
  ◌⊎◌, inl, inr, arith, leb, ◌==◌, if◌then◌else◌, Bool-cases, Option-cases, ◌∙◌,
}

abbrev pub isa_count : ℕ
isa_count = 16

-- The fields of an `AcpiIso` that the code reads.
pub record AcpiIso : Type 0 where
  pub bus : ℕ
  pub source : ℕ
  pub gsi : ℕ
  pub flags : ℕ

pub record IrqIsaRoute : Type 0 where
  pub gsi : ℕ
  pub active_low : Bool
  pub level : Bool

pub record AcceptedIso : Type 0 where
  pub source : ℕ
  pub gsi : ℕ
  pub flags : ℕ

-- An answer, or an error; STATUS_ERR_NOT_FOUND also reports `*outWarn`.
pub data RouteResult : Type 0 where
  route : IrqIsaRoute → Bool → RouteResult
  not_found : Bool → RouteResult
  invalid : RouteResult

abbrev is_foreign : AcpiIso → Bool
is_foreign o = not (o.bus == 0) || leb isa_count o.source

unfoldable pub is_dup : List AcceptedIso → AcpiIso → Bool
is_dup [] o = false
is_dup (a ∷ acc) o = a.source == o.source || a.gsi == o.gsi || is_dup acc o

-- The first loop. `acc` holds the accepted overrides in order; the C array has room for 16 of them,
-- one for each source below 16.
unfoldable pub accept : List AcpiIso → List AcceptedIso → Bool → List AcceptedIso × Bool
accept [] acc warn = (acc, warn)
accept (o ∷ os) acc warn =
    let refused = is_foreign o || is_dup acc o in
    accept os
      (if refused
        then acc
        else acc ++ (record { source = o.source; gsi = o.gsi; flags = o.flags } ∷ []))
      (if refused then true else warn)

-- `acc[j].source == irq`: a later match replaces an earlier one.
unfoldable pub override_of : List AcceptedIso → ℕ → Option AcceptedIso → Option AcceptedIso
override_of [] irq found = found
override_of (a ∷ acc) irq found = override_of acc irq (if a.source == irq then some a else found)

unfoldable pub is_claimed : List AcceptedIso → ℕ → Bool
is_claimed [] irq = false
is_claimed (a ∷ acc) irq = a.gsi == irq || is_claimed acc irq

-- Polarity is bits 1:0 of the flags and trigger is bits 3:2; 2 is a reserved value.
unfoldable pub decode_flags : ℕ → ℕ → Bool → RouteResult
decode_flags gsi flags warn =
    let pol = flags % 4 in
    let trig = flags / 4 % 4 in
    route (record { gsi = gsi; active_low = pol == 3; level = trig == 3 })
      (warn || pol == 2 || trig == 2)

unfoldable pub resolve : List AcceptedIso → ℕ → Bool → RouteResult
resolve acc irq warn = elim (override_of acc irq none) [
  | some a ↦ decode_flags a.gsi a.flags warn
  | none ↦ if is_claimed acc irq then not_found warn else decode_flags irq 0 warn
]

-- The pointers are taken to be valid.
unfoldable pub isa_route : List AcpiIso → ℕ → RouteResult
isa_route isos irq =
    if leb isa_count irq
    then invalid
    else let (acc, warn) = accept isos [] false in resolve acc irq warn

-- No override of `acc` has this source or this GSI.
abbrev Apart : AcceptedIso → List AcceptedIso → Type 0
Apart a [] = Unit {0}
Apart a (b ∷ acc) = (b.source ≢ a.source) × (b.gsi ≢ a.gsi) × Apart a acc

abbrev IsDistinct : List AcceptedIso → Type 0
IsDistinct [] = Unit {0}
IsDistinct (a ∷ acc) = Apart a acc × IsDistinct acc

is_dup-Apart :
    (acc : List AcceptedIso) (o : AcpiIso)
    → is_dup acc o ≡ false
    → Apart (record { source = o.source; gsi = o.gsi; flags = o.flags }) acc
unfolding is_dup
is_dup-Apart [] o h = tt
is_dup-Apart (a ∷ acc) o h = ground (arith, is_dup-Apart acc o)

Apart-concat :
    (a b : AcceptedIso) (acc : List AcceptedIso)
    → Apart a acc
    → b.source ≢ a.source
    → b.gsi ≢ a.gsi
    → Apart a (acc ++ (b ∷ []))
Apart-concat a b [] h s g = (s, g, tt)
Apart-concat a b (c ∷ acc) h s g = (h.0, h.1, Apart-concat a b acc h.2 s g)

IsDistinct-concat :
    (b : AcceptedIso) (acc : List AcceptedIso)
    → IsDistinct acc
    → Apart b acc
    → IsDistinct (acc ++ (b ∷ []))
IsDistinct-concat b [] d h = (tt, tt)
IsDistinct-concat b (a ∷ acc) d h = (
  Apart-concat a b acc d.0 (λ e. h.0 (sym e)) (λ e. h.1 (sym e)),
  IsDistinct-concat b acc d.1 h.2,
)

accept-IsDistinct :
    (os : List AcpiIso) (acc : List AcceptedIso) (warn : Bool)
    → IsDistinct acc
    → IsDistinct (accept os acc warn).0
unfolding accept
accept-IsDistinct [] acc warn d = d
accept-IsDistinct (o ∷ os) acc warn d = elim (Bool-cases (is_foreign o || is_dup acc o)) [
  | inl refused ↦ rw (refused, IsDistinct, accept) (accept-IsDistinct os acc true d)
  | inr taken ↦
      rw (taken, IsDistinct, accept)
        (accept-IsDistinct os _ warn
          (IsDistinct-concat _ acc d (is_dup-Apart acc o (ground arith))))
]

abbrev Holds : AcceptedIso → List AcceptedIso → Type 0
Holds a [] = ⊥
Holds a (b ∷ acc) = (a ≡ b) ⊎ Holds a acc

Holds-Apart :
    (a b : AcceptedIso) (acc : List AcceptedIso)
    → Apart a acc
    → Holds b acc
    → (b.source ≢ a.source) × (b.gsi ≢ a.gsi)
Holds-Apart a b [] h m = elim m [ ]
Holds-Apart a b (c ∷ acc) h (inl e) = rw e (h.0, h.1)
Holds-Apart a b (c ∷ acc) h (inr m) = Holds-Apart a b acc h.2 m

-- Two overrides of a distinct list that have one GSI have one source.
Holds-source :
    (a b : AcceptedIso) (acc : List AcceptedIso)
    → IsDistinct acc
    → Holds a acc
    → Holds b acc
    → a.gsi ≡ b.gsi
    → a.source ≡ b.source
Holds-source a b [] d m n e = elim m [ ]
Holds-source a b (c ∷ acc) d (inl p) (inl q) e = cc
Holds-source a b (c ∷ acc) d (inl p) (inr n) e = absurd ((Holds-Apart c b acc d.0 n).1 (cc))
Holds-source a b (c ∷ acc) d (inr m) (inl q) e = absurd ((Holds-Apart c a acc d.0 m).1 (cc))
Holds-source a b (c ∷ acc) d (inr m) (inr n) e = Holds-source a b acc d.1 m n e

override_of-some :
    (acc : List AcceptedIso) (irq : ℕ) (found : Option AcceptedIso) (a : AcceptedIso)
    → override_of acc irq found ≡ some a
    → (found ≡ some a) ⊎ (Holds a acc × (a.source ≡ irq))
unfolding override_of
override_of-some [] irq found a h = inl h
override_of-some (b ∷ acc) irq found a h = elim (Bool-cases (b.source == irq)) [
  | inl e ↦ elim (override_of-some acc irq (some b) a (rw e at h)) [
    | inl same ↦ inr (inl (cc), ground arith)
    | inr (m, s) ↦ inr (inr m, s)
  ]
  | inr ne ↦ elim (override_of-some acc irq found a (rw ne at h)) [
    | inl same ↦ inl same
    | inr (m, s) ↦ inr (inr m, s)
  ]
]

is_claimed-Holds :
    (acc : List AcceptedIso) (irq : ℕ) (a : AcceptedIso)
    → is_claimed acc irq ≡ false
    → Holds a acc
    → a.gsi ≢ irq
unfolding is_claimed
is_claimed-Holds [] irq a h m = elim m [ ]
is_claimed-Holds (b ∷ acc) irq a h (inl e) = λ g. ground arith
is_claimed-Holds (b ∷ acc) irq a h (inr m) = is_claimed-Holds acc irq a (ground arith) m

-- Where the GSI of an answer comes from.
GsiFrom : List AcceptedIso → ℕ → ℕ → Type 0
GsiFrom acc irq g =
    ((a : AcceptedIso) × Holds a acc × (a.source ≡ irq) × (a.gsi ≡ g))
    ⊎ (is_claimed acc irq ≡ false) × (g ≡ irq)

resolve-GsiFrom :
    (acc : List AcceptedIso) (irq : ℕ) (warn w : Bool) (r : IrqIsaRoute)
    → resolve acc irq warn ≡ route r w
    → GsiFrom acc irq r.gsi
unfolding resolve decode_flags GsiFrom
resolve-GsiFrom acc irq warn w r h = elim (Option-cases (override_of acc irq none)) [
  | inl e ↦ inr (ground arith, ground arith)
  | inr (a, e) ↦ elim (override_of-some acc irq none a e) [
    | inl impossible ↦ absurd (cc)
    | inr (m, s) ↦ inl (a, m, s, ground arith)
  ]
]

GsiFrom-unique :
    (acc : List AcceptedIso) (i j g : ℕ)
    → IsDistinct acc
    → GsiFrom acc i g
    → GsiFrom acc j g
    → i ≡ j
unfolding GsiFrom
GsiFrom-unique acc i j g d (inl (a, m, s, e)) (inl (b, n, t, f)) =
    sym s ∙ Holds-source a b acc d m n (e ∙ sym f) ∙ t
GsiFrom-unique acc i j g d (inl (a, m, s, e)) (inr (c, f)) =
    absurd (is_claimed-Holds acc j a c m (e ∙ f))
GsiFrom-unique acc i j g d (inr (c, f)) (inl (a, m, s, e)) =
    absurd (is_claimed-Holds acc i a c m (e ∙ f))
GsiFrom-unique acc i j g d (inr (c, e)) (inr (c', f)) = sym e ∙ f

isa_route-resolve :
    (isos : List AcpiIso) (irq : ℕ) (r : IrqIsaRoute) (w : Bool)
    → isa_route isos irq ≡ route r w
    → resolve (accept isos [] false).0 irq (accept isos [] false).1 ≡ route r w
unfolding isa_route
isa_route-resolve isos irq r w h = ground arith

-- Whatever overrides the firmware's table holds, two different ISA interrupts never get one GSI.
pub isa_route_injective :
    (isos : List AcpiIso) (i j : ℕ) (r s : IrqIsaRoute) (v w : Bool)
    → isa_route isos i ≡ route r v
    → isa_route isos j ≡ route s w
    → r.gsi ≡ s.gsi
    → i ≡ j
isa_route_injective isos i j r s v w h k e =
    let acc = (accept isos [] false).0 in
    GsiFrom-unique acc i j s.gsi (accept-IsDistinct isos [] false tt)
      (rw e at (resolve-GsiFrom acc i _ v r (isa_route-resolve isos i r v h)))
      (resolve-GsiFrom acc j _ w s (isa_route-resolve isos j s w k))
