-- ===== src/Cmdline/GlobTotal.antt =====
-- cmdlineGlobMatch returns.
use bongos.Common.{
  ℕ, zero, suc, ◌+◌, ◌*◌, ◌≤◌, ◌<◌, ◌≡◌, refl, Bool, inl, inr, Option, none, some, List, [], ◌∷◌,
  arith, ◌==◌, length, Bool-cases,
}
use bongos.Cmdline.{
  star, GlobState, GlobTurn, goes_on, returns, backtrack, glob_turn, glob_run, glob_fuel,
  glob_match,
}

mul_mono_left : (w a b : ℕ) → a ≤ b → a * w ≤ b * w
mul_mono_left w zero b h = omega arith
mul_mono_left w (suc a) zero h = absurd (omega arith)
mul_mono_left w (suc a) (suc b) h = omega (arith, mul_mono_left w a b (omega arith))

-- The turns that are left are fewer than this number: after a step back to the star, the part of
-- the name after it is one shorter. `w` is more than the lengths of both strings together.
abbrev stars_left : ℕ → Option (List ℕ × List ℕ) → ℕ
stars_left len none = suc len
stars_left len (some (q, m)) = length m

abbrev measure : ℕ → ℕ → GlobState → ℕ
measure w len s = stars_left len s.stars * w + (length s.p + length s.n)

abbrev StarsFit : ℕ → ℕ → Option (List ℕ × List ℕ) → List ℕ → Type 0
StarsFit w len none n = length n ≤ len
StarsFit w len (some (q, m)) n = (length q + len < w) × (length n ≤ length m) × (length m ≤ len)

abbrev Fits : ℕ → ℕ → GlobState → Type 0
Fits w len s = (length s.p + len < w) × StarsFit w len s.stars s.n

abbrev Shrinks : ℕ → ℕ → GlobState → GlobTurn → Type 0
Shrinks w len s (returns b) = Unit {0}
Shrinks w len s (goes_on s') = Fits w len s' × (measure w len s' < measure w len s)

backtrack-Shrinks : (w len : ℕ) (s : GlobState) → Fits w len s → Shrinks w len s (backtrack s.stars)
unfolding backtrack
backtrack-Shrinks w len s f = back s.p s.n s.stars f
  where
    back :
        (p n : List ℕ) (o : Option (List ℕ × List ℕ))
        → Fits w len (record { p = p; n = n; stars = o })
        → Shrinks w len (record { p = p; n = n; stars = o }) (backtrack o)
    back p n none f = tt
    back p n (some (q, [])) f = tt
    back p n (some (q, c ∷ m)) f = (
      (omega (arith, f.1), (omega (arith, f.1), omega arith, omega (arith, f.1))),
      omega (arith, f.1),
    )

abbrev at : List ℕ → List ℕ → Option (List ℕ × List ℕ) → GlobState
at p n o = record { p = p; n = n; stars = o }

literal-Shrinks :
    (w len d c : ℕ) (p n : List ℕ) (o : Option (List ℕ × List ℕ))
    → Fits w len (at (d ∷ p) (c ∷ n) o)
    → Shrinks w len (at (d ∷ p) (c ∷ n) o) (goes_on (at p n o))
literal-Shrinks w len d c p n none f = ((omega (arith, f.0), omega (arith, f.1)), omega arith)
literal-Shrinks w len d c p n (some (q, m)) f =
    ((omega (arith, f.0), (f.1.0, omega (arith, f.1.1), f.1.2)), omega arith)

star-Shrinks :
    (w len d c : ℕ) (p n : List ℕ) (o : Option (List ℕ × List ℕ))
    → Fits w len (at (d ∷ p) (c ∷ n) o)
    → Shrinks w len (at (d ∷ p) (c ∷ n) o) (goes_on (at p (c ∷ n) (some (p, c ∷ n))))
star-Shrinks w len d c p n none f =
    let less = mul_mono_left w (suc (length n)) len f.1 in
    ((omega (arith, f.0), (omega (arith, f.0), omega arith, f.1)), omega (arith, less))
star-Shrinks w len d c p n (some (q, m)) f =
    let less = mul_mono_left w (suc (length n)) (length m) f.1.1 in
    (
      (omega (arith, f.0), (omega (arith, f.0), omega arith, omega (arith, f.1))),
      omega (arith, less),
    )

glob_turn-Shrinks : (w len : ℕ) (s : GlobState) → Fits w len s → Shrinks w len s (glob_turn s)
unfolding glob_turn
glob_turn-Shrinks w len s f = turn s.p s.n s.stars f
  where
    turn :
        (p n : List ℕ) (o : Option (List ℕ × List ℕ))
        → Fits w len (at p n o)
        → Shrinks w len (at p n o) (glob_turn (at p n o))
    turn p [] o f = tt
    turn [] (c ∷ n) o f = backtrack-Shrinks w len (at [] (c ∷ n) o) f
    turn (d ∷ p) (c ∷ n) o f = elim (Bool-cases (d == c)) [
      | inl same ↦ rw (glob_turn, same) (literal-Shrinks w len d c p n o f)
      | inr other ↦ elim (Bool-cases (d == star)) [
        | inl wild ↦ rw (glob_turn, other) (rw wild (star-Shrinks w len d c p n o f))
        | inr plain ↦
            rw (glob_turn, other) (rw plain (backtrack-Shrinks w len (at (d ∷ p) (c ∷ n) o) f))
      ]
    ]

glob_run_total :
    (w len fuel : ℕ) (s : GlobState)
    → Fits w len s
    → measure w len s < fuel
    → (b : Bool) × (glob_run fuel s ≡ some b)
unfolding glob_run
glob_run_total w len zero s f h = absurd (omega arith)
glob_run_total w len (suc fuel) s f h =
    go (glob_turn s) (glob_turn-Shrinks w len s f) (λ s' k l. glob_run_total w len fuel s' k l)
  where
    go :
        (t : GlobTurn)
        → Shrinks w len s t
        → ((s' : GlobState)
            → Fits w len s'
            → measure w len s' < fuel
            → (b : Bool) × (glob_run fuel s' ≡ some b))
        → (b : Bool) × (elim t [ returns b ↦ some b | goes_on s' ↦ glob_run fuel s' ] ≡ some b)
    go (returns b) k rest = (b, refl)
    go (goes_on s') k rest = rest s' k.0 (omega (arith, k.1))

-- cmdlineGlobMatch returns on every pattern and name.
pub glob_match_total : (pattern name : List ℕ) → (b : Bool) × (glob_match pattern name ≡ some b)
unfolding glob_match
glob_match_total pattern name =
    glob_run_total (length pattern + length name + 3) (length name) (glob_fuel pattern name)
      (at pattern name none) (omega arith, omega arith) (omega arith)
