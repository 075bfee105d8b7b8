-- ===== src/Cmdline/Glob.antt =====
-- cmdlineGlobMatch against the meaning of a pattern.
use bongos.Common.{
  ℕ, zero, suc, ◌≡◌, ◌≢◌, refl, subst, true, ◌⊎◌, inl, inr, Option, none, some, List, [], ◌∷◌,
  arith, ◌==◌, drop, Bool-cases,
}
use bongos.Cmdline.{
  star, GlobState, GlobTurn, goes_on, returns, only_stars, backtrack, glob_turn, glob_run,
  glob_fuel, glob_match,
}

abbrev pub Begins : ℕ → (List ℕ → Type 0) → List ℕ → Type 0
Begins d P [] = ⊥
Begins d P (c ∷ n) = (d ≡ c) × P n

-- A star stands for any run of bytes, any other byte for itself.
abbrev pub Matches : List ℕ → List ℕ → Type 0
Matches [] n = n ≡ []
Matches (d ∷ p) n =
    (d ≡ star) × ((k : ℕ) × Matches p (drop k n)) ⊎ (d ≢ star) × Begins d (Matches p) n

-- The last star can still take more of the name.
abbrev pub Later : Option (List ℕ × List ℕ) → Type 0
Later none = ⊥
Later (some (q, m)) = (k : ℕ) × Matches q (drop (suc k) m)

abbrev pub Goal : GlobState → Type 0
Goal s = Matches s.p s.n ⊎ Later s.stars

abbrev pub at : List ℕ → List ℕ → Option (List ℕ × List ℕ) → GlobState
at p n o = record { p = p; n = n; stars = o }

only_stars-Matches : (p : List ℕ) → only_stars p ≡ true → Matches p []
unfolding only_stars
only_stars-Matches [] h = refl
only_stars-Matches (c ∷ p) h = elim (Bool-cases (c == star)) [
  | inl wild ↦ inl (ground arith, (0, only_stars-Matches p (rw (only_stars, wild) at h)))
  | inr plain ↦ absurd (ground arith)
]

pub Matches-only_stars : (p : List ℕ) → Matches p [] → only_stars p ≡ true
unfolding only_stars
Matches-only_stars [] m = refl
Matches-only_stars (c ∷ p) (inl (e, (k, m))) =
    let rest = Matches-only_stars p (subst (Matches p) (drop-nil k) m) in ground arith
  where
    drop-nil : (k : ℕ) → drop {A = ℕ} k [] ≡ []
    drop-nil zero = refl
    drop-nil (suc k) = refl
Matches-only_stars (c ∷ p) (inr (e, m)) = absurd m

-- What a turn reaches is a match only if the state before it is one.
abbrev Sound : GlobState → GlobTurn → Type 0
Sound s (returns b) = b ≡ true → Goal s
Sound s (goes_on s') = Goal s' → Goal s

backtrack-Sound : (p n : List ℕ) (o : Option (List ℕ × List ℕ)) → Sound (at p n o) (backtrack o)
unfolding backtrack
backtrack-Sound p n none = λ e. absurd (cc)
backtrack-Sound p n (some (q, [])) = λ e. absurd (cc)
backtrack-Sound p n (some (q, c ∷ m)) =
    λ g. elim g [ inl now ↦ inr (0, now) | inr (k, later) ↦ inr (suc k, later) ]

literal-Sound :
    (d c : ℕ) (p n : List ℕ) (o : Option (List ℕ × List ℕ))
    → d ≡ c
    → Sound (at (d ∷ p) (c ∷ n) o) (goes_on (at p n o))
literal-Sound d c p n o e (inl now) = elim (Bool-cases (d == star)) [
  | inl wild ↦ inl (inl (ground arith, (1, now)))
  | inr plain ↦ inl (inr ((λ w. ground arith), (e, now)))
]
literal-Sound d c p n o e (inr later) = inr later

star-Sound :
    (d : ℕ) (p n : List ℕ) (o : Option (List ℕ × List ℕ))
    → d ≡ star
    → Sound (at (d ∷ p) n o) (goes_on (at p n (some (p, n))))
star-Sound d p n o e (inl now) = inl (inl (e, (0, now)))
star-Sound d p n o e (inr (k, later)) = inl (inl (e, (suc k, later)))

glob_turn-Sound : (s : GlobState) → Sound s (glob_turn s)
unfolding glob_turn
glob_turn-Sound s = turn s.p s.n s.stars
  where
    turn : (p n : List ℕ) (o : Option (List ℕ × List ℕ)) → Sound (at p n o) (glob_turn (at p n o))
    turn p [] o = λ e. inl (only_stars-Matches p e)
    turn [] (c ∷ n) o = backtrack-Sound [] (c ∷ n) o
    turn (d ∷ p) (c ∷ n) o = elim (Bool-cases (d == c)) [
      | inl same ↦ rw (glob_turn, same) (literal-Sound d c p n o (ground arith))
      | inr other ↦ elim (Bool-cases (d == star)) [
        | inl wild ↦ rw (glob_turn, other) (rw wild (star-Sound d p (c ∷ n) o (ground arith)))
        | inr plain ↦ rw (glob_turn, other) (rw plain (backtrack-Sound (d ∷ p) (c ∷ n) o))
      ]
    ]

glob_run-Sound : (fuel : ℕ) (s : GlobState) → glob_run fuel s ≡ some true → Goal s
unfolding glob_run
glob_run-Sound zero s e = absurd (cc)
glob_run-Sound (suc fuel) s e =
    go (glob_turn s) (glob_turn-Sound s) (λ s' h. glob_run-Sound fuel s' h) e
  where
    go :
        (t : GlobTurn)
        → Sound s t
        → ((s' : GlobState) → glob_run fuel s' ≡ some true → Goal s')
        → elim t [ returns b ↦ some b | goes_on s' ↦ glob_run fuel s' ] ≡ some true
        → Goal s
    go (returns b) k rest e = k (cc)
    go (goes_on s') k rest e = k (rest s' e)

-- A pattern that cmdlineGlobMatch accepts for a name matches it.
pub glob_match-Matches :
    (pattern name : List ℕ) → glob_match pattern name ≡ some true → Matches pattern name
unfolding glob_match
glob_match-Matches pattern name e =
    elim (glob_run-Sound (glob_fuel pattern name) (at pattern name none) e) [
      | inl now ↦ now
      | inr later ↦ absurd later
    ]
