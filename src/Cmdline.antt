-- ===== src/Cmdline.antt =====
-- kernel/core/cmdline.c: the kernel command line.
-- A C string is the list of the bytes before its NUL, and a pointer into it is a suffix.
pub mod Tokens
pub mod Glob
pub mod GlobTotal
pub mod GlobComplete
mod Tests
use bongos.Common.{
  ℕ, zero, suc, ◌+◌, ◌*◌, Bool, true, false, ◌&&◌, ◌||◌, Option, none, some, List, [], ◌∷◌, ltb,
  leb, ◌-◌, ◌++◌, take, drop, min, ◌==◌, if◌then◌else◌, length,
}

-- The byte '*'.
abbrev pub star : ℕ
star = 42

pub str_eq : List ℕ → List ℕ → Bool
str_eq [] [] = true
str_eq [] (y ∷ t) = false
str_eq (x ∷ s) [] = false
str_eq (x ∷ s) (y ∷ t) = let rest = str_eq s t in if x == y then rest else false

pub is_sep : ℕ → Bool
is_sep c = c == 32 || c == 9

-- The state of the matcher's loop: the two pointers, and the two of the last star, if any.
pub record GlobState : Type 0 where
  pub p : List ℕ
  pub n : List ℕ
  pub stars : Option (List ℕ × List ℕ)

-- One turn of the loop, which goes on with a state or returns. `stars` holds the pattern after
-- the star, which is starP + 1.
pub data GlobTurn : Type 0 where
  goes_on : GlobState → GlobTurn
  returns : Bool → GlobTurn

-- The trailing loop and the last test.
pub only_stars : List ℕ → Bool
only_stars [] = true
only_stars (c ∷ p) = let rest = only_stars p in if c == star then rest else false

-- The branch that goes back to the last star.
pub backtrack : Option (List ℕ × List ℕ) → GlobTurn
backtrack none = returns false
backtrack (some (q, [])) = returns false
backtrack (some (q, c ∷ m)) = goes_on (record { p = q; n = m; stars = some (q, m) })

pub glob_turn : GlobState → GlobTurn
glob_turn s = elim s.n [
  | [] ↦ returns (only_stars s.p)
  | c ∷ n ↦ elim s.p [
    | [] ↦ backtrack s.stars
    | d ∷ p ↦
        if d == c
        then goes_on (record s { p = p; n = n })
        else if d == star
        then goes_on (record { p = p; n = c ∷ n; stars = some (p, c ∷ n) })
        else backtrack s.stars
  ]
]

pub glob_run : ℕ → GlobState → Option Bool
glob_run zero s = none
glob_run (suc fuel) s = elim (glob_turn s) [ returns b ↦ some b | goes_on s' ↦ glob_run fuel s' ]

-- More turns than the loop takes on this pattern and this name.
abbrev pub glob_fuel : List ℕ → List ℕ → ℕ
glob_fuel pattern name = (length name + 2) * (length pattern + length name + 3)

pub glob_match : List ℕ → List ℕ → Option Bool
glob_match pattern name =
    glob_run (glob_fuel pattern name) (record { p = pattern; n = name; stars = none })

-- "ktest="
abbrev pub ktest_prefix : List ℕ
ktest_prefix = 107 ∷ 116 ∷ 101 ∷ 115 ∷ 116 ∷ 61 ∷ []

pub skip_seps : List ℕ → List ℕ
skip_seps [] = []
skip_seps (c ∷ p) = let rest = skip_seps p in if is_sep c then rest else c ∷ p

-- The bytes up to the next separator, and the pointer to it.
pub span_token : List ℕ → List ℕ × List ℕ
span_token [] = ([], [])
span_token (c ∷ p) =
    let (tok, rest) = span_token p in if is_sep c then ([], c ∷ p) else (c ∷ tok, rest)

-- The start of a turn of both token loops: the next token and the pointer behind it.
pub next_token : List ℕ → Option (List ℕ × List ℕ)
next_token p = elim (skip_seps p) [ [] ↦ none | c ∷ q ↦ some (span_token (c ∷ q)) ]

-- The count that the inner loop of cmdlineHasToken ends with.
pub common : List ℕ → List ℕ → ℕ
common [] token = 0
common (x ∷ tok) [] = 0
common (x ∷ tok) (y ∷ token) = let more = common tok token in if x == y then suc more else 0

pub token_matches : List ℕ → List ℕ → Bool
token_matches tok token = common tok token == length tok && common tok token == length token

-- `none` is out of fuel.
pub has_token_from : ℕ → List ℕ → List ℕ → Option Bool
has_token_from zero p token = none
has_token_from (suc fuel) p token = elim (next_token p) [
  | none ↦ some false
  | some (tok, rest) ↦
      let more = has_token_from fuel rest token in
      if token_matches tok token then some true else more
]

-- Every turn takes a byte or more.
pub has_token : List ℕ → List ℕ → Option Bool
has_token cmdline token = has_token_from (length cmdline + 1) cmdline token

-- The test of the prefix, byte by byte.
pub starts_with : List ℕ → List ℕ → Bool
starts_with [] tok = true
starts_with (x ∷ prefix) [] = false
starts_with (x ∷ prefix) (y ∷ tok) =
    let rest = starts_with prefix tok in if y == x then rest else false

-- `best` after a token.
pub better : List ℕ → Option (List ℕ) → Option (List ℕ)
better tok best =
    if leb (length ktest_prefix) (length tok) && starts_with ktest_prefix tok
    then some (drop (length ktest_prefix) tok)
    else best

pub find_ktest_from : ℕ → List ℕ → Option (List ℕ) → Option (Option (List ℕ))
find_ktest_from zero p best = none
find_ktest_from (suc fuel) p best = elim (next_token p) [
  | none ↦ some best
  | some (tok, rest) ↦ find_ktest_from fuel rest (better tok best)
]

-- The bytes written to `out`, the NUL among them.
pub find_ktest : List ℕ → ℕ → Option (Option (List ℕ))
find_ktest cmdline out_cap =
    if out_cap == 0 then some none else elim (find_ktest_from (length cmdline + 1) cmdline none) [
      | none ↦ none
      | some none ↦ some none
      | some (some best) ↦ some (
          some (
            take (if ltb (length best) (out_cap - 1) then length best else out_cap - 1) best
            ++ 0 ∷ []))
    ]
