-- ===== src/Cmdline/Tests.antt =====
-- The command line at small inputs.
use mathlib.Core.Option
use bongos.Common.{
  ℕ, ◌-◌, ◌++◌, take, none, ◌≡◌, refl, arith, Bool, true, false, some, List, [], ◌∷◌,
}
use bongos.Cmdline.{
  star, str_eq, only_stars, backtrack, glob_turn, glob_run, glob_match, is_sep, has_token,
  find_ktest, find_ktest_from, next_token, skip_seps, span_token, better, starts_with,
}
use bongos.Cmdline.Tokens.{words, has_word, has_token_lem, last_ktest, find_ktest_lem}
use bongos.Cmdline.Glob.{Matches}
use bongos.Cmdline.GlobTotal.{glob_match_total}
use bongos.Cmdline.GlobComplete.{HasNoStar, glob_match_lem, glob_match-star}

-- "m*_*t" and "mm_test"
abbrev pattern_mm : List ℕ
pattern_mm = 109 ∷ star ∷ 95 ∷ star ∷ 116 ∷ []

abbrev name_mm : List ℕ
name_mm = 109 ∷ 109 ∷ 95 ∷ 116 ∷ 101 ∷ 115 ∷ 116 ∷ []

same_names : str_eq name_mm name_mm ≡ true
unfolding str_eq
same_names = refl

matches_mm : glob_match pattern_mm name_mm ≡ some true
unfolding glob_match glob_run glob_turn backtrack only_stars
matches_mm = refl

glob_match_total_example : (b : Bool) × (glob_match pattern_mm name_mm ≡ some b)
glob_match_total_example = glob_match_total pattern_mm name_mm

name_mm-HasNoStar : HasNoStar name_mm
name_mm-HasNoStar = omega arith

glob_match_lem_example :
    (glob_match pattern_mm name_mm ≡ some true → Matches pattern_mm name_mm)
    × (Matches pattern_mm name_mm → glob_match pattern_mm name_mm ≡ some true)
glob_match_lem_example = glob_match_lem pattern_mm name_mm name_mm-HasNoStar

glob_match-star_example :
    (glob_match (star ∷ []) (star ∷ 97 ∷ []) ≡ some false) × Matches (star ∷ []) (star ∷ 97 ∷ [])
glob_match-star_example = glob_match-star 97 []

-- "a ktest=x  ktest=yz"
abbrev ktest_line : List ℕ
ktest_line =
    97 ∷ 32 ∷ 107 ∷ 116 ∷ 101 ∷ 115 ∷ 116 ∷ 61 ∷ 120 ∷ 32 ∷ 32 ∷ 107 ∷ 116 ∷ 101 ∷ 115 ∷ 116 ∷ 61
    ∷ 121 ∷ 122 ∷ []

has_token_lem_example :
    has_token ktest_line (97 ∷ []) ≡ some (has_word (97 ∷ []) (words ktest_line))
has_token_lem_example = has_token_lem ktest_line (97 ∷ [])

first_word : has_word (97 ∷ []) (words ktest_line) ≡ true
unfolding has_word words is_sep str_eq
first_word = refl

find_ktest_lem_example :
    find_ktest ktest_line 2
    ≡ some (Option.map (λ best. take (2 - 1) best ++ 0 ∷ []) (last_ktest (words ktest_line) none))
find_ktest_lem_example = find_ktest_lem ktest_line 2 (omega arith)

find_ktest_cut : find_ktest ktest_line 2 ≡ some (some (121 ∷ 0 ∷ []))
unfolding find_ktest find_ktest_from next_token skip_seps span_token is_sep better starts_with
find_ktest_cut = refl
