-- ===== src/Cmdline/Tokens.antt =====
-- The token scans of the command line against its list of words.
use bongos.Common.{
  ℕ, zero, suc, ◌+◌, ◌-◌, ◌≤◌, ◌<◌, ◌≡◌, refl, sym, ◌∙◌, ap, Bool, true, false, ◌||◌, Option, none,
  some, List, [], ◌∷◌, ◌++◌, ◌==◌, if◌then◌else◌, length, take, drop, arith, inl, inr, ◌⊎◌,
  Bool-cases, Option-cases, List-cases, ltb, leb,
}
use mathlib.Core.Option
use bongos.Cmdline.{
  is_sep, str_eq, skip_seps, span_token, next_token, common, token_matches, has_token_from,
  has_token, starts_with, better, find_ktest_from, find_ktest, ktest_prefix,
}

-- A word that has ended.
abbrev close : List ℕ → List (List ℕ) → List (List ℕ)
close [] ws = ws
close (c ∷ w) ws = (c ∷ w) ∷ ws

-- The words of a line, read byte by byte after the bytes of a first one.
abbrev words_after : List ℕ → List ℕ → List (List ℕ)
words_after w [] = close w []
words_after w (c ∷ s) = if is_sep c then close w (words_after [] s) else words_after (w ++ c ∷ []) s

unfoldable pub words : List ℕ → List (List ℕ)
words s = words_after [] s

-- One of the words is `token`.
unfoldable pub has_word : List ℕ → List (List ℕ) → Bool
has_word token [] = false
has_word token (w ∷ ws) = str_eq w token || has_word token ws

skip_seps_lem : (p : List ℕ) → (words (skip_seps p) ≡ words p) × (length (skip_seps p) ≤ length p)
unfolding words skip_seps
skip_seps_lem [] = (refl, omega arith)
skip_seps_lem (c ∷ p) =
    let (same, shorter) = skip_seps_lem p in
    elim (Bool-cases (is_sep c)) [
      | inl sep ↦ simp (skip_seps, sep) (same, omega (arith, shorter))
      | inr byte ↦ simp (skip_seps, byte) (refl, omega arith)
    ]

skip_seps-head : (p : List ℕ) (c : ℕ) (q : List ℕ) → skip_seps p ≡ c ∷ q → is_sep c ≡ false
unfolding skip_seps
skip_seps-head [] c q e = absurd cc
skip_seps-head (x ∷ p) c q e = elim (Bool-cases (is_sep x)) [
  | inl sep ↦ skip_seps-head p c q (rw (skip_seps, sep) at e)
  | inr byte ↦ let e' : x ∷ p ≡ c ∷ q = rw (skip_seps, byte) at e in ground arith
]

append-nil : (xs : List ℕ) → xs ++ [] ≡ xs
append-nil [] = refl
append-nil (x ∷ xs) = ap (x ∷◌) (append-nil xs)

snoc-append : (xs : List ℕ) (c : ℕ) (ys : List ℕ) → (xs ++ c ∷ []) ++ ys ≡ xs ++ c ∷ ys
snoc-append [] c ys = refl
snoc-append (x ∷ xs) c ys = ap (x ∷◌) (snoc-append xs c ys)

span_token_lem :
    (w p : List ℕ)
    → (words_after w p ≡ close (w ++ (span_token p).0) (words (span_token p).1))
      × (length (span_token p).1 ≤ length p)
unfolding span_token words
span_token_lem w [] = (rw (append-nil w) refl, omega arith)
span_token_lem w (c ∷ p) =
    let (same, shorter) = span_token_lem (w ++ c ∷ []) p in
    elim (Bool-cases (is_sep c)) [
      | inl sep ↦ simp (span_token, sep, append-nil w) (refl, omega arith)
      | inr byte ↦
          simp (span_token, byte)
            (rw (snoc-append w c (span_token p).0) at same, omega (arith, shorter))
    ]

span_token-cons :
    (c : ℕ) (q : List ℕ)
    → is_sep c ≡ false
    → span_token (c ∷ q) ≡ (c ∷ (span_token q).0, (span_token q).1)
unfolding span_token
span_token-cons c q byte = rw (span_token, byte) refl

words-nil : words [] ≡ []
unfolding words
words-nil = refl

words-cons : (c : ℕ) (q : List ℕ) → is_sep c ≡ false → words (c ∷ q) ≡ words_after (c ∷ []) q
unfolding words
words-cons c q byte = rw byte refl

-- What a turn of a token loop finds.
next_token_lem :
    (p : List ℕ)
    → (next_token p ≡ none) × (words p ≡ [])
      ⊎ ((tok : List ℕ) × (rest : List ℕ) × (next_token p ≡ some (tok, rest))
          × (words p ≡ tok ∷ words rest)
          × (length rest < length p))
unfolding next_token
next_token_lem p =
    let (same, shorter) = skip_seps_lem p in
    elim (List-cases (skip_seps p)) [
      | inl e ↦ inl (rw (next_token, e) refl, sym same ∙ ap words e ∙ words-nil)
      | inr (c, q, e) ↦
          let byte = skip_seps-head p c q e in
          let (split, less) = span_token_lem (c ∷ []) q in
          let fewer : length (c ∷ q) ≤ length p = rw e at shorter in
          let step = span_token-cons c q byte in
          inr (
            c ∷ (span_token q).0,
            (span_token q).1,
            rw (next_token, e, step) refl,
            sym same ∙ ap words e ∙ words-cons c q byte ∙ split,
            omega (arith, less, fewer),
          )
    ]

str_eq-common : (tok token : List ℕ) → token_matches tok token ≡ str_eq tok token
unfolding token_matches common str_eq
str_eq-common [] [] = refl
str_eq-common [] (y ∷ t) = ground arith
str_eq-common (x ∷ s) [] = ground arith
str_eq-common (x ∷ s) (y ∷ t) = let ih = str_eq-common s t in ground (arith, ih)

has_token_from_lem :
    (fuel : ℕ) (p token : List ℕ)
    → length p < fuel
    → has_token_from fuel p token ≡ some (has_word token (words p))
unfolding has_token_from has_word
has_token_from_lem zero p token enough = absurd (omega arith)
has_token_from_lem (suc fuel) p token enough = elim (next_token_lem p) [
  | inl (none', no_words) ↦ rw (has_token_from, none', no_words) refl
  | inr (tok, rest, found, split, less) ↦
      let ih = has_token_from_lem fuel rest token (omega arith) in
      rw (has_token_from, found, split, str_eq-common tok token, ih)
        (elim (Bool-cases (str_eq tok token)) [ inl e ↦ rw e refl | inr e ↦ rw e refl ])
]

-- cmdlineHasToken returns on every line, and says whether one of the words is the token.
pub has_token_lem :
    (cmdline token : List ℕ) → has_token cmdline token ≡ some (has_word token (words cmdline))
unfolding has_token
has_token_lem cmdline token = has_token_from_lem (length cmdline + 1) cmdline token (omega arith)

-- What follows "ktest=" in the last word that begins so.
pub last_ktest : List (List ℕ) → Option (List ℕ) → Option (List ℕ)
last_ktest [] best = best
last_ktest (w ∷ ws) best =
    last_ktest ws (if starts_with ktest_prefix w then some (drop 6 w) else best)

starts_with-length :
    (prefix tok : List ℕ) → starts_with prefix tok ≡ true → length prefix ≤ length tok
unfolding starts_with
starts_with-length [] tok e = omega arith
starts_with-length (x ∷ prefix) [] e = absurd cc
starts_with-length (x ∷ prefix) (y ∷ tok) e = elim (Bool-cases (y == x)) [
  | inl same ↦ omega (arith, starts_with-length prefix tok (rw (starts_with, same) at e))
  | inr other ↦ absurd (let e' : false ≡ true = rw (starts_with, other) at e in cc)
]

better_lem :
    (tok : List ℕ) (best : Option (List ℕ))
    → better tok best ≡ (if starts_with ktest_prefix tok then some (drop 6 tok) else best)
unfolding better
better_lem tok best = elim (Bool-cases (starts_with ktest_prefix tok)) [
  | inl e ↦
      let long = starts_with-length ktest_prefix tok e in
      let long' : leb 6 (length tok) ≡ true = ground arith in rw (better, e, long') refl
  | inr e ↦
      rw (better, e)
        (elim (Bool-cases (leb 6 (length tok))) [ inl l ↦ rw l refl | inr l ↦ rw l refl ])
]

take-all : (xs : List ℕ) (n : ℕ) → length xs ≤ n → take (length xs) xs ≡ take n xs
take-all [] zero h = refl
take-all [] (suc n) h = refl
take-all (x ∷ xs) zero h = absurd (omega arith)
take-all (x ∷ xs) (suc n) h = ap (x ∷◌) (take-all xs n (omega arith))

take_min : (xs : List ℕ) (n : ℕ) → take (if ltb (length xs) n then length xs else n) xs ≡ take n xs
take_min xs n = elim (Bool-cases (ltb (length xs) n)) [
  | inl e ↦ rw e (take-all xs n (ground arith))
  | inr e ↦ rw e refl
]

find_ktest_from_lem :
    (fuel : ℕ) (p : List ℕ) (best : Option (List ℕ))
    → length p < fuel
    → find_ktest_from fuel p best ≡ some (last_ktest (words p) best)
unfolding find_ktest_from last_ktest
find_ktest_from_lem zero p best enough = absurd (omega arith)
find_ktest_from_lem (suc fuel) p best enough = elim (next_token_lem p) [
  | inl (none', no_words) ↦ rw (find_ktest_from, none', no_words) refl
  | inr (tok, rest, found, split, less) ↦
      let ih = find_ktest_from_lem fuel rest (better tok best) (omega arith) in
      rw (find_ktest_from, found, split, ih, better_lem tok best) refl
]

-- cmdlineFindKtest returns on every line: it writes what follows "ktest=" in the last word that
-- begins so, cut to the buffer with its NUL, and finds nothing where no word does.
pub find_ktest_lem :
    (cmdline : List ℕ) (out_cap : ℕ)
    → 0 < out_cap
    → find_ktest cmdline out_cap
      ≡ some
          (Option.map (λ best. take (out_cap - 1) best ++ 0 ∷ []) (last_ktest (words cmdline) none))
unfolding find_ktest
find_ktest_lem cmdline out_cap pos =
    let e = find_ktest_from_lem (length cmdline + 1) cmdline none (omega arith) in
    let room : (out_cap == 0) ≡ false = ground arith in
    elim (Option-cases (last_ktest (words cmdline) none)) [
      | inl no' ↦ rw (find_ktest, room, e, no') refl
      | inr (best, yes') ↦
          rw (find_ktest, room, e, yes')
            (ap (λ b. some (some (b ++ 0 ∷ []))) (take_min best (out_cap - 1)))
    ]
