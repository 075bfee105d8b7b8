-- ===== src/Cmdline/GlobComplete.antt =====
-- cmdlineGlobMatch accepts every match of a name that has no star in it.
use bongos.Common.{
  ℕ, zero, suc, ◌+◌, ◌-◌, ◌≡◌, ◌≢◌, refl, sym, ◌∙◌, ap, subst, Bool, true, false, inl, inr, Option,
  none, some, List, [], ◌∷◌, ◌++◌, arith, ◌==◌, length, drop, Bool-cases,
}
use bongos.Cmdline.{
  star, GlobState, GlobTurn, goes_on, returns, backtrack, glob_turn, glob_run, glob_fuel,
  glob_match,
}
use bongos.Cmdline.Glob.{Matches, Later, Goal, at, Matches-only_stars, glob_match-Matches}
use bongos.Cmdline.GlobTotal.{glob_match_total}

abbrev pub HasNoStar : List ℕ → Type 0
HasNoStar [] = Unit {0}
HasNoStar (c ∷ n) = (c ≢ star) × HasNoStar n

drop_nil : (k : ℕ) → drop {A = ℕ} k [] ≡ []
drop_nil zero = refl
drop_nil (suc k) = refl

drop-drop : (j k : ℕ) (n : List ℕ) → drop j (drop k n) ≡ drop (k + j) n
drop-drop j zero n = ap (λ i. drop i n) (zero_add j)
  where
    zero_add : (i : ℕ) → i ≡ 0 + i
    zero_add i = omega arith
drop-drop j (suc k) [] = drop_nil j ∙ sym (drop_nil (suc k + j))
drop-drop j (suc k) (c ∷ n) = drop-drop j k n ∙ ap (λ i. drop i (c ∷ n)) (suc_add k j)
  where
    suc_add : (a b : ℕ) → suc (a + b) ≡ suc a + b
    suc_add a b = omega arith

drop-HasNoStar : (k : ℕ) (n : List ℕ) → HasNoStar n → HasNoStar (drop k n)
drop-HasNoStar zero n h = h
drop-HasNoStar (suc k) [] h = tt
drop-HasNoStar (suc k) (c ∷ n) h = drop-HasNoStar k n h.1

-- What a pattern that begins with the starless `w` matches goes on as the rest of it.
Matches-append : (w p x : List ℕ) → HasNoStar w → Matches (w ++ p) x → Matches p (drop (length w) x)
Matches-append [] p x h m = m
Matches-append (c ∷ w) p x h (inl (e, m)) = absurd (h.0 e)
Matches-append (c ∷ w) p [] h (inr (e, m)) = absurd m
Matches-append (c ∷ w) p (d ∷ x) h (inr (e, m)) = Matches-append w p x h.1 m.1

drop-append : (w n : List ℕ) → drop (length w) (w ++ n) ≡ n
drop-append [] n = refl
drop-append (c ∷ w) n = drop-append w n

drop_comm : (j k : ℕ) (n : List ℕ) → drop j (drop k n) ≡ drop k (drop j n)
drop_comm j k n = drop-drop j k n ∙ ap (λ i. drop i n) (add_comm k j) ∙ sym (drop-drop k j n)
  where
    add_comm : (a b : ℕ) → a + b ≡ b + a
    add_comm a b = omega arith

-- If the last star can take more, the pattern that is left matches behind the name's present place.
Later-place :
    (w p n : List ℕ) (k : ℕ)
    → HasNoStar w
    → Matches (w ++ p) (drop k (w ++ n))
    → Matches p (drop k n)
Later-place w p n k h m =
    subst (Matches p) (drop_comm (length w) k (w ++ n) ∙ ap (drop k) (drop-append w n))
      (Matches-append w p (drop k (w ++ n)) h m)

-- Since the last star the loop has compared `w`, byte by byte.
data IsRun (p n : List ℕ) : Option (List ℕ × List ℕ) → Type 0 where
  no_star : IsRun p n none
  since : (w : List ℕ) → HasNoStar w → IsRun p n (some (w ++ p, w ++ n))

snoc : (w : List ℕ) (c : ℕ) (p : List ℕ) → (w ++ c ∷ []) ++ p ≡ w ++ c ∷ p
snoc [] c p = refl
snoc (d ∷ w) c p = ap (λ l. d ∷ l) (snoc w c p)

snoc-HasNoStar : (w : List ℕ) (c : ℕ) → HasNoStar w → c ≢ star → HasNoStar (w ++ c ∷ [])
snoc-HasNoStar [] c h s = (s, tt)
snoc-HasNoStar (d ∷ w) c h s = (h.0, snoc-HasNoStar w c h.1 s)

IsRun-literal :
    (c : ℕ) (p n : List ℕ) (o : Option (List ℕ × List ℕ))
    → c ≢ star
    → IsRun (c ∷ p) (c ∷ n) o
    → IsRun p n o
IsRun-literal c p n _ s no_star = no_star
IsRun-literal c p n _ s (since w h) =
    subst (λ q. IsRun p n (some (q, w ++ c ∷ n))) (snoc w c p)
      (subst (λ m. IsRun p n (some ((w ++ c ∷ []) ++ p, m))) (snoc w c n)
        (since (w ++ c ∷ []) (snoc-HasNoStar w c h s)))

abbrev NoStars : Option (List ℕ × List ℕ) → Type 0
NoStars none = Unit {0}
NoStars (some (q, m)) = HasNoStar m

abbrev Complete : GlobTurn → Type 0
Complete (returns b) = b ≡ true
Complete (goes_on s') = IsRun s'.p s'.n s'.stars × HasNoStar s'.n × NoStars s'.stars × Goal s'

-- At the end of the name a star that can take more matches the rest of the pattern.
Later-end : (p : List ℕ) (o : Option (List ℕ × List ℕ)) → IsRun p [] o → Later o → Matches p []
Later-end p _ no_star l = absurd l
Later-end p _ (since w h) (k, m) = Later-place w p [] (suc k) h m

backtrack-Complete :
    (o : Option (List ℕ × List ℕ)) (p : List ℕ) (c : ℕ) (n : List ℕ)
    → IsRun p (c ∷ n) o
    → NoStars o
    → Later o
    → Complete (backtrack o)
unfolding backtrack
backtrack-Complete none p c n r s l = absurd l
backtrack-Complete (some (q, [])) p c n r s l = absurd (nonempty p n _ r refl)
  where
    nonempty :
        (p n : List ℕ) (o : Option (List ℕ × List ℕ)) → IsRun p (c ∷ n) o → o ≡ some (q, []) → ⊥
    nonempty p n _ no_star e = cc
    nonempty p n _ (since [] h) e = cc
    nonempty p n _ (since (d ∷ w) h) e = cc
backtrack-Complete (some (q, d ∷ m)) p c n r s (zero, l) = (since [] tt, s.1, s.1, inl l)
backtrack-Complete (some (q, d ∷ m)) p c n r s (suc k, l) = (since [] tt, s.1, s.1, inr (k, l))

literal-Complete :
    (c : ℕ) (p n : List ℕ) (o : Option (List ℕ × List ℕ))
    → IsRun (c ∷ p) (c ∷ n) o
    → HasNoStar (c ∷ n)
    → NoStars o
    → Goal (at (c ∷ p) (c ∷ n) o)
    → Complete (goes_on (at p n o))
literal-Complete c p n o r h s (inl (inl (e, m))) = absurd (h.0 e)
literal-Complete c p n o r h s (inl (inr (e, m))) = (IsRun-literal c p n o h.0 r, h.1, s, inl m.1)
literal-Complete c p n o r h s (inr l) = (IsRun-literal c p n o h.0 r, h.1, s, inr l)

-- A new star can take whatever the old one could.
star-Complete :
    (p n : List ℕ) (o : Option (List ℕ × List ℕ))
    → IsRun (star ∷ p) n o
    → HasNoStar n
    → Goal (at (star ∷ p) n o)
    → Complete (goes_on (at p n (some (p, n))))
star-Complete p n o r h (inl (inl (e, (zero, m)))) = (since [] tt, h, h, inl m)
star-Complete p n o r h (inl (inl (e, (suc k, m)))) = (since [] tt, h, h, inr (k, m))
star-Complete p n o r h (inl (inr (e, m))) = absurd (e refl)
star-Complete p n _ no_star h (inr l) = absurd l
star-Complete p n _ (since w i) h (inr (k, l)) = elim (Later-place w (star ∷ p) n (suc k) i l) [
  | inl (e, (j, m)) ↦ (
    since [] tt,
    h,
    h,
    inr (k + j, subst (Matches p) (drop-drop j (suc k) n ∙ ap (λ i. drop i n) (suc_add k j)) m),
  )
  | inr (e, m) ↦ absurd (e refl)
]
  where
    suc_add : (a b : ℕ) → suc a + b ≡ suc (a + b)
    suc_add a b = omega arith

Begins-refuse : (d c : ℕ) (p n : List ℕ) → d ≢ c → d ≢ star → Matches (d ∷ p) (c ∷ n) → ⊥
Begins-refuse d c p n other plain (inl (e, m)) = plain e
Begins-refuse d c p n other plain (inr (e, m)) = other m.0

mismatch :
    (d c : ℕ) (p n : List ℕ) (o : Option (List ℕ × List ℕ))
    → d ≢ c
    → d ≢ star
    → IsRun (d ∷ p) (c ∷ n) o
    → NoStars o
    → Goal (at (d ∷ p) (c ∷ n) o)
    → Complete (backtrack o)
mismatch d c p n o other plain r s (inl m) = absurd (Begins-refuse d c p n other plain m)
mismatch d c p n o other plain r s (inr l) = backtrack-Complete o (d ∷ p) c n r s l

glob_turn-Complete :
    (s : GlobState)
    → IsRun s.p s.n s.stars
    → HasNoStar s.n
    → NoStars s.stars
    → Goal s
    → Complete (glob_turn s)
unfolding glob_turn
glob_turn-Complete s = turn s.p s.n s.stars
  where
    turn :
        (p n : List ℕ) (o : Option (List ℕ × List ℕ))
        → IsRun p n o
        → HasNoStar n
        → NoStars o
        → Goal (at p n o)
        → Complete (glob_turn (at p n o))
    turn p [] o r h s (inl m) = Matches-only_stars p m
    turn p [] o r h s (inr l) = Matches-only_stars p (Later-end p o r l)
    turn [] (c ∷ n) o r h s (inl m) = absurd (cc)
    turn [] (c ∷ n) o r h s (inr l) = backtrack-Complete o [] c n r s l
    turn (d ∷ p) (c ∷ n) o r h s g = elim (Bool-cases (d == c)) [
      | inl same ↦
          let e : d ≡ c = ground arith in
          rw (glob_turn, same) (literal-Complete c p n o (rw e at r) h s (rw e at g))
      | inr other ↦ elim (Bool-cases (d == star)) [
        | inl wild ↦
            let e : d ≡ star = ground arith in
            rw (glob_turn, other) (rw wild (star-Complete p (c ∷ n) o (rw e at r) h (rw e at g)))
        | inr plain ↦
            rw (glob_turn, other)
              (rw plain (mismatch d c p n o (ground arith) (ground arith) r s g))
      ]
    ]

glob_run-Complete :
    (fuel : ℕ) (s : GlobState) (b : Bool)
    → IsRun s.p s.n s.stars
    → HasNoStar s.n
    → NoStars s.stars
    → Goal s
    → glob_run fuel s ≡ some b
    → b ≡ true
unfolding glob_run
glob_run-Complete zero s b r h o g e = absurd (cc)
glob_run-Complete (suc fuel) s b r h o g e =
    go (glob_turn s) (glob_turn-Complete s r h o g)
      (λ s' r' h' o' g' e'. glob_run-Complete fuel s' b r' h' o' g' e') e
  where
    go :
        (t : GlobTurn)
        → Complete t
        → ((s' : GlobState)
            → IsRun s'.p s'.n s'.stars
            → HasNoStar s'.n
            → NoStars s'.stars
            → Goal s'
            → glob_run fuel s' ≡ some b
            → b ≡ true)
        → elim t [ returns b' ↦ some b' | goes_on s' ↦ glob_run fuel s' ] ≡ some b
        → b ≡ true
    go (returns b') k rest e = cc
    go (goes_on s') k rest e = rest s' k.0 k.1 k.2 k.3 e

-- Where the name has no star in it, cmdlineGlobMatch returns true exactly if the pattern matches.
pub glob_match_lem :
    (pattern name : List ℕ)
    → HasNoStar name
    → (glob_match pattern name ≡ some true → Matches pattern name)
      × (Matches pattern name → glob_match pattern name ≡ some true)
unfolding glob_match
glob_match_lem pattern name h = (
  glob_match-Matches pattern name,
  λ m.
      let (b, e) = glob_match_total pattern name in
      let yes' : b ≡ true =
        glob_run-Complete (glob_fuel pattern name) (at pattern name none) b no_star h tt (inl m)
          e in
      e ∙ ap some yes',
)

drop_all : (n : List ℕ) → drop (length n) n ≡ []
drop_all [] = refl
drop_all (c ∷ n) = drop_all n

star_run :
    (c k : ℕ) (name : List ℕ)
    → glob_run (suc (suc k)) (at (star ∷ []) (star ∷ c ∷ name) none) ≡ some false
unfolding glob_run glob_turn backtrack
star_run c k name = refl

-- A pattern of one star accepts no name that begins with a star and goes on, though it matches
-- every name.
pub glob_match-star :
    (c : ℕ) (name : List ℕ)
    → (glob_match (star ∷ []) (star ∷ c ∷ name) ≡ some false)
      × Matches (star ∷ []) (star ∷ c ∷ name)
unfolding glob_match
glob_match-star c name =
    let fuel = glob_fuel (star ∷ []) (star ∷ c ∷ name) in
    let more : suc (suc (fuel - 2)) ≡ fuel = omega arith in
    (
      subst (λ i. glob_run i (at (star ∷ []) (star ∷ c ∷ name) none) ≡ some false) more
          (star_run c (fuel - 2) name),
      inl (refl, (suc (suc (length name)), drop_all name)),
    )
