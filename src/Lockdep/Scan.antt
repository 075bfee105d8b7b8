-- ===== src/Lockdep/Scan.antt =====
-- The inner loops of the search: which classes a scan marks and queues.
use bongos.Common.{
  put, ℕ, zero, suc, ◌+◌, ◌≤◌, ◌<◌, ◌≡◌, refl, Bool, true, false, not, ◌&&◌, ◌||◌, ◌⊎◌, inl, inr,
  List, [], ◌∷◌, ◌++◌, ltb, leb, ◌==◌, if◌then◌else◌, length, arith, Bool-cases, length-append,
}
use bongos.Lockdep.{Adjacency, BfsState, offer, scan}

abbrev pub Has : ℕ → List ℕ → Type 0
Has x [] = ⊥
Has x (y ∷ ys) = (x ≡ y) ⊎ Has x ys

pub Has-append_left : (x : ℕ) (xs ys : List ℕ) → Has x xs → Has x (xs ++ ys)
Has-append_left x [] ys m = elim m [ ]
Has-append_left x (y ∷ xs) ys (inl e) = inl e
Has-append_left x (y ∷ xs) ys (inr m) = inr (Has-append_left x xs ys m)

pub Has-concat_last : (x : ℕ) (xs : List ℕ) → Has x (xs ++ x ∷ [])
Has-concat_last x [] = inl refl
Has-concat_last x (y ∷ xs) = inr (Has-concat_last x xs)

pub Has-concat_cases : (x y : ℕ) (xs : List ℕ) → Has x (xs ++ y ∷ []) → Has x xs ⊎ (x ≡ y)
Has-concat_cases x y [] (inl e) = inr e
Has-concat_cases x y [] (inr m) = elim m [ ]
Has-concat_cases x y (z ∷ xs) (inl e) = inl (inl e)
Has-concat_cases x y (z ∷ xs) (inr m) = elim (Has-concat_cases x y xs m) [
  | inl l ↦ inl (inr l)
  | inr e ↦ inr e
]

module _ (adj : Adjacency) (cur next : ℕ) (s : BfsState) (w : ℕ) where
  pub seen-offer : (offer adj cur next s).seen w ≡ (s.seen w || w == next && adj cur next)
  unfolding offer
  seen-offer = ground arith

  pending-seen-offer :
      Has w (offer adj cur next s).pending
      → Has w s.pending ⊎ ((offer adj cur next s).seen w ≡ true)
  unfolding offer
  pending-seen-offer h = elim (Bool-cases (adj cur next && not (s.seen next))) [
    | inl new ↦ elim (Has-concat_cases w next s.pending (rw (offer, new) at h)) [
      | inl old ↦ inl old
      | inr e ↦ inr (rw (offer, new) (ground arith))
    ]
    | inr old ↦ inl (rw (offer, old) at h)
  ]

  pending-offer : Has w s.pending → Has w (offer adj cur next s).pending
  unfolding offer
  pending-offer h = elim (Bool-cases (adj cur next && not (s.seen next))) [
    | inl new ↦ rw (offer, new) (Has-append_left w s.pending (next ∷ []) h)
    | inr old ↦ rw (offer, old) h
  ]

  pending-offer_new :
      s.seen w ≡ false → (offer adj cur next s).seen w ≡ true → Has w (offer adj cur next s).pending
  unfolding offer
  pending-offer_new u m = elim (Bool-cases (adj cur next && not (s.seen next))) [
    | inl new ↦
        let e : w ≡ next = ground (arith, seen-offer) in
        rw (offer, new) (rw e (Has-concat_last next s.pending))
    | inr old ↦ absurd (ground (arith, seen-offer))
  ]

-- A scan marks the unseen neighbours of `cur` among the `n` ids from `next` on, and no other.
pub seen-scan :
    (adj : Adjacency) (cur n next : ℕ) (s : BfsState) (w : ℕ)
    → (scan adj cur n next s).seen w ≡ (s.seen w || adj cur w && leb next w && ltb w (next + n))
unfolding scan
seen-scan adj cur zero next s w = ground arith
seen-scan adj cur (suc n) next s w =
    ground
      (arith, seen-scan adj cur n (next + 1) (offer adj cur next s) w, seen-offer adj cur next s w)

-- What a scan queues it has marked.
pub pending-seen-scan :
    (adj : Adjacency) (cur n next : ℕ) (s : BfsState) (w : ℕ)
    → Has w (scan adj cur n next s).pending
    → Has w s.pending ⊎ ((scan adj cur n next s).seen w ≡ true)
unfolding scan
pending-seen-scan adj cur zero next s w h = inl h
pending-seen-scan adj cur (suc n) next s w h =
    let s' = offer adj cur next s in
    elim (pending-seen-scan adj cur n (next + 1) s' w h) [
      | inr m ↦ inr m
      | inl q ↦ elim (pending-seen-offer adj cur next s w q) [
        | inl old ↦ inl old
        | inr m ↦ inr (ground (arith, seen-scan adj cur n (next + 1) s' w))
      ]
    ]

-- A scan keeps what is queued, and queues what it marks.
pub pending-scan :
    (adj : Adjacency) (cur n next : ℕ) (s : BfsState) (w : ℕ)
    → Has w s.pending
    → Has w (scan adj cur n next s).pending
unfolding scan
pending-scan adj cur zero next s w m = m
pending-scan adj cur (suc n) next s w m =
    pending-scan adj cur n (next + 1) (offer adj cur next s) w (pending-offer adj cur next s w m)

pub pending-scan_new :
    (adj : Adjacency) (cur n next : ℕ) (s : BfsState) (w : ℕ)
    → s.seen w ≡ false
    → (scan adj cur n next s).seen w ≡ true
    → Has w (scan adj cur n next s).pending
unfolding scan
pending-scan_new adj cur zero next s w u m = absurd (cc)
pending-scan_new adj cur (suc n) next s w u m =
    let s' = offer adj cur next s in
    elim (Bool-cases (s'.seen w)) [
      | inl now ↦ pending-scan adj cur n (next + 1) s' w (pending-offer_new adj cur next s w u now)
      | inr later ↦ pending-scan_new adj cur n (next + 1) s' w later m
    ]

-- The unseen ids among the first `n`.
unfoldable pub unseen : (ℕ → Bool) → ℕ → ℕ
unseen seen zero = 0
unseen seen (suc n) = unseen seen n + (if seen (suc n) then 0 else 1)

unseen-put_out : (seen : ℕ → Bool) (n i : ℕ) → n < i → unseen (put seen i true) n ≡ unseen seen n
unfolding unseen
unseen-put_out seen zero i h = refl
unseen-put_out seen (suc n) i h = ground (arith, unseen-put_out seen n i)

pub unseen-put :
    (seen : ℕ → Bool) (n i : ℕ)
    → 0 < i
    → i ≤ n
    → seen i ≡ false
    → unseen (put seen i true) n + 1 ≡ unseen seen n
unfolding unseen
unseen-put seen zero i p h u = absurd (omega arith)
unseen-put seen (suc n) i p h u = elim (Bool-cases (i == suc n)) [
  | inl last ↦ ground (arith, unseen-put_out seen n i)
  | inr before ↦ ground (arith, unseen-put seen n i)
]

-- What a scan takes from the unseen it adds to the queue.
pub scan_conserves :
    (adj : Adjacency) (cur n next max : ℕ) (s : BfsState)
    → 0 < next
    → next + n ≤ suc max
    → let s' = scan adj cur n next s in
      unseen s'.seen max + length s'.pending ≡ unseen s.seen max + length s.pending
unfolding scan offer
scan_conserves adj cur zero next max s p h = refl
scan_conserves adj cur (suc n) next max s p h = ground (
  arith,
  scan_conserves adj cur n (next + 1) max (offer adj cur next s),
  unseen-put s.seen max next,
  length-append s.pending (next ∷ []),
)
