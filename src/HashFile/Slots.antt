-- ===== src/HashFile/Slots.antt =====
-- The threads and the slots after one of them has changed.
use peer_to_peer_distributed.Base.{
  ℕ, zero, suc, ◌+◌, ◌<◌, ◌≤◌, ◌≡◌, ◌≢◌, refl, sym, ◌∙◌, ap, true, false, List, [], ◌∷◌, arith,
  length, ◌==◌,
}
use peer_to_peer_distributed.Text.{Str}
use peer_to_peer_distributed.PieceStore.Resume.{hash_at}
use peer_to_peer_distributed.HashFile.{Hasher, hasher_at, set_hasher, set_slot, all_returned}

pub length-set_hasher :
    (w : ℕ) (h : Hasher) (hs : List Hasher) → length (set_hasher w h hs) ≡ length hs
length-set_hasher w h [] = refl
length-set_hasher zero h (g ∷ hs) = refl
length-set_hasher (suc w) h (g ∷ hs) = ap suc (length-set_hasher w h hs)

pub length-set_slot : (i : ℕ) (h : Str) (hs : List Str) → length (set_slot i h hs) ≡ length hs
length-set_slot i h [] = refl
length-set_slot zero h (g ∷ hs) = refl
length-set_slot (suc i) h (g ∷ hs) = ap suc (length-set_slot i h hs)

pub hasher_at-set_hasher :
    (w : ℕ) (h : Hasher) (hs : List Hasher) → w < length hs → hasher_at (set_hasher w h hs) w ≡ h
hasher_at-set_hasher w h [] l = elim l [ ]
hasher_at-set_hasher zero h (g ∷ hs) l = refl
hasher_at-set_hasher (suc w) h (g ∷ hs) l = hasher_at-set_hasher w h hs (omega (arith, l))

pub other_hasher :
    (w v : ℕ) (h : Hasher) (hs : List Hasher)
    → (w == v) ≡ false
    → hasher_at (set_hasher w h hs) v ≡ hasher_at hs v
other_hasher w v h [] e = refl
other_hasher zero zero h (g ∷ hs) e = cc
other_hasher zero (suc v) h (g ∷ hs) e = refl
other_hasher (suc w) zero h (g ∷ hs) e = refl
other_hasher (suc w) (suc v) h (g ∷ hs) e = other_hasher w v h hs (ground (arith, e))

pub hash_at-set_slot :
    (i : ℕ) (h : Str) (hs : List Str) → i < length hs → hash_at (set_slot i h hs) i ≡ h
hash_at-set_slot i h [] l = elim l [ ]
hash_at-set_slot zero h (g ∷ hs) l = refl
hash_at-set_slot (suc i) h (g ∷ hs) l = hash_at-set_slot i h hs (omega (arith, l))

pub other_slot :
    (i j : ℕ) (h : Str) (hs : List Str)
    → (i == j) ≡ false
    → hash_at (set_slot i h hs) j ≡ hash_at hs j
other_slot i j h [] e = refl
other_slot zero zero h (g ∷ hs) e = cc
other_slot zero (suc j) h (g ∷ hs) e = refl
other_slot (suc i) zero h (g ∷ hs) e = refl
other_slot (suc i) (suc j) h (g ∷ hs) e = other_slot i j h hs (ground (arith, e))

-- A thread that has not returned is one of the list.
pub in_range : (w : ℕ) (hs : List Hasher) → hasher_at hs w ≢ Hasher.returned → w < length hs
in_range w [] h = absurd (h refl)
in_range zero (g ∷ hs) h = omega arith
in_range (suc w) (g ∷ hs) h = omega (arith, in_range w hs h)

pub all_returned_at :
    (hs : List Hasher) (w : ℕ) → all_returned hs ≡ true → hasher_at hs w ≡ Hasher.returned
all_returned_at [] w h = refl
all_returned_at (Hasher.returned ∷ hs) zero h = refl
all_returned_at (Hasher.returned ∷ hs) (suc w) h = all_returned_at hs w h
all_returned_at (Hasher.looking ∷ hs) w h = cc
all_returned_at (Hasher.pulling ∷ hs) w h = cc
all_returned_at (Hasher.reading i ∷ hs) w h = cc

-- How many threads have returned.
abbrev one_if_returned : Hasher → ℕ
one_if_returned Hasher.returned = 1
one_if_returned _ = 0

abbrev pub returned_count : List Hasher → ℕ
returned_count [] = 0
returned_count (h ∷ hs) = one_if_returned h + returned_count hs

pub returned_count-le : (hs : List Hasher) → returned_count hs ≤ length hs
returned_count-le [] = omega arith
returned_count-le (Hasher.returned ∷ hs) = omega (arith, returned_count-le hs)
returned_count-le (Hasher.looking ∷ hs) = omega (arith, returned_count-le hs)
returned_count-le (Hasher.pulling ∷ hs) = omega (arith, returned_count-le hs)
returned_count-le (Hasher.reading i ∷ hs) = omega (arith, returned_count-le hs)

returned_count-set_hasher :
    (w : ℕ) (h : Hasher) (hs : List Hasher)
    → w < length hs
    → returned_count (set_hasher w h hs) + one_if_returned (hasher_at hs w)
      ≡ returned_count hs + one_if_returned h
returned_count-set_hasher w h [] l = elim l [ ]
returned_count-set_hasher zero h (g ∷ hs) l = omega arith
returned_count-set_hasher (suc w) h (g ∷ hs) l =
    omega (arith, returned_count-set_hasher w h hs (omega (arith, l)))

-- A thread that moves had not returned.
pub returned_count_moved :
    (w : ℕ) (g h : Hasher) (hs : List Hasher)
    → hasher_at hs w ≡ g
    → g ≢ Hasher.returned
    → (returned_count (set_hasher w h hs) ≡ returned_count hs + one_if_returned h)
      × (returned_count hs + 1 ≤ length hs)
returned_count_moved w g h hs e n =
    let l = in_range w hs (λ k. n (sym e ∙ k)) in
    let none : one_if_returned (hasher_at hs w) ≡ 0 =
      not_one (hasher_at hs w) (λ k. n (sym e ∙ k)) in
    (
      omega (arith, returned_count-set_hasher w h hs l, none),
      omega (
        arith,
        returned_count-set_hasher w Hasher.returned hs l,
        none,
        returned_count-le (set_hasher w Hasher.returned hs),
        length-set_hasher w Hasher.returned hs,
      ),
    )
  where
    not_one : (k : Hasher) → k ≢ Hasher.returned → one_if_returned k ≡ 0
    not_one Hasher.returned m = absurd (m refl)
    not_one Hasher.looking m = refl
    not_one Hasher.pulling m = refl
    not_one (Hasher.reading i) m = refl
