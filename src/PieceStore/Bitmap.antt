-- ===== src/PieceStore/Bitmap.antt =====
-- The bitmap: marking a piece marks that one and no other.
use Prim.Native.Nat.{bit_and, bit_or}
use peer_to_peer_distributed.Base.{
  ℕ, zero, suc, ◌/◌, ◌%◌, ◌^◌, ◌<◌, ◌≡◌, ◌≢◌, refl, sym, ◌∙◌, ap, inl, inr, Bool, true, false, not,
  ◌&&◌, ◌||◌, [], ◌∷◌, arith, length, All, ltb, ◌==◌, ==_iff, Bool-cases, ltb→lt, replicate,
}
use peer_to_peer_distributed.Text.{Str}
use peer_to_peer_distributed.PieceStore.{mask, byte_of, change_byte, marked, mark}

abbrev pub IsBytes : Str → Type 0
IsBytes = All (λ b. b < 256)

abbrev all_below : ℕ → (ℕ → Bool) → Bool
all_below zero p = true
all_below (suc n) p = p n && all_below n p

all_below-lt : (n : ℕ) (p : ℕ → Bool) (i : ℕ) → all_below n p ≡ true → i < n → p i ≡ true
all_below-lt zero p i h k = elim k [ ]
all_below-lt (suc n) p i h k = elim (Bool-cases (i == n)) [
  | inl e ↦ ground (arith, all_below-lt n p i)
  | inr e ↦ ground (arith, all_below-lt n p i)
]

abbrev same : Bool → Bool → Bool
same true b = b
same false b = not b

same_eq : (a b : Bool) → same a b ≡ true → a ≡ b
same_eq true b h = sym h
same_eq false true h = cc
same_eq false false h = refl

abbrev bit_law : ℕ → ℕ → ℕ → Bool
bit_law b r s =
    same (not (bit_and (bit_or b (128 / 2 ^ r)) (128 / 2 ^ s) == 0))
      (r == s || not (bit_and b (128 / 2 ^ s) == 0))

all_bits : all_below 256 (λ b. all_below 8 (λ r. all_below 8 (λ s. bit_law b r s))) ≡ true
all_bits = refl

bits_agree :
    (b r s : ℕ)
    → b < 256
    → r < 8
    → s < 8
    → not (bit_and (bit_or b (128 / 2 ^ r)) (128 / 2 ^ s) == 0)
      ≡ (r == s || not (bit_and b (128 / 2 ^ s) == 0))
bits_agree b r s hb hr hs = same_eq _ _ (
    all_below-lt 8 (bit_law b r) s
      (all_below-lt 8 (λ r. all_below 8 (bit_law b r)) r
        (all_below-lt 256 (λ b. all_below 8 (λ r. all_below 8 (bit_law b r))) b all_bits hb) hr)
      hs)

byte_of-lt : (bits : Str) (i : ℕ) → IsBytes bits → byte_of bits i < 256
byte_of-lt [] i h = omega arith
byte_of-lt (b ∷ bits) zero h = h.0
byte_of-lt (b ∷ bits) (suc i) h = byte_of-lt bits i h.1

byte_of-change_byte :
    (f : ℕ → ℕ) (bits : Str) (i : ℕ)
    → i < length bits
    → byte_of (change_byte f bits i) i ≡ f (byte_of bits i)
byte_of-change_byte f [] i h = elim h [ ]
byte_of-change_byte f (b ∷ bits) zero h = refl
byte_of-change_byte f (b ∷ bits) (suc i) h = byte_of-change_byte f bits i (omega arith)

byte_of_other :
    (f : ℕ → ℕ) (bits : Str) (i j : ℕ) → i ≢ j → byte_of (change_byte f bits i) j ≡ byte_of bits j
byte_of_other f [] i j h = refl
byte_of_other f (b ∷ bits) zero zero h = absurd (h refl)
byte_of_other f (b ∷ bits) zero (suc j) h = refl
byte_of_other f (b ∷ bits) (suc i) zero h = refl
byte_of_other f (b ∷ bits) (suc i) (suc j) h = byte_of_other f bits i j (λ e. h (ap suc e))

length-change_byte : (f : ℕ → ℕ) (bits : Str) (i : ℕ) → length (change_byte f bits i) ≡ length bits
length-change_byte f [] i = refl
length-change_byte f (b ∷ bits) zero = refl
length-change_byte f (b ∷ bits) (suc i) = ap suc (length-change_byte f bits i)

pub length-mark : (bits : Str) (i : ℕ) → length (mark bits i) ≡ length bits
unfolding mark
length-mark bits i = length-change_byte (λ b. bit_or b (mask i)) bits (i / 8)

-- After a piece within the bitmap is marked, exactly it and the pieces that were marked before
-- are.
pub marked-mark :
    (bits : Str) (i j : ℕ)
    → i / 8 < length bits
    → IsBytes bits
    → marked (mark bits i) j ≡ (i == j || marked bits j)
unfolding marked mark
marked-mark bits i j h bytes = elim (Bool-cases (i / 8 == j / 8)) [
  | inl e ↦
      let same_byte : i / 8 ≡ j / 8 = (==_iff (i / 8) (j / 8)).0 e in
      let changed : byte_of (change_byte (λ b. bit_or b (mask i)) bits (i / 8)) (j / 8)
          ≡ bit_or (byte_of bits (j / 8)) (mask i) =
        rw (sym same_byte) (byte_of-change_byte (λ b. bit_or b (mask i)) bits (i / 8) h) in
      let same_bit : (i % 8 == j % 8) ≡ (i == j) = ground (arith, same_byte) in
      ap (λ b. not (bit_and b (mask j) == 0)) changed
      ∙ bits_agree (byte_of bits (j / 8)) (i % 8) (j % 8) (byte_of-lt bits (j / 8) bytes)
          (omega arith) (omega arith)
      ∙ ap (λ t. t || marked bits j) same_bit
  | inr e ↦
      let other : i / 8 ≢ j / 8 = λ q. ground (arith, e, q) in
      let differ : (i == j) ≡ false = ground (arith, other) in
      rw (differ, byte_of_other (λ b. bit_or b (mask i)) bits (i / 8) (j / 8) other) refl
]

all_small : all_below 256 (λ b. all_below 8 (λ r. ltb (bit_or b (128 / 2 ^ r)) 256)) ≡ true
all_small = refl

or-lt : (b r : ℕ) → b < 256 → r < 8 → bit_or b (128 / 2 ^ r) < 256
or-lt b r hb hr = ltb→lt _ _ (
    all_below-lt 8 (λ r. ltb (bit_or b (128 / 2 ^ r)) 256) r
      (all_below-lt 256 (λ b. all_below 8 (λ r. ltb (bit_or b (128 / 2 ^ r)) 256)) b all_small hb)
      hr)

change_byte_below :
    (f : ℕ → ℕ) (bits : Str) (i : ℕ)
    → ((b : ℕ) → b < 256 → f b < 256)
    → IsBytes bits
    → IsBytes (change_byte f bits i)
change_byte_below f [] i k h = tt
change_byte_below f (b ∷ bits) zero k h = (k b h.0, h.1)
change_byte_below f (b ∷ bits) (suc i) k h = (h.0, change_byte_below f bits i k h.1)

pub mark-IsBytes : (bits : Str) (i : ℕ) → IsBytes bits → IsBytes (mark bits i)
unfolding mark
mark-IsBytes bits i h =
    change_byte_below (λ b. bit_or b (mask i)) bits (i / 8) (λ b k. or-lt b (i % 8) k (omega arith))
      h

zero_bits : all_below 8 (λ s. bit_and 0 (128 / 2 ^ s) == 0) ≡ true
zero_bits = refl

byte_of-replicate : (n i : ℕ) → byte_of (replicate n 0) i ≡ 0
byte_of-replicate zero i = refl
byte_of-replicate (suc n) zero = refl
byte_of-replicate (suc n) (suc i) = byte_of-replicate n i

-- An empty bitmap marks no piece.
pub marked-replicate : (n i : ℕ) → marked (replicate n 0) i ≡ false
unfolding marked
marked-replicate n i =
    rw (byte_of-replicate n (i / 8))
      (ap not (all_below-lt 8 (λ s. bit_and 0 (128 / 2 ^ s) == 0) (i % 8) zero_bits (omega arith)))

pub replicate-IsBytes : (n : ℕ) → IsBytes (replicate n 0)
replicate-IsBytes zero = tt
replicate-IsBytes (suc n) = (omega arith, replicate-IsBytes n)
