-- ===== src/HashFile/Pieces.antt =====
-- The pieces of a file cut from its bytes one after the other, and the ranges that the threads read.
use Prim.Native.Nat.{min}
use native.Mathlib.Nat.{div-mul-le_self, lt-div-mul-add, mul-le-mul_right}
use peer_to_peer_distributed.Base.{
  ℕ, zero, suc, ◌+◌, ◌-◌, ◌*◌, ◌/◌, ◌^◌, ◌<◌, ◌≤◌, ◌≡◌, refl, sym, ◌∙◌, ap, List, [], ◌∷◌, arith,
  length, take, drop, drop-drop,
}
use peer_to_peer_distributed.Text.{Str}
use peer_to_peer_distributed.Sha1.{hash_buffer}
use peer_to_peer_distributed.PieceStore.{Contents, read_bytes}
use peer_to_peer_distributed.PieceStore.Resume.{hash_at}
use peer_to_peer_distributed.HashFile.{pieces_in, part_len}

-- The hashes of the first pieces of some bytes.
abbrev pub piece_hashes : ℕ → ℕ → Str → List Str
piece_hashes ps zero xs = []
piece_hashes ps (suc k) xs = hash_buffer (take ps xs) ∷ piece_hashes ps k (drop ps xs)

pub take-read_bytes :
    (m p n : ℕ) (f : Contents) → take m (read_bytes p n f) ≡ read_bytes p (min m n) f
unfolding read_bytes
take-read_bytes zero p n f = let e : min 0 n ≡ 0 = omega arith in rw e refl
take-read_bytes (suc m) p zero f = let e : min (suc m) 0 ≡ 0 = omega arith in rw e refl
take-read_bytes (suc m) p (suc n) f =
    let e : min (suc m) (suc n) ≡ suc (min m n) = omega arith in
    rw e (ap (◌∷◌ (f p)) (take-read_bytes m (p + 1) n f))

pub drop-read_bytes :
    (m p n : ℕ) (f : Contents) → drop m (read_bytes p n f) ≡ read_bytes (p + m) (n - m) f
unfolding read_bytes
drop-read_bytes zero p n f =
    let e : p + zero ≡ p = omega arith in let k : n - zero ≡ n = omega arith in rw (e, k) refl
drop-read_bytes (suc m) p zero f = let e : 0 - suc m ≡ 0 = omega arith in rw e refl
drop-read_bytes (suc m) p (suc n) f =
    let e : p + suc m ≡ (p + 1) + m = omega arith in
    let k : suc n - suc m ≡ n - m = omega arith in rw (e, k) (drop-read_bytes m (p + 1) n f)

-- A list that has the hash of each piece in its slot.
pub piece_hashes_of :
    (ps k : ℕ) (xs : Str) (hs : List Str)
    → length hs ≡ k
    → ((i : ℕ) → i < k → hash_at hs i ≡ hash_buffer (take ps (drop (i * ps) xs)))
    → hs ≡ piece_hashes ps k xs
piece_hashes_of ps zero xs [] e h = refl
piece_hashes_of ps zero xs (g ∷ hs) e h = absurd (omega (arith, e))
piece_hashes_of ps (suc k) xs [] e h = absurd (omega (arith, e))
piece_hashes_of ps (suc k) xs (g ∷ hs) e h =
    let start : zero * ps ≡ zero = omega arith in
    ap (λ x. x ∷ hs) (h zero (omega arith) ∙ ap (λ m. hash_buffer (take ps (drop m xs))) start)
    ∙ ap (◌∷◌ (hash_buffer (take ps xs))) (
        piece_hashes_of ps k (drop ps xs) hs (omega (arith, e)) λ i l.
          h (suc i) (omega (arith, l))
          ∙ ap (λ m. hash_buffer (take ps (drop m xs))) (next i)
          ∙ sym (ap (λ ys. hash_buffer (take ps ys)) (drop-drop (i * ps) ps xs)))
  where
    next : (i : ℕ) → suc i * ps ≡ ps + i * ps
    next i = omega arith

module _ (ps size : ℕ) (positive : 0 < ps) (few : (size + ps - 1) / ps < 2 ^ 32) where
  pieces_in_exact : pieces_in ps size ≡ (size + ps - 1) / ps
  pieces_in_exact = omega (arith, few)

  -- The pieces cover the file, and the last one is not empty.
  pub pieces_in_covers : (size ≤ pieces_in ps size * ps) × (pieces_in ps size * ps < size + ps)
  pieces_in_covers =
      let low : (size + ps - 1) / ps * ps ≤ size + ps - 1 = div-mul-le_self (size + ps - 1) ps in
      let high : size + ps - 1 < (size + ps - 1) / ps * ps + ps = lt-div-mul-add positive in
      let same = ap (λ q. q * ps) pieces_in_exact in
      (omega (arith, positive, same, high), omega (arith, positive, same, low))

  pub part_len_exact :
      (i : ℕ) → i < pieces_in ps size → size < 2 ^ 64 → part_len ps size i ≡ min ps (size - i * ps)
  part_len_exact i l small =
      let q = pieces_in ps size in
      let below : (i + 1) * ps ≤ q * ps = mul-le-mul_right ps (omega (arith, l)) in
      ap (min ps) (omega (arith, below, pieces_in_covers.1, small))

  -- What a thread reads for a piece is what is cut from the bytes of the file there.
  pub part-take :
      (i : ℕ) (file : Contents)
      → i < pieces_in ps size
      → size < 2 ^ 64
      → read_bytes (i * ps) (part_len ps size i) file
        ≡ take ps (drop (i * ps) (read_bytes 0 size file))
  part-take i file l small =
      let e : 0 + i * ps ≡ i * ps = omega arith in
      ap (λ n. read_bytes (i * ps) n file) (part_len_exact i l small)
      ∙ sym (
          ap (take ps)
            (drop-read_bytes (i * ps) 0 size file ∙ ap (λ p. read_bytes p (size - i * ps) file) e)
          ∙ take-read_bytes ps (i * ps) (size - i * ps) file)
