-- ===== src/Client/Seeding.antt =====
-- The store that upload_file of client/main.cpp opens on the file that it has hashed.
use peer_to_peer_distributed.Base.{
  ℕ, zero, suc, ◌+◌, ◌-◌, ◌*◌, ◌/◌, ◌^◌, ◌<◌, ◌≤◌, ◌≡◌, sym, ◌∙◌, ap, subst, inl, inr, List, arith,
  length, replicate, length-replicate, some, ltb, if_cases,
}
use peer_to_peer_distributed.Text.{Str}
use peer_to_peer_distributed.Protocol.{piece_size}
use peer_to_peer_distributed.Net.{Answer}
use peer_to_peer_distributed.Sha1.{hash_buffer}
use peer_to_peer_distributed.PieceStore.{
  Contents, open_for_seed, piece_len, read_bytes, bitmap_bytes,
}
use peer_to_peer_distributed.PieceStore.Bitmap.{IsBytes}
use peer_to_peer_distributed.PieceStore.Verified.{StoreValid}
use peer_to_peer_distributed.PieceStore.Resume.{hash_at}
use peer_to_peer_distributed.HashFile.{pieces_in, part_len, FileHash, Hashed, hash_file}
use peer_to_peer_distributed.HashFile.Pieces.{piece_hashes, pieces_in_covers, part-take}
use peer_to_peer_distributed.HashFile.Outcome.{file_hash, hash_file_sequential}
use peer_to_peer_distributed.Client.Hashing.{
  client_hash, client_hash-file_hash, hash_at-piece_hashes, length-piece_hashes,
}

full-IsBytes : (n : ℕ) → IsBytes (replicate n 0xFF)
full-IsBytes zero = tt
full-IsBytes (suc n) = (omega arith, full-IsBytes n)

module _ (size : ℕ) (file : Contents) (small : size < 2 ^ 64)
    (few : (size + piece_size - 1) / piece_size * 40 < 2 ^ 32) where
  covers :
      (size ≤ pieces_in piece_size size * piece_size)
      × (pieces_in piece_size size * piece_size < size + piece_size)
  covers = pieces_in_covers piece_size size (omega arith) (omega (arith, few))

  -- A seeder's piece is the part that was hashed.
  piece-part :
      (i : ℕ)
      → i < pieces_in piece_size size
      → piece_len (open_for_seed file size (pieces_in piece_size size)) i
        ≡ part_len piece_size size i
  unfolding piece_len
  piece-part i l =
      if_cases (λ n. n ≡ part_len piece_size size i) (ltb (i + 1) (pieces_in piece_size size)) _ _
        (λ e.
          let next : i + 1 < pieces_in piece_size size = ground (arith, e) in
          omega (arith, next, covers.0, covers.1, small))
        λ e.
          let last : pieces_in piece_size size ≤ i + 1 = ground (arith, e) in
          omega (arith, last, l, covers.0, covers.1, small)

  seeded :
      (hashes : List Str)
      → hashes ≡ piece_hashes piece_size (pieces_in piece_size size) (read_bytes 0 size file)
      → StoreValid (hash_at hashes) (open_for_seed file size (length hashes))
  seeded hashes e =
      let k = pieces_in piece_size size in
      let bytes = read_bytes 0 size file in
      let count : length hashes ≡ k = ap (length {0}) e ∙ length-piece_hashes piece_size k bytes in
      subst (λ n. StoreValid (hash_at hashes) (open_for_seed file size n)) (sym count)
        (record {
          size = small;
          count = omega (arith, few);
          covered = covers.0;
          tight = covers.1;
          bitmap = length-replicate (bitmap_bytes k) 0xFF;
          bytes = full-IsBytes (bitmap_bytes k);
          verified = λ i l m.
              ap hash_buffer (
                ap (λ n. read_bytes (i * piece_size) n file) (piece-part i l)
                ∙ part-take piece_size size (omega arith) (omega (arith, few)) i file l small)
              ∙ sym (ap (λ hs. hash_at hs i) e ∙ hash_at-piece_hashes piece_size k i bytes l);
        })

-- A file has a size below 2 ^ 64 and so few pieces that 40 times their number is below 2 ^ 32. When
-- hash_file has hashed it under any schedule, the store that is opened for seeding is valid for the
-- hashes that the client has sent: every piece that it serves has its hash.
pub open_for_seed-StoreValid :
    (threads cores size : ℕ) (file : Contents) (schedule : List (ℕ × List Answer)) (h : FileHash)
    → size < 2 ^ 64
    → (size + piece_size - 1) / piece_size * 40 < 2 ^ 32
    → hash_file piece_size threads cores (some (file, size)) schedule ≡ Hashed.hashed h
    → StoreValid
        (hash_at (client_hash h).pieces)
        (open_for_seed file h.size (length (client_hash h).pieces))
open_for_seed-StoreValid threads cores size file schedule h small few done =
    elim (hash_file_sequential piece_size threads cores size file schedule (omega arith) small
      (omega (arith, few))) [
        | inl e ↦ absurd (still_runs (sym e ∙ done))
        | inr (inl e) ↦ absurd (fails (sym e ∙ done))
        | inr (inr e) ↦
            subst
              (λ g.
                StoreValid (hash_at (client_hash g).pieces)
                  (open_for_seed file g.size (length (client_hash g).pieces)))
              (same (sym e ∙ done))
              (seeded size file small few (client_hash (file_hash piece_size file size)).pieces
                (client_hash-file_hash size file small (omega (arith, few))))
      ]
  where
    still_runs : Hashed.running ≡ Hashed.hashed h → ⊥
    still_runs e = cc

    fails : Hashed.unreadable ≡ Hashed.hashed h → ⊥
    fails e = cc

    same : {g : FileHash} → Hashed.hashed g ≡ Hashed.hashed h → g ≡ h
    same e = cc
