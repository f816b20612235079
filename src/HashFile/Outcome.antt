-- ===== src/HashFile/Outcome.antt =====
-- What hash_file returns once its threads have returned.
use Prim.Native.Nat.{min, max}
use peer_to_peer_distributed.Base.{
  ℕ, zero, suc, ◌+◌, ◌-◌, ◌/◌, ◌^◌, ◌<◌, ◌≤◌, ◌≡◌, refl, sym, ◌∙◌, ap, ◌⊎◌, inl, inr, true, false,
  List, [], arith, ◌==◌, if_cases, replicate, length-replicate, some,
}
use peer_to_peer_distributed.Net.{Answer}
use peer_to_peer_distributed.Sha1.{hash_buffer}
use peer_to_peer_distributed.PieceStore.{Contents, read_bytes}
use peer_to_peer_distributed.PieceStore.Resume.{hash_at}
use peer_to_peer_distributed.HashFile.{
  Hasher, Hashing, hasher_at, all_returned, pieces_in, run_hashers, fresh_hashing, thread_count,
  FileHash, Hashed, concat, hash_file,
}
use peer_to_peer_distributed.HashFile.Slots.{all_returned_at}
use peer_to_peer_distributed.HashFile.Claims.{Claimed, Found, part}
use peer_to_peer_distributed.HashFile.Pieces.{piece_hashes, piece_hashes_of, part-take}
use peer_to_peer_distributed.HashFile.Reference.{run_hashers-Claimed}

-- The outputs for a file that is hashed piece after piece.
abbrev pub file_hash : ℕ → Contents → ℕ → FileHash
file_hash ps file size =
    let hashes = piece_hashes ps (pieces_in ps size) (read_bytes 0 size file) in
    record { whole = hash_buffer (concat hashes); blob = concat hashes; size = size }

fresh_hasher :
    (n w : ℕ)
    → (hasher_at (replicate n Hasher.looking) w ≡ Hasher.looking)
      ⊎ ((n ≤ w) × (hasher_at (replicate n Hasher.looking) w ≡ Hasher.returned))
fresh_hasher zero w = inr (omega arith, refl)
fresh_hasher (suc n) zero = inl refl
fresh_hasher (suc n) (suc w) = elim (fresh_hasher n w) [
  | inl e ↦ inl e
  | inr (l, e) ↦ inr (omega (arith, l), e)
]

pub fresh_hashing-Claimed :
    (ps : ℕ) (file : Contents) (size n : ℕ)
    → Claimed ps file size n (fresh_hashing (pieces_in ps size) n)
fresh_hashing-Claimed ps file size n = record {
  threads = length-replicate n Hasher.looking;
  slots = length-replicate (pieces_in ps size) [];
  counter = omega arith;
  claimed = λ i l k. absurd (omega (arith, k));
  inside = λ w i e. elim (fresh_hasher n w) [
    | inl k ↦ absurd (looks (sym k ∙ e))
    | inr (l, k) ↦ absurd (rests (sym k ∙ e))
  ];
  stopped = λ w l e. elim (fresh_hasher n w) [
    | inl k ↦ absurd (stays (sym k ∙ e))
    | inr (m, k) ↦ absurd (omega (arith, m, l))
  ];
}
  where
    looks : {i : ℕ} → Hasher.looking ≡ Hasher.reading i → ⊥
    looks e = cc

    rests : {i : ℕ} → Hasher.returned ≡ Hasher.reading i → ⊥
    rests e = cc

    stays : Hasher.looking ≡ Hasher.returned → ⊥
    stays e = cc

pub thread_count-bounds :
    (threads cores pc : ℕ)
    → (0 < thread_count threads cores pc) × (thread_count threads cores pc ≤ max pc 1)
thread_count-bounds threads cores pc =
    if_cases (λ k. (0 < min k (max pc 1)) × (min k (max pc 1) ≤ max pc 1)) (threads == 0) _ _
      (λ _. (omega arith, omega arith)) λ e. (ground (arith, e), omega arith)

module _ (ps : ℕ) (file : Contents) (size n : ℕ) (positive : 0 < ps) (small : size < 2 ^ 64)
    (few : (size + ps - 1) / ps < 2 ^ 31) (working : 0 < n) where
  -- Once the threads have returned and no read has failed, the slots hold the hashes in order.
  pub ended-piece_hashes :
      (r : Hashing)
      → Claimed ps file size n r
      → all_returned r.hashers ≡ true
      → r.failed ≡ false
      → r.hashes ≡ piece_hashes ps (pieces_in ps size) (read_bytes 0 size file)
  ended-piece_hashes r v ended fine =
      piece_hashes_of ps (pieces_in ps size) (read_bytes 0 size file) r.hashes v.slots λ i l.
        found i l (v.claimed i l (omega (arith, l, counted)))
        ∙ ap hash_buffer (part-take ps size positive (omega (arith, few)) i file l small)
    where
      fails : r.failed ≡ true → ⊥
      fails e = cc

      counted : pieces_in ps size ≤ r.next
      counted = elim (v.stopped 0 working (all_returned_at r.hashers 0 ended)) [
        | inl e ↦ absurd (fails e)
        | inr l ↦ l
      ]

      reads : {i : ℕ} → Hasher.returned ≡ Hasher.reading i → ⊥
      reads e = cc

      found :
          (i : ℕ)
          → i < pieces_in ps size
          → Found ps file size n r i
          → hash_at r.hashes i ≡ hash_buffer (part ps file size n i)
      found i l (inl e) = e
      found i l (inr (inl (w, e))) = absurd (reads (sym (all_returned_at r.hashers w ended) ∙ e))
      found i l (inr (inr e)) = absurd (fails e)

-- For a piece size that is not 0, and a file whose size is below 2 ^ 64 and that has fewer than 2 ^ 31
-- pieces: under any schedule of its threads hash_file gives what hashing piece after piece gives, the
-- hash of the file being that of the joined hashes of its pieces, unless a read fails or a thread
-- still runs.
pub hash_file_sequential :
    (ps threads cores size : ℕ) (file : Contents) (schedule : List (ℕ × List Answer))
    → 0 < ps
    → size < 2 ^ 64
    → (size + ps - 1) / ps < 2 ^ 31
    → (hash_file ps threads cores (some (file, size)) schedule ≡ Hashed.running)
      ⊎ (hash_file ps threads cores (some (file, size)) schedule ≡ Hashed.unreadable)
      ⊎ (hash_file ps threads cores (some (file, size)) schedule
          ≡ Hashed.hashed (file_hash ps file size))
unfolding hash_file
hash_file_sequential ps threads cores size file schedule positive small few =
    let pc = pieces_in ps size in
    let n = thread_count threads cores pc in
    let (working, bounded) = thread_count-bounds threads cores pc in
    let r = run_hashers ps file size schedule (fresh_hashing pc n) in
    let v =
      run_hashers-Claimed ps file size n schedule (fresh_hashing pc n) (omega (arith, few, bounded))
        (fresh_hashing-Claimed ps file size n) in
    if_cases Outcome (all_returned r.hashers) _ _
      (λ ended.
        if_cases Outcome r.failed _ _ (λ _. inr (inl refl))
          λ fine. inr (
            inr (
              ap
                (λ hs.
                  Hashed.hashed
                    (record { whole = hash_buffer (concat hs); blob = concat hs; size = size }))
                (ended-piece_hashes ps file size n positive small few working r v ended fine))))
      λ _. inl refl
  where
    Outcome : Hashed → Type 0
    Outcome h =
        (h ≡ Hashed.running)
        ⊎ (h ≡ Hashed.unreadable)
        ⊎ (h ≡ Hashed.hashed (file_hash ps file size))
