-- ===== src/HashFile/Total.antt =====
-- hash_file with reads that succeed and threads that all move again and again.
use peer_to_peer_distributed.Base.{
  ℕ, zero, suc, ◌+◌, ◌-◌, ◌*◌, ◌/◌, ◌^◌, ◌<◌, ◌≤◌, ◌≡◌, refl, ap, Bool, true, false, List, arith,
  length, if_cases, All, some, replicate,
}
use peer_to_peer_distributed.PieceStore.{Contents}
use peer_to_peer_distributed.Sha1.{hash_buffer}
use peer_to_peer_distributed.HashFile.{
  Hasher, all_returned, pieces_in, run_hashers, fresh_hashing, thread_count, Hashed, concat,
  hash_file,
}
use peer_to_peer_distributed.HashFile.Outcome.{
  file_hash, fresh_hashing-Claimed, thread_count-bounds, ended-piece_hashes,
}
use peer_to_peer_distributed.HashFile.Fairness.{IsServed, moves_of_all}
use peer_to_peer_distributed.HashFile.Ending.{Turns, in_turn, IsRound, Sound, rounds_end}

moves_of_all-replicate : (n : ℕ) → moves_of_all (replicate n Hasher.looking) ≡ 2 * n
moves_of_all-replicate zero = omega arith
moves_of_all-replicate (suc n) = omega (arith, moves_of_all-replicate n)

-- For a piece size that is not 0, and a file whose size is below 2 ^ 64 and that has fewer than 2 ^ 31
-- pieces: when every read moves something and has an answer for each byte of a piece, and each round
-- has a move of every thread, then after three rounds a piece and two a thread hash_file returns what
-- hashing piece after piece gives, the hash of the file being that of the joined hashes of its pieces.
pub hash_file_ends :
    (ps threads cores size : ℕ) (file : Contents) (rounds : List Turns)
    → 0 < ps
    → size < 2 ^ 64
    → (size + ps - 1) / ps < 2 ^ 31
    → All (IsRound (thread_count threads cores (pieces_in ps size))) rounds
    → All (All (IsServed ps)) rounds
    → 3 * pieces_in ps size + 2 * thread_count threads cores (pieces_in ps size) ≤ length rounds
    → hash_file ps threads cores (some (file, size)) (in_turn rounds)
      ≡ Hashed.hashed (file_hash ps file size)
unfolding hash_file
hash_file_ends ps threads cores size file rounds positive small few all served enough =
    let pc = pieces_in ps size in
    let n = thread_count threads cores pc in
    let (working, bounded) = thread_count-bounds threads cores pc in
    let below : pc + n < 2 ^ 32 = omega (arith, few, bounded) in
    let start : Sound ps file size n below (fresh_hashing pc n) = record {
      claims = fresh_hashing-Claimed ps file size n;
      fine = refl;
    } in
    let r = run_hashers ps file size (in_turn rounds) (fresh_hashing pc n) in
    let (sound, ended) =
      rounds_end ps file size n below rounds (fresh_hashing pc n) all served start
        (omega (arith, enough, moves_of_all-replicate n)) in
    if_cases (λ h. h ≡ Hashed.hashed (file_hash ps file size)) (all_returned r.hashers) _ _
      (λ _.
        if_cases (λ h. h ≡ Hashed.hashed (file_hash ps file size)) r.failed _ _
          (λ e. fails r.failed sound.fine e)
          λ fine.
            ap
              (λ hs.
                Hashed.hashed
                  (record { whole = hash_buffer (concat hs); blob = concat hs; size = size }))
              (ended-piece_hashes ps file size n positive small few working r sound.claims ended
                fine))
      λ e. fails (all_returned r.hashers) e ended
  where
    fails : {P : Type 0} → (b : Bool) → b ≡ false → b ≡ true → P
    fails b e k = cc
