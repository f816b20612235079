-- ===== src/Examples/Hashing.antt =====
-- hash_file on concrete files, and the store that the client seeds from one.
use peer_to_peer_distributed.Base.{
  ℕ, zero, suc, ◌+◌, ◌≡◌, refl, some, List, [], ◌∷◌, ◌⊎◌, arith, All, length, replicate,
}
use peer_to_peer_distributed.Protocol.{piece_size}
use peer_to_peer_distributed.Net.{Answer}
use peer_to_peer_distributed.Sha1.{hash_buffer}
use peer_to_peer_distributed.PieceStore.{Contents, open_for_seed, read_loop, read_bytes}
use peer_to_peer_distributed.PieceStore.Verified.{StoreValid}
use peer_to_peer_distributed.PieceStore.Resume.{hash_at}
use peer_to_peer_distributed.HashFile.{FileHash, Hashed, concat, hash_file, hash_move, run_hashers}
use peer_to_peer_distributed.HashFile.Outcome.{file_hash, hash_file_sequential}
use peer_to_peer_distributed.HashFile.Fairness.{IsServed}
use peer_to_peer_distributed.HashFile.Ending.{Turns, in_turn, IsRound}
use peer_to_peer_distributed.HashFile.Total.{hash_file_ends}
use peer_to_peer_distributed.Client.Hashing.{client_hash}
use peer_to_peer_distributed.Client.Seeding.{open_for_seed-StoreValid}

-- Three bytes, in pieces of two.
abbrev bytes : Contents
bytes i = i + 7

abbrev one_by_one : List Answer
one_by_one = Answer.moved 1 ∷ Answer.moved 1 ∷ []

-- The second thread is faster.
abbrev both_turns : Turns
both_turns = (1, one_by_one) ∷ (0, one_by_one) ∷ []

both_move : IsRound 2 both_turns
both_move zero l = refl
both_move (suc zero) l = refl
both_move (suc (suc w)) l = absurd (omega (arith, l))

all_rounds : (n : ℕ) → All (IsRound 2) (replicate n both_turns)
all_rounds zero = tt
all_rounds (suc n) = (both_move, all_rounds n)

all_served : (n : ℕ) → All (All (IsServed 2)) (replicate n both_turns)
all_served zero = tt
all_served (suc n) =
    let served : IsServed 2 (0, one_by_one) = ((tt, (tt, tt)), omega arith) in
    ((served, (served, tt)), all_served n)

hash_file_ends_example :
    hash_file 2 2 1 (some (bytes, 3)) (in_turn (replicate 10 both_turns))
    ≡ Hashed.hashed (file_hash 2 bytes 3)
hash_file_ends_example =
    hash_file_ends 2 2 1 3 bytes (replicate 10 both_turns) (omega arith) (omega arith) (omega arith)
      (all_rounds 10) (all_served 10) (omega arith)

hash_file_sequential_example :
    (hash_file 2 0 4 (some (bytes, 3)) both_turns ≡ Hashed.running)
    ⊎ (hash_file 2 0 4 (some (bytes, 3)) both_turns ≡ Hashed.unreadable)
    ⊎ (hash_file 2 0 4 (some (bytes, 3)) both_turns ≡ Hashed.hashed (file_hash 2 bytes 3))
hash_file_sequential_example =
    hash_file_sequential 2 0 4 3 bytes both_turns (omega arith) (omega arith) (omega arith)

-- A read that fails gives no hash, although the other thread has read its piece.
unreadable_test :
    hash_file 2 2 1 (some (bytes, 3)) (
      (0, [])
      ∷ (0, [])
      ∷ (1, [])
      ∷ (1, [])
      ∷ (0, one_by_one)
      ∷ (1, Answer.error ∷ [])
      ∷ (0, [])
      ∷ [])
    ≡ Hashed.unreadable
unfolding hash_file run_hashers hash_move read_loop read_bytes
unreadable_test = refl

-- A thread that waits for its read keeps hash_file running.
running_test :
    hash_file 2 1 1 (some (bytes, 3)) ((0, []) ∷ (0, []) ∷ (0, Answer.moved 1 ∷ []) ∷ [])
    ≡ Hashed.running
unfolding hash_file run_hashers hash_move read_loop read_bytes
running_test = refl

-- A file of one piece.
abbrev small_hash : FileHash
small_hash =
    let blob = concat (hash_buffer (7 ∷ 8 ∷ 9 ∷ []) ∷ []) in
    record { whole = hash_buffer blob; blob = blob; size = 3 }

abbrev alone : Turns
alone = (0, []) ∷ (0, []) ∷ (0, Answer.moved 3 ∷ []) ∷ (0, []) ∷ (0, []) ∷ []

small_hashed : hash_file piece_size 0 0 (some (bytes, 3)) alone ≡ Hashed.hashed small_hash
unfolding hash_file run_hashers hash_move read_loop read_bytes
small_hashed = refl

open_for_seed-StoreValid_example :
    StoreValid
      (hash_at (client_hash small_hash).pieces)
      (open_for_seed bytes small_hash.size (length (client_hash small_hash).pieces))
open_for_seed-StoreValid_example =
    open_for_seed-StoreValid 0 0 3 bytes alone small_hash (omega arith) (omega arith) small_hashed
