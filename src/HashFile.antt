-- ===== src/HashFile.antt =====
-- SHA1::hash_file of common/sha1.cpp: threads pull the indices of pieces from a counter, and each puts
-- the hash of its pieces into their slots. A schedule says which thread moves next and what the kernel
-- answers to the reads of its piece; the reading of a piece is one step, since the file stays as it is
-- and each thread has its own buffer. The bytes of the file and its size are arguments.
pub mod Slots
pub mod Claims
pub mod Moves
pub mod Total
pub mod Ending
pub mod Fairness
pub mod Outcome
pub mod Pieces
pub mod Reference
use Prim.Native.Nat.{min, max}
use peer_to_peer_distributed.Base.{
  ℕ, zero, suc, ◌+◌, ◌-◌, ◌*◌, ◌/◌, ◌%◌, ◌^◌, Bool, true, false, Option, none, some, List, [], ◌∷◌,
  ◌++◌, ltb, ◌==◌, replicate, if◌then◌else◌,
}
use peer_to_peer_distributed.Text.{Str}
use peer_to_peer_distributed.Net.{Answer, Progress}
use peer_to_peer_distributed.Sha1.{hash_buffer}
use peer_to_peer_distributed.PieceStore.{Contents, read_loop}

-- A thread before `!failed`, before `next.fetch_add(1)`, with the index that it pulled, and after its
-- loop.
pub data Hasher : Type 0 where
  looking : Hasher
  pulling : Hasher
  reading : ℕ → Hasher
  returned : Hasher

pub record Hashing : Type 0 where
  pub next : ℕ
  pub failed : Bool
  pub hashes : List Str
  pub hashers : List Hasher

abbrev pub hasher_at : List Hasher → ℕ → Hasher
hasher_at [] w = returned
hasher_at (h ∷ hs) zero = h
hasher_at (h ∷ hs) (suc w) = hasher_at hs w

abbrev pub set_hasher : ℕ → Hasher → List Hasher → List Hasher
set_hasher w h [] = []
set_hasher zero h (g ∷ hs) = h ∷ hs
set_hasher (suc w) h (g ∷ hs) = g ∷ set_hasher w h hs

-- `hashes[i] = …`
abbrev pub set_slot : ℕ → Str → List Str → List Str
set_slot i h [] = []
set_slot zero h (g ∷ hs) = h ∷ hs
set_slot (suc i) h (g ∷ hs) = g ∷ set_slot i h hs

abbrev pub all_returned : List Hasher → Bool
all_returned [] = true
all_returned (returned ∷ hs) = all_returned hs
all_returned (_ ∷ hs) = false

-- `(size + piece_size - 1) / piece_size`, cut to 32 bits
abbrev pub pieces_in : ℕ → ℕ → ℕ
pieces_in ps size = (size + ps - 1) / ps % 2 ^ 32

-- `min(piece_size, size - off)`, in 64 bits
abbrev pub part_len : ℕ → ℕ → ℕ → ℕ
part_len ps size i = min ps ((size + 2 ^ 64 - i * ps) % 2 ^ 64)

-- The end of the reads of a piece; one whose answers have run out still waits.
abbrev pub end_reading : ℕ → ℕ → Progress × Str → Hashing → Hashing
end_reading w i (Progress.done, bytes) r = record r {
  hashes = set_slot i (hash_buffer bytes) r.hashes;
  hashers = set_hasher w looking r.hashers;
}
end_reading w i (Progress.waiting, bytes) r = r
end_reading w i (_, bytes) r = record r { failed = true; hashers = set_hasher w returned r.hashers }

module _ (ps : ℕ) (file : Contents) (size : ℕ) where
  unfoldable pub hash_move : ℕ → List Answer → Hasher → Hashing → Hashing
  hash_move w answers looking r = record r {
    hashers = set_hasher w (if r.failed then returned else pulling) r.hashers;
  }
  hash_move w answers pulling r = record r {
    next = (r.next + 1) % 2 ^ 32;
    hashers =
        set_hasher w (if ltb r.next (pieces_in ps size) then reading r.next else returned)
          r.hashers;
  }
  hash_move w answers (reading i) r =
      end_reading w i (read_loop answers (i * ps) (part_len ps size i) file) r
  hash_move w answers returned r = r

  unfoldable pub run_hashers : List (ℕ × List Answer) → Hashing → Hashing
  run_hashers [] r = r
  run_hashers ((w, answers) ∷ schedule) r =
      run_hashers schedule (hash_move w answers (hasher_at r.hashers w) r)

-- `threads ? threads : max(1, hardware_concurrency())`, and no more than there are pieces
abbrev pub thread_count : ℕ → ℕ → ℕ → ℕ
thread_count threads cores pc = min (if threads == 0 then max 1 cores else threads) (max pc 1)

abbrev pub fresh_hashing : ℕ → ℕ → Hashing
fresh_hashing pc n = record {
  next = 0;
  failed = false;
  hashes = replicate pc [];
  hashers = replicate n looking;
}

-- The outputs: the hash of the whole, the hashes of the pieces in one string, and the size.
pub record FileHash : Type 0 where
  pub whole : Str
  pub blob : Str
  pub size : ℕ

-- The empty string, the outputs, or a thread that has not returned.
pub data Hashed : Type 0 where
  unreadable : Hashed
  running : Hashed
  hashed : FileHash → Hashed

abbrev pub concat : List Str → Str
concat [] = []
concat (h ∷ hs) = h ++ concat hs

abbrev pub join_hashes : ℕ → Hashing → Hashed
join_hashes size r =
    if r.failed
    then unreadable
    else hashed
        (record { whole = hash_buffer (concat r.hashes); blob = concat r.hashes; size = size })

-- A file as open and fstat give it: its bytes and its size.
unfoldable pub hash_file : ℕ → ℕ → ℕ → Option (Contents × ℕ) → List (ℕ × List Answer) → Hashed
hash_file ps threads cores none schedule = unreadable
hash_file ps threads cores (some (file, size)) schedule =
    let pc = pieces_in ps size in
    let r = run_hashers ps file size schedule (fresh_hashing pc (thread_count threads cores pc)) in
    if all_returned r.hashers then join_hashes size r else running
