-- ===== src/PieceStore.antt =====
-- client/piece_store.hpp and client/piece_store.cpp: one file's pieces on the disk, and the bitmap of
-- those that are there. A file is a function from offsets to bytes. What the kernel answers to each
-- pread or pwrite is an argument; opening a file is a call of the system, and its success is given.
pub mod Bitmap
pub mod Disk
pub mod Verified
pub mod Transfer
pub mod Resume
use Prim.Native.Nat.{bit_and, bit_or, min}
use peer_to_peer_distributed.Base.{
  ℕ, zero, suc, ◌+◌, ◌-◌, ◌*◌, ◌/◌, ◌%◌, ◌^◌, Bool, true, false, not, List, [], ◌∷◌, ◌++◌, ltb, leb,
  ◌==◌, if◌then◌else◌, length, take, drop, replicate,
}
use peer_to_peer_distributed.Text.{Str, str_ne}
use peer_to_peer_distributed.Protocol.{piece_size}
use peer_to_peer_distributed.Net.{Answer, Progress}
use peer_to_peer_distributed.Sha1.{hash_buffer}

abbrev pub Contents : Type 0
Contents = ℕ → ℕ

-- `opened` is `fd_ >= 0`.
pub record PieceStore : Type 0 where
  pub opened : Bool
  pub contents : Contents
  pub size : ℕ
  pub piece_count : ℕ
  pub have : Str

abbrev pub bitmap_bytes : ℕ → ℕ
bitmap_bytes n = (n + 7) / 8

-- open_for_download, on a file that the kernel opened and cut to its size
abbrev pub open_for_download : Contents → ℕ → ℕ → PieceStore
open_for_download file size pc = record {
  opened = true;
  contents = file;
  size = size;
  piece_count = pc;
  have = replicate (bitmap_bytes pc) 0;
}

-- open_for_seed, on a file that the kernel opened
abbrev pub open_for_seed : Contents → ℕ → ℕ → PieceStore
open_for_seed file size pc = record {
  opened = true;
  contents = file;
  size = size;
  piece_count = pc;
  have = replicate (bitmap_bytes pc) 0xFF;
}

abbrev pub mask : ℕ → ℕ
mask index = 0x80 / 2 ^ (index % 8)

abbrev pub byte_of : Str → ℕ → ℕ
byte_of [] i = 0
byte_of (b ∷ bs) zero = b
byte_of (b ∷ bs) (suc i) = byte_of bs i

abbrev pub change_byte : (ℕ → ℕ) → Str → ℕ → Str
change_byte f [] i = []
change_byte f (b ∷ bs) zero = f b ∷ bs
change_byte f (b ∷ bs) (suc i) = b ∷ change_byte f bs i

-- `have_[index / 8] & (0x80u >> (index % 8))`
unfoldable pub marked : Str → ℕ → Bool
marked bits index = not (bit_and (byte_of bits (index / 8)) (mask index) == 0)

-- `have_[index / 8] |= (0x80u >> (index % 8))`
unfoldable pub mark : Str → ℕ → Str
mark bits index = change_byte (λ b. bit_or b (mask index)) bits (index / 8)

-- piece_len, in 64 bits and cut to 32 at the end
unfoldable pub piece_len : PieceStore → ℕ → ℕ
piece_len s index =
    if ltb (index + 1) s.piece_count
    then piece_size
    else (s.size + 2 ^ 64 - index * piece_size) % 2 ^ 64 % 2 ^ 32

-- Bytes written to a file, and read from it.
unfoldable pub write_bytes : ℕ → Str → Contents → Contents
write_bytes pos [] f = f
write_bytes pos (b ∷ bs) f = write_bytes (pos + 1) bs (λ i. if i == pos then b else f i)

unfoldable pub read_bytes : ℕ → ℕ → Contents → Str
read_bytes pos zero f = []
read_bytes pos (suc n) f = f pos ∷ read_bytes (pos + 1) n f

-- `while (put < data.size()) { k = pwrite(…); if (k <= 0) return false; put += k; }`
unfoldable pub write_loop : List Answer → ℕ → Str → Contents → Progress × Contents
unfolding write_bytes
write_loop answers pos [] f = (Progress.done, f)
write_loop [] pos (x ∷ p) f = (Progress.waiting, f)
write_loop (Answer.moved zero ∷ answers) pos (x ∷ p) f = (Progress.broken, f)
write_loop (Answer.moved (suc k) ∷ answers) pos (x ∷ p) f =
    let part = x ∷ take k p in
    write_loop answers (pos + length part) (drop k p) (write_bytes pos part f)
write_loop (_ ∷ answers) pos (x ∷ p) f = (Progress.broken, f)

-- `while (got < n) { k = pread(…); if (k <= 0) return false; got += k; }`
unfoldable pub read_loop : List Answer → ℕ → ℕ → Contents → Progress × Str
unfolding read_bytes
read_loop answers pos zero f = (Progress.done, [])
read_loop [] pos (suc n) f = (Progress.waiting, [])
read_loop (Answer.moved zero ∷ answers) pos (suc n) f = (Progress.broken, [])
read_loop (Answer.moved (suc k) ∷ answers) pos (suc n) f =
    let j = min (suc k) (suc n) in
    let (r, rest) = read_loop answers (pos + j) (suc n - j) f in (r, read_bytes pos j f ++ rest)
read_loop (_ ∷ answers) pos (suc n) f = (Progress.broken, [])

-- read_piece: the answer `true` is `done`.
unfoldable pub read_piece : List Answer → ℕ → PieceStore → Progress × Str
unfolding marked piece_len read_loop
read_piece answers index s =
    if not s.opened
    then (Progress.broken, [])
    else if leb s.piece_count index
    then (Progress.broken, [])
    else if not (marked s.have index)
    then (Progress.broken, [])
    else read_loop answers (index * piece_size) (piece_len s index) s.contents

-- The end of write_piece: the piece is marked once all of it is written.
abbrev pub finish_write : ℕ → PieceStore → Progress × Contents → Progress × PieceStore
finish_write index s (Progress.done, f) =
    (Progress.done, record s { contents = f; have = mark s.have index })
finish_write index s (r, f) = (r, record s { contents = f })

-- write_piece: the answer `true` is `done`.
unfoldable pub write_piece : List Answer → ℕ → Str → Str → PieceStore → Progress × PieceStore
unfolding mark piece_len write_loop
write_piece answers index bytes expected_hash s =
    if leb s.piece_count index
    then (Progress.broken, s)
    else if not (length bytes == piece_len s index)
    then (Progress.broken, s)
    else if str_ne (hash_buffer bytes) expected_hash
    then (Progress.broken, s)
    else if not s.opened
    then (Progress.broken, s)
    else finish_write index s (write_loop answers (index * piece_size) bytes s.contents)

-- have
unfoldable pub has_piece : PieceStore → ℕ → Bool
unfolding marked
has_piece s index = if leb s.piece_count index then false else marked s.have index

-- have_count: the marked ones of the first `n` pieces.
unfoldable pub count_marked : ℕ → Str → ℕ
unfolding marked
count_marked zero bits = 0
count_marked (suc n) bits = let c = count_marked n bits in if marked bits n then c + 1 else c

unfoldable pub complete : PieceStore → Bool
unfolding count_marked
complete s = count_marked s.piece_count s.have == s.piece_count
