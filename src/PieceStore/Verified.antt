-- ===== src/PieceStore/Verified.antt =====
-- Every piece that the bitmap marks has the hash that the tracker gave for it.
use peer_to_peer_distributed.Base.{
  ℕ, zero, suc, ◌+◌, ◌*◌, ◌^◌, ◌<◌, ◌≤◌, ◌≡◌, ◌≢◌, refl, sym, ◌∙◌, ap, subst, inl, inr, ◌⊎◌, true,
  false, not, ◌||◌, List, arith, length, length-replicate, ltb, leb, ◌==◌, ==_iff, Bool-cases,
  if_cases, not-false,
}
use peer_to_peer_distributed.Text.{Str, str_ne, str_ne-eq}
use peer_to_peer_distributed.Protocol.{piece_size}
use peer_to_peer_distributed.Net.{Answer, Progress}
use peer_to_peer_distributed.Sha1.{hash_buffer}
use peer_to_peer_distributed.PieceStore.{
  Contents, PieceStore, bitmap_bytes, open_for_download, marked, mark, piece_len, read_bytes,
  write_bytes, write_loop, finish_write, write_piece, count_marked, complete,
}
use peer_to_peer_distributed.PieceStore.Bitmap.{
  IsBytes, length-mark, marked-mark, mark-IsBytes, marked-replicate, replicate-IsBytes,
}
use peer_to_peer_distributed.PieceStore.Disk.{
  read_bytes_same, read_bytes-write_bytes, write_bytes_outside, write_loop-done, write_loop_outside,
}

abbrev pub piece : PieceStore → ℕ → Str
piece s i = read_bytes (i * piece_size) (piece_len s i) s.contents

-- The count of pieces is that of the size, the bitmap has a bit for each, and the marked pieces have
-- the hashes that were given.
pub record StoreValid (hashes : ℕ → Str) (s : PieceStore) : Type 0 where
  pub size : s.size < 2 ^ 64
  pub count : s.piece_count < 2 ^ 32
  pub covered : s.size ≤ s.piece_count * piece_size
  pub tight : s.piece_count * piece_size < s.size + piece_size
  pub bitmap : length s.have ≡ bitmap_bytes s.piece_count
  pub bytes : IsBytes s.have
  pub verified :
      (i : ℕ) → i < s.piece_count → marked s.have i ≡ true → hash_buffer (piece s i) ≡ hashes i

ne_of : (i j : ℕ) → (i == j) ≡ false → i ≢ j
ne_of i j h e = ground (arith, h, e)

module _ (hashes : ℕ → Str) (s : PieceStore) (v : StoreValid hashes s) where
  pub piece_len-le : (i : ℕ) → i < s.piece_count → piece_len s i ≤ piece_size
  unfolding piece_len
  piece_len-le i h = elim (Bool-cases (ltb (i + 1) s.piece_count)) [
    | inl e ↦ rw e (omega arith)
    | inr e ↦ rw e (omega (arith, v.size, v.covered, v.tight, v.count, last e))
  ]
    where
      last : ltb (i + 1) s.piece_count ≡ false → i + 1 ≡ s.piece_count
      last e = ground arith

  module _ (i : ℕ) (bs : Str) (h : i < s.piece_count) (fits : length bs ≡ piece_len s i) where
    -- What is written outside another piece leaves it as it was.
    piece_other :
        (f : Contents) (j : ℕ)
        → ((k : ℕ) → (k < i * piece_size) ⊎ (i * piece_size + length bs ≤ k) → f k ≡ s.contents k)
        → j < s.piece_count
        → i ≢ j
        → read_bytes (j * piece_size) (piece_len s j) f ≡ piece s j
    piece_other f j outside l d =
        read_bytes_same (j * piece_size) (piece_len s j) f s.contents
          (λ k a b. outside k (apart k a b))
      where
        apart :
            (k : ℕ)
            → j * piece_size ≤ k
            → k < j * piece_size + piece_len s j
            → (k < i * piece_size) ⊎ (i * piece_size + length bs ≤ k)
        apart k a b = ground (arith, piece_len-le i h, piece_len-le j l, d, fits)

    -- A write to a piece that is not marked, whether or not it came to its end.
    unfinished-StoreValid :
        (f : Contents)
        → ((k : ℕ) → (k < i * piece_size) ⊎ (i * piece_size + length bs ≤ k) → f k ≡ s.contents k)
        → marked s.have i ≡ false
        → StoreValid hashes (record s { contents = f })
    unfolding piece_len
    unfinished-StoreValid f outside new = record {
      size = v.size;
      count = v.count;
      covered = v.covered;
      tight = v.tight;
      bitmap = v.bitmap;
      bytes = v.bytes;
      verified = λ j l m.
          ap hash_buffer (piece_other f j outside l (λ e. cc (e, m, new))) ∙ v.verified j l m;
    }

    new_piece :
        hash_buffer bs ≡ hashes i
        → hash_buffer (
            read_bytes
              (i * piece_size)
              (piece_len s i)
              (write_bytes (i * piece_size) bs s.contents))
          ≡ hashes i
    new_piece right =
        ap hash_buffer (rw (sym fits) (read_bytes-write_bytes (i * piece_size) bs s.contents))
        ∙ right

    old_mark : (j : ℕ) → (i == j) ≡ false → marked (mark s.have i) j ≡ true → marked s.have j ≡ true
    old_mark j e m =
        let law = marked-mark s.have i j (ground (arith, v.bitmap, h)) v.bytes in
        sym (ap (λ b. b || marked s.have j) e) ∙ sym law ∙ m

    -- A write that came to its end, of bytes with the right hash.
    finished-StoreValid :
        hash_buffer bs ≡ hashes i
        → StoreValid hashes (record s {
          contents = write_bytes (i * piece_size) bs s.contents;
          have = mark s.have i;
        })
    unfolding piece_len
    finished-StoreValid right = record {
      size = v.size;
      count = v.count;
      covered = v.covered;
      tight = v.tight;
      bitmap = length-mark s.have i ∙ v.bitmap;
      bytes = mark-IsBytes s.have i v.bytes;
      verified = λ j l m. elim (Bool-cases (i == j)) [
        | inl e ↦
            subst
              (λ j.
                hash_buffer (
                  read_bytes (j * piece_size) (piece_len s j)
                    (write_bytes (i * piece_size) bs s.contents))
                ≡ hashes j)
              ((==_iff i j).0 e) (new_piece right)
        | inr e ↦
            ap hash_buffer (
              piece_other (write_bytes (i * piece_size) bs s.contents) j
                (write_bytes_outside (i * piece_size) bs s.contents) l (ne_of i j e))
            ∙ v.verified j l (old_mark j e m)
      ];
    }

    finish_write-StoreValid :
        (r : Progress × Contents)
        → hash_buffer bs ≡ hashes i
        → marked s.have i ≡ false
        → ((k : ℕ) → (k < i * piece_size) ⊎ (i * piece_size + length bs ≤ k) → r.1 k ≡ s.contents k)
        → (r.0 ≡ Progress.done → r.1 ≡ write_bytes (i * piece_size) bs s.contents)
        → StoreValid hashes (finish_write i s r).1
    finish_write-StoreValid (Progress.done, f) right new outside whole =
        subst (λ g. StoreValid hashes (record s { contents = g; have = mark s.have i }))
          (sym (whole refl)) (finished-StoreValid right)
    finish_write-StoreValid (_, f) right new outside whole = unfinished-StoreValid f outside new

  -- In a valid store, writing to a piece that is not marked, against its own hash, keeps the
  -- store valid, whatever the bytes and the kernel's answers: wrong bytes are refused, and a
  -- write that breaks off leaves the piece unmarked.
  pub write_piece-StoreValid :
      (answers : List Answer) (i : ℕ) (bs : Str)
      → marked s.have i ≡ false
      → StoreValid hashes (write_piece answers i bs (hashes i) s).1
  unfolding write_piece
  write_piece-StoreValid answers i bs new =
      if_cases Good (leb s.piece_count i) _ _ (λ _. v)
        λ e.
          if_cases Good (not (length bs == piece_len s i)) _ _ (λ _. v)
            λ k.
              if_cases Good (str_ne (hash_buffer bs) (hashes i)) _ _ (λ _. v)
                λ w.
                  if_cases Good (not s.opened) _ _ (λ _. v)
                    λ _.
                      finish_write-StoreValid i bs (ground (arith, e))
                        ((==_iff (length bs) (piece_len s i)).0
                          (not-false (length bs == piece_len s i) k))
                        (write_loop answers (i * piece_size) bs s.contents)
                        (str_ne-eq (hash_buffer bs) (hashes i) w) new
                        (write_loop_outside answers (i * piece_size) bs s.contents)
                        (write_loop-done answers (i * piece_size) bs s.contents)
    where
      Good : Progress × PieceStore → Type 0
      Good r = StoreValid hashes r.1

count_marked-le : (n : ℕ) (bits : Str) → count_marked n bits ≤ n
unfolding count_marked
count_marked-le zero bits = omega arith
count_marked-le (suc n) bits = ground (arith, count_marked-le n bits)

all_marked : (n : ℕ) (bits : Str) (i : ℕ) → count_marked n bits ≡ n → i < n → marked bits i ≡ true
unfolding count_marked
all_marked zero bits i e h = elim h [ ]
all_marked (suc n) bits i e h = elim (Bool-cases (marked bits n)) [
  | inr k ↦ absurd (omega (arith, rw k at e, count_marked-le n bits))
  | inl k ↦ elim (Bool-cases (i == n)) [
    | inl q ↦ subst (λ j. marked bits j ≡ true) (sym ((==_iff i n).0 q)) k
    | inr q ↦ all_marked n bits i (omega (arith, rw k at e)) (ground (arith, q, h))
  ]
]

-- In a valid store that is complete, every piece has the hash that was given for it.
pub complete-StoreValid :
    (hashes : ℕ → Str) (s : PieceStore)
    → StoreValid hashes s
    → complete s ≡ true
    → (i : ℕ) → i < s.piece_count
    → hash_buffer (piece s i) ≡ hashes i
unfolding complete
complete-StoreValid hashes s v whole i h = v.verified i h (
    all_marked s.piece_count s.have i
      ((==_iff (count_marked s.piece_count s.have) s.piece_count).0 whole) h)

-- A file that was just opened for a download has no piece marked, so its store is valid, if the size
-- fits 64 bits and the count of pieces is that of the size and fits 32 bits.
pub open_for_download-StoreValid :
    (hashes : ℕ → Str) (f : Contents) (size pc : ℕ)
    → size < 2 ^ 64
    → pc < 2 ^ 32
    → size ≤ pc * piece_size
    → pc * piece_size < size + piece_size
    → StoreValid hashes (open_for_download f size pc)
open_for_download-StoreValid hashes f size pc a b c d = record {
  size = a;
  count = b;
  covered = c;
  tight = d;
  bitmap = length-replicate (bitmap_bytes pc) 0;
  bytes = replicate-IsBytes (bitmap_bytes pc);
  verified = λ i l m. cc (m, marked-replicate (bitmap_bytes pc) i);
}
