-- ===== src/PieceStore/Resume.antt =====
-- PieceStore::resume_scan: the pieces that are already on the disk. Its threads pull indices from a
-- counter and each sets the flags of its own ones, so the flags are one for each index; the bitmap is
-- updated after they have ended. Whether the kernel finds written bytes at a piece (SEEK_DATA) and
-- what it answers to the reads of each piece are arguments.
use peer_to_peer_distributed.Base.{
  ℕ, zero, suc, ◌*◌, ◌≤◌, ◌≡◌, refl, sym, ◌∙◌, ap, subst, inl, inr, ◌⊎◌, Bool, true, false, not,
  ◌&&◌, ◌||◌, List, [], ◌∷◌, arith, length, ◌==◌, ==_iff, Bool-cases, if_cases, if◌then◌else◌,
}
use Prim.Native.Nat.{min}
use peer_to_peer_distributed.Text.{Str, str_ne, str_ne-eq}
use peer_to_peer_distributed.Protocol.{piece_size}
use peer_to_peer_distributed.Net.{Answer, Progress}
use peer_to_peer_distributed.Sha1.{hash_buffer}
use peer_to_peer_distributed.PieceStore.{
  PieceStore, marked, mark, piece_len, read_loop, bitmap_bytes,
}
use peer_to_peer_distributed.PieceStore.Bitmap.{IsBytes, marked-mark, mark-IsBytes, length-mark}
use peer_to_peer_distributed.PieceStore.Verified.{StoreValid, piece}
use peer_to_peer_distributed.PieceStore.Transfer.{read_loop-done}

abbrev pub hash_at : List Str → ℕ → Str
hash_at [] i = []
hash_at (h ∷ hs) zero = h
hash_at (h ∷ hs) (suc i) = hash_at hs i

-- What the file system holds: which pieces have written bytes, and the answers to the reads of each.
pub record Disk : Type 0 where
  pub written : ℕ → Bool
  pub reads : ℕ → List Answer

-- `got == len && hash_buffer(buf) == piece_hashes[i]`
abbrev pub has_hash : Str → Progress × Str → Bool
has_hash hash (Progress.done, bytes) = not (str_ne (hash_buffer bytes) hash)
has_hash hash (_, bytes) = false

-- `valid[i]`, by the worker that pulled `i`
unfoldable pub is_valid : Disk → List Str → PieceStore → ℕ → Bool
is_valid disk hashes s i =
    disk.written i
    && has_hash (hash_at hashes i)
        (read_loop (disk.reads i) (i * piece_size) (piece_len s i) s.contents)

-- `for (i < n) if (valid[i]) have_[i / 8] |= …`
unfoldable pub mark_valid : (ℕ → Bool) → ℕ → Str → Str
mark_valid valid zero bits = bits
mark_valid valid (suc n) bits =
    let before = mark_valid valid n bits in if valid n then mark before n else before

unfoldable pub resume_scan : Disk → List Str → PieceStore → PieceStore
resume_scan disk hashes s = if not s.opened then s else record s {
  have = mark_valid (is_valid disk hashes s) (min s.piece_count (length hashes)) s.have;
}

of_not : (b : Bool) → not b ≡ true → b ≡ false
of_not true h = cc
of_not false h = refl

has_hash-eq :
    (hash : Str) (r : Progress × Str)
    → has_hash hash r ≡ true
    → (r.0 ≡ Progress.done) × (hash_buffer r.1 ≡ hash)
has_hash-eq hash (Progress.done, bytes) h =
    (refl, str_ne-eq (hash_buffer bytes) hash (of_not (str_ne (hash_buffer bytes) hash) h))
has_hash-eq hash (Progress.closed, bytes) h = cc
has_hash-eq hash (Progress.broken, bytes) h = cc
has_hash-eq hash (Progress.waiting, bytes) h = cc

and_right : (a b : Bool) → (a && b) ≡ true → b ≡ true
and_right true b h = h
and_right false b h = cc

-- A piece that the scan finds valid has its hash.
is_valid_hash :
    (disk : Disk) (hashes : List Str) (s : PieceStore) (i : ℕ)
    → is_valid disk hashes s i ≡ true
    → hash_buffer (piece s i) ≡ hash_at hashes i
unfolding is_valid
is_valid_hash disk hashes s i h =
    let (whole, right) =
      has_hash-eq (hash_at hashes i)
        (read_loop (disk.reads i) (i * piece_size) (piece_len s i) s.contents)
        (and_right (disk.written i) _ h) in
    ap hash_buffer
      (sym (read_loop-done (disk.reads i) (i * piece_size) (piece_len s i) s.contents whole))
    ∙ right

mark_valid-length :
    (valid : ℕ → Bool) (n : ℕ) (bits : Str) → length (mark_valid valid n bits) ≡ length bits
unfolding mark_valid
mark_valid-length valid zero bits = refl
mark_valid-length valid (suc n) bits =
    if_cases {A = Str} (λ b. length b ≡ length bits) (valid n) _ _
      (λ _. length-mark (mark_valid valid n bits) n ∙ mark_valid-length valid n bits)
      (λ _. mark_valid-length valid n bits)

mark_valid-IsBytes :
    (valid : ℕ → Bool) (n : ℕ) (bits : Str) → IsBytes bits → IsBytes (mark_valid valid n bits)
unfolding mark_valid
mark_valid-IsBytes valid zero bits h = h
mark_valid-IsBytes valid (suc n) bits h =
    if_cases IsBytes (valid n) _ _
      (λ _. mark-IsBytes (mark_valid valid n bits) n (mark_valid-IsBytes valid n bits h))
      (λ _. mark_valid-IsBytes valid n bits h)

-- A piece is marked after the loop only if it was marked before or found valid.
mark_valid-marked :
    (valid : ℕ → Bool) (n : ℕ) (bits : Str) (i : ℕ)
    → bitmap_bytes n ≤ length bits
    → IsBytes bits
    → marked (mark_valid valid n bits) i ≡ true
    → (marked bits i ≡ true) ⊎ (valid i ≡ true)
unfolding mark_valid
mark_valid-marked valid zero bits i l h = λ m. inl m
mark_valid-marked valid (suc n) bits i l h =
    let before = mark_valid-marked valid n bits i (omega (arith, l)) h in
    if_cases {A = Str} (λ b. marked b i ≡ true → (marked bits i ≡ true) ⊎ (valid i ≡ true))
      (valid n) _ _
      (λ e m.
        let law =
          marked-mark (mark_valid valid n bits) n i
            (omega (arith, mark_valid-length valid n bits, l))
            (mark_valid-IsBytes valid n bits h) in
        elim (Bool-cases (n == i)) [
          | inl q ↦ inr (subst (λ j. valid j ≡ true) ((==_iff n i).0 q) e)
          | inr q ↦ before (sym (ap (λ b. b || marked (mark_valid valid n bits) i) q) ∙ sym law ∙ m)
        ])
      (λ _. before)

-- The scan of a valid store finds marks that are right, whatever the file holds and however the reads
-- go: the store stays valid. A piece that is not read whole, or has another hash, stays unmarked.
pub resume_scan-StoreValid :
    (disk : Disk) (hashes : List Str) (s : PieceStore)
    → StoreValid (hash_at hashes) s
    → StoreValid (hash_at hashes) (resume_scan disk hashes s)
unfolding resume_scan piece_len
resume_scan-StoreValid disk hashes s v =
    let n = min s.piece_count (length hashes) in
    let valid = is_valid disk hashes s in
    if_cases (StoreValid (hash_at hashes)) (not s.opened) _ _ (λ _. v)
      λ _. record {
        size = v.size;
        count = v.count;
        covered = v.covered;
        tight = v.tight;
        bitmap = mark_valid-length valid n s.have ∙ v.bitmap;
        bytes = mark_valid-IsBytes valid n s.have v.bytes;
        verified = λ i l m.
            elim (mark_valid-marked valid n s.have i (omega (arith, v.bitmap)) v.bytes m) [
              | inl k ↦ v.verified i l k
              | inr k ↦ is_valid_hash disk hashes s i k
            ];
      }
