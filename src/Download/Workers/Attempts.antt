-- ===== src/Download/Workers/Attempts.antt =====
-- What one attempt at a piece does to the store, by its result.
use peer_to_peer_distributed.Base.{
  ℕ, ◌*◌, ◌≡◌, refl, false, not, none, some, Option, List, length, leb, ◌==◌, if_cases,
}
use peer_to_peer_distributed.Text.{Str, str_ne}
use peer_to_peer_distributed.Net.{Answer, Progress}
use peer_to_peer_distributed.Protocol.{piece_size}
use peer_to_peer_distributed.Sha1.{hash_buffer}
use peer_to_peer_distributed.PieceStore.{
  Contents, PieceStore, marked, mark, piece_len, finish_write, write_loop, write_piece,
}
use peer_to_peer_distributed.PieceStore.Verified.{StoreValid, write_piece-StoreValid}
use peer_to_peer_distributed.Download.Workers.{Attempt, write_fetched, attempt_piece}

-- What an attempt does to the bitmap.
abbrev pub Kept : ℕ → PieceStore → Progress × PieceStore → Type 0
Kept i s (Progress.done, t) = (t.have ≡ mark s.have i) × (t.piece_count ≡ s.piece_count)
Kept i s (_, t) = (t.have ≡ s.have) × (t.piece_count ≡ s.piece_count)

finish_write-Kept :
    (i : ℕ) (s : PieceStore) (r : Progress × Contents) → Kept i s (finish_write i s r)
finish_write-Kept i s (Progress.done, f) = (refl, refl)
finish_write-Kept i s (Progress.closed, f) = (refl, refl)
finish_write-Kept i s (Progress.broken, f) = (refl, refl)
finish_write-Kept i s (Progress.waiting, f) = (refl, refl)

write_piece-Kept :
    (answers : List Answer) (i : ℕ) (bs hash : Str) (s : PieceStore)
    → Kept i s (write_piece answers i bs hash s)
unfolding write_piece
write_piece-Kept answers i bs hash s =
    if_cases (Kept i s) (leb s.piece_count i) _ _ (λ _. (refl, refl))
      λ _.
        if_cases (Kept i s) (not (length bs == piece_len s i)) _ _ (λ _. (refl, refl))
          λ _.
            if_cases (Kept i s) (str_ne (hash_buffer bs) hash) _ _ (λ _. (refl, refl))
              λ _.
                if_cases (Kept i s) (not s.opened) _ _ (λ _. (refl, refl))
                  λ _. finish_write-Kept i s (write_loop answers (i * piece_size) bs s.contents)

pub attempt_piece-Kept :
    (hashes : ℕ → Str) (i : ℕ) (a : Attempt) (s : PieceStore)
    → Kept i s (attempt_piece hashes i a s)
unfolding attempt_piece
attempt_piece-Kept hashes i a s = by_fetch a.fetched
  where
    by_fetch : (o : Option Str) → Kept i s (write_fetched (hashes i) a.writes i s o)
    by_fetch none = (refl, refl)
    by_fetch (some bytes) = write_piece-Kept a.writes i bytes (hashes i) s

module _ (hashes : ℕ → Str) where
  -- An attempt at a piece that is not marked keeps the store valid.
  pub attempt_piece-StoreValid :
      (i : ℕ) (a : Attempt) (s : PieceStore)
      → StoreValid hashes s
      → marked s.have i ≡ false
      → StoreValid hashes (attempt_piece hashes i a s).1
  unfolding attempt_piece
  attempt_piece-StoreValid i a s v new = by_fetch a.fetched
    where
      by_fetch : (o : Option Str) → StoreValid hashes (write_fetched (hashes i) a.writes i s o).1
      by_fetch none = v
      by_fetch (some bytes) = write_piece-StoreValid hashes s v a.writes i bytes new
