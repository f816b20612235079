-- ===== src/PieceStore/Transfer.antt =====
-- A piece that was written is read back.
use Prim.Native.Nat.{min}
use peer_to_peer_distributed.Base.{
  ℕ, zero, suc, ◌+◌, ◌-◌, ◌*◌, ◌≤◌, ◌<◌, ◌≡◌, refl, sym, ◌∙◌, ap, Bool, true, false, not, ◌||◌,
  List, [], ◌∷◌, ◌++◌, arith, length, All, leb, ◌==◌, ==_iff, if_cases, not-false,
}
use peer_to_peer_distributed.Text.{Str, str_ne, str_ne-eq}
use peer_to_peer_distributed.Protocol.{piece_size}
use peer_to_peer_distributed.Net.{Answer, Progress}
use peer_to_peer_distributed.Sha1.{hash_buffer}
use peer_to_peer_distributed.PieceStore.{
  Contents, PieceStore, bitmap_bytes, marked, mark, piece_len, read_bytes, write_bytes, read_loop,
  write_loop, finish_write, read_piece, write_piece,
}
use peer_to_peer_distributed.PieceStore.Bitmap.{IsBytes, marked-mark}
use peer_to_peer_distributed.PieceStore.Disk.{read_bytes-write_bytes, write_loop-done}

-- An answer that moves a byte at least.
abbrev pub IsMove : Answer → Type 0
IsMove (Answer.moved (suc k)) = Unit {0}
IsMove _ = ⊥

read_bytes-add :
    (pos n m : ℕ) (f : Contents)
    → read_bytes pos n f ++ read_bytes (pos + n) m f ≡ read_bytes pos (n + m) f
unfolding read_bytes
read_bytes-add pos zero m f =
    let e : zero + m ≡ m = omega arith in let p : pos + zero ≡ pos = omega arith in rw (e, p) refl
read_bytes-add pos (suc n) m f =
    let e : suc n + m ≡ suc (n + m) = omega arith in
    let p : pos + suc n ≡ (pos + 1) + n = omega arith in
    rw (e, p) (ap (◌∷◌ (f pos)) (read_bytes-add (pos + 1) n m f))

-- While pread moves something each time, and is called often enough, the loop reads the whole range.
pub read_loop-read_bytes :
    (answers : List Answer) (pos n : ℕ) (f : Contents)
    → All IsMove answers
    → n ≤ length answers
    → read_loop answers pos n f ≡ (Progress.done, read_bytes pos n f)
unfolding read_loop read_bytes
read_loop-read_bytes answers pos zero f a h = refl
read_loop-read_bytes [] pos (suc n) f a h = elim h [ ]
read_loop-read_bytes (Answer.moved zero ∷ answers) pos (suc n) f a h = elim a.0 [ ]
read_loop-read_bytes (Answer.moved (suc k) ∷ answers) pos (suc n) f a h =
    let j = min (suc k) (suc n) in
    let whole : j + (suc n - j) ≡ suc n = omega arith in
    ap {A = Progress × Str} (λ r. (r.0, read_bytes pos j f ++ r.1))
      (read_loop-read_bytes answers (pos + j) (suc n - j) f a.1 (omega arith))
    ∙ ap (λ xs. (Progress.done, xs))
        (read_bytes-add pos j (suc n - j) f ∙ ap (λ m. read_bytes pos m f) whole)
read_loop-read_bytes (Answer.interrupted ∷ answers) pos (suc n) f a h = elim a.0 [ ]
read_loop-read_bytes (Answer.error ∷ answers) pos (suc n) f a h = elim a.0 [ ]

-- When the loop succeeds it has read the whole range.
pub read_loop-done :
    (answers : List Answer) (pos n : ℕ) (f : Contents)
    → (read_loop answers pos n f).0 ≡ Progress.done
    → (read_loop answers pos n f).1 ≡ read_bytes pos n f
unfolding read_loop read_bytes
read_loop-done answers pos zero f h = refl
read_loop-done [] pos (suc n) f h = cc
read_loop-done (Answer.moved zero ∷ answers) pos (suc n) f h = cc
read_loop-done (Answer.moved (suc k) ∷ answers) pos (suc n) f h =
    let j = min (suc k) (suc n) in
    let whole : j + (suc n - j) ≡ suc n = omega arith in
    ap (λ xs. read_bytes pos j f ++ xs) (read_loop-done answers (pos + j) (suc n - j) f h)
    ∙ read_bytes-add pos j (suc n - j) f
    ∙ ap (λ m. read_bytes pos m f) whole
read_loop-done (Answer.interrupted ∷ answers) pos (suc n) f h = cc
read_loop-done (Answer.error ∷ answers) pos (suc n) f h = cc

-- Where write_piece succeeds.
write_done :
    (answers : List Answer) (i : ℕ) (bs hash : Str) (s : PieceStore)
    → (write_piece answers i bs hash s).0 ≡ Progress.done
    → (i < s.piece_count)
      × (length bs ≡ piece_len s i)
      × (s.opened ≡ true)
      × (hash_buffer bs ≡ hash)
      × ((write_piece answers i bs hash s).1 ≡ record s {
        contents = write_bytes (i * piece_size) bs s.contents;
        have = mark s.have i;
      })
unfolding write_piece
write_done answers i bs hash s =
    if_cases Good (leb s.piece_count i) _ _ (λ _ b. cc)
      λ e.
        if_cases Good (not (length bs == piece_len s i)) _ _ (λ _ b. cc)
          λ k.
            if_cases Good (str_ne (hash_buffer bs) hash) _ _ (λ _ b. cc)
              λ w.
                if_cases Good (not s.opened) _ _ (λ _ b. cc)
                  λ o.
                    finished (write_loop answers (i * piece_size) bs s.contents) (ground (arith, e))
                      ((==_iff (length bs) (piece_len s i)).0
                        (not-false (length bs == piece_len s i) k))
                      (not-false s.opened o) (str_ne-eq (hash_buffer bs) hash w)
                      (write_loop-done answers (i * piece_size) bs s.contents)
  where
    Good : Progress × PieceStore → Type 0
    Good r =
        r.0 ≡ Progress.done
        → (i < s.piece_count)
          × (length bs ≡ piece_len s i)
          × (s.opened ≡ true)
          × (hash_buffer bs ≡ hash)
          × (r.1 ≡ record s {
            contents = write_bytes (i * piece_size) bs s.contents;
            have = mark s.have i;
          })

    finished :
        (r : Progress × Contents)
        → i < s.piece_count
        → length bs ≡ piece_len s i
        → s.opened ≡ true
        → hash_buffer bs ≡ hash
        → (r.0 ≡ Progress.done → r.1 ≡ write_bytes (i * piece_size) bs s.contents)
        → Good (finish_write i s r)
    finished (Progress.done, f) a b c d whole ok =
        (a, b, c, d, ap (λ g. record s { contents = g; have = mark s.have i }) (whole refl))
    finished (_, f) a b c d whole ok = cc

-- A piece whose write succeeded is read back by read_piece, while pread moves something each time
-- and is called often enough. The bitmap has the bytes for the count of pieces.
pub read_piece-write_piece :
    (writes reads : List Answer) (i : ℕ) (bs hash : Str) (s : PieceStore)
    → length s.have ≡ bitmap_bytes s.piece_count
    → IsBytes s.have
    → (write_piece writes i bs hash s).0 ≡ Progress.done
    → All IsMove reads
    → length bs ≤ length reads
    → read_piece reads i (write_piece writes i bs hash s).1 ≡ (Progress.done, bs)
unfolding read_piece piece_len
read_piece-write_piece writes reads i bs hash s fits bytes ok moves enough =
    let (below, len, opened, right, result) = write_done writes i bs hash s ok in
    let file = write_bytes (i * piece_size) bs s.contents in
    let law = marked-mark s.have i i (ground (arith, fits, below)) bytes in
    let self : marked (mark s.have i) i ≡ true = law ∙ ap (λ b. b || marked s.have i) (==-self i) in
    ap (read_piece reads i) result
    ∙ if_cases Right (not s.opened) _ _ (λ e. not_both s.opened opened e)
        λ _.
          if_cases Right (leb s.piece_count i) _ _ (λ e. absurd (ground (arith, e, below)))
            λ _.
              if_cases Right (not (marked (mark s.have i) i)) _ _
                (λ e. not_both (marked (mark s.have i) i) self e)
                λ _.
                  read_loop-read_bytes reads (i * piece_size) (piece_len s i) file moves
                    (omega (arith, len, enough))
                  ∙ ap (λ xs. (Progress.done, xs))
                      (rw (sym len) (read_bytes-write_bytes (i * piece_size) bs s.contents))
  where
    Right : Progress × Str → Type 0
    Right r = r ≡ (Progress.done, bs)

    not_both : (b : Bool) → b ≡ true → not b ≡ true → Right (Progress.broken, [])
    not_both true h k = cc
    not_both false h k = cc

    ==-self : (i : ℕ) → (i == i) ≡ true
    ==-self i = ground arith
