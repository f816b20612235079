-- ===== src/PieceStore/Disk.antt =====
-- Bytes that are written to a file and read from it.
use peer_to_peer_distributed.Base.{
  ℕ, zero, suc, ◌+◌, ◌≤◌, ◌<◌, ◌≡◌, refl, sym, ◌∙◌, ap, inl, ◌⊎◌, List, [], ◌∷◌, ◌++◌, arith,
  length, take, drop, ◌==◌, if◌then◌else◌, length-append, take-append-drop,
}
use peer_to_peer_distributed.Text.{Str}
use peer_to_peer_distributed.Net.{Answer, Progress}
use peer_to_peer_distributed.PieceStore.{Contents, write_bytes, read_bytes, write_loop}

-- A write leaves the bytes outside its range as they were.
pub write_bytes_outside :
    (pos : ℕ) (bs : Str) (f : Contents) (i : ℕ)
    → (i < pos) ⊎ (pos + length bs ≤ i)
    → write_bytes pos bs f i ≡ f i
unfolding write_bytes
write_bytes_outside pos [] f i h = refl
write_bytes_outside pos (b ∷ bs) f i h =
    write_bytes_outside (pos + 1) bs (λ i. if i == pos then b else f i) i (ground arith)
    ∙ ground arith

pub read_bytes_same :
    (pos n : ℕ) (f g : Contents)
    → ((i : ℕ) → pos ≤ i → i < pos + n → f i ≡ g i)
    → read_bytes pos n f ≡ read_bytes pos n g
unfolding read_bytes
read_bytes_same pos zero f g h = refl
read_bytes_same pos (suc n) f g h =
    rw (h pos (omega arith) (omega arith)) (
      ap (◌∷◌ (g pos)) (read_bytes_same (pos + 1) n f g (λ i a b. h i (omega arith) (omega arith))))

-- What was written is read back.
pub read_bytes-write_bytes :
    (pos : ℕ) (bs : Str) (f : Contents) → read_bytes pos (length bs) (write_bytes pos bs f) ≡ bs
unfolding read_bytes write_bytes
read_bytes-write_bytes pos [] f = refl
read_bytes-write_bytes pos (b ∷ bs) f =
    rw
      (
        read_bytes-write_bytes (pos + 1) bs (λ i. if i == pos then b else f i),
        write_bytes_outside (pos + 1) bs (λ i. if i == pos then b else f i) pos (inl (omega arith)),
      )
      (ground arith)

write_bytes-append :
    (pos : ℕ) (xs ys : Str) (f : Contents)
    → write_bytes pos (xs ++ ys) f ≡ write_bytes (pos + length xs) ys (write_bytes pos xs f)
unfolding write_bytes
write_bytes-append pos [] ys f = ap (λ p. write_bytes p ys f) (omega arith)
write_bytes-append pos (x ∷ xs) ys f =
    write_bytes-append (pos + 1) xs ys (λ i. if i == pos then x else f i)
    ∙ ap (λ p. write_bytes p ys (write_bytes (pos + 1) xs (λ i. if i == pos then x else f i)))
        (omega arith)

-- When the loop succeeds all of the data is in the file.
pub write_loop-done :
    (answers : List Answer) (pos : ℕ) (bs : Str) (f : Contents)
    → (write_loop answers pos bs f).0 ≡ Progress.done
    → (write_loop answers pos bs f).1 ≡ write_bytes pos bs f
unfolding write_loop write_bytes
write_loop-done answers pos [] f h = refl
write_loop-done [] pos (x ∷ p) f h = cc
write_loop-done (Answer.moved zero ∷ answers) pos (x ∷ p) f h = cc
write_loop-done (Answer.moved (suc k) ∷ answers) pos (x ∷ p) f h =
    let part = x ∷ take k p in
    write_loop-done answers (pos + length part) (drop k p) (write_bytes pos part f) h
    ∙ sym (write_bytes-append pos part (drop k p) f)
    ∙ ap (λ q. write_bytes pos (x ∷ q) f) (take-append-drop k p)
write_loop-done (Answer.interrupted ∷ answers) pos (x ∷ p) f h = cc
write_loop-done (Answer.error ∷ answers) pos (x ∷ p) f h = cc

-- Whatever the result, the loop leaves the bytes outside the range of the data as they were.
pub write_loop_outside :
    (answers : List Answer) (pos : ℕ) (bs : Str) (f : Contents) (i : ℕ)
    → (i < pos) ⊎ (pos + length bs ≤ i)
    → (write_loop answers pos bs f).1 i ≡ f i
unfolding write_loop
write_loop_outside answers pos [] f i h = refl
write_loop_outside [] pos (x ∷ p) f i h = refl
write_loop_outside (Answer.moved zero ∷ answers) pos (x ∷ p) f i h = refl
write_loop_outside (Answer.moved (suc k) ∷ answers) pos (x ∷ p) f i h =
    let part = x ∷ take k p in
    let whole : length part + length (drop k p) ≡ suc (length p) =
      sym (length-append part (drop k p)) ∙ ap (λ q. suc (length q)) (take-append-drop k p) in
    write_loop_outside answers (pos + length part) (drop k p) (write_bytes pos part f) i
      (ground (arith, whole))
    ∙ write_bytes_outside pos part f i (ground (arith, whole))
write_loop_outside (Answer.interrupted ∷ answers) pos (x ∷ p) f i h = refl
write_loop_outside (Answer.error ∷ answers) pos (x ∷ p) f i h = refl
