-- ===== src/HashFile/Reference.antt =====
-- The claims on the pieces along a schedule of the threads of hash_file.
use peer_to_peer_distributed.Base.{
  ℕ, ◌+◌, ◌*◌, ◌%◌, ◌^◌, ◌<◌, ◌≡◌, refl, sym, subst, inl, List, [], ◌∷◌, arith, ltb, if_cases,
  if◌then◌else◌,
}
use peer_to_peer_distributed.Text.{Str}
use peer_to_peer_distributed.Net.{Answer, Progress}
use peer_to_peer_distributed.PieceStore.{Contents, read_loop}
use peer_to_peer_distributed.PieceStore.Transfer.{read_loop-done}
use peer_to_peer_distributed.HashFile.{
  Hasher, Hashing, hasher_at, set_hasher, pieces_in, part_len, end_reading, hash_move, run_hashers,
}
use peer_to_peer_distributed.HashFile.Slots.{returned_count_moved}
use peer_to_peer_distributed.HashFile.Claims.{Claimed, moved_on, part}
use peer_to_peer_distributed.HashFile.Moves.{pulled_piece, pulled_nothing, filled, gave_up}

module _ (ps : ℕ) (file : Contents) (size n : ℕ) where
  -- The end of the reads of a piece, whatever it is.
  end_reading-Claimed :
      (w i : ℕ) (r : Hashing) (result : Progress × Str)
      → hasher_at r.hashers w ≡ Hasher.reading i
      → Claimed ps file size n r
      → (result.0 ≡ Progress.done → result.1 ≡ part ps file size n i)
      → Claimed ps file size n (end_reading w i result r)
  end_reading-Claimed w i r (Progress.done, bytes) at v right =
      filled ps file size n w (Hasher.reading i) r at (λ e. cc) v i refl bytes (right refl)
  end_reading-Claimed w i r (Progress.waiting, bytes) at v right = v
  end_reading-Claimed w i r (_, bytes) at v right =
      gave_up ps file size n w (Hasher.reading i) r at (λ e. cc) v i refl

  -- Every move of a thread keeps the claims, while the counter does not wrap around.
  pub hash_move-Claimed :
      (w : ℕ) (answers : List Answer) (g : Hasher) (r : Hashing)
      → hasher_at r.hashers w ≡ g
      → pieces_in ps size + n < 2 ^ 32
      → Claimed ps file size n r
      → Claimed ps file size n (hash_move ps file size w answers g r)
  unfolding hash_move
  hash_move-Claimed w answers Hasher.looking r at few v =
      let go = moved_on ps file size n w Hasher.looking r at (λ e. cc) v in
      if_cases (λ h. Claimed ps file size n (record r { hashers = set_hasher w h r.hashers }))
        r.failed _ _ (λ e. go Hasher.returned (λ i k. cc) (λ i k. cc) (λ _. inl e))
        λ e. go Hasher.pulling (λ i k. cc) (λ i k. cc) (λ k. cc)
  hash_move-Claimed w answers Hasher.pulling r at few v =
      let whole : (r.next + 1) % 2 ^ 32 ≡ r.next + 1 = omega (
        arith,
        few,
        v.counter,
        v.threads,
        (returned_count_moved w Hasher.pulling Hasher.looking r.hashers at (λ e. cc)).1,
      ) in
      subst
        (λ m. Claimed ps file size n (record r {
          next = m;
          hashers =
              set_hasher w
                (if ltb r.next (pieces_in ps size) then Hasher.reading r.next else Hasher.returned)
                r.hashers;
        }))
        (sym whole)
        (if_cases
          (λ h.
            Claimed ps file size n
              (record r { next = r.next + 1; hashers = set_hasher w h r.hashers }))
          (ltb r.next (pieces_in ps size)) _ _
          (λ e.
            pulled_piece ps file size n w Hasher.pulling r at (λ k. cc) v refl (ground (arith, e)))
          λ e.
            pulled_nothing ps file size n w Hasher.pulling r at (λ k. cc) v refl
              (ground (arith, e)))
  hash_move-Claimed w answers (Hasher.reading i) r at few v =
      end_reading-Claimed w i r (read_loop answers (i * ps) (part_len ps size i) file) at v
        (read_loop-done answers (i * ps) (part_len ps size i) file)
  hash_move-Claimed w answers Hasher.returned r at few v = v

  pub run_hashers-Claimed :
      (schedule : List (ℕ × List Answer)) (r : Hashing)
      → pieces_in ps size + n < 2 ^ 32
      → Claimed ps file size n r
      → Claimed ps file size n (run_hashers ps file size schedule r)
  unfolding run_hashers
  run_hashers-Claimed [] r few v = v
  run_hashers-Claimed ((w, answers) ∷ schedule) r few v =
      run_hashers-Claimed schedule (hash_move ps file size w answers (hasher_at r.hashers w) r) few
        (hash_move-Claimed w answers (hasher_at r.hashers w) r refl few v)
