-- ===== src/Download/Workers/Shape.antt =====
-- The size of a file and its count of pieces, under the workers of a round.
use peer_to_peer_distributed.Base.{
  ℕ, ◌+◌, ◌*◌, ◌≡◌, refl, ◌∙◌, not, none, some, Option, List, [], ◌∷◌, length, leb, ◌==◌, if_cases,
}
use peer_to_peer_distributed.Text.{Str, str_ne}
use peer_to_peer_distributed.Net.{Answer, Progress}
use peer_to_peer_distributed.Protocol.{piece_size}
use peer_to_peer_distributed.Sha1.{hash_buffer}
use peer_to_peer_distributed.PieceStore.{
  Contents, PieceStore, piece_len, finish_write, write_loop, write_piece,
}
use peer_to_peer_distributed.Download.Workers.{
  Worker, Round, Attempt, worker_at, set_worker, take_piece, write_fetched, attempt_piece,
  end_attempt, is_due, maybe_announce, move, run_workers,
}

abbrev pub shape : PieceStore → ℕ × ℕ
shape s = (s.size, s.piece_count)

finish_write-shape :
    (i : ℕ) (s : PieceStore) (r : Progress × Contents) → shape (finish_write i s r).1 ≡ shape s
finish_write-shape i s (Progress.done, f) = refl
finish_write-shape i s (Progress.closed, f) = refl
finish_write-shape i s (Progress.broken, f) = refl
finish_write-shape i s (Progress.waiting, f) = refl

write_piece-shape :
    (answers : List Answer) (i : ℕ) (bs hash : Str) (s : PieceStore)
    → shape (write_piece answers i bs hash s).1 ≡ shape s
unfolding write_piece
write_piece-shape answers i bs hash s =
    if_cases Same (leb s.piece_count i) _ _ (λ _. refl)
      λ _.
        if_cases Same (not (length bs == piece_len s i)) _ _ (λ _. refl)
          λ _.
            if_cases Same (str_ne (hash_buffer bs) hash) _ _ (λ _. refl)
              λ _.
                if_cases Same (not s.opened) _ _ (λ _. refl)
                  λ _. finish_write-shape i s (write_loop answers (i * piece_size) bs s.contents)
  where
    Same : Progress × PieceStore → Type 0
    Same r = shape r.1 ≡ shape s

attempt_piece-shape :
    (hashes : ℕ → Str) (i : ℕ) (a : Attempt) (s : PieceStore)
    → shape (attempt_piece hashes i a s).1 ≡ shape s
unfolding attempt_piece
attempt_piece-shape hashes i a s = by_fetch a.fetched
  where
    by_fetch : (o : Option Str) → shape (write_fetched (hashes i) a.writes i s o).1 ≡ shape s
    by_fetch none = refl
    by_fetch (some bytes) = write_piece-shape a.writes i bytes (hashes i) s

take_piece-shape :
    (w f : ℕ) (q : List ℕ) (r : Round) → shape (take_piece w f q r).store ≡ shape r.store
take_piece-shape w f [] r = refl
take_piece-shape w f (j ∷ q) r = refl

end_attempt-shape :
    (w f j : ℕ) (out : Progress × PieceStore) (r : Round)
    → shape (end_attempt w f j out r).store ≡ shape out.1
end_attempt-shape w f j (Progress.done, t) r = refl
end_attempt-shape w f j (Progress.closed, t) r = refl
end_attempt-shape w f j (Progress.broken, t) r = refl
end_attempt-shape w f j (Progress.waiting, t) r = refl

maybe_announce-shape : (now : ℕ) (r : Round) → shape (maybe_announce now r).store ≡ shape r.store
maybe_announce-shape now r =
    if_cases {A = Round} (λ x. shape x.store ≡ shape r.store)
      (is_due now (record r.batch { pieces = r.batch.pieces + 1 })) _ _ (λ _. refl) (λ _. refl)

module _ (hashes : ℕ → Str) where
  move-shape :
      (w : ℕ) (a : Attempt) (u : Worker) (r : Round)
      → shape (move hashes w a u r).store ≡ shape r.store
  unfolding move
  move-shape w a (Worker.idle f) r = take_piece-shape w f r.queue r
  move-shape w a (Worker.holding f j) r =
      end_attempt-shape w f j (attempt_piece hashes j a r.store) r
      ∙ attempt_piece-shape hashes j a r.store
  move-shape w a Worker.announcing r =
      maybe_announce-shape a.now (record r { workers = set_worker w (Worker.idle 0) r.workers })
  move-shape w a Worker.retired r = refl

  pub run_workers-shape :
      (schedule : List (ℕ × Attempt)) (r : Round)
      → shape (run_workers hashes schedule r).store ≡ shape r.store
  unfolding run_workers
  run_workers-shape [] r = refl
  run_workers-shape ((w, a) ∷ schedule) r =
      run_workers-shape schedule (move hashes w a (worker_at r.workers w) r)
      ∙ move-shape w a (worker_at r.workers w) r
