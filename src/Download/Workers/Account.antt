-- ===== src/Download/Workers/Account.antt =====
-- Where the pieces of a round are while its workers run: on the disk and marked, in the queue, or in the
-- hands of a worker.
use peer_to_peer_distributed.Base.{
  ℕ, ◌+◌, ◌<◌, ◌≤◌, ◌≡◌, refl, sym, ◌∙◌, ap, subst, inl, inr, Bool, true, false, List, [], ◌∷◌,
  arith, ltb, ◌==◌, ==_iff, All, Bool-cases,
}
use peer_to_peer_distributed.Text.{Str}
use peer_to_peer_distributed.Net.{Progress}
use peer_to_peer_distributed.PieceStore.{PieceStore, marked, mark}
use peer_to_peer_distributed.PieceStore.Bitmap.{marked-mark}
use peer_to_peer_distributed.PieceStore.Verified.{StoreValid}
use peer_to_peer_distributed.Download.Workers.Places.{
  bit, holds, held, total_moved, holds-le, set_worker-IsPatient, bit-or, no_piece,
  after_failure-IsPatient,
}
use peer_to_peer_distributed.Download.Workers.Accounted.{
  Covers, Accounted, take_piece-Accounted, maybe_announce-Accounted, back_in_loop-Accounted,
}
use peer_to_peer_distributed.Download.Workers.Attempts.{
  Kept, attempt_piece-Kept, attempt_piece-StoreValid,
}
use peer_to_peer_distributed.Download.Workers.{
  Worker, Round, Attempt, worker_at, set_worker, attempt_piece, after_failure, end_attempt, move,
  run_workers,
}

still_covered :
    (old new : Str) (bitmaps : List Str)
    → ((i : ℕ) → marked old i ≡ true → marked new i ≡ true)
    → All (Covers old) bitmaps
    → All (Covers new) bitmaps
still_covered old new [] h a = tt
still_covered old new (b ∷ bitmaps) h a =
    ((λ i m. h i (a.0 i m)), still_covered old new bitmaps h a.1)

of_bit : (b : Bool) → 1 ≤ bit b → b ≡ true
of_bit true h = refl
of_bit false h = elim h [ ]

module _ (hashes : ℕ → Str) where
  -- A worker holds a piece of the file that is not marked.
  pub held_piece :
      (w f j : ℕ) (r : Round)
      → worker_at r.workers w ≡ Worker.holding f j
      → Accounted hashes r
      → (j < r.store.piece_count) × (marked r.store.have j ≡ false)
  held_piece w f j r k v =
      let one : 1 ≤ held j r.workers =
        omega (arith, holds-le j w r.workers, ap (holds j) k, ap bit ((==_iff j j).1 refl)) in
      let below : j < r.store.piece_count = elim (Bool-cases (ltb j r.store.piece_count)) [
        | inl e ↦ ground arith
        | inr e ↦ absurd (ground (arith, v.inside j, one))
      ] in
      (
        below,
        elim (Bool-cases (marked r.store.have j)) [
          | inl e ↦ absurd (omega (arith, v.once j below, one, ap bit e))
          | inr e ↦ e
        ],
      )

  bit_after :
      (j : ℕ) (s t : PieceStore)
      → j < s.piece_count
      → marked s.have j ≡ false
      → t.have ≡ mark s.have j
      → StoreValid hashes s
      → (i : ℕ) → bit (marked t.have i) ≡ bit (j == i) + bit (marked s.have i)
  bit_after j s t below new e v i =
      ap (λ h. bit (marked h i)) e
      ∙ ap bit (marked-mark s.have j i (ground (arith, v.bitmap, below)) v.bytes)
      ∙ bit-or (j == i) (marked s.have i)
          (λ q. subst (λ x. marked s.have x ≡ false) ((==_iff j i).0 q) new)

  marked_after :
      (j : ℕ) (s t : PieceStore)
      → j < s.piece_count
      → marked s.have j ≡ false
      → t.have ≡ mark s.have j
      → StoreValid hashes s
      → (i : ℕ) → marked s.have i ≡ true
      → marked t.have i ≡ true
  marked_after j s t below new e v i m =
      of_bit (marked t.have i) (omega (arith, bit_after j s t below new e v i, ap bit m))

  -- An attempt that failed: the piece is back in the queue.
  given_back :
      (w f j : ℕ) (t : PieceStore) (r : Round)
      → worker_at r.workers w ≡ Worker.holding f j
      → (t.have ≡ r.store.have) × (t.piece_count ≡ r.store.piece_count)
      → StoreValid hashes t
      → Accounted hashes r
      → Accounted hashes (record r {
        queue = j ∷ r.queue;
        store = t;
        workers = set_worker w (after_failure f) r.workers;
      })
  given_back w f j t r k (have, count) s v =
      let step = λ (i : ℕ).
        total_moved (holds i) w (Worker.holding f j) (after_failure f) r.workers k refl in
      record {
        store = s;
        once = λ i l. omega (
          arith,
          step i,
          v.once i (omega (arith, l, count)),
          no_piece i f,
          ap (λ h. bit (marked h i)) have,
        );
        inside = λ i l. omega (arith, step i, v.inside i (omega (arith, l, count)), no_piece i f);
        patient =
            set_worker-IsPatient w (after_failure f) r.workers (after_failure-IsPatient f)
              v.patient;
        honest = subst (λ h. All (Covers h) r.announced) (sym have) v.honest;
      }

  end_attempt-Accounted :
      (w f j : ℕ) (out : Progress × PieceStore) (r : Round)
      → worker_at r.workers w ≡ Worker.holding f j
      → j < r.store.piece_count
      → marked r.store.have j ≡ false
      → Kept j r.store out
      → StoreValid hashes out.1
      → Accounted hashes r
      → Accounted hashes (end_attempt w f j out r)
  end_attempt-Accounted w f j (Progress.done, t) r k below new kept s v =
      let count : t.piece_count ≡ r.store.piece_count = kept.1 in
      record {
        store = s;
        once = λ i l. omega (
          arith,
          total_moved (holds i) w (Worker.holding f j) Worker.announcing r.workers k refl,
          v.once i (omega (arith, l, count)),
          bit_after j r.store t below new kept.0 v.store i,
        );
        inside = λ i l. omega (
          arith,
          total_moved (holds i) w (Worker.holding f j) Worker.announcing r.workers k refl,
          v.inside i (omega (arith, l, count)),
        );
        patient = set_worker-IsPatient w Worker.announcing r.workers tt v.patient;
        honest =
            still_covered r.store.have t.have r.announced
              (λ i m. marked_after j r.store t below new kept.0 v.store i m) v.honest;
      }
  end_attempt-Accounted w f j (Progress.closed, t) r k below new kept s v =
      given_back w f j t r k kept s v
  end_attempt-Accounted w f j (Progress.broken, t) r k below new kept s v =
      given_back w f j t r k kept s v
  end_attempt-Accounted w f j (Progress.waiting, t) r k below new kept s v =
      given_back w f j t r k kept s v

  pub move-Accounted :
      (w : ℕ) (a : Attempt) (u : Worker) (r : Round)
      → worker_at r.workers w ≡ u
      → Accounted hashes r
      → Accounted hashes (move hashes w a u r)
  unfolding move
  move-Accounted w a (Worker.idle f) r k v = take_piece-Accounted hashes w f r.queue r refl k v
  move-Accounted w a (Worker.holding f j) r k v =
      let (below, new) = held_piece w f j r k v in
      end_attempt-Accounted w f j (attempt_piece hashes j a r.store) r k below new
        (attempt_piece-Kept hashes j a r.store)
        (attempt_piece-StoreValid hashes j a r.store v.store new) v
  move-Accounted w a Worker.announcing r k v =
      maybe_announce-Accounted hashes a.now
        (record r { workers = set_worker w (Worker.idle 0) r.workers })
        (back_in_loop-Accounted hashes w r k v)
  move-Accounted w a Worker.retired r k v = v

  -- However the workers of a round interleave, whatever their peers send and the kernel answers, this
  -- is kept: each piece of the file is in exactly one place, marked, in the queue, or held by a worker,
  -- and no other piece is queued or held; the store is valid, so the marked pieces have their hashes;
  -- every announced bitmap claims only marked pieces; and the counts of consecutive failures are below
  -- the limit.
  pub run_workers-Accounted :
      (schedule : List (ℕ × Attempt)) (r : Round)
      → Accounted hashes r
      → Accounted hashes (run_workers hashes schedule r)
  unfolding run_workers
  run_workers-Accounted [] r v = v
  run_workers-Accounted ((w, a) ∷ schedule) r v =
      run_workers-Accounted schedule (move hashes w a (worker_at r.workers w) r)
        (move-Accounted w a (worker_at r.workers w) r refl v)
