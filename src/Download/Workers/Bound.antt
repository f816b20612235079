-- ===== src/Download/Workers/Bound.antt =====
-- The work that is left to the workers of a round, in moves.
use peer_to_peer_distributed.Base.{
  ℕ, ◌+◌, ◌-◌, ◌*◌, ◌<◌, ◌≤◌, ◌≡◌, refl, ap, subst, List, [], ◌∷◌, arith, ltb, length, All,
  if_cases,
}
use peer_to_peer_distributed.Net.{Progress}
use peer_to_peer_distributed.Text.{Str}
use peer_to_peer_distributed.PieceStore.{PieceStore}
use peer_to_peer_distributed.Download.Workers.{
  Worker, Round, Attempt, is_due, worker_at, set_worker, take_piece, attempt_piece, after_failure,
  end_attempt, move, run_workers,
}
use peer_to_peer_distributed.Download.Workers.Places.{
  bit, total, total_moved, is_active, IsPatient, set_worker-IsPatient, worker_at-IsPatient,
  after_failure-IsPatient,
}

-- What a worker may still do before it retires, and with the piece that it holds.
abbrev pub weight : Worker → ℕ
weight (Worker.idle f) = 2 * (3 - f) + 1
weight (Worker.holding f j) = 2 * (3 - f) + 7
weight Worker.announcing = 8
weight Worker.retired = 0

abbrev pub work_left : Round → ℕ
work_left r = 7 * length r.queue + total weight r.workers

-- The moves of a schedule that are made by workers that are still in their loop.
unfoldable pub moves_made : (ℕ → Str) → List (ℕ × Attempt) → Round → ℕ
moves_made hashes [] r = 0
moves_made hashes ((w, a) ∷ schedule) r =
    bit (is_active (worker_at r.workers w))
    + moves_made hashes schedule (move hashes w a (worker_at r.workers w) r)

weight-after_failure : (f : ℕ) → f < 3 → weight (after_failure f) + 1 ≤ 2 * (3 - f)
weight-after_failure f h =
    if_cases (λ u. weight u + 1 ≤ 2 * (3 - f)) (ltb (f + 1) 3) _ _ (λ e. ground (arith, e))
      (λ e. ground (arith, e))

take_piece-lt :
    (w f : ℕ) (q : List ℕ) (r : Round)
    → r.queue ≡ q
    → worker_at r.workers w ≡ Worker.idle f
    → work_left (take_piece w f q r) + 1 ≤ work_left r
take_piece-lt w f [] r e k =
    omega (arith, total_moved weight w (Worker.idle f) Worker.retired r.workers k refl)
take_piece-lt w f (j ∷ q) r e k = omega (
  arith,
  total_moved weight w (Worker.idle f) (Worker.holding f j) r.workers k refl,
  ap (length {0}) e,
)

module _ (w f j : ℕ) (r : Round) (k : worker_at r.workers w ≡ Worker.holding f j) (h : f < 3) where
  given_back-lt :
      (t : PieceStore)
      → work_left (record r {
        queue = j ∷ r.queue;
        store = t;
        workers = set_worker w (after_failure f) r.workers;
      })
          + 1
        ≤ work_left r
  given_back-lt t = omega (
    arith,
    total_moved weight w (Worker.holding f j) (after_failure f) r.workers k refl,
    weight-after_failure f h,
  )

  end_attempt-lt :
      (out : Progress × PieceStore) → work_left (end_attempt w f j out r) + 1 ≤ work_left r
  end_attempt-lt (Progress.done, t) =
      omega (arith, total_moved weight w (Worker.holding f j) Worker.announcing r.workers k refl)
  end_attempt-lt (Progress.closed, t) = given_back-lt t
  end_attempt-lt (Progress.broken, t) = given_back-lt t
  end_attempt-lt (Progress.waiting, t) = given_back-lt t

  end_attempt-IsPatient :
      (out : Progress × PieceStore)
      → All IsPatient r.workers
      → All IsPatient (end_attempt w f j out r).workers
  end_attempt-IsPatient (Progress.done, t) p =
      set_worker-IsPatient w Worker.announcing r.workers tt p
  end_attempt-IsPatient (Progress.closed, t) p =
      set_worker-IsPatient w (after_failure f) r.workers (after_failure-IsPatient f) p
  end_attempt-IsPatient (Progress.broken, t) p =
      set_worker-IsPatient w (after_failure f) r.workers (after_failure-IsPatient f) p
  end_attempt-IsPatient (Progress.waiting, t) p =
      set_worker-IsPatient w (after_failure f) r.workers (after_failure-IsPatient f) p

take_piece-IsPatient :
    (w f : ℕ) (q : List ℕ) (r : Round)
    → f < 3
    → All IsPatient r.workers
    → All IsPatient (take_piece w f q r).workers
take_piece-IsPatient w f [] r h p = set_worker-IsPatient w Worker.retired r.workers tt p
take_piece-IsPatient w f (j ∷ q) r h p = set_worker-IsPatient w (Worker.holding f j) r.workers h p

back :
    (w : ℕ) (r : Round)
    → All IsPatient r.workers
    → All IsPatient (set_worker w (Worker.idle 0) r.workers)
back w r p = set_worker-IsPatient w (Worker.idle 0) r.workers (omega arith) p

module _ (hashes : ℕ → Str) where
  move-IsPatient :
      (w : ℕ) (a : Attempt) (u : Worker) (r : Round)
      → worker_at r.workers w ≡ u
      → All IsPatient r.workers
      → All IsPatient (move hashes w a u r).workers
  unfolding move
  move-IsPatient w a (Worker.idle f) r k p =
      take_piece-IsPatient w f r.queue r (subst IsPatient k (worker_at-IsPatient w r.workers p)) p
  move-IsPatient w a (Worker.holding f j) r k p =
      end_attempt-IsPatient w f j r k (subst IsPatient k (worker_at-IsPatient w r.workers p))
        (attempt_piece hashes j a r.store) p
  move-IsPatient w a Worker.announcing r k p =
      if_cases {A = Round} (λ x. All IsPatient x.workers)
        (is_due a.now (record r.batch { pieces = r.batch.pieces + 1 })) _ _ (λ _. back w r p)
        (λ _. back w r p)
  move-IsPatient w a Worker.retired r k p = p

  move-le :
      (w : ℕ) (a : Attempt) (u : Worker) (r : Round)
      → worker_at r.workers w ≡ u
      → All IsPatient r.workers
      → work_left (move hashes w a u r) + bit (is_active u) ≤ work_left r
  unfolding move
  move-le w a (Worker.idle f) r k p = take_piece-lt w f r.queue r refl k
  move-le w a (Worker.holding f j) r k p =
      end_attempt-lt w f j r k (subst IsPatient k (worker_at-IsPatient w r.workers p))
        (attempt_piece hashes j a r.store)
  move-le w a Worker.announcing r k p =
      let m = total_moved weight w Worker.announcing (Worker.idle 0) r.workers k refl in
      if_cases {A = Round} (λ x. work_left x + 1 ≤ work_left r)
        (is_due a.now (record r.batch { pieces = r.batch.pieces + 1 })) _ _ (λ _. omega (arith, m))
        (λ _. omega (arith, m))
  move-le w a Worker.retired r k p = omega arith

  -- The moves that any schedule makes, and the work that is left after it, are together no more than
  -- the work that was left before: seven moves for each queued piece; and for each worker seven
  -- before it takes a piece, thirteen while it holds one, eight after it wrote one, less two for each
  -- consecutive failure. The counts of consecutive failures are
  -- below the limit at first.
  pub moves_made-work_left :
      (schedule : List (ℕ × Attempt)) (r : Round)
      → All IsPatient r.workers
      → moves_made hashes schedule r + work_left (run_workers hashes schedule r) ≤ work_left r
  unfolding run_workers moves_made
  moves_made-work_left [] r p = omega arith
  moves_made-work_left ((w, a) ∷ schedule) r p = omega (
    arith,
    moves_made-work_left schedule (move hashes w a (worker_at r.workers w) r)
        (move-IsPatient w a (worker_at r.workers w) r refl p),
    move-le w a (worker_at r.workers w) r refl p,
  )
