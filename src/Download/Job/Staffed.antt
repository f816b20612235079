-- ===== src/Download/Job/Staffed.antt =====
-- The workers of a round in which no attempt fails.
use peer_to_peer_distributed.Base.{
  ℕ, zero, suc, ◌+◌, ◌<◌, ◌≡◌, refl, ap, ◌⊎◌, inl, inr, Bool, true, false, List, [], ◌∷◌, arith,
  Bool-cases, ◌==◌, ==_iff, if_cases,
}
use peer_to_peer_distributed.Text.{Str}
use peer_to_peer_distributed.Net.{Progress}
use peer_to_peer_distributed.PieceStore.{PieceStore}
use peer_to_peer_distributed.Download.Workers.{
  Worker, Round, Attempt, worker_at, set_worker, take_piece, attempt_piece, end_attempt, is_due,
  move, run_workers,
}
use peer_to_peer_distributed.Download.Workers.Places.{is_active}
use peer_to_peer_distributed.Download.Job.{start_workers, all_retired}

-- The move fetches and writes the piece that the worker holds, if it holds one.
abbrev pub Succeeds : (ℕ → Str) → Attempt → PieceStore → Worker → Type 0
Succeeds hashes a s (Worker.holding f j) = (attempt_piece hashes j a s).0 ≡ Progress.done
Succeeds hashes a s _ = Unit {0}

-- None of the attempts of a schedule fails.
abbrev pub NoFailure : (ℕ → Str) → List (ℕ × Attempt) → Round → Type 0
NoFailure hashes [] r = Unit {0}
NoFailure hashes ((w, a) ∷ schedule) r =
    Succeeds hashes a r.store (worker_at r.workers w)
    × NoFailure hashes schedule (move hashes w a (worker_at r.workers w) r)

-- Some worker is in its loop, or nothing waits.
abbrev pub Staffed : Round → Type 0
Staffed r = (all_retired r.workers ≡ false) ⊎ (r.queue ≡ [])

active_kept :
    (w : ℕ) (v : Worker) (ws : List Worker)
    → is_active (worker_at ws w) ≡ true
    → is_active v ≡ true
    → all_retired (set_worker w v ws) ≡ false
active_kept w v [] h k = cc
active_kept zero (Worker.idle f) (u ∷ ws) h k = refl
active_kept zero (Worker.holding f j) (u ∷ ws) h k = refl
active_kept zero Worker.announcing (u ∷ ws) h k = refl
active_kept zero Worker.retired (u ∷ ws) h k = cc
active_kept (suc w) v (Worker.retired ∷ ws) h k = active_kept w v ws h k
active_kept (suc w) v (Worker.idle f ∷ ws) h k = refl
active_kept (suc w) v (Worker.holding f j ∷ ws) h k = refl
active_kept (suc w) v (Worker.announcing ∷ ws) h k = refl

module _ (hashes : ℕ → Str) where
  take_piece-Staffed :
      (w f : ℕ) (q : List ℕ) (r : Round)
      → r.queue ≡ q
      → worker_at r.workers w ≡ Worker.idle f
      → Staffed (take_piece w f q r)
  take_piece-Staffed w f [] r e k = inr e
  take_piece-Staffed w f (j ∷ q) r e k =
      inl (active_kept w (Worker.holding f j) r.workers (ap is_active k) refl)

  end_attempt-Staffed :
      (w f j : ℕ) (out : Progress × PieceStore) (r : Round)
      → worker_at r.workers w ≡ Worker.holding f j
      → out.0 ≡ Progress.done
      → Staffed (end_attempt w f j out r)
  end_attempt-Staffed w f j (Progress.done, t) r k h =
      inl (active_kept w Worker.announcing r.workers (ap is_active k) refl)
  end_attempt-Staffed w f j (Progress.closed, t) r k h = cc
  end_attempt-Staffed w f j (Progress.broken, t) r k h = cc
  end_attempt-Staffed w f j (Progress.waiting, t) r k h = cc

  move-Staffed :
      (w : ℕ) (a : Attempt) (u : Worker) (r : Round)
      → worker_at r.workers w ≡ u
      → Succeeds hashes a r.store u
      → Staffed r
      → Staffed (move hashes w a u r)
  unfolding move
  move-Staffed w a (Worker.idle f) r k h v = take_piece-Staffed w f r.queue r refl k
  move-Staffed w a (Worker.holding f j) r k h v =
      end_attempt-Staffed w f j (attempt_piece hashes j a r.store) r k h
  move-Staffed w a Worker.announcing r k h v =
      let active = active_kept w (Worker.idle 0) r.workers (ap is_active k) refl in
      if_cases Staffed (is_due a.now (record r.batch { pieces = r.batch.pieces + 1 })) _ _
        (λ _. inl active) (λ _. inl active)
  move-Staffed w a Worker.retired r k h v = v

  pub run_workers-Staffed :
      (schedule : List (ℕ × Attempt)) (r : Round)
      → NoFailure hashes schedule r
      → Staffed r
      → Staffed (run_workers hashes schedule r)
  unfolding run_workers
  run_workers-Staffed [] r h v = v
  run_workers-Staffed ((w, a) ∷ schedule) r (h, hs) v =
      run_workers-Staffed schedule (move hashes w a (worker_at r.workers w) r) hs
        (move-Staffed w a (worker_at r.workers w) r refl h v)

pub some_connected :
    (connects : ℕ → Bool) (n k : ℕ)
    → k < n
    → connects k ≡ true
    → all_retired (start_workers connects n) ≡ false
some_connected connects zero k l h = elim l [ ]
some_connected connects (suc n) k l h = elim (Bool-cases (connects n)) [
  | inl e ↦ rw e refl
  | inr e ↦ rw e (some_connected connects n k (elsewhere (Bool-cases (k == n)) e) h)
]
  where
    elsewhere : ((k == n) ≡ true) ⊎ ((k == n) ≡ false) → connects n ≡ false → k < n
    elsewhere (inl q) e = absurd (differ (ap connects ((==_iff k n).0 q)))
      where
        differ : connects k ≡ connects n → ⊥
        differ d = cc
    elsewhere (inr q) e = ground (arith, l, q)
