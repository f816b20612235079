-- ===== src/Download/Workers/Accounted.antt =====
-- What the workers of a round keep, and the steps that leave the store as it is.
use peer_to_peer_distributed.Base.{
  ℕ, ◌+◌, ◌<◌, ◌≤◌, ◌≡◌, refl, ap, subst, true, List, [], ◌∷◌, arith, All, if_cases,
}
use peer_to_peer_distributed.Text.{Str}
use peer_to_peer_distributed.PieceStore.{marked}
use peer_to_peer_distributed.PieceStore.Verified.{StoreValid}
use peer_to_peer_distributed.Download.Workers.Places.{
  bit, occurs, holds, held, total_moved, IsPatient, set_worker-IsPatient, worker_at-IsPatient,
}
use peer_to_peer_distributed.Download.Workers.{
  Worker, Round, is_due, maybe_announce, worker_at, set_worker, take_piece,
}

-- The pieces that the second bitmap claims are marked in the first.
abbrev pub Covers : Str → Str → Type 0
Covers have bits = (i : ℕ) → marked bits i ≡ true → marked have i ≡ true

-- The store is valid; each piece of the file is in exactly one place, marked, in the queue, or held by
-- a worker, and no other piece is in the queue or held; the counts of consecutive failures are below
-- the limit; and every announced bitmap claims only pieces that are marked.
pub record Accounted (hashes : ℕ → Str) (r : Round) : Type 0 where
  pub store : StoreValid hashes r.store
  pub once :
      (i : ℕ)
      → i < r.store.piece_count
      → occurs i r.queue + held i r.workers + bit (marked r.store.have i) ≡ 1
  pub inside : (i : ℕ) → r.store.piece_count ≤ i → occurs i r.queue + held i r.workers ≡ 0
  pub patient : All IsPatient r.workers
  pub honest : All (Covers r.store.have) r.announced

module _ (hashes : ℕ → Str) where
  pub take_piece-Accounted :
      (w f : ℕ) (q : List ℕ) (r : Round)
      → r.queue ≡ q
      → worker_at r.workers w ≡ Worker.idle f
      → Accounted hashes r
      → Accounted hashes (take_piece w f q r)
  take_piece-Accounted w f [] r e k v = record {
    store = v.store;
    once = λ i l. omega (
      arith,
      total_moved (holds i) w (Worker.idle f) Worker.retired r.workers k refl,
      v.once i l,
    );
    inside = λ i l. omega (
      arith,
      total_moved (holds i) w (Worker.idle f) Worker.retired r.workers k refl,
      v.inside i l,
    );
    patient = set_worker-IsPatient w Worker.retired r.workers tt v.patient;
    honest = v.honest;
  }
  take_piece-Accounted w f (j ∷ q) r e k v = record {
    store = v.store;
    once = λ i l. omega (
      arith,
      total_moved (holds i) w (Worker.idle f) (Worker.holding f j) r.workers k refl,
      v.once i l,
      ap (occurs i) e,
    );
    inside = λ i l. omega (
      arith,
      total_moved (holds i) w (Worker.idle f) (Worker.holding f j) r.workers k refl,
      v.inside i l,
      ap (occurs i) e,
    );
    patient =
        set_worker-IsPatient w (Worker.holding f j) r.workers
          (subst IsPatient k (worker_at-IsPatient w r.workers v.patient)) v.patient;
    honest = v.honest;
  }

  pub maybe_announce-Accounted :
      (now : ℕ) (r : Round) → Accounted hashes r → Accounted hashes (maybe_announce now r)
  maybe_announce-Accounted now r v =
      if_cases (Accounted hashes) (is_due now (record r.batch { pieces = r.batch.pieces + 1 })) _ _
        (λ _. record {
          store = v.store;
          once = v.once;
          inside = v.inside;
          patient = v.patient;
          honest = ((λ i m. m), v.honest);
        })
        (λ _. record {
          store = v.store;
          once = v.once;
          inside = v.inside;
          patient = v.patient;
          honest = v.honest;
        })

  pub back_in_loop-Accounted :
      (w : ℕ) (r : Round)
      → worker_at r.workers w ≡ Worker.announcing
      → Accounted hashes r
      → Accounted hashes (record r { workers = set_worker w (Worker.idle 0) r.workers })
  back_in_loop-Accounted w r k v =
      let step =
        λ (i : ℕ). total_moved (holds i) w Worker.announcing (Worker.idle 0) r.workers k refl in
      record {
        store = v.store;
        once = λ i l. omega (arith, step i, v.once i l);
        inside = λ i l. omega (arith, step i, v.inside i l);
        patient = set_worker-IsPatient w (Worker.idle 0) r.workers (omega arith) v.patient;
        honest = v.honest;
      }
