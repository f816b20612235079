-- ===== src/Download/Job/Success.antt =====
-- A job in whose first round no attempt fails.
use peer_to_peer_distributed.Base.{
  ℕ, zero, suc, ◌*◌, ◌<◌, ◌≤◌, ◌≡◌, refl, ◌∙◌, ap, inl, inr, Bool, true, false, Option, some, List,
  [], ◌∷◌, arith, length, Bool-cases, ==_iff,
}
use peer_to_peer_distributed.Text.{Str}
use peer_to_peer_distributed.PieceStore.{Contents, complete, count_marked, marked}
use peer_to_peer_distributed.PieceStore.Resume.{Disk, hash_at}
use peer_to_peer_distributed.Seeder.{Shares, add_share}
use peer_to_peer_distributed.Seeder.Keys.{ShareKey}
use peer_to_peer_distributed.Download.Peers.{PeerAddr}
use peer_to_peer_distributed.Download.Workers.{Worker, Round, announce, run_workers}
use peer_to_peer_distributed.Download.Workers.Places.{bit, occurs, held}
use peer_to_peer_distributed.Download.Workers.Accounted.{Accounted}
use peer_to_peer_distributed.Download.Workers.Account.{run_workers-Accounted}
use peer_to_peer_distributed.Download.Job.Staffed.{
  NoFailure, Staffed, run_workers-Staffed, some_connected,
}
use peer_to_peer_distributed.Download.Job.{
  DownloadJob, Turn, Outcome, start_round, run_round, run_rounds, conclude_job, opened_job, run_job,
  all_retired, conns_per_peer,
}
use peer_to_peer_distributed.Download.Job.Start.{start_round-Accounted}
use peer_to_peer_distributed.Download.Job.Complete.{JobFits, opened_job-Kept}

count_all :
    (n : ℕ) (bits : Str) → ((i : ℕ) → i < n → marked bits i ≡ true) → count_marked n bits ≡ n
unfolding count_marked
count_all zero bits h = refl
count_all (suc n) bits h =
    rw (h n (omega arith)) (omega (arith, count_all n bits (λ i l. h i (omega (arith, l)))))

nothing_held : (i : ℕ) (ws : List Worker) → all_retired ws ≡ true → held i ws ≡ 0
nothing_held i [] h = refl
nothing_held i (Worker.retired ∷ ws) h = omega (arith, nothing_held i ws h)
nothing_held i (Worker.idle f ∷ ws) h = cc
nothing_held i (Worker.holding f j ∷ ws) h = cc
nothing_held i (Worker.announcing ∷ ws) h = cc

of_bit : (b : Bool) → bit b ≡ 1 → b ≡ true
of_bit true h = refl
of_bit false h = absurd (omega (arith, h))

-- When all workers of a round have ended and the queue is empty, the file is complete.
pub ended_round_complete :
    (hashes : ℕ → Str) (r : Round)
    → Accounted hashes r
    → all_retired r.workers ≡ true
    → r.queue ≡ []
    → complete r.store ≡ true
unfolding complete
ended_round_complete hashes r v ended empty =
    (==_iff (count_marked r.store.piece_count r.store.have) r.store.piece_count).1 (
      count_all r.store.piece_count r.store.have (λ i l.
        of_bit (marked r.store.have i)
          (omega (arith, v.once i l, nothing_held i r.workers ended, ap (occurs i) empty))))

some_peer : (peers : List PeerAddr) (c k : ℕ) → k < length peers * c → 1 ≤ length peers
some_peer [] c k l = absurd (omega (arith, l))
some_peer (peer ∷ peers) c k l = omega arith

nothing_waits : (r : Round) → Staffed r → all_retired r.workers ≡ true → r.queue ≡ []
nothing_waits r (inl e) h = cc
nothing_waits r (inr e) h = e

module _ (job : DownloadJob) (turns : ℕ → Turn) (shares : Shares) where
  abbrev hashes : ℕ → Str
  hashes = hash_at job.piece_hashes

  abbrev pub ended : Round → Round
  ended r = run_workers hashes (turns 0).schedule r

  key : ShareKey
  key = record { group = job.group; file = job.file }

  -- A round with peers whose workers have all ended.
  ran :
      (peers : List PeerAddr) (r : Round)
      → 1 ≤ length peers
      → all_retired (ended (start_round peers (turns 0).connects r)).workers ≡ true
      → run_round job 0 peers (turns 0) r
        ≡ some (announce (turns 0).now (ended (start_round peers (turns 0).connects r)))
  unfolding run_round
  ran [] r l h = elim l [ ]
  ran (peer ∷ peers) r l h = rw h refl

  already :
      (left round : ℕ) (r : Round)
      → complete r.store ≡ true
      → run_rounds job turns left round r ≡ some r
  unfolding run_rounds
  already zero round r h = refl
  already (suc left) round r h = rw h refl

  first_round :
      (left : ℕ) (r r' : Round)
      → complete r.store ≡ false
      → run_round job 0 job.peers (turns 0) r ≡ some r'
      → run_rounds job turns (suc left) 0 r ≡ run_rounds job turns left 1 r'
  unfolding run_rounds
  first_round left r r' h e = rw (h, e, run_rounds) refl

  concluded :
      (o : Option Round) (r : Round)
      → o ≡ some r
      → complete r.store ≡ true
      → conclude_job job shares o ≡ Outcome.finished (add_share key r.store shares) r
  unfolding key
  concluded o r e h = ap (conclude_job job shares) e ∙ rw h refl

  pub run_job_succeeds :
      (file : Contents) (disk : Disk) (k : ℕ)
      → JobFits job
      → k < length job.peers * conns_per_peer job.peers
      → (turns 0).connects k ≡ true
      → NoFailure hashes
          (turns 0).schedule
          (start_round job.peers (turns 0).connects (opened_job job file disk))
      → all_retired
          (ended (start_round job.peers (turns 0).connects (opened_job job file disk))).workers
        ≡ true
      → (r : Round) × (run_job job (some file) disk turns shares
          ≡ Outcome.finished
              (add_share (record { group = job.group; file = job.file }) r.store shares)
              r)
  unfolding run_job key
  run_job_succeeds file disk k fits l c h done =
      let r = opened_job job file disk in
      let begun = start_round job.peers (turns 0).connects r in
      let whole : complete (ended begun).store ≡ true =
        ended_round_complete hashes (ended begun)
          (run_workers-Accounted hashes (turns 0).schedule begun (
            start_round-Accounted hashes job.peers (turns 0).connects r
              (opened_job-Kept job file disk fits).0))
          done
          (nothing_waits (ended begun)
            (run_workers-Staffed hashes (turns 0).schedule begun h (
              inl (
                some_connected (turns 0).connects (length job.peers * conns_per_peer job.peers) k l
                  c)))
            done) in
      elim (Bool-cases (complete r.store)) [
        | inl e ↦ (r, concluded (run_rounds job turns 5 0 r) r (already 5 0 r e) e)
        | inr e ↦
            let r' = announce (turns 0).now (ended begun) in
            (
              r',
              concluded (run_rounds job turns 5 0 r) r'
                  (first_round 4 r r' e
                      (ran job.peers r (some_peer job.peers (conns_per_peer job.peers) k l) done)
                    ∙ already 4 1 r' whole)
                  whole,
            )
      ]
