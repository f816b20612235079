-- ===== src/Download/Job/Complete.antt =====
-- What a finished job leaves behind.
use peer_to_peer_distributed.Base.{
  ℕ, zero, suc, ◌+◌, ◌*◌, ◌%◌, ◌^◌, ◌<◌, ◌≤◌, ◌≡◌, refl, ◌∙◌, ap, subst, true, not, Option, none,
  some, List, [], ◌∷◌, arith, length, if_cases, some_eq,
}
use peer_to_peer_distributed.Text.{Str}
use peer_to_peer_distributed.Protocol.{piece_size}
use peer_to_peer_distributed.Sha1.{hash_buffer}
use peer_to_peer_distributed.PieceStore.{Contents, PieceStore, open_for_download, complete}
use peer_to_peer_distributed.PieceStore.Resume.{Disk, hash_at, resume_scan, resume_scan-StoreValid}
use peer_to_peer_distributed.PieceStore.Verified.{
  piece, open_for_download-StoreValid, complete-StoreValid,
}
use peer_to_peer_distributed.Seeder.{Shares, add_share}
use peer_to_peer_distributed.Download.Peers.{PeerAddr}
use peer_to_peer_distributed.Download.Workers.{Round, run_workers}
use peer_to_peer_distributed.Download.Workers.Accounted.{Accounted}
use peer_to_peer_distributed.Download.Workers.Account.{run_workers-Accounted}
use peer_to_peer_distributed.Download.Workers.Shape.{shape, run_workers-shape}
use peer_to_peer_distributed.Download.Job.{
  DownloadJob, Turn, Outcome, start_round, finish_round, no_peers, run_round, run_rounds,
  round_peers, conclude_job, opened_job, run_job, all_retired,
}
use peer_to_peer_distributed.Download.Job.Start.{JobValid, start_round-Accounted}

-- The store and the announcements are right, and the file is the one that was opened.
abbrev pub Kept : (ℕ → Str) → ℕ × ℕ → Round → Type 0
Kept hashes sh r = JobValid hashes r × (shape r.store ≡ sh)

pub finish_round-JobValid :
    (hashes : ℕ → Str) (now : ℕ) (r r' : Round)
    → Accounted hashes r
    → finish_round now r ≡ some r'
    → JobValid hashes r' × (r'.store ≡ r.store)
finish_round-JobValid hashes now r r' v =
    if_cases (λ o. o ≡ some r' → JobValid hashes r' × (r'.store ≡ r.store)) (all_retired r.workers)
      _ _
      (λ _ e.
        subst (λ x. JobValid hashes x × (x.store ≡ r.store)) (some_eq e)
          (record { store = v.store; honest = ((λ i m. m), v.honest) }, refl))
      (λ _ e. cc)

module _ (job : DownloadJob) (sh : ℕ × ℕ) where
  abbrev hashes : ℕ → Str
  hashes = hash_at job.piece_hashes

  no_peers-Kept :
      (round : ℕ) (r r' : Round) → Kept hashes sh r → no_peers round r ≡ some r' → Kept hashes sh r'
  no_peers-Kept zero r r' v e = cc
  no_peers-Kept (suc round) r r' v e = subst (Kept hashes sh) (some_eq e) v

  run_round-Kept :
      (round : ℕ) (peers : List PeerAddr) (turn : Turn) (r r' : Round)
      → Kept hashes sh r
      → run_round job round peers turn r ≡ some r'
      → Kept hashes sh r'
  unfolding run_round
  run_round-Kept round [] turn r r' v e = no_peers-Kept round r r' v e
  run_round-Kept round (peer ∷ peers) turn r r' v e =
      let begun = start_round (peer ∷ peers) turn.connects r in
      let (valid, same) =
        finish_round-JobValid hashes turn.now (run_workers hashes turn.schedule begun) r'
          (run_workers-Accounted hashes turn.schedule begun
            (start_round-Accounted hashes (peer ∷ peers) turn.connects r v.0))
          e in
      (valid, ap shape same ∙ run_workers-shape hashes turn.schedule begun ∙ v.1)

  run_rounds-Kept :
      (turns : ℕ → Turn) (left round : ℕ) (r r' : Round)
      → Kept hashes sh r
      → run_rounds job turns left round r ≡ some r'
      → Kept hashes sh r'
  unfolding run_rounds
  run_rounds-Kept turns zero round r r' v = λ e. subst (Kept hashes sh) (some_eq e) v
  run_rounds-Kept turns (suc left) round r r' v =
      let later =
        λ (x : Round) (k : Kept hashes sh x). run_rounds-Kept turns left (round + 1) x r' k in
      if_cases (λ o. o ≡ some r' → Kept hashes sh r') (complete r.store) _ _
        (λ _ e. subst (Kept hashes sh) (some_eq e) v)
        (λ _.
          by_round later (run_round job round (round_peers job round (turns round)) (turns round) r)
            (λ x. run_round-Kept round (round_peers job round (turns round)) (turns round) r x v))
    where
      by_round :
          ((x : Round)
            → Kept hashes sh x
            → run_rounds job turns left (round + 1) x ≡ some r'
            → Kept hashes sh r')
          → (o : Option Round) → ((x : Round) → o ≡ some x → Kept hashes sh x)
          → elim o [ none ↦ none | some x ↦ run_rounds job turns left (round + 1) x ] ≡ some r'
          → Kept hashes sh r'
      by_round later none k e = cc
      by_round later (some x) k e = later x (k x refl) e

  conclude_job_finished :
      (shares shares' : Shares) (r : Round) (o : Option Round)
      → conclude_job job shares o ≡ Outcome.finished shares' r
      → (o ≡ some r)
        × (complete r.store ≡ true)
        × (shares' ≡ add_share (record { group = job.group; file = job.file }) r.store shares)
  conclude_job_finished shares shares' r none = λ e. cc
  conclude_job_finished shares shares' r (some x) =
      if_cases
        (λ out.
          out ≡ Outcome.finished shares' r
          → (some x ≡ some r)
            × (complete r.store ≡ true)
            × (shares' ≡ add_share (record { group = job.group; file = job.file }) r.store shares))
        (complete x.store) _ _ (λ whole e. (cc, cc, cc)) (λ _ e. cc)

resume_scan-shape :
    (disk : Disk) (hs : List Str) (s : PieceStore) → shape (resume_scan disk hs s) ≡ shape s
unfolding resume_scan
resume_scan-shape disk hs s =
    if_cases {A = PieceStore} (λ x. shape x ≡ shape s) (not s.opened) _ _ (λ _. refl) (λ _. refl)

-- The count of pieces is that of the size, and both fit their fields.
abbrev pub JobFits : DownloadJob → Type 0
JobFits job =
    (job.size < 2 ^ 64)
    × (length job.piece_hashes < 2 ^ 32)
    × (job.size ≤ length job.piece_hashes * piece_size)
    × (length job.piece_hashes * piece_size < job.size + piece_size)

pub opened_job-Kept :
    (job : DownloadJob) (file : Contents) (disk : Disk)
    → JobFits job
    → Kept (hash_at job.piece_hashes) (job.size, length job.piece_hashes) (opened_job job file disk)
opened_job-Kept job file disk (a, b, c, d) =
    let count : length job.piece_hashes % 2 ^ 32 ≡ length job.piece_hashes = omega (arith, b) in
    let fresh = open_for_download file job.size (length job.piece_hashes % 2 ^ 32) in
    (
      record {
        store = resume_scan-StoreValid disk job.piece_hashes fresh (
            rw count (
              open_for_download-StoreValid (hash_at job.piece_hashes) file job.size
                (length job.piece_hashes) a b c d));
        honest = tt;
      },
      resume_scan-shape disk job.piece_hashes fresh ∙ ap (λ n. (job.size, n)) count,
    )

-- Whatever was on the disk and whatever the tracker, the peers and the workers did: when a job is done,
-- the client shares under the job's key a store of the job's size in which every piece has the hash
-- that the job names. The job's numbers fit their fields, and its count of pieces is that of its size.
pub run_job_finished :
    (job : DownloadJob) (file : Contents) (disk : Disk) (turns : ℕ → Turn) (shares shares' : Shares)
    (r : Round)
    → JobFits job
    → run_job job (some file) disk turns shares ≡ Outcome.finished shares' r
    → (shares' ≡ add_share (record { group = job.group; file = job.file }) r.store shares)
      × (r.store.size ≡ job.size)
      × ((i : ℕ)
          → i < length job.piece_hashes
          → hash_buffer (piece r.store i) ≡ hash_at job.piece_hashes i)
unfolding run_job
run_job_finished job file disk turns shares shares' r fits e =
    let sh : ℕ × ℕ = (job.size, length job.piece_hashes) in
    let (ran, whole, added) =
      conclude_job_finished job sh shares shares' r
        (run_rounds job turns 5 0 (opened_job job file disk)) e in
    let (valid, same) =
      run_rounds-Kept job sh turns 5 0 (opened_job job file disk) r
        (opened_job-Kept job file disk fits) ran in
    let count : r.store.piece_count ≡ length job.piece_hashes = ap (λ x. x.1) same in
    (
      added,
      ap (λ x. x.0) same,
      λ i l.
          complete-StoreValid (hash_at job.piece_hashes) r.store valid.store whole i
            (omega (arith, l, count)),
    )
