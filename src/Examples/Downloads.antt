-- ===== src/Examples/Downloads.antt =====
-- A download of a file of one piece, on concrete data.
use peer_to_peer_distributed.Base.{
  ℕ, ◌+◌, ◌<◌, ◌≤◌, ◌≡◌, refl, ◌==◌, true, false, none, some, List, [], ◌∷◌, arith, length,
  Ordering,
}
use peer_to_peer_distributed.Text.{Str, str_ord, compare_str}
use peer_to_peer_distributed.Protocol.{max_payload}
use peer_to_peer_distributed.Net.{Answer}
use peer_to_peer_distributed.Sha1.{hash_buffer, transform}
use peer_to_peer_distributed.Tracker.{FileMeta}
use peer_to_peer_distributed.Tracker.Snapshot.RoundTrip.{PeerFits, FileFits}
use peer_to_peer_distributed.Examples.{alice, bob, club, movie}
use peer_to_peer_distributed.PieceStore.{
  PieceStore, Contents, open_for_download, open_for_seed, write_piece, piece_len, has_piece,
}
use peer_to_peer_distributed.PieceStore.Verified.{StoreValid, open_for_download-StoreValid, piece}
use peer_to_peer_distributed.PieceStore.Resume.{
  Disk, hash_at, resume_scan, resume_scan-StoreValid, mark_valid, is_valid,
}
use peer_to_peer_distributed.Seeder.{add_share, on_piece_request}
use peer_to_peer_distributed.Seeder.Keys.{ShareKey, share_ord}
use peer_to_peer_distributed.Seeder.Fetch.{piece_request}
use peer_to_peer_distributed.Seeder.Bounds.{HasPieces, on_piece_request-length}
use peer_to_peer_distributed.Download.Workers.{Attempt, Round, run_workers, move, attempt_piece}
use peer_to_peer_distributed.Download.Workers.Accounted.{Accounted}
use peer_to_peer_distributed.Download.Workers.Account.{run_workers-Accounted}
use peer_to_peer_distributed.Download.Workers.Bound.{moves_made, work_left, moves_made-work_left}
use peer_to_peer_distributed.Download.Job.{
  DownloadJob, Turn, Outcome, start_round, opened_job, run_job, all_retired, missing,
}
use peer_to_peer_distributed.Download.Job.Start.{start_round-Accounted}
use peer_to_peer_distributed.Download.Job.Complete.{JobFits, opened_job-Kept, run_job_finished}
use peer_to_peer_distributed.Download.Job.Staffed.{NoFailure}
use peer_to_peer_distributed.Download.Job.Success.{run_job_succeeds}

abbrev three_bytes : Str
three_bytes = 1 ∷ 2 ∷ 3 ∷ []

abbrev hashes : List Str
hashes = hash_buffer three_bytes ∷ []

abbrev job : DownloadJob
job = record {
  group = club;
  file = 109 ∷ [];
  size = 3;
  file_hash = [];
  piece_hashes = hashes;
  peers = record { user_id = bob; ip = 49 ∷ []; port = 8 } ∷ [];
  user_id = alice;
}

-- Nothing is on the disk yet.
abbrev empty_disk : Disk
empty_disk = record { written = λ i. false; reads = λ i. [] }

abbrev zeros : Contents
zeros i = 0

abbrev good : Attempt
good = record {
  fetched = some three_bytes;
  writes = Answer.moved 2 ∷ Answer.moved 1 ∷ [];
  now = 2000;
}

-- The worker takes the piece, fetches and writes it, announces it, and finds the queue empty.
abbrev turns : ℕ → Turn
turns round = record {
  answer = none;
  connects = λ k. k == 7;
  schedule = (0, good) ∷ (0, good) ∷ (0, good) ∷ (0, good) ∷ [];
  now = 3000;
}

job-JobFits : JobFits job
job-JobFits = (omega arith, omega arith, omega arith, omega arith)

abbrev begun : Round
begun = start_round job.peers (turns 0).connects (opened_job job zeros empty_disk)

no_failure : NoFailure (hash_at hashes) (turns 0).schedule begun
unfolding attempt_piece write_piece compare_str hash_buffer transform resume_scan move missing
    has_piece is_valid mark_valid
no_failure = (tt, (refl, (tt, (tt, tt))))

all_ended : all_retired (run_workers (hash_at hashes) (turns 0).schedule begun).workers ≡ true
unfolding run_workers attempt_piece write_piece compare_str hash_buffer transform resume_scan move
    missing has_piece is_valid mark_valid
all_ended = refl

finished_job :
    (r : Round) × (run_job job (some zeros) empty_disk turns []
      ≡ Outcome.finished (add_share (record { group = club; file = 109 ∷ [] }) r.store []) r)
finished_job =
    run_job_succeeds job turns [] zeros empty_disk 7 job-JobFits (omega arith) refl no_failure
      all_ended

run_job_finished_example :
    (add_share (record { group = club; file = 109 ∷ [] }) finished_job.0.store []
      ≡ add_share (record { group = club; file = 109 ∷ [] }) finished_job.0.store [])
    × (finished_job.0.store.size ≡ 3)
    × ((i : ℕ) → i < 1 → hash_buffer (piece finished_job.0.store i) ≡ hash_at hashes i)
run_job_finished_example =
    run_job_finished job zeros empty_disk turns [] _ finished_job.0 job-JobFits finished_job.1

begun-Accounted : Accounted (hash_at hashes) begun
begun-Accounted =
    start_round-Accounted (hash_at hashes) job.peers (turns 0).connects
      (opened_job job zeros empty_disk) (opened_job-Kept job zeros empty_disk job-JobFits).0

run_workers-Accounted_example :
    Accounted (hash_at hashes) (run_workers (hash_at hashes) (turns 0).schedule begun)
run_workers-Accounted_example =
    run_workers-Accounted (hash_at hashes) (turns 0).schedule begun begun-Accounted

moves_made-work_left_example :
    moves_made (hash_at hashes) (turns 0).schedule begun
      + work_left (run_workers (hash_at hashes) (turns 0).schedule begun)
    ≤ work_left begun
moves_made-work_left_example =
    moves_made-work_left (hash_at hashes) (turns 0).schedule begun begun-Accounted.patient

-- The scan of a file with nothing in it.
resume_scan-StoreValid_example :
    StoreValid (hash_at hashes) (resume_scan empty_disk hashes (open_for_download zeros 3 1))
resume_scan-StoreValid_example =
    resume_scan-StoreValid empty_disk hashes (open_for_download zeros 3 1) (
      open_for_download-StoreValid (hash_at hashes) zeros 3 1 (omega arith) (omega arith)
        (omega arith) (omega arith))

abbrev shared : PieceStore
shared = open_for_seed (λ i. i + 1) 3 1

abbrev movie_key : ShareKey
movie_key = record { group = club; file = 109 ∷ [] }

abbrev reads : List Answer
reads = Answer.moved 2 ∷ Answer.moved 1 ∷ []

shared-HasPieces : HasPieces shared
unfolding piece_len
shared-HasPieces i h = ground (arith, h)

on_piece_request-length_example :
    length (on_piece_request reads ((movie_key, shared) ∷ []) (piece_request movie_key 0)).payload
    ≤ max_payload
on_piece_request-length_example =
    on_piece_request-length reads ((movie_key, shared) ∷ []) (piece_request movie_key 0)
      (shared-HasPieces, tt)

abbrev pub seeded : FileMeta
seeded = record movie {
  seeders =
      (alice, record { user_id = alice; ip = 49 ∷ []; port = 7; bitfield = 128 ∷ [] })
      ∷ (bob, record { user_id = bob; ip = 50 ∷ []; port = 8; bitfield = [] })
      ∷ [];
}

sorted : compare_str alice bob ≡ Ordering.lt
unfolding compare_str
sorted = refl

alice_peer : PeerFits (record { user_id = alice; ip = 49 ∷ []; port = 7; bitfield = 128 ∷ [] })
alice_peer = record {
  user_id = omega arith;
  ip = omega arith;
  port = omega arith;
  bitfield = omega arith;
}

bob_peer : PeerFits (record { user_id = bob; ip = 50 ∷ []; port = 8; bitfield = [] })
bob_peer = record {
  user_id = omega arith;
  ip = omega arith;
  port = omega arith;
  bitfield = omega arith;
}

pub seeded-FileFits : FileFits seeded
seeded-FileFits = record {
  name = omega arith;
  size = omega arith;
  file_hash = omega arith;
  pieces = omega arith;
  piece_hashes = tt;
  seeders = (((sorted, tt), (tt, tt)), omega arith, ((refl, alice_peer), ((refl, bob_peer), tt)));
}
