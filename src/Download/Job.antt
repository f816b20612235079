-- ===== src/Download/Job.antt =====
-- DownloadManager::run_job: the rounds of a download, from the scan of what is on the disk to the file
-- that is shared. What opening the file gives, what the disk holds, and what the tracker, the peers and
-- the threads do in each round are arguments.
pub mod Start
pub mod Complete
pub mod Staffed
pub mod Success
use Prim.Native.Nat.{max}
use peer_to_peer_distributed.Base.{
  ℕ, zero, suc, ◌+◌, ◌*◌, ◌/◌, ◌%◌, ◌^◌, Bool, true, false, Option, none, some, List, [], ◌∷◌, ◌++◌,
  length, if◌then◌else◌,
}
use peer_to_peer_distributed.Text.{Str}
use peer_to_peer_distributed.Protocol.{Status}
use peer_to_peer_distributed.Buffer.{str_bytes, u32_bytes}
use peer_to_peer_distributed.PieceStore.{
  Contents, PieceStore, open_for_download, has_piece, complete,
}
use peer_to_peer_distributed.PieceStore.Resume.{Disk, hash_at, resume_scan}
use peer_to_peer_distributed.Seeder.{Shares, add_share}
use peer_to_peer_distributed.Seeder.Keys.{ShareKey}
use peer_to_peer_distributed.Download.Peers.{PeerAddr, decode_peer_list}
use peer_to_peer_distributed.Download.Workers.{Worker, Round, Batch, Attempt, announce, run_workers}

abbrev pub target_connections : ℕ
target_connections = 8

abbrev pub max_rounds : ℕ
max_rounds = 5

-- The fields that describe a job. Its store, its flags and what its threads share are in Round and
-- Outcome.
pub record DownloadJob : Type 0 where
  pub group : Str
  pub file : Str
  pub size : ℕ
  pub file_hash : Str
  pub piece_hashes : List Str
  pub peers : List PeerAddr
  pub user_id : Str

-- The payload of announce's MSG_HAVE_PIECES
abbrev pub announcement : DownloadJob → Str → Str
announcement job bits =
    str_bytes job.group ++ (str_bytes job.file ++ (u32_bytes (length bits) ++ bits))

-- `for (i = 0; i < pc; ++i) if (!have(i)) __queue.push_back(i);`, from its back
unfoldable pub missing : ℕ → PieceStore → List ℕ
missing zero s = []
missing (suc n) s = let rest = missing n s in if has_piece s n then rest else n ∷ rest

-- `max(1, kTargetConnections / peers.size())`; the list is never empty here.
abbrev pub conns_per_peer : List PeerAddr → ℕ
conns_per_peer peers = max 1 (target_connections / length peers)

-- One worker for each connection to each peer; those whose connection failed have ended.
abbrev pub start_workers : (ℕ → Bool) → ℕ → List Worker
start_workers connects zero = []
start_workers connects (suc n) =
    (if connects n then Worker.idle 0 else Worker.retired) ∷ start_workers connects n

abbrev pub all_retired : List Worker → Bool
all_retired [] = true
all_retired (Worker.retired ∷ ws) = all_retired ws
all_retired (_ ∷ ws) = false

-- What happens in a round: the tracker's answer about the file, if it was reached, the connections that
-- succeed, the moves of the workers, and the clock at its end.
pub record Turn : Type 0 where
  pub answer : Option (Status × Str)
  pub connects : ℕ → Bool
  pub schedule : List (ℕ × Attempt)
  pub now : ℕ

abbrev pub fresh_peers : DownloadJob → Option (Status × Str) → List PeerAddr
fresh_peers job (some (Status.ok, resp)) = (decode_peer_list resp job.user_id []).1
fresh_peers job _ = []

-- The peers of a round: those that the job began with, and later those that the tracker names.
abbrev pub round_peers : DownloadJob → ℕ → Turn → List PeerAddr
round_peers job zero turn = job.peers
round_peers job (suc n) turn = fresh_peers job turn.answer

abbrev pub start_round : List PeerAddr → (ℕ → Bool) → Round → Round
start_round peers connects r = record r {
  queue = missing r.store.piece_count r.store;
  workers = start_workers connects (length peers * conns_per_peer peers);
}

-- The workers are joined and the last pieces announced; `none` while a worker still runs.
abbrev pub finish_round : ℕ → Round → Option Round
finish_round now r = if all_retired r.workers then some (announce now r) else none

-- `if (peers.empty()) continue;`, which the first round does not have: it divides by the number of
-- peers, so a job without any does not get past it.
abbrev pub no_peers : ℕ → Round → Option Round
no_peers zero r = none
no_peers (suc round) r = some r

unfoldable pub run_round : DownloadJob → ℕ → List PeerAddr → Turn → Round → Option Round
run_round job round [] turn r = no_peers round r
run_round job round (peer ∷ peers) turn r = finish_round turn.now (
    run_workers (hash_at job.piece_hashes) turn.schedule
      (start_round (peer ∷ peers) turn.connects r))

-- The rounds from `round` on, `left` of them at most.
unfoldable pub run_rounds : DownloadJob → (ℕ → Turn) → ℕ → ℕ → Round → Option Round
run_rounds job turns zero round r = some r
run_rounds job turns (suc left) round r =
    let next = run_round job round (round_peers job round (turns round)) (turns round) r in
    let later = λ (r' : Round). run_rounds job turns left (round + 1) r' in
    if complete r.store then some r else elim next [ none ↦ none | some r' ↦ later r' ]

-- The flags of the job, the seeder's files, and the job's store and messages.
pub data Outcome : Type 0 where
  failed : Shares → Outcome
  running : Outcome
  finished : Shares → Round → Outcome

abbrev pub conclude_job : DownloadJob → Shares → Option Round → Outcome
conclude_job job shares none = Outcome.running
conclude_job job shares (some r) =
    if complete r.store
    then Outcome.finished (add_share (record { group = job.group; file = job.file }) r.store shares)
        r
    else Outcome.failed shares

-- open_for_download and resume_scan, before the first round
abbrev pub opened_job : DownloadJob → Contents → Disk → Round
opened_job job file disk = record {
  queue = [];
  store =
      resume_scan disk job.piece_hashes
        (open_for_download file job.size (length job.piece_hashes % 2 ^ 32));
  batch = record { pieces = 0; last = 0 };
  announced = [];
  workers = [];
}

unfoldable pub run_job : DownloadJob → Option Contents → Disk → (ℕ → Turn) → Shares → Outcome
run_job job none disk turns shares = Outcome.failed shares
run_job job (some file) disk turns shares =
    conclude_job job shares (run_rounds job turns max_rounds 0 (opened_job job file disk))
