-- ===== src/Download/Workers.antt =====
-- DownloadManager::peer_worker: the workers of a round share a queue of missing pieces and the store.
-- A worker takes a piece under the queue's lock, fetches and writes it, and gives it back when that
-- fails. A schedule says which worker moves next, and what its fetch and its writes come to; a write
-- is one step, since pieces are disjoint in the file. A worker whose peer cannot be reached is retired
-- from the start.
pub mod Places
pub mod Attempts
pub mod Accounted
pub mod Account
pub mod Bound
pub mod Shape
use peer_to_peer_distributed.Base.{
  ℕ, zero, suc, ◌+◌, ◌-◌, Bool, ◌||◌, true, false, Option, none, some, List, [], ◌∷◌, ltb, leb,
  if◌then◌else◌,
}
use peer_to_peer_distributed.Text.{Str}
use peer_to_peer_distributed.Net.{Answer, Progress}
use peer_to_peer_distributed.PieceStore.{PieceStore, write_piece}

abbrev pub max_consecutive_failures : ℕ
max_consecutive_failures = 3

abbrev announce_every_pieces : ℕ
announce_every_pieces = 32

abbrev announce_interval : ℕ
announce_interval = 1000

-- Where a worker stands, with its count of consecutive failures: before it takes a piece, with a piece
-- that it has taken, with a piece on the disk that it may announce, and after its loop.
pub data Worker : Type 0 where
  idle : ℕ → Worker
  holding : ℕ → ℕ → Worker
  announcing : Worker
  retired : Worker

-- `pieces_since_announce` and `last_announce`
pub record Batch : Type 0 where
  pub pieces : ℕ
  pub last : ℕ

-- The vector `__queue` from its back, the piece that is taken next first; the store; the announcements
-- to the tracker that wait, and the bitmaps that were announced, the last one first.
pub record Round : Type 0 where
  pub queue : List ℕ
  pub store : PieceStore
  pub batch : Batch
  pub announced : List Str
  pub workers : List Worker

-- What a fetch and the writes after it come to: the bytes that were fetched, if any; and the clock, in
-- milliseconds.
pub record Attempt : Type 0 where
  pub fetched : Option Str
  pub writes : List Answer
  pub now : ℕ

abbrev pub worker_at : List Worker → ℕ → Worker
worker_at [] i = retired
worker_at (w ∷ ws) zero = w
worker_at (w ∷ ws) (suc i) = worker_at ws i

abbrev pub set_worker : ℕ → Worker → List Worker → List Worker
set_worker i w [] = []
set_worker zero w (v ∷ ws) = w ∷ ws
set_worker (suc i) w (v ∷ ws) = v ∷ set_worker i w ws

-- `if (__queue.empty()) break; index = __queue.back(); __queue.pop_back();`
abbrev pub take_piece : ℕ → ℕ → List ℕ → Round → Round
take_piece w failures [] r = record r { workers = set_worker w retired r.workers }
take_piece w failures (index ∷ queue) r = record r {
  queue = queue;
  workers = set_worker w (holding failures index) r.workers;
}

-- `fetch_piece(…) && write_piece(…)`: the result, and the store after it.
abbrev pub write_fetched : Str → List Answer → ℕ → PieceStore → Option Str → Progress × PieceStore
write_fetched hash writes index store none = (Progress.broken, store)
write_fetched hash writes index store (some bytes) = write_piece writes index bytes hash store

unfoldable pub attempt_piece : (ℕ → Str) → ℕ → Attempt → PieceStore → Progress × PieceStore
attempt_piece hashes index a store = write_fetched (hashes index) a.writes index store a.fetched

-- `if (++consecutive_failures >= maxConsecutiveFailures) break; continue;`
abbrev pub after_failure : ℕ → Worker
after_failure failures =
    if ltb (failures + 1) max_consecutive_failures then idle (failures + 1) else retired

abbrev pub end_attempt : ℕ → ℕ → ℕ → Progress × PieceStore → Round → Round
end_attempt w failures index (Progress.done, store) r = record r {
  store = store;
  workers = set_worker w announcing r.workers;
}
end_attempt w failures index (_, store) r = record r {
  queue = index ∷ r.queue;
  store = store;
  workers = set_worker w (after_failure failures) r.workers;
}

-- What announce puts in its message is the bitmap of the store.
abbrev pub announce : ℕ → Round → Round
announce now r = record r {
  batch = record { pieces = 0; last = now };
  announced = r.store.have ∷ r.announced;
}

-- `pieces_since_announce >= kAnnounceEveryPieces || now() - last_announce >= kAnnounceInterval`
abbrev pub is_due : ℕ → Batch → Bool
is_due now b = leb announce_every_pieces b.pieces || leb announce_interval (now - b.last)

abbrev pub maybe_announce : ℕ → Round → Round
maybe_announce now r =
    let b = record r.batch { pieces = r.batch.pieces + 1 } in
    if is_due now b then announce now r else record r { batch = b }

-- What the worker at `w` does next.
unfoldable pub move : (ℕ → Str) → ℕ → Attempt → Worker → Round → Round
move hashes w a (idle failures) r = take_piece w failures r.queue r
move hashes w a (holding failures index) r =
    end_attempt w failures index (attempt_piece hashes index a r.store) r
move hashes w a announcing r =
    maybe_announce a.now (record r { workers = set_worker w (idle 0) r.workers })
move hashes w a retired r = r

unfoldable pub run_workers : (ℕ → Str) → List (ℕ × Attempt) → Round → Round
run_workers hashes [] r = r
run_workers hashes ((w, a) ∷ schedule) r =
    run_workers hashes schedule (move hashes w a (worker_at r.workers w) r)
