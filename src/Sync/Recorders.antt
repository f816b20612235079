-- ===== src/Sync/Recorders.antt =====
-- The threads that call record_and_replicate. A thread holds the state's lock while its request changes
-- the metadata, __mu_lock while its op is numbered and logged, and __send_mu while the op is sent; between
-- them other threads move. The link stays up, or down, while they do.
pub mod Alone
pub mod Accounts
pub mod Overtaken
use peer_to_peer_distributed.Base.{
  ℕ, Bool, true, false, Option, none, some, List, [], ◌∷◌, ◌++◌, if◌then◌else◌, slot_at, set_at,
}
use peer_to_peer_distributed.Protocol.{opcode}
use peer_to_peer_distributed.Tracker.{TrackerState}
use peer_to_peer_distributed.Session.{Session, Served, Replicated}
use peer_to_peer_distributed.Session.Handlers.{dispatch}
use peer_to_peer_distributed.Sync.{Op, Sync, next_op, record_and_replicate}
use peer_to_peer_distributed.Sync.Link.{Node}
use peer_to_peer_distributed.Sync.Cluster.{Request}

-- A thread before its request is served, before its op is numbered, before the op is sent, and at the
-- end.
pub data Stage : Type 0 where
  asked : Session → Request → Stage
  recording : Replicated → ℕ → Stage
  sending : Op → Stage
  finished : Stage

-- A tracker, the ops that it has sent, and its threads.
pub record Site : Type 0 where
  pub node : Node
  pub sent : List Op
  pub threads : List Stage

abbrev pub stage_at : List Stage → ℕ → Stage
stage_at = slot_at finished

abbrev pub to_record : Option Replicated → ℕ → Stage
to_record none now = finished
to_record (some r) now = recording r now

-- What a thread does under one of the locks.
unfoldable pub advance_thread : ℕ → Stage → Site → Site
advance_thread i (asked ses q) v =
    let served = dispatch q.payload ses v.node.state q.type in
    record v {
      node = record v.node { state = served.state };
      threads = set_at i (to_record served.op q.now) v.threads;
    }
advance_thread i (recording r now) v =
    let y = v.node.sync in
    record v {
      node = record v.node { sync = (record_and_replicate (opcode r.type) r.payload now y).0 };
      threads =
          set_at i
            (if y.linked then sending (next_op (opcode r.type) r.payload now y) else finished)
            v.threads;
    }
advance_thread i (sending op) v = record v {
  sent = v.sent ++ op ∷ [];
  threads = set_at i finished v.threads;
}
advance_thread i finished v = v

-- The threads in the order in which they get the locks.
unfoldable pub run_threads : List ℕ → Site → Site
unfolding advance_thread
run_threads [] v = v
run_threads (i ∷ schedule) v = run_threads schedule (advance_thread i (stage_at v.threads i) v)
