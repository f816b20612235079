-- ===== src/Sync/Cluster.antt =====
-- The two trackers together: requests that a client makes at one, and the messages that follow.
pub mod Silence
pub mod Agreement
pub mod Losses
pub mod Exchange
pub mod Together
use peer_to_peer_distributed.Base.{ℕ, none, some, List, []}
use peer_to_peer_distributed.Text.{Str}
use peer_to_peer_distributed.Protocol.{Status, MsgType, opcode}
use peer_to_peer_distributed.Session.{Session, Served}
use peer_to_peer_distributed.Session.Handlers.{dispatch}
use peer_to_peer_distributed.Sync.{Sync, Message, record_and_replicate}
use peer_to_peer_distributed.Sync.Link.{Node}

-- A request at a tracker: the handler, and record_and_replicate where the handler calls it.
pub record Request : Type 0 where
  pub type : ℕ
  pub payload : Str
  pub now : ℕ

unfoldable pub replicate : ℕ → Served → Node → Node × List Message
replicate now served n = elim served.op [
  | none ↦ (record n { state = served.state }, [])
  | some r ↦
      let (y, out) = record_and_replicate (opcode r.type) r.payload now n.sync in
      (record { sync = y; state = served.state }, out)
]

unfoldable pub serve : Request → Session → Node → Session × Node × List Message
serve q ses n =
    let served = dispatch q.payload ses n.state q.type in
    let (n', out) = replicate q.now served n in (served.session, n', out)
