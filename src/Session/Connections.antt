-- ===== src/Session/Connections.antt =====
-- The connections of a tracker: the loop of tracker/main.cpp that accepts them, Session::handle_one and
-- Session::run. A thread serves each connection; a request makes one call of the tracker's state, under
-- its lock, so the threads interleave whole requests. Replies and replicated ops are in Served; what the
-- link does is in Sync.
pub mod Validity
use peer_to_peer_distributed.Base.{
  ℕ, zero, suc, ◌≡◌, refl, inl, inr, Option, none, some, Option-cases, Bool-cases, List, [], ◌∷◌,
  ◌++◌, ◌==◌, if_cases, if◌then◌else◌,
}
use peer_to_peer_distributed.Text.{Str, is_empty}
use peer_to_peer_distributed.Protocol.{MsgType, Status, opcode, msg_type}
use peer_to_peer_distributed.Buffer.{get_str}
use peer_to_peer_distributed.Messages.{get_login}
use peer_to_peer_distributed.Tracker.{TrackerState, Outcome, initial}
use peer_to_peer_distributed.Tracker.Calls
use peer_to_peer_distributed.Tracker.Calls.{perform}
use peer_to_peer_distributed.Tracker.Validity.{IsValid}
use peer_to_peer_distributed.Tracker.Validity.Preserved.{perform-IsValid, run-IsValid}
use peer_to_peer_distributed.Session.{Session, Served, connected, conclude, logged_in}
use peer_to_peer_distributed.Session.Handlers.{
  handle, dispatch, disconnect, on_login, on_logout, after_login,
}
use peer_to_peer_distributed.Session.Handlers.Cases.{shared_case}

-- A connection whose first message has not come, one with a client, the link with the other tracker,
-- and one that has ended.
pub data Connection : Type 0 where
  fresh : Str → Connection
  client : Session → Connection
  link : Connection
  ended : Connection

pub record Server : Type 0 where
  pub state : TrackerState
  pub connections : List Connection

abbrev pub connection_at : List Connection → ℕ → Connection
connection_at [] i = ended
connection_at (c ∷ cs) zero = c
connection_at (c ∷ cs) (suc i) = connection_at cs i

abbrev pub set_connection : ℕ → Connection → List Connection → List Connection
set_connection i c [] = []
set_connection zero c (d ∷ cs) = c ∷ cs
set_connection (suc i) c (d ∷ cs) = d ∷ set_connection i c cs

-- What happens at the sockets.
pub data Event : Type 0 where
  accepted : Str → Event
  received : ℕ → ℕ → Str → Event
  closed : ℕ → Event

abbrev pub serve_client : ℕ → ℕ → Str → Session → Server → Server
serve_client i type payload ses v =
    let served = dispatch payload ses v.state type in
    record {
      state = served.state;
      connections = set_connection i (client served.session) v.connections;
    }

-- A message: the first one says whether the other tracker is at the other end.
unfoldable pub receive : ℕ → ℕ → Str → Connection → Server → Server
receive i type payload (fresh ip) v =
    if type == opcode MsgType.sync_hello
    then record v { connections = set_connection i link v.connections }
    else serve_client i type payload (connected ip) v
receive i type payload (client ses) v = serve_client i type payload ses v
receive i type payload link v = v
receive i type payload ended v = v

-- The end of a connection: Session::run logs its user out.
unfoldable pub close : ℕ → Connection → Server → Server
close i (client ses) v = record {
  state = disconnect ses v.state;
  connections = set_connection i ended v.connections;
}
close i c v = record v { connections = set_connection i ended v.connections }

unfoldable pub serve_event : Event → Server → Server
serve_event (accepted ip) v = record v { connections = v.connections ++ fresh ip ∷ [] }
serve_event (received i type payload) v = receive i type payload (connection_at v.connections i) v
serve_event (closed i) v = close i (connection_at v.connections i) v

unfoldable pub serve_events : List Event → Server → Server
serve_events [] v = v
serve_events (e ∷ es) v = serve_events es (serve_event e v)
