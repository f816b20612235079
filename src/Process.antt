-- ===== src/Process.antt =====
-- A tracker as tracker/main.cpp runs it: the connections that it accepts, from clients and from the other
-- tracker, the link that connect_loop dials, SyncManager and the metadata. Each event is one message, or
-- the opening or the end of a connection, and its result has the messages for the link.
pub mod Validity
pub mod Nodes
pub mod Preserved
use peer_to_peer_distributed.Base.{
  ℕ, Bool, true, false, Option, none, some, List, [], ◌∷◌, ◌++◌, ◌==◌, if◌then◌else◌,
}
use peer_to_peer_distributed.Text.{Str, str_ne}
use peer_to_peer_distributed.Protocol.{MsgType, opcode}
use peer_to_peer_distributed.Session.{Session, connected}
use peer_to_peer_distributed.Session.Handlers.{disconnect}
use peer_to_peer_distributed.Session.Connections.{Connection, connection_at, set_connection}
use peer_to_peer_distributed.Sync.{Message}
use peer_to_peer_distributed.Sync.Links.{Links, stop}
use peer_to_peer_distributed.Sync.Link.{
  Node, process_peer_message, dialer_opens, acceptor_opens, link_drops,
}
use peer_to_peer_distributed.Sync.Cluster.{Request, serve}

-- `out` is the connection whose descriptor `__out_fd` is, if it is that of one.
pub record Process : Type 0 where
  pub index : ℕ
  pub out : Option ℕ
  pub node : Node
  pub connections : List Connection

pub data Event : Type 0 where
  accepted : Str → Event
  received : ℕ → Request → Event
  closed : ℕ → Event
  dialed : Event
  from_peer : ℕ → Str → Event
  link_lost : Event

abbrev with_node : Process → Node × List Message → Process × List Message
with_node p (n, out) = (record p { node = n }, out)

-- A request of a client, with what record_and_replicate sends.
unfoldable pub serve_request : ℕ → Request → Session → Process → Process × List Message
serve_request i q ses p =
    let (ses', n, out) = serve q ses p.node in
    (
      record p { node = n; connections = set_connection i (Connection.client ses') p.connections },
      out,
    )

-- A message on a connection; the first one says whether the other tracker is at the other end.
unfoldable pub receive_message : ℕ → Request → Connection → Process → Process × List Message
receive_message i q (Connection.fresh ip) p =
    if q.type == opcode MsgType.sync_hello
    then with_node
        (record p { out = some i; connections = set_connection i Connection.link p.connections })
        (acceptor_opens p.node)
    else serve_request i q (connected ip) p
receive_message i q (Connection.client ses) p = serve_request i q ses p
receive_message i q Connection.link p = with_node p (process_peer_message q.type q.payload p.node)
receive_message i q Connection.ended p = (p, [])

abbrev pub is_out : Option ℕ → ℕ → Bool
is_out none i = false
is_out (some j) i = j == i

unfoldable pub close_connection : ℕ → Connection → Process → Process
close_connection i (Connection.client ses) p = record p {
  node = record p.node { state = disconnect ses p.node.state };
  connections = set_connection i Connection.ended p.connections;
}
close_connection i Connection.link p =
    if is_out p.out i
    then record p {
      node = link_drops p.node;
      out = none;
      connections = set_connection i Connection.ended p.connections;
    }
    else record p { connections = set_connection i Connection.ended p.connections }
close_connection i c p = record p { connections = set_connection i Connection.ended p.connections }

unfoldable pub on_event : Event → Process → Process × List Message
on_event (accepted ip) p =
    (record p { connections = p.connections ++ Connection.fresh ip ∷ [] }, [])
on_event (received i q) p = receive_message i q (connection_at p.connections i) p
on_event (closed i) p = (close_connection i (connection_at p.connections i) p, [])
on_event dialed p = with_node (record p { out = none }) (dialer_opens p.index p.node)
on_event (from_peer type payload) p = with_node p (process_peer_message type payload p.node)
on_event link_lost p = (record p { node = link_drops p.node; out = none }, [])

unfoldable pub on_events : List Event → Process → Process × List Message
on_events [] p = (p, [])
on_events (e ∷ es) p =
    let (p', out) = on_event e p in let (p'', later) = on_events es p' in (p'', out ++ later)

-- The console: `quit` stops the replication and ends the process, which `some` says.
unfoldable pub console : List Str → Links → Option Links
console [] k = none
console (line ∷ lines) k =
    let rest = console lines k in
    if str_ne line (b'q' ∷ b'u' ∷ b'i' ∷ b't' ∷ []) then rest else some (stop k)
