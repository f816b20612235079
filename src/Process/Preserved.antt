-- ===== src/Process/Preserved.antt =====
-- A valid tracker and its events.
use peer_to_peer_distributed.Base.{ℕ, ◌+◌, List, [], ◌∷◌, arith, All, length, ◌==◌, if_cases}
use peer_to_peer_distributed.Protocol.{MsgType, opcode}
use peer_to_peer_distributed.Session.{Session, connected}
use peer_to_peer_distributed.Session.Handlers.{dispatch, disconnect}
use peer_to_peer_distributed.Session.Connections.{Connection, connection_at}
use peer_to_peer_distributed.Session.Connections.Validity.{dispatch-IsValid, disconnect-IsValid}
use peer_to_peer_distributed.Sync.{Message}
use peer_to_peer_distributed.Sync.Cluster.{Request, serve}
use peer_to_peer_distributed.Process.{
  Process, Event, is_out, serve_request, receive_message, close_connection, on_event, on_events,
}
use peer_to_peer_distributed.Process.Validity.{NodeValid, IsHonest}
use peer_to_peer_distributed.Process.Nodes.{
  less, with_state, replicate-NodeValid, process_peer_message-NodeValid, dialer_opens-NodeValid,
  acceptor_opens-NodeValid, link_drops-NodeValid,
}

-- A message on the link whose payload is a snapshot is one that a tracker has written.
abbrev pub EventHonest : Event → Type 0
EventHonest (Event.received i q) = IsHonest q.type q.payload
EventHonest (Event.from_peer type payload) = IsHonest type payload
EventHonest _ = Unit {0}

module _ (room : ℕ) (p : Process) (v : NodeValid (room + 1) p.node) where
  abbrev After : Process × List Message → Type 0
  After r = NodeValid room r.0.node

  serve_request-NodeValid : (i : ℕ) (q : Request) (ses : Session) → After (serve_request i q ses p)
  unfolding serve_request serve
  serve_request-NodeValid i q ses =
      replicate-NodeValid room p.node v q.now (dispatch q.payload ses p.node.state q.type)
        (dispatch-IsValid q.payload ses p.node.state v.state q.type)

  receive_message-NodeValid :
      (i : ℕ) (q : Request) (c : Connection)
      → IsHonest q.type q.payload
      → After (receive_message i q c p)
  unfolding receive_message
  receive_message-NodeValid i q (Connection.fresh ip) h =
      if_cases {A = Process × List Message} After (q.type == opcode MsgType.sync_hello) _ _
        (λ _. acceptor_opens-NodeValid room p.node v)
        (λ _. serve_request-NodeValid i q (connected ip))
  receive_message-NodeValid i q (Connection.client ses) h = serve_request-NodeValid i q ses
  receive_message-NodeValid i q Connection.link h =
      process_peer_message-NodeValid room p.node v q.payload q.type h
  receive_message-NodeValid i q Connection.ended h = less room p.node v

  close_connection-NodeValid :
      (i : ℕ) (c : Connection) → NodeValid room (close_connection i c p).node
  unfolding close_connection
  close_connection-NodeValid i (Connection.client ses) =
      with_state room p.node v (disconnect ses p.node.state)
        (disconnect-IsValid ses p.node.state v.state)
  close_connection-NodeValid i Connection.link =
      if_cases {A = Process} (λ x. NodeValid room x.node) (is_out p.out i) _ _
        (λ _. link_drops-NodeValid room p.node v) (λ _. less room p.node v)
  close_connection-NodeValid i (Connection.fresh ip) = less room p.node v
  close_connection-NodeValid i Connection.ended = less room p.node v

  on_event-NodeValid : (e : Event) → EventHonest e → After (on_event e p)
  unfolding on_event
  on_event-NodeValid (Event.accepted ip) h = less room p.node v
  on_event-NodeValid (Event.received i q) h =
      receive_message-NodeValid i q (connection_at p.connections i) h
  on_event-NodeValid (Event.closed i) h =
      close_connection-NodeValid i (connection_at p.connections i)
  on_event-NodeValid Event.dialed h = dialer_opens-NodeValid room p.node v p.index
  on_event-NodeValid (Event.from_peer type payload) h =
      process_peer_message-NodeValid room p.node v payload type h
  on_event-NodeValid Event.link_lost h = link_drops-NodeValid room p.node v

-- However the messages of clients and of the other tracker interleave, whatever they hold and whenever
-- connections open and end: the metadata stays well-formed and the op log in order, if each snapshot that
-- arrives is one that a tracker has written of well-formed metadata, and the counter of ops has room for
-- one an event.
pub on_events-NodeValid :
    (es : List Event) (p : Process)
    → All EventHonest es
    → NodeValid (length es) p.node
    → NodeValid 0 (on_events es p).0.node
unfolding on_events
on_events-NodeValid [] p h v = v
on_events-NodeValid (e ∷ es) p h v = on_events-NodeValid es (on_event e p).0 h.1 (
    on_event-NodeValid (length es) p
      (record { state = v.state; log = v.log; counter = omega (arith, v.counter) }) e h.0)
