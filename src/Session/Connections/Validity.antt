-- ===== src/Session/Connections/Validity.antt =====
-- The tracker's state under the requests of all connections.
use peer_to_peer_distributed.Base.{
  ℕ, ◌≡◌, sym, subst, inl, inr, Option-cases, List, [], ◌∷◌, ◌==◌, if_cases,
}
use peer_to_peer_distributed.Text.{Str, is_empty}
use peer_to_peer_distributed.Protocol.{MsgType, Status, opcode, msg_type}
use peer_to_peer_distributed.Messages.{get_login}
use peer_to_peer_distributed.Tracker.{TrackerState, Outcome}
use peer_to_peer_distributed.Tracker.Calls
use peer_to_peer_distributed.Tracker.Calls.{perform}
use peer_to_peer_distributed.Tracker.Validity.{IsValid}
use peer_to_peer_distributed.Tracker.Validity.Preserved.{perform-IsValid}
use peer_to_peer_distributed.Session.{Session, Served, connected, conclude}
use peer_to_peer_distributed.Session.Handlers.{
  handle, dispatch, disconnect, on_login, on_logout, after_login,
}
use peer_to_peer_distributed.Session.Handlers.Cases.{shared_case}
use peer_to_peer_distributed.Session.Connections.{
  Connection, Server, Event, connection_at, receive, close, serve_event, serve_events,
}

abbrev pub Good : Served → Type 0
Good served = IsValid served.state

module _ (payload : Str) (ses : Session) (s : TrackerState) (v : IsValid s) where
  after_login-IsValid :
      (uid : Str) (port : ℕ) (out : Outcome)
      → IsValid out.1
      → Good (after_login payload ses s uid port out)
  unfolding after_login
  after_login-IsValid uid port (Status.ok, s') h = h
  after_login-IsValid uid port (_, s') h = h

  on_login-IsValid : Good (on_login payload ses s)
  unfolding on_login perform
  on_login-IsValid = elim (Option-cases (get_login payload)) [
    | inl e ↦ rw (e, on_login) v
    | inr (((uid, pwd, port), rest), e) ↦
        rw (e, on_login)
          (after_login-IsValid uid port _
            (perform-IsValid (Calls.login uid pwd ses.peer_ip port) s v))
  ]

  on_logout-IsValid : Good (on_logout payload ses s)
  unfolding on_logout perform
  on_logout-IsValid =
      if_cases Good (is_empty ses.user) _ _ (λ _. v)
        (λ _. perform-IsValid (Calls.logout ses.user) s v)

  conclude-IsValid :
      (c : Calls.Call) (t : MsgType) (p : Str) → Good (conclude ses (perform c s) t p)
  conclude-IsValid c t p = perform-IsValid c s v

  quiet-IsValid : (served : Served) → served.state ≡ s → Good served
  quiet-IsValid served e = subst IsValid (sym e) v

  handle-IsValid : (t : MsgType) → Good (handle payload ses s t)
  unfolding handle
  handle-IsValid MsgType.login = on_login-IsValid
  handle-IsValid MsgType.logout = on_logout-IsValid
  handle-IsValid t =
      shared_case payload ses s Good (λ c _. conclude-IsValid c)
        (λ served e. quiet-IsValid served e.0) t tt

  pub dispatch-IsValid : (type : ℕ) → Good (dispatch payload ses s type)
  unfolding dispatch
  dispatch-IsValid type = elim (Option-cases (msg_type type)) [
    | inl e ↦ rw (e, dispatch) v
    | inr (t, e) ↦ rw (e, dispatch) (handle-IsValid t)
  ]

pub disconnect-IsValid : (ses : Session) (s : TrackerState) → IsValid s → IsValid (disconnect ses s)
unfolding disconnect perform
disconnect-IsValid ses s v =
    if_cases IsValid (is_empty ses.user) _ _ (λ _. v)
      (λ _. perform-IsValid (Calls.logout ses.user) s v)

receive-IsValid :
    (i type : ℕ) (payload : Str) (c : Connection) (v : Server)
    → IsValid v.state
    → IsValid (receive i type payload c v).state
unfolding receive
receive-IsValid i type payload (Connection.fresh ip) v h =
    if_cases {A = Server} (λ x. IsValid x.state) (type == opcode MsgType.sync_hello) _ _ (λ _. h)
      (λ _. dispatch-IsValid payload (connected ip) v.state h type)
receive-IsValid i type payload (Connection.client ses) v h =
    dispatch-IsValid payload ses v.state h type
receive-IsValid i type payload Connection.link v h = h
receive-IsValid i type payload Connection.ended v h = h

close-IsValid :
    (i : ℕ) (c : Connection) (v : Server) → IsValid v.state → IsValid (close i c v).state
unfolding close
close-IsValid i (Connection.client ses) v h = disconnect-IsValid ses v.state h
close-IsValid i (Connection.fresh ip) v h = h
close-IsValid i Connection.link v h = h
close-IsValid i Connection.ended v h = h

serve_event-IsValid : (e : Event) (v : Server) → IsValid v.state → IsValid (serve_event e v).state
unfolding serve_event
serve_event-IsValid (Event.accepted ip) v h = h
serve_event-IsValid (Event.received i type payload) v h =
    receive-IsValid i type payload (connection_at v.connections i) v h
serve_event-IsValid (Event.closed i) v h = close-IsValid i (connection_at v.connections i) v h

-- However the messages of any number of connections interleave, whatever they hold and whenever the
-- connections end, the tracker's state stays well-formed.
pub serve_events-IsValid :
    (es : List Event) (v : Server) → IsValid v.state → IsValid (serve_events es v).state
unfolding serve_events
serve_events-IsValid [] v h = h
serve_events-IsValid (e ∷ es) v h =
    serve_events-IsValid es (serve_event e v) (serve_event-IsValid e v h)
