-- ===== src/Session.antt =====
-- tracker/session.hpp and tracker/session.cpp: one client's connection. `dispatch` is a function of
-- the request, the session and the tracker's state; what it replies and what it hands to
-- SyncManager::record_and_replicate are parts of its result.
pub mod Handlers
pub mod Connections
use peer_to_peer_distributed.Base.{ℕ, Option, none, some, [], ◌==◌, if◌then◌else◌}
use peer_to_peer_distributed.Text.{Str, is_empty}
use peer_to_peer_distributed.Protocol.{Status, MsgType}
use peer_to_peer_distributed.Tracker.{TrackerState, Outcome}

-- `user` is empty until a login succeeds.
pub record Session : Type 0 where
  pub peer_ip : Str
  pub user : Str
  pub seed_port : ℕ

-- The arguments of record_and_replicate.
pub record Replicated : Type 0 where
  pub type : MsgType
  pub payload : Str

pub record Served : Type 0 where
  pub session : Session
  pub state : TrackerState
  pub status : Status
  pub body : Str
  pub op : Option Replicated

abbrev pub connected : Str → Session
connected ip = record { peer_ip = ip; user = []; seed_port = 0 }

-- `reply(status, body)`, with nothing written.
abbrev pub answer : Status → Str → Session → TrackerState → Served
answer st body ses s = record { session = ses; state = s; status = st; body = body; op = none }

-- `if (s == ST_OK) record_and_replicate(type, payload); reply(s)`
abbrev pub replicate_ok : Status → Replicated → Option Replicated
replicate_ok Status.ok op = some op
replicate_ok _ op = none

abbrev pub conclude : Session → Outcome → MsgType → Str → Served
conclude ses (st, s) type payload = record {
  session = ses;
  state = s;
  status = st;
  body = [];
  op = replicate_ok st (record { type = type; payload = payload });
}

-- `if (user_.empty()) { reply(ST_NOT_LOGGED_IN); return; }`
abbrev pub logged_in : Session → TrackerState → Served → Served
logged_in ses s served = if is_empty ses.user then answer Status.not_logged_in [] ses s else served
