-- ===== src/TrackerClient.antt =====
-- client/tracker_client.hpp and client/tracker_client.cpp: a client's connection to one of the
-- trackers. Which trackers accept a connection, and what comes back for a message, are arguments; a
-- message that cannot be sent, or gets no reply, has none. Statuses are those that a tracker sends.
pub mod Ring
pub mod Login
pub mod Rounds
pub mod Failover
use peer_to_peer_distributed.Base.{
  ℕ, zero, suc, ◌+◌, ◌-◌, ◌%◌, Bool, true, false, not, ◌&&◌, Option, none, some, List, [], ◌∷◌,
  ◌++◌, if◌then◌else◌,
}
use peer_to_peer_distributed.Text.{Str}
use peer_to_peer_distributed.Protocol.{MsgType, Status}
use peer_to_peer_distributed.Buffer.{str_bytes, u16_bytes}

-- The endpoints are numbered, and `connected` is `fd_ >= 0`.
pub record TrackerClient : Type 0 where
  pub connected : Bool
  pub current : ℕ
  pub logged_in : Bool
  pub last_uid : Str
  pub last_pwd : Str
  pub last_port : ℕ

-- A message, and the tracker that it is sent to.
pub record Sent : Type 0 where
  pub tracker : ℕ
  pub type : MsgType
  pub payload : Str

-- What one round of the loop meets: the trackers that accept, the reply to the replayed login and the
-- reply to the request.
pub record Weather : Type 0 where
  pub accepts : ℕ → Bool
  pub login_reply : Option Status
  pub reply : Option (Status × Str)

-- `for (i = 0; i < n; i++) { idx = (base + i) % n; … }`, with `left` of the `n` endpoints to go
unfoldable pub first_up : (ℕ → Bool) → ℕ → ℕ → ℕ → Option ℕ
first_up accepts base n zero = none
first_up accepts base n (suc left) =
    let idx = (base + (n - suc left)) % n in
    let later = first_up accepts base n left in if accepts idx then some idx else later

abbrev pub hang_up : TrackerClient → TrackerClient
hang_up c = record c { connected = false }

abbrev pub disconnect : TrackerClient → TrackerClient
disconnect c = hang_up c

abbrev pub connect_to : ℕ → TrackerClient → TrackerClient
connect_to idx c = record c { connected = true; current = idx }

unfoldable pub connect_any : ℕ → (ℕ → Bool) → TrackerClient → Bool × TrackerClient
connect_any n accepts c = elim (first_up accepts c.current n n) [
  | none ↦ (false, hang_up c)
  | some idx ↦ (true, connect_to idx (hang_up c))
]

abbrev pub note_login : Str → Str → ℕ → TrackerClient → TrackerClient
note_login uid pwd port c = record c {
  last_uid = uid;
  last_pwd = pwd;
  last_port = port;
  logged_in = true;
}

abbrev pub clear_login : TrackerClient → TrackerClient
clear_login c = record c { logged_in = false }

-- How a round of the loop ends: `return false`, `continue`, or `return true`.
pub data Attempted : Type 0 where
  unreachable : Attempted
  dropped : TrackerClient → List Sent → Attempted
  answered : TrackerClient → List Sent → Status × Str → Attempted

abbrev pub is_login : MsgType → Bool
is_login MsgType.login = true
is_login _ = false

abbrev pub login_message : TrackerClient → Sent
login_message c = record {
  tracker = c.current;
  type = MsgType.login;
  payload = str_bytes c.last_uid ++ (str_bytes c.last_pwd ++ u16_bytes c.last_port);
}

-- The client after the call, the reply if the call returns true, and all that was sent.
pub record Requested : Type 0 where
  pub client : TrackerClient
  pub reply : Option (Status × Str)
  pub sent : List Sent

abbrev pub last_attempt : TrackerClient → List Sent → Attempted → Requested
last_attempt c sent Attempted.unreachable = record { client = c; reply = none; sent = sent }
last_attempt c sent (Attempted.dropped c' more) = record {
  client = c';
  reply = none;
  sent = sent ++ more;
}
last_attempt c sent (Attempted.answered c' more reply) = record {
  client = c';
  reply = some reply;
  sent = sent ++ more;
}

module _ (type : MsgType) (payload : Str) where
  abbrev pub request_message : TrackerClient → Sent
  request_message c = record { tracker = c.current; type = type; payload = payload }

  -- The end of the round: the request itself, after what was sent in it before.
  abbrev pub exchange : TrackerClient → List Sent → Option (Status × Str) → Attempted
  exchange c sent none = Attempted.dropped (hang_up c) (sent ++ request_message c ∷ [])
  exchange c sent (some reply) = Attempted.answered c (sent ++ request_message c ∷ []) reply

  -- The login is replayed; a refusal of it is only reported.
  abbrev pub replay_login : TrackerClient → Weather → Option Status → Attempted
  replay_login c w none = Attempted.dropped (hang_up c) (login_message c ∷ [])
  replay_login c w (some status) = exchange c (login_message c ∷ []) w.reply

  -- The round on a connection that it opened.
  unfoldable pub on_fresh : Weather → TrackerClient → Attempted
  on_fresh w c =
      if c.logged_in && not (is_login type)
      then replay_login c w w.login_reply
      else exchange c [] w.reply

  -- The endpoint after the current one comes first.
  unfoldable pub attempt : ℕ → Weather → TrackerClient → Attempted
  attempt n w c =
      if c.connected then exchange c [] w.reply else elim (first_up w.accepts (c.current + 1) n n) [
        | none ↦ Attempted.unreachable
        | some idx ↦ on_fresh w (connect_to idx c)
      ]

  abbrev pub first_attempt : ℕ → Weather → TrackerClient → Attempted → Requested
  first_attempt n second c (Attempted.dropped c' sent) = last_attempt c' sent (attempt n second c')
  first_attempt n second c ended = last_attempt c [] ended

  -- request: two rounds, over `n` endpoints.
  unfoldable pub request : ℕ → Weather → Weather → TrackerClient → Requested
  request n first second c = first_attempt n second c (attempt n first c)
