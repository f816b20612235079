-- ===== src/Examples/Failovers.antt =====
-- A client whose tracker has gone away, on concrete data.
use peer_to_peer_distributed.Base.{
  ◌≡◌, refl, ◌⊎◌, ◌==◌, true, none, some, List, [], ◌∷◌, ◌++◌, arith, is_some,
}
use peer_to_peer_distributed.Protocol.{MsgType, Status}
use peer_to_peer_distributed.Examples.{alice, club}
use peer_to_peer_distributed.TrackerClient.{
  TrackerClient, Sent, Weather, first_up, login_message, request_message, on_fresh, attempt,
  request,
}
use peer_to_peer_distributed.TrackerClient.Failover.{request_replays_login, request_answered}

abbrev client : TrackerClient
client = record {
  connected = true;
  current = 0;
  logged_in = true;
  last_uid = alice;
  last_pwd = 49 ∷ [];
  last_port = 7;
}

-- The connection breaks, and then the other tracker replies.
abbrev broken : Weather
broken = record { accepts = λ k. k == 1; login_reply = none; reply = none }

abbrev calm : Weather
calm = record {
  accepts = λ k. k == 1;
  login_reply = some Status.ok;
  reply = some (Status.already_exists, []);
}

request_answered_example :
    is_some (request MsgType.join_group club 2 broken calm client).reply ≡ true
request_answered_example =
    request_answered MsgType.join_group club 2 1 1 broken calm client Status.ok
      (Status.already_exists, []) (omega arith) refl (omega arith) refl refl refl

replied :
    (request MsgType.join_group club 2 broken calm client).reply ≡ some (Status.already_exists, [])
unfolding request attempt on_fresh first_up
replied = refl

request_replays_login_example :
    ((client.connected ≡ true)
      × ((request MsgType.join_group club 2 broken calm client).sent
          ≡ request_message MsgType.join_group club client ∷ []))
    ⊎ ((before : List Sent) × ((request MsgType.join_group club 2 broken calm client).sent
          ≡ before
            ++ login_message (request MsgType.join_group club 2 broken calm client).client
              ∷ request_message MsgType.join_group club
                  (request MsgType.join_group club 2 broken calm client).client
              ∷ []))
request_replays_login_example =
    request_replays_login MsgType.join_group club 2 broken calm client (Status.already_exists, [])
      refl refl replied

-- The request of the first round may have been served: it is sent again to the other tracker.
sent_twice :
    (request MsgType.join_group club 2 broken calm client).sent
    ≡ record { tracker = 0; type = MsgType.join_group; payload = club }
      ∷ login_message (record client { current = 1 })
      ∷ record { tracker = 1; type = MsgType.join_group; payload = club }
      ∷ []
unfolding request attempt on_fresh first_up
sent_twice = refl
