-- ===== src/Examples/Trackers.antt =====
-- The two trackers side by side, the threads of one, its link, and a tracker with all its connections.
use peer_to_peer_distributed.Base.{
  ℕ, zero, suc, ◌≡◌, refl, subst, true, false, some, none, List, [], ◌∷◌, ◌++◌, ◌⊎◌, inl, inr,
  arith, ◌==◌,
}
use peer_to_peer_distributed.Text.{Str, compare_str}
use peer_to_peer_distributed.Protocol.{MsgType, msg_type, opcode}
use peer_to_peer_distributed.Examples.{alice, bob, alice_session, sender, receiver, two_ops}
use peer_to_peer_distributed.Examples.Replicas.{two_ops-LogValid, creation}
use peer_to_peer_distributed.Buffer.{str_bytes}
use peer_to_peer_distributed.Tracker.{initial}
use peer_to_peer_distributed.Tracker.Validity.{initial-IsValid}
use peer_to_peer_distributed.Tracker.Snapshot.{snapshot}
use peer_to_peer_distributed.Tracker.Snapshot.RoundTrip.{StateFits}
use peer_to_peer_distributed.Session.{Replicated}
use peer_to_peer_distributed.Sync.{Op, started, op_message, record_and_replicate}
use peer_to_peer_distributed.Sync.Link.{on_op}
use peer_to_peer_distributed.Sync.Delivery.{OpFits, deliver, with_log}
use peer_to_peer_distributed.Sync.Cluster.{Request}
use peer_to_peer_distributed.Sync.Cluster.Together.{Visit}
use peer_to_peer_distributed.Sync.Recorders.{
  recording, sending, Site, stage_at, advance_thread, run_threads,
}
use peer_to_peer_distributed.Sync.Recorders.Accounts.{Has, AllFinished, finished_sent}
use peer_to_peer_distributed.Sync.Recorders.Overtaken.{op_of, logged, overtaken_op_is_trimmed}
use peer_to_peer_distributed.Sync.Links.{
  Links, Dialer, Sockets, stop, run_dialer, accept_link, drop_link,
}
use peer_to_peer_distributed.Sync.Links.Stopping.{stop_ends}
use peer_to_peer_distributed.Process.{Process, Event, on_events, console}
use peer_to_peer_distributed.Process.Validity.{NodeValid, IsHonest}
use peer_to_peer_distributed.Process.Preserved.{on_events-NodeValid}

-- A group is made at the first tracker, and listed at the second.
abbrev at_first : Visit
at_first = record { first = true; request = creation; session = alice_session }

abbrev listed : Request
listed = record { type = opcode MsgType.list_groups; payload = []; now = 4 }

abbrev at_second : Visit
at_second = record { first = false; request = listed; session = alice_session }

-- Two threads that have an op to record.
abbrev made : Replicated
made = record { type = MsgType.create_group; payload = alice }

abbrev joined : Replicated
joined = record { type = MsgType.join_group; payload = bob }

abbrev pair : Site
pair = record { node = sender; sent = []; threads = recording made 3 ∷ recording joined 4 ∷ [] }

abbrev joined_op : Op
joined_op = op_of joined 4 (logged made 3 two_ops)

abbrev turns : List ℕ
turns = 0 ∷ 1 ∷ 1 ∷ 0 ∷ []

both_finished : AllFinished (run_threads turns pair)
unfolding run_threads advance_thread record_and_replicate
both_finished zero = refl
both_finished (suc zero) = refl
both_finished (suc (suc i)) = refl

joined_logged : Has joined_op (run_threads turns pair).node.sync.log
unfolding run_threads advance_thread record_and_replicate
joined_logged = inr (inr (inr (inl refl)))

finished_sent_example : Has joined_op sender.sync.log ⊎ Has joined_op (run_threads turns pair).sent
finished_sent_example = finished_sent turns pair joined_op refl both_finished joined_logged

joined_op-OpFits : OpFits joined_op
unfolding record_and_replicate opcode
joined_op-OpFits = record {
  seq = omega arith;
  type = omega arith;
  ts = omega arith;
  payload = omega arith;
}

overtaken_op_is_trimmed_example :
    let w = run_threads (0 ∷ 1 ∷ 1 ∷ []) pair in
    let (b', acks) = deliver (op_message joined_op ∷ []) receiver in
    (w.sent ≡ joined_op ∷ [])
    × (stage_at w.threads 0 ≡ sending (op_of made 3 two_ops))
    × (b' ≡ (on_op joined_op receiver).0)
    × (deliver acks w.node ≡ (with_log [] w.node, []))
overtaken_op_is_trimmed_example =
    overtaken_op_is_trimmed 0 1 made joined 3 4 pair receiver refl refl refl refl two_ops-LogValid
      (omega arith) joined_op-OpFits

abbrev one_link : Links
one_link = record { out_fd = some 5; running = true; closed = []; shut = [] }

-- tcp_connect fails, and recv_msg ends on the descriptor 5 only.
abbrev five_ends : Sockets
five_ends = record { connects = none; ends = λ fd. fd == 5 }

stop_ends_example :
    (run_dialer (five_ends ∷ five_ends ∷ []) (Dialer.reading 5, stop one_link)).0 ≡ Dialer.returned
unfolding stop
stop_ends_example =
    stop_ends (Dialer.reading 5) one_link five_ends five_ends refl
      λ fd h. elim h [ inl e ↦ subst (λ x. (x == 5) ≡ true) e refl | inr k ↦ elim k [ ] ]

-- The second link is closed once, the first one twice.
closed_test : (drop_link 7 (drop_link 5 (accept_link 7 one_link))).closed ≡ 5 ∷ 5 ∷ 7 ∷ []
unfolding drop_link accept_link
closed_test = refl

-- "quit" after another line shuts the link down.
console_test :
    console ((b'q' ∷ []) ∷ (b'q' ∷ b'u' ∷ b'i' ∷ b't' ∷ []) ∷ []) one_link
    ≡ some (record { out_fd = some 5; running = false; closed = []; shut = 5 ∷ [] })
unfolding console stop compare_str
console_test = refl

-- A tracker that starts, accepts the other tracker and a client, and gets a snapshot.
abbrev begun : Process
begun = record {
  index = 1;
  out = none;
  node = record { sync = started; state = initial };
  connections = [];
}

abbrev day : List Event
day =
    Event.accepted (49 ∷ [])
    ∷ Event.accepted (50 ∷ [])
    ∷ Event.received 0 (record { type = 0x0404; payload = 0 ∷ []; now = 1 })
    ∷ Event.received 0 (record { type = 0x0406; payload = snapshot initial; now = 2 })
    ∷ Event.received 1
        (record { type = 0x0101; payload = str_bytes alice ++ str_bytes bob; now = 3 })
    ∷ Event.closed 0
    ∷ []

initial-StateFits : StateFits initial
initial-StateFits = record { users = (tt, omega arith, tt); groups = (tt, omega arith, tt) }

hello-IsHonest : (payload : Str) → IsHonest 0x0404 payload
unfolding msg_type
hello-IsHonest payload e = cc

create_user-IsHonest : (payload : Str) → IsHonest 0x0101 payload
unfolding msg_type
create_user-IsHonest payload e = cc

on_events-NodeValid_example : NodeValid 0 (on_events day begun).0.node
on_events-NodeValid_example =
    on_events-NodeValid day begun
      (
        tt,
        (
          tt,
          (
            hello-IsHonest (0 ∷ []),
            (
              λ e. (initial, initial-IsValid, initial-StateFits, refl),
              (create_user-IsHonest (str_bytes alice ++ str_bytes bob), (tt, tt)),
            ),
          ),
        ),
      )
      (record {
        state = initial-IsValid;
        log = record { ascending = tt; below = tt; positive = omega arith };
        counter = omega arith;
      })
