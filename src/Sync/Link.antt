-- ===== src/Sync/Link.antt =====
-- SyncManager::process_peer_message, and the messages that open the link on either side.
use peer_to_peer_distributed.Base.{
  ℕ, Bool, true, false, none, some, List, [], ◌∷◌, ltb, if◌then◌else◌,
}
use peer_to_peer_distributed.Text.{Str}
use peer_to_peer_distributed.Protocol.{MsgType, msg_type}
use peer_to_peer_distributed.Buffer.{get_u64, u8_bytes, u64_bytes}
use peer_to_peer_distributed.Tracker.{TrackerState}
use peer_to_peer_distributed.Tracker.Users.{empty}
use peer_to_peer_distributed.Tracker.Snapshot.{snapshot, restore}
use peer_to_peer_distributed.Sync.{Op, Sync, Message, get_op, trim, send_catchup_from}
use peer_to_peer_distributed.Sync.Apply.{apply_remote}

-- One tracker: the replication state and the metadata.
pub record Node : Type 0 where
  pub sync : Sync
  pub state : TrackerState

-- `if (ok && op.seq > __applied_peer_seq) __applied_peer_seq = op.seq`
abbrev pub advance : Bool → ℕ → Sync → Sync
advance false seq y = y
advance true seq y = record y {
  applied_peer_seq = if ltb y.applied_peer_seq seq then seq else y.applied_peer_seq;
}

abbrev pub ack : ℕ → Message
ack seq = record { type = MsgType.sync_ack; payload = u64_bytes seq }

-- The op is applied, and acknowledged whether or not it was.
unfoldable pub on_op : Op → Node → Node × List Message
on_op op n =
    let (applied, s') = apply_remote op.type op.payload n.state in
    (record { sync = advance applied op.seq n.sync; state = s' }, ack op.seq ∷ [])

unfoldable pub on_ack : ℕ → Node → Node
on_ack seq n = record n { sync = record n.sync { log = trim seq n.sync.log } }

module _ (payload : Str) (n : Node) where
  unfoldable pub process : MsgType → Node × List Message
  process MsgType.sync_catchup = elim (get_u64 payload) [
    | none ↦ (n, [])
    | some (after, rest) ↦ (n, send_catchup_from after n.sync)
  ]
  process MsgType.sync_op = elim (get_op payload) [ none ↦ (n, []) | some (op, rest) ↦ on_op op n ]
  process MsgType.sync_ack = elim (get_u64 payload) [
    | none ↦ (n, [])
    | some (seq, rest) ↦ (on_ack seq n, [])
  ]
  process MsgType.sync_snapshot_request =
      (n, record { type = MsgType.sync_snapshot_data; payload = snapshot n.state } ∷ [])
  process MsgType.sync_snapshot_data = (record n { state = (restore payload n.state).1 }, [])
  process _ = (n, [])

-- process_peer_message
unfoldable pub process_peer_message : ℕ → Str → Node → Node × List Message
unfolding process
process_peer_message type payload n = elim (msg_type type) [
  | none ↦ (n, [])
  | some t ↦ process payload n t
]

abbrev pub snapshot_request : Message
snapshot_request = record { type = MsgType.sync_snapshot_request; payload = [] }

-- connect_loop, once the connection is made: the dialer says hello and asks to be brought up to date.
unfoldable pub dialer_opens : ℕ → Node → Node × List Message
dialer_opens self_index n = (
  record n { sync = record n.sync { linked = true } },
  record { type = MsgType.sync_hello; payload = u8_bytes self_index }
      ∷ (if empty n.state
          then snapshot_request
          else record { type = MsgType.sync_catchup; payload = u64_bytes n.sync.applied_peer_seq })
      ∷ [],
)

-- handle_peer_connection, before its loop: the acceptor asks for a snapshot if it has nothing.
unfoldable pub acceptor_opens : Node → Node × List Message
acceptor_opens n = (
  record n { sync = record n.sync { linked = true } },
  if empty n.state then snapshot_request ∷ [] else [],
)

-- The end of either loop.
unfoldable pub link_drops : Node → Node
link_drops n = record n { sync = record n.sync { linked = false } }
