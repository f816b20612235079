-- ===== src/Sync.antt =====
-- tracker/sync.hpp and tracker/sync.cpp: SyncManager, the replication between the two trackers.
-- The state is the fields that its two locks guard; a message that is written to the link is part of
-- a step's result, so a run of the link is a sequence of steps. The clock's reading is an argument.
pub mod Apply
pub mod Log
pub mod Link
pub mod Delivery
pub mod Cluster
pub mod Links
pub mod Recorders
use peer_to_peer_distributed.Base.{
  ℕ, zero, suc, ◌+◌, ◌%◌, ◌^◌, Bool, true, false, none, some, Option, List, [], ◌∷◌, ◌++◌, ltb, leb,
  if◌then◌else◌, map,
}
use peer_to_peer_distributed.Text.{Str}
use peer_to_peer_distributed.Protocol.{MsgType, opcode}
use peer_to_peer_distributed.Buffer.{
  Reader, ◌>>=◌, pure, get_u16, get_u64, get_str, str_bytes, u8_bytes, u16_bytes, u64_bytes,
}

pub record Op : Type 0 where
  pub seq : ℕ
  pub type : ℕ
  pub payload : Str
  pub ts : ℕ

-- `linked` is `__out_fd >= 0`.
pub record Sync : Type 0 where
  pub next_seq : ℕ
  pub applied_peer_seq : ℕ
  pub log : List Op
  pub linked : Bool

abbrev pub started : Sync
started = record { next_seq = 1; applied_peer_seq = 0; log = []; linked = false }

-- A message on the link; its status field is always 0.
pub record Message : Type 0 where
  pub type : MsgType
  pub payload : Str

-- send_op_locked
unfoldable pub op_bytes : Op → Str
op_bytes op = u64_bytes op.seq ++ (u16_bytes op.type ++ (u64_bytes op.ts ++ str_bytes op.payload))

abbrev pub op_message : Op → Message
op_message op = record { type = MsgType.sync_op; payload = op_bytes op }

unfoldable pub get_op : Reader Op
get_op = do
  seq ← get_u64
  type ← get_u16
  ts ← get_u64
  payload ← get_str
  pure (record { seq = seq; type = type; payload = payload; ts = ts })

-- The op that record_and_replicate makes.
abbrev pub next_op : ℕ → Str → ℕ → Sync → Op
next_op type payload now y = record { seq = y.next_seq; type = type; payload = payload; ts = now }

-- record_and_replicate: an op stays in the log while the link is down.
unfoldable pub record_and_replicate : ℕ → Str → ℕ → Sync → Sync × List Message
record_and_replicate type payload now y =
    let op = next_op type payload now y in
    (
      record y { next_seq = (y.next_seq + 1) % 2 ^ 64; log = y.log ++ op ∷ [] },
      if y.linked then op_message op ∷ [] else [],
    )

-- `while (!__log.empty() && __log.front().seq <= seq) __log.pop_front()`
unfoldable pub trim : ℕ → List Op → List Op
trim seq [] = []
trim seq (op ∷ log) = let rest = trim seq log in if leb op.seq seq then rest else op ∷ log

-- `for (const auto& op : __log) if (op.seq > after_seq) to_send.push_back(op)`
unfoldable pub newer : ℕ → List Op → List Op
newer after [] = []
newer after (op ∷ log) = let rest = newer after log in if ltb after op.seq then op ∷ rest else rest

unfoldable pub send_catchup_from : ℕ → Sync → List Message
unfolding newer
send_catchup_from after y = map op_message (newer after y.log)
