-- ===== src/Sync/Delivery.antt =====
-- Messages of the link, delivered in order: ops arrive as they were sent, and acknowledgements trim
-- the sender's log.
use peer_to_peer_distributed.Base.{
  ℕ, ◌+◌, ◌≤◌, ◌<◌, ◌^◌, arith, length, length-append, true, false, if_cases, if◌then◌else◌, ◌≡◌,
  ◌≢◌, refl, ◌∙◌, ap, some, List, [], ◌∷◌, ◌++◌, map, All, append-nil, append_assoc, Bool-cases,
  inl, inr, ltb,
}
use peer_to_peer_distributed.Text.{Str}
use peer_to_peer_distributed.Protocol.{MsgType, opcode, msg_type-opcode, max_payload}
use peer_to_peer_distributed.Buffer.{u64_bytes, u16_bytes, u32_bytes, str_bytes, le_bytes}
use peer_to_peer_distributed.Buffer.RoundTrip.{
  read_step, get_u16-u16_bytes, get_u64-u64_bytes, get_str-str_bytes, length-le_bytes,
}
use peer_to_peer_distributed.Sync.{
  Op, Message, op_bytes, op_message, get_op, newer, send_catchup_from,
}
use peer_to_peer_distributed.Sync.Log.{seqs, LogValid, trims, trims-newer}
use peer_to_peer_distributed.Sync.Link.{
  Node, ack, link_drops, on_op, on_ack, process, process_peer_message,
}

-- The payload of an op whose message, with 22 bytes more, recv_msg takes.
abbrev pub FitsLink : Str → Type 0
FitsLink payload = 22 + length payload ≤ max_payload

-- An op whose fields the message can hold, and whose message recv_msg takes.
pub record OpFits (op : Op) : Type 0 where
  pub seq : op.seq < 2 ^ 64
  pub type : op.type < 2 ^ 16
  pub ts : op.ts < 2 ^ 64
  pub payload : FitsLink op.payload

-- An op whose fields fit is read back from the bytes that send_op_locked writes, whatever follows them.
pub get_op-op_bytes :
    (op : Op) (rest : Str) → OpFits op → get_op (op_bytes op ++ rest) ≡ some (op, rest)
unfolding get_op op_bytes
get_op-op_bytes op rest f = simp append_assoc (
    read_step _ _ _ (get_u64-u64_bytes op.seq _ f.seq) (
      read_step _ _ _ (get_u16-u16_bytes op.type _ f.type) (
        read_step _ _ _ (get_u64-u64_bytes op.ts _ f.ts)
          (read_step _ _ _ (get_str-str_bytes op.payload rest (omega (arith, f.payload))) refl))))

length-op_bytes : (op : Op) → length (op_bytes op) ≡ 22 + length op.payload
unfolding op_bytes u64_bytes u16_bytes str_bytes u32_bytes
length-op_bytes op = omega (
  arith,
  length-append (le_bytes 8 op.seq)
      (le_bytes 2 op.type ++ (le_bytes 8 op.ts ++ (le_bytes 4 (length op.payload) ++ op.payload))),
  length-append (le_bytes 2 op.type)
      (le_bytes 8 op.ts ++ (le_bytes 4 (length op.payload) ++ op.payload)),
  length-append (le_bytes 8 op.ts) (le_bytes 4 (length op.payload) ++ op.payload),
  length-append (le_bytes 4 (length op.payload)) op.payload,
  length-le_bytes 8 op.seq,
  length-le_bytes 2 op.type,
  length-le_bytes 8 op.ts,
  length-le_bytes 4 (length op.payload),
)

-- The reading loop of either side, up to its end: recv_msg refuses a message above MAX_PAYLOAD, and
-- then nothing more is read and the link is dropped.
unfoldable pub deliver : List Message → Node → Node × List Message
deliver [] n = (n, [])
deliver (m ∷ ms) n =
    let (n', out) = process_peer_message (opcode m.type) m.payload n in
    let (n'', later) = deliver ms n' in
    if ltb max_payload (length m.payload) then (link_drops n, []) else (n'', out ++ later)

deliver-first :
    (m : Message) (ms : List Message) (n n' : Node) (out : List Message)
    → length m.payload ≤ max_payload
    → process_peer_message (opcode m.type) m.payload n ≡ (n', out)
    → deliver (m ∷ ms) n ≡ ((deliver ms n').0, out ++ (deliver ms n').1)
unfolding deliver
deliver-first m ms n n' out short e =
    if_cases {A = Node × List Message} (λ r. r ≡ ((deliver ms n').0, out ++ (deliver ms n').1))
      (ltb max_payload (length m.payload)) _ _ (λ k. absurd (long (length m.payload) short k))
      (λ _.
        ap {A = Node × List Message} {B = Node × List Message}
          (λ r. ((deliver ms r.0).0, r.1 ++ (deliver ms r.0).1)) e)
  where
    long : (k : ℕ) → k ≤ max_payload → ltb max_payload k ≡ true → ⊥
    long k h e = ground (arith, h, e)

-- A message that recv_msg refuses ends the loop.
deliver_refused :
    (m : Message) (ms : List Message) (n : Node)
    → max_payload < length m.payload
    → deliver (m ∷ ms) n ≡ (link_drops n, [])
unfolding deliver
deliver_refused m ms n long =
    if_cases {A = Node × List Message} (λ r. r ≡ (link_drops n, []))
      (ltb max_payload (length m.payload)) _ _ (λ _. refl)
      (λ k. absurd (short (length m.payload) long k))
  where
    short : (k : ℕ) → max_payload < k → ltb max_payload k ≡ false → ⊥
    short k h e = ground (arith, h, e)

process_message :
    (m : Message) (n : Node)
    → process_peer_message (opcode m.type) m.payload n ≡ process m.payload n m.type
unfolding process_peer_message
process_message m n = rw (msg_type-opcode m.type, process_peer_message)

-- An op that is sent arrives as it was.
pub process_op :
    (op : Op) (n : Node) → OpFits op → process (op_bytes op) n MsgType.sync_op ≡ on_op op n
unfolding process
process_op op n f = rw (rw append-nil at (get_op-op_bytes op [] f), process) refl

pub process_ack :
    (seq : ℕ) (n : Node)
    → seq < 2 ^ 64
    → process (u64_bytes seq) n MsgType.sync_ack ≡ (on_ack seq n, [])
unfolding process
process_ack seq n h = rw (rw append-nil at (get_u64-u64_bytes seq [] h), process) refl

-- Each op applied in turn.
unfoldable pub apply_ops : List Op → Node → Node
apply_ops [] n = n
apply_ops (op ∷ ops) n = apply_ops ops (on_op op n).0

length-u64_bytes : (k : ℕ) → length (u64_bytes k) ≡ 8
unfolding u64_bytes
length-u64_bytes k = length-le_bytes 8 k

-- Ops that fit the link, sent in order, are applied in order, and each is acknowledged.
pub deliver-ops :
    (ops : List Op) (n : Node)
    → All OpFits ops
    → deliver (map op_message ops) n ≡ (apply_ops ops n, map ack (seqs ops))
unfolding deliver apply_ops on_op
deliver-ops [] n f = refl
deliver-ops (op ∷ ops) n f =
    deliver-first (op_message op) (map op_message ops) n (on_op op n).0 (ack op.seq ∷ [])
      (omega (arith, length-op_bytes op, f.0.payload))
      (process_message (op_message op) n ∙ process_op op n f.0)
    ∙ ap {A = Node × List Message} {B = Node × List Message} (λ r. (r.0, ack op.seq ∷ r.1))
        (deliver-ops ops (on_op op n).0 f.1)

-- Ops behind one whose message is above MAX_PAYLOAD do not arrive: those before it are applied and
-- acknowledged, and the link is dropped.
deliver_blocked :
    (before after : List Op) (op : Op) (n : Node)
    → All OpFits before
    → max_payload < 22 + length op.payload
    → deliver (map op_message (before ++ op ∷ after)) n
      ≡ (link_drops (apply_ops before n), map ack (seqs before))
unfolding apply_ops on_op
deliver_blocked [] after op n f long =
    deliver_refused (op_message op) (map op_message after) n
      (omega (arith, long, length-op_bytes op))
deliver_blocked (x ∷ before) after op n f long =
    deliver-first (op_message x) (map op_message (before ++ op ∷ after)) n (on_op x n).0
      (ack x.seq ∷ []) (omega (arith, length-op_bytes x, f.0.payload))
      (process_message (op_message x) n ∙ process_op x n f.0)
    ∙ ap {A = Node × List Message} {B = Node × List Message} (λ r. (r.0, ack x.seq ∷ r.1))
        (deliver_blocked before after op (on_op x n).0 f.1 long)

abbrev pub with_log : List Op → Node → Node
with_log log n = record n { sync = record n.sync { log = log } }

-- Acknowledgements that arrive trim the log, and are answered by nothing.
pub deliver-acks :
    (ss : List ℕ) (n : Node)
    → All (λ s. s < 2 ^ 64) ss
    → deliver (map ack ss) n ≡ (with_log (trims ss n.sync.log) n, [])
unfolding deliver trims on_ack
deliver-acks [] n f = refl
deliver-acks (s ∷ ss) n f =
    deliver-first (ack s) (map ack ss) n (on_ack s n) [] (omega (arith, length-u64_bytes s))
      (process_message (ack s) n ∙ process_ack s n f.0)
    ∙ deliver-acks ss (on_ack s n) f.1

seqs_fit : (ops : List Op) → All OpFits ops → All (λ s. s < 2 ^ 64) (seqs ops)
seqs_fit [] f = tt
seqs_fit (op ∷ ops) f = (f.0.seq, seqs_fit ops f.1)

newer_fits : (k : ℕ) (ops : List Op) → All OpFits ops → All OpFits (newer k ops)
unfolding newer
newer_fits k [] f = tt
newer_fits k (op ∷ ops) f = elim (Bool-cases (ltb k op.seq)) [
  | inl e ↦ rw e (f.0, newer_fits k ops f.1)
  | inr e ↦ rw e (newer_fits k ops f.1)
]

process_catchup :
    (k : ℕ) (n : Node)
    → k < 2 ^ 64
    → process (u64_bytes k) n MsgType.sync_catchup ≡ (n, map op_message (newer k n.sync.log))
unfolding process send_catchup_from
process_catchup k n h = rw (rw append-nil at (get_u64-u64_bytes k [] h), process) refl

-- A catch-up request that carries the last number `k`, below 2 ^ 64, that the peer has applied,
-- to a tracker whose log is in order and holds ops whose fields fit and whose messages are not above MAX_PAYLOAD: if the log has ops
-- with a higher number, the answer is exactly those, in order; the peer applies them in that
-- order; and when its acknowledgements are back the whole log is empty.
pub catch_up :
    (k : ℕ) (a b : Node)
    → k < 2 ^ 64
    → LogValid a.sync
    → All OpFits a.sync.log
    → newer k a.sync.log ≢ []
    → let (a', sent) = process (u64_bytes k) a MsgType.sync_catchup in
      let (b', acks) = deliver sent b in
      (a' ≡ a) × (b' ≡ apply_ops (newer k a.sync.log) b) × (deliver acks a ≡ (with_log [] a, []))
catch_up k a b hk v f h =
    let fits = newer_fits k a.sync.log f in
    rw (process_catchup k a hk, deliver-ops (newer k a.sync.log) b fits)
      (
        refl,
        refl,
        deliver-acks (seqs (newer k a.sync.log)) a (seqs_fit (newer k a.sync.log) fits)
            ∙ ap {A = List Op} (λ log. (with_log log a, []))
                (trims-newer 0 k a.sync.log v.ascending h),
      )
