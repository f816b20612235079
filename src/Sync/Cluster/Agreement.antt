-- ===== src/Sync/Cluster/Agreement.antt =====
-- While the link is up and one tracker serves the requests, the two have the same metadata.
use peer_to_peer_distributed.Base.{
  ℕ, ◌<◌, ◌^◌, ◌≡◌, sym, ◌∙◌, ap, inl, inr, true, Bool, some, List, [], ◌∷◌, length, Option-cases,
}
use peer_to_peer_distributed.Text.{Str}
use peer_to_peer_distributed.Protocol.{MsgType, msg_type, opcode, opcode-lt}
use peer_to_peer_distributed.Tracker.{TrackerState}
use peer_to_peer_distributed.Session.{Session, Served, Replicated}
use peer_to_peer_distributed.Session.Handlers.{dispatch}
use peer_to_peer_distributed.Session.Handlers.Replay.{Replays}
use peer_to_peer_distributed.Session.Handlers.FileReplay.{SessionFits}
use peer_to_peer_distributed.Session.Handlers.Replication.{IsExact, dispatch-Replays}
use peer_to_peer_distributed.Sync.{Op, Sync, Message, next_op, op_message, record_and_replicate}
use peer_to_peer_distributed.Sync.Apply.{apply_remote}
use peer_to_peer_distributed.Sync.Link.{Node, on_op}
use peer_to_peer_distributed.Sync.Delivery.{FitsLink, OpFits, deliver, deliver-ops, apply_ops}
use peer_to_peer_distributed.Sync.Cluster.{Request, replicate, serve}
use peer_to_peer_distributed.Session.Handlers.Cases.{IsShared}
use peer_to_peer_distributed.Sync.Cluster.Silence.{Silent, dispatch-Silent}

-- A request that is not a login or a logout, and whose op the link can carry.
pub record IsCarried (q : Request) (ses : Session) (a : Node) : Type 0 where
  pub short : length q.payload < 2 ^ 32
  pub session : SessionFits ses
  pub exact : (t : MsgType) → msg_type q.type ≡ some t → IsExact t q.payload
  pub shared : (t : MsgType) → msg_type q.type ≡ some t → IsShared t
  pub now : q.now < 2 ^ 64
  pub payload :
      (r : Replicated) → (dispatch q.payload ses a.state q.type).op ≡ some r → FitsLink r.payload

-- While the link is up the op goes out at once.
pub sent_op :
    (type : ℕ) (payload : Str) (now : ℕ) (y : Sync)
    → y.linked ≡ true
    → (record_and_replicate type payload now y).1 ≡ op_message (next_op type payload now y) ∷ []
unfolding record_and_replicate
sent_op type payload now y up = rw up

delivered_op :
    (op : Op) (b : Node)
    → OpFits op
    → (deliver (op_message op ∷ []) b).0.state ≡ (apply_remote op.type op.payload b.state).1
unfolding apply_ops on_op
delivered_op op b f =
    ap {A = Node × List Message} (λ r. r.0.state) (deliver-ops (op ∷ []) b (f, tt))

replicate_agrees :
    (now : ℕ) (served : Served) (a b : Node)
    → now < 2 ^ 64
    → a.sync.linked ≡ true
    → a.sync.next_seq < 2 ^ 64
    → a.state ≡ b.state
    → ((r : Replicated) → served.op ≡ some r → FitsLink r.payload)
    → Silent a.state served
    → Replays a.state served
    → (replicate now served a).0.state ≡ (deliver (replicate now served a).1 b).0.state
unfolding replicate deliver
replicate_agrees now served a b hn up hs same fits silent replays = elim (Option-cases served.op) [
  | inl e ↦ rw (e, replicate) (silent e ∙ same)
  | inr (r, e) ↦
      let op = next_op (opcode r.type) r.payload now a.sync in
      let applied : apply_remote (opcode r.type) r.payload a.state ≡ (true, served.state) =
        (rw (e, Replays) at replays) in
      let arrives =
        delivered_op op b
          (record { seq = hs; type = opcode-lt r.type; ts = hn; payload = fits r e }) in
      rw (e, replicate)
        (rw (sent_op (opcode r.type) r.payload now a.sync up) (
          sym (ap {A = Bool × TrackerState} (λ x. x.1) applied)
          ∙ ap (λ t. (apply_remote (opcode r.type) r.payload t).1) same
          ∙ sym arrives))
]

-- One tracker serves a request that is no login or logout and whose payload, session and op the
-- link can carry; the link is up, its next number is below 2 ^ 64, and the two had the same
-- metadata: once the messages that it sent are delivered, the two have the same metadata again.
pub serve-agrees :
    (q : Request) (ses : Session) (a b : Node)
    → IsCarried q ses a
    → a.sync.linked ≡ true
    → a.sync.next_seq < 2 ^ 64
    → a.state ≡ b.state
    → let (ses', a', sent) = serve q ses a in a'.state ≡ (deliver sent b).0.state
unfolding serve
serve-agrees q ses a b c up hs same =
    replicate_agrees q.now (dispatch q.payload ses a.state q.type) a b c.now up hs same c.payload
      (dispatch-Silent q.payload ses a.state q.type c.shared)
      (dispatch-Replays q.payload ses a.state c.short c.session q.type c.exact)
