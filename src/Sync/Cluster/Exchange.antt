-- ===== src/Sync/Cluster/Exchange.antt =====
-- The messages of one request on their way to the other tracker, and its acknowledgements on their way back.
use peer_to_peer_distributed.Base.{
  ℕ, ◌+◌, ◌^◌, ◌<◌, ◌≡◌, refl, sym, ◌∙◌, ap, subst, inl, inr, true, false, Bool, none, some, List,
  [], ◌∷◌, arith, Option-cases, if◌then◌else◌,
}
use peer_to_peer_distributed.Protocol.{opcode, opcode-lt}
use peer_to_peer_distributed.Tracker.{TrackerState}
use peer_to_peer_distributed.Session.{Served, Replicated}
use peer_to_peer_distributed.Session.Handlers.Replay.{Replays}
use peer_to_peer_distributed.Sync.{Op, Message, next_op, op_message, record_and_replicate}
use peer_to_peer_distributed.Sync.Apply.{apply_remote}
use peer_to_peer_distributed.Sync.Log.{trims}
use peer_to_peer_distributed.Sync.Link.{Node, advance, on_op, link_drops}
use peer_to_peer_distributed.Sync.Delivery.{
  FitsLink, OpFits, deliver, deliver-ops, deliver-acks, apply_ops, with_log,
}
use peer_to_peer_distributed.Sync.Cluster.{replicate}
use peer_to_peer_distributed.Sync.Cluster.Agreement.{sent_op}

-- The tracker that serves a request, and the other one.
pub record Pair : Type 0 where
  pub here : Node
  pub there : Node

-- The loop of a side whose peer has dropped the link ends too.
abbrev pub with_peer : Node → Node → Pair
with_peer a b = record { here = if b.sync.linked then a else link_drops a; there = b }

linked_peer : (a b : Node) → b.sync.linked ≡ true → with_peer a b ≡ record { here = a; there = b }
linked_peer a b up = ap (λ k. record { here = if k then a else link_drops a; there = b }) up

on_op-linked : (op : Op) (n : Node) → (on_op op n).0.sync.linked ≡ n.sync.linked
unfolding on_op
on_op-linked op n = kept (apply_remote op.type op.payload n.state).0
  where
    kept : (k : Bool) → (advance k op.seq n.sync).linked ≡ n.sync.linked
    kept true = refl
    kept false = refl

-- The messages go over the link, and the acknowledgements come back.
unfoldable pub cross_link : Node → List Message → Node → Pair
cross_link a out b = let (b', acks) = deliver out b in with_peer (deliver acks a).0 b'

abbrev pub swap : Pair → Pair
swap w = record { here = w.there; there = w.here }

-- Both trackers have the metadata `s`, the link is up, and there is room for `room` numbers.
pub record InStep (s : TrackerState) (room : ℕ) (w : Pair) : Type 0 where
  pub here : w.here.state ≡ s
  pub there : w.there.state ≡ s
  pub here_up : w.here.sync.linked ≡ true
  pub there_up : w.there.sync.linked ≡ true
  pub here_room : w.here.sync.next_seq + room < 2 ^ 64
  pub there_room : w.there.sync.next_seq + room < 2 ^ 64

pub swapped : (s : TrackerState) (room : ℕ) (w : Pair) → InStep s room w → InStep s room (swap w)
swapped s room w i = record {
  here = i.there;
  there = i.here;
  here_up = i.there_up;
  there_up = i.here_up;
  here_room = i.there_room;
  there_room = i.here_room;
}

-- What one request changes, once it is delivered.
module _ (now : ℕ) (served : Served) (w : Pair) (s : TrackerState) (room : ℕ) (early : now < 2 ^ 64)
    (i : InStep s (room + 1) w) where
  abbrev a : Node
  a = w.here

  abbrev b : Node
  b = w.there

  quiet :
      served.state ≡ s
      → InStep served.state room (cross_link (record a { state = served.state }) [] b)
  unfolding cross_link deliver
  quiet e = subst (InStep served.state room) (sym (linked_peer _ b i.there_up)) (record {
    here = refl;
    there = i.there ∙ sym e;
    here_up = i.here_up;
    there_up = i.there_up;
    here_room = omega (arith, i.here_room);
    there_room = omega (arith, i.there_room);
  })

  abbrev sent : Replicated → Op
  sent r = next_op (opcode r.type) r.payload now a.sync

  abbrev recorded : Replicated → Node
  recorded r = record {
    sync = (record_and_replicate (opcode r.type) r.payload now a.sync).0;
    state = served.state;
  }

  delivered :
      (r : Replicated)
      → OpFits (sent r)
      → cross_link (recorded r) (op_message (sent r) ∷ []) b ≡ record {
        here = with_log (trims ((sent r).seq ∷ []) (recorded r).sync.log) (recorded r);
        there = (on_op (sent r) b).0;
      }
  unfolding cross_link apply_ops
  delivered r fits =
      ap {A = Node × List Message} (λ x. with_peer (deliver x.1 (recorded r)).0 x.0)
        (deliver-ops (sent r ∷ []) b (fits, tt))
      ∙ ap {A = Node × List Message} (λ x. with_peer x.0 (on_op (sent r) b).0)
          (deliver-acks ((sent r).seq ∷ []) (recorded r) (fits.seq, tt))
      ∙ linked_peer _ (on_op (sent r) b).0 (on_op-linked (sent r) b ∙ i.there_up)

  carried :
      (r : Replicated)
      → OpFits (sent r)
      → apply_remote (opcode r.type) r.payload s ≡ (true, served.state)
      → InStep served.state room (cross_link (recorded r) (op_message (sent r) ∷ []) b)
  unfolding on_op record_and_replicate
  carried r fits applied = subst (InStep served.state room) (sym (delivered r fits)) (record {
    here = refl;
    there =
        ap {A = Bool × TrackerState} (λ x. x.1)
          (ap (apply_remote (opcode r.type) r.payload) i.there ∙ applied);
    here_up = i.here_up;
    there_up = up (apply_remote (opcode r.type) r.payload b.state).0;
    here_room = omega (arith, i.here_room);
    there_room = left (apply_remote (opcode r.type) r.payload b.state).0;
  })
    where
      up : (k : Bool) → (advance k (sent r).seq b.sync).linked ≡ true
      up true = i.there_up
      up false = i.there_up

      left : (k : Bool) → (advance k (sent r).seq b.sync).next_seq + room < 2 ^ 64
      left true = omega (arith, i.there_room)
      left false = omega (arith, i.there_room)

  pub replicated :
      (served.op ≡ none → served.state ≡ s)
      → Replays s served
      → ((r : Replicated) → served.op ≡ some r → FitsLink r.payload)
      → InStep served.state room
          (cross_link (replicate now served a).0 (replicate now served a).1 b)
  unfolding replicate
  replicated silent replays fits = elim (Option-cases served.op) [
    | inl e ↦ rw (e, replicate) (quiet (silent e))
    | inr (r, e) ↦
        let room_left : a.sync.next_seq < 2 ^ 64 = omega (arith, i.here_room) in
        rw (e, replicate)
          (rw (sent_op (opcode r.type) r.payload now a.sync i.here_up) (
            carried r
              (record { seq = room_left; type = opcode-lt r.type; ts = early; payload = fits r e })
              (rw (e, Replays) at replays)))
  ]
