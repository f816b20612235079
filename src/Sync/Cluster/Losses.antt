-- ===== src/Sync/Cluster/Losses.antt =====
-- Ops that are acknowledged and taken out of the log without having been applied by the peer.
use peer_to_peer_distributed.Base.{
  ℕ, ◌+◌, ◌<◌, ◌^◌, ◌≡◌, refl, ◌∙◌, ap, inl, inr, true, false, Bool, List, [], ◌∷◌, ◌++◌, arith,
  All, Option-cases,
}
use peer_to_peer_distributed.Text.{Str}
use peer_to_peer_distributed.Protocol.{Status, MsgType, msg_type}
use peer_to_peer_distributed.Messages.{get_two, get_three}
use peer_to_peer_distributed.Tracker.{TrackerState}
use peer_to_peer_distributed.Tracker.Users.{empty}
use peer_to_peer_distributed.Tracker.Calls
use peer_to_peer_distributed.Tracker.Calls.{perform}
use peer_to_peer_distributed.Tracker.Calls.Errors.{perform_error}
use peer_to_peer_distributed.Sync.{Op, Sync, next_op, op_message, record_and_replicate, newer}
use peer_to_peer_distributed.Sync.Apply.{
  apply_remote, apply_as, counts, is_ok, ok_or_exists, ok_or_not_member, ok_or_not_found,
  get_upload_op, get_stop_op, get_have_op,
}
use peer_to_peer_distributed.Sync.Log.{LogValid, trim-newer, record-LogValid, trims}
use peer_to_peer_distributed.Sync.Link.{Node, on_op, acceptor_opens}
use peer_to_peer_distributed.Sync.Delivery.{
  OpFits, deliver, deliver-ops, deliver-acks, apply_ops, with_log,
}
use peer_to_peer_distributed.Sync.Cluster.Agreement.{sent_op}

counts-false :
    (test : Status → Bool) (c : Calls.Call) (s : TrackerState)
    → test Status.ok ≡ true
    → (counts test (perform c s)).0 ≡ false
    → (counts test (perform c s)).1 ≡ s
counts-false test c s t f = perform_error c s (λ e. cc (rw (e, counts) at f))

apply_as-false :
    (payload : Str) (s : TrackerState) (t : MsgType)
    → (apply_as payload s t).0 ≡ false
    → (apply_as payload s t).1 ≡ s
unfolding apply_as perform
apply_as-false payload s MsgType.create_user f = elim (Option-cases (get_two payload)) [
  | inl e ↦ rw (e, apply_as) refl
  | inr (((a, b), rest), e) ↦
      rw (e, apply_as)
        (counts-false ok_or_exists (Calls.create_user a b) s refl (rw (e, apply_as) at f))
]
apply_as-false payload s MsgType.create_group f = elim (Option-cases (get_two payload)) [
  | inl e ↦ rw (e, apply_as) refl
  | inr (((a, b), rest), e) ↦
      rw (e, apply_as)
        (counts-false ok_or_exists (Calls.create_group a b) s refl (rw (e, apply_as) at f))
]
apply_as-false payload s MsgType.join_group f = elim (Option-cases (get_two payload)) [
  | inl e ↦ rw (e, apply_as) refl
  | inr (((a, b), rest), e) ↦
      rw (e, apply_as)
        (counts-false ok_or_exists (Calls.join_group a b) s refl (rw (e, apply_as) at f))
]
apply_as-false payload s MsgType.leave_group f = elim (Option-cases (get_two payload)) [
  | inl e ↦ rw (e, apply_as) refl
  | inr (((a, b), rest), e) ↦
      rw (e, apply_as)
        (counts-false ok_or_not_member (Calls.leave_group a b) s refl (rw (e, apply_as) at f))
]
apply_as-false payload s MsgType.accept_request f = elim (Option-cases (get_three payload)) [
  | inl e ↦ rw (e, apply_as) refl
  | inr (((a, b, c), rest), e) ↦
      rw (e, apply_as)
        (counts-false ok_or_not_found (Calls.accept_request a b c) s refl (rw (e, apply_as) at f))
]
apply_as-false payload s MsgType.upload_file f = elim (Option-cases (get_upload_op payload)) [
  | inl e ↦ rw (e, apply_as) refl
  | inr (((g, m, (u, ip, port)), rest), e) ↦
      rw (e, apply_as)
        (counts-false ok_or_exists (Calls.add_file g u ip port m) s refl (rw (e, apply_as) at f))
]
apply_as-false payload s MsgType.stop_share f = elim (Option-cases (get_stop_op payload)) [
  | inl e ↦ rw (e, apply_as) refl
  | inr (((g, n, u), rest), e) ↦
      rw (e, apply_as)
        (counts-false ok_or_not_found (Calls.stop_share g u n) s refl (rw (e, apply_as) at f))
]
apply_as-false payload s MsgType.have_pieces f = elim (Option-cases (get_have_op payload)) [
  | inl e ↦ rw (e, apply_as) refl
  | inr (((g, n, bits, (u, ip, port)), rest), e) ↦
      rw (e, apply_as)
        (counts-false is_ok (Calls.update_bitfield g u ip port n bits) s refl
          (rw (e, apply_as) at f))
]
apply_as-false payload s _ f = refl

apply_remote-false :
    (type : ℕ) (payload : Str) (s : TrackerState)
    → (apply_remote type payload s).0 ≡ false
    → (apply_remote type payload s).1 ≡ s
unfolding apply_remote
apply_remote-false type payload s f = elim (Option-cases (msg_type type)) [
  | inl e ↦ rw (e, apply_remote) refl
  | inr (t, e) ↦ rw (e, apply_remote) (apply_as-false payload s t (rw (e, apply_remote) at f))
]

-- An op that fits its message, which is not above MAX_PAYLOAD, and that the peer does not count as
-- applied, leaves the peer as it was, and is acknowledged; once the acknowledgement is back at a sender whose log is in order,
-- the log holds only higher numbers, so the op is not sent again.
pub rejected_op_is_lost :
    (op : Op) (a b : Node)
    → OpFits op
    → LogValid a.sync
    → (apply_remote op.type op.payload b.state).0 ≡ false
    → let (b', acks) = deliver (op_message op ∷ []) b in
      (b' ≡ b) × (deliver acks a ≡ (with_log (newer op.seq a.sync.log) a, []))
unfolding apply_ops on_op trims
rejected_op_is_lost op a b f v fails =
    rw
      (
        deliver-ops (op ∷ []) b (f, tt),
        on_op,
        fails,
        apply_remote-false op.type op.payload b.state fails,
      )
      (
        refl,
        deliver-acks (op.seq ∷ []) a (f.seq, tt)
            ∙ ap {A = List Op} (λ log. (with_log log a, []))
                (trim-newer 0 op.seq a.sync.log v.ascending),
      )

newer_none :
    (k : ℕ) (op : Op) (log : List Op)
    → All (λ x. x.seq < k) log
    → op.seq ≡ k
    → newer k (log ++ op ∷ []) ≡ []
unfolding newer
newer_none k op [] below e = ground arith
newer_none k op (x ∷ log) below e = ground (arith, newer_none k op log below.1 e)

pub recorded_newer :
    (type : ℕ) (payload : Str) (now : ℕ) (y : Sync)
    → LogValid y
    → newer y.next_seq (record_and_replicate type payload now y).0.log ≡ []
unfolding record_and_replicate
recorded_newer type payload now y v =
    newer_none y.next_seq (next_op type payload now y) y.log v.below refl

pub one_op_acknowledged :
    (op : Op) (a b : Node)
    → OpFits op
    → LogValid a.sync
    → newer op.seq a.sync.log ≡ []
    → let (b', acks) = deliver (op_message op ∷ []) b in
      (b' ≡ (on_op op b).0) × (deliver acks a ≡ (with_log [] a, []))
unfolding apply_ops trims
one_op_acknowledged op a b f v none_newer = rw (deliver-ops (op ∷ []) b (f, tt)) (
  refl,
  deliver-acks (op.seq ∷ []) a (f.seq, tt)
      ∙ ap {A = List Op} (λ log. (with_log log a, []))
          (trim-newer 0 op.seq a.sync.log v.ascending ∙ none_newer),
)

nothing_asked : (b : Node) → empty b.state ≡ false → (acceptor_opens b).1 ≡ []
unfolding acceptor_opens
nothing_asked b has = rw has

-- When the link opens, the side that accepts it asks for nothing if it has any metadata. One op
-- that fits its message, which is not above MAX_PAYLOAD, and that a dialer with the link up and its log in order then records and sends, is
-- the only one that the peer applies; its acknowledgement empties the dialer's log, whatever ops
-- were recorded while the link was down. The 64-bit counter does not wrap.
pub unsent_ops_are_lost :
    (type : ℕ) (payload : Str) (now : ℕ) (a b : Node)
    → empty b.state ≡ false
    → a.sync.linked ≡ true
    → a.sync.next_seq + 1 < 2 ^ 64
    → LogValid a.sync
    → OpFits (next_op type payload now a.sync)
    → let (y, sent) = record_and_replicate type payload now a.sync in
      let (b', acks) = deliver sent b in
      let a' : Node = record a { sync = y } in
      ((acceptor_opens b).1 ≡ [])
      × (b' ≡ (on_op (next_op type payload now a.sync) b).0)
      × (deliver acks a' ≡ (with_log [] a', []))
unsent_ops_are_lost type payload now a b has up room v f =
    let (applied, emptied) =
      one_op_acknowledged (next_op type payload now a.sync)
        (record a { sync = (record_and_replicate type payload now a.sync).0 }) b f
        (record-LogValid type payload now a.sync room v)
        (recorded_newer type payload now a.sync v) in
    rw (sent_op type payload now a.sync up) (nothing_asked b has, applied, emptied)
