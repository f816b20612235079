-- ===== src/Process/Nodes.antt =====
-- The steps of SyncManager and the requests of clients on a valid node.
use peer_to_peer_distributed.Base.{
  ℕ, ◌+◌, ◌^◌, ◌<◌, ◌≡◌, refl, sym, ◌∙◌, ap, subst, inl, inr, Bool, true, false, some, Option-cases,
  List, arith, All,
}
use peer_to_peer_distributed.Text.{Str}
use peer_to_peer_distributed.Protocol.{MsgType, opcode, msg_type}
use peer_to_peer_distributed.Buffer.{get_u64}
use peer_to_peer_distributed.Tracker.{TrackerState}
use peer_to_peer_distributed.Tracker.Validity.{IsValid}
use peer_to_peer_distributed.Tracker.Snapshot.{restore}
use peer_to_peer_distributed.Session.{Served}
use peer_to_peer_distributed.Sync.{Op, Sync, Message, get_op, record_and_replicate}
use peer_to_peer_distributed.Sync.Apply.{apply_remote}
use peer_to_peer_distributed.Sync.Log.{Ascending, record-LogValid, trim-LogValid}
use peer_to_peer_distributed.Sync.Link.{
  Node, advance, on_op, on_ack, process, process_peer_message, dialer_opens, acceptor_opens,
  link_drops,
}
use peer_to_peer_distributed.Sync.Cluster.{replicate}
use peer_to_peer_distributed.Process.Validity.{
  NodeValid, IsHonest, apply_remote-IsValid, restore-IsValid,
}

recorded_counter :
    (room type : ℕ) (payload : Str) (now : ℕ) (y : Sync)
    → y.next_seq + (room + 1) < 2 ^ 64
    → (record_and_replicate type payload now y).0.next_seq + room < 2 ^ 64
unfolding record_and_replicate
recorded_counter room type payload now y h = omega (arith, h)

abbrev pub Kept : ℕ → Node × List Message → Type 0
Kept room r = NodeValid room r.0

module _ (room : ℕ) (n : Node) (v : NodeValid (room + 1) n) where
  pub less : NodeValid room n
  less = record { state = v.state; log = v.log; counter = omega (arith, v.counter) }

  pub with_state : (s : TrackerState) → IsValid s → NodeValid room (record n { state = s })
  with_state s h = record { state = h; log = v.log; counter = less.counter }

  -- A sync that differs in what it has applied, or in the link.
  same_log :
      (y : Sync) (s : TrackerState)
      → y.log ≡ n.sync.log
      → y.next_seq ≡ n.sync.next_seq
      → IsValid s
      → NodeValid room (record { sync = y; state = s })
  same_log y s e k h = record {
    state = h;
    log = record {
      ascending = subst (λ l. Ascending 0 l) (sym e) v.log.ascending;
      below =
          subst (λ m. All (λ op. op.seq < m) y.log) (sym k)
            (subst (λ l. All (λ op. op.seq < n.sync.next_seq) l) (sym e) v.log.below);
      positive = omega (arith, k, v.log.positive);
    };
    counter = omega (arith, k, v.counter);
  }

  pub replicate-NodeValid :
      (now : ℕ) (served : Served) → IsValid served.state → Kept room (replicate now served n)
  unfolding replicate
  replicate-NodeValid now served h = elim (Option-cases served.op) [
    | inl e ↦ rw (e, replicate) (with_state served.state h)
    | inr (r, e) ↦ rw (e, replicate) (recorded (opcode r.type) r.payload)
  ]
    where
      recorded :
          (type : ℕ) (payload : Str)
          → NodeValid room (record {
            sync = (record_and_replicate type payload now n.sync).0;
            state = served.state;
          })
      recorded type payload = record {
        state = h;
        log = record-LogValid type payload now n.sync (omega (arith, v.counter)) v.log;
        counter = recorded_counter room type payload now n.sync v.counter;
      }

  on_op-NodeValid : (op : Op) → Kept room (on_op op n)
  unfolding on_op
  on_op-NodeValid op = advanced (apply_remote op.type op.payload n.state).0
    where
      h : IsValid (apply_remote op.type op.payload n.state).1
      h = apply_remote-IsValid op.payload n.state v.state op.type

      advanced :
          (b : Bool)
          → NodeValid room (record {
            sync = advance b op.seq n.sync;
            state = (apply_remote op.type op.payload n.state).1;
          })
      advanced false = same_log n.sync _ refl refl h
      advanced true = same_log (advance true op.seq n.sync) _ refl refl h

  on_ack-NodeValid : (seq : ℕ) → NodeValid room (on_ack seq n)
  unfolding on_ack
  on_ack-NodeValid seq = record {
    state = v.state;
    log = trim-LogValid seq n.sync v.log;
    counter = less.counter;
  }

  module _ (payload : Str) where
    process-NodeValid :
        (t : MsgType)
        → (t ≡ MsgType.sync_snapshot_data → IsValid (restore payload n.state).1)
        → Kept room (process payload n t)
    unfolding process
    process-NodeValid MsgType.sync_catchup h = elim (Option-cases (get_u64 payload)) [
      | inl e ↦ rw (e, process) less
      | inr ((after, rest), e) ↦ rw (e, process) less
    ]
    process-NodeValid MsgType.sync_op h = elim (Option-cases (get_op payload)) [
      | inl e ↦ rw (e, process) less
      | inr ((op, rest), e) ↦ rw (e, process) (on_op-NodeValid op)
    ]
    process-NodeValid MsgType.sync_ack h = elim (Option-cases (get_u64 payload)) [
      | inl e ↦ rw (e, process) less
      | inr ((seq, rest), e) ↦ rw (e, process) (on_ack-NodeValid seq)
    ]
    process-NodeValid MsgType.sync_snapshot_request h = less
    process-NodeValid MsgType.sync_snapshot_data h = with_state (restore payload n.state).1 (h refl)
    process-NodeValid _ h = less

    pub process_peer_message-NodeValid :
        (type : ℕ) → IsHonest type payload → Kept room (process_peer_message type payload n)
    unfolding process_peer_message
    process_peer_message-NodeValid type h = elim (Option-cases (msg_type type)) [
      | inl e ↦ rw (e, process_peer_message) less
      | inr (t, e) ↦
          rw (e, process_peer_message)
            (process-NodeValid t (λ k. restore-IsValid payload n.state (h (e ∙ ap some k))))
    ]

  pub dialer_opens-NodeValid : (index : ℕ) → Kept room (dialer_opens index n)
  unfolding dialer_opens
  dialer_opens-NodeValid index =
      same_log (record n.sync { linked = true }) n.state refl refl v.state

  pub acceptor_opens-NodeValid : Kept room (acceptor_opens n)
  unfolding acceptor_opens
  acceptor_opens-NodeValid = same_log (record n.sync { linked = true }) n.state refl refl v.state

  pub link_drops-NodeValid : NodeValid room (link_drops n)
  unfolding link_drops
  link_drops-NodeValid = same_log (record n.sync { linked = false }) n.state refl refl v.state
