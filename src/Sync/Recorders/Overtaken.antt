-- ===== src/Sync/Recorders/Overtaken.antt =====
-- Two threads that have numbered their ops, of which the second sends first.
use peer_to_peer_distributed.Base.{
  ℕ, ◌+◌, ◌^◌, ◌<◌, ◌≡◌, sym, ◌∙◌, ap, subst, true, false, [], ◌∷◌, ◌++◌, arith, length,
  if◌then◌else◌, set_at, slot_at-set_at, other_at, length-set_at, ◌==◌,
}
use peer_to_peer_distributed.Protocol.{opcode}
use peer_to_peer_distributed.Session.{Replicated}
use peer_to_peer_distributed.Sync.{Op, Sync, op_message, next_op, record_and_replicate}
use peer_to_peer_distributed.Sync.Log.{LogValid, record-LogValid}
use peer_to_peer_distributed.Sync.Link.{Node, on_op}
use peer_to_peer_distributed.Sync.Delivery.{OpFits, deliver, with_log}
use peer_to_peer_distributed.Sync.Cluster.Losses.{one_op_acknowledged, recorded_newer}
use peer_to_peer_distributed.Sync.Recorders.{
  recording, sending, finished, Site, stage_at, advance_thread, run_threads,
}
use peer_to_peer_distributed.Sync.Recorders.Alone.{in_range, next_move}

-- The op of a thread that is at its number next, and SyncManager once it is in the log.
abbrev pub op_of : Replicated → ℕ → Sync → Op
op_of r now y = next_op (opcode r.type) r.payload now y

abbrev pub logged : Replicated → ℕ → Sync → Sync
logged r now y = (record_and_replicate (opcode r.type) r.payload now y).0

abbrev recorded : ℕ → Replicated → ℕ → Site → Site
recorded i r now v = record v {
  node = record v.node { sync = logged r now v.node.sync };
  threads = set_at i (sending (op_of r now v.node.sync)) v.threads;
}

advance_thread-recorded :
    (i : ℕ) (r : Replicated) (now : ℕ) (v : Site)
    → v.node.sync.linked ≡ true
    → advance_thread i (recording r now) v ≡ recorded i r now v
unfolding advance_thread
advance_thread-recorded i r now v up =
    ap
      (λ b. record v {
        node = record v.node { sync = logged r now v.node.sync };
        threads = set_at i (if b then sending (op_of r now v.node.sync) else finished) v.threads;
      })
      up

logged_linked :
    (r : Replicated) (now : ℕ) (y : Sync) → y.linked ≡ true → (logged r now y).linked ≡ true
unfolding record_and_replicate
logged_linked r now y up = up

logged_next :
    (r : Replicated) (now : ℕ) (y : Sync)
    → y.next_seq + 1 < 2 ^ 64
    → (logged r now y).next_seq ≡ y.next_seq + 1
unfolding record_and_replicate
logged_next r now y room = omega (arith, room)

module _ (i j : ℕ) (first second : Replicated) (now later : ℕ) (v : Site) (apart : (i == j) ≡ false)
    (turned : (j == i) ≡ false) (at_i : stage_at v.threads i ≡ recording first now)
    (at_j : stage_at v.threads j ≡ recording second later) (up : v.node.sync.linked ≡ true) where
  abbrev y : Sync
  y = v.node.sync

  abbrev one : Site
  one = recorded i first now v

  abbrev two : Site
  two = recorded j second later one

  abbrev three : Site
  three = record two {
    sent = two.sent ++ op_of second later (logged first now y) ∷ [];
    threads = set_at j finished two.threads;
  }

  room_i : i < length v.threads
  room_i = in_range i v.threads (λ k. starts (sym at_i ∙ k))
    where
      starts : recording first now ≡ finished → ⊥
      starts k = cc

  room_j : j < length one.threads
  room_j = omega (
    arith,
    length-set_at i (sending (op_of first now y)) v.threads,
    in_range j v.threads (λ k. starts (sym at_j ∙ k)),
  )
    where
      starts : recording second later ≡ finished → ⊥
      starts k = cc

  overtakes : run_threads (i ∷ j ∷ j ∷ []) v ≡ three
  unfolding run_threads advance_thread
  overtakes =
      next_move i (recording first now) v (j ∷ j ∷ []) at_i
      ∙ ap (run_threads (j ∷ j ∷ [])) (advance_thread-recorded i first now v up)
      ∙ next_move j (recording second later) one (j ∷ [])
          (other_at finished i j (sending (op_of first now y)) v.threads apart ∙ at_j)
      ∙ ap (run_threads (j ∷ []))
          (advance_thread-recorded j second later one (logged_linked first now y up))
      ∙ next_move j (sending (op_of second later (logged first now y))) two [] (
          slot_at-set_at finished j (sending (op_of second later (logged first now y))) one.threads
            room_j)

  still_to_send : stage_at three.threads i ≡ sending (op_of first now y)
  still_to_send =
      other_at finished j i finished two.threads turned
      ∙ other_at finished j i (sending (op_of second later (logged first now y))) one.threads turned
      ∙ slot_at-set_at finished i (sending (op_of first now y)) v.threads room_i

-- Two threads have numbered their ops while the link is up, and the second one sends first: its op is all
-- that was sent and the peer applies it; once the peer's acknowledgement is back the log is empty,
-- although the first thread's op is still to be sent. The log was in order, the second op fits its
-- message, which is not above MAX_PAYLOAD, and the counter does not wrap.
pub overtaken_op_is_trimmed :
    (i j : ℕ) (first second : Replicated) (now later : ℕ) (v : Site) (b : Node)
    → (i == j) ≡ false
    → stage_at v.threads i ≡ recording first now
    → stage_at v.threads j ≡ recording second later
    → v.node.sync.linked ≡ true
    → LogValid v.node.sync
    → v.node.sync.next_seq + 2 < 2 ^ 64
    → OpFits (op_of second later (logged first now v.node.sync))
    → let w = run_threads (i ∷ j ∷ j ∷ []) v in
      let op = op_of second later (logged first now v.node.sync) in
      let (b', acks) = deliver (op_message op ∷ []) b in
      (w.sent ≡ v.sent ++ op ∷ [])
      × (stage_at w.threads i ≡ sending (op_of first now v.node.sync))
      × (b' ≡ (on_op op b).0)
      × (deliver acks w.node ≡ (with_log [] w.node, []))
overtaken_op_is_trimmed i j first second now later v b apart at_i at_j up valid room fits =
    let y = v.node.sync in
    let after = overtakes i j first second now later v apart turned at_i at_j up in
    let next = logged_next first now y (omega (arith, room)) in
    let middle =
      record-LogValid (opcode first.type) first.payload now y (omega (arith, room)) valid in
    let final =
      record-LogValid (opcode second.type) second.payload later (logged first now y)
        (omega (arith, room, next)) middle in
    let (applied, emptied) =
      one_op_acknowledged (op_of second later (logged first now y))
        (record v.node { sync = logged second later (logged first now y) }) b fits final
        (recorded_newer (opcode second.type) second.payload later (logged first now y) middle) in
    (
      ap (λ w. w.sent) after,
      ap (λ w. stage_at w.threads i) after
          ∙ still_to_send i j first second now later v apart turned at_i at_j up,
      applied,
      subst
          (λ n.
            deliver (deliver (op_message (op_of second later (logged first now y)) ∷ []) b).1 n
            ≡ (with_log [] n, []))
          (sym (ap (λ w. w.node) after)) emptied,
    )
  where
    turned : (j == i) ≡ false
    turned = ground (arith, apart)
