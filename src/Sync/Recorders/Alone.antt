-- ===== src/Sync/Recorders/Alone.antt =====
-- A thread that gets its three locks in a row.
use peer_to_peer_distributed.Base.{
  ℕ, zero, suc, ◌<◌, ◌≡◌, ◌≢◌, refl, sym, ◌∙◌, ap, subst, Bool, true, false, Option, none, some,
  List, [], ◌∷◌, ◌++◌, arith, length, map, append-nil, if◌then◌else◌, set_at, slot_at-set_at,
  length-set_at,
}
use peer_to_peer_distributed.Protocol.{opcode}
use peer_to_peer_distributed.Session.{Session, Served, Replicated}
use peer_to_peer_distributed.Session.Handlers.{dispatch}
use peer_to_peer_distributed.Sync.{Op, Message, op_message, next_op, record_and_replicate}
use peer_to_peer_distributed.Sync.Link.{Node}
use peer_to_peer_distributed.Sync.Cluster.{Request, replicate, serve}
use peer_to_peer_distributed.Sync.Recorders.{
  Stage, asked, recording, sending, finished, Site, stage_at, to_record, advance_thread,
  run_threads,
}

pub in_range : (i : ℕ) (ts : List Stage) → stage_at ts i ≢ finished → i < length ts
in_range i [] h = absurd (h refl)
in_range zero (t ∷ ts) h = omega arith
in_range (suc i) (t ∷ ts) h = omega (arith, in_range i ts h)

-- One move of a thread whose stage is known.
pub next_move :
    (i : ℕ) (t : Stage) (v : Site) (schedule : List ℕ)
    → stage_at v.threads i ≡ t
    → run_threads (i ∷ schedule) v ≡ run_threads schedule (advance_thread i t v)
unfolding run_threads
next_move i t v schedule e = ap (λ u. run_threads schedule (advance_thread i u v)) e

map-append : (xs ys : List Op) → map op_message (xs ++ ys) ≡ map op_message xs ++ map op_message ys
map-append [] ys = refl
map-append (x ∷ xs) ys = ap (◌∷◌ (op_message x)) (map-append xs ys)

-- What `serve` makes of a node and the messages.
abbrev Serves : Site → Node × List Message → ℕ → Site → Type 0
Serves v (n, out) i x =
    (x.node ≡ n)
    × (map op_message x.sent ≡ map op_message v.sent ++ out)
    × (stage_at x.threads i ≡ finished)

module _ (i : ℕ) (now : ℕ) (served : Served) (v : Site) (l : i < length v.threads) where
  abbrev after : Option Replicated → Site
  after o = record v {
    node = record v.node { state = served.state };
    threads = set_at i (to_record o now) v.threads;
  }

  abbrev outcome : Option Replicated → Node × List Message
  outcome none = (record v.node { state = served.state }, [])
  outcome (some r) =
      let (y, out) = record_and_replicate (opcode r.type) r.payload now v.node.sync in
      (record { sync = y; state = served.state }, out)

  at_after : (o : Option Replicated) → stage_at (after o).threads i ≡ to_record o now
  at_after o = slot_at-set_at finished i (to_record o now) v.threads l

  -- After an op was numbered, with the link up or not.
  abbrev numbered : Replicated → Bool → Site
  numbered r up = record (after (some r)) {
    node = (outcome (some r)).0;
    threads =
        set_at i
          (if up then sending (next_op (opcode r.type) r.payload now v.node.sync) else finished)
          (after (some r)).threads;
  }

  there : (r : Replicated) → i < length (after (some r)).threads
  there r = omega (arith, l, length-set_at i (recording r now) v.threads)

  last_move :
      (r : Replicated) (up : Bool)
      → Serves v
          (
            (outcome (some r)).0,
            if up then op_message (next_op (opcode r.type) r.payload now v.node.sync) ∷ [] else [],
          )
          i
          (run_threads (i ∷ []) (numbered r up))
  unfolding run_threads advance_thread
  last_move r true =
      let op = next_op (opcode r.type) r.payload now v.node.sync in
      let at = slot_at-set_at finished i (sending op) (after (some r)).threads (there r) in
      let room = length-set_at i (sending op) (after (some r)).threads in
      subst (Serves v ((outcome (some r)).0, op_message op ∷ []) i)
        (sym (next_move i (sending op) (numbered r true) [] at))
        (
          refl,
          map-append v.sent (op ∷ []),
          slot_at-set_at finished i finished (numbered r true).threads
              (omega (arith, room, there r)),
        )
  last_move r false =
      let at = slot_at-set_at finished i finished (after (some r)).threads (there r) in
      subst (Serves v ((outcome (some r)).0, []) i)
        (sym (next_move i finished (numbered r false) [] at))
        (refl, sym (append-nil (map op_message v.sent)), at)

  two_more : (o : Option Replicated) → Serves v (outcome o) i (run_threads (i ∷ i ∷ []) (after o))
  unfolding run_threads advance_thread record_and_replicate
  two_more none =
      subst (Serves v (outcome none) i)
        (sym (
          next_move i finished (after none) (i ∷ []) (at_after none)
          ∙ next_move i finished (after none) [] (at_after none)))
        (refl, sym (append-nil (map op_message v.sent)), at_after none)
  two_more (some r) =
      subst (Serves v (outcome (some r)) i)
        (sym (next_move i (recording r now) (after (some r)) (i ∷ []) (at_after (some r))))
        (last_move r v.node.sync.linked)

  replicate-outcome :
      (o : Option Replicated) → served.op ≡ o → replicate now served v.node ≡ outcome o
  unfolding replicate
  replicate-outcome none e = rw (e, replicate) refl
  replicate-outcome (some r) e = rw (e, replicate) refl

-- A thread that gets its locks in a row, for a request that it was asked, does what `serve` does: the
-- same node, and the same messages on the link.
run_threads-serve :
    (i : ℕ) (ses : Session) (q : Request) (v : Site)
    → stage_at v.threads i ≡ asked ses q
    → Serves v ((serve q ses v.node).1, (serve q ses v.node).2) i (run_threads (i ∷ i ∷ i ∷ []) v)
unfolding serve advance_thread
run_threads-serve i ses q v e =
    let served = dispatch q.payload ses v.node.state q.type in
    let l = in_range i v.threads (λ k. stops (sym e ∙ k)) in
    subst (λ p. Serves v p i (run_threads (i ∷ i ∷ i ∷ []) v))
      (sym (replicate-outcome i q.now served v l served.op refl))
      (subst (Serves v (outcome i q.now served v l served.op) i)
        (sym (next_move i (asked ses q) v (i ∷ i ∷ []) e)) (two_more i q.now served v l served.op))
  where
    stops : asked ses q ≡ finished → ⊥
    stops k = cc
