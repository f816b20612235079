-- ===== src/Sync/Recorders/Accounts.antt =====
-- Where the ops of the log are while threads record and send them.
use peer_to_peer_distributed.Base.{
  ℕ, zero, suc, ◌<◌, ◌≡◌, ◌≢◌, refl, sym, ◌∙◌, ap, subst, ◌⊎◌, inl, inr, Bool, true, false, List,
  [], ◌∷◌, ◌++◌, arith, length, if_cases, set_at, slot_at-set_at, after_set_at,
}
use peer_to_peer_distributed.Protocol.{opcode}
use peer_to_peer_distributed.Session.Handlers.{dispatch}
use peer_to_peer_distributed.Sync.{Op, next_op, record_and_replicate}
use peer_to_peer_distributed.Sync.Link.{Node}
use peer_to_peer_distributed.Sync.Recorders.{
  Stage, asked, recording, sending, finished, Site, stage_at, to_record, advance_thread,
  run_threads,
}

abbrev pub Has : Op → List Op → Type 0
Has op [] = ⊥
Has op (x ∷ xs) = (x ≡ op) ⊎ Has op xs

in_left : (op : Op) (xs ys : List Op) → Has op xs → Has op (xs ++ ys)
in_left op [] ys h = elim h [ ]
in_left op (x ∷ xs) ys (inl e) = inl e
in_left op (x ∷ xs) ys (inr h) = inr (in_left op xs ys h)

in_last : (op : Op) (xs : List Op) → Has op (xs ++ op ∷ [])
in_last op [] = inl refl
in_last op (x ∷ xs) = inr (in_last op xs)

in_either : (op x : Op) (xs : List Op) → Has op (xs ++ x ∷ []) → Has op xs ⊎ (x ≡ op)
in_either op x [] (inl e) = inr e
in_either op x [] (inr h) = elim h [ ]
in_either op x (y ∷ xs) (inl e) = inl (inl e)
in_either op x (y ∷ xs) (inr h) = elim (in_either op x xs h) [ inl k ↦ inl (inr k) | inr e ↦ inr e ]

-- An op was sent, or a thread is about to send it.
abbrev pub SentOrSending : Op → Site → Type 0
SentOrSending op v = Has op v.sent ⊎ ((i : ℕ) × (stage_at v.threads i ≡ sending op))

-- The ops of the log that were not there before.
pub record Accounted (before : List Op) (v : Site) : Type 0 where
  pub linked : v.node.sync.linked ≡ true
  pub ops : (op : Op) → Has op v.node.sync.log → Has op before ⊎ SentOrSending op v

in_range : (i : ℕ) (ts : List Stage) → stage_at ts i ≢ finished → i < length ts
in_range i [] h = absurd (h refl)
in_range zero (t ∷ ts) h = omega arith
in_range (suc i) (t ∷ ts) h = omega (arith, in_range i ts h)

module _ (before : List Op) (i : ℕ) (v : Site) where
  -- A thread that was not sending goes on: the ops that others send are still sent.
  still_sending :
      (t u : Stage) (node : Node) (op : Op)
      → stage_at v.threads i ≡ t
      → t ≢ finished
      → t ≢ sending op
      → SentOrSending op v
      → SentOrSending op (record v { node = node; threads = set_at i u v.threads })
  still_sending t u node op at going other (inl h) = inl h
  still_sending t u node op at going other (inr (j, e)) = inr (
    j,
    (elim (after_set_at finished i j u v.threads (in_range i v.threads (λ k. going (sym at ∙ k)))) [
      | inl (same, k) ↦ absurd (other (sym at ∙ ap (stage_at v.threads) same ∙ e))
      | inr k ↦ k ∙ e
    ]),
  )

  advance_thread-Accounted :
      (t : Stage)
      → stage_at v.threads i ≡ t
      → Accounted before v
      → Accounted before (advance_thread i t v)
  unfolding advance_thread record_and_replicate
  advance_thread-Accounted (asked ses q) at a =
      let served = dispatch q.payload ses v.node.state q.type in
      record {
        linked = a.linked;
        ops = λ op h. elim (a.ops op h) [
          | inl k ↦ inl k
          | inr k ↦ inr (
              still_sending (asked ses q) (to_record served.op q.now)
                (record v.node { state = served.state }) op at (λ e. cc) (λ e. cc) k)
        ];
      }
  advance_thread-Accounted (recording r now) at a =
      let y = v.node.sync in
      let new = next_op (opcode r.type) r.payload now y in
      let node : Node = record v.node {
        sync = (record_and_replicate (opcode r.type) r.payload now y).0;
      } in
      if_cases (λ u. Accounted before (record v { node = node; threads = set_at i u v.threads }))
        y.linked _ _
        (λ _. record {
          linked = a.linked;
          ops = λ op h. elim (in_either op new y.log h) [
            | inl k ↦ elim (a.ops op k) [
              | inl b ↦ inl b
              | inr b ↦
                  inr
                    (still_sending (recording r now) (sending new) node op at (λ e. cc) (λ e. cc) b)
            ]
            | inr e ↦ inr (
                inr (
                  i,
                  slot_at-set_at finished i (sending new) v.threads
                        (in_range i v.threads (λ k. going (sym at ∙ k)))
                      ∙ ap sending e,
                ))
          ];
        })
        λ e. absurd (down y.linked a.linked e)
    where
      going : recording r now ≡ finished → ⊥
      going e = cc

      down : (b : Bool) → b ≡ true → b ≡ false → ⊥
      down b e k = cc
  advance_thread-Accounted (sending new) at a = record {
    linked = a.linked;
    ops = λ op h. elim (a.ops op h) [
      | inl k ↦ inl k
      | inr (inl k) ↦ inr (inl (in_left op v.sent (new ∷ []) k))
      | inr (inr (j, e)) ↦
          elim (after_set_at finished i j finished v.threads
            (in_range i v.threads (λ k. going (sym at ∙ k)))) [
              | inl (same, k) ↦ inr (
                  inl (
                    subst (λ x. Has x (v.sent ++ new ∷ []))
                      (one (sym at ∙ ap (stage_at v.threads) same ∙ e)) (in_last new v.sent)))
              | inr k ↦ inr (inr (j, k ∙ e))
            ]
    ];
  }
    where
      going : sending new ≡ finished → ⊥
      going e = cc

      one : {x y : Op} → sending x ≡ sending y → x ≡ y
      one e = cc
  advance_thread-Accounted finished at a = a

run_threads-Accounted :
    (before : List Op) (schedule : List ℕ) (v : Site)
    → Accounted before v
    → Accounted before (run_threads schedule v)
unfolding run_threads
run_threads-Accounted before [] v a = a
run_threads-Accounted before (i ∷ schedule) v a =
    run_threads-Accounted before schedule (advance_thread i (stage_at v.threads i) v)
      (advance_thread-Accounted before i v (stage_at v.threads i) refl a)

abbrev pub AllFinished : Site → Type 0
AllFinished v = (i : ℕ) → stage_at v.threads i ≡ finished

-- While the link is up, and however the threads get the locks: once all of them are at their end, each
-- op that the log has got from them was sent.
pub finished_sent :
    (schedule : List ℕ) (v : Site) (op : Op)
    → v.node.sync.linked ≡ true
    → AllFinished (run_threads schedule v)
    → Has op (run_threads schedule v).node.sync.log
    → Has op v.node.sync.log ⊎ Has op (run_threads schedule v).sent
finished_sent schedule v op up ended h =
    elim ((run_threads-Accounted v.node.sync.log schedule v
        (record { linked = up; ops = λ x k. inl k })).ops
      op h) [
        | inl k ↦ inl k
        | inr (inl k) ↦ inr k
        | inr (inr (i, e)) ↦ absurd (sends (sym (ended i) ∙ e))
      ]
  where
    sends : finished ≡ sending op → ⊥
    sends e = cc
