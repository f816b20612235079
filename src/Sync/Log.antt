-- ===== src/Sync/Log.antt =====
-- The op log: sequence numbers rise along it, so trimming its front is taking out what was acknowledged.
use peer_to_peer_distributed.Base.{
  ℕ, ◌+◌, ◌%◌, ◌^◌, ◌≤◌, ◌<◌, ◌≡◌, ◌≢◌, refl, ◌∙◌, ap, inl, inr, List, [], ◌∷◌, ◌++◌, arith, ltb,
  leb, map, All, Bool-cases,
}
use peer_to_peer_distributed.Text.{Str}
use peer_to_peer_distributed.Sync.{Op, Sync, next_op, record_and_replicate, trim, newer}

-- The sequence numbers rise, from above `n`.
abbrev pub Ascending : ℕ → List Op → Type 0
Ascending n [] = Unit {0}
Ascending n (op ∷ log) = (n < op.seq) × Ascending op.seq log

abbrev pub seqs : List Op → List ℕ
seqs = map (λ op. op.seq)

pub record LogValid (y : Sync) : Type 0 where
  pub ascending : Ascending 0 y.log
  pub below : All (λ op. op.seq < y.next_seq) y.log
  pub positive : 0 < y.next_seq

Ascending-weaken : (m n : ℕ) (log : List Op) → m ≤ n → Ascending n log → Ascending m log
Ascending-weaken m n [] h a = tt
Ascending-weaken m n (op ∷ log) h a = (omega arith, a.1)

Ascending-snoc :
    (n : ℕ) (log : List Op) (op : Op)
    → n < op.seq
    → All (λ x. x.seq < op.seq) log
    → Ascending n log
    → Ascending n (log ++ op ∷ [])
Ascending-snoc n [] op h b a = (h, tt)
Ascending-snoc n (x ∷ log) op h b a = (a.0, Ascending-snoc x.seq log op b.0 b.1 a.1)

below-snoc :
    (n : ℕ) (log : List Op) (op : Op)
    → op.seq ≡ n
    → All (λ x. x.seq < n) log
    → All (λ x. x.seq < n + 1) (log ++ op ∷ [])
below-snoc n [] op e b = (omega arith, tt)
below-snoc n (x ∷ log) op e b = (omega arith, below-snoc n log op e b.1)

-- A recorded op keeps the log in order and below the next number, as long as the 64-bit counter
-- does not wrap.
pub record-LogValid :
    (type : ℕ) (payload : Str) (now : ℕ) (y : Sync)
    → y.next_seq + 1 < 2 ^ 64
    → LogValid y
    → LogValid (record_and_replicate type payload now y).0
unfolding record_and_replicate
record-LogValid type payload now y room v =
    let next : (y.next_seq + 1) % 2 ^ 64 ≡ y.next_seq + 1 = omega arith in
    record {
      ascending =
          Ascending-snoc 0 y.log (next_op type payload now y) v.positive v.below v.ascending;
      below = rw next (below-snoc y.next_seq y.log (next_op type payload now y) refl v.below);
      positive = rw next (omega arith);
    }

-- Nothing is trimmed from a log that is all newer.
pub trim_none : (k : ℕ) (log : List Op) → Ascending k log → trim k log ≡ log
unfolding trim
trim_none k [] a = refl
trim_none k (op ∷ log) a = ground arith

pub newer_all : (k : ℕ) (log : List Op) → Ascending k log → newer k log ≡ log
unfolding newer
newer_all k [] a = refl
newer_all k (op ∷ log) a =
    ground (arith, newer_all k log (Ascending-weaken k op.seq log (omega arith) a.1))

-- On a log whose numbers rise, the loop that pops the acknowledged ops off the front leaves
-- exactly the ops with a higher number.
pub trim-newer : (n seq : ℕ) (log : List Op) → Ascending n log → trim seq log ≡ newer seq log
unfolding trim newer
trim-newer n seq [] a = refl
trim-newer n seq (op ∷ log) a = elim (Bool-cases (leb op.seq seq)) [
  | inl e ↦ ground (arith, trim-newer op.seq seq log a.1)
  | inr e ↦ ground (arith, newer_all seq log (Ascending-weaken seq op.seq log (ground arith) a.1))
]

newer-Ascending : (k n : ℕ) (log : List Op) → Ascending n log → Ascending n (newer k log)
unfolding newer
newer-Ascending k n [] a = tt
newer-Ascending k n (op ∷ log) a = elim (Bool-cases (ltb k op.seq)) [
  | inl e ↦ rw e (a.0, newer-Ascending k op.seq log a.1)
  | inr e ↦ rw e (newer-Ascending k n log (Ascending-weaken n op.seq log (omega (arith, a.0)) a.1))
]

newer_below :
    (k bound : ℕ) (log : List Op)
    → All (λ op. op.seq < bound) log
    → All (λ op. op.seq < bound) (newer k log)
unfolding newer
newer_below k bound [] b = tt
newer_below k bound (op ∷ log) b = elim (Bool-cases (ltb k op.seq)) [
  | inl e ↦ rw e (b.0, newer_below k bound log b.1)
  | inr e ↦ rw e (newer_below k bound log b.1)
]

-- An acknowledgement keeps a log that is in order and below the next number so.
pub trim-LogValid : (seq : ℕ) (y : Sync) → LogValid y → LogValid (record y { log = trim seq y.log })
trim-LogValid seq y v = rw (trim-newer 0 seq y.log v.ascending) (record {
  ascending = newer-Ascending seq 0 y.log v.ascending;
  below = newer_below seq y.next_seq y.log v.below;
  positive = v.positive;
})

-- The acknowledgements of a row of ops, one after another.
unfoldable pub trims : List ℕ → List Op → List Op
trims [] log = log
trims (seq ∷ rest) log = trims rest (trim seq log)

trims_whole : (n : ℕ) (log : List Op) → Ascending n log → trims (seqs log) log ≡ []
unfolding trims trim
trims_whole n [] a = refl
trims_whole n (op ∷ log) a =
    ap (trims (seqs log)) (drop_head ∙ trim_none op.seq log a.1) ∙ trims_whole op.seq log a.1
  where
    drop_head : trim op.seq (op ∷ log) ≡ trim op.seq log
    drop_head = ground arith

newer_head : (k : ℕ) (log : List Op) (x : Op) (xs : List Op) → newer k log ≡ x ∷ xs → k < x.seq
unfolding newer
newer_head k [] x xs e = absurd (ground arith)
newer_head k (op ∷ log) x xs e = ground (arith, newer_head k log x xs)

-- An op that is older than the first acknowledged one goes with it.
older_goes :
    (ops : List Op) (k : ℕ) (op : Op) (log : List Op)
    → ((x : Op) (xs : List Op) → ops ≡ x ∷ xs → k < x.seq)
    → op.seq ≤ k
    → ops ≢ []
    → trims (seqs ops) (op ∷ log) ≡ trims (seqs ops) log
unfolding trims trim
older_goes [] k op log first old h = absurd (h refl)
older_goes (x ∷ xs) k op log first old h = ap (trims (seqs xs)) (goes (first x xs refl))
  where
    goes : k < x.seq → trim x.seq (op ∷ log) ≡ trim x.seq log
    goes lt = ground arith

-- When every op of a catch-up has been acknowledged the log is empty, older ops included.
pub trims-newer :
    (n k : ℕ) (log : List Op)
    → Ascending n log
    → newer k log ≢ []
    → trims (seqs (newer k log)) log ≡ []
unfolding newer trims trim
trims-newer n k [] a h = absurd (h refl)
trims-newer n k (op ∷ log) a h = elim (Bool-cases (ltb k op.seq)) [
  | inl e ↦
      rw (e, newer_all k log (Ascending-weaken k op.seq log (ground arith) a.1))
        (trims_whole n (op ∷ log) a)
  | inr e ↦
      let rest : newer k log ≢ [] = λ none. h (rw (e, none)) in
      rw e (
        older_goes (newer k log) k op log (newer_head k log) (ground arith) rest
        ∙ trims-newer op.seq k log a.1 rest)
]
