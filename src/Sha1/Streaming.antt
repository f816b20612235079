-- ===== src/Sha1/Streaming.antt =====
-- `update` takes its input in pieces that fill the block buffer; here it is related to taking the
-- input byte by byte, so that cutting the input in another way changes nothing.
use peer_to_peer_distributed.Base.{
  ℕ, zero, suc, ◌+◌, ◌-◌, ◌*◌, ◌%◌, ◌^◌, ◌≤◌, ◌<◌, ◌≡◌, refl, sym, ◌∙◌, ap, [], ◌∷◌, ◌++◌, length,
  take, drop, take-append-drop, length-take, length-drop, length-append, append_assoc, arith,
}
use Prim.Native.Nat.{min}
use peer_to_peer_distributed.Text.{Str}
use peer_to_peer_distributed.Sha1.{Sha1, flush, update_loop, update}

unfoldable pub absorb : ℕ → Sha1 → Sha1
absorb x s = flush (record s { buf = s.buf ++ x ∷ [] })

unfoldable pub absorb_all : Str → Sha1 → Sha1
absorb_all [] s = s
absorb_all (x ∷ p) s = absorb_all p (absorb x s)

flush_part : (s : Sha1) → length s.buf < 64 → flush s ≡ s
unfolding flush
flush_part s h = ground arith

pub flush-buf-lt : (s : Sha1) → length s.buf ≤ 64 → length (flush s).buf < 64
unfolding flush
flush-buf-lt s h = ground arith

pub absorb-buf-lt : (x : ℕ) (s : Sha1) → length s.buf < 64 → length (absorb x s).buf < 64
unfolding absorb
absorb-buf-lt x s h = flush-buf-lt _ (omega (arith, length-append s.buf (x ∷ [])))

pub absorb_all-buf-lt : (p : Str) (s : Sha1) → length s.buf < 64 → length (absorb_all p s).buf < 64
unfolding absorb_all
absorb_all-buf-lt [] s h = h
absorb_all-buf-lt (x ∷ p) s h = absorb_all-buf-lt p (absorb x s) (absorb-buf-lt x s h)

absorb_all-append : (p q : Str) (s : Sha1) → absorb_all (p ++ q) s ≡ absorb_all q (absorb_all p s)
unfolding absorb_all
absorb_all-append [] q s = refl
absorb_all-append (x ∷ p) q s = absorb_all-append p q (absorb x s)

-- A piece that fits the buffer is taken as a whole.
absorb_piece :
    (x : ℕ) (q : Str) (s : Sha1)
    → length s.buf + length (x ∷ q) ≤ 64
    → absorb_all (x ∷ q) s ≡ flush (record s { buf = s.buf ++ x ∷ q })
unfolding absorb_all absorb
absorb_piece x [] s h = refl
absorb_piece x (y ∷ q) s h =
    rw
      (flush_part (record s { buf = s.buf ++ x ∷ [] })
        (omega (arith, length-append s.buf (x ∷ []))))
      (absorb_piece y q (record s { buf = s.buf ++ x ∷ [] })
          (omega (arith, length-append s.buf (x ∷ [])))
        ∙ ap (λ b. flush (record s { buf = b })) (append_assoc s.buf (x ∷ []) (y ∷ q)))

absorb_prefix :
    (n : ℕ) (p : Str) (s : Sha1)
    → 0 < n
    → n ≤ length p
    → length s.buf + n ≤ 64
    → absorb_all (take n p) s ≡ flush (record s { buf = s.buf ++ take n p })
absorb_prefix zero p s h k l = elim h [ ]
absorb_prefix (suc n) [] s h k l = elim k [ ]
absorb_prefix (suc n) (x ∷ p) s h k l =
    absorb_piece x (take n p) s (omega (arith, length-take n p (omega arith)))

update_loop-absorb_all :
    (fuel : ℕ) (p : Str) (s : Sha1)
    → length s.buf < 64
    → length p ≤ fuel
    → update_loop fuel p s ≡ absorb_all p s
unfolding update_loop absorb_all
update_loop-absorb_all zero [] s h k = refl
update_loop-absorb_all zero (x ∷ p) s h k = elim k [ ]
update_loop-absorb_all (suc fuel) [] s h k = refl
update_loop-absorb_all (suc fuel) (x ∷ p) s h k =
    update_loop-absorb_all fuel (drop n (x ∷ p))
      (flush (record s { buf = s.buf ++ take n (x ∷ p) }))
      (flush-buf-lt (record s { buf = s.buf ++ take n (x ∷ p) })
        (omega (arith, length-append s.buf (take n (x ∷ p)), taken)))
      (omega (arith, length-drop n (x ∷ p)))
    ∙ ap (absorb_all (drop n (x ∷ p)))
        (sym (absorb_prefix n (x ∷ p) s (omega arith) (omega arith) (omega arith)))
    ∙ sym (absorb_all-append (take n (x ∷ p)) (drop n (x ∷ p)) s)
    ∙ ap (λ q. absorb_all q s) (take-append-drop n (x ∷ p))
  where
    n : ℕ
    n = min (64 - length s.buf) (length (x ∷ p))

    taken : length (take n (x ∷ p)) ≡ n
    taken = length-take n (x ∷ p) (omega arith)

-- The count of bits plays no part in the block loop.
abbrev pub with_bits : ℕ → Sha1 → Sha1
with_bits t s = record s { total_bits = t }

absorb-with_bits : (x t : ℕ) (s : Sha1) → absorb x (with_bits t s) ≡ with_bits t (absorb x s)
unfolding absorb flush
absorb-with_bits x t s = ground arith

absorb_all-with_bits :
    (p : Str) (t : ℕ) (s : Sha1) → absorb_all p (with_bits t s) ≡ with_bits t (absorb_all p s)
unfolding absorb_all
absorb_all-with_bits [] t s = refl
absorb_all-with_bits (x ∷ p) t s =
    ap (absorb_all p) (absorb-with_bits x t s) ∙ absorb_all-with_bits p t (absorb x s)

abbrev pub count_bits : ℕ → Str → ℕ
count_bits t p = (t + length p * 8 % 2 ^ 64) % 2 ^ 64

-- From a buffer that is not full, taking the input in pieces is taking it byte by byte, and
-- counting its bits.
pub update-absorb_all :
    (p : Str) (s : Sha1)
    → length s.buf < 64
    → update p s ≡ with_bits (count_bits s.total_bits p) (absorb_all p s)
unfolding update
update-absorb_all p s h =
    update_loop-absorb_all (length p) p (with_bits (count_bits s.total_bits p) s) h (omega arith)
    ∙ absorb_all-with_bits p (count_bits s.total_bits p) s

-- From a buffer that is not full, hashing in two calls is hashing the concatenation in one.
pub update-append :
    (p q : Str) (s : Sha1) → length s.buf < 64 → update (p ++ q) s ≡ update q (update p s)
update-append p q s h =
    rw
      (
        update-absorb_all (p ++ q) s h,
        update-absorb_all p s h,
        update-absorb_all q (with_bits (count_bits s.total_bits p) (absorb_all p s))
            (absorb_all-buf-lt p s h),
        absorb_all-with_bits q (count_bits s.total_bits p) (absorb_all p s),
        absorb_all-append p q s,
      )
      (ap (λ t. with_bits t (absorb_all q (absorb_all p s))) bits)
  where
    bits : count_bits s.total_bits (p ++ q) ≡ count_bits (count_bits s.total_bits p) q
    bits = omega (arith, length-append p q)
