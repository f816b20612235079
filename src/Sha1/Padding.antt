-- ===== src/Sha1/Padding.antt =====
-- The padding of SHA1::final_hex: the loop that appends zero bytes, and the length of a digest.
use peer_to_peer_distributed.Base.{
  ℕ, zero, suc, ◌+◌, ◌-◌, ◌≤◌, ◌<◌, ◌≡◌, [], ◌∷◌, ◌++◌, arith, ◌==◌, leb, if◌then◌else◌, length,
  length-append, inl, inr, Bool-cases,
}
use peer_to_peer_distributed.Sha1.{Sha1, flush, update, pad_loop}
use peer_to_peer_distributed.Sha1.Streaming.{absorb, absorb_all, update-absorb_all}

-- The zero bytes that are missing.
abbrev to_56 : ℕ → ℕ
to_56 n = if leb n 56 then 56 - n else 120 - n

flush-buf : (s : Sha1) → length (flush s).buf ≡ (if length s.buf == 64 then 0 else length s.buf)
unfolding flush
flush-buf s = ground arith

zero_byte-buf :
    (s : Sha1)
    → length s.buf < 64
    → length (update (0 ∷ []) s).buf ≡ (if length s.buf == 63 then 0 else length s.buf + 1)
unfolding absorb_all absorb
zero_byte-buf s h =
    rw
      (
        update-absorb_all (0 ∷ []) s h,
        flush-buf (record s { buf = s.buf ++ 0 ∷ [] }),
        length-append s.buf (0 ∷ []),
      )
      (ground arith)

pad_loop_ends :
    (fuel : ℕ) (s : Sha1)
    → length s.buf < 64
    → to_56 (length s.buf) ≤ fuel
    → length (pad_loop fuel s).buf ≡ 56
unfolding pad_loop
pad_loop_ends zero s h k = ground arith
pad_loop_ends (suc fuel) s h k = elim (Bool-cases (length s.buf == 56)) [
  | inl e ↦ rw e (ground arith)
  | inr e ↦ rw e (
      pad_loop_ends fuel (update (0 ∷ []) s) (ground (arith, zero_byte-buf s h))
        (ground (arith, zero_byte-buf s h)))
]

-- From any buffer that is not full the loop ends, with room for exactly the eight bytes of the length.
pad_loop-buf : (s : Sha1) → length s.buf < 64 → length (pad_loop 64 s).buf ≡ 56
pad_loop-buf s h = pad_loop_ends 64 s h (ground arith)
