-- ===== src/Sha1.antt =====
-- common/sha1.cpp: class SHA1. A 32-bit word is a number below 2 ^ 32, and `buf` is the part of
-- `buf_` that is in use, so `buf_used_` is its length. `hash_file` is in HashFile.
pub mod Streaming
pub mod Padding
use Prim.Native.Nat.{bit_and, bit_or, bit_xor, min}
use peer_to_peer_distributed.Base.{
  ℕ, zero, suc, ◌+◌, ◌-◌, ◌*◌, ◌/◌, ◌%◌, ◌^◌, List, [], ◌∷◌, ◌++◌, ltb, ◌==◌, if◌then◌else◌, length,
  take, drop,
}
use peer_to_peer_distributed.Text.{Str}
use mathlib.Core.List.{reverse}

pub record Words : Type 0 where
  pub a : ℕ
  pub b : ℕ
  pub c : ℕ
  pub d : ℕ
  pub e : ℕ

pub record Sha1 : Type 0 where
  pub h : Words
  pub buf : Str
  pub total_bits : ℕ

abbrev u32_mod : ℕ
u32_mod = 2 ^ 32

abbrev add32 : ℕ → ℕ → ℕ
add32 x y = (x + y) % u32_mod

abbrev not32 : ℕ → ℕ
not32 x = u32_mod - 1 - x

unfoldable pub rol : ℕ → ℕ → ℕ
rol v n = bit_or (v * 2 ^ n % u32_mod) (v / 2 ^ (32 - n))

abbrev pub reset : Sha1
reset = record {
  h = record { a = 0x67452301; b = 0xEFCDAB89; c = 0x98BADCFE; d = 0x10325476; e = 0xC3D2E1F0 };
  buf = [];
  total_bits = 0;
}

abbrev byte_at : Str → ℕ → ℕ
byte_at [] i = 0
byte_at (x ∷ xs) zero = x
byte_at (x ∷ xs) (suc i) = byte_at xs i

-- w[0], …, w[15]: four bytes each, the first the highest.
unfoldable pub block_words : ℕ → Str → List ℕ
block_words zero p = []
block_words (suc n) p =
    bit_or (bit_or (byte_at p 0 * 2 ^ 24) (byte_at p 1 * 2 ^ 16))
      (bit_or (byte_at p 2 * 2 ^ 8) (byte_at p 3))
    ∷ block_words n (drop 4 p)

-- w[16], …, w[79]. The list holds the words so far, the last one first.
unfoldable pub extend_words : ℕ → List ℕ → List ℕ
unfolding rol
extend_words zero ws = ws
extend_words (suc n) ws = extend_words n (
    rol (bit_xor (bit_xor (byte_at ws 2) (byte_at ws 7)) (bit_xor (byte_at ws 13) (byte_at ws 15)))
      1
    ∷ ws)

unfoldable pub choose_f : ℕ → Words → ℕ
choose_f i v =
    if ltb i 20
    then bit_or (bit_and v.b v.c) (bit_and (not32 v.b) v.d)
    else if ltb i 40
    then bit_xor (bit_xor v.b v.c) v.d
    else if ltb i 60
    then bit_or (bit_or (bit_and v.b v.c) (bit_and v.b v.d)) (bit_and v.c v.d)
    else bit_xor (bit_xor v.b v.c) v.d

unfoldable pub choose_k : ℕ → ℕ
choose_k i =
    if ltb i 20
    then 0x5A827999
    else if ltb i 40
    then 0x6ED9EBA1
    else if ltb i 60
    then 0x8F1BBCDC
    else 0xCA62C1D6

unfoldable pub round : ℕ → ℕ → Words → Words
unfolding choose_f choose_k rol
round i w v =
    let t = add32 (add32 (add32 (add32 (rol v.a 5) (choose_f i v)) v.e) (choose_k i)) w in
    record { a = t; b = v.a; c = rol v.b 30; d = v.c; e = v.d }

unfoldable pub rounds : ℕ → List ℕ → Words → Words
unfolding round
rounds i [] v = v
rounds i (w ∷ ws) v = rounds (i + 1) ws (round i w v)

unfoldable pub transform : Str → Words → Words
unfolding block_words extend_words rounds
transform p h =
    let v = rounds 0 (reverse (extend_words 64 (reverse (block_words 16 p)))) h in
    record {
      a = add32 h.a v.a;
      b = add32 h.b v.b;
      c = add32 h.c v.c;
      d = add32 h.d v.d;
      e = add32 h.e v.e;
    }

-- `if (buf_used_ == 64) { transform(buf_); buf_used_ = 0; }`
unfoldable pub flush : Sha1 → Sha1
flush s = if length s.buf == 64 then record s { h = transform s.buf s.h; buf = [] } else s

-- `while (n > 0)`; each round takes a byte at least, so `length data` rounds are enough.
unfoldable pub update_loop : ℕ → Str → Sha1 → Sha1
unfolding flush
update_loop zero p s = s
update_loop (suc fuel) [] s = s
update_loop (suc fuel) (x ∷ p) s =
    let n = min (64 - length s.buf) (length (x ∷ p)) in
    update_loop fuel (drop n (x ∷ p)) (flush (record s { buf = s.buf ++ take n (x ∷ p) }))

unfoldable pub update : Str → Sha1 → Sha1
unfolding update_loop
update p s =
    update_loop (length p) p
      (record s { total_bits = (s.total_bits + length p * 8 % 2 ^ 64) % 2 ^ 64 })

-- `while (buf_used_ != 56) update(&zero, 1)`
unfoldable pub pad_loop : ℕ → Sha1 → Sha1
unfolding update
pad_loop zero s = s
pad_loop (suc fuel) s =
    let rest = pad_loop fuel (update (0 ∷ []) s) in if length s.buf == 56 then s else rest

-- `len[i] = (bits >> (56 - 8*i)) & 0xFF`
unfoldable pub be_bytes : ℕ → ℕ → Str
be_bytes zero v = []
be_bytes (suc w) v = v / 256 ^ w % 256 ∷ be_bytes w v

-- One lower-case hexadecimal digit, and the eight of `%08x`.
unfoldable pub hex_digit : ℕ → ℕ
hex_digit n = if ltb n 10 then 48 + n else 87 + n

unfoldable pub hex : ℕ → ℕ → Str
unfolding hex_digit
hex zero v = []
hex (suc w) v = hex_digit (v / 16 ^ w % 16) ∷ hex w v

-- The buffer is full up to the eight bytes of the length when the loop ends, after 63 rounds at most.
unfoldable pub finish : Sha1 → Words
unfolding update pad_loop be_bytes
finish s =
    let padded = pad_loop 64 (update (0x80 ∷ []) s) in
    transform (padded.buf ++ be_bytes 8 s.total_bits) padded.h

unfoldable pub final_hex : Sha1 → Str
unfolding finish hex
final_hex s = let v = finish s in hex 8 v.a ++ hex 8 v.b ++ hex 8 v.c ++ hex 8 v.d ++ hex 8 v.e

unfoldable pub hash_buffer : Str → Str
unfolding update final_hex
hash_buffer p = final_hex (update p reset)
