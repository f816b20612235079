-- ===== src/Messages/Sizes.antt =====
-- A string that was decoded is no longer than the payload that it came from.
use peer_to_peer_distributed.Base.{
  ℕ, ◌+◌, ◌≤◌, ◌≡◌, inl, inr, some, arith, length, length-take, length-drop, Option-cases,
}
use peer_to_peer_distributed.Text.{Str}
use peer_to_peer_distributed.Buffer.{◌>>=◌, get_raw, get_le, get_u32, get_str}
use peer_to_peer_distributed.Messages.{get_two}

get_raw-length :
    (n : ℕ) (b xs rest : Str) → get_raw n b ≡ some (xs, rest) → length xs + length rest ≤ length b
unfolding get_raw
get_raw-length n b xs rest h = ground (arith, length-take n b, length-drop n b)

get_le-length :
    (w : ℕ) (b : Str) (v : ℕ) (rest : Str) → get_le w b ≡ some (v, rest) → length rest ≤ length b
unfolding get_le ◌>>=◌
get_le-length w b v rest h = elim (Option-cases (get_raw w b)) [
  | inl e ↦ cc (rw (e, ◌>>=◌) at h)
  | inr ((xs, mid), e) ↦ ground (arith, get_raw-length w b xs mid)
]

pub get_str-length :
    (b s rest : Str) → get_str b ≡ some (s, rest) → length s + length rest ≤ length b
unfolding get_str get_u32 ◌>>=◌
get_str-length b s rest h = elim (Option-cases (get_le 4 b)) [
  | inl e ↦ cc (rw (e, ◌>>=◌) at h)
  | inr ((n, mid), e) ↦ ground (arith, get_le-length 4 b n mid, get_raw-length n mid s rest)
]

pub get_two-length :
    (b x y rest : Str)
    → get_two b ≡ some ((x, y), rest)
    → (length x ≤ length b) × (length y ≤ length b)
unfolding get_two ◌>>=◌
get_two-length b x y rest h = elim (Option-cases (get_str b)) [
  | inl e ↦ cc (rw (e, ◌>>=◌) at h)
  | inr ((x', mid), e) ↦ elim (Option-cases (get_str mid)) [
    | inl k ↦ absurd (ground arith)
    | inr ((y', end), k) ↦ ground (arith, get_str-length b x' mid, get_str-length mid y' end)
  ]
]
