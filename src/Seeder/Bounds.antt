-- ===== src/Seeder/Bounds.antt =====
-- What a seeder sends fits a message.
use Prim.Native.Nat.{min}
use peer_to_peer_distributed.Base.{
  ℕ, zero, suc, ◌+◌, ◌-◌, ◌*◌, ◌≤◌, ◌<◌, ◌≡◌, refl, ap, inl, inr, not, List, [], ◌∷◌, arith, length,
  leb, length-append, if_cases, Option-cases,
}
use peer_to_peer_distributed.Text.{Str}
use peer_to_peer_distributed.OrderedMap.{find}
use peer_to_peer_distributed.OrderedMap.Lookup.{AllEntries, find-AllEntries}
use peer_to_peer_distributed.Protocol.{piece_size, max_payload}
use peer_to_peer_distributed.Buffer.{u32_bytes}
use peer_to_peer_distributed.Buffer.RoundTrip.{length-le_bytes}
use peer_to_peer_distributed.Net.{Answer, Progress}
use peer_to_peer_distributed.PieceStore.{
  PieceStore, Contents, marked, piece_len, read_bytes, read_loop, read_piece,
}
use peer_to_peer_distributed.Seeder.{Shares, get_piece_request, piece_reply, on_piece_request}
use peer_to_peer_distributed.Seeder.Keys.{share_ord}

-- No piece is larger than PIECE_SIZE.
abbrev pub HasPieces : PieceStore → Type 0
HasPieces s = (i : ℕ) → i < s.piece_count → piece_len s i ≤ piece_size

pub length-read_bytes : (pos n : ℕ) (f : Contents) → length (read_bytes pos n f) ≡ n
unfolding read_bytes
length-read_bytes pos zero f = refl
length-read_bytes pos (suc n) f = ap suc (length-read_bytes (pos + 1) n f)

length-read_loop :
    (answers : List Answer) (pos n : ℕ) (f : Contents) → length (read_loop answers pos n f).1 ≤ n
unfolding read_loop
length-read_loop answers pos zero f = omega arith
length-read_loop [] pos (suc n) f = omega arith
length-read_loop (Answer.moved zero ∷ answers) pos (suc n) f = omega arith
length-read_loop (Answer.moved (suc k) ∷ answers) pos (suc n) f =
    let j = min (suc k) (suc n) in
    omega (
      arith,
      length-append (read_bytes pos j f) (read_loop answers (pos + j) (suc n - j) f).1,
      length-read_bytes pos j f,
      length-read_loop answers (pos + j) (suc n - j) f,
    )
length-read_loop (Answer.interrupted ∷ answers) pos (suc n) f = omega arith
length-read_loop (Answer.error ∷ answers) pos (suc n) f = omega arith

length-read_piece :
    (answers : List Answer) (i : ℕ) (s : PieceStore)
    → HasPieces s
    → length (read_piece answers i s).1 ≤ piece_size
unfolding read_piece
length-read_piece answers i s h =
    if_cases Small (not s.opened) _ _ (λ _. omega arith)
      λ _.
        if_cases Small (leb s.piece_count i) _ _ (λ _. omega arith)
          λ e.
            if_cases Small (not (marked s.have i)) _ _ (λ _. omega arith)
              λ _. omega (
                arith,
                length-read_loop answers (i * piece_size) (piece_len s i) s.contents,
                h i (ground (arith, e)),
              )
  where
    Small : Progress × Str → Type 0
    Small r = length r.1 ≤ piece_size

length-piece_reply :
    (index : ℕ) (out : Progress × Str)
    → length out.1 ≤ piece_size
    → length (piece_reply index out).payload ≤ max_payload
length-piece_reply index (Progress.done, bs) h =
    let four : length (u32_bytes index) ≡ 4 = unfold u32_bytes in length-le_bytes 4 index in
    omega (arith, length-append (u32_bytes index) bs, four, h)
length-piece_reply index (_, bs) h = omega arith

-- Whatever the bytes of a request for a piece, the answer is no longer than MAX_PAYLOAD, so the peer
-- does not refuse it. The files that are shared have no piece above PIECE_SIZE.
pub on_piece_request-length :
    (reads : List Answer) (shares : Shares) (payload : Str)
    → AllEntries (λ _ s. HasPieces s) shares
    → length (on_piece_request reads shares payload).payload ≤ max_payload
unfolding on_piece_request
on_piece_request-length reads shares payload h = elim (Option-cases (get_piece_request payload)) [
  | inl e ↦ rw (e, on_piece_request) (omega arith)
  | inr (((k, index), rest), e) ↦ elim (Option-cases (find k shares)) [
    | inl n ↦ rw (e, on_piece_request) (rw n (omega arith))
    | inr (store, n) ↦
        rw (e, on_piece_request)
          (rw n (
            length-piece_reply index (read_piece reads index store) (
              length-read_piece reads index store
                (find-AllEntries (λ _ s. HasPieces s) k shares h n))))
  ]
]
