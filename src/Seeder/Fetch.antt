-- ===== src/Seeder/Fetch.antt =====
-- DownloadManager::fetch_piece, and the piece that a peer gets from a seeder by it.
use peer_to_peer_distributed.Base.{
  ℕ, ◌+◌, ◌≤◌, ◌^◌, ◌<◌, ◌≡◌, All, refl, sym, ◌∙◌, ap, none, some, Option, List, [], ◌++◌, length,
  drop, ◌==◌, ==_iff, append-nil, drop-append, if◌then◌else◌,
}
use peer_to_peer_distributed.Text.{Str}
use peer_to_peer_distributed.OrderedMap.{find}
use peer_to_peer_distributed.Protocol.{
  Status, MsgType, MsgHeader, opcode, opcode-lt, status_code, status_code-lt, max_payload,
}
use peer_to_peer_distributed.Buffer.{get_u32, u32_bytes, str_bytes}
use peer_to_peer_distributed.Buffer.RoundTrip.{
  read_step, get_u32-u32_bytes, get_str-str_bytes, length-le_bytes,
}
use peer_to_peer_distributed.Messages.{get_two}
use peer_to_peer_distributed.Net.{
  Answer, Progress, Incoming, if_done, header_of, send_msg, recv_msg,
}
use peer_to_peer_distributed.Net.Framing.{wire, recv_msg-wire}
use peer_to_peer_distributed.Net.Transfer.{IsProgress, moves}
use peer_to_peer_distributed.PieceStore.{PieceStore, read_piece}
use peer_to_peer_distributed.Seeder.{
  Shares, Reply, refuse, get_piece_request, piece_reply, on_piece_request,
}
use peer_to_peer_distributed.Seeder.Keys.{ShareKey, share_ord}

unfoldable pub piece_request : ShareKey → ℕ → Str
piece_request k index = str_bytes k.group ++ (str_bytes k.file ++ u32_bytes index)

-- The end of fetch_piece, on the message that came back.
unfoldable pub accept_piece : ℕ → Str → Option Str
accept_piece index payload = elim (get_u32 payload) [
  | none ↦ none
  | some (got_index, rest) ↦ if got_index == index then some (drop 4 payload) else none
]

unfoldable accept_message : ℕ → MsgHeader → Str → Option Str
unfolding accept_piece
accept_message index h payload =
    if h.type == opcode MsgType.piece_data
    then if h.status == status_code Status.ok then accept_piece index payload else none
    else none

-- fetch_piece: what the kernel answers while the request is sent, and what arrives on the connection,
-- are arguments. recv_msg sets the header that it is given before it succeeds.
unfoldable pub fetch_piece : List Answer → Incoming → ShareKey → ℕ → Option Str
unfolding piece_request accept_message
fetch_piece sends arriving k index =
    let (sent, out, left) =
      send_msg (opcode MsgType.piece_request) 0 (piece_request k index) sends in
    let (got, h, payload, rest) = recv_msg arriving (header_of 0 0 []) in
    if_done sent (if_done got (accept_message index h payload) (λ _. none)) (λ _. none)

-- A reply as the seeder sends it.
abbrev pub reply_wire : Reply → Str
reply_wire reply = wire (opcode reply.type) (status_code reply.status) reply.payload

unfoldable pub accept_reply : ℕ → Reply → Option Str
unfolding accept_message
accept_reply index reply =
    accept_message index (header_of (opcode reply.type) (status_code reply.status) reply.payload)
      reply.payload

get_piece_request-piece_request :
    (k : ShareKey) (index : ℕ)
    → length k.group < 2 ^ 32
    → length k.file < 2 ^ 32
    → index < 2 ^ 32
    → get_piece_request (piece_request k index) ≡ some ((k, index), [])
unfolding get_piece_request piece_request get_two
get_piece_request-piece_request k index hg hf hi =
    read_step _ _ _
      (read_step _ _ _ (get_str-str_bytes k.group _ hg)
        (read_step _ _ _ (get_str-str_bytes k.file (u32_bytes index) hf) refl))
      (read_step _ _ _ (rw append-nil at (get_u32-u32_bytes index [] hi)) refl)

accept_piece-u32_bytes :
    (index : ℕ) (bs : Str) → index < 2 ^ 32 → accept_piece index (u32_bytes index ++ bs) ≡ some bs
unfolding accept_piece
accept_piece-u32_bytes index bs h =
    let four : length (u32_bytes index) ≡ 4 = unfold u32_bytes in length-le_bytes 4 index in
    let rest : drop 4 (u32_bytes index ++ bs) ≡ bs =
      rw (sym four) (drop-append (u32_bytes index) bs) in
    rw (get_u32-u32_bytes index bs h, accept_piece) (rw (rest, (==_iff index index).1 refl) refl)

-- What a reader of a piece gets out of read_piece.
abbrev pub bytes_of : Progress × Str → Option Str
bytes_of (r, bs) = if_done r (some bs) (λ _. none)

pub accept_piece_reply :
    (index : ℕ) (out : Progress × Str)
    → index < 2 ^ 32
    → accept_reply index (piece_reply index out) ≡ bytes_of out
unfolding accept_reply accept_message accept_piece opcode status_code
accept_piece_reply index (Progress.done, bs) h = accept_piece-u32_bytes index bs h
accept_piece_reply index (_, bs) h = refl

abbrev pub reply_of : List Answer → ℕ → Option PieceStore → Reply
reply_of reads index none = refuse MsgType.piece_data Status.not_found
reply_of reads index (some store) = piece_reply index (read_piece reads index store)

pub answered :
    (reads : List Answer) (shares : Shares) (k : ShareKey) (index : ℕ)
    → length k.group < 2 ^ 32
    → length k.file < 2 ^ 32
    → index < 2 ^ 32
    → on_piece_request reads shares (piece_request k index) ≡ reply_of reads index (find k shares)
unfolding on_piece_request
answered reads shares k index hg hf hi =
    rw (get_piece_request-piece_request k index hg hf hi, on_piece_request)
      (by_store (find k shares))
  where
    by_store :
        (o : Option PieceStore)
        → (elim o [
          | none ↦ refuse MsgType.piece_data Status.not_found
          | some store ↦ piece_reply index (read_piece reads index store)
        ])
          ≡ reply_of reads index o
    by_store none = refl
    by_store (some store) = refl

-- Once a request is sent whole and the reply arrives.
pub fetch_piece-reply :
    (sends : List Answer) (arriving : Incoming) (k : ShareKey) (index : ℕ) (reply : Reply)
    (behind : Str)
    → (send_msg (opcode MsgType.piece_request) 0 (piece_request k index) sends).0 ≡ Progress.done
    → arriving.stream ≡ reply_wire reply ++ behind
    → length reply.payload ≤ max_payload
    → All IsProgress arriving.answers
    → 12 + length reply.payload ≤ moves arriving.answers
    → fetch_piece sends arriving k index ≡ accept_reply index reply
unfolding fetch_piece accept_reply accept_message
fetch_piece-reply sends arriving k index reply behind sent arrives short moving enough =
    let (left, e) =
      recv_msg-wire (opcode reply.type) (status_code reply.status) reply.payload behind
        arriving.answers (header_of 0 0 []) (opcode-lt reply.type) (status_code-lt reply.status)
        short moving enough in
    let read =
      ap (λ x. recv_msg (record { answers = arriving.answers; stream = x }) (header_of 0 0 []))
        arrives
      ∙ e in
    ap (λ r. if_done r (fetched index (recv_msg arriving (header_of 0 0 []))) (λ _. none)) sent
    ∙ ap (fetched index) read
  where
    fetched : ℕ → Progress × MsgHeader × Str × Incoming → Option Str
    fetched index x = if_done x.0 (accept_message index x.1 x.2) (λ _. none)
