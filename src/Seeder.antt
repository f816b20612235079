-- ===== src/Seeder.antt =====
-- client/seeder.hpp and client/seeder.cpp: the files that a client shares, and what it answers to a
-- peer. A store is shared once its download is complete, and nobody writes to it then, so the table
-- holds stores by value. The kernel's answers to the reads of a request are an argument.
pub mod Keys
pub mod Fetch
pub mod Bounds
use peer_to_peer_distributed.Base.{ℕ, Option, none, some, List, [], ◌∷◌, ◌++◌}
use peer_to_peer_distributed.Text.{Str}
use peer_to_peer_distributed.OrderedMap.{Map, find, put, erase}
use peer_to_peer_distributed.Protocol.{Status, MsgType}
use peer_to_peer_distributed.Buffer.{Reader, ◌>>=◌, pure, get_u32, u32_bytes}
use peer_to_peer_distributed.Messages.{get_two}
use peer_to_peer_distributed.Net.{Answer, Progress, if_done}
use peer_to_peer_distributed.PieceStore.{PieceStore, read_piece}
use peer_to_peer_distributed.Seeder.Keys.{ShareKey, share_ord}

abbrev pub Shares : Type 0
Shares = Map ShareKey PieceStore

abbrev pub add_share : ShareKey → PieceStore → Shares → Shares
add_share k store shares = put k store shares

abbrev pub remove_share : ShareKey → Shares → Shares
remove_share k shares = erase k shares

-- What is sent back: the three arguments of send_msg.
pub record Reply : Type 0 where
  pub type : MsgType
  pub status : Status
  pub payload : Str

abbrev pub refuse : MsgType → Status → Reply
refuse type status = record { type = type; status = status; payload = [] }

unfoldable pub get_piece_request : Reader (ShareKey × ℕ)
get_piece_request = do
  (group, file) ← get_two
  index ← get_u32
  pure (record { group = group; file = file }, index)

-- The answer to a request for a piece, once its bytes were read.
abbrev pub piece_reply : ℕ → Progress × Str → Reply
piece_reply index (r, bytes) =
    if_done r
      (record { type = MsgType.piece_data; status = Status.ok; payload = u32_bytes index ++ bytes })
      (λ _. refuse MsgType.piece_data Status.not_found)

module _ (reads : List Answer) (shares : Shares) (payload : Str) where
  unfoldable pub on_piece_request : Reply
  on_piece_request = elim (get_piece_request payload) [
    | none ↦ refuse MsgType.piece_data Status.malformed
    | some ((k, index), rest) ↦ elim (find k shares) [
      | none ↦ refuse MsgType.piece_data Status.not_found
      | some store ↦ piece_reply index (read_piece reads index store)
    ]
  ]

  unfoldable pub on_bitfield_request : Reply
  on_bitfield_request = elim (get_two payload) [
    | none ↦ refuse MsgType.bitfield_data Status.malformed
    | some ((group, file), rest) ↦ elim (find (record { group = group; file = file }) shares) [
      | none ↦ refuse MsgType.bitfield_data Status.not_found
      | some store ↦ record {
        type = MsgType.bitfield_data;
        status = Status.ok;
        payload = store.have;
      }
    ]
  ]

  -- One round of serve_peer's loop.
  unfoldable pub serve_peer : MsgType → Reply
  serve_peer MsgType.piece_request = on_piece_request
  serve_peer MsgType.bitfield_request = on_bitfield_request
  serve_peer _ = refuse MsgType.response Status.not_implemented
