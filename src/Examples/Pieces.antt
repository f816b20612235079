-- ===== src/Examples/Pieces.antt =====
-- The piece store on concrete data.
use peer_to_peer_distributed.Base.{
  ℕ, ◌+◌, ◌∙◌, ap, ◌≤◌, some, ◌≡◌, refl, List, [], ◌∷◌, ◌++◌, arith, true, All, replicate,
}
use peer_to_peer_distributed.OrderedMap.{Ord, find}
use peer_to_peer_distributed.OrderedMap.Lookup.{find_at}
use peer_to_peer_distributed.Seeder.Keys.{ShareKey, share_ord}
use peer_to_peer_distributed.Seeder.Fetch.{piece_request, fetch_piece, reply_wire}
use peer_to_peer_distributed.Seeder.{serve_peer}
use peer_to_peer_distributed.Buffer.{str_bytes, u32_bytes, le_bytes}
use peer_to_peer_distributed.Net.Transfer.{IsProgress}
use peer_to_peer_distributed.Download.Workers.{attempt_piece}
use peer_to_peer_distributed.Download.Supply.{supplied_piece}
use peer_to_peer_distributed.Examples.{club}
use peer_to_peer_distributed.Text.{Str, compare_str}
use peer_to_peer_distributed.Net.{Answer, Progress, Incoming, send_msg, network_bytes}
use peer_to_peer_distributed.Protocol.{MsgType, opcode}
use peer_to_peer_distributed.Sha1.{hash_buffer, transform}
use peer_to_peer_distributed.PieceStore.{
  marked, open_for_seed, piece_len, read_bytes, PieceStore, open_for_download, complete, read_piece,
  write_piece,
}
use peer_to_peer_distributed.PieceStore.Bitmap.{marked-replicate}
use peer_to_peer_distributed.PieceStore.Verified.{
  piece, StoreValid, open_for_download-StoreValid, write_piece-StoreValid,
}
use peer_to_peer_distributed.PieceStore.Transfer.{read_piece-write_piece}

abbrev three_bytes : Str
three_bytes = 1 ∷ 2 ∷ 3 ∷ []

abbrev empty_store : PieceStore
empty_store = open_for_download (λ i. 0) 3 1

abbrev expected : ℕ → Str
expected i = hash_buffer three_bytes

-- The kernel writes two bytes, then one.
abbrev two_and_one : List Answer
two_and_one = Answer.moved 2 ∷ Answer.moved 1 ∷ []

abbrev ones : List Answer
ones = Answer.moved 1 ∷ Answer.moved 1 ∷ Answer.moved 1 ∷ []

empty_store-StoreValid : StoreValid expected empty_store
empty_store-StoreValid =
    open_for_download-StoreValid expected (λ i. 0) 3 1 (omega arith) (omega arith) (omega arith)
      (omega arith)

write_piece-StoreValid_example :
    StoreValid expected
      (write_piece two_and_one 0 three_bytes (hash_buffer three_bytes) empty_store).1
write_piece-StoreValid_example =
    write_piece-StoreValid expected empty_store empty_store-StoreValid two_and_one 0 three_bytes
      (marked-replicate 1 0)

write_succeeds :
    (write_piece two_and_one 0 three_bytes (hash_buffer three_bytes) empty_store).0 ≡ Progress.done
unfolding write_piece compare_str hash_buffer transform
write_succeeds = refl

read_piece-write_piece_example :
    read_piece ones 0
      (write_piece two_and_one 0 three_bytes (hash_buffer three_bytes) empty_store).1
    ≡ (Progress.done, three_bytes)
read_piece-write_piece_example =
    read_piece-write_piece two_and_one ones 0 three_bytes (hash_buffer three_bytes) empty_store refl
      (omega arith, tt) write_succeeds (tt, (tt, (tt, tt))) (omega arith)

abbrev full_store : PieceStore
full_store = (write_piece two_and_one 0 three_bytes (hash_buffer three_bytes) empty_store).1

full_store-StoreValid : StoreValid expected full_store
full_store-StoreValid =
    write_piece-StoreValid expected empty_store empty_store-StoreValid two_and_one 0 three_bytes
      (marked-replicate 1 0)

all_written : complete full_store ≡ true
unfolding write_piece compare_str hash_buffer transform complete
all_written = refl

-- A seeder with the file, and the key that it is shared under.
abbrev seed_store : PieceStore
seed_store = open_for_seed (λ i. i + 1) 3 1

seed_piece : piece seed_store 0 ≡ three_bytes
unfolding piece_len read_bytes
seed_piece = refl

seed_store-StoreValid : StoreValid expected seed_store
seed_store-StoreValid = record {
  size = omega arith;
  count = omega arith;
  covered = omega arith;
  tight = omega arith;
  bitmap = refl;
  bytes = (omega arith, tt);
  verified = λ i l m.
      let first : i ≡ 0 = omega (arith, l) in
      ap (λ j. hash_buffer (piece seed_store j)) first ∙ ap hash_buffer seed_piece;
}

abbrev seed_key : ShareKey
seed_key = record { group = club; file = 109 ∷ [] }

seed_found : find seed_key ((seed_key, seed_store) ∷ []) ≡ some seed_store
seed_found = find_at seed_key seed_key seed_store [] (Ord.cmp_self share_ord seed_key)

seed_marked : marked seed_store.have 0 ≡ true
unfolding marked
seed_marked = refl

short_piece : piece_len seed_store 0 ≤ 3
unfolding piece_len
short_piece = omega arith

abbrev two_calls : List Answer
two_calls = Answer.moved 12 ∷ Answer.moved 14 ∷ []

abbrev byte_by_byte : List Answer
byte_by_byte = replicate 19 (Answer.moved 1)

byte_by_byte-IsProgress : All IsProgress byte_by_byte
byte_by_byte-IsProgress = (
  tt,
  (
    tt,
    (
      tt,
      (
        tt,
        (
          tt,
          (tt, (tt, (tt, (tt, (tt, (tt, (tt, (tt, (tt, (tt, (tt, (tt, (tt, (tt, tt)))))))))))))),
        ),
      ),
    ),
  ),
)

request_sent :
    (send_msg (opcode MsgType.piece_request) 0 (piece_request seed_key 0) two_calls).0
    ≡ Progress.done
unfolding send_msg network_bytes piece_request str_bytes u32_bytes le_bytes opcode
request_sent = refl

-- The seeder's answer is on its way.
abbrev answering : Incoming
answering = record {
  answers = byte_by_byte;
  stream =
      reply_wire (
        serve_peer ones ((seed_key, seed_store) ∷ []) (piece_request seed_key 0)
          MsgType.piece_request)
      ++ [];
}

supplied_piece_example :
    (attempt_piece expected 0
      (record { fetched = fetch_piece two_calls answering seed_key 0; writes = ones; now = 5 })
      empty_store).0
    ≡ Progress.done
supplied_piece_example =
    supplied_piece expected two_calls ones ones answering [] 5 0 ((seed_key, seed_store) ∷ [])
      seed_key seed_store empty_store seed_found seed_store-StoreValid refl (omega arith)
      seed_marked refl refl (omega arith) request_sent refl byte_by_byte-IsProgress
      (omega (arith, short_piece)) (tt, (tt, (tt, tt))) short_piece (tt, (tt, (tt, tt))) short_piece
