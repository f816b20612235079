-- ===== src/Examples/Wire.antt =====
-- Messages and their bytes, on concrete data.
use peer_to_peer_distributed.Base.{◌^◌, ◌≡◌, refl, some, List, [], ◌∷◌, ◌++◌, All, arith}
use peer_to_peer_distributed.Examples.{alice, bob}
use peer_to_peer_distributed.Protocol.{MsgHeader, proto_magic}
use peer_to_peer_distributed.Buffer.{get_str, le_value}
use peer_to_peer_distributed.Buffer.Cursor.{Cursor, cursor_str, cursor_str-get_str, forget, unread}
use peer_to_peer_distributed.Net.{
  Answer, Progress, header_bytes, header_of, network_bytes, send_msg, recv_msg,
}
use peer_to_peer_distributed.Net.Transfer.{IsProgress}
use peer_to_peer_distributed.Net.Framing.{wire, send_msg-wire, recv_msg-wire, recv_msg_too_long}

abbrev half_read : Cursor
half_read = record { bytes = 9 ∷ 1 ∷ 0 ∷ 0 ∷ 0 ∷ 97 ∷ 98 ∷ []; rpos = 1 }

cursor_str-get_str_example : forget (cursor_str half_read) ≡ get_str (unread half_read)
cursor_str-get_str_example = cursor_str-get_str half_read

half_read_test : forget (cursor_str half_read) ≡ some (alice, bob)
unfolding cursor_str le_value
half_read_test = refl

-- The kernel moves three bytes at a time, and is interrupted once.
abbrev steady : List Answer
steady =
    Answer.moved 3
    ∷ Answer.interrupted
    ∷ Answer.moved 3
    ∷ Answer.moved 3
    ∷ Answer.moved 3
    ∷ Answer.moved 1
    ∷ Answer.moved 1
    ∷ Answer.moved 1
    ∷ Answer.moved 1
    ∷ Answer.moved 1
    ∷ Answer.moved 1
    ∷ Answer.moved 1
    ∷ Answer.moved 1
    ∷ Answer.moved 1
    ∷ Answer.moved 1
    ∷ []

steady-IsProgress : All IsProgress steady
steady-IsProgress =
    (tt, (tt, (tt, (tt, (tt, (tt, (tt, (tt, (tt, (tt, (tt, (tt, (tt, (tt, (tt, tt)))))))))))))))

abbrev large_header : MsgHeader
large_header = record { magic = proto_magic; type = 1; status = 0; length = 2 ^ 31 }

steady_sends : (send_msg 1 0 alice steady).0 ≡ Progress.done
unfolding send_msg network_bytes
steady_sends = refl

send_msg-wire_example : (send_msg 1 0 alice steady).1 ≡ wire 1 0 alice
send_msg-wire_example = send_msg-wire 1 0 alice steady steady_sends

recv_msg-wire_example :
    (left : List Answer) × (recv_msg
        (record { answers = steady; stream = wire 1 0 alice ++ bob })
        large_header
      ≡ (Progress.done, header_of 1 0 alice, alice, record { answers = left; stream = bob }))
recv_msg-wire_example =
    recv_msg-wire 1 0 alice bob steady large_header (omega arith) (omega arith) (omega arith)
      steady-IsProgress (omega arith)

recv_msg_too_long_example :
    (left : List Answer) × (recv_msg
        (record { answers = steady; stream = header_bytes large_header ++ bob })
        (header_of 0 0 [])
      ≡ (Progress.broken, large_header, [], record { answers = left; stream = bob }))
recv_msg_too_long_example =
    recv_msg_too_long large_header (header_of 0 0 []) bob steady
      (record {
        magic = omega arith;
        type = omega arith;
        status = omega arith;
        length = omega arith;
      })
      (omega arith) steady-IsProgress (omega arith)
