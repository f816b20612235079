-- ===== src/Net.antt =====
-- common/net.cpp: send_all, recv_all, send_msg and recv_msg. What the kernel answers to each call of
-- send or recv is an argument, one answer a call; a loop that has used them all up is still waiting.
-- Opening and closing a socket are calls of the system, and are not modelled.
pub mod Transfer
pub mod Phrases
pub mod Framing
use Prim.Native.Nat.{min}
use peer_to_peer_distributed.Base.{
  ℕ, zero, suc, ◌+◌, ◌-◌, ◌*◌, ◌/◌, ◌%◌, ◌^◌, List, [], ◌∷◌, ◌++◌, ltb, ◌==◌, if◌then◌else◌, length,
  take, drop,
}
use peer_to_peer_distributed.Text.{Str}
use peer_to_peer_distributed.Protocol.{MsgHeader, proto_magic, max_payload}

-- The result of a call: `k` bytes were moved, `errno == EINTR`, or another error.
pub data Answer : Type 0 where
  moved : ℕ → Answer
  interrupted : Answer
  error : Answer

-- The functions' results 1, 0 and -1, and a loop that has no answer yet.
pub data Progress : Type 0 where
  done : Progress
  closed : Progress
  broken : Progress
  waiting : Progress

-- send_all: the result, the bytes that the kernel took, and the answers that are left. The kernel
-- takes no more than it was given.
unfoldable pub send_all : List Answer → Str → Progress × Str × List Answer
send_all answers [] = (Progress.done, [], answers)
send_all [] (x ∷ p) = (Progress.waiting, [], [])
send_all (Answer.moved zero ∷ answers) (x ∷ p) = (Progress.closed, [], answers)
send_all (Answer.moved (suc k) ∷ answers) (x ∷ p) =
    let (r, out, left) = send_all answers (drop k p) in (r, x ∷ take k p ++ out, left)
send_all (Answer.interrupted ∷ answers) (x ∷ p) = send_all answers (x ∷ p)
send_all (Answer.error ∷ answers) (x ∷ p) = (Progress.broken, [], answers)

-- What recv_all is given: the kernel's answers, and the bytes that the peer has sent.
pub record Incoming : Type 0 where
  pub answers : List Answer
  pub stream : Str

-- recv_all: the result, the bytes that were read, and what is left of the input.
unfoldable pub recv_loop : List Answer → ℕ → Str → Progress × Str × Incoming
recv_loop answers zero stream = (Progress.done, [], record { answers = answers; stream = stream })
recv_loop [] (suc n) stream = (Progress.waiting, [], record { answers = []; stream = stream })
recv_loop (Answer.moved zero ∷ answers) (suc n) stream =
    (Progress.closed, [], record { answers = answers; stream = stream })
recv_loop (Answer.moved (suc k) ∷ answers) (suc n) stream =
    let j = min (suc k) (suc n) in
    let (r, got, left) = recv_loop answers (suc n - j) (drop j stream) in
    (r, take j stream ++ got, left)
recv_loop (Answer.interrupted ∷ answers) (suc n) stream = recv_loop answers (suc n) stream
recv_loop (Answer.error ∷ answers) (suc n) stream =
    (Progress.broken, [], record { answers = answers; stream = stream })

abbrev pub recv_all : ℕ → Incoming → Progress × Str × Incoming
recv_all n i = recv_loop i.answers n i.stream

-- htons and htonl, and back: the highest byte first.
unfoldable pub network_bytes : ℕ → ℕ → Str
network_bytes zero v = []
network_bytes (suc w) v = network_bytes w (v / 256) ++ v % 256 ∷ []

unfoldable pub network_value : ℕ → Str → ℕ
network_value acc [] = acc
network_value acc (b ∷ bs) = network_value (acc * 256 + b) bs

-- The header as it is packed, and as it is read: 4, 2, 2 and 4 bytes.
unfoldable pub header_bytes : MsgHeader → Str
header_bytes h =
    network_bytes 4 h.magic
    ++ (network_bytes 2 h.type ++ (network_bytes 2 h.status ++ network_bytes 4 h.length))

unfoldable pub get_header : Str → MsgHeader
get_header b = record {
  magic = network_value 0 (take 4 b);
  type = network_value 0 (take 2 (drop 4 b));
  status = network_value 0 (take 2 (drop 6 b));
  length = network_value 0 (take 4 (drop 8 b));
}

abbrev pub header_of : ℕ → ℕ → Str → MsgHeader
header_of type status payload = record {
  magic = proto_magic;
  type = type;
  status = status;
  length = length payload;
}

-- `if (r != 1) return r`
abbrev pub if_done {ℓ} : {A : Type ℓ} → Progress → A → (Progress → A) → A
if_done Progress.done next fail = next
if_done r next fail = fail r

-- send_msg
unfoldable pub send_msg : ℕ → ℕ → Str → List Answer → Progress × Str × List Answer
unfolding send_all header_bytes
send_msg type status payload answers =
    let (r, out, left) = send_all answers (header_bytes (header_of type status payload)) in
    let (r', more, rest) = send_all left payload in
    if_done r (r', out ++ more, rest) (λ failed. (failed, out, left))

-- recv_msg, given the caller's header; the payload has a meaning only when the result is success.
unfoldable pub recv_body : MsgHeader → Incoming → Progress × MsgHeader × Str × Incoming
recv_body h i =
    let (r, payload, left) = recv_all h.length i in
    if h.magic == proto_magic
    then if ltb max_payload h.length then (Progress.broken, h, [], i) else (r, h, payload, left)
    else (Progress.broken, h, [], i)

unfoldable pub recv_msg : Incoming → MsgHeader → Progress × MsgHeader × Str × Incoming
unfolding recv_loop get_header recv_body
recv_msg i hdr =
    let (r, b, left) = recv_all 12 i in
    if_done r (recv_body (get_header b) left) (λ failed. (failed, hdr, [], left))
