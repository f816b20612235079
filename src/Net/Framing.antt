-- ===== src/Net/Framing.antt =====
-- A message that send_msg has sent is read back by recv_msg, however the kernel cuts the bytes.
use peer_to_peer_distributed.Base.{
  ℕ, zero, suc, ◌+◌, ◌*◌, ◌/◌, ◌%◌, ◌^◌, ◌≤◌, ◌<◌, ◌≡◌, refl, sym, ◌∙◌, ap, List, [], ◌∷◌, ◌++◌,
  arith, length, take, drop, All, ◌==◌, ge→ltb, lt→ltb, Bool-cases, inl, inr, length-append,
  take-append, drop-append, drop-drop, append-nil, append_assoc,
}
use native.Mathlib.Nat.{pow-suc}
use peer_to_peer_distributed.Text.{Str}
use peer_to_peer_distributed.Protocol.{MsgHeader, proto_magic, max_payload}
use peer_to_peer_distributed.Net.{
  Answer, Progress, Incoming, recv_loop, network_bytes, network_value, header_bytes, get_header,
  header_of, send_all, if_done, send_msg, recv_body, recv_msg,
}
use peer_to_peer_distributed.Net.Transfer.{IsProgress, moves, send_all-prefix, recv_loop-take}

length-network_bytes : (w v : ℕ) → length (network_bytes w v) ≡ w
unfolding network_bytes
length-network_bytes zero v = refl
length-network_bytes (suc w) v = omega (
  arith,
  length-append (network_bytes w (v / 256)) (v % 256 ∷ []),
  length-network_bytes w (v / 256),
)

network_value-snoc :
    (acc b : ℕ) (xs : Str) → network_value acc (xs ++ b ∷ []) ≡ network_value acc xs * 256 + b
unfolding network_value
network_value-snoc acc b [] = refl
network_value-snoc acc b (x ∷ xs) = network_value-snoc (acc * 256 + x) b xs

network_value-network_bytes : (w v : ℕ) → v < 256 ^ w → network_value 0 (network_bytes w v) ≡ v
unfolding network_bytes network_value
network_value-network_bytes zero v h = omega arith
network_value-network_bytes (suc w) v h =
    network_value-snoc 0 (v % 256) (network_bytes w (v / 256))
    ∙ omega (arith, network_value-network_bytes w (v / 256) (omega (arith, pow-suc 256 w)))

-- A field at the front, and the bytes behind it.
take_field :
    (w v : ℕ) (rest : Str) → v < 256 ^ w → network_value 0 (take w (network_bytes w v ++ rest)) ≡ v
take_field w v rest h =
    ap (network_value 0) (front (network_bytes w v) (length-network_bytes w v))
    ∙ network_value-network_bytes w v h
  where
    front : (xs : Str) → length xs ≡ w → take w (xs ++ rest) ≡ xs
    front xs e = rw (sym e) (take-append xs rest)

drop_field : (w v : ℕ) (rest : Str) → drop w (network_bytes w v ++ rest) ≡ rest
drop_field w v rest = behind (network_bytes w v) (length-network_bytes w v)
  where
    behind : (xs : Str) → length xs ≡ w → drop w (xs ++ rest) ≡ rest
    behind xs e = rw (sym e) (drop-append xs rest)

pub record HeaderFits (h : MsgHeader) : Type 0 where
  pub magic : h.magic < 2 ^ 32
  pub type : h.type < 2 ^ 16
  pub status : h.status < 2 ^ 16
  pub length : h.length < 2 ^ 32

-- Every header that fits its fields is read back from its twelve bytes.
pub get_header-header_bytes : (h : MsgHeader) → HeaderFits h → get_header (header_bytes h) ≡ h
unfolding get_header header_bytes
get_header-header_bytes h f = rw (e_magic, e_type, e_status, e_length) refl
  where
    d : Str
    d = network_bytes 4 h.length

    c : Str
    c = network_bytes 2 h.status ++ d

    b : Str
    b = network_bytes 2 h.type ++ c

    a : Str
    a = network_bytes 4 h.magic ++ b

    at_4 : drop 4 a ≡ b
    at_4 = drop_field 4 h.magic b

    at_6 : drop 6 a ≡ c
    at_6 = sym (drop-drop 2 4 a) ∙ ap (drop 2) at_4 ∙ drop_field 2 h.type c

    at_8 : drop 8 a ≡ d
    at_8 = sym (drop-drop 2 6 a) ∙ ap (drop 2) at_6 ∙ drop_field 2 h.status d

    e_magic : network_value 0 (take 4 a) ≡ h.magic
    e_magic = take_field 4 h.magic b f.magic

    e_type : network_value 0 (take 2 (drop 4 a)) ≡ h.type
    e_type = rw at_4 (take_field 2 h.type c f.type)

    e_status : network_value 0 (take 2 (drop 6 a)) ≡ h.status
    e_status = rw at_6 (take_field 2 h.status d f.status)

    e_length : network_value 0 (take 4 (drop 8 a)) ≡ h.length
    e_length = rw at_8 (rw append-nil at (take_field 4 h.length [] f.length))

header_bytes-length : (h : MsgHeader) → length (header_bytes h) ≡ 12
unfolding header_bytes
header_bytes-length h = omega (
  arith,
  length-append (network_bytes 4 h.magic)
      (network_bytes 2 h.type ++ (network_bytes 2 h.status ++ network_bytes 4 h.length)),
  length-append (network_bytes 2 h.type) (network_bytes 2 h.status ++ network_bytes 4 h.length),
  length-append (network_bytes 2 h.status) (network_bytes 4 h.length),
  length-network_bytes 4 h.magic,
  length-network_bytes 2 h.type,
  length-network_bytes 2 h.status,
  length-network_bytes 4 h.length,
)

-- The bytes of a message.
abbrev pub wire : ℕ → ℕ → Str → Str
wire type status payload = header_bytes (header_of type status payload) ++ payload

sent_in_full :
    (r : Progress) (out more h p : Str) (r' : Progress) (left left' : List Answer)
    → ((rest : Str) × (out ++ rest ≡ h) × (r ≡ Progress.done → rest ≡ []))
    → ((rest : Str) × (more ++ rest ≡ p) × (r' ≡ Progress.done → rest ≡ []))
    → (if_done {A = Progress × Str × List Answer} r
        (r', out ++ more, left')
        (λ failed. (failed, out, left))).0
      ≡ Progress.done
    → (if_done {A = Progress × Str × List Answer} r
        (r', out ++ more, left')
        (λ failed. (failed, out, left))).1
      ≡ h ++ p
sent_in_full Progress.done out more h p r' left left' (x, e, whole) (x', e', whole') ok =
    let head : out ≡ h = sym (append-nil out) ∙ ap (◌++◌ out) (sym (whole refl)) ∙ e in
    let body : more ≡ p = sym (append-nil more) ∙ ap (◌++◌ more) (sym (whole' ok)) ∙ e' in
    rw (head, body) refl
sent_in_full _ out more h p r' left left' a b ok = cc

-- When send_msg succeeds the kernel has taken the header and then the payload, all of both.
pub send_msg-wire :
    (type status : ℕ) (payload : Str) (answers : List Answer)
    → (send_msg type status payload answers).0 ≡ Progress.done
    → (send_msg type status payload answers).1 ≡ wire type status payload
unfolding send_msg
send_msg-wire type status payload answers ok =
    let h = header_bytes (header_of type status payload) in
    let (r, out, left) = send_all answers h in
    let (r', more, left') = send_all left payload in
    sent_in_full r out more h payload r' left left' (send_all-prefix answers h)
      (send_all-prefix left payload) ok

take_front : (n : ℕ) (xs rest : Str) → length xs ≡ n → take n (xs ++ rest) ≡ xs
take_front n xs rest e = rw (sym e) (take-append xs rest)

drop_front : (n : ℕ) (xs rest : Str) → length xs ≡ n → drop n (xs ++ rest) ≡ rest
drop_front n xs rest e = rw (sym e) (drop-append xs rest)

-- The first read of recv_msg.
read_header :
    (h hdr : MsgHeader) (rest : Str) (answers : List Answer) (n : ℕ)
    → HeaderFits h
    → All IsProgress answers
    → 12 + n ≤ moves answers
    → (left : List Answer) × All IsProgress left
      × (n ≤ moves left)
      × (recv_msg (record { answers = answers; stream = header_bytes h ++ rest }) hdr
          ≡ recv_body h (record { answers = left; stream = rest }))
unfolding recv_msg
read_header h hdr rest answers n f p k =
    let twelve = header_bytes-length h in
    let (left, q, m, e) =
      recv_loop-take answers 12 (header_bytes h ++ rest) p (omega arith)
        (omega (arith, length-append (header_bytes h) rest)) in
    let after : Incoming = record { answers = left; stream = rest } in
    let got : recv_loop answers 12 (header_bytes h ++ rest)
        ≡ (Progress.done, header_bytes h, after) =
      e
      ∙ rw (take_front 12 (header_bytes h) rest twelve, drop_front 12 (header_bytes h) rest twelve)
          refl in
    (
      left,
      q,
      omega arith,
      ap {A = Progress × Str × Incoming}
            (λ r. if_done r.0 (recv_body (get_header r.1) r.2) (λ failed. (failed, hdr, [], r.2)))
            got
          ∙ ap (λ x. recv_body x after) (get_header-header_bytes h f),
    )

too_long_body :
    (h : MsgHeader) (i : Incoming)
    → max_payload < h.length
    → recv_body h i ≡ (Progress.broken, h, [], i)
unfolding recv_body
too_long_body h i long = elim (Bool-cases (h.magic == proto_magic)) [
  | inl e ↦ rw (e, lt→ltb max_payload h.length long) refl
  | inr e ↦ rw e refl
]

-- While the kernel answers with progress, and often enough, the bytes of a message that fits are read
-- back as its header and its payload, whatever the pieces they come in, and the bytes behind it stay.
pub recv_msg-wire :
    (type status : ℕ) (payload rest : Str) (answers : List Answer) (hdr : MsgHeader)
    → type < 2 ^ 16
    → status < 2 ^ 16
    → length payload ≤ max_payload
    → All IsProgress answers
    → 12 + length payload ≤ moves answers
    → (left : List Answer) × (recv_msg
          (record { answers = answers; stream = wire type status payload ++ rest })
          hdr
        ≡ (
          Progress.done,
          header_of type status payload,
          payload,
          record { answers = left; stream = rest },
        ))
unfolding recv_msg recv_body
recv_msg-wire type status payload rest answers hdr ht hs hl p k =
    let h = header_of type status payload in
    let (left, q, m, e) =
      read_header h hdr (payload ++ rest) answers (length payload)
        (record { magic = omega arith; type = ht; status = hs; length = omega arith }) p k in
    let (left', q', m', e') =
      recv_loop-take left (length payload) (payload ++ rest) q m
        (omega (arith, length-append payload rest)) in
    (
      left',
      rw (append_assoc (header_bytes h) payload rest, e)
          (rw
            (
              e',
              take-append payload rest,
              drop-append payload rest,
              ge→ltb max_payload (length payload) hl,
            )
            refl),
    )

-- A message whose header fits its fields and says more than MAX_PAYLOAD is refused, and nothing
-- of its body is read, while the kernel answers with progress and often enough for the header.
pub recv_msg_too_long :
    (h hdr : MsgHeader) (rest : Str) (answers : List Answer)
    → HeaderFits h
    → max_payload < h.length
    → All IsProgress answers
    → 12 ≤ moves answers
    → (left : List Answer) × (recv_msg
          (record { answers = answers; stream = header_bytes h ++ rest })
          hdr
        ≡ (Progress.broken, h, [], record { answers = left; stream = rest }))
unfolding recv_msg recv_body
recv_msg_too_long h hdr rest answers f long p k =
    let (left, q, m, e) = read_header h hdr rest answers 0 f p k in
    (left, e ∙ too_long_body h (record { answers = left; stream = rest }) long)
