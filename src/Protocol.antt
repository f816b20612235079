-- ===== src/Protocol.antt =====
-- common/protocol.hpp: the opcodes, the status codes, the limits and the message header.
-- `switch (type)` over the 16-bit opcode is a match on `msg_type`, whose `none` is the default case.
use peer_to_peer_distributed.Base.{
  ℕ, ◌+◌, ◌*◌, ◌<◌, ◌^◌, ◌≡◌, refl, ◌==◌, if◌then◌else◌, Option, none, some, arith,
}

abbrev pub proto_magic : ℕ
proto_magic = 0x50325046

abbrev pub piece_size : ℕ
piece_size = 512 * 1024

abbrev pub max_payload : ℕ
max_payload = piece_size + 8192

abbrev pub sha1_hex_len : ℕ
sha1_hex_len = 40

-- enum MsgType : uint16_t
pub data MsgType : Type 0 where
  create_user : MsgType
  login : MsgType
  logout : MsgType
  create_group : MsgType
  join_group : MsgType
  leave_group : MsgType
  list_groups : MsgType
  list_requests : MsgType
  accept_request : MsgType
  upload_file : MsgType
  list_files : MsgType
  get_file_meta : MsgType
  stop_share : MsgType
  have_pieces : MsgType
  response : MsgType
  piece_request : MsgType
  piece_data : MsgType
  bitfield_request : MsgType
  bitfield_data : MsgType
  sync_op : MsgType
  sync_ack : MsgType
  sync_catchup : MsgType
  sync_hello : MsgType
  sync_snapshot_request : MsgType
  sync_snapshot_data : MsgType

unfoldable pub opcode : MsgType → ℕ
opcode create_user = 0x0101
opcode login = 0x0102
opcode logout = 0x0103
opcode create_group = 0x0104
opcode join_group = 0x0105
opcode leave_group = 0x0106
opcode list_groups = 0x0107
opcode list_requests = 0x0108
opcode accept_request = 0x0109
opcode upload_file = 0x010a
opcode list_files = 0x010b
opcode get_file_meta = 0x010c
opcode stop_share = 0x010d
opcode have_pieces = 0x010e
opcode response = 0x0201
opcode piece_request = 0x0301
opcode piece_data = 0x0302
opcode bitfield_request = 0x0303
opcode bitfield_data = 0x0304
opcode sync_op = 0x0401
opcode sync_ack = 0x0402
opcode sync_catchup = 0x0403
opcode sync_hello = 0x0404
opcode sync_snapshot_request = 0x0405
opcode sync_snapshot_data = 0x0406

unfoldable pub msg_type : ℕ → Option MsgType
msg_type c =
    if c == 0x0101
    then some create_user
    else if c == 0x0102
    then some login
    else if c == 0x0103
    then some logout
    else if c == 0x0104
    then some create_group
    else if c == 0x0105
    then some join_group
    else if c == 0x0106
    then some leave_group
    else if c == 0x0107
    then some list_groups
    else if c == 0x0108
    then some list_requests
    else if c == 0x0109
    then some accept_request
    else if c == 0x010a
    then some upload_file
    else if c == 0x010b
    then some list_files
    else if c == 0x010c
    then some get_file_meta
    else if c == 0x010d
    then some stop_share
    else if c == 0x010e
    then some have_pieces
    else if c == 0x0201
    then some response
    else if c == 0x0301
    then some piece_request
    else if c == 0x0302
    then some piece_data
    else if c == 0x0303
    then some bitfield_request
    else if c == 0x0304
    then some bitfield_data
    else if c == 0x0401
    then some sync_op
    else if c == 0x0402
    then some sync_ack
    else if c == 0x0403
    then some sync_catchup
    else if c == 0x0404
    then some sync_hello
    else if c == 0x0405
    then some sync_snapshot_request
    else if c == 0x0406
    then some sync_snapshot_data
    else none

-- An opcode is decoded to the message that it was written for.
pub msg_type-opcode : (t : MsgType) → msg_type (opcode t) ≡ some t
unfolding msg_type opcode
msg_type-opcode create_user = refl
msg_type-opcode login = refl
msg_type-opcode logout = refl
msg_type-opcode create_group = refl
msg_type-opcode join_group = refl
msg_type-opcode leave_group = refl
msg_type-opcode list_groups = refl
msg_type-opcode list_requests = refl
msg_type-opcode accept_request = refl
msg_type-opcode upload_file = refl
msg_type-opcode list_files = refl
msg_type-opcode get_file_meta = refl
msg_type-opcode stop_share = refl
msg_type-opcode have_pieces = refl
msg_type-opcode response = refl
msg_type-opcode piece_request = refl
msg_type-opcode piece_data = refl
msg_type-opcode bitfield_request = refl
msg_type-opcode bitfield_data = refl
msg_type-opcode sync_op = refl
msg_type-opcode sync_ack = refl
msg_type-opcode sync_catchup = refl
msg_type-opcode sync_hello = refl
msg_type-opcode sync_snapshot_request = refl
msg_type-opcode sync_snapshot_data = refl

-- enum Status : uint16_t
pub data Status : Type 0 where
  ok : Status
  err : Status
  not_logged_in : Status
  bad_credentials : Status
  already_exists : Status
  not_found : Status
  not_owner : Status
  not_member : Status
  not_implemented : Status
  malformed : Status

unfoldable pub status_code : Status → ℕ
status_code ok = 0
status_code err = 1
status_code not_logged_in = 2
status_code bad_credentials = 3
status_code already_exists = 4
status_code not_found = 5
status_code not_owner = 6
status_code not_member = 7
status_code not_implemented = 8
status_code malformed = 9

unfoldable pub status_of : ℕ → Option Status
status_of c =
    if c == 0
    then some ok
    else if c == 1
    then some err
    else if c == 2
    then some not_logged_in
    else if c == 3
    then some bad_credentials
    else if c == 4
    then some already_exists
    else if c == 5
    then some not_found
    else if c == 6
    then some not_owner
    else if c == 7
    then some not_member
    else if c == 8
    then some not_implemented
    else if c == 9
    then some malformed
    else none

pub status_of-status_code : (s : Status) → status_of (status_code s) ≡ some s
unfolding status_of status_code
status_of-status_code ok = refl
status_of-status_code err = refl
status_of-status_code not_logged_in = refl
status_of-status_code bad_credentials = refl
status_of-status_code already_exists = refl
status_of-status_code not_found = refl
status_of-status_code not_owner = refl
status_of-status_code not_member = refl
status_of-status_code not_implemented = refl
status_of-status_code malformed = refl

-- Opcodes and status codes fit the 16-bit fields that carry them.
pub opcode-lt : (t : MsgType) → opcode t < 2 ^ 16
unfolding opcode
opcode-lt create_user = omega arith
opcode-lt _ = omega arith

pub status_code-lt : (s : Status) → status_code s < 2 ^ 16
unfolding status_code
status_code-lt ok = omega arith
status_code-lt _ = omega arith

pub record MsgHeader : Type 0 where
  pub magic : ℕ
  pub type : ℕ
  pub status : ℕ
  pub length : ℕ
