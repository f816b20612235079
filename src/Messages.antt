-- ===== src/Messages.antt =====
-- The payloads that a session decodes from a client's request, and the replication link from an op:
-- both read the same fields in the same order.
pub mod Extension
pub mod Sizes
use peer_to_peer_distributed.Base.{ℕ, List, []}
use peer_to_peer_distributed.Text.{Str}
use peer_to_peer_distributed.Buffer.{
  Reader, ◌>>=◌, pure, get_raw, get_u16, get_u32, get_u64, get_str, get_list,
}
use peer_to_peer_distributed.Tracker.{FileMeta}

unfoldable pub get_two : Reader (Str × Str)
get_two = do a ← get_str; b ← get_str; pure (a, b)

unfoldable pub get_three : Reader (Str × Str × Str)
get_three = do a ← get_str; b ← get_str; c ← get_str; pure (a, b, c)

-- MSG_LOGIN: uid, password, seeder port.
unfoldable pub get_login : Reader (Str × Str × ℕ)
get_login = do uid ← get_str; pwd ← get_str; port ← get_u16; pure (uid, pwd, port)

-- MSG_UPLOAD_FILE: group, and the file with no seeders.
unfoldable pub get_upload : Reader (Str × FileMeta)
get_upload = do
  gid ← get_str
  name ← get_str
  size ← get_u64
  file_hash ← get_str
  pc ← get_u32
  piece_hashes ← get_list get_str pc
  pure (
    gid,
    record {
      name = name;
      size = size;
      file_hash = file_hash;
      piece_hashes = piece_hashes;
      seeders = [];
    },
  )

-- MSG_HAVE_PIECES: group, file name, bitfield.
unfoldable pub get_have : Reader (Str × Str × Str)
get_have = do
  gid ← get_str
  fname ← get_str
  nbits ← get_u32
  bits ← get_raw nbits
  pure (gid, fname, bits)

-- What a session appends to a file op: user, and the address of its seeder.
unfoldable pub get_origin : Reader (Str × Str × ℕ)
get_origin = do uid ← get_str; ip ← get_str; port ← get_u16; pure (uid, ip, port)
