-- ===== src/Tracker/Snapshot.antt =====
-- TrackerState::snapshot and TrackerState::restore.
pub mod Entries
pub mod RoundTrip
use peer_to_peer_distributed.Base.{
  ℕ, Bool, true, false, none, some, Option, List, [], ◌∷◌, ◌++◌, length, not, ◌==◌,
}
use peer_to_peer_distributed.Text.{Str, str_ord}
use peer_to_peer_distributed.OrderedMap.{Map, Set, put, insert, keys, values}
use peer_to_peer_distributed.Buffer.{
  u8_bytes, u16_bytes, u32_bytes, u64_bytes, str_bytes, each_bytes, Reader, ◌>>=◌, pure, get_raw,
  get_u8, get_u16, get_u32, get_u64, get_str, get_list, read_into,
}
use peer_to_peer_distributed.Tracker.{PeerRef, FileMeta, Group, User, TrackerState}

abbrev pub bool_byte : Bool → ℕ
bool_byte true = 1
bool_byte false = 0

unfoldable pub user_bytes : User → Str
user_bytes u =
    str_bytes u.id
    ++ (str_bytes u.password
        ++ (u8_bytes (bool_byte u.online) ++ (str_bytes u.ip ++ u16_bytes u.port)))

unfoldable pub peer_bytes : PeerRef → Str
peer_bytes p =
    str_bytes p.user_id
    ++ (str_bytes p.ip ++ (u16_bytes p.port ++ (u32_bytes (length p.bitfield) ++ p.bitfield)))

-- `put_u32(c.size())`, and then each element.
unfoldable pub counted {ℓ} : {A : Type ℓ} → (A → Str) → List A → Str
counted enc xs = u32_bytes (length xs) ++ each_bytes enc xs

unfoldable pub file_bytes : FileMeta → Str
file_bytes f =
    str_bytes f.name
    ++ (u64_bytes f.size
        ++ (str_bytes f.file_hash
            ++ (counted str_bytes f.piece_hashes ++ counted peer_bytes (values f.seeders))))

unfoldable pub group_bytes : Group → Str
group_bytes g =
    str_bytes g.id
    ++ (str_bytes g.owner
        ++ (counted str_bytes (keys g.members)
            ++ (counted str_bytes (keys g.pending) ++ counted file_bytes (values g.files))))

unfoldable pub snapshot : TrackerState → Str
unfolding user_bytes group_bytes file_bytes
snapshot s = counted user_bytes (values s.users) ++ counted group_bytes (values s.groups)

unfoldable pub get_user : Reader User
get_user = do
  id ← get_str
  password ← get_str
  online ← get_u8
  ip ← get_str
  port ← get_u16
  pure (record { id = id; password = password; online = not (online == 0); ip = ip; port = port })

unfoldable pub get_peer : Reader PeerRef
get_peer = do
  user_id ← get_str
  ip ← get_str
  port ← get_u16
  nbits ← get_u32
  bitfield ← get_raw nbits
  pure (record { user_id = user_id; ip = ip; port = port; bitfield = bitfield })

-- A count, and then a loop that reads as many elements and adds each.
unfoldable pub get_counted {ℓ κ} : {A : Type ℓ} {S : Type κ} → Reader A → (A → S → S) → S → Reader S
get_counted r add empty = do n ← get_u32; read_into r add n empty

unfoldable pub get_file_meta : Reader FileMeta
get_file_meta = do
  name ← get_str
  size ← get_u64
  file_hash ← get_str
  npieces ← get_u32
  piece_hashes ← get_list get_str npieces
  seeders ← get_counted get_peer (λ p. put p.user_id p) []
  pure (record {
    name = name;
    size = size;
    file_hash = file_hash;
    piece_hashes = piece_hashes;
    seeders = seeders;
  })

unfoldable pub get_group : Reader Group
get_group = do
  id ← get_str
  owner ← get_str
  members ← get_counted get_str insert []
  pending ← get_counted get_str insert []
  files ← get_counted get_file_meta (λ f. put f.name f) []
  pure (record { id = id; owner = owner; members = members; pending = pending; files = files })

unfoldable pub get_state : Reader TrackerState
unfolding get_user get_group get_file_meta get_counted
get_state = do
  users ← get_counted get_user (λ u. put u.id u) []
  groups ← get_counted get_group (λ g. put g.id g) []
  pure (record { users = users; groups = groups })

-- A malformed blob leaves the state as it was, and bytes behind the last group are not looked at.
unfoldable pub restore : Str → TrackerState → Bool × TrackerState
unfolding get_state
restore blob s = elim (get_state blob) [ none ↦ (false, s) | some (s', rest) ↦ (true, s') ]
