-- ===== src/Tracker/Snapshot/RoundTrip.antt =====
-- restore reads back what snapshot wrote.
use peer_to_peer_distributed.Base.{
  ◌<◌, ◌^◌, ◌≡◌, refl, ap, Bool, true, false, some, ◌++◌, length, All, append_assoc, not, ◌==◌,
  arith,
}
use peer_to_peer_distributed.Text.{Str, str_ord}
use peer_to_peer_distributed.Buffer.{str_bytes, get_str}
use peer_to_peer_distributed.Buffer.RoundTrip.{
  read_step, get_u8-u8_bytes, get_u16-u16_bytes, get_u32-u32_bytes, get_u64-u64_bytes,
  get_str-str_bytes, get_raw-append, get_list-each_bytes,
}
use peer_to_peer_distributed.Tracker.{PeerRef, FileMeta, Group, User, TrackerState}
use peer_to_peer_distributed.Tracker.Snapshot.{
  bool_byte, user_bytes, peer_bytes, counted, file_bytes, group_bytes, snapshot, get_user, get_peer,
  get_file_meta, get_group, get_state, restore,
}
use peer_to_peer_distributed.Tracker.Snapshot.Entries.{
  FitsStr, MapFits, SetFits, get_counted-map, get_counted-set,
}

-- The fields that the wire format can hold.
pub record UserFits (u : User) : Type 0 where
  pub id : FitsStr u.id
  pub password : FitsStr u.password
  pub ip : FitsStr u.ip
  pub port : u.port < 2 ^ 16

pub record PeerFits (p : PeerRef) : Type 0 where
  pub user_id : FitsStr p.user_id
  pub ip : FitsStr p.ip
  pub port : p.port < 2 ^ 16
  pub bitfield : FitsStr p.bitfield

abbrev user_key : User → Str
user_key u = u.id

abbrev peer_key : PeerRef → Str
peer_key p = p.user_id

abbrev file_key : FileMeta → Str
file_key f = f.name

abbrev group_key : Group → Str
group_key g = g.id

bool_back : (b : Bool) → (bool_byte b < 2 ^ 8) × (not (bool_byte b == 0) ≡ b)
bool_back true = (omega arith, refl)
bool_back false = (omega arith, refl)

get_user-user_bytes :
    (u : User) (rest : Str) → UserFits u → get_user (user_bytes u ++ rest) ≡ some (u, rest)
unfolding get_user user_bytes
get_user-user_bytes u rest f = simp append_assoc (
    read_step _ _ _ (get_str-str_bytes u.id _ f.id) (
      read_step _ _ _ (get_str-str_bytes u.password _ f.password) (
        read_step _ _ _ (get_u8-u8_bytes (bool_byte u.online) _ (bool_back u.online).0) (
          read_step _ _ _ (get_str-str_bytes u.ip _ f.ip) (
            read_step _ _ _ (get_u16-u16_bytes u.port _ f.port)
              (ap (λ (b : Bool). some (record u { online = b }, rest)) (bool_back u.online).1))))))

pub get_peer-peer_bytes :
    (p : PeerRef) (rest : Str) → PeerFits p → get_peer (peer_bytes p ++ rest) ≡ some (p, rest)
unfolding get_peer peer_bytes
get_peer-peer_bytes p rest f = simp append_assoc (
    read_step _ _ _ (get_str-str_bytes p.user_id _ f.user_id) (
      read_step _ _ _ (get_str-str_bytes p.ip _ f.ip) (
        read_step _ _ _ (get_u16-u16_bytes p.port _ f.port) (
          read_step _ _ _ (get_u32-u32_bytes (length p.bitfield) _ f.bitfield)
            (read_step _ _ _ (get_raw-append p.bitfield rest) refl)))))

pub record FileFits (f : FileMeta) : Type 0 where
  pub name : FitsStr f.name
  pub size : f.size < 2 ^ 64
  pub file_hash : FitsStr f.file_hash
  pub pieces : length f.piece_hashes < 2 ^ 32
  pub piece_hashes : All FitsStr f.piece_hashes
  pub seeders : MapFits peer_key PeerFits f.seeders

get_file_meta-file_bytes :
    (m : FileMeta) (rest : Str) → FileFits m → get_file_meta (file_bytes m ++ rest) ≡ some (m, rest)
unfolding get_file_meta file_bytes counted
get_file_meta-file_bytes m rest f = simp append_assoc (
    read_step _ _ _ (get_str-str_bytes m.name _ f.name) (
      read_step _ _ _ (get_u64-u64_bytes m.size _ f.size) (
        read_step _ _ _ (get_str-str_bytes m.file_hash _ f.file_hash) (
          read_step _ _ _ (get_u32-u32_bytes (length m.piece_hashes) _ f.pieces) (
            read_step _ _ _
              (get_list-each_bytes get_str str_bytes FitsStr get_str-str_bytes m.piece_hashes _
                f.piece_hashes)
              (read_step _ _ _
                (simp append_assoc at (
                  get_counted-map get_peer peer_bytes peer_key PeerFits get_peer-peer_bytes
                    m.seeders rest f.seeders))
                refl))))))

pub record GroupFits (g : Group) : Type 0 where
  pub id : FitsStr g.id
  pub owner : FitsStr g.owner
  pub members : SetFits g.members
  pub pending : SetFits g.pending
  pub files : MapFits file_key FileFits g.files

get_group-group_bytes :
    (g : Group) (rest : Str) → GroupFits g → get_group (group_bytes g ++ rest) ≡ some (g, rest)
unfolding get_group group_bytes
get_group-group_bytes g rest f = simp append_assoc (
    read_step _ _ _ (get_str-str_bytes g.id _ f.id) (
      read_step _ _ _ (get_str-str_bytes g.owner _ f.owner) (
        read_step _ _ _ (get_counted-set g.members _ f.members) (
          read_step _ _ _ (get_counted-set g.pending _ f.pending) (
            read_step _ _ _
              (get_counted-map get_file_meta file_bytes file_key FileFits get_file_meta-file_bytes
                g.files rest f.files)
              refl)))))

-- Every string, number and count of the state fits the field that carries it, the maps and sets are
-- in order, and every entry stands at its own key.
pub record StateFits (s : TrackerState) : Type 0 where
  pub users : MapFits user_key UserFits s.users
  pub groups : MapFits group_key GroupFits s.groups

-- For a state that fits the format, `restore` of its snapshot, whatever bytes follow and whatever
-- the state was before, succeeds and gives that state.
pub restore-snapshot :
    (s t : TrackerState) (rest : Str) → StateFits s → restore (snapshot s ++ rest) t ≡ (true, s)
unfolding restore snapshot
restore-snapshot s t rest f = rw (read, restore)
  where
    read : get_state (snapshot s ++ rest) ≡ some (s, rest)
    read = simp append_assoc (
        read_step _ _ _
          (get_counted-map get_user user_bytes user_key UserFits get_user-user_bytes s.users _
            f.users)
          (read_step _ _ _
            (get_counted-map get_group group_bytes group_key GroupFits get_group-group_bytes
              s.groups rest f.groups)
            refl))
