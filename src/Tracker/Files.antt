-- ===== src/Tracker/Files.antt =====
-- TrackerState's methods on shared files and their seeders.
pub mod Cases
use peer_to_peer_distributed.Base.{
  ℕ, Bool, true, false, ◌+◌, ◌/◌, ◌||◌, not, none, some, Option, List, [], ◌∷◌, length, replicate,
  if◌then◌else◌,
}
use peer_to_peer_distributed.Text.{Str, str_ord, is_empty, str_ne}
use peer_to_peer_distributed.OrderedMap.{Map, Set, find, put, erase, has, keys}
use peer_to_peer_distributed.Protocol.{Status, ok, malformed, already_exists, not_found, not_member}
use peer_to_peer_distributed.Tracker.{Group, FileMeta, PeerRef, TrackerState, Outcome, set_group}

-- `grp.files[f.name] = f`, in the group that the lookup found
unfoldable pub set_file : Str → Group → Str → FileMeta → TrackerState → TrackerState
set_file gid g fname f s = set_group gid (record g { files = put fname f g.files }) s

-- The uploader starts out holding every piece.
unfoldable pub uploader : Str → Str → ℕ → FileMeta → PeerRef
uploader uid ip port meta = record {
  user_id = uid;
  ip = ip;
  port = port;
  bitfield = replicate ((length meta.piece_hashes + 7) / 8) 0xFF;
}

unfoldable pub add_file : Str → Str → Str → ℕ → FileMeta → TrackerState → Outcome
unfolding set_file uploader
add_file gid uid ip port meta s =
    if is_empty gid || is_empty uid || is_empty meta.name
    then (malformed, s)
    else elim (find gid s.groups) [
      | none ↦ (not_found, s)
      | some g ↦
          if not (has uid g.members) then (not_member, s) else elim (find meta.name g.files) [
            | some f ↦ if str_ne f.file_hash meta.file_hash then (already_exists, s) else (
              ok,
              set_file gid g meta.name
                  (record f { seeders = put uid (uploader uid ip port meta) f.seeders }) s,
            )
            | none ↦ (
              ok,
              set_file gid g meta.name
                  (record meta { seeders = put uid (uploader uid ip port meta) [] }) s,
            )
          ]
    ]

unfoldable pub list_files : Str → Str → TrackerState → Status × List Str
list_files gid uid s =
    if is_empty gid || is_empty uid then (malformed, []) else elim (find gid s.groups) [
      | none ↦ (not_found, [])
      | some g ↦ if not (has uid g.members) then (not_member, []) else (ok, keys g.files)
    ]

-- `out` is written on success only.
unfoldable pub get_file : Str → Str → Str → TrackerState → Status × Option FileMeta
get_file gid uid fname s =
    if is_empty gid || is_empty uid || is_empty fname
    then (malformed, none)
    else elim (find gid s.groups) [
      | none ↦ (not_found, none)
      | some g ↦
          if not (has uid g.members)
          then (not_member, none)
          else elim (find fname g.files) [ none ↦ (not_found, none) | some f ↦ (ok, some f) ]
    ]

unfoldable pub stop_share : Str → Str → Str → TrackerState → Outcome
unfolding set_file
stop_share gid uid fname s =
    if is_empty gid || is_empty uid || is_empty fname
    then (malformed, s)
    else elim (find gid s.groups) [
      | none ↦ (not_found, s)
      | some g ↦ elim (find fname g.files) [
        | none ↦ (not_found, s)
        | some f ↦
            if not (has uid f.seeders)
            then (not_found, s)
            else (ok, set_file gid g fname (record f { seeders = erase uid f.seeders }) s)
      ]
    ]

unfoldable pub update_bitfield : Str → Str → Str → ℕ → Str → Str → TrackerState → Outcome
unfolding set_file
update_bitfield gid uid ip port fname bits s =
    if is_empty gid || is_empty uid || is_empty fname
    then (malformed, s)
    else elim (find gid s.groups) [
      | none ↦ (not_found, s)
      | some g ↦ if not (has uid g.members) then (not_member, s) else elim (find fname g.files) [
        | none ↦ (not_found, s)
        | some f ↦ (
          ok,
          set_file gid g fname
              (record f {
                seeders =
                    put uid (record { user_id = uid; ip = ip; port = port; bitfield = bits })
                      f.seeders;
              })
              s,
        )
      ]
    ]
