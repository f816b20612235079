-- ===== src/Tracker/Users.antt =====
-- TrackerState's methods on users, and its initial-state test.
pub mod Cases
pub mod Accounts
use peer_to_peer_distributed.Base.{
  ℕ, Bool, true, false, ◌&&◌, ◌||◌, none, some, [], ◌∷◌, if◌then◌else◌,
}
use peer_to_peer_distributed.Text.{Str, str_ord, is_empty, str_ne}
use peer_to_peer_distributed.OrderedMap.{Map, find, put, erase, has, map_values}
use peer_to_peer_distributed.Protocol.{
  Status, ok, malformed, already_exists, not_found, bad_credentials,
}
use peer_to_peer_distributed.Sha1.{hash_buffer}
use peer_to_peer_distributed.Tracker.{User, Group, FileMeta, TrackerState, Outcome}

unfoldable pub hash_password : Str → Str
hash_password pwd = hash_buffer pwd

abbrev pub is_nil : {V : Type 0} → Map Str V → Bool
is_nil [] = true
is_nil (e ∷ m) = false

unfoldable pub create_user : Str → Str → TrackerState → Outcome
create_user uid pwd s =
    if is_empty uid || is_empty pwd
    then (malformed, s)
    else if has uid s.users
    then (already_exists, s)
    else (
      ok,
      record s {
        users =
            put uid
              (record { id = uid; password = hash_password pwd; online = false; ip = []; port = 0 })
              s.users;
      },
    )

unfoldable pub login : Str → Str → Str → ℕ → TrackerState → Outcome
login uid pwd ip port s = elim (find uid s.users) [
  | none ↦ (not_found, s)
  | some u ↦ if str_ne u.password (hash_password pwd) then (bad_credentials, s) else (
    ok,
    record s { users = put uid (record u { online = true; ip = ip; port = port }) s.users },
  )
]

-- `seeders.erase(uid)` in every file of every group
unfoldable pub drop_seeder : Str → Group → Group
drop_seeder uid g = record g {
  files = map_values (λ f. record f { seeders = erase uid f.seeders }) g.files;
}

unfoldable pub logout : Str → TrackerState → Outcome
unfolding drop_seeder
logout uid s = elim (find uid s.users) [
  | none ↦ (not_found, s)
  | some u ↦ (
    ok,
    record {
      users = put uid (record u { online = false }) s.users;
      groups = map_values (drop_seeder uid) s.groups;
    },
  )
]

unfoldable pub is_online : Str → TrackerState → Bool
is_online uid s = elim (find uid s.users) [ none ↦ false | some u ↦ u.online ]

unfoldable pub empty : TrackerState → Bool
empty s = is_nil s.users && is_nil s.groups
