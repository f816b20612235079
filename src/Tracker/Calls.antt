-- ===== src/Tracker/Calls.antt =====
-- The calls that write the tracker's state, from the sessions of clients and from the replication
-- link, as data; a history of the tracker is a list of them.
pub mod Errors
pub mod Roles
pub mod Moves
pub mod Steps
pub mod Admission
use peer_to_peer_distributed.Base.{ℕ, List, [], ◌∷◌}
use peer_to_peer_distributed.Text.{Str}
use peer_to_peer_distributed.Tracker.{FileMeta, TrackerState, Outcome}
use peer_to_peer_distributed.Tracker.Users
use peer_to_peer_distributed.Tracker.Groups
use peer_to_peer_distributed.Tracker.Files

pub data Call : Type 0 where
  create_user : Str → Str → Call
  login : Str → Str → Str → ℕ → Call
  logout : Str → Call
  create_group : Str → Str → Call
  join_group : Str → Str → Call
  leave_group : Str → Str → Call
  accept_request : Str → Str → Str → Call
  add_file : Str → Str → Str → ℕ → FileMeta → Call
  stop_share : Str → Str → Str → Call
  update_bitfield : Str → Str → Str → ℕ → Str → Str → Call

unfoldable pub perform : Call → TrackerState → Outcome
perform (create_user uid pwd) s = Users.create_user uid pwd s
perform (login uid pwd ip port) s = Users.login uid pwd ip port s
perform (logout uid) s = Users.logout uid s
perform (create_group gid owner) s = Groups.create_group gid owner s
perform (join_group gid uid) s = Groups.join_group gid uid s
perform (leave_group gid uid) s = Groups.leave_group gid uid s
perform (accept_request gid owner uid) s = Groups.accept_request gid owner uid s
perform (add_file gid uid ip port meta) s = Files.add_file gid uid ip port meta s
perform (stop_share gid uid fname) s = Files.stop_share gid uid fname s
perform (update_bitfield gid uid ip port fname bits) s =
    Files.update_bitfield gid uid ip port fname bits s

unfoldable pub run : List Call → TrackerState → TrackerState
run [] s = s
run (c ∷ cs) s = run cs (perform c s).1
