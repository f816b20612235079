-- ===== src/Tracker.antt =====
-- tracker/tracker_state.hpp and tracker/tracker_state.cpp: the tracker's metadata. A method is a
-- function from the state to its status and the state after it. Each takes the lock for the whole of
-- its body, so calls from several threads are calls one after another.
pub mod Users
pub mod Groups
pub mod Files
pub mod Snapshot
pub mod Calls
pub mod Validity
use peer_to_peer_distributed.Base.{ℕ, Bool, List, []}
use peer_to_peer_distributed.Text.{Str, str_ord}
use peer_to_peer_distributed.OrderedMap.{Map, Set, put}
use peer_to_peer_distributed.Protocol.{Status}

pub record PeerRef : Type 0 where
  pub user_id : Str
  pub ip : Str
  pub port : ℕ
  pub bitfield : Str

pub record FileMeta : Type 0 where
  pub name : Str
  pub size : ℕ
  pub file_hash : Str
  pub piece_hashes : List Str
  pub seeders : Map Str PeerRef

pub record Group : Type 0 where
  pub id : Str
  pub owner : Str
  pub members : Set Str
  pub pending : Set Str
  pub files : Map Str FileMeta

pub record User : Type 0 where
  pub id : Str
  pub password : Str
  pub online : Bool
  pub ip : Str
  pub port : ℕ

pub record TrackerState : Type 0 where
  pub users : Map Str User
  pub groups : Map Str Group

abbrev pub initial : TrackerState
initial = record { users = []; groups = [] }

-- The status that a method returns, and the state that it leaves.
abbrev pub Outcome : Type 0
Outcome = Status × TrackerState

-- A write through the reference `grp` to the group that `__Groups` has at `gid`.
abbrev pub set_group : Str → Group → TrackerState → TrackerState
set_group gid g s = record s { groups = put gid g s.groups }
