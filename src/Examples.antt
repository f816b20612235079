-- ===== src/Examples.antt =====
-- Concrete data: strings, states and requests on which the definitions are run.
mod Wire
mod Digest
mod Metadata
mod Memberships
mod Replicas
mod Pieces
mod Groups
mod Downloads
mod Failovers
mod Clients
mod Trackers
mod Hashing
mod Endpoints
use peer_to_peer_distributed.Base.{ℕ, true, false, List, [], ◌∷◌, ◌++◌}
use peer_to_peer_distributed.Text.{Str}
use peer_to_peer_distributed.Tracker.{PeerRef, FileMeta, Group, User, TrackerState, initial}
use peer_to_peer_distributed.Session.{Session}
use peer_to_peer_distributed.Sync.{Sync, Op}
use peer_to_peer_distributed.Sync.Link.{Node}

abbrev pub alice : Str
alice = 97 ∷ []

abbrev pub bob : Str
bob = 98 ∷ []

abbrev pub club : Str
club = 99 ∷ []

abbrev pub movie : FileMeta
movie = record { name = 109 ∷ []; size = 5; file_hash = 102 ∷ []; piece_hashes = []; seeders = [] }

abbrev pub alice_user : User
alice_user = record { id = alice; password = 49 ∷ []; online = true; ip = 49 ∷ []; port = 7 }

abbrev pub alice_group : Group
alice_group = record {
  id = club;
  owner = alice;
  members = (alice, tt) ∷ [];
  pending = (bob, tt) ∷ [];
  files = [];
}

-- One user and a group that she owns.
abbrev pub small_state : TrackerState
small_state = record { users = (alice, alice_user) ∷ []; groups = (club, alice_group) ∷ [] }

abbrev pub alice_session : Session
alice_session = record { peer_ip = 49 ∷ []; user = alice; seed_port = 7 }

abbrev pub first_op : Op
first_op = record { seq = 1; type = 10; payload = []; ts = 5 }

abbrev pub second_op : Op
second_op = record { seq = 2; type = 15; payload = 7 ∷ []; ts = 6 }

-- A tracker that has recorded two ops, with the link up.
abbrev pub two_ops : Sync
two_ops = record {
  next_seq = 3;
  applied_peer_seq = 0;
  log = first_op ∷ second_op ∷ [];
  linked = true;
}

abbrev pub sender : Node
sender = record { sync = two_ops; state = initial }

abbrev pub fresh_link : Sync
fresh_link = record { next_seq = 1; applied_peer_seq = 0; log = []; linked = true }

-- A user and no group.
abbrev pub one_user : TrackerState
one_user = record { users = (alice, alice_user) ∷ []; groups = [] }

abbrev pub fresh : Node
fresh = record { sync = fresh_link; state = one_user }

-- A tracker that has some metadata.
abbrev pub receiver : Node
receiver = record { sync = fresh_link; state = small_state }
