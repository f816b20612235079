-- ===== src/Examples/Groups.antt =====
-- The calls on users and groups, on concrete data.
use peer_to_peer_distributed.Base.{◌≡◌, refl, [], ◌∷◌}
use peer_to_peer_distributed.Text.{str_ord, compare_str}
use peer_to_peer_distributed.Protocol.{Status}
use peer_to_peer_distributed.OrderedMap.{find}
use peer_to_peer_distributed.Examples.{alice, bob, club, small_state, alice_user}
use peer_to_peer_distributed.Tracker.{TrackerState}
use peer_to_peer_distributed.Tracker.Users.{create_user, logout}
use peer_to_peer_distributed.Tracker.Groups.{join_group, leave_group, accept_request}

-- Alice owns a group, and bob has not asked to join it.
abbrev two_users : TrackerState
two_users = record {
  users = (alice, alice_user) ∷ (bob, record alice_user { id = bob }) ∷ [];
  groups =
      (
        club,
        record { id = club; owner = alice; members = (alice, tt) ∷ []; pending = []; files = [] },
      )
      ∷ [];
}

join_succeeds : (join_group club bob two_users).0 ≡ Status.ok
unfolding join_group find compare_str
join_succeeds = refl

accept_succeeds : (accept_request club alice bob small_state).0 ≡ Status.ok
unfolding accept_request find compare_str
accept_succeeds = refl

leave_succeeds : (leave_group club alice small_state).0 ≡ Status.ok
unfolding leave_group find compare_str
leave_succeeds = refl

logout_succeeds : (logout alice small_state).0 ≡ Status.ok
unfolding logout find compare_str
logout_succeeds = refl

create_succeeds : (create_user bob (49 ∷ []) small_state).0 ≡ Status.ok
unfolding create_user find compare_str
create_succeeds = refl
