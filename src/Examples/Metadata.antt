-- ===== src/Examples/Metadata.antt =====
-- The tracker's calls and the snapshot, on concrete data.
use peer_to_peer_distributed.Base.{◌≡◌, ◌≢◌, refl, sym, ◌∙◌, true, List, [], ◌∷◌, ◌++◌, arith}
use peer_to_peer_distributed.Text.{compare_str}
use peer_to_peer_distributed.Protocol.{Status}
use peer_to_peer_distributed.Examples.{
  alice, bob, club, movie, small_state, alice_user, alice_group,
}
use peer_to_peer_distributed.Tracker.{initial}
use peer_to_peer_distributed.Tracker.Groups
use peer_to_peer_distributed.OrderedMap.{find}
use peer_to_peer_distributed.Tracker.Calls.{
  Call, create_user, login, create_group, join_group, accept_request, add_file, leave_group,
  perform, run,
}
use peer_to_peer_distributed.Tracker.Calls.Errors.{perform_error}
use peer_to_peer_distributed.Tracker.Validity.{IsValid}
use peer_to_peer_distributed.Tracker.Validity.Preserved.{run-IsValid}
use peer_to_peer_distributed.Tracker.Snapshot.{snapshot, restore}
use peer_to_peer_distributed.Tracker.Snapshot.RoundTrip.{
  UserFits, GroupFits, StateFits, restore-snapshot,
}

-- Two users, a group with both as members, a file, and the owner leaves.
abbrev history : List Call
history =
    create_user alice (49 ∷ [])
    ∷ create_user bob (50 ∷ [])
    ∷ login alice (49 ∷ []) (49 ∷ []) 7
    ∷ create_group club alice
    ∷ join_group club bob
    ∷ accept_request club alice bob
    ∷ add_file club alice (49 ∷ []) 7 movie
    ∷ leave_group club alice
    ∷ []

run-IsValid_example : IsValid (run history initial)
run-IsValid_example = run-IsValid history

refused_status : (perform (join_group club alice) small_state).0 ≡ Status.already_exists
unfolding perform Groups.join_group find compare_str
refused_status = refl

refused : (perform (join_group club alice) small_state).0 ≢ Status.ok
refused e = differ (sym e ∙ refused_status)
  where
    differ : Status.ok ≢ Status.already_exists
    differ = λ h. cc

perform_error_example : (perform (join_group club alice) small_state).1 ≡ small_state
perform_error_example = perform_error (join_group club alice) small_state refused

alice_user-UserFits : UserFits alice_user
alice_user-UserFits = record {
  id = omega arith;
  password = omega arith;
  ip = omega arith;
  port = omega arith;
}

alice_group-GroupFits : GroupFits alice_group
alice_group-GroupFits = record {
  id = omega arith;
  owner = omega arith;
  members = ((tt, tt), omega arith, (omega arith, tt));
  pending = ((tt, tt), omega arith, (omega arith, tt));
  files = (tt, omega arith, tt);
}

small_state-StateFits : StateFits small_state
small_state-StateFits = record {
  users = ((tt, tt), omega arith, ((refl, alice_user-UserFits), tt));
  groups = ((tt, tt), omega arith, ((refl, alice_group-GroupFits), tt));
}

restore-snapshot_example : restore (snapshot small_state ++ bob) initial ≡ (true, small_state)
restore-snapshot_example = restore-snapshot small_state initial bob small_state-StateFits
