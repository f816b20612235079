-- ===== src/Tracker/Calls/Errors.antt =====
-- A call that fails changes nothing.
use peer_to_peer_distributed.Base.{◌≡◌, ◌≢◌, refl}
use peer_to_peer_distributed.Protocol.{Status}
use peer_to_peer_distributed.Tracker.{TrackerState, Outcome}
use peer_to_peer_distributed.Tracker.Users.Cases.{create_user_cases, login_cases, logout_cases}
use peer_to_peer_distributed.Tracker.Groups.Cases.{
  create_group_cases, join_group_cases, leave_group_cases, accept_request_cases,
}
use peer_to_peer_distributed.Tracker.Files.Cases.{
  add_file_cases, stop_share_cases, update_bitfield_cases,
}
use peer_to_peer_distributed.Tracker.Calls.{
  Call, create_user, login, logout, create_group, join_group, leave_group, accept_request, add_file,
  stop_share, update_bitfield, perform,
}

abbrev Unchanged : TrackerState → Outcome → Type 0
Unchanged s r = r.0 ≢ Status.ok → r.1 ≡ s

fails : (s : TrackerState) (e : Status) → e ≢ Status.ok → Unchanged s (e, s)
fails s e h k = refl

done : (s t : TrackerState) → Unchanged s (Status.ok, t)
done s t k = absurd (k refl)

-- Whatever the call, if its status is not ST_OK then the state is the one before.
pub perform_error :
    (c : Call) (s : TrackerState) → (perform c s).0 ≢ Status.ok → (perform c s).1 ≡ s
unfolding perform
perform_error (create_user uid pwd) s =
    create_user_cases (Unchanged s) s (fails s) uid pwd (λ _ _. done s _)
perform_error (login uid pwd ip port) s =
    login_cases (Unchanged s) s (fails s) uid pwd ip port (λ _ _ _. done s _)
perform_error (logout uid) s = logout_cases (Unchanged s) s (fails s) uid (λ _ _. done s _)
perform_error (create_group gid owner) s =
    create_group_cases (Unchanged s) s (fails s) gid owner (λ _ _. done s _)
perform_error (join_group gid uid) s =
    join_group_cases (Unchanged s) s (fails s) gid uid (λ _ _ _ _ _. done s _)
perform_error (leave_group gid uid) s =
    leave_group_cases (Unchanged s) s (fails s) gid uid (λ _ _ _ _. done s _) (λ _ _ _ _. done s _)
perform_error (accept_request gid owner uid) s =
    accept_request_cases (Unchanged s) s (fails s) gid owner uid (λ _ _ _ _. done s _)
perform_error (add_file gid uid ip port meta) s =
    add_file_cases (Unchanged s) s (fails s) gid uid ip port meta (λ _ _ _ _ _ _. done s _)
      (λ _ _ _ _. done s _)
perform_error (stop_share gid uid fname) s =
    stop_share_cases (Unchanged s) s (fails s) gid uid fname (λ _ _ _ _ _. done s _)
perform_error (update_bitfield gid uid ip port fname bits) s =
    update_bitfield_cases (Unchanged s) s (fails s) gid uid ip port fname bits
      (λ _ _ _ _ _. done s _)
