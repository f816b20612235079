-- ===== src/Tracker/Validity/Preserved.antt =====
-- Every call keeps the state valid, so every state that a history reaches is valid.
use peer_to_peer_distributed.Base.{◌≡◌, refl, List, [], ◌∷◌}
use peer_to_peer_distributed.Text.{Str, str_ord}
use peer_to_peer_distributed.OrderedMap.{put, erase, map_values}
use peer_to_peer_distributed.OrderedMap.Lookup.{
  map_values-AllEntries, put-AllEntries, erase-AllEntries,
}
use peer_to_peer_distributed.OrderedMap.Order.{put-IsSorted, erase-IsSorted, map_values-IsSorted}
use peer_to_peer_distributed.Tracker.{FileMeta, Group, User, TrackerState, Outcome, initial}
use peer_to_peer_distributed.Tracker.Users.{drop_seeder}
use peer_to_peer_distributed.Tracker.Users.Cases.{create_user_cases, login_cases, logout_cases}
use peer_to_peer_distributed.Tracker.Groups.Cases.{
  create_group_cases, join_group_cases, leave_group_cases, accept_request_cases,
}
use peer_to_peer_distributed.Tracker.Files.{uploader}
use peer_to_peer_distributed.Tracker.Files.Cases.{
  add_file_cases, stop_share_cases, update_bitfield_cases,
}
use peer_to_peer_distributed.Tracker.Calls.{
  Call, create_user, login, logout, create_group, join_group, leave_group, accept_request, add_file,
  stop_share, update_bitfield, perform, run,
}
use peer_to_peer_distributed.Tracker.Validity.{
  FileValid, GroupValid, IsValid, initial-IsValid, GroupValid-put, set_user-IsValid,
  set_group-IsValid, set_file-IsValid, found_group, found_user, found_file, add_seeder-FileValid,
}
use peer_to_peer_distributed.Tracker.Validity.Membership.{
  new_group-GroupValid, request-GroupValid, leave-GroupValid, accept-GroupValid, pending_registered,
  hand_off-IsValid,
}

erase_seeder-FileValid :
    (uid fname : Str) (f : FileMeta)
    → FileValid fname f
    → FileValid fname (record f { seeders = erase uid f.seeders })
erase_seeder-FileValid uid fname f v = record {
  named = v.named;
  sorted = erase-IsSorted uid f.seeders v.sorted;
  keyed = erase-AllEntries (λ k p. p.user_id ≡ k) uid f.seeders v.keyed;
}

drop_seeder-GroupValid :
    (users : _) (uid gid : Str) (g : Group)
    → GroupValid users gid g
    → GroupValid users gid (drop_seeder uid g)
unfolding drop_seeder
drop_seeder-GroupValid users uid gid g w = record {
  named = w.named;
  owner = w.owner;
  members_sorted = w.members_sorted;
  members = w.members;
  pending_sorted = w.pending_sorted;
  pending = w.pending;
  disjoint = w.disjoint;
  files_sorted = map_values-IsSorted _ g.files w.files_sorted;
  files = map_values-AllEntries FileValid FileValid _ g.files (erase_seeder-FileValid uid) w.files;
}

logout-IsValid :
    (s : TrackerState) (uid : Str) (u : User)
    → IsValid s
    → u.id ≡ uid
    → IsValid (record { users = put uid u s.users; groups = map_values (drop_seeder uid) s.groups })
logout-IsValid s uid u v e = record {
  users_sorted = put-IsSorted uid u s.users v.users_sorted;
  users = put-AllEntries (λ k u. u.id ≡ k) uid u s.users v.users e;
  groups_sorted = map_values-IsSorted (drop_seeder uid) s.groups v.groups_sorted;
  groups =
      map_values-AllEntries (GroupValid s.users) (GroupValid (put uid u s.users)) (drop_seeder uid)
        s.groups
        (λ gid g w. GroupValid-put s.users uid u gid _ (drop_seeder-GroupValid s.users uid gid g w))
        v.groups;
}

abbrev Valid : Outcome → Type 0
Valid r = IsValid r.1

uploader_named :
    (uid ip : Str) (port : _) (meta : FileMeta) → (uploader uid ip port meta).user_id ≡ uid
unfolding uploader
uploader_named uid ip port meta = refl

-- Whatever the call and whether it succeeds, a valid state is followed by a valid state.
pub perform-IsValid : (c : Call) (s : TrackerState) → IsValid s → IsValid (perform c s).1
unfolding perform
perform-IsValid (create_user uid pwd) s v =
    create_user_cases Valid s (λ _ _. v) uid pwd (λ _ _. set_user-IsValid s v uid _ refl)
perform-IsValid (login uid pwd ip port) s v =
    login_cases Valid s (λ _ _. v) uid pwd ip port
      (λ u e _. set_user-IsValid s v uid _ (found_user s v uid e))
perform-IsValid (logout uid) s v =
    logout_cases Valid s (λ _ _. v) uid (λ u e. logout-IsValid s uid _ v (found_user s v uid e))
perform-IsValid (create_group gid owner) s v =
    create_group_cases Valid s (λ _ _. v) gid owner
      (λ r _. set_group-IsValid s v gid _ (new_group-GroupValid s.users gid owner r))
perform-IsValid (join_group gid uid) s v =
    join_group_cases Valid s (λ _ _. v) gid uid
      (λ g e r m p.
        set_group-IsValid s v gid _
          (request-GroupValid s.users gid g (found_group s v gid e) uid r m))
perform-IsValid (leave_group gid uid) s v =
    leave_group_cases Valid s (λ _ _. v) gid uid
      (λ g e m n.
        set_group-IsValid s v gid _ (leave-GroupValid s.users gid g (found_group s v gid e) uid n))
      (λ g e m n. hand_off-IsValid s v gid g (found_group s v gid e) uid)
perform-IsValid (accept_request gid owner uid) s v =
    accept_request_cases Valid s (λ _ _. v) gid owner uid
      (λ g e o p.
        let w = found_group s v gid e in
        set_group-IsValid s v gid _
          (accept-GroupValid s.users gid g w uid (pending_registered s.users gid g w uid p)))
perform-IsValid (add_file gid uid ip port meta) s v =
    add_file_cases Valid s (λ _ _. v) gid uid ip port meta
      (λ g f e m k n.
        let w = found_group s v gid e in
        set_file-IsValid s v gid g meta.name _ w (
          add_seeder-FileValid meta.name uid _ f (uploader_named uid ip port meta)
            (found_file s.users gid g w meta.name k)))
      (λ g e m k. set_file-IsValid s v gid g meta.name _ (found_group s v gid e) (record {
        named = refl;
        sorted = put-IsSorted uid (uploader uid ip port meta) [] tt;
        keyed =
            put-AllEntries (λ k p. p.user_id ≡ k) uid (uploader uid ip port meta) [] tt
              (uploader_named uid ip port meta);
      }))
perform-IsValid (stop_share gid uid fname) s v =
    stop_share_cases Valid s (λ _ _. v) gid uid fname
      (λ g f e k h.
        let w = found_group s v gid e in
        set_file-IsValid s v gid g fname _ w
          (erase_seeder-FileValid uid fname f (found_file s.users gid g w fname k)))
perform-IsValid (update_bitfield gid uid ip port fname bits) s v =
    update_bitfield_cases Valid s (λ _ _. v) gid uid ip port fname bits
      (λ g f e m k.
        let w = found_group s v gid e in
        set_file-IsValid s v gid g fname _ w
          (add_seeder-FileValid fname uid _ f refl (found_file s.users gid g w fname k)))

pub run_keeps-IsValid : (cs : List Call) (s : TrackerState) → IsValid s → IsValid (run cs s)
unfolding run
run_keeps-IsValid [] s v = v
run_keeps-IsValid (c ∷ cs) s v = run_keeps-IsValid cs (perform c s).1 (perform-IsValid c s v)

-- Every state that the calls of a history lead to from the empty state is valid.
pub run-IsValid : (cs : List Call) → IsValid (run cs initial)
run-IsValid cs = run_keeps-IsValid cs initial initial-IsValid
