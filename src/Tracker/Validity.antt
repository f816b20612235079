-- ===== src/Tracker/Validity.antt =====
-- The invariant of the tracker's state.
pub mod Membership
pub mod Preserved
use peer_to_peer_distributed.Base.{ℕ, ◌≡◌, refl, true, false, some, [], ◌∷◌}
use peer_to_peer_distributed.Text.{Str, str_ord}
use peer_to_peer_distributed.OrderedMap.{Map, Set, find, put, has}
use peer_to_peer_distributed.OrderedMap.Lookup.{
  AllEntries, AllEntries-mono, find-AllEntries, put-AllEntries, has-put,
}
use peer_to_peer_distributed.OrderedMap.Order.{IsSorted, put-IsSorted}
use peer_to_peer_distributed.Tracker.{
  PeerRef, FileMeta, Group, User, TrackerState, set_group, initial,
}
use peer_to_peer_distributed.Tracker.Files.{set_file}

pub record FileValid (name : Str) (f : FileMeta) : Type 0 where
  pub named : f.name ≡ name
  pub sorted : IsSorted f.seeders
  pub keyed : AllEntries (λ k p. p.user_id ≡ k) f.seeders

-- Members and pending users are registered, nobody is both, and the owner is a member.
pub record GroupValid (users : Map Str User) (gid : Str) (g : Group) : Type 0 where
  pub named : g.id ≡ gid
  pub owner : has g.owner g.members ≡ true
  pub members_sorted : IsSorted g.members
  pub members : AllEntries (λ k _. has k users ≡ true) g.members
  pub pending_sorted : IsSorted g.pending
  pub pending : AllEntries (λ k _. has k users ≡ true) g.pending
  pub disjoint : AllEntries (λ k _. has k g.members ≡ false) g.pending
  pub files_sorted : IsSorted g.files
  pub files : AllEntries FileValid g.files

pub record IsValid (s : TrackerState) : Type 0 where
  pub users_sorted : IsSorted s.users
  pub users : AllEntries (λ k u. u.id ≡ k) s.users
  pub groups_sorted : IsSorted s.groups
  pub groups : AllEntries (GroupValid s.users) s.groups

pub initial-IsValid : IsValid initial
initial-IsValid = record { users_sorted = tt; users = tt; groups_sorted = tt; groups = tt }

pub GroupValid-put :
    (users : Map Str User) (uid : Str) (u : User) (gid : Str) (g : Group)
    → GroupValid users gid g
    → GroupValid (put uid u users) gid g
GroupValid-put users uid u gid g v = record {
  named = v.named;
  owner = v.owner;
  members_sorted = v.members_sorted;
  members =
      AllEntries-mono (λ k _. has k users ≡ true) (λ k _. has k (put uid u users) ≡ true) g.members
        (λ k _ h. has-put k uid u users h) v.members;
  pending_sorted = v.pending_sorted;
  pending =
      AllEntries-mono (λ k _. has k users ≡ true) (λ k _. has k (put uid u users) ≡ true) g.pending
        (λ k _ h. has-put k uid u users h) v.pending;
  disjoint = v.disjoint;
  files_sorted = v.files_sorted;
  files = v.files;
}

module _ (s : TrackerState) (v : IsValid s) where
  pub set_user-IsValid :
      (uid : Str) (u : User) → u.id ≡ uid → IsValid (record s { users = put uid u s.users })
  set_user-IsValid uid u e = record {
    users_sorted = put-IsSorted uid u s.users v.users_sorted;
    users = put-AllEntries (λ k u. u.id ≡ k) uid u s.users v.users e;
    groups_sorted = v.groups_sorted;
    groups =
        AllEntries-mono (GroupValid s.users) (GroupValid (put uid u s.users)) s.groups
          (GroupValid-put s.users uid u) v.groups;
  }

  pub set_group-IsValid :
      (gid : Str) (g : Group) → GroupValid s.users gid g → IsValid (set_group gid g s)
  set_group-IsValid gid g w = record {
    users_sorted = v.users_sorted;
    users = v.users;
    groups_sorted = put-IsSorted gid g s.groups v.groups_sorted;
    groups = put-AllEntries (GroupValid s.users) gid g s.groups v.groups w;
  }

  pub found_group : (gid : Str) {g : Group} → find gid s.groups ≡ some g → GroupValid s.users gid g
  found_group gid e = find-AllEntries (GroupValid s.users) gid s.groups v.groups e

  pub found_user : (uid : Str) {u : User} → find uid s.users ≡ some u → u.id ≡ uid
  found_user uid e = find-AllEntries (λ k u. u.id ≡ k) uid s.users v.users e

  pub set_file-IsValid :
      (gid : Str) (g : Group) (fname : Str) (f : FileMeta)
      → GroupValid s.users gid g
      → FileValid fname f
      → IsValid (set_file gid g fname f s)
  unfolding set_file
  set_file-IsValid gid g fname f w x = set_group-IsValid gid _ (record {
    named = w.named;
    owner = w.owner;
    members_sorted = w.members_sorted;
    members = w.members;
    pending_sorted = w.pending_sorted;
    pending = w.pending;
    disjoint = w.disjoint;
    files_sorted = put-IsSorted fname f g.files w.files_sorted;
    files = put-AllEntries FileValid fname f g.files w.files x;
  })

module _ (users : Map Str User) (gid : Str) (g : Group) (w : GroupValid users gid g) where
  pub found_file : (fname : Str) {f : FileMeta} → find fname g.files ≡ some f → FileValid fname f
  found_file fname e = find-AllEntries FileValid fname g.files w.files e

pub add_seeder-FileValid :
    (fname uid : Str) (p : PeerRef) (f : FileMeta)
    → p.user_id ≡ uid
    → FileValid fname f
    → FileValid fname (record f { seeders = put uid p f.seeders })
add_seeder-FileValid fname uid p f e v = record {
  named = v.named;
  sorted = put-IsSorted uid p f.seeders v.sorted;
  keyed = put-AllEntries (λ k p. p.user_id ≡ k) uid p f.seeders v.keyed e;
}
