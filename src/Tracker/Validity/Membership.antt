-- ===== src/Tracker/Validity/Membership.antt =====
-- The changes of a group's members and join requests keep it valid.
use mathlib.Core.Bool.{false≢true}
use peer_to_peer_distributed.Base.{◌≡◌, refl, true, false, [], ◌∷◌, arith, inl, inr, Option-cases}
use peer_to_peer_distributed.Text.{Str, str_ord, str_ne, compare_str_eq, compare_str_self}
use peer_to_peer_distributed.OrderedMap.{Map, Set, find, erase, insert, has, same_key}
use peer_to_peer_distributed.OrderedMap.Lookup.{
  AllEntries, AllEntries-mono, find-AllEntries, put-AllEntries, erase-AllEntries, erase_others,
  find-put, find-erase, has-put, has-put_self,
}
use peer_to_peer_distributed.OrderedMap.Order.{IsSorted, put-IsSorted, erase-IsSorted}
use peer_to_peer_distributed.Tracker.{Group, User, TrackerState}
use peer_to_peer_distributed.Tracker.Groups.{hand_off}
use peer_to_peer_distributed.Tracker.Validity.{GroupValid, IsValid, set_group-IsValid}

abbrev Registered : Map Str User → Set Str → Type 0
Registered users m = AllEntries (λ k _. has k users ≡ true) m

abbrev Apart : Set Str → Set Str → Type 0
Apart ms ps = AllEntries (λ k _. has k ms ≡ false) ps

first_has : (k : Str) (u : Unit {0}) (m : Set Str) → has k ((k, u) ∷ m) ≡ true
unfolding find
first_has k u m = ground (arith, compare_str_self k)

pub new_group-GroupValid :
    (users : Map Str User) (gid owner : Str)
    → has owner users ≡ true
    → GroupValid users gid
        (record { id = gid; owner = owner; members = insert owner []; pending = []; files = [] })
new_group-GroupValid users gid owner h = record {
  named = refl;
  owner = has-put_self owner tt [];
  members_sorted = put-IsSorted owner tt [] tt;
  members = put-AllEntries (λ k _. has k users ≡ true) owner tt [] tt h;
  pending_sorted = tt;
  pending = tt;
  disjoint = tt;
  files_sorted = tt;
  files = tt;
}

has-erase : (k uid : Str) (m : Set Str) → has k m ≡ false → has k (erase uid m) ≡ false
has-erase k uid m h = ground (arith, find-erase uid k m)

has-erase_ne :
    (k uid : Str) (m : Set Str) → str_ne uid k ≡ true → has k m ≡ true → has k (erase uid m) ≡ true
has-erase_ne k uid m n h =
    ground (arith, find-erase uid k m, compare_str_eq k uid, compare_str_self k)

has-insert_ne :
    (k uid : Str) (m : Set Str)
    → (has k m ≡ false) × (same_key k uid ≡ false)
    → has k (insert uid m) ≡ false
has-insert_ne k uid m h = ground (arith, find-put uid k tt m)

module _ (users : Map Str User) (gid : Str) (g : Group) (v : GroupValid users gid g)
    (uid : Str) where
  pub request-GroupValid :
      has uid users ≡ true
      → has uid g.members ≡ false
      → GroupValid users gid (record g { pending = insert uid g.pending })
  request-GroupValid r h = record {
    named = v.named;
    owner = v.owner;
    members_sorted = v.members_sorted;
    members = v.members;
    pending_sorted = put-IsSorted uid tt g.pending v.pending_sorted;
    pending = put-AllEntries (λ k _. has k users ≡ true) uid tt g.pending v.pending r;
    disjoint = put-AllEntries (λ k _. has k g.members ≡ false) uid tt g.pending v.disjoint h;
    files_sorted = v.files_sorted;
    files = v.files;
  }

  pub leave-GroupValid :
      str_ne uid g.owner ≡ true → GroupValid users gid (record g { members = erase uid g.members })
  leave-GroupValid n = record {
    named = v.named;
    owner = has-erase_ne g.owner uid g.members n v.owner;
    members_sorted = erase-IsSorted uid g.members v.members_sorted;
    members = erase-AllEntries (λ k _. has k users ≡ true) uid g.members v.members;
    pending_sorted = v.pending_sorted;
    pending = v.pending;
    disjoint =
        AllEntries-mono (λ k _. has k g.members ≡ false)
          (λ k _. has k (erase uid g.members) ≡ false) g.pending
          (λ k _ h. has-erase k uid g.members h) v.disjoint;
    files_sorted = v.files_sorted;
    files = v.files;
  }

  pub accept-GroupValid :
      has uid users ≡ true
      → GroupValid users gid
          (record g { pending = erase uid g.pending; members = insert uid g.members })
  accept-GroupValid r = record {
    named = v.named;
    owner = has-put g.owner uid tt g.members v.owner;
    members_sorted = put-IsSorted uid tt g.members v.members_sorted;
    members = put-AllEntries (λ k _. has k users ≡ true) uid tt g.members v.members r;
    pending_sorted = erase-IsSorted uid g.pending v.pending_sorted;
    pending = erase-AllEntries (λ k _. has k users ≡ true) uid g.pending v.pending;
    disjoint =
        AllEntries-mono (λ k _. (has k g.members ≡ false) × (same_key k uid ≡ false))
          (λ k _. has k (insert uid g.members) ≡ false) (erase uid g.pending)
          (λ k _ h. has-insert_ne k uid g.members h)
          (erase_others (λ k _. has k g.members ≡ false) uid g.pending v.disjoint);
    files_sorted = v.files_sorted;
    files = v.files;
  }

  -- Who waits to join is registered.
  pub pending_registered : has uid g.pending ≡ true → has uid users ≡ true
  pending_registered h = elim (Option-cases (find uid g.pending)) [
    | inl e ↦ absurd (false≢true (ground arith))
    | inr (u, e) ↦ find-AllEntries (λ k _. has k users ≡ true) uid g.pending v.pending e
  ]

module _ (s : TrackerState) (valid : IsValid s) (gid : Str) (g : Group)
    (v : GroupValid s.users gid g) where
  hand_off_to-IsValid :
      (ms : Set Str)
      → IsSorted ms
      → Registered s.users ms
      → Apart ms g.pending
      → IsValid (hand_off gid g ms s)
  unfolding hand_off
  hand_off_to-IsValid [] sorted registered apart = record {
    users_sorted = valid.users_sorted;
    users = valid.users;
    groups_sorted = erase-IsSorted gid s.groups valid.groups_sorted;
    groups = erase-AllEntries (GroupValid s.users) gid s.groups valid.groups;
  }
  hand_off_to-IsValid ((heir, u) ∷ rest) sorted registered apart =
      set_group-IsValid s valid gid _ (record {
        named = v.named;
        owner = first_has heir u rest;
        members_sorted = sorted;
        members = registered;
        pending_sorted = v.pending_sorted;
        pending = v.pending;
        disjoint = apart;
        files_sorted = v.files_sorted;
        files = v.files;
      })

  -- The owner leaves: the group goes to the first member that is left, or is dissolved.
  pub hand_off-IsValid : (uid : Str) → IsValid (hand_off gid g (erase uid g.members) s)
  hand_off-IsValid uid =
      hand_off_to-IsValid (erase uid g.members) (erase-IsSorted uid g.members v.members_sorted)
        (erase-AllEntries (λ k _. has k s.users ≡ true) uid g.members v.members)
        (AllEntries-mono (λ k _. has k g.members ≡ false)
          (λ k _. has k (erase uid g.members) ≡ false) g.pending
          (λ k _ h. has-erase k uid g.members h) v.disjoint)
