-- ===== src/Tracker/Calls/Roles.antt =====
-- What a user is in a group, and the calls that may change it.
use peer_to_peer_distributed.Base.{
  ◌≡◌, refl, sym, ◌∙◌, ap, subst, true, false, Option, none, some, arith, inl, inr, if◌then◌else◌,
  Bool-cases,
}
use peer_to_peer_distributed.Text.{Str, str_ord, str_ne-eq, compare_str_self}
use peer_to_peer_distributed.OrderedMap.{Map, find, put, erase, has, same_key}
use peer_to_peer_distributed.OrderedMap.Lookup.{find-put, find-erase}
use peer_to_peer_distributed.Tracker.{Group, TrackerState, set_group}
use peer_to_peer_distributed.Tracker.Calls.{Call}
use peer_to_peer_distributed.Tracker.Calls

pub data Role : Type 0 where
  stranger : Role
  waiting : Role
  member : Role

abbrev pub role_in : Str → Group → Role
role_in uid g =
    if has uid g.members then member else if has uid g.pending then waiting else stranger

abbrev pub role_of : Str → Option Group → Role
role_of uid none = stranger
role_of uid (some g) = role_in uid g

abbrev pub role : Str → Str → TrackerState → Role
role gid uid s = role_of uid (find gid s.groups)

-- A user owns a group.
abbrev pub Owns : TrackerState → Str → Str → Type 0
Owns s gid uid = (g : Group) × (find gid s.groups ≡ some g) × (g.owner ≡ uid)

-- The steps that a call, in a state, may make a user take in a group.
pub data Edge (s : TrackerState) : Call → Str → Str → Role → Role → Type 0 where
  stays : {c : Call} {gid uid : Str} {r : Role} → Edge s c gid uid r r
  founds : {gid uid : Str} → Edge s (Calls.create_group gid uid) gid uid stranger member
  asks : {gid uid : Str} → Edge s (Calls.join_group gid uid) gid uid stranger waiting
  admitted :
      {gid owner uid : Str}
      → Owns s gid owner
      → Edge s (Calls.accept_request gid owner uid) gid uid waiting member
  leaves : {gid uid : Str} → Edge s (Calls.leave_group gid uid) gid uid member stranger
  dissolved :
      {gid owner uid : Str}
      → Owns s gid owner
      → Edge s (Calls.leave_group gid owner) gid uid waiting stranger

pub same_str : (a b : Str) → same_key a b ≡ true → a ≡ b
same_str a b e = str_ne-eq a b (ground (arith, e))

pub self_key : (a : Str) → same_key a a ≡ true
self_key a = ground (arith, compare_str_self a)

-- A property of a user holds when it holds of `uid` and of every other one.
pub by_user :
    (P : Str → Type 0) (uid who : Str) → P uid → (same_key who uid ≡ false → P who) → P who
by_user P uid who at others = elim (Bool-cases (same_key who uid)) [
  | inl e ↦ subst P (sym (same_str who uid e)) at
  | inr e ↦ others e
]

-- A lookup after a write, at the key and at another one.
module _ {V : Type 0} (k j : Str) (v : V) (m : Map Str V) where
  pub find-put_same : same_key j k ≡ true → find j (put k v m) ≡ some v
  find-put_same e = find-put k j v m ∙ ap (λ b. if b then some v else find j m) e

  pub find-put_other : same_key j k ≡ false → find j (put k v m) ≡ find j m
  find-put_other e = find-put k j v m ∙ ap (λ b. if b then some v else find j m) e

module _ {V : Type 0} (k j : Str) (m : Map Str V) where
  pub find-erase_same : same_key j k ≡ true → find j (erase k m) ≡ none
  find-erase_same e = find-erase k j m ∙ ap (λ b. if b then none else find j m) e

  pub find-erase_other : same_key j k ≡ false → find j (erase k m) ≡ find j m
  find-erase_other e = find-erase k j m ∙ ap (λ b. if b then none else find j m) e

module _ (s : TrackerState) (c : Call) where
  pub at_roles :
      {gid uid : Str} {r r' q q' : Role}
      → r ≡ r'
      → q ≡ q'
      → Edge s c gid uid r' q'
      → Edge s c gid uid r q
  at_roles {gid} {uid} {r' = r'} {q = q} e k edge =
      subst (λ x. Edge s c gid uid x q) (sym e) (subst (λ x. Edge s c gid uid r' x) (sym k) edge)

  -- A role that is what it was.
  pub unchanged : {gid uid : Str} {r q : Role} → q ≡ r → Edge s c gid uid r q
  unchanged {r = r} e = at_roles {r' = r} {q' = r} refl e stays

  -- A call that writes one group: the roles in the others stay.
  pub set_group-Edge :
      (gid : Str) (o : Option Group) (h : Group)
      → find gid s.groups ≡ o
      → ((uid : Str) → Edge s c gid uid (role_of uid o) (role_in uid h))
      → (other uid : Str)
      → Edge s c other uid (role other uid s) (role other uid (set_group gid h s))
  set_group-Edge gid o h found edge other uid =
      by_user (λ x. Edge s c x uid (role x uid s) (role x uid (set_group gid h s))) gid other
        (at_roles (ap (role_of uid) found)
          (ap (role_of uid) (find-put_same gid gid h s.groups (self_key gid))) (edge uid))
        (λ e. unchanged (ap (role_of uid) (find-put_other gid other h s.groups e)))
