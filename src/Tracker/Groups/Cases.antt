-- ===== src/Tracker/Groups/Cases.antt =====
-- Each method on groups returns an error with the state as it was, or passes its tests and writes.
use peer_to_peer_distributed.Base.{◌≡◌, ◌≢◌, inl, inr, true, false, some, [], Option-cases, arith}
use peer_to_peer_distributed.Text.{Str, str_ord, str_ne}
use peer_to_peer_distributed.OrderedMap.{find, erase, has, insert}
use peer_to_peer_distributed.Protocol.{Status}
use peer_to_peer_distributed.Tracker.{Group, TrackerState, Outcome, set_group}
use peer_to_peer_distributed.Tracker.Groups.{
  create_group, join_group, leave_group, accept_request, hand_off,
}

module _ {ℓ} (P : Outcome → Type ℓ) (s : TrackerState)
    (fails : (e : Status) → e ≢ Status.ok → P (e, s)) where
  pub create_group_cases :
      (gid owner : Str)
      → (has owner s.users ≡ true
          → has gid s.groups ≡ false
          → P (
            Status.ok,
            set_group gid
                (record {
                  id = gid;
                  owner = owner;
                  members = insert owner [];
                  pending = [];
                  files = [];
                })
                s,
          ))
      → P (create_group gid owner s)
  unfolding create_group
  create_group_cases gid owner done =
      ground
        (arith, fails Status.malformed, fails Status.not_found, fails Status.already_exists, done)

  pub join_group_cases :
      (gid uid : Str)
      → ((g : Group)
          → find gid s.groups ≡ some g
          → has uid s.users ≡ true
          → has uid g.members ≡ false
          → has uid g.pending ≡ false
          → P (Status.ok, set_group gid (record g { pending = insert uid g.pending }) s))
      → P (join_group gid uid s)
  unfolding join_group
  join_group_cases gid uid done = elim (Option-cases (find gid s.groups)) [
    | inl e ↦ ground (arith, fails Status.malformed, fails Status.not_found)
    | inr (g, e) ↦
        ground (
          arith,
          fails Status.malformed,
          fails Status.not_found,
          fails Status.already_exists,
          done g,
        )
  ]

  pub leave_group_cases :
      (gid uid : Str)
      → ((g : Group)
          → find gid s.groups ≡ some g
          → has uid g.members ≡ true
          → str_ne uid g.owner ≡ true
          → P (Status.ok, set_group gid (record g { members = erase uid g.members }) s))
      → ((g : Group)
          → find gid s.groups ≡ some g
          → has uid g.members ≡ true
          → str_ne uid g.owner ≡ false
          → P (Status.ok, hand_off gid g (erase uid g.members) s))
      → P (leave_group gid uid s)
  unfolding leave_group
  leave_group_cases gid uid stays leaves = elim (Option-cases (find gid s.groups)) [
    | inl e ↦ ground (arith, fails Status.malformed, fails Status.not_found)
    | inr (g, e) ↦
        ground (arith, fails Status.malformed, fails Status.not_member, stays g, leaves g)
  ]

  pub accept_request_cases :
      (gid owner uid : Str)
      → ((g : Group)
          → find gid s.groups ≡ some g
          → str_ne g.owner owner ≡ false
          → has uid g.pending ≡ true
          → P (
            Status.ok,
            set_group gid
                (record g { pending = erase uid g.pending; members = insert uid g.members })
                s,
          ))
      → P (accept_request gid owner uid s)
  unfolding accept_request
  accept_request_cases gid owner uid done = elim (Option-cases (find gid s.groups)) [
    | inl e ↦ ground (arith, fails Status.malformed, fails Status.not_found)
    | inr (g, e) ↦
        ground
          (arith, fails Status.malformed, fails Status.not_owner, fails Status.not_found, done g)
  ]
