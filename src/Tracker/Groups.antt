-- ===== src/Tracker/Groups.antt =====
-- TrackerState's methods on groups and their join requests.
pub mod Cases
pub mod Membership
use peer_to_peer_distributed.Base.{
  ℕ, Bool, true, false, ◌&&◌, ◌||◌, not, none, some, List, [], ◌∷◌, if◌then◌else◌,
}
use peer_to_peer_distributed.Text.{Str, str_ord, is_empty, str_ne}
use peer_to_peer_distributed.OrderedMap.{Map, Set, find, put, erase, has, insert, keys}
use peer_to_peer_distributed.Protocol.{
  Status, ok, malformed, already_exists, not_found, not_member, not_owner,
}
use peer_to_peer_distributed.Tracker.{Group, TrackerState, Outcome, set_group}

unfoldable pub list_groups : TrackerState → List Str
list_groups s = keys s.groups

unfoldable pub create_group : Str → Str → TrackerState → Outcome
create_group gid owner s =
    if is_empty gid || is_empty owner
    then (malformed, s)
    else if not (has owner s.users)
    then (not_found, s)
    else if has gid s.groups
    then (already_exists, s)
    else (
      ok,
      set_group gid
          (record { id = gid; owner = owner; members = insert owner []; pending = []; files = [] })
          s,
    )

unfoldable pub join_group : Str → Str → TrackerState → Outcome
join_group gid uid s =
    if is_empty gid || is_empty uid then (malformed, s) else elim (find gid s.groups) [
      | none ↦ (not_found, s)
      | some g ↦
          if not (has uid s.users)
          then (not_found, s)
          else if has uid g.members || has uid g.pending
          then (already_exists, s)
          else (ok, set_group gid (record g { pending = insert uid g.pending }) s)
    ]

-- `uid == grp.owner`: the last member dissolves the group, else the first member becomes its owner.
unfoldable pub hand_off : Str → Group → Set Str → TrackerState → TrackerState
hand_off gid g [] s = record s { groups = erase gid s.groups }
hand_off gid g ((heir, u) ∷ rest) s =
    set_group gid (record g { members = (heir, u) ∷ rest; owner = heir }) s

unfoldable pub leave_group : Str → Str → TrackerState → Outcome
unfolding hand_off
leave_group gid uid s =
    if is_empty gid || is_empty uid then (malformed, s) else elim (find gid s.groups) [
      | none ↦ (not_found, s)
      | some g ↦
          if not (has uid g.members)
          then (not_member, s)
          else if str_ne uid g.owner
          then (ok, set_group gid (record g { members = erase uid g.members }) s)
          else (ok, hand_off gid g (erase uid g.members) s)
    ]

unfoldable pub accept_request : Str → Str → Str → TrackerState → Outcome
accept_request gid owner uid s =
    if is_empty gid || is_empty owner || is_empty uid
    then (malformed, s)
    else elim (find gid s.groups) [
      | none ↦ (not_found, s)
      | some g ↦
          if str_ne g.owner owner
          then (not_owner, s)
          else if not (has uid g.pending)
          then (not_found, s)
          else (
            ok,
            set_group gid
                (record g { pending = erase uid g.pending; members = insert uid g.members }) s,
          )
    ]

-- The status, and `out` as the call leaves it.
unfoldable pub list_requests : Str → Str → TrackerState → Status × List Str
list_requests gid owner s =
    if is_empty gid || is_empty owner then (malformed, []) else elim (find gid s.groups) [
      | none ↦ (not_found, [])
      | some g ↦ if str_ne g.owner owner then (not_owner, []) else (ok, keys g.pending)
    ]
