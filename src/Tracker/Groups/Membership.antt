-- ===== src/Tracker/Groups/Membership.antt =====
-- What the calls on groups do to who is a member and who waits.
use peer_to_peer_distributed.Base.{◌≡◌, refl, ◌∙◌, Bool, true, false, none, some, [], ◌∷◌}
use peer_to_peer_distributed.Text.{Str, str_ord}
use peer_to_peer_distributed.OrderedMap.{Set, find, erase, has, insert}
use peer_to_peer_distributed.OrderedMap.Lookup.{find-put, find-erase, has-put_self, same_key_self}
use peer_to_peer_distributed.Protocol.{Status}
use peer_to_peer_distributed.Tracker.{Group, TrackerState, Outcome, set_group}
use peer_to_peer_distributed.Tracker.Groups.{join_group, leave_group, accept_request, hand_off}
use peer_to_peer_distributed.Tracker.Groups.Cases.{
  join_group_cases, leave_group_cases, accept_request_cases,
}

abbrev pub is_member : Str → Str → TrackerState → Bool
is_member gid uid s = elim (find gid s.groups) [ none ↦ false | some g ↦ has uid g.members ]

abbrev pub is_pending : Str → Str → TrackerState → Bool
is_pending gid uid s = elim (find gid s.groups) [ none ↦ false | some g ↦ has uid g.pending ]

abbrev IfOk : (TrackerState → Type 0) → Outcome → Type 0
IfOk P out = out.0 ≡ Status.ok → P out.1

module _ (gid uid : Str) (s : TrackerState) where
  find-set_group : (g : Group) → find gid (set_group gid g s).groups ≡ some g
  find-set_group g = find-put gid gid g s.groups ∙ same_key_self gid (some g) (find gid s.groups)

  has-erase : (m : Set Str) → has uid (erase uid m) ≡ false
  has-erase m = rw (find-erase uid uid m, same_key_self uid none (find uid m)) refl

  member_after : (g : Group) → is_member gid uid (set_group gid g s) ≡ has uid g.members
  member_after g = rw (find-set_group g, is_member) refl

  pending_after : (g : Group) → is_pending gid uid (set_group gid g s) ≡ has uid g.pending
  pending_after g = rw (find-set_group g, is_pending) refl

  -- A request that is made and gets ST_OK is pending.
  pub join_group_waits :
      (join_group gid uid s).0 ≡ Status.ok → is_pending gid uid (join_group gid uid s).1 ≡ true
  join_group_waits =
      join_group_cases (IfOk (λ t. is_pending gid uid t ≡ true)) s (λ e h k. absurd (h k)) gid uid
        (λ g _ _ _ _ k.
          pending_after (record g { pending = insert uid g.pending })
          ∙ has-put_self uid tt g.pending)

  -- A request that the owner accepted with ST_OK: the user is a member, and waits no longer.
  pub accept_request_joins :
      (owner : Str)
      → (accept_request gid owner uid s).0 ≡ Status.ok
      → (is_member gid uid (accept_request gid owner uid s).1 ≡ true)
        × (is_pending gid uid (accept_request gid owner uid s).1 ≡ false)
  accept_request_joins owner =
      accept_request_cases
        (IfOk (λ t. (is_member gid uid t ≡ true) × (is_pending gid uid t ≡ false))) s
        (λ e h k. absurd (h k)) gid owner uid
        (λ g _ _ _ k.
          let g' : Group = record g {
            pending = erase uid g.pending;
            members = insert uid g.members;
          } in
          (member_after g' ∙ has-put_self uid tt g.members, pending_after g' ∙ has-erase g.pending))

  hand_off_leaves :
      (g : Group) (ms : Set Str)
      → has uid ms ≡ false
      → is_member gid uid (hand_off gid g ms s) ≡ false
  unfolding hand_off
  hand_off_leaves g [] h =
      rw (find-erase gid gid s.groups, same_key_self gid none (find gid s.groups), is_member) refl
  hand_off_leaves g ((heir, u) ∷ rest) h =
      member_after (record g { members = (heir, u) ∷ rest; owner = heir }) ∙ h

  -- Whoever leaves a group with ST_OK is no member of it, the owner included.
  pub leave_group_leaves :
      (leave_group gid uid s).0 ≡ Status.ok → is_member gid uid (leave_group gid uid s).1 ≡ false
  leave_group_leaves =
      leave_group_cases (IfOk (λ t. is_member gid uid t ≡ false)) s (λ e h k. absurd (h k)) gid uid
        (λ g _ _ _ k.
          member_after (record g { members = erase uid g.members }) ∙ has-erase g.members)
        (λ g _ _ _ k. hand_off_leaves g (erase uid g.members) (has-erase g.members))
