-- ===== src/Tracker/Calls/Steps.antt =====
-- The step that any call makes each user take in each group.
use peer_to_peer_distributed.Base.{
  ◌≡◌, refl, sym, ◌∙◌, ap, false, none, some, Option, [], arith, inl, inr, is_some, Option-cases,
}
use peer_to_peer_distributed.Text.{Str, str_ord, str_ne-eq}
use peer_to_peer_distributed.OrderedMap.{find, put, erase, has, insert}
use peer_to_peer_distributed.OrderedMap.Lookup.{find-map_values, has-put_self}
use peer_to_peer_distributed.Tracker.{Group, FileMeta, TrackerState, Outcome}
use peer_to_peer_distributed.Tracker.Files.{set_file}
use peer_to_peer_distributed.Tracker.Users.{drop_seeder}
use peer_to_peer_distributed.Tracker.Users.Cases.{create_user_cases, login_cases, logout_cases}
use peer_to_peer_distributed.Tracker.Groups.Cases.{
  create_group_cases, join_group_cases, leave_group_cases, accept_request_cases,
}
use peer_to_peer_distributed.Tracker.Files.Cases.{
  add_file_cases, stop_share_cases, update_bitfield_cases,
}
use peer_to_peer_distributed.Tracker.Calls.{
  Call, create_user, login, logout, create_group, join_group, leave_group, accept_request, add_file,
  stop_share, update_bitfield, perform,
}
use peer_to_peer_distributed.Tracker.Calls.Roles.{
  stranger, role_in, role_of, role, Edge, stays, founds, by_user, find-put_other, at_roles,
  unchanged, set_group-Edge,
}
use peer_to_peer_distributed.Tracker.Calls.Moves.{
  asks-Edge, admitted-Edge, leaves-Edge, hand_off-Edge,
}
use peer_to_peer_distributed.Tracker.Validity.{IsValid, found_group}
use peer_to_peer_distributed.Tracker.Calls
use peer_to_peer_distributed.Protocol.{Status}

-- Who seeds a file is no part of a user's role.
drop_seeder-role :
    (uid who : Str) (o : Option Group)
    → role_of who (elim o [ none ↦ none | some g ↦ some (drop_seeder uid g) ]) ≡ role_of who o
unfolding drop_seeder
drop_seeder-role uid who none = refl
drop_seeder-role uid who (some g) = refl

absent : (gid : Str) (s : TrackerState) → has gid s.groups ≡ false → find gid s.groups ≡ none
absent gid s h = elim (Option-cases (find gid s.groups)) [
  | inl e ↦ e
  | inr (g, e) ↦ absurd (clash (find gid s.groups) e h)
]
  where
    clash : {g : Group} (o : Option Group) → o ≡ some g → is_some o ≡ false → ⊥
    clash o e h = ground arith

abbrev founded : Str → Str → Group
founded gid owner = record {
  id = gid;
  owner = owner;
  members = insert owner [];
  pending = [];
  files = [];
}

founds-Edge :
    (s : TrackerState) (gid owner who : Str)
    → Edge s (Calls.create_group gid owner) gid who stranger (role_in who (founded gid owner))
unfolding find
founds-Edge s gid owner who =
    by_user
      (λ w. Edge s (Calls.create_group gid owner) gid w stranger (role_in w (founded gid owner)))
      owner who
      (at_roles s (Calls.create_group gid owner) refl (ground (arith, has-put_self owner tt []))
        founds)
      (λ e. unchanged s _ (ground (arith, find-put_other owner who tt [] e)))

module _ (s : TrackerState) (gid who : Str) where
  abbrev Takes : Call → Outcome → Type 0
  Takes c out = Edge s c gid who (role gid who s) (role gid who out.1)

  set_file-Edge :
      (c : Call) (id : Str) (g : Group) (fname : Str) (f : FileMeta)
      → find id s.groups ≡ some g
      → Takes c (Status.ok, set_file id g fname f s)
  unfolding set_file
  set_file-Edge c id g fname f found =
      set_group-Edge s c id (some g) (record g { files = put fname f g.files }) found (λ w. stays)
        gid who

  -- Whatever the call and whether it succeeds, each user takes one of the steps in each group.
  pub perform-Edge : (c : Call) → IsValid s → Takes c (perform c s)
  unfolding perform
  perform-Edge (create_user uid pwd) v =
      create_user_cases (Takes (create_user uid pwd)) s (λ _ _. stays) uid pwd (λ _ _. stays)
  perform-Edge (login uid pwd ip port) v =
      login_cases (Takes (login uid pwd ip port)) s (λ _ _. stays) uid pwd ip port (λ _ _ _. stays)
  perform-Edge (logout uid) v =
      logout_cases (Takes (logout uid)) s (λ _ _. stays) uid
        (λ _ _. unchanged s (logout uid) (
          ap (role_of who) (find-map_values (drop_seeder uid) gid s.groups)
          ∙ drop_seeder-role uid who (find gid s.groups)))
  perform-Edge (create_group id owner) v =
      create_group_cases (Takes (create_group id owner)) s (λ _ _. stays) id owner
        (λ _ h.
          set_group-Edge s (create_group id owner) id none (founded id owner) (absent id s h)
            (founds-Edge s id owner) gid who)
  perform-Edge (join_group id uid) v =
      join_group_cases (Takes (join_group id uid)) s (λ _ _. stays) id uid
        (λ g e _ m p.
          set_group-Edge s (join_group id uid) id (some g)
            (record g { pending = insert uid g.pending }) e (asks-Edge s id uid g m p) gid who)
  perform-Edge (leave_group id uid) v =
      leave_group_cases (Takes (leave_group id uid)) s (λ _ _. stays) id uid
        (λ g e m _.
          set_group-Edge s (leave_group id uid) id (some g)
            (record g { members = erase uid g.members }) e
            (leaves-Edge s id uid g (found_group s v id e).disjoint m) gid who)
        (λ g e m o.
          hand_off-Edge s id uid g (found_group s v id e).disjoint m
            (g, e, sym (str_ne-eq uid g.owner o)) e gid who)
  perform-Edge (accept_request id owner uid) v =
      accept_request_cases (Takes (accept_request id owner uid)) s (λ _ _. stays) id owner uid
        (λ g e o p.
          set_group-Edge s (accept_request id owner uid) id (some g)
            (record g { pending = erase uid g.pending; members = insert uid g.members }) e
            (admitted-Edge s id uid g owner (g, e, str_ne-eq g.owner owner o) p) gid who)
  perform-Edge (add_file id uid ip port meta) v =
      add_file_cases (Takes (add_file id uid ip port meta)) s (λ _ _. stays) id uid ip port meta
        (λ g f e _ _ _. set_file-Edge _ id g meta.name _ e)
        (λ g e _ _. set_file-Edge _ id g meta.name _ e)
  perform-Edge (stop_share id uid fname) v =
      stop_share_cases (Takes (stop_share id uid fname)) s (λ _ _. stays) id uid fname
        (λ g f e _ _. set_file-Edge _ id g fname _ e)
  perform-Edge (update_bitfield id uid ip port fname bits) v =
      update_bitfield_cases (Takes (update_bitfield id uid ip port fname bits)) s (λ _ _. stays) id
        uid ip port fname bits (λ g f e _ _. set_file-Edge _ id g fname _ e)
