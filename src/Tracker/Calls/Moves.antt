-- ===== src/Tracker/Calls/Moves.antt =====
-- The step that a call on groups makes each user take in the group that it names.
use peer_to_peer_distributed.Base.{
  ◌≡◌, refl, sym, ◌∙◌, ap, subst, Bool, true, false, some, [], ◌∷◌, arith, inl, inr, is_some,
  Bool-cases, Option-cases,
}
use peer_to_peer_distributed.Text.{Str, str_ord}
use peer_to_peer_distributed.OrderedMap.{Set, find, erase, has, insert, same_key}
use peer_to_peer_distributed.OrderedMap.Lookup.{AllEntries, find-AllEntries}
use peer_to_peer_distributed.Tracker.{Group, TrackerState}
use peer_to_peer_distributed.Tracker.Groups.{hand_off}
use peer_to_peer_distributed.Tracker.Calls.Roles.{
  stranger, role_in, role_of, role, Owns, Edge, asks, admitted, leaves, dissolved, by_user,
  self_key, find-put_same, find-put_other, find-erase_same, find-erase_other, at_roles, unchanged,
  set_group-Edge,
}
use peer_to_peer_distributed.Tracker.Calls.{Call}
use peer_to_peer_distributed.Tracker.Calls

-- Nobody both is a member and waits to be one.
abbrev pub Apart : Group → Type 0
Apart g = AllEntries (λ k _. has k g.members ≡ false) g.pending

member_waits_not :
    (uid : Str) (g : Group) → Apart g → has uid g.members ≡ true → has uid g.pending ≡ false
member_waits_not uid g apart m = elim (Option-cases (find uid g.pending)) [
  | inl e ↦ rw e refl
  | inr (u, e) ↦
      absurd (clash (find-AllEntries (λ k _. has k g.members ≡ false) uid g.pending apart e) m)
]
  where
    clash : {b : Bool} → b ≡ false → b ≡ true → ⊥
    clash f t = cc

module _ (s : TrackerState) (gid uid : Str) (g : Group) where
  -- The roles that a call changes in a group, for every user.
  abbrev Moves : Call → Group → Type 0
  Moves c h = (who : Str) → Edge s c gid who (role_in who g) (role_in who h)

  pub asks-Edge :
      has uid g.members ≡ false
      → has uid g.pending ≡ false
      → Moves (Calls.join_group gid uid) (record g { pending = insert uid g.pending })
  asks-Edge m p who =
      by_user
        (λ w.
          Edge s (Calls.join_group gid uid) gid w (role_in w g)
            (role_in w (record g { pending = insert uid g.pending })))
        uid who
        (at_roles s (Calls.join_group gid uid) (ground (arith, m, p))
          (ground (arith, m, find-put_same uid uid tt g.pending (self_key uid))) asks)
        (λ e. unchanged s _ (ground (arith, find-put_other uid who tt g.pending e)))

  module _ (owner : Str) (owns : Owns s gid owner) (p : has uid g.pending ≡ true) where
    abbrev accepted : Group
    accepted = record g { pending = erase uid g.pending; members = insert uid g.members }

    accepted_self :
        Edge s (Calls.accept_request gid owner uid) gid uid (role_in uid g) (role_in uid accepted)
    accepted_self = elim (Bool-cases (has uid g.members)) [
      | inl m ↦ unchanged s _ (ground (arith, m, find-put_same uid uid tt g.members (self_key uid)))
      | inr m ↦
          at_roles s (Calls.accept_request gid owner uid) (ground (arith, m, p))
            (ground (arith, find-put_same uid uid tt g.members (self_key uid))) (admitted owns)
    ]

    pub admitted-Edge : Moves (Calls.accept_request gid owner uid) accepted
    admitted-Edge who =
        by_user
          (λ w.
            Edge s (Calls.accept_request gid owner uid) gid w (role_in w g) (role_in w accepted))
          uid who accepted_self
          (λ e. unchanged s _ (
            ground
              (arith, find-put_other uid who tt g.members e, find-erase_other uid who g.pending e)))

  -- Once the last member has left.
  alone :
      (who : Str) → erase uid g.members ≡ [] → same_key who uid ≡ false → has who g.members ≡ false
  unfolding find
  alone who last e =
      ap is_some (sym (find-erase_other uid who g.members e)) ∙ ap (λ ms. has who ms) last

  module _ (apart : Apart g) (m : has uid g.members ≡ true) where
    pub leaves-Edge : Moves (Calls.leave_group gid uid) (record g { members = erase uid g.members })
    leaves-Edge who =
        by_user
          (λ w.
            Edge s (Calls.leave_group gid uid) gid w (role_in w g)
              (role_in w (record g { members = erase uid g.members })))
          uid who
          (at_roles s (Calls.leave_group gid uid) (ground (arith, m))
            (ground (
              arith,
              find-erase_same uid uid g.members (self_key uid),
              member_waits_not uid g apart m,
            ))
            leaves)
          (λ e. unchanged s _ (ground (arith, find-erase_other uid who g.members e)))

    -- The last member leaves, who owns the group: the group is no more, for anybody.
    dissolved-Edge :
        Owns s gid uid
        → erase uid g.members ≡ []
        → (who : Str) → Edge s (Calls.leave_group gid uid) gid who (role_in who g) stranger
    dissolved-Edge owns last who =
        by_user (λ w. Edge s (Calls.leave_group gid uid) gid w (role_in w g) stranger) uid who
          (at_roles s (Calls.leave_group gid uid) (ground (arith, m)) refl leaves)
          (λ e. elim (Bool-cases (has who g.pending)) [
            | inl p ↦
                at_roles s (Calls.leave_group gid uid) (ground (arith, p, alone who last e)) refl
                  (dissolved owns)
            | inr p ↦ unchanged s _ (ground (arith, p, alone who last e))
          ])

    -- The owner leaves.
    pub hand_off-Edge :
        Owns s gid uid
        → find gid s.groups ≡ some g
        → (other who : Str)
        → Edge s
            (Calls.leave_group gid uid)
            other
            who
            (role other who s)
            (role other who (hand_off gid g (erase uid g.members) s))
    unfolding hand_off
    hand_off-Edge owns found other who = heir_or_end (erase uid g.members) refl
      where
        heir_or_end :
            (ms : Set Str)
            → erase uid g.members ≡ ms
            → Edge s
                (Calls.leave_group gid uid)
                other
                who
                (role other who s)
                (role other who (hand_off gid g ms s))
        heir_or_end [] last =
            by_user
              (λ x.
                Edge s (Calls.leave_group gid uid) x who (role x who s)
                  (role_of who (find x (erase gid s.groups))))
              gid other
              (at_roles s (Calls.leave_group gid uid) (ap (role_of who) found)
                (ap (role_of who) (find-erase_same gid gid s.groups (self_key gid)))
                (dissolved-Edge owns last who))
              (λ e. unchanged s _ (ap (role_of who) (find-erase_other gid other s.groups e)))
        heir_or_end ((heir, u) ∷ rest) kept =
            set_group-Edge s (Calls.leave_group gid uid) gid (some g)
              (record g { members = (heir, u) ∷ rest; owner = heir }) found
              (λ w.
                subst
                  (λ ms.
                    Edge s (Calls.leave_group gid uid) gid w (role_in w g)
                      (role_in w (record g { members = ms })))
                  kept (leaves-Edge w))
              other who
