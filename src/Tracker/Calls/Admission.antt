-- ===== src/Tracker/Calls/Admission.antt =====
-- How a user of a history of calls came to be a member of a group, or ceased to be one.
use peer_to_peer_distributed.Base.{
  ◌≡◌, refl, ◌∙◌, ap, subst, Bool, true, false, ◌≢◌, List, [], ◌∷◌, ◌++◌, ◌⊎◌, inl, inr, Bool-cases,
}
use peer_to_peer_distributed.Text.{Str}
use peer_to_peer_distributed.Tracker.{TrackerState}
use peer_to_peer_distributed.Tracker.Calls.{Call, perform, run}
use peer_to_peer_distributed.Tracker.Calls
use peer_to_peer_distributed.Tracker.Calls.Roles.{
  Role, stranger, waiting, member, role, Owns, Edge, stays, founds, asks, admitted, leaves,
  dissolved,
}
use peer_to_peer_distributed.Tracker.Calls.Steps.{perform-Edge}
use peer_to_peer_distributed.Tracker.Validity.{IsValid}
use peer_to_peer_distributed.Tracker.Validity.Preserved.{run_keeps-IsValid}

clash : {b : Bool} → b ≡ false → b ≡ true → ⊥
clash f t = cc

-- The first call of a history after which a test of the state holds.
record Split (test : TrackerState → Bool) (cs : List Call) (s : TrackerState) : Type 0 where
  before : List Call
  call : Call
  after : List Call
  splits : cs ≡ before ++ call ∷ after
  earlier : test (run before s) ≡ false
  later : test (perform call (run before s)).1 ≡ true

first_call :
    (test : TrackerState → Bool) (cs : List Call) (s : TrackerState)
    → test s ≡ false
    → test (run cs s) ≡ true
    → Split test cs s
unfolding run
first_call test [] s not_yet held = absurd (clash not_yet held)
first_call test (c ∷ cs) s not_yet held = elim (Bool-cases (test (perform c s).1)) [
  | inl e ↦ record {
    before = [];
    call = c;
    after = cs;
    splits = refl;
    earlier = not_yet;
    later = e;
  }
  | inr e ↦
      let rest = first_call test cs (perform c s).1 e held in
      record {
        before = c ∷ rest.before;
        call = rest.call;
        after = rest.after;
        splits = ap (λ l. c ∷ l) rest.splits;
        earlier = rest.earlier;
        later = rest.later;
      }
]

abbrev is_waiting : Role → Bool
is_waiting waiting = true
is_waiting _ = false

abbrev is_inside : Role → Bool
is_inside member = true
is_inside _ = false

abbrev is_outside : Role → Bool
is_outside member = false
is_outside _ = true

module _ (s : TrackerState) where
  Edge-asks :
      {gid uid : Str} {c : Call} {r q : Role}
      → Edge s c gid uid r q
      → is_waiting r ≡ false
      → is_waiting q ≡ true
      → c ≡ Calls.join_group gid uid
  Edge-asks stays a b = absurd (clash a b)
  Edge-asks founds a b = cc
  Edge-asks asks a b = refl
  Edge-asks (admitted owns) a b = cc
  Edge-asks leaves a b = cc
  Edge-asks (dissolved owns) a b = cc

  Edge-leaves :
      {gid uid : Str} {c : Call} {r q : Role}
      → Edge s c gid uid r q
      → is_outside r ≡ false
      → is_outside q ≡ true
      → c ≡ Calls.leave_group gid uid
  Edge-leaves stays a b = absurd (clash a b)
  Edge-leaves founds a b = cc
  Edge-leaves asks a b = cc
  Edge-leaves (admitted owns) a b = cc
  Edge-leaves leaves a b = refl
  Edge-leaves (dissolved owns) a b = cc

  Edge-admits :
      {gid uid : Str} {c : Call} {r q : Role}
      → Edge s c gid uid r q
      → is_inside r ≡ false
      → is_inside q ≡ true
      → (c ≡ Calls.create_group gid uid)
        ⊎ ((owner : Str) × (c ≡ Calls.accept_request gid owner uid)
            × Owns s gid owner
            × (is_waiting r ≡ true))
  Edge-admits stays a b = absurd (clash a b)
  Edge-admits founds a b = inl refl
  Edge-admits asks a b = cc
  Edge-admits (admitted {owner = owner} owns) a b = inr (owner, refl, owns, refl)
  Edge-admits leaves a b = cc
  Edge-admits (dissolved owns) a b = cc

outside : (r : Role) → r ≢ member → is_outside r ≡ true
outside stranger out = refl
outside waiting out = refl
outside member out = absurd (out refl)

module _ (gid uid : Str) (cs : List Call) (s : TrackerState) where
  abbrev Changes : (Role → Bool) → Type 0
  Changes test = Split (λ t. test (role gid uid t)) cs s

  -- The step of the user at the first call.
  first_call-Edge :
      {test : TrackerState → Bool} (x : Split test cs s)
      → IsValid s
      → Edge
          (run x.before s)
          x.call
          gid
          uid
          (role gid uid (run x.before s))
          (role gid uid (perform x.call (run x.before s)).1)
  first_call-Edge x v =
      perform-Edge (run x.before s) gid uid x.call (run_keeps-IsValid x.before s v)

  requested :
      IsValid s
      → role gid uid s ≡ stranger
      → is_waiting (role gid uid (run cs s)) ≡ true
      → (before : List Call) × (between : List Call) × (cs
          ≡ before ++ Calls.join_group gid uid ∷ between)
  requested v start waits =
      let x : Changes is_waiting =
        first_call (λ t. is_waiting (role gid uid t)) cs s (ap is_waiting start) waits in
      (
        x.before,
        x.after,
        x.splits
            ∙ ap (λ c. x.before ++ c ∷ x.after)
                (Edge-asks (run x.before s) (first_call-Edge x v) x.earlier x.later),
      )

module _ (gid uid : Str) (cs : List Call) (s : TrackerState) where
  -- From a valid state in which the user is a member of the group: if the user is none after the
  -- calls, then one of them is the user's own leave_group of that group.
  pub run_leaves :
      IsValid s
      → role gid uid s ≡ member
      → role gid uid (run cs s) ≢ member
      → (before : List Call) × (after : List Call) × (cs
          ≡ before ++ Calls.leave_group gid uid ∷ after)
  run_leaves v inside out =
      let x : Changes gid uid cs s is_outside =
        first_call (λ t. is_outside (role gid uid t)) cs s (ap is_outside inside)
          (outside (role gid uid (run cs s)) out) in
      (
        x.before,
        x.after,
        x.splits
            ∙ ap (λ c. x.before ++ c ∷ x.after)
                (Edge-leaves (run x.before s) (first_call-Edge gid uid cs s x v) x.earlier x.later),
      )

  -- From a valid state in which the user is neither a member of the group nor waits to be: if the
  -- user is a member after the calls, then one of them is the user's create_group of that group, or
  -- the user's join_group of it is followed, at once or after other calls, by an accept_request of
  -- the user, given by the one who owned the group when it came.
  pub run_admits :
      IsValid s
      → role gid uid s ≡ stranger
      → role gid uid (run cs s) ≡ member
      → ((before : List Call) × (after : List Call) × (cs
            ≡ before ++ Calls.create_group gid uid ∷ after))
        ⊎ ((owner : Str) × (before : List Call) × (between : List Call) × (after : List Call) × (cs
              ≡ before
                ++ Calls.join_group gid uid ∷ between
                ++ Calls.accept_request gid owner uid ∷ after)
            × Owns (run (before ++ Calls.join_group gid uid ∷ between) s) gid owner)
  run_admits v start end =
      let x : Changes gid uid cs s is_inside =
        first_call (λ t. is_inside (role gid uid t)) cs s (ap is_inside start) (ap is_inside end) in
      elim (Edge-admits (run x.before s) (first_call-Edge gid uid cs s x v) x.earlier x.later) [
        | inl e ↦ inl (x.before, x.after, x.splits ∙ ap (λ c. x.before ++ c ∷ x.after) e)
        | inr (owner, e, owns, waits) ↦
            let asked = requested gid uid x.before s v start waits in
            inr (
              owner,
              asked.0,
              asked.1,
              x.after,
              x.splits
                  ∙ ap (λ c. x.before ++ c ∷ x.after) e
                  ∙ ap (λ l. l ++ Calls.accept_request gid owner uid ∷ x.after) asked.2,
              subst (λ l. Owns (run l s) gid owner) asked.2 owns,
            )
      ]
