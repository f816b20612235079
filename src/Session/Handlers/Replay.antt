-- ===== src/Session/Handlers/Replay.antt =====
-- The op that a session hands to the replication, applied to the state that the session's own
-- tracker had, has the same effect.
use peer_to_peer_distributed.Base.{
  ◌<◌, ◌^◌, ◌≡◌, refl, sym, ◌∙◌, ap, inl, inr, Bool, true, none, some, [], ◌++◌, arith, length,
  Option-cases, Bool-cases, append-nil,
}
use peer_to_peer_distributed.Text.{Str, is_empty}
use peer_to_peer_distributed.Protocol.{Status, MsgType, opcode, msg_type-opcode}
use peer_to_peer_distributed.Buffer.{get_str, str_bytes}
use peer_to_peer_distributed.Buffer.RoundTrip.{read_step, get_str-str_bytes}
use peer_to_peer_distributed.Messages.{get_two, get_three}
use peer_to_peer_distributed.Messages.Sizes.{get_str-length, get_two-length}
use peer_to_peer_distributed.Tracker.{TrackerState, Outcome}
use peer_to_peer_distributed.Tracker.Snapshot.Entries.{FitsStr}
use peer_to_peer_distributed.Session.{Session, Served, conclude, logged_in}
use peer_to_peer_distributed.Session.Handlers.{
  on_create_user, on_create_group, on_join_group, on_leave_group, on_accept_request,
}
use peer_to_peer_distributed.Sync.Apply.{
  apply_remote, apply_as, counts, ok_or_exists, ok_or_not_member, ok_or_not_found,
}

-- If an op is handed on, then applying it to `s` counts as applied and gives the session's state.
abbrev pub Replays : TrackerState → Served → Type 0
Replays s served = elim served.op [
  | none ↦ Unit {0}
  | some r ↦ apply_remote (opcode r.type) r.payload s ≡ (true, served.state)
]

pub conclude-Replays :
    (s : TrackerState) (ses : Session) (out : Outcome) (t : MsgType) (payload : Str)
    → (out.0 ≡ Status.ok → apply_as payload s t ≡ (true, out.1))
    → Replays s (conclude ses out t payload)
unfolding apply_remote
conclude-Replays s ses (Status.ok, s') t payload h = rw (msg_type-opcode t, apply_remote) (h refl)
conclude-Replays s ses (_, s') t payload h = tt

pub logged_in-Replays :
    (s : TrackerState) (ses : Session) (served : Served)
    → Replays s served
    → Replays s (logged_in ses s served)
logged_in-Replays s ses served h = elim (Bool-cases (is_empty ses.user)) [
  | inl e ↦ rw e tt
  | inr e ↦ rw e h
]

get_two-strings :
    (a b : Str) → FitsStr a → FitsStr b → get_two (str_bytes a ++ str_bytes b) ≡ some ((a, b), [])
unfolding get_two
get_two-strings a b fa fb =
    read_step _ _ _ (get_str-str_bytes a (str_bytes b) fa) (
      read_step _ _ _ (ap get_str (sym (append-nil (str_bytes b))) ∙ get_str-str_bytes b [] fb)
        refl)

get_three-strings :
    (a b c : Str)
    → FitsStr a
    → FitsStr b
    → FitsStr c
    → get_three (str_bytes a ++ (str_bytes b ++ str_bytes c)) ≡ some ((a, b, c), [])
unfolding get_three
get_three-strings a b c fa fb fc = read_step _ _ _ (get_str-str_bytes a _ fa) (
    read_step _ _ _ (get_str-str_bytes b (str_bytes c) fb) (
      read_step _ _ _ (ap get_str (sym (append-nil (str_bytes c))) ∙ get_str-str_bytes c [] fc)
        refl))

pub counts_ok :
    (test : Status → Bool) (out : Outcome)
    → test Status.ok ≡ true
    → out.0 ≡ Status.ok
    → counts test out ≡ (true, out.1)
counts_ok test out t e = rw (e, counts) (rw t)

module _ (payload : Str) (ses : Session) (s : TrackerState) (short : length payload < 2 ^ 32)
    (user : FitsStr ses.user) where
  group_fits : (gid rest : Str) → get_str payload ≡ some (gid, rest) → FitsStr gid
  group_fits gid rest e = omega (arith, get_str-length payload gid rest e)

  pub on_create_group-Replays : Replays s (on_create_group payload ses s)
  unfolding on_create_group apply_as
  on_create_group-Replays = elim (Option-cases (get_str payload)) [
    | inl e ↦ rw (e, on_create_group) (logged_in-Replays s ses _ tt)
    | inr ((gid, rest), e) ↦
        rw (e, on_create_group)
          (logged_in-Replays s ses _ (
            conclude-Replays s ses _ MsgType.create_group _ λ k.
              rw (get_two-strings gid ses.user (group_fits gid rest e) user, apply_as)
                (counts_ok ok_or_exists _ refl k)))
  ]

  pub on_join_group-Replays : Replays s (on_join_group payload ses s)
  unfolding on_join_group apply_as
  on_join_group-Replays = elim (Option-cases (get_str payload)) [
    | inl e ↦ rw (e, on_join_group) (logged_in-Replays s ses _ tt)
    | inr ((gid, rest), e) ↦
        rw (e, on_join_group)
          (logged_in-Replays s ses _ (
            conclude-Replays s ses _ MsgType.join_group _ λ k.
              rw (get_two-strings gid ses.user (group_fits gid rest e) user, apply_as)
                (counts_ok ok_or_exists _ refl k)))
  ]

  pub on_leave_group-Replays : Replays s (on_leave_group payload ses s)
  unfolding on_leave_group apply_as
  on_leave_group-Replays = elim (Option-cases (get_str payload)) [
    | inl e ↦ rw (e, on_leave_group) (logged_in-Replays s ses _ tt)
    | inr ((gid, rest), e) ↦
        rw (e, on_leave_group)
          (logged_in-Replays s ses _ (
            conclude-Replays s ses _ MsgType.leave_group _ λ k.
              rw (get_two-strings gid ses.user (group_fits gid rest e) user, apply_as)
                (counts_ok ok_or_not_member _ refl k)))
  ]

  pub on_accept_request-Replays : Replays s (on_accept_request payload ses s)
  unfolding on_accept_request apply_as
  on_accept_request-Replays = elim (Option-cases (get_two payload)) [
    | inl e ↦ rw (e, on_accept_request) (logged_in-Replays s ses _ tt)
    | inr (((gid, uid), rest), e) ↦
        let sizes = get_two-length payload gid uid rest e in
        rw (e, on_accept_request)
          (logged_in-Replays s ses _ (
            conclude-Replays s ses _ MsgType.accept_request _ λ k.
              rw (get_three-strings gid ses.user uid (omega arith) user (omega arith), apply_as)
                (counts_ok ok_or_not_found _ refl k)))
  ]

  pub on_create_user-Replays : Replays s (on_create_user payload ses s)
  unfolding on_create_user apply_as
  on_create_user-Replays = elim (Option-cases (get_two payload)) [
    | inl e ↦ rw (e, on_create_user) tt
    | inr (((uid, pwd), rest), e) ↦
        rw (e, on_create_user)
          (conclude-Replays s ses _ MsgType.create_user _
            λ k. rw (e, apply_as) (counts_ok ok_or_exists _ refl k))
  ]
