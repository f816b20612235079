-- ===== src/Process/Validity.antt =====
-- The metadata, the log and the counter of a tracker, whatever its clients and the other tracker send.
use peer_to_peer_distributed.Base.{
  ℕ, ◌+◌, ◌^◌, ◌<◌, ◌≡◌, sym, ◌∙◌, ap, subst, inl, inr, Bool, some, Option-cases, [], append-nil,
}
use peer_to_peer_distributed.Text.{Str}
use peer_to_peer_distributed.Protocol.{Status, MsgType, msg_type}
use peer_to_peer_distributed.Messages.{get_two, get_three}
use peer_to_peer_distributed.Tracker.{TrackerState}
use peer_to_peer_distributed.Tracker.Calls
use peer_to_peer_distributed.Tracker.Calls.{perform}
use peer_to_peer_distributed.Tracker.Validity.{IsValid}
use peer_to_peer_distributed.Tracker.Validity.Preserved.{perform-IsValid}
use peer_to_peer_distributed.Tracker.Snapshot.{snapshot, restore}
use peer_to_peer_distributed.Tracker.Snapshot.RoundTrip.{StateFits, restore-snapshot}
use peer_to_peer_distributed.Sync.Apply.{
  apply_remote, apply_as, counts, is_ok, ok_or_exists, ok_or_not_member, ok_or_not_found,
  get_upload_op, get_stop_op, get_have_op,
}
use peer_to_peer_distributed.Sync.Log.{LogValid}
use peer_to_peer_distributed.Sync.Link.{Node}

-- The metadata is well-formed and the log in order, with `room` numbers left.
pub record NodeValid (room : ℕ) (n : Node) : Type 0 where
  pub state : IsValid n.state
  pub log : LogValid n.sync
  pub counter : n.sync.next_seq + room < 2 ^ 64

module _ (payload : Str) (s : TrackerState) (v : IsValid s) where
  counted-IsValid : (test : Status → Bool) (c : Calls.Call) → IsValid (counts test (perform c s)).1
  counted-IsValid test c = perform-IsValid c s v

  -- Whatever an op holds, applying it leaves the metadata well-formed.
  apply_as-IsValid : (t : MsgType) → IsValid (apply_as payload s t).1
  unfolding apply_as perform
  apply_as-IsValid MsgType.create_user = elim (Option-cases (get_two payload)) [
    | inl e ↦ rw (e, apply_as) v
    | inr (((a, b), rest), e) ↦
        rw (e, apply_as) (counted-IsValid ok_or_exists (Calls.create_user a b))
  ]
  apply_as-IsValid MsgType.create_group = elim (Option-cases (get_two payload)) [
    | inl e ↦ rw (e, apply_as) v
    | inr (((a, b), rest), e) ↦
        rw (e, apply_as) (counted-IsValid ok_or_exists (Calls.create_group a b))
  ]
  apply_as-IsValid MsgType.join_group = elim (Option-cases (get_two payload)) [
    | inl e ↦ rw (e, apply_as) v
    | inr (((a, b), rest), e) ↦
        rw (e, apply_as) (counted-IsValid ok_or_exists (Calls.join_group a b))
  ]
  apply_as-IsValid MsgType.leave_group = elim (Option-cases (get_two payload)) [
    | inl e ↦ rw (e, apply_as) v
    | inr (((a, b), rest), e) ↦
        rw (e, apply_as) (counted-IsValid ok_or_not_member (Calls.leave_group a b))
  ]
  apply_as-IsValid MsgType.accept_request = elim (Option-cases (get_three payload)) [
    | inl e ↦ rw (e, apply_as) v
    | inr (((a, b, c), rest), e) ↦
        rw (e, apply_as) (counted-IsValid ok_or_not_found (Calls.accept_request a b c))
  ]
  apply_as-IsValid MsgType.upload_file = elim (Option-cases (get_upload_op payload)) [
    | inl e ↦ rw (e, apply_as) v
    | inr (((g, m, (u, ip, port)), rest), e) ↦
        rw (e, apply_as) (counted-IsValid ok_or_exists (Calls.add_file g u ip port m))
  ]
  apply_as-IsValid MsgType.stop_share = elim (Option-cases (get_stop_op payload)) [
    | inl e ↦ rw (e, apply_as) v
    | inr (((g, n, u), rest), e) ↦
        rw (e, apply_as) (counted-IsValid ok_or_not_found (Calls.stop_share g u n))
  ]
  apply_as-IsValid MsgType.have_pieces = elim (Option-cases (get_have_op payload)) [
    | inl e ↦ rw (e, apply_as) v
    | inr (((g, n, bits, (u, ip, port)), rest), e) ↦
        rw (e, apply_as) (counted-IsValid is_ok (Calls.update_bitfield g u ip port n bits))
  ]
  apply_as-IsValid _ = v

  pub apply_remote-IsValid : (type : ℕ) → IsValid (apply_remote type payload s).1
  unfolding apply_remote
  apply_remote-IsValid type = elim (Option-cases (msg_type type)) [
    | inl e ↦ rw (e, apply_remote) v
    | inr (t, e) ↦ rw (e, apply_remote) (apply_as-IsValid t)
  ]

-- A snapshot is one that a tracker has written, of a well-formed state whose parts fit.
abbrev pub IsSnapshot : Str → Type 0
IsSnapshot payload = (s : TrackerState) × IsValid s × StateFits s × (payload ≡ snapshot s)

abbrev pub IsHonest : ℕ → Str → Type 0
IsHonest type payload = msg_type type ≡ some MsgType.sync_snapshot_data → IsSnapshot payload

pub restore-IsValid :
    (payload : Str) (t : TrackerState) → IsSnapshot payload → IsValid (restore payload t).1
restore-IsValid payload t (s, valid, fits, same) =
    subst IsValid
      (sym (
        ap {A = Bool × TrackerState} (λ r. r.1)
          (ap (λ p. restore p t) (same ∙ sym (append-nil (snapshot s)))
            ∙ restore-snapshot s t [] fits)))
      valid
