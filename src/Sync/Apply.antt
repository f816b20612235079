-- ===== src/Sync/Apply.antt =====
-- SyncManager::apply_remote: a replicated op is decoded and applied to the tracker's state. The
-- result is whether it counts as applied, and the state after it.
use peer_to_peer_distributed.Base.{ℕ, Bool, true, false, none, some}
use peer_to_peer_distributed.Text.{Str}
use peer_to_peer_distributed.Protocol.{Status, MsgType, msg_type}
use peer_to_peer_distributed.Buffer.{Reader, ◌>>=◌, pure, get_str}
use peer_to_peer_distributed.Messages.{get_two, get_three, get_upload, get_have, get_origin}
use peer_to_peer_distributed.Tracker.{FileMeta, TrackerState, Outcome}
use peer_to_peer_distributed.Tracker.Users.{create_user}
use peer_to_peer_distributed.Tracker.Groups.{create_group, join_group, leave_group, accept_request}
use peer_to_peer_distributed.Tracker.Files.{add_file, stop_share, update_bitfield}

-- `s == ST_OK || s == ST_ALREADY_EXISTS`, and the like
abbrev pub is_ok : Status → Bool
is_ok Status.ok = true
is_ok _ = false

abbrev pub ok_or_exists : Status → Bool
ok_or_exists Status.ok = true
ok_or_exists Status.already_exists = true
ok_or_exists _ = false

abbrev pub ok_or_not_member : Status → Bool
ok_or_not_member Status.ok = true
ok_or_not_member Status.not_member = true
ok_or_not_member _ = false

abbrev pub ok_or_not_found : Status → Bool
ok_or_not_found Status.ok = true
ok_or_not_found Status.not_found = true
ok_or_not_found _ = false

abbrev pub counts : (Status → Bool) → Outcome → Bool × TrackerState
counts test (st, s) = (test st, s)

unfoldable pub get_upload_op : Reader (Str × FileMeta × (Str × Str × ℕ))
get_upload_op = do (gid, meta) ← get_upload; by ← get_origin; pure (gid, meta, by)

unfoldable pub get_stop_op : Reader (Str × Str × Str)
get_stop_op = do (gid, fname) ← get_two; uid ← get_str; pure (gid, fname, uid)

unfoldable pub get_have_op : Reader (Str × Str × Str × (Str × Str × ℕ))
get_have_op = do (gid, fname, bits) ← get_have; by ← get_origin; pure (gid, fname, bits, by)

module _ (payload : Str) (s : TrackerState) where
  unfoldable pub apply_as : MsgType → Bool × TrackerState
  apply_as MsgType.create_user = elim (get_two payload) [
    | none ↦ (false, s)
    | some ((uid, pwd), rest) ↦ counts ok_or_exists (create_user uid pwd s)
  ]
  apply_as MsgType.create_group = elim (get_two payload) [
    | none ↦ (false, s)
    | some ((gid, owner), rest) ↦ counts ok_or_exists (create_group gid owner s)
  ]
  apply_as MsgType.join_group = elim (get_two payload) [
    | none ↦ (false, s)
    | some ((gid, uid), rest) ↦ counts ok_or_exists (join_group gid uid s)
  ]
  apply_as MsgType.leave_group = elim (get_two payload) [
    | none ↦ (false, s)
    | some ((gid, uid), rest) ↦ counts ok_or_not_member (leave_group gid uid s)
  ]
  apply_as MsgType.accept_request = elim (get_three payload) [
    | none ↦ (false, s)
    | some ((gid, owner, uid), rest) ↦ counts ok_or_not_found (accept_request gid owner uid s)
  ]
  apply_as MsgType.upload_file = elim (get_upload_op payload) [
    | none ↦ (false, s)
    | some ((gid, meta, (uid, ip, port)), rest) ↦
        counts ok_or_exists (add_file gid uid ip port meta s)
  ]
  apply_as MsgType.stop_share = elim (get_stop_op payload) [
    | none ↦ (false, s)
    | some ((gid, fname, uid), rest) ↦ counts ok_or_not_found (stop_share gid uid fname s)
  ]
  apply_as MsgType.have_pieces = elim (get_have_op payload) [
    | none ↦ (false, s)
    | some ((gid, fname, bits, (uid, ip, port)), rest) ↦
        counts is_ok (update_bitfield gid uid ip port fname bits s)
  ]
  apply_as _ = (false, s)

-- apply_remote, on the op's type and payload
unfoldable pub apply_remote : ℕ → Str → TrackerState → Bool × TrackerState
apply_remote type payload s = elim (msg_type type) [
  | none ↦ (false, s)
  | some t ↦ apply_as payload s t
]
