-- ===== src/Session/Handlers.antt =====
-- The cases of Session::dispatch, and Session::run's end of the connection.
pub mod Cases
pub mod Replay
pub mod FileReplay
pub mod Replication
pub mod Authority
pub mod Identity
pub mod Forgery
use peer_to_peer_distributed.Base.{ℕ, Option, none, some, List, [], ◌++◌, length, if◌then◌else◌}
use peer_to_peer_distributed.Text.{Str, str_ord, is_empty}
use peer_to_peer_distributed.OrderedMap.{values}
use peer_to_peer_distributed.Protocol.{Status, MsgType, msg_type}
use peer_to_peer_distributed.Buffer.{
  Reader, get_str, str_bytes, u16_bytes, u32_bytes, u64_bytes, each_bytes,
}
use peer_to_peer_distributed.Messages.{get_two, get_login, get_upload, get_have}
use peer_to_peer_distributed.Tracker.{TrackerState, Outcome, FileMeta}
use peer_to_peer_distributed.Tracker.Users.{create_user, login, logout}
use peer_to_peer_distributed.Tracker.Groups.{
  create_group, join_group, leave_group, accept_request, list_groups, list_requests,
}
use peer_to_peer_distributed.Tracker.Files.{
  add_file, list_files, get_file, stop_share, update_bitfield,
}
use peer_to_peer_distributed.Tracker.Snapshot.{counted, peer_bytes}
use peer_to_peer_distributed.Session.{Session, Served, answer, conclude, logged_in}

-- The answer about a file.
unfoldable pub meta_bytes : FileMeta → Str
meta_bytes m =
    u64_bytes m.size
    ++ (str_bytes m.file_hash
        ++ (counted str_bytes m.piece_hashes ++ counted peer_bytes (values m.seeders)))

module _ (payload : Str) (ses : Session) (s : TrackerState) where
  abbrev malformed : Served
  malformed = answer Status.malformed [] ses s

  unfoldable pub on_create_user : Served
  on_create_user = elim (get_two payload) [
    | none ↦ malformed
    | some ((uid, pwd), rest) ↦ conclude ses (create_user uid pwd s) MsgType.create_user payload
  ]

  -- A login is not replicated.
  unfoldable pub after_login : Str → ℕ → Outcome → Served
  after_login uid port (Status.ok, s') =
      answer Status.ok [] (record ses { user = uid; seed_port = port }) s'
  after_login uid port (st, s') = answer st [] ses s'

  unfoldable pub on_login : Served
  unfolding after_login
  on_login = elim (get_login payload) [
    | none ↦ malformed
    | some ((uid, pwd, port), rest) ↦ after_login uid port (login uid pwd ses.peer_ip port s)
  ]

  unfoldable pub on_logout : Served
  on_logout =
      logged_in ses s
        (let (st, s') = logout ses.user s in answer st [] (record ses { user = [] }) s')

  unfoldable pub on_list_groups : Served
  on_list_groups = logged_in ses s (answer Status.ok (counted str_bytes (list_groups s)) ses s)

  -- Group and user, the payload of the replicated group ops.
  abbrev by_user : Str → Str
  by_user gid = str_bytes gid ++ str_bytes ses.user

  unfoldable pub on_create_group : Served
  on_create_group = logged_in ses s (elim (get_str payload) [
    | none ↦ malformed
    | some (gid, rest) ↦
        conclude ses (create_group gid ses.user s) MsgType.create_group (by_user gid)
  ])

  unfoldable pub on_join_group : Served
  on_join_group = logged_in ses s (elim (get_str payload) [
    | none ↦ malformed
    | some (gid, rest) ↦ conclude ses (join_group gid ses.user s) MsgType.join_group (by_user gid)
  ])

  unfoldable pub on_leave_group : Served
  on_leave_group = logged_in ses s (elim (get_str payload) [
    | none ↦ malformed
    | some (gid, rest) ↦ conclude ses (leave_group gid ses.user s) MsgType.leave_group (by_user gid)
  ])

  -- A reply with a list, or the error.
  unfoldable pub listing : Status × List Str → Served
  listing (Status.ok, names) = answer Status.ok (counted str_bytes names) ses s
  listing (st, names) = answer st [] ses s

  unfoldable pub on_list_requests : Served
  unfolding listing
  on_list_requests = logged_in ses s (elim (get_str payload) [
    | none ↦ malformed
    | some (gid, rest) ↦ listing (list_requests gid ses.user s)
  ])

  unfoldable pub on_accept_request : Served
  on_accept_request = logged_in ses s (elim (get_two payload) [
    | none ↦ malformed
    | some ((gid, uid), rest) ↦
        conclude ses (accept_request gid ses.user uid s) MsgType.accept_request
          (str_bytes gid ++ (str_bytes ses.user ++ str_bytes uid))
  ])

  -- What a file op carries behind the client's own payload.
  abbrev pub origin : Str
  origin = str_bytes ses.user ++ (str_bytes ses.peer_ip ++ u16_bytes ses.seed_port)

  unfoldable pub on_upload_file : Served
  on_upload_file = logged_in ses s (elim (get_upload payload) [
    | none ↦ malformed
    | some ((gid, meta), rest) ↦
        conclude ses (add_file gid ses.user ses.peer_ip ses.seed_port meta s) MsgType.upload_file
          (payload ++ origin)
  ])

  unfoldable pub on_list_files : Served
  unfolding listing
  on_list_files = logged_in ses s (elim (get_str payload) [
    | none ↦ malformed
    | some (gid, rest) ↦ listing (list_files gid ses.user s)
  ])

  unfoldable pub describe : Status × Option FileMeta → Served
  unfolding meta_bytes
  describe (Status.ok, some m) = answer Status.ok (meta_bytes m) ses s
  describe (st, m) = answer st [] ses s

  unfoldable pub on_get_file_meta : Served
  unfolding describe
  on_get_file_meta = logged_in ses s (elim (get_two payload) [
    | none ↦ malformed
    | some ((gid, fname), rest) ↦ describe (get_file gid ses.user fname s)
  ])

  unfoldable pub on_stop_share : Served
  on_stop_share = logged_in ses s (elim (get_two payload) [
    | none ↦ malformed
    | some ((gid, fname), rest) ↦
        conclude ses (stop_share gid ses.user fname s) MsgType.stop_share
          (payload ++ str_bytes ses.user)
  ])

  unfoldable pub on_have_pieces : Served
  on_have_pieces = logged_in ses s (elim (get_have payload) [
    | none ↦ malformed
    | some ((gid, fname, bits), rest) ↦
        conclude ses (update_bitfield gid ses.user ses.peer_ip ses.seed_port fname bits s)
          MsgType.have_pieces (payload ++ origin)
  ])

  -- `switch (type)`
  unfoldable pub handle : MsgType → Served
  handle MsgType.create_user = on_create_user
  handle MsgType.login = on_login
  handle MsgType.logout = on_logout
  handle MsgType.list_groups = on_list_groups
  handle MsgType.create_group = on_create_group
  handle MsgType.join_group = on_join_group
  handle MsgType.leave_group = on_leave_group
  handle MsgType.list_requests = on_list_requests
  handle MsgType.accept_request = on_accept_request
  handle MsgType.upload_file = on_upload_file
  handle MsgType.list_files = on_list_files
  handle MsgType.get_file_meta = on_get_file_meta
  handle MsgType.stop_share = on_stop_share
  handle MsgType.have_pieces = on_have_pieces
  handle _ = answer Status.not_implemented [] ses s

  unfoldable pub dispatch : ℕ → Served
  unfolding handle
  dispatch type = elim (msg_type type) [
    | none ↦ answer Status.not_implemented [] ses s
    | some t ↦ handle t
  ]

-- The end of Session::run: whoever is logged in on the connection is logged out.
unfoldable pub disconnect : Session → TrackerState → TrackerState
disconnect ses s = if is_empty ses.user then s else (logout ses.user s).1
