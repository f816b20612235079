-- ===== src/Session/Handlers/Replication.antt =====
-- The replication is faithful: for every request, what the other tracker does with the op.
use peer_to_peer_distributed.Base.{
  ℕ, ◌<◌, ◌^◌, ◌≡◌, inl, inr, none, some, Option, List, [], Option-cases, length,
}
use peer_to_peer_distributed.Text.{Str}
use peer_to_peer_distributed.Protocol.{Status, MsgType, msg_type}
use peer_to_peer_distributed.Buffer.{get_str}
use peer_to_peer_distributed.Messages.{get_two, get_login, get_upload, get_have}
use peer_to_peer_distributed.Tracker.{FileMeta, TrackerState, Outcome}
use peer_to_peer_distributed.Tracker.Users.{login}
use peer_to_peer_distributed.Tracker.Groups.{list_requests}
use peer_to_peer_distributed.Tracker.Files.{list_files, get_file}
use peer_to_peer_distributed.Session.{Session}
use peer_to_peer_distributed.Session.Handlers.{
  handle, dispatch, after_login, listing, describe, on_login, on_logout, on_list_groups,
  on_list_requests, on_list_files, on_get_file_meta,
}
use peer_to_peer_distributed.Session.Handlers.Replay.{
  Replays, logged_in-Replays, on_create_user-Replays, on_create_group-Replays,
  on_join_group-Replays, on_leave_group-Replays, on_accept_request-Replays,
}
use peer_to_peer_distributed.Session.Handlers.FileReplay.{
  SessionFits, on_upload_file-Replays, on_stop_share-Replays, on_have_pieces-Replays,
}

-- The payload of a file request ends where its fields end.
abbrev pub IsExact : MsgType → Str → Type 0
IsExact MsgType.upload_file payload =
    (gid : Str) (meta : FileMeta) (rest : Str)
    → get_upload payload ≡ some ((gid, meta), rest)
    → rest ≡ []
IsExact MsgType.stop_share payload =
    (gid fname rest : Str) → get_two payload ≡ some ((gid, fname), rest) → rest ≡ []
IsExact MsgType.have_pieces payload =
    (gid fname bits rest : Str) → get_have payload ≡ some ((gid, fname, bits), rest) → rest ≡ []
IsExact _ payload = Unit {0}

-- Requests that hand nothing to the replication.
module _ (payload : Str) (ses : Session) (s : TrackerState) where
  after_login-Replays :
      (uid : Str) (port : ℕ) (out : Outcome) → Replays s (after_login payload ses s uid port out)
  unfolding after_login
  after_login-Replays uid port (Status.ok, s') = tt
  after_login-Replays uid port (_, s') = tt

  listing-Replays : (out : Status × List Str) → Replays s (listing payload ses s out)
  unfolding listing
  listing-Replays (Status.ok, names) = tt
  listing-Replays (_, names) = tt

  describe-Replays : (out : Status × Option FileMeta) → Replays s (describe payload ses s out)
  unfolding describe
  describe-Replays (Status.ok, some m) = tt
  describe-Replays (Status.ok, none) = tt
  describe-Replays (_, m) = tt

  on_login-Replays : Replays s (on_login payload ses s)
  unfolding on_login
  on_login-Replays = elim (Option-cases (get_login payload)) [
    | inl e ↦ rw (e, on_login) tt
    | inr (((uid, pwd, port), rest), e) ↦
        rw (e, on_login) (after_login-Replays uid port (login uid pwd ses.peer_ip port s))
  ]

  on_logout-Replays : Replays s (on_logout payload ses s)
  unfolding on_logout
  on_logout-Replays = logged_in-Replays s ses _ tt

  on_list_groups-Replays : Replays s (on_list_groups payload ses s)
  unfolding on_list_groups
  on_list_groups-Replays = logged_in-Replays s ses _ tt

  on_list_requests-Replays : Replays s (on_list_requests payload ses s)
  unfolding on_list_requests
  on_list_requests-Replays = elim (Option-cases (get_str payload)) [
    | inl e ↦ rw (e, on_list_requests) (logged_in-Replays s ses _ tt)
    | inr ((gid, rest), e) ↦
        rw (e, on_list_requests)
          (logged_in-Replays s ses _ (listing-Replays (list_requests gid ses.user s)))
  ]

  on_list_files-Replays : Replays s (on_list_files payload ses s)
  unfolding on_list_files
  on_list_files-Replays = elim (Option-cases (get_str payload)) [
    | inl e ↦ rw (e, on_list_files) (logged_in-Replays s ses _ tt)
    | inr ((gid, rest), e) ↦
        rw (e, on_list_files)
          (logged_in-Replays s ses _ (listing-Replays (list_files gid ses.user s)))
  ]

  on_get_file_meta-Replays : Replays s (on_get_file_meta payload ses s)
  unfolding on_get_file_meta
  on_get_file_meta-Replays = elim (Option-cases (get_two payload)) [
    | inl e ↦ rw (e, on_get_file_meta) (logged_in-Replays s ses _ tt)
    | inr (((gid, fname), rest), e) ↦
        rw (e, on_get_file_meta)
          (logged_in-Replays s ses _ (describe-Replays (get_file gid ses.user fname s)))
  ]

  module _ (short : length payload < 2 ^ 32) (fits : SessionFits ses) where
    handle-Replays : (t : MsgType) → IsExact t payload → Replays s (handle payload ses s t)
    unfolding handle
    handle-Replays MsgType.create_user x = on_create_user-Replays payload ses s short fits.user
    handle-Replays MsgType.login x = on_login-Replays
    handle-Replays MsgType.create_group x = on_create_group-Replays payload ses s short fits.user
    handle-Replays MsgType.join_group x = on_join_group-Replays payload ses s short fits.user
    handle-Replays MsgType.leave_group x = on_leave_group-Replays payload ses s short fits.user
    handle-Replays MsgType.accept_request x =
        on_accept_request-Replays payload ses s short fits.user
    handle-Replays MsgType.upload_file x = on_upload_file-Replays payload ses s fits x
    handle-Replays MsgType.stop_share x = on_stop_share-Replays payload ses s fits x
    handle-Replays MsgType.have_pieces x = on_have_pieces-Replays payload ses s fits x
    handle-Replays MsgType.logout x = on_logout-Replays
    handle-Replays MsgType.list_groups x = on_list_groups-Replays
    handle-Replays MsgType.list_requests x = on_list_requests-Replays
    handle-Replays MsgType.list_files x = on_list_files-Replays
    handle-Replays MsgType.get_file_meta x = on_get_file_meta-Replays
    handle-Replays _ x = tt

    -- Whatever the opcode and the request, if the session hands an op to the replication, then a
    -- tracker in the state that this one had before counts the op as applied and arrives at the
    -- state that this one has after the request. The payload is shorter than 2 ^ 32 bytes, a file
    -- request has nothing behind its fields, and the session's user, address and port can be written.
    pub dispatch-Replays :
        (type : ℕ)
        → ((t : MsgType) → msg_type type ≡ some t → IsExact t payload)
        → Replays s (dispatch payload ses s type)
    unfolding dispatch
    dispatch-Replays type exact = elim (Option-cases (msg_type type)) [
      | inl e ↦ rw (e, dispatch) tt
      | inr (t, e) ↦ rw (e, dispatch) (handle-Replays t (exact t e))
    ]
