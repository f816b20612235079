-- ===== src/Client/Requests.antt =====
-- A command of the client, served by the tracker's session.
use peer_to_peer_distributed.Base.{
  ℕ, ◌^◌, ◌+◌, ◌≤◌, ◌<◌, ◌≡◌, List, arith, refl, subst, false, Option, none, some, [], ◌++◌, length,
  All, append-nil,
}
use peer_to_peer_distributed.Net.{Answer, Progress, header_of, recv_msg}
use peer_to_peer_distributed.Net.Framing.{wire, recv_msg-wire}
use peer_to_peer_distributed.Net.Transfer.{IsProgress, moves}
use peer_to_peer_distributed.Text.{Str, is_empty}
use peer_to_peer_distributed.Protocol.{
  MsgType, MsgHeader, Status, opcode, opcode-lt, msg_type-opcode, max_payload,
}
use peer_to_peer_distributed.Buffer.{get_str, str_bytes, u16_bytes}
use peer_to_peer_distributed.Buffer.RoundTrip.{
  read_step, get_u16-u16_bytes, get_u32-u32_bytes, get_u64-u64_bytes, get_str-str_bytes,
  get_list-each_bytes,
}
use peer_to_peer_distributed.Messages.{get_two, get_login, get_upload}
use peer_to_peer_distributed.Tracker.{FileMeta, TrackerState, Outcome}
use peer_to_peer_distributed.Tracker.Calls
use peer_to_peer_distributed.Tracker.Calls.{Call, perform}
use peer_to_peer_distributed.Tracker.Snapshot.{counted}
use peer_to_peer_distributed.Tracker.Snapshot.Entries.{FitsStr}
use peer_to_peer_distributed.Session.{Session, Served, logged_in}
use peer_to_peer_distributed.Session.Handlers.{
  handle, dispatch, after_login, on_create_user, on_login, on_logout, on_create_group,
  on_join_group, on_leave_group, on_accept_request, on_upload_file, on_stop_share,
}
use peer_to_peer_distributed.Client
use peer_to_peer_distributed.Client.{
  Command, Hashed, ClientMessage, basename, upload_payload, message_of,
}

-- What a user asks for by a command, on a session that is logged in.
abbrev pub uploaded : Str → Hashed → FileMeta
uploaded path h = record {
  name = basename path;
  size = h.size;
  file_hash = h.whole;
  piece_hashes = h.pieces;
  seeders = [];
}

abbrev upload_call : Session → Str → Str → Option Hashed → Option Call
upload_call ses gid path none = none
upload_call ses gid path (some h) =
    some (Calls.add_file gid ses.user ses.peer_ip ses.seed_port (uploaded path h))

unfoldable pub call_of : ℕ → Session → Option Hashed → Command → Option Call
call_of port ses hashed (Client.create_user uid pwd) = some (Calls.create_user uid pwd)
call_of port ses hashed (Client.login uid pwd) = some (Calls.login uid pwd ses.peer_ip port)
call_of port ses hashed (Client.create_group gid) = some (Calls.create_group gid ses.user)
call_of port ses hashed (Client.join_group gid) = some (Calls.join_group gid ses.user)
call_of port ses hashed (Client.leave_group gid) = some (Calls.leave_group gid ses.user)
call_of port ses hashed (Client.accept_request gid uid) =
    some (Calls.accept_request gid ses.user uid)
call_of port ses hashed (Client.upload_file gid path) = upload_call ses gid path hashed
call_of port ses hashed (Client.stop_share gid fname) = some (Calls.stop_share gid ses.user fname)
call_of port ses hashed Client.logout = some (Calls.logout ses.user)
call_of port ses hashed _ = none

-- The words of a command and what was hashed fit their fields.
abbrev pub HashFits : Option Hashed → Type 0
HashFits none = Unit {0}
HashFits (some h) =
    (h.size < 2 ^ 64) × FitsStr h.whole × (length h.pieces < 2 ^ 32) × All FitsStr h.pieces

abbrev pub CommandFits : Option Hashed → Command → Type 0
CommandFits hashed (Client.create_user uid pwd) = FitsStr uid × FitsStr pwd
CommandFits hashed (Client.login uid pwd) = FitsStr uid × FitsStr pwd
CommandFits hashed (Client.create_group gid) = FitsStr gid
CommandFits hashed (Client.join_group gid) = FitsStr gid
CommandFits hashed (Client.leave_group gid) = FitsStr gid
CommandFits hashed (Client.accept_request gid uid) = FitsStr gid × FitsStr uid
CommandFits hashed (Client.upload_file gid path) =
    FitsStr gid × FitsStr (basename path) × HashFits hashed
CommandFits hashed (Client.stop_share gid fname) = FitsStr gid × FitsStr fname
CommandFits hashed _ = Unit {0}

get_one : (a : Str) → FitsStr a → get_str (str_bytes a) ≡ some (a, [])
get_one a f = rw append-nil at (get_str-str_bytes a [] f)

two_words :
    (a b : Str) → FitsStr a → FitsStr b → get_two (str_bytes a ++ str_bytes b) ≡ some ((a, b), [])
unfolding get_two
two_words a b fa fb =
    read_step _ _ _ (get_str-str_bytes a (str_bytes b) fa) (read_step _ _ _ (get_one b fb) refl)

get_login_words :
    (uid pwd : Str) (port : ℕ)
    → FitsStr uid
    → FitsStr pwd
    → port < 2 ^ 16
    → get_login (str_bytes uid ++ (str_bytes pwd ++ u16_bytes port)) ≡ some ((uid, pwd, port), [])
unfolding get_login
get_login_words uid pwd port fu fp h = read_step _ _ _ (get_str-str_bytes uid _ fu) (
    read_step _ _ _ (get_str-str_bytes pwd _ fp)
      (read_step _ _ _ (rw append-nil at (get_u16-u16_bytes port [] h)) refl))

get_upload-upload_payload :
    (gid path : Str) (h : Hashed)
    → FitsStr gid
    → FitsStr (basename path)
    → HashFits (some h)
    → get_upload (upload_payload gid (basename path) h) ≡ some ((gid, uploaded path h), [])
unfolding get_upload counted
get_upload-upload_payload gid path h fg fp (fs, fw, fc, fl) =
    read_step _ _ _ (get_str-str_bytes gid _ fg) (
      read_step _ _ _ (get_str-str_bytes (basename path) _ fp) (
        read_step _ _ _ (get_u64-u64_bytes h.size _ fs) (
          read_step _ _ _ (get_str-str_bytes h.whole _ fw) (
            read_step _ _ _ (get_u32-u32_bytes (length h.pieces) _ fc) (
              read_step _ _ _
                (rw append-nil at
                  (get_list-each_bytes get_str str_bytes FitsStr get_str-str_bytes h.pieces [] fl))
                refl)))))

module _ (port : ℕ) (ses : Session) (s : TrackerState) where
  -- The reply and the tracker's state are those of the call.
  abbrev pub Does : Option ClientMessage → Option Call → Type 0
  Does (some m) (some k) =
      ((dispatch m.payload ses s (opcode m.type)).status ≡ (perform k s).0)
      × ((dispatch m.payload ses s (opcode m.type)).state ≡ (perform k s).1)
  Does _ _ = Unit {0}

  abbrev Same : Outcome → Served → Type 0
  Same out served = (served.status ≡ out.0) × (served.state ≡ out.1)

  handled :
      (t : MsgType) (payload : Str) (out : Outcome)
      → Same out (handle payload ses s t)
      → Same out (dispatch payload ses s (opcode t))
  unfolding dispatch
  handled t payload out h = rw (msg_type-opcode t, dispatch) h

  login_done :
      (payload uid : Str) (out : Outcome) → Same out (after_login payload ses s uid port out)
  unfolding after_login
  login_done payload uid (Status.ok, s') = (refl, refl)
  login_done payload uid (_, s') = (refl, refl)

  logged :
      (served : Served) (out : Outcome)
      → is_empty ses.user ≡ false
      → Same out served
      → Same out (logged_in ses s served)
  logged served out u h = rw u h

  command-Does :
      (hashed : Option Hashed) (c : Command)
      → port < 2 ^ 16
      → is_empty ses.user ≡ false
      → CommandFits hashed c
      → Does (message_of port ses.user hashed c) (call_of port ses hashed c)
  unfolding message_of call_of perform handle on_create_user on_login on_logout on_create_group
      on_join_group on_leave_group on_accept_request on_upload_file on_stop_share
  command-Does hashed (Client.create_user uid pwd) p u f =
      handled MsgType.create_user _ _ (rw (two_words uid pwd f.0 f.1, on_create_user) (refl, refl))
  command-Does hashed (Client.login uid pwd) p u f =
      handled MsgType.login _ _
        (rw (get_login_words uid pwd port f.0 f.1 p, on_login) (login_done [] uid _))
  command-Does hashed (Client.create_group gid) p u f =
      handled MsgType.create_group _ _
        (rw (get_one gid f, on_create_group) (logged _ _ u (refl, refl)))
  command-Does hashed (Client.join_group gid) p u f =
      handled MsgType.join_group _ _ (rw (get_one gid f, on_join_group) (logged _ _ u (refl, refl)))
  command-Does hashed (Client.leave_group gid) p u f =
      handled MsgType.leave_group _ _
        (rw (get_one gid f, on_leave_group) (logged _ _ u (refl, refl)))
  command-Does hashed (Client.accept_request gid uid) p u f =
      handled MsgType.accept_request _ _
        (rw (two_words gid uid f.0 f.1, on_accept_request) (logged _ _ u (refl, refl)))
  command-Does none (Client.upload_file gid path) p u f = rw u tt
  command-Does (some h) (Client.upload_file gid path) p u f = rw u (
      handled MsgType.upload_file _ _ (
        rw (get_upload-upload_payload gid path h f.0 f.1 f.2, on_upload_file)
          (logged _ _ u (refl, refl))))
  command-Does hashed (Client.stop_share gid fname) p u f =
      handled MsgType.stop_share _ _
        (rw (two_words gid fname f.0 f.1, on_stop_share) (logged _ _ u (refl, refl)))
  command-Does hashed Client.logout p u f = handled MsgType.logout _ _ (logged _ _ u (refl, refl))
  command-Does hashed Client.usage p u f = tt
  command-Does hashed Client.list_groups p u f = tt
  command-Does hashed (Client.list_requests gid) p u f = tt
  command-Does hashed (Client.list_files gid) p u f = tt
  command-Does hashed (Client.download_file gid fname dest) p u f = rw u tt
  command-Does hashed Client.show_downloads p u f = tt
  command-Does hashed Client.quit p u f = tt
  command-Does hashed Client.unrecognised p u f = tt

  -- On a session that is logged in as the client's user, the message of a command is read by the
  -- tracker's recv_msg as it was sent, with what stands behind it left, and it is served as the call
  -- that the user means: the status of the reply and the tracker's state after it are those of the
  -- call. The words and the hashed file fit their fields, the message is not above MAX_PAYLOAD, and
  -- the kernel answers with progress, and often enough.
  pub command_served :
      (hashed : Option Hashed) (c : Command) (m : ClientMessage) (k : Call) (answers : List Answer)
      (hdr : MsgHeader) (behind : Str)
      → port < 2 ^ 16
      → is_empty ses.user ≡ false
      → CommandFits hashed c
      → message_of port ses.user hashed c ≡ some m
      → call_of port ses hashed c ≡ some k
      → length m.payload ≤ max_payload
      → All IsProgress answers
      → 12 + length m.payload ≤ moves answers
      → ((left : List Answer) × (recv_msg
              (record { answers = answers; stream = wire (opcode m.type) 0 m.payload ++ behind })
              hdr
            ≡ (
              Progress.done,
              header_of (opcode m.type) 0 m.payload,
              m.payload,
              record { answers = left; stream = behind },
            )))
        × ((dispatch m.payload ses s (opcode m.type)).status ≡ (perform k s).0)
        × ((dispatch m.payload ses s (opcode m.type)).state ≡ (perform k s).1)
  command_served hashed c m k answers hdr behind p u f em ek short moving enough =
      let d = command-Does hashed c p u f in
      let (status, state) =
        subst (λ x. Does x (some k)) em (subst (Does (message_of port ses.user hashed c)) ek d) in
      (
        recv_msg-wire (opcode m.type) 0 m.payload behind answers hdr (opcode-lt m.type)
            (omega arith) short moving enough,
        status,
        state,
      )
