-- ===== src/Client.antt =====
-- client/main.cpp: the commands of the client, the messages that they send, and what they change. The
-- printing is left out. What SHA1::hash_file gives for a file, whether a file opens, and what the
-- trackers reply are arguments.
pub mod Words
pub mod Seeding
pub mod Hashing
pub mod Loop
pub mod Start
pub mod Requests
use peer_to_peer_distributed.Base.{
  ℕ, Bool, true, false, not, ◌||◌, Option, none, some, List, [], ◌∷◌, ◌++◌, length, ◌==◌,
  if◌then◌else◌,
}
use peer_to_peer_distributed.Text.{Str, str_ne, is_empty}
use peer_to_peer_distributed.Protocol.{MsgType}
use peer_to_peer_distributed.Buffer.{str_bytes, u16_bytes, u32_bytes, u64_bytes, each_bytes}
use peer_to_peer_distributed.Tracker.Snapshot.{counted}
use peer_to_peer_distributed.Client.Words.{
  create_user_word, login_word, list_word, list_groups_word, create_group_word, join_group_word,
  leave_group_word, list_requests_word, accept_request_word, upload_file_word, list_files_word,
  download_file_word, show_downloads_word, stop_share_word, logout_word, exit_word, quit_word,
}

pub data Command : Type 0 where
  create_user : Str → Str → Command
  login : Str → Str → Command
  usage : Command
  list_groups : Command
  create_group : Str → Command
  join_group : Str → Command
  leave_group : Str → Command
  list_requests : Str → Command
  accept_request : Str → Str → Command
  upload_file : Str → Str → Command
  list_files : Str → Command
  download_file : Str → Str → Str → Command
  show_downloads : Command
  stop_share : Str → Str → Command
  logout : Command
  quit : Command
  unrecognised : Command

abbrev is_word : Str → Str → Bool
is_word a b = not (str_ne a b)

-- The tests on the number of words and on the first one. Those for different numbers exclude each other.
unfoldable pub parse_command : List Str → Command
parse_command (w ∷ []) =
    if is_word w list_word
    then usage
    else if is_word w list_groups_word
    then list_groups
    else if is_word w show_downloads_word
    then show_downloads
    else if is_word w logout_word
    then logout
    else if is_word w exit_word || is_word w quit_word
    then quit
    else unrecognised
parse_command (w ∷ a ∷ []) =
    if is_word w create_group_word
    then create_group a
    else if is_word w join_group_word
    then join_group a
    else if is_word w leave_group_word
    then leave_group a
    else if is_word w list_requests_word
    then list_requests a
    else if is_word w list_files_word
    then list_files a
    else unrecognised
parse_command (w ∷ a ∷ b ∷ []) =
    if is_word w create_user_word
    then create_user a b
    else if is_word w login_word
    then login a b
    else if is_word w accept_request_word
    then accept_request a b
    else if is_word w upload_file_word
    then upload_file a b
    else if is_word w stop_share_word
    then stop_share a b
    else unrecognised
parse_command (w ∷ a ∷ b ∷ c ∷ []) =
    if is_word w download_file_word then download_file a b c else unrecognised
parse_command _ = unrecognised

-- SHA1::hash_file: the size, the hash of the whole and those of the pieces.
pub record Hashed : Type 0 where
  pub size : ℕ
  pub whole : Str
  pub pieces : List Str

abbrev has_slash : Str → Bool
has_slash [] = false
has_slash (c ∷ s) = c == 47 || has_slash s

-- `path.substr(path.find_last_of('/') + 1)`
abbrev pub basename : Str → Str
basename [] = []
basename (c ∷ s) =
    let rest = basename s in if has_slash s then rest else if c == 47 then s else c ∷ s

pub record ClientMessage : Type 0 where
  pub type : MsgType
  pub payload : Str

abbrev pub upload_payload : Str → Str → Hashed → Str
upload_payload gid fname h =
    str_bytes gid
    ++ (str_bytes fname ++ (u64_bytes h.size ++ (str_bytes h.whole ++ counted str_bytes h.pieces)))

abbrev upload_message : Str → Str → Option Hashed → Option ClientMessage
upload_message gid path none = none
upload_message gid path (some h) =
    some (record { type = MsgType.upload_file; payload = upload_payload gid (basename path) h })

-- `if (logged_in_as.empty()) { …; continue; }`
abbrev if_logged_in : Str → Option ClientMessage → Option ClientMessage
if_logged_in user message = if is_empty user then none else message

-- What a command sends to the tracker, for a client with this seeder port and user.
unfoldable pub message_of : ℕ → Str → Option Hashed → Command → Option ClientMessage
message_of port user hashed (create_user uid pwd) =
    some (record { type = MsgType.create_user; payload = str_bytes uid ++ str_bytes pwd })
message_of port user hashed (login uid pwd) =
    some (record {
      type = MsgType.login;
      payload = str_bytes uid ++ (str_bytes pwd ++ u16_bytes port);
    })
message_of port user hashed list_groups = some (record { type = MsgType.list_groups; payload = [] })
message_of port user hashed (create_group gid) =
    some (record { type = MsgType.create_group; payload = str_bytes gid })
message_of port user hashed (join_group gid) =
    some (record { type = MsgType.join_group; payload = str_bytes gid })
message_of port user hashed (leave_group gid) =
    some (record { type = MsgType.leave_group; payload = str_bytes gid })
message_of port user hashed (list_requests gid) =
    some (record { type = MsgType.list_requests; payload = str_bytes gid })
message_of port user hashed (accept_request gid uid) =
    some (record { type = MsgType.accept_request; payload = str_bytes gid ++ str_bytes uid })
message_of port user hashed (upload_file gid path) =
    if_logged_in user (upload_message gid path hashed)
message_of port user hashed (list_files gid) =
    some (record { type = MsgType.list_files; payload = str_bytes gid })
message_of port user hashed (download_file gid fname dest) =
    if_logged_in user
      (some (record { type = MsgType.get_file_meta; payload = str_bytes gid ++ str_bytes fname }))
message_of port user hashed (stop_share gid fname) =
    some (record { type = MsgType.stop_share; payload = str_bytes gid ++ str_bytes fname })
message_of port user hashed logout =
    some (record { type = MsgType.logout; payload = str_bytes user })
message_of port user hashed _ = none
