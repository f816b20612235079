-- ===== src/Client/Loop.antt =====
-- The loop of client/main.cpp: a command is sent to a tracker, and its reply changes the client.
pub mod Login
pub mod Download
use peer_to_peer_distributed.Base.{ℕ, true, false, Option, none, some, List, [], ◌∷◌, length}
use peer_to_peer_distributed.Text.{Str}
use peer_to_peer_distributed.Protocol.{Status}
use peer_to_peer_distributed.PieceStore.{Contents, open_for_seed}
use peer_to_peer_distributed.Seeder.{Shares, add_share, remove_share}
use peer_to_peer_distributed.Download.Job.{DownloadJob}
use peer_to_peer_distributed.Download.Jobs.{Jobs, start}
use peer_to_peer_distributed.TrackerClient.{
  TrackerClient, Weather, Requested, request, note_login, clear_login,
}
use peer_to_peer_distributed.Client
use peer_to_peer_distributed.Client.{Command, Hashed, ClientMessage, basename, message_of}
use peer_to_peer_distributed.Client.Start.{job_of}

-- The objects of main, and the user that is logged in, empty if there is none.
pub record ClientState : Type 0 where
  pub tracker : TrackerClient
  pub shares : Shares
  pub jobs : Jobs
  pub logged_in_as : Str

-- What a command meets: the hashes of the file, if it can be read, its bytes if it opens again for
-- seeding, and the two rounds of the request.
pub record Surroundings : Type 0 where
  pub hashed : Option Hashed
  pub reopened : Option Contents
  pub first : Weather
  pub second : Weather

-- Once the metadata is published: the file is shared if it was hashed and opens.
abbrev pub seed : Str → Str → Option Hashed → Option Contents → ClientState → ClientState
seed gid path (some h) (some file) c = record c {
  shares =
      add_share (record { group = gid; file = basename path })
        (open_for_seed file h.size (length h.pieces)) c.shares;
}
seed gid path _ _ c = c

-- The job is started if the metadata could be read and somebody else holds the file.
abbrev pub start_job : Option DownloadJob → ClientState → ClientState
start_job none c = c
start_job (some job) c = elim job.peers [
  | [] ↦ c
  | peer ∷ peers ↦ record c { jobs = (start job c.jobs).1 }
]

abbrev pub login_user : ℕ → Str → Str → ClientState → ClientState
login_user port uid pwd c = record c {
  tracker = note_login uid pwd port c.tracker;
  logged_in_as = uid;
}

abbrev pub logout_user : ClientState → ClientState
logout_user c = record c { tracker = clear_login c.tracker; logged_in_as = [] }

-- `if (status == ST_OK) …`, after a request that returned true
abbrev pub if_ok : Option (Status × Str) → (Str → ClientState) → ClientState → ClientState
if_ok (some (Status.ok, resp)) f c = f resp
if_ok _ f c = c

-- What the reply to a command changes; a logout does it in any case.
unfoldable pub after_reply :
    ℕ → Surroundings → Command → Option (Status × Str) → ClientState → ClientState
after_reply port w (Client.login uid pwd) reply c = if_ok reply (λ _. login_user port uid pwd c) c
after_reply port w (Client.upload_file gid path) reply c =
    if_ok reply (λ _. seed gid path w.hashed w.reopened c) c
after_reply port w (Client.download_file gid fname dest) reply c =
    if_ok reply (λ resp. start_job (job_of gid fname c.logged_in_as resp) c) c
after_reply port w (Client.stop_share gid fname) reply c =
    if_ok reply
      (λ _. record c { shares = remove_share (record { group = gid; file = fname }) c.shares }) c
after_reply port w Client.logout reply c = logout_user c
after_reply port w command reply c = c

-- A command whose message is sent, over `n` trackers.
abbrev pub exchange_command :
    ℕ → ℕ → Surroundings → Command → Option ClientMessage → ClientState → ClientState
exchange_command n port w command none c = c
exchange_command n port w command (some m) c =
    let r = request m.type m.payload n w.first w.second c.tracker in
    after_reply port w command r.reply (record c { tracker = r.client })

unfoldable pub step : ℕ → ℕ → Surroundings → Command → ClientState → ClientState
step n port w command c =
    exchange_command n port w command (message_of port c.logged_in_as w.hashed command) c

unfoldable pub run_commands : ℕ → ℕ → List (Surroundings × Command) → ClientState → ClientState
run_commands n port [] c = c
run_commands n port ((w, command) ∷ commands) c =
    run_commands n port commands (step n port w command c)
