-- ===== src/Client/Loop/Login.antt =====
-- The login that is on file for a fail-over, and the user that the client is logged in as.
use peer_to_peer_distributed.Base.{
  ℕ, ◌≡◌, refl, sym, ◌∙◌, ap, true, false, Option, none, some, List, [], ◌∷◌, ◌++◌, All,
}
use peer_to_peer_distributed.Text.{Str}
use peer_to_peer_distributed.Protocol.{Status}
use peer_to_peer_distributed.PieceStore.{Contents}
use peer_to_peer_distributed.Download.Peers.{PeerAddr}
use peer_to_peer_distributed.Download.Job.{DownloadJob}
use peer_to_peer_distributed.Download.Jobs.{start}
use peer_to_peer_distributed.TrackerClient.{request}
use peer_to_peer_distributed.TrackerClient.Login.{login_of, request-login}
use peer_to_peer_distributed.Client
use peer_to_peer_distributed.Client.{Command, Hashed, ClientMessage, message_of}
use peer_to_peer_distributed.Client.Start.{job_of}
use peer_to_peer_distributed.Client.Loop.{
  ClientState, Surroundings, seed, start_job, login_user, logout_user, if_ok, after_reply,
  exchange_command, step, run_commands,
}

-- A client with a login on file is logged in as its user, and one without is nobody.
pub record LoginKept (c : ClientState) : Type 0 where
  pub user : c.tracker.logged_in ≡ true → c.tracker.last_uid ≡ c.logged_in_as
  pub nobody : c.tracker.logged_in ≡ false → c.logged_in_as ≡ []

-- What does not touch the login.
same_login :
    (c d : ClientState)
    → login_of d.tracker ≡ login_of c.tracker
    → d.logged_in_as ≡ c.logged_in_as
    → LoginKept c
    → LoginKept d
same_login c d e k v = record {
  user = λ h. ap (λ x. x.1) e ∙ v.user (sym (ap (λ x. x.0) e) ∙ h) ∙ sym k;
  nobody = λ h. k ∙ v.nobody (sym (ap (λ x. x.0) e) ∙ h);
}

seed-LoginKept :
    (gid path : Str) (h : Option Hashed) (file : Option Contents) (c : ClientState)
    → LoginKept c
    → LoginKept (seed gid path h file c)
seed-LoginKept gid path none file c v = v
seed-LoginKept gid path (some h) none c v = v
seed-LoginKept gid path (some h) (some file) c v = record { user = v.user; nobody = v.nobody }

start_job-LoginKept :
    (job : Option DownloadJob) (c : ClientState) → LoginKept c → LoginKept (start_job job c)
start_job-LoginKept none c v = v
start_job-LoginKept (some job) c v = by_peers job.peers
  where
    by_peers :
        (peers : List PeerAddr)
        → LoginKept (elim peers [ [] ↦ c | peer ∷ rest ↦ record c { jobs = (start job c.jobs).1 } ])
    by_peers [] = v
    by_peers (peer ∷ rest) = record { user = v.user; nobody = v.nobody }

login_user-LoginKept :
    (port : ℕ) (uid pwd : Str) (c : ClientState) → LoginKept (login_user port uid pwd c)
login_user-LoginKept port uid pwd c = record { user = λ _. refl; nobody = λ h. cc }

logout_user-LoginKept : (c : ClientState) → LoginKept (logout_user c)
logout_user-LoginKept c = record { user = λ h. cc; nobody = λ _. refl }

if_ok_case :
    (P : ClientState → Type 0) (reply : Option (Status × Str)) (f : Str → ClientState)
    (c : ClientState)
    → ((resp : Str) → P (f resp))
    → P c
    → P (if_ok reply f c)
if_ok_case P none f c h v = v
if_ok_case P (some (Status.ok, resp)) f c h v = h resp
if_ok_case P (some (_, resp)) f c h v = v

after_reply-LoginKept :
    (port : ℕ) (w : Surroundings) (command : Command) (reply : Option (Status × Str))
    (c : ClientState)
    → LoginKept c
    → LoginKept (after_reply port w command reply c)
unfolding after_reply
after_reply-LoginKept port w (Client.login uid pwd) reply c v =
    if_ok_case LoginKept reply _ c (λ _. login_user-LoginKept port uid pwd c) v
after_reply-LoginKept port w (Client.upload_file gid path) reply c v =
    if_ok_case LoginKept reply _ c (λ _. seed-LoginKept gid path w.hashed w.reopened c v) v
after_reply-LoginKept port w (Client.download_file gid fname dest) reply c v =
    if_ok_case LoginKept reply _ c
      (λ resp. start_job-LoginKept (job_of gid fname c.logged_in_as resp) c v) v
after_reply-LoginKept port w (Client.stop_share gid fname) reply c v =
    if_ok_case LoginKept reply _ c (λ _. record { user = v.user; nobody = v.nobody }) v
after_reply-LoginKept port w Client.logout reply c v = logout_user-LoginKept c
after_reply-LoginKept port w _ reply c v = v

exchange_command-LoginKept :
    (n port : ℕ) (w : Surroundings) (command : Command) (m : Option ClientMessage) (c : ClientState)
    → LoginKept c
    → LoginKept (exchange_command n port w command m c)
exchange_command-LoginKept n port w command none c v = v
exchange_command-LoginKept n port w command (some m) c v =
    let r = request m.type m.payload n w.first w.second c.tracker in
    let d = record c { tracker = r.client } in
    after_reply-LoginKept port w command r.reply d
      (same_login c d (request-login m.type m.payload n w.first w.second c.tracker) refl v)

kept_by_all :
    (n port : ℕ) (commands : List (Surroundings × Command)) (c : ClientState)
    → LoginKept c
    → LoginKept (run_commands n port commands c)
unfolding run_commands step
kept_by_all n port [] c v = v
kept_by_all n port ((w, command) ∷ commands) c v =
    kept_by_all n port commands (step n port w command c) (
      exchange_command-LoginKept n port w command (message_of port c.logged_in_as w.hashed command)
        c v)

abbrev IsOut : ClientState → Type 0
IsOut c = c.tracker.logged_in ≡ false

-- A client that is logged in as nobody, with no login on file.
abbrev pub IsNobody : ClientState → Type 0
IsNobody c = (c.tracker.logged_in ≡ false) × (c.logged_in_as ≡ [])

abbrev pub IsNoLogin : Command → Type 0
IsNoLogin (Client.login uid pwd) = ⊥
IsNoLogin _ = Unit {0}

seed-IsOut :
    (gid path : Str) (h : Option Hashed) (file : Option Contents) (c : ClientState)
    → IsOut c
    → IsOut (seed gid path h file c)
seed-IsOut gid path none file c v = v
seed-IsOut gid path (some h) none c v = v
seed-IsOut gid path (some h) (some file) c v = v

start_job-IsOut : (job : Option DownloadJob) (c : ClientState) → IsOut c → IsOut (start_job job c)
start_job-IsOut none c v = v
start_job-IsOut (some job) c v = by_peers job.peers
  where
    by_peers :
        (peers : List PeerAddr)
        → IsOut (elim peers [ [] ↦ c | peer ∷ rest ↦ record c { jobs = (start job c.jobs).1 } ])
    by_peers [] = v
    by_peers (peer ∷ rest) = v

after_reply-IsOut :
    (port : ℕ) (w : Surroundings) (command : Command) (reply : Option (Status × Str))
    (c : ClientState)
    → IsNoLogin command
    → IsOut c
    → IsOut (after_reply port w command reply c)
unfolding after_reply
after_reply-IsOut port w (Client.login uid pwd) reply c x v = elim x [ ]
after_reply-IsOut port w (Client.upload_file gid path) reply c x v =
    if_ok_case IsOut reply _ c (λ _. seed-IsOut gid path w.hashed w.reopened c v) v
after_reply-IsOut port w (Client.download_file gid fname dest) reply c x v =
    if_ok_case IsOut reply _ c (λ resp. start_job-IsOut (job_of gid fname c.logged_in_as resp) c v)
      v
after_reply-IsOut port w (Client.stop_share gid fname) reply c x v =
    if_ok_case IsOut reply _ c (λ _. v) v
after_reply-IsOut port w Client.logout reply c x v = refl
after_reply-IsOut port w _ reply c x v = v

module _ (n port : ℕ) where
  exchange_command-IsOut :
      (w : Surroundings) (command : Command) (m : Option ClientMessage) (c : ClientState)
      → IsNoLogin command
      → IsOut c
      → IsOut (exchange_command n port w command m c)
  exchange_command-IsOut w command none c x v = v
  exchange_command-IsOut w command (some m) c x v =
      let r = request m.type m.payload n w.first w.second c.tracker in
      after_reply-IsOut port w command r.reply (record c { tracker = r.client }) x
        (ap (λ y. y.0) (request-login m.type m.payload n w.first w.second c.tracker) ∙ v)

  -- Nobody stays nobody until a login.
  run_without_login :
      (commands : List (Surroundings × Command)) (c : ClientState)
      → All (λ x. IsNoLogin x.1) commands
      → IsOut c
      → IsOut (run_commands n port commands c)
  unfolding run_commands step
  run_without_login [] c x v = v
  run_without_login ((w, command) ∷ commands) c x v =
      run_without_login commands (step n port w command c) x.1
        (exchange_command-IsOut w command (message_of port c.logged_in_as w.hashed command) c x.0 v)

  run_after_logout :
      (before after : List (Surroundings × Command)) (w : Surroundings) (c : ClientState)
      → All (λ x. IsNoLogin x.1) after
      → IsOut (run_commands n port (before ++ (w, Client.logout) ∷ after) c)
  unfolding run_commands step message_of after_reply
  run_after_logout [] after w c x = run_without_login after (step n port w Client.logout c) x refl
  run_after_logout ((w', command) ∷ before) after w c x =
      run_after_logout before after w (step n port w' command c) x

  -- Whatever commands the user gives and whatever the trackers reply, from a client whose login on file
  -- is that of the user that it is logged in as: the login that a fail-over replays stays that of the
  -- user that the client is logged in as. After a logout, and then any commands but a login, there is
  -- none, and the client is logged in as nobody.
  pub run_commands-LoginKept :
      (before after : List (Surroundings × Command)) (w : Surroundings) (c : ClientState)
      → All (λ x. IsNoLogin x.1) after
      → LoginKept c
      → LoginKept (run_commands n port before c)
        × IsNobody (run_commands n port (before ++ (w, Client.logout) ∷ after) c)
  run_commands-LoginKept before after w c x v =
      let out = run_after_logout before after w c x in
      (
        kept_by_all n port before c v,
        (out, (kept_by_all n port (before ++ (w, Client.logout) ∷ after) c v).nobody out),
      )
