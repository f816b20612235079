-- ===== src/Client/Loop/Download.antt =====
-- What a client does with the tracker's answer to a download_file.
use peer_to_peer_distributed.Base.{ℕ, ◌≡◌, refl, ◌∙◌, ap, some, List, [], ◌∷◌}
use peer_to_peer_distributed.Text.{Str, str_ord}
use peer_to_peer_distributed.OrderedMap.{values}
use peer_to_peer_distributed.Protocol.{Status}
use peer_to_peer_distributed.Tracker.{FileMeta}
use peer_to_peer_distributed.Tracker.Snapshot.RoundTrip.{FileFits}
use peer_to_peer_distributed.Session.Handlers.{meta_bytes}
use peer_to_peer_distributed.Download.Peers.{PeerAddr, others}
use peer_to_peer_distributed.Download.Job.{DownloadJob}
use peer_to_peer_distributed.Download.Jobs.{start}
use peer_to_peer_distributed.Client
use peer_to_peer_distributed.Client.Start.{job_of-meta_bytes}
use peer_to_peer_distributed.Client.Loop.{ClientState, Surroundings, start_job, after_reply}

-- The download of a file from these peers.
abbrev pub download_of : Str → Str → Str → FileMeta → List PeerAddr → DownloadJob
download_of group file user m peers = record {
  group = group;
  file = file;
  size = m.size;
  file_hash = m.file_hash;
  piece_hashes = m.piece_hashes;
  peers = peers;
  user_id = user;
}

-- From the answer of a tracker about a file that fits the format: if nobody else holds the file the
-- client stays as it was, and else it hands DownloadManager::start a job with the file's size and hashes,
-- and with the addresses of its seeders but for the client's own.
pub after_reply-meta_bytes :
    (port : ℕ) (w : Surroundings) (gid fname dest : Str) (m : FileMeta) (c : ClientState)
    → FileFits m
    → after_reply port w (Client.download_file gid fname dest) (some (Status.ok, meta_bytes m)) c
      ≡ elim (others c.logged_in_as (values m.seeders)) [
        | [] ↦ c
        | peer ∷ peers ↦ record c {
          jobs = (start (download_of gid fname c.logged_in_as m (peer ∷ peers)) c.jobs).1;
        }
      ]
unfolding after_reply
after_reply-meta_bytes port w gid fname dest m c f =
    ap (λ job. start_job job c) (job_of-meta_bytes gid fname c.logged_in_as m f)
    ∙ by_peers (others c.logged_in_as (values m.seeders))
  where
    by_peers :
        (peers : List PeerAddr)
        → start_job (some (download_of gid fname c.logged_in_as m peers)) c ≡ elim peers [
          | [] ↦ c
          | peer ∷ rest ↦ record c {
            jobs = (start (download_of gid fname c.logged_in_as m (peer ∷ rest)) c.jobs).1;
          }
        ]
    by_peers [] = refl
    by_peers (peer ∷ rest) = refl
