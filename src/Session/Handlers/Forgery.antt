-- ===== src/Session/Handlers/Forgery.antt =====
-- An upload request whose payload goes on behind the fields of the file.
use peer_to_peer_distributed.Base.{
  ℕ, ◌^◌, ◌<◌, ◌≡◌, refl, ◌∙◌, ap, true, false, Bool, some, none, [], ◌++◌,
}
use peer_to_peer_distributed.Text.{Str, str_ord, is_empty}
use peer_to_peer_distributed.OrderedMap.{find, has, put}
use peer_to_peer_distributed.Protocol.{Status, MsgType, opcode, msg_type-opcode}
use peer_to_peer_distributed.Messages.{get_upload}
use peer_to_peer_distributed.Tracker.{Group, FileMeta, TrackerState, Outcome}
use peer_to_peer_distributed.Tracker.Files.{add_file, set_file, uploader}
use peer_to_peer_distributed.Tracker.Snapshot.Entries.{FitsStr}
use peer_to_peer_distributed.Session.{Session, Replicated}
use peer_to_peer_distributed.Session.Handlers.{handle, dispatch, on_upload_file, origin}
use peer_to_peer_distributed.Session.Handlers.FileReplay.{origin_bytes, upload_forged}
use peer_to_peer_distributed.Sync.Apply.{apply_remote, counts, ok_or_exists}

module _ (s : TrackerState) (gid : Str) (meta : FileMeta) (g : Group)
    (found : find gid s.groups ≡ some g) (new : find meta.name g.files ≡ none)
    (named : is_empty gid ≡ false) (titled : is_empty meta.name ≡ false) where
  -- The state in which the user at the address is the one seeder of the file.
  abbrev pub seeded_by : Str → Str → ℕ → TrackerState
  seeded_by uid ip port =
      set_file gid g meta.name (record meta { seeders = put uid (uploader uid ip port meta) [] }) s

  add_file_new :
      (uid ip : Str) (port : ℕ)
      → is_empty uid ≡ false
      → has uid g.members ≡ true
      → add_file gid uid ip port meta s ≡ (Status.ok, seeded_by uid ip port)
  unfolding add_file
  add_file_new uid ip port u m = rw (named, u, titled, found, m, new, add_file) refl

  module _ (payload trail : Str) (ses : Session) (uid ip : Str) (port : ℕ) where
    -- A member of a group uploads a file that the group does not have, and behind its fields the
    -- payload has the encoding of another member, an address and a port: this tracker has the session's
    -- user at the session's address as the one seeder, and hands an op to the replication that makes a
    -- tracker in the same prior state have that other member at that address as the one seeder. The
    -- names are not empty, and the encoded ones fit their fields.
    pub dispatch_forged :
        FitsStr uid
        → FitsStr ip
        → port < 2 ^ 16
        → is_empty uid ≡ false
        → has uid g.members ≡ true
        → is_empty ses.user ≡ false
        → has ses.user g.members ≡ true
        → get_upload payload ≡ some ((gid, meta), origin_bytes uid ip port ++ trail)
        → let served = dispatch payload ses s (opcode MsgType.upload_file) in
          (served.state ≡ seeded_by ses.user ses.peer_ip ses.seed_port)
          × (op : Replicated) × (served.op ≡ some op)
          × (apply_remote (opcode op.type) op.payload s ≡ (true, seeded_by uid ip port))
    unfolding dispatch handle on_upload_file apply_remote
    dispatch_forged fu fi fp u m logged sm e =
        rw (msg_type-opcode MsgType.upload_file, dispatch)
          (rw (e, on_upload_file)
            (rw logged (
              rw (add_file_new ses.user ses.peer_ip ses.seed_port logged sm) (
                refl,
                record { type = MsgType.upload_file; payload = payload ++ origin payload ses s },
                refl,
                rw (msg_type-opcode MsgType.upload_file, apply_remote)
                    (upload_forged s payload trail gid meta ses uid ip port fu fi fp e
                      ∙ ap {A = Outcome} {B = Bool × TrackerState} (counts ok_or_exists)
                          (add_file_new uid ip port u m)),
              ))))
