-- ===== src/Session/Handlers/FileReplay.antt =====
-- The ops on files carry the client's payload and, behind it, the user and the address of the
-- session: what the other tracker makes of them.
use peer_to_peer_distributed.Base.{
  ℕ, ◌<◌, ◌^◌, ◌≡◌, refl, sym, inl, inr, some, [], ◌++◌, Option-cases, append_assoc, append-nil,
}
use peer_to_peer_distributed.Text.{Str}
use peer_to_peer_distributed.Protocol.{MsgType}
use peer_to_peer_distributed.Buffer.{str_bytes, u16_bytes}
use peer_to_peer_distributed.Buffer.RoundTrip.{read_step, get_str-str_bytes, get_u16-u16_bytes}
use peer_to_peer_distributed.Messages.{get_two, get_upload, get_have, get_origin}
use peer_to_peer_distributed.Messages.Extension.{
  get_two-Extends, get_upload-Extends, get_have-Extends,
}
use peer_to_peer_distributed.Tracker.{FileMeta, TrackerState}
use peer_to_peer_distributed.Tracker.Files.{add_file}
use peer_to_peer_distributed.Tracker.Snapshot.Entries.{FitsStr}
use peer_to_peer_distributed.Session.{Session}
use peer_to_peer_distributed.Session.Handlers.{
  on_upload_file, on_stop_share, on_have_pieces, origin,
}
use peer_to_peer_distributed.Session.Handlers.Replay.{
  Replays, conclude-Replays, logged_in-Replays, counts_ok,
}
use peer_to_peer_distributed.Sync.Apply.{
  apply_as, counts, is_ok, ok_or_exists, ok_or_not_found, get_upload_op, get_stop_op, get_have_op,
}

pub record SessionFits (ses : Session) : Type 0 where
  pub user : FitsStr ses.user
  pub peer_ip : FitsStr ses.peer_ip
  pub seed_port : ses.seed_port < 2 ^ 16

unfoldable pub origin_bytes : Str → Str → ℕ → Str
origin_bytes uid ip port = str_bytes uid ++ (str_bytes ip ++ u16_bytes port)

pub get_origin-origin_bytes :
    (uid ip : Str) (port : ℕ) (rest : Str)
    → FitsStr uid
    → FitsStr ip
    → port < 2 ^ 16
    → get_origin (origin_bytes uid ip port ++ rest) ≡ some ((uid, ip, port), rest)
unfolding get_origin origin_bytes
get_origin-origin_bytes uid ip port rest fu fi fp = simp append_assoc (
    read_step _ _ _ (get_str-str_bytes uid _ fu) (
      read_step _ _ _ (get_str-str_bytes ip _ fi)
        (read_step _ _ _ (get_u16-u16_bytes port rest fp) refl)))

module _ (payload : Str) (gid : Str) (meta : FileMeta) (trail : Str)
    (e : get_upload payload ≡ some ((gid, meta), trail)) where
  -- The first origin behind the file's fields is the one that is read.
  get_upload_op-first :
      (uid ip : Str) (port : ℕ) (extra rest : Str)
      → FitsStr uid
      → FitsStr ip
      → port < 2 ^ 16
      → trail ++ extra ≡ origin_bytes uid ip port ++ rest
      → get_upload_op (payload ++ extra) ≡ some ((gid, meta, (uid, ip, port)), rest)
  unfolding get_upload_op
  get_upload_op-first uid ip port extra rest fu fi fp t =
      read_step _ _ _ (get_upload-Extends payload extra (gid, meta) trail e)
        (rw t (read_step _ _ _ (get_origin-origin_bytes uid ip port rest fu fi fp) refl))

module _ (payload : Str) (ses : Session) (s : TrackerState) (fits : SessionFits ses) where
  origin_last : origin payload ses s ≡ origin_bytes ses.user ses.peer_ip ses.seed_port ++ []
  unfolding origin_bytes
  origin_last = sym (append-nil _)

  pub on_upload_file-Replays :
      ((gid : Str) (meta : FileMeta) (rest : Str)
        → get_upload payload ≡ some ((gid, meta), rest)
        → rest ≡ [])
      → Replays s (on_upload_file payload ses s)
  unfolding on_upload_file apply_as
  on_upload_file-Replays exact = elim (Option-cases (get_upload payload)) [
    | inl e ↦ rw (e, on_upload_file) (logged_in-Replays s ses _ tt)
    | inr (((gid, meta), rest), e) ↦
        rw (e, on_upload_file)
          (logged_in-Replays s ses _ (
            conclude-Replays s ses _ MsgType.upload_file _ λ k.
              rw
                (
                  get_upload_op-first payload gid meta rest e ses.user ses.peer_ip ses.seed_port
                      (origin payload ses s) [] fits.user fits.peer_ip fits.seed_port
                      (rw (exact gid meta rest e) origin_last),
                  apply_as,
                )
                (counts_ok ok_or_exists _ refl k)))
  ]

  pub on_stop_share-Replays :
      ((gid fname rest : Str) → get_two payload ≡ some ((gid, fname), rest) → rest ≡ [])
      → Replays s (on_stop_share payload ses s)
  unfolding on_stop_share apply_as get_stop_op
  on_stop_share-Replays exact = elim (Option-cases (get_two payload)) [
    | inl e ↦ rw (e, on_stop_share) (logged_in-Replays s ses _ tt)
    | inr (((gid, fname), rest), e) ↦
        let last =
          rw (append-nil (str_bytes ses.user)) at (get_str-str_bytes ses.user [] fits.user) in
        let longer = get_two-Extends payload (str_bytes ses.user) (gid, fname) rest e in
        let op : get_stop_op (payload ++ str_bytes ses.user) ≡ some ((gid, fname, ses.user), []) =
          read_step _ _ _ longer (rw (exact gid fname rest e) (read_step _ _ _ last refl)) in
        rw (e, on_stop_share)
          (logged_in-Replays s ses _ (
            conclude-Replays s ses _ MsgType.stop_share _
              λ k. rw (op, apply_as) (counts_ok ok_or_not_found _ refl k)))
  ]

  pub on_have_pieces-Replays :
      ((gid fname bits rest : Str) → get_have payload ≡ some ((gid, fname, bits), rest) → rest ≡ [])
      → Replays s (on_have_pieces payload ses s)
  unfolding on_have_pieces apply_as get_have_op
  on_have_pieces-Replays exact = elim (Option-cases (get_have payload)) [
    | inl e ↦ rw (e, on_have_pieces) (logged_in-Replays s ses _ tt)
    | inr (((gid, fname, bits), rest), e) ↦
        let longer = get_have-Extends payload (origin payload ses s) (gid, fname, bits) rest e in
        let by =
          get_origin-origin_bytes ses.user ses.peer_ip ses.seed_port [] fits.user fits.peer_ip
            fits.seed_port in
        let op : get_have_op (payload ++ origin payload ses s)
            ≡ some ((gid, fname, bits, (ses.user, ses.peer_ip, ses.seed_port)), []) =
          read_step _ _ _ longer
            (rw (exact gid fname bits rest e, origin_last) (read_step _ _ _ by refl)) in
        rw (e, on_have_pieces)
          (logged_in-Replays s ses _ (
            conclude-Replays s ses _ MsgType.have_pieces _
              λ k. rw (op, apply_as) (counts_ok is_ok _ refl k)))
  ]

module _ (s : TrackerState) (payload trail gid : Str) (meta : FileMeta) where
  -- The origin that stands behind the file's fields is read, and not the session's further behind.
  pub upload_forged :
      (ses : Session) (uid ip : Str) (port : ℕ)
      → FitsStr uid
      → FitsStr ip
      → port < 2 ^ 16
      → get_upload payload ≡ some ((gid, meta), origin_bytes uid ip port ++ trail)
      → apply_as (payload ++ origin payload ses s) s MsgType.upload_file
        ≡ counts ok_or_exists (add_file gid uid ip port meta s)
  unfolding apply_as
  upload_forged ses uid ip port fu fi fp e =
      rw
        (
          get_upload_op-first payload gid meta (origin_bytes uid ip port ++ trail) e uid ip port
              (origin payload ses s) (trail ++ origin payload ses s) fu fi fp
              (append_assoc (origin_bytes uid ip port) trail (origin payload ses s)),
          apply_as,
        )
        refl
