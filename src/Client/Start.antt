-- ===== src/Client/Start.antt =====
-- The job that a download is started with, from the tracker's answer about the file. After the first
-- three fields a read that fails is ignored: what it was to set keeps its value, which is zero or empty
-- here, and of a string only the length is taken, if it is there.
use peer_to_peer_distributed.Base.{
  ℕ, zero, suc, ◌≡◌, refl, sym, ◌∙◌, ap, Option, none, some, List, [], ◌∷◌, ◌++◌, length, All,
  append_assoc, append-nil,
}
use peer_to_peer_distributed.Text.{Str, str_ord}
use peer_to_peer_distributed.OrderedMap.{values}
use peer_to_peer_distributed.Buffer.{
  Reader, ◌>>=◌, pure, get_raw, get_u16, get_u32, get_u64, get_str, str_bytes, u16_bytes, u32_bytes,
  each_bytes,
}
use peer_to_peer_distributed.Buffer.RoundTrip.{
  read_step, get_raw-append, get_u16-u16_bytes, get_u32-u32_bytes, get_u64-u64_bytes,
  get_str-str_bytes,
}
use peer_to_peer_distributed.Tracker.{PeerRef, FileMeta}
use peer_to_peer_distributed.Tracker.Snapshot.{counted, peer_bytes, get_peer}
use peer_to_peer_distributed.Tracker.Snapshot.Entries.{FitsStr, AllEntries-All}
use peer_to_peer_distributed.Tracker.Snapshot.RoundTrip.{PeerFits, FileFits, get_peer-peer_bytes}
use peer_to_peer_distributed.Session.Handlers.{meta_bytes}
use peer_to_peer_distributed.Download.Peers.{PeerAddr, push_other, others, push_other-others}
use peer_to_peer_distributed.Download.Job.{DownloadJob}

-- A read whose result is not looked at.
unfoldable pub or_keep : {A : Type 0} → Reader A → A → Str → A × Str
or_keep r a b = elim (r b) [ none ↦ (a, b) | some x ↦ x ]

unfoldable pub str_or_empty : Str → Str × Str
str_or_empty b = elim (get_u32 b) [ none ↦ ([], b) | some (n, rest) ↦ or_keep (get_raw n) [] rest ]

unfoldable pub hashes_loop : ℕ → Str → List Str × Str
hashes_loop zero b = ([], b)
hashes_loop (suc n) b =
    let (h, b1) = str_or_empty b in let (hs, b2) = hashes_loop n b1 in (h ∷ hs, b2)

-- `user_id`, `ip`, `port` and the bitfield, which is dropped
unfoldable pub read_peer : Str → PeerRef × Str
read_peer b =
    let (user_id, b1) = str_or_empty b in
    let (ip, b2) = str_or_empty b1 in
    let (port, b3) = or_keep get_u16 0 b2 in
    let (nbits, b4) = or_keep get_u32 0 b3 in
    let (bits, b5) = or_keep (get_raw nbits) [] b4 in
    (record { user_id = user_id; ip = ip; port = port; bitfield = bits }, b5)

unfoldable pub job_peers : Str → ℕ → List PeerAddr → Str → List PeerAddr
job_peers user zero out b = out
job_peers user (suc n) out b =
    let (p, rest) = read_peer b in job_peers user n (push_other user p out) rest

unfoldable pub get_job_head : Reader (ℕ × Str × ℕ)
get_job_head = do size ← get_u64; fhash ← get_str; pc ← get_u32; pure (size, fhash, pc)

-- `none` for malformed metadata
unfoldable pub job_of : Str → Str → Str → Str → Option DownloadJob
job_of group file user resp = elim (get_job_head resp) [
  | none ↦ none
  | some ((size, fhash, pc), rest) ↦
      let (hashes, b1) = hashes_loop pc rest in
      let (npeers, b2) = or_keep get_u32 0 b1 in
      some (record {
        group = group;
        file = file;
        size = size;
        file_hash = fhash;
        piece_hashes = hashes;
        peers = job_peers user npeers [] b2;
        user_id = user;
      })
]

or_keep_read :
    {A : Type 0} (r : Reader A) (a x : A) (b rest : Str)
    → r b ≡ some (x, rest)
    → or_keep r a b ≡ (x, rest)
unfolding or_keep
or_keep_read r a x b rest e = ap (λ o. elim o [ none ↦ (a, b) | some y ↦ y ]) e

after_length : Str → Option (ℕ × Str) → Str × Str
after_length b o = elim o [ none ↦ ([], b) | some (n, rest) ↦ or_keep (get_raw n) [] rest ]

str_or_empty_read : (s rest : Str) → FitsStr s → str_or_empty (str_bytes s ++ rest) ≡ (s, rest)
unfolding str_bytes after_length str_or_empty
str_or_empty_read s rest f =
    let b = str_bytes s ++ rest in
    let e : get_u32 b ≡ some (length s, s ++ rest) =
      ap get_u32 (append_assoc (u32_bytes (length s)) s rest)
      ∙ get_u32-u32_bytes (length s) (s ++ rest) f in
    ap (after_length b) e
    ∙ or_keep_read (get_raw (length s)) [] s (s ++ rest) rest (get_raw-append s rest)

hashes_loop_read :
    (hs : List Str) (rest : Str)
    → All FitsStr hs
    → hashes_loop (length hs) (each_bytes str_bytes hs ++ rest) ≡ (hs, rest)
unfolding hashes_loop each_bytes
hashes_loop_read [] rest f = refl
hashes_loop_read (h ∷ hs) rest f =
    rw
      (
        append_assoc (str_bytes h) (each_bytes str_bytes hs) rest,
        str_or_empty_read h (each_bytes str_bytes hs ++ rest) f.0,
        hashes_loop_read hs rest f.1,
      )
      refl

read_peer_read :
    (p : PeerRef) (rest : Str) → PeerFits p → read_peer (peer_bytes p ++ rest) ≡ (p, rest)
unfolding read_peer peer_bytes
read_peer_read p rest f = simp append_assoc (
    rw
      (
        str_or_empty_read p.user_id
            (str_bytes p.ip
              ++ (u16_bytes p.port ++ (u32_bytes (length p.bitfield) ++ (p.bitfield ++ rest))))
            f.user_id,
        str_or_empty_read p.ip
            (u16_bytes p.port ++ (u32_bytes (length p.bitfield) ++ (p.bitfield ++ rest))) f.ip,
        or_keep_read get_u16 0 p.port _ (u32_bytes (length p.bitfield) ++ (p.bitfield ++ rest))
            (get_u16-u16_bytes p.port _ f.port),
        or_keep_read get_u32 0 (length p.bitfield) _ (p.bitfield ++ rest)
            (get_u32-u32_bytes (length p.bitfield) _ f.bitfield),
        or_keep_read (get_raw (length p.bitfield)) [] p.bitfield _ rest
            (get_raw-append p.bitfield rest),
      )
      refl)

job_peers-others :
    (user : Str) (ps : List PeerRef) (out : List PeerAddr) (rest : Str)
    → All PeerFits ps
    → job_peers user (length ps) out (each_bytes peer_bytes ps ++ rest) ≡ out ++ others user ps
unfolding job_peers each_bytes
job_peers-others user [] out rest f = unfold others in sym (append-nil out)
job_peers-others user (p ∷ ps) out rest f =
    rw
      (
        append_assoc (peer_bytes p) (each_bytes peer_bytes ps) rest,
        read_peer_read p (each_bytes peer_bytes ps ++ rest) f.0,
        job_peers,
      )
      (job_peers-others user ps (push_other user p out) rest f.1 ∙ push_other-others user p ps out)

get_job_head-meta_bytes :
    (m : FileMeta)
    → FileFits m
    → get_job_head (meta_bytes m)
      ≡ some (
        (m.size, m.file_hash, length m.piece_hashes),
        each_bytes str_bytes m.piece_hashes
            ++ (u32_bytes (length (values m.seeders)) ++ each_bytes peer_bytes (values m.seeders)),
      )
unfolding get_job_head meta_bytes counted
get_job_head-meta_bytes m f = simp append_assoc (
    read_step _ _ _ (get_u64-u64_bytes m.size _ f.size) (
      read_step _ _ _ (get_str-str_bytes m.file_hash _ f.file_hash)
        (read_step _ _ _ (get_u32-u32_bytes (length m.piece_hashes) _ f.pieces) refl)))

-- From what a tracker answers about a file that fits the format, the client starts a job with the
-- file's size and hashes, and with the addresses of its seeders but for the client's own.
pub job_of-meta_bytes :
    (group file user : Str) (m : FileMeta)
    → FileFits m
    → job_of group file user (meta_bytes m)
      ≡ some (record {
        group = group;
        file = file;
        size = m.size;
        file_hash = m.file_hash;
        piece_hashes = m.piece_hashes;
        peers = others user (values m.seeders);
        user_id = user;
      })
unfolding job_of
job_of-meta_bytes group file user m f =
    rw (get_job_head-meta_bytes m f, job_of)
      (rw
        (
          hashes_loop_read m.piece_hashes
              (u32_bytes (length (values m.seeders)) ++ each_bytes peer_bytes (values m.seeders))
              f.piece_hashes,
          or_keep_read get_u32 0 (length (values m.seeders)) _
              (each_bytes peer_bytes (values m.seeders))
              (get_u32-u32_bytes (length (values m.seeders)) _ f.seeders.1),
          rw append-nil at (
              job_peers-others user (values m.seeders) [] [] (
                AllEntries-All get_peer peer_bytes (λ p. p.user_id) PeerFits get_peer-peer_bytes
                  m.seeders f.seeders.2)),
        )
        refl)
