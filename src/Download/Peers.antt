-- ===== src/Download/Peers.antt =====
-- decode_peer_list: the peers that the tracker names for a file, without the client itself.
use peer_to_peer_distributed.Base.{
  ℕ, zero, suc, ◌≡◌, refl, ◌∙◌, ap, Bool, true, false, none, some, List, [], ◌∷◌, ◌++◌, length, All,
  append_assoc, append-nil, if◌then◌else◌,
}
use peer_to_peer_distributed.Text.{Str, str_ord, str_ne}
use peer_to_peer_distributed.OrderedMap.{values}
use peer_to_peer_distributed.Buffer.{
  Reader, ◌>>=◌, pure, get_str, get_u32, get_u64, get_list, each_bytes, str_bytes,
}
use peer_to_peer_distributed.Buffer.RoundTrip.{
  read_step, get_u32-u32_bytes, get_u64-u64_bytes, get_str-str_bytes, get_list-each_bytes,
}
use peer_to_peer_distributed.Tracker.{PeerRef, FileMeta}
use peer_to_peer_distributed.Tracker.Snapshot.{counted, peer_bytes, get_peer}
use peer_to_peer_distributed.Tracker.Snapshot.Entries.{FitsStr, AllEntries-All}
use peer_to_peer_distributed.Tracker.Snapshot.RoundTrip.{PeerFits, FileFits, get_peer-peer_bytes}
use peer_to_peer_distributed.Session.Handlers.{meta_bytes}

pub record PeerAddr : Type 0 where
  pub user_id : Str
  pub ip : Str
  pub port : ℕ

abbrev pub addr : PeerRef → PeerAddr
addr p = record { user_id = p.user_id; ip = p.ip; port = p.port }

-- The fields in front of the peers: the size, the hash of the file, the hashes of its pieces, and the
-- count of peers.
unfoldable pub get_file_head : Reader (ℕ × Str × List Str × ℕ)
get_file_head = do
  size ← get_u64
  fhash ← get_str
  pc ← get_u32
  hashes ← get_list get_str pc
  npeers ← get_u32
  pure (size, fhash, hashes, npeers)

-- `if (pa.user_id != self_uid) out.push_back(pa)`
abbrev pub push_other : Str → PeerRef → List PeerAddr → List PeerAddr
push_other self p out = if str_ne p.user_id self then out ++ addr p ∷ [] else out

-- The loop over the peers: at a failed read `out` keeps what is in it.
unfoldable pub peers_loop : Str → ℕ → List PeerAddr → Str → Bool × List PeerAddr
peers_loop self zero out b = (true, out)
peers_loop self (suc n) out b = elim (get_peer b) [
  | none ↦ (false, out)
  | some (p, rest) ↦ peers_loop self n (push_other self p out) rest
]

unfoldable pub decode_peer_list : Str → Str → List PeerAddr → Bool × List PeerAddr
decode_peer_list resp self out = elim (get_file_head resp) [
  | none ↦ (false, out)
  | some ((size, fhash, hashes, npeers), rest) ↦ peers_loop self npeers [] rest
]

-- Everybody but the client itself.
unfoldable pub others : Str → List PeerRef → List PeerAddr
others self [] = []
others self (p ∷ ps) =
    let rest = others self ps in if str_ne p.user_id self then addr p ∷ rest else rest

pub push_other-others :
    (self : Str) (p : PeerRef) (ps : List PeerRef) (out : List PeerAddr)
    → push_other self p out ++ others self ps ≡ out ++ others self (p ∷ ps)
unfolding others
push_other-others self p ps out = pushed (str_ne p.user_id self)
  where
    pushed :
        (b : Bool)
        → (if b then out ++ addr p ∷ [] else out) ++ others self ps
          ≡ out ++ (if b then addr p ∷ others self ps else others self ps)
    pushed true = append_assoc out (addr p ∷ []) (others self ps)
    pushed false = refl

peers_loop-others :
    (self : Str) (ps : List PeerRef) (out : List PeerAddr) (rest : Str)
    → All PeerFits ps
    → peers_loop self (length ps) out (each_bytes peer_bytes ps ++ rest)
      ≡ (true, out ++ others self ps)
unfolding peers_loop each_bytes
peers_loop-others self [] out rest f = unfold others in rw append-nil refl
peers_loop-others self (p ∷ ps) out rest f =
    rw (append_assoc (peer_bytes p) (each_bytes peer_bytes ps) rest) (
      rw (get_peer-peer_bytes p (each_bytes peer_bytes ps ++ rest) f.0, peers_loop)
        (peers_loop-others self ps (push_other self p out) rest f.1
          ∙ ap (λ xs. (true, xs)) (push_other-others self p ps out)))

get_file_head-meta_bytes :
    (m : FileMeta)
    → FileFits m
    → get_file_head (meta_bytes m)
      ≡ some (
        (m.size, m.file_hash, m.piece_hashes, length (values m.seeders)),
        each_bytes peer_bytes (values m.seeders),
      )
unfolding get_file_head meta_bytes counted
get_file_head-meta_bytes m f = simp append_assoc (
    read_step _ _ _ (get_u64-u64_bytes m.size _ f.size) (
      read_step _ _ _ (get_str-str_bytes m.file_hash _ f.file_hash) (
        read_step _ _ _ (get_u32-u32_bytes (length m.piece_hashes) _ f.pieces) (
          read_step _ _ _
            (get_list-each_bytes get_str str_bytes FitsStr get_str-str_bytes m.piece_hashes _
              f.piece_hashes)
            (read_step _ _ _ (get_u32-u32_bytes (length (values m.seeders)) _ f.seeders.1) refl)))))

-- What a tracker answers about a file that fits the format is decoded to the addresses of its seeders,
-- in the order of their names, all but the client's own.
pub decode_peer_list-meta_bytes :
    (m : FileMeta) (self : Str) (out : List PeerAddr)
    → FileFits m
    → decode_peer_list (meta_bytes m) self out ≡ (true, others self (values m.seeders))
unfolding decode_peer_list
decode_peer_list-meta_bytes m self out f =
    rw (get_file_head-meta_bytes m f, decode_peer_list)
      (rw append-nil at (
        peers_loop-others self (values m.seeders) [] [] (
          AllEntries-All get_peer peer_bytes (λ p. p.user_id) PeerFits get_peer-peer_bytes m.seeders
            f.seeders.2)))
