-- ===== src/Client/Hashing.antt =====
-- upload_file of client/main.cpp: the hashes of the pieces are cut from what SHA1::hash_file gives, and
-- the file is opened for seeding.
use peer_to_peer_distributed.Base.{
  ℕ, zero, suc, ◌+◌, ◌*◌, ◌/◌, ◌%◌, ◌^◌, ◌<◌, ◌≡◌, refl, sym, ◌∙◌, ap, List, [], ◌∷◌, ◌++◌, arith,
  length, take, drop, length-append, take-append, drop-append, drop-drop, All,
}
use peer_to_peer_distributed.Text.{Str}
use peer_to_peer_distributed.Protocol.{piece_size, sha1_hex_len}
use peer_to_peer_distributed.Sha1.{hash_buffer, hex, final_hex, finish, update, reset}
use peer_to_peer_distributed.PieceStore.{Contents, read_bytes}
use peer_to_peer_distributed.PieceStore.Resume.{hash_at}
use peer_to_peer_distributed.HashFile.{pieces_in, FileHash, concat}
use peer_to_peer_distributed.HashFile.Pieces.{piece_hashes}
use peer_to_peer_distributed.HashFile.Outcome.{file_hash}
use peer_to_peer_distributed.Client

-- `piece_blob.substr(i * SHA1_HEX_LEN, SHA1_HEX_LEN)` for the `k` indices from `i` on
abbrev pub substrings : ℕ → ℕ → Str → List Str
substrings i zero blob = []
substrings i (suc k) blob =
    take sha1_hex_len (drop (i * sha1_hex_len % 2 ^ 32) blob) ∷ substrings (i + 1) k blob

-- What the client sends of a file that was hashed.
abbrev pub client_hash : FileHash → Client.Hashed
client_hash h = record {
  size = h.size;
  whole = h.whole;
  pieces = substrings 0 (length h.blob / sha1_hex_len % 2 ^ 32) h.blob;
}

length-hex : (w v : ℕ) → length (hex w v) ≡ w
unfolding hex
length-hex zero v = refl
length-hex (suc w) v = ap suc (length-hex w v)

-- A hash has forty digits.
pub length-hash_buffer : (p : Str) → length (hash_buffer p) ≡ 40
unfolding hash_buffer final_hex
length-hash_buffer p =
    let v = finish (update p reset) in
    omega (
      arith,
      length-append (hex 8 v.a) (hex 8 v.b ++ hex 8 v.c ++ hex 8 v.d ++ hex 8 v.e),
      length-append (hex 8 v.b) (hex 8 v.c ++ hex 8 v.d ++ hex 8 v.e),
      length-append (hex 8 v.c) (hex 8 v.d ++ hex 8 v.e),
      length-append (hex 8 v.d) (hex 8 v.e),
      length-hex 8 v.a,
      length-hex 8 v.b,
      length-hex 8 v.c,
      length-hex 8 v.d,
      length-hex 8 v.e,
    )

abbrev Are40 : List Str → Type 0
Are40 = All (λ h. length h ≡ 40)

length-concat : (hs : List Str) → Are40 hs → length (concat hs) ≡ length hs * 40
length-concat [] all = omega arith
length-concat (h ∷ hs) all =
    omega (arith, length-append h (concat hs), length-concat hs all.1, all.0)

-- Strings of forty bytes, put together, are cut out again.
substrings-concat :
    (i : ℕ) (hs : List Str) (blob : Str)
    → Are40 hs
    → (i + length hs) * 40 < 2 ^ 32
    → drop (i * 40) blob ≡ concat hs
    → substrings i (length hs) blob ≡ hs
substrings-concat i [] blob all small rest = refl
substrings-concat i (h ∷ hs) blob all small rest =
    let start : i * 40 % 2 ^ 32 ≡ i * 40 = omega (arith, small) in
    let next : i * 40 + 40 ≡ (i + 1) * 40 = omega arith in
    let after : drop 40 (drop (i * 40) blob) ≡ concat hs =
      ap (drop 40) rest
      ∙ ap (λ n. drop n (h ++ concat hs)) (sym all.0)
      ∙ drop-append h (concat hs) in
    ap (λ n. take 40 (drop n blob) ∷ substrings (i + 1) (length hs) blob) start
    ∙ ap (λ x. x ∷ substrings (i + 1) (length hs) blob)
        (ap (take 40) rest
          ∙ ap (λ n. take n (h ++ concat hs)) (sym all.0)
          ∙ take-append h (concat hs))
    ∙ ap (◌∷◌ h) (
        substrings-concat (i + 1) hs blob all.1 (omega (arith, small))
          (ap (λ n. drop n blob) (sym next) ∙ sym (drop-drop 40 (i * 40) blob) ∙ after))

piece_hashes-Are40 : (ps k : ℕ) (xs : Str) → Are40 (piece_hashes ps k xs)
piece_hashes-Are40 ps zero xs = tt
piece_hashes-Are40 ps (suc k) xs =
    (length-hash_buffer (take ps xs), piece_hashes-Are40 ps k (drop ps xs))

pub length-piece_hashes : (ps k : ℕ) (xs : Str) → length (piece_hashes ps k xs) ≡ k
length-piece_hashes ps zero xs = refl
length-piece_hashes ps (suc k) xs = ap suc (length-piece_hashes ps k (drop ps xs))

pub hash_at-piece_hashes :
    (ps k i : ℕ) (xs : Str)
    → i < k
    → hash_at (piece_hashes ps k xs) i ≡ hash_buffer (take ps (drop (i * ps) xs))
hash_at-piece_hashes ps zero i xs l = absurd (omega (arith, l))
hash_at-piece_hashes ps (suc k) zero xs l =
    let start : zero * ps ≡ zero = omega arith in
    sym (ap (λ m. hash_buffer (take ps (drop m xs))) start)
hash_at-piece_hashes ps (suc k) (suc i) xs l =
    let e : ps + i * ps ≡ suc i * ps = omega arith in
    hash_at-piece_hashes ps k i (drop ps xs) (omega (arith, l))
    ∙ ap (λ ys. hash_buffer (take ps ys)) (drop-drop (i * ps) ps xs)
    ∙ ap (λ m. hash_buffer (take ps (drop m xs))) e

module _ (size : ℕ) (file : Contents) (small : size < 2 ^ 64)
    (few : pieces_in piece_size size * 40 < 2 ^ 32) where
  -- The client sends the hashes of the pieces, each of its own.
  pub client_hash-file_hash :
      (client_hash (file_hash piece_size file size)).pieces
      ≡ piece_hashes piece_size (pieces_in piece_size size) (read_bytes 0 size file)
  client_hash-file_hash =
      let k = pieces_in piece_size size in
      let hs = piece_hashes piece_size k (read_bytes 0 size file) in
      let all = piece_hashes-Are40 piece_size k (read_bytes 0 size file) in
      let len = length-piece_hashes piece_size k (read_bytes 0 size file) in
      let count : length (concat hs) / 40 % 2 ^ 32 ≡ length hs =
        omega (arith, length-concat hs all, len, few) in
      ap (λ n. substrings 0 n (concat hs)) count
      ∙ substrings-concat 0 hs (concat hs) all (omega (arith, len, few)) refl
