-- ===== src/Endpoint/Listing.antt =====
-- The list of trackers, read from a file with one line for each.
use peer_to_peer_distributed.Base.{
  ℕ, zero, suc, ◌%◌, ◌^◌, ◌≤◌, ◌<◌, ◌≡◌, refl, ◌∙◌, ap, none, some, List, [], ◌∷◌, ◌++◌, arith, All,
  map, length, length-append, leb, if◌then◌else◌, append-nil,
}
use peer_to_peer_distributed.Text.{Str}
use peer_to_peer_distributed.Stream.Words.{Spaces, IsWord, get_word_lem}
use peer_to_peer_distributed.Stream.Tokens.{get_word_end, all_skipped}
use peer_to_peer_distributed.Stream.Numbers.{Digits, spelled, decimal, get_int-spelled}
use peer_to_peer_distributed.Endpoint.{Endpoint, get_endpoints, read_endpoints, load_tracker_info}

-- A line: an ip, and the digits of a port.
pub record Line : Type 0 where
  pub ip : Str
  pub digit : ℕ
  pub digits : List ℕ

abbrev pub number : Line → ℕ
number l = decimal 0 (l.digit ∷ l.digits)

abbrev pub file_text : List Line → Str
file_text [] = []
file_text (l ∷ lines) =
    l.ip ++ ((b' ' ∷ []) ++ (spelled (l.digit ∷ l.digits) ++ (b'\n' ∷ file_text lines)))

-- The ip is a word, and the port is a number that an int holds.
pub record IsLine (l : Line) : Type 0 where
  pub word : IsWord l.ip
  pub digits : Digits (l.digit ∷ l.digits)
  pub small : number l < 2 ^ 31

abbrev pub endpoint_of : Line → Endpoint
endpoint_of l = record { ip = l.ip; port = number l % 2 ^ 16 }

get_endpoints-file_text :
    (fuel : ℕ) (lead : Str) (lines : List Line)
    → Spaces lead
    → All IsLine lines
    → length lines ≤ fuel
    → get_endpoints fuel (lead ++ file_text lines) ≡ map endpoint_of lines
unfolding get_endpoints
get_endpoints-file_text zero lead [] g h k = refl
get_endpoints-file_text zero lead (l ∷ lines) g h k = elim k [ ]
get_endpoints-file_text (suc fuel) lead [] g h k =
    rw (append-nil {0}) (rw (get_word_end lead (all_skipped lead g), get_endpoints) refl)
get_endpoints-file_text (suc fuel) lead (l ∷ lines) g h k =
    rw
      (
        get_word_lem lead l.ip
            ((b' ' ∷ []) ++ (spelled (l.digit ∷ l.digits) ++ (b'\n' ∷ file_text lines))) g h.0.word
            refl,
        get_endpoints,
      )
      (rw
        (get_int-spelled (b' ' ∷ []) l.digit l.digits (b'\n' ∷ file_text lines) (refl, tt)
          h.0.digits refl h.0.small)
        (ap (◌∷◌ (endpoint_of l))
          (get_endpoints-file_text fuel (b'\n' ∷ []) lines (refl, tt) h.1 (omega (arith, k)))))

-- A file with a line for each tracker: there are at least as many characters as lines.
file_text_length : (lines : List Line) → length lines ≤ length (file_text lines)
file_text_length [] = omega arith
file_text_length (l ∷ lines) = omega (
  arith,
  length-append l.ip ((b' ' ∷ []) ++ (spelled (l.digit ∷ l.digits) ++ (b'\n' ∷ file_text lines))),
  length-append (spelled (l.digit ∷ l.digits)) (b'\n' ∷ file_text lines),
  file_text_length lines,
)

-- A file has a line for each tracker: an ip, which is a word, a space, and the digits of a number below
-- 2 ^ 31. It gives the trackers in order, with these numbers modulo 2 ^ 16 as their ports, and is
-- refused if there are fewer than two.
pub load_tracker_info-file_text :
    (lines : List Line)
    → All IsLine lines
    → load_tracker_info (some (file_text lines))
      ≡ (if leb 2 (length lines) then some (map endpoint_of lines) else none)
unfolding load_tracker_info read_endpoints
load_tracker_info-file_text lines h =
    ap (λ eps. if leb 2 (length eps) then some eps else none)
      (get_endpoints-file_text (length (file_text lines)) [] lines tt h (file_text_length lines))
    ∙ ap (λ n. if leb 2 n then some (map endpoint_of lines) else none) (map_length lines)
  where
    map_length : (lines : List Line) → length (map endpoint_of lines) ≡ length lines
    map_length [] = refl
    map_length (l ∷ lines) = ap suc (map_length lines)
