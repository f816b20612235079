-- ===== src/Endpoint.antt =====
-- Addresses: parse_endpoint of common/net.cpp, the list of trackers that tracker/main.cpp and
-- client/main.cpp read, and the choice of a tracker's own entry and of its peer's. The text of a file is
-- an argument, and so is the number that atoi gives for the tracker's index.
pub mod Parsing
pub mod Listing
use peer_to_peer_distributed.Base.{
  ℕ, zero, suc, ◌+◌, ◌-◌, ◌%◌, ◌^◌, Bool, true, false, Option, none, some, List, [], ◌∷◌, length,
  ltb, leb, ◌==◌, if◌then◌else◌,
}
use peer_to_peer_distributed.Text.{Str}
use peer_to_peer_distributed.Stream.{ℤ, pos, negsuc, strtol, get_word, get_int}

abbrev pub longer : ℕ → Option (Str × Str) → Option (Str × Str)
longer c none = none
longer c (some (ip, rest)) = some (c ∷ ip, rest)

-- `s.find(':')`: what stands before it and behind it
abbrev pub split_colon : Str → Option (Str × Str)
split_colon [] = none
split_colon (c ∷ s) = let rest = split_colon s in if c == b':' then some ([], s) else longer c rest

-- `if (p <= 0 || p > 65535) return false;`
abbrev pub port_of : ℤ → Option ℕ
port_of (negsuc n) = none
port_of (pos zero) = none
port_of (pos (suc n)) = if ltb 65535 (suc n) then none else some (suc n)

abbrev pub with_port : Str → Option ℕ → Option (Str × ℕ)
with_port ip none = none
with_port ip (some port) = some (ip, port)

abbrev pub parse_parts : Option (Str × Str) → Option (Str × ℕ)
parse_parts none = none
parse_parts (some (ip, rest)) = with_port ip (port_of (strtol rest))

unfoldable pub parse_endpoint : Str → Option (Str × ℕ)
parse_endpoint s = parse_parts (split_colon s)

pub record Endpoint : Type 0 where
  pub ip : Str
  pub port : ℕ

-- `static_cast<uint16_t>(port)`
abbrev pub u16_of : ℤ → ℕ
u16_of (pos n) = n % 2 ^ 16
u16_of (negsuc n) = 2 ^ 16 - 1 - n % 2 ^ 16

-- `while (f >> ip >> port) out.push_back(…)`
unfoldable pub get_endpoints : ℕ → Str → List Endpoint
unfolding get_word get_int
get_endpoints zero s = []
get_endpoints (suc fuel) s = elim (get_word s) [
  | none ↦ []
  | some (ip, rest) ↦ elim (get_int rest) [
    | none ↦ []
    | some (port, rest) ↦ record { ip = ip; port = u16_of port } ∷ get_endpoints fuel rest
  ]
]

-- Each round takes a character at least.
unfoldable pub read_endpoints : Str → List Endpoint
unfolding get_endpoints
read_endpoints text = get_endpoints (length text) text

-- load_tracker_info, on a file that may not open; `true` is `some`.
unfoldable pub load_tracker_info : Option Str → Option (List Endpoint)
unfolding read_endpoints
load_tracker_info none = none
load_tracker_info (some text) =
    let eps = read_endpoints text in if leb 2 (length eps) then some eps else none

abbrev pub endpoint_at : List Endpoint → ℕ → Option Endpoint
endpoint_at [] i = none
endpoint_at (e ∷ eps) zero = some e
endpoint_at (e ∷ eps) (suc i) = endpoint_at eps i

-- `self` is `eps[idx]` and `peer` is `eps[idx == 0 ? 1 : 0]`, for an index in range.
abbrev pub self_and_peer : ℤ → List Endpoint → Option (Endpoint × Endpoint)
self_and_peer (negsuc n) eps = none
self_and_peer (pos i) eps = elim (endpoint_at eps i) [
  | none ↦ none
  | some self ↦ elim (endpoint_at eps (if i == 0 then 1 else 0)) [
    | none ↦ none
    | some peer ↦ some (self, peer)
  ]
]

-- The arguments of the client: its own address, and the trackers; one at least.
unfoldable pub client_setup : Str → Option Str → Option (Str × ℕ × List Endpoint)
unfolding parse_endpoint read_endpoints
client_setup address none = none
client_setup address (some text) = elim (parse_endpoint address) [
  | none ↦ none
  | some (ip, port) ↦ elim (read_endpoints text) [ [] ↦ none | e ∷ eps ↦ some (ip, port, e ∷ eps) ]
]
