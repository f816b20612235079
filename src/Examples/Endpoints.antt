-- ===== src/Examples/Endpoints.antt =====
-- Lines, addresses and the list of trackers.
use peer_to_peer_distributed.Base.{◌≡◌, refl, some, none, List, [], ◌∷◌, arith}
use peer_to_peer_distributed.Net.Phrases.{status_str}
use peer_to_peer_distributed.Stream.{pos, negsuc, get_int, get_word, tokens, tokenize, strtol}
use peer_to_peer_distributed.Endpoint.{
  Endpoint, parse_endpoint, get_endpoints, read_endpoints, load_tracker_info, self_and_peer,
  client_setup,
}
use peer_to_peer_distributed.Endpoint.Listing.{Line, file_text, load_tracker_info-file_text}

empty_line_test : tokenize (b' ' ∷ 9 ∷ []) ≡ []
unfolding tokenize tokens get_word
empty_line_test = refl

-- "h:70000", "h:-1", "h" and "h:"
too_large_test : parse_endpoint (b'h' ∷ b':' ∷ b'7' ∷ b'0' ∷ b'0' ∷ b'0' ∷ b'0' ∷ []) ≡ none
unfolding parse_endpoint strtol
too_large_test = refl

negative_test : parse_endpoint (b'h' ∷ b':' ∷ b'-' ∷ b'1' ∷ []) ≡ none
unfolding parse_endpoint strtol
negative_test = refl

no_colon_test : parse_endpoint (b'h' ∷ []) ≡ none
unfolding parse_endpoint
no_colon_test = refl

no_port_test : parse_endpoint (b'h' ∷ b':' ∷ []) ≡ none
unfolding parse_endpoint strtol
no_port_test = refl

-- The first tracker's port is 5000, the second one's is 70000, which no port can be.
abbrev lines : List Line
lines =
    record { ip = b'a' ∷ []; digit = 5; digits = 0 ∷ 0 ∷ 0 ∷ [] }
    ∷ record { ip = b'b' ∷ []; digit = 7; digits = 0 ∷ 0 ∷ 0 ∷ 0 ∷ [] }
    ∷ []

load_tracker_info-file_text_example :
    load_tracker_info (some (file_text lines))
    ≡ some (record { ip = b'a' ∷ []; port = 5000 } ∷ record { ip = b'b' ∷ []; port = 4464 } ∷ [])
load_tracker_info-file_text_example = load_tracker_info-file_text lines (
  record {
    word = (refl, (refl, tt));
    digits = (omega arith, (omega arith, (omega arith, (omega arith, tt))));
    small = omega arith;
  },
  (
    record {
      word = (refl, (refl, tt));
      digits = (omega arith, (omega arith, (omega arith, (omega arith, (omega arith, tt)))));
      small = omega arith;
    },
    tt,
  ),
)

-- A line whose port is no number ends the list.
bad_line_test :
    read_endpoints (b'a' ∷ b' ' ∷ b'5' ∷ 10 ∷ b'b' ∷ b' ' ∷ b'x' ∷ 10 ∷ [])
    ≡ record { ip = b'a' ∷ []; port = 5 } ∷ []
unfolding read_endpoints get_endpoints get_word get_int
bad_line_test = refl

abbrev three : List Endpoint
three =
    record { ip = b'a' ∷ []; port = 1 }
    ∷ record { ip = b'b' ∷ []; port = 2 }
    ∷ record { ip = b'c' ∷ []; port = 3 }
    ∷ []

-- The third tracker's peer is the first one, whose peer is the second.
third_test :
    self_and_peer (pos 2) three
    ≡ some (record { ip = b'c' ∷ []; port = 3 }, record { ip = b'a' ∷ []; port = 1 })
third_test = refl

first_test :
    self_and_peer (pos 0) three
    ≡ some (record { ip = b'a' ∷ []; port = 1 }, record { ip = b'b' ∷ []; port = 2 })
first_test = refl

out_of_range_test : self_and_peer (negsuc 0) three ≡ none
out_of_range_test = refl

no_trackers_test : client_setup (b'h' ∷ b':' ∷ b'1' ∷ []) (some []) ≡ none
unfolding client_setup parse_endpoint strtol read_endpoints get_endpoints
no_trackers_test = refl

status_test : status_str 0 ≡ b'O' ∷ b'K' ∷ []
unfolding status_str
status_test = refl
