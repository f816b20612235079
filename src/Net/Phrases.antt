-- ===== src/Net/Phrases.antt =====
-- status_str of common/net.cpp: what the client prints for a status.
use peer_to_peer_distributed.Base.{
  ℕ, ◌≡◌, refl, sym, ◌∙◌, ap, Option, none, some, some_eq, [], ◌∷◌, length, ◌==◌, if◌then◌else◌,
}
use peer_to_peer_distributed.Text.{Str}
use peer_to_peer_distributed.Protocol.{Status, status_code}

unfoldable pub status_str : ℕ → Str
status_str s =
    if s == 0
    then b'O' ∷ b'K' ∷ []
    else if s == 2
    then b'n' ∷ b'o' ∷ b't' ∷ b' ' ∷ b'l' ∷ b'o' ∷ b'g' ∷ b'g' ∷ b'e' ∷ b'd' ∷ b' ' ∷ b'i' ∷ b'n'
      ∷ []
    else if s == 3
    then b'i' ∷ b'n' ∷ b'v' ∷ b'a' ∷ b'l' ∷ b'i' ∷ b'd' ∷ b' ' ∷ b'c' ∷ b'r' ∷ b'e' ∷ b'd' ∷ b'e'
      ∷ b'n' ∷ b't' ∷ b'i' ∷ b'a' ∷ b'l' ∷ b's' ∷ []
    else if s == 4
    then b'a' ∷ b'l' ∷ b'r' ∷ b'e' ∷ b'a' ∷ b'd' ∷ b'y' ∷ b' ' ∷ b'e' ∷ b'x' ∷ b'i' ∷ b's' ∷ b't'
      ∷ b's' ∷ []
    else if s == 5
    then b'n' ∷ b'o' ∷ b't' ∷ b' ' ∷ b'f' ∷ b'o' ∷ b'u' ∷ b'n' ∷ b'd' ∷ []
    else if s == 6
    then b'n' ∷ b'o' ∷ b't' ∷ b' ' ∷ b't' ∷ b'h' ∷ b'e' ∷ b' ' ∷ b'g' ∷ b'r' ∷ b'o' ∷ b'u' ∷ b'p'
      ∷ b' ' ∷ b'o' ∷ b'w' ∷ b'n' ∷ b'e' ∷ b'r' ∷ []
    else if s == 7
    then b'n' ∷ b'o' ∷ b't' ∷ b' ' ∷ b'a' ∷ b' ' ∷ b'm' ∷ b'e' ∷ b'm' ∷ b'b' ∷ b'e' ∷ b'r' ∷ b' '
      ∷ b'o' ∷ b'f' ∷ b' ' ∷ b't' ∷ b'h' ∷ b'i' ∷ b's' ∷ b' ' ∷ b'g' ∷ b'r' ∷ b'o' ∷ b'u' ∷ b'p'
      ∷ []
    else if s == 8
    then b'n' ∷ b'o' ∷ b't' ∷ b' ' ∷ b'i' ∷ b'm' ∷ b'p' ∷ b'l' ∷ b'e' ∷ b'm' ∷ b'e' ∷ b'n' ∷ b't'
      ∷ b'e' ∷ b'd' ∷ []
    else if s == 9
    then b'm' ∷ b'a' ∷ b'l' ∷ b'f' ∷ b'o' ∷ b'r' ∷ b'm' ∷ b'e' ∷ b'd' ∷ b' ' ∷ b'r' ∷ b'e' ∷ b'q'
      ∷ b'u' ∷ b'e' ∷ b's' ∷ b't' ∷ []
    else b'e' ∷ b'r' ∷ b'r' ∷ b'o' ∷ b'r' ∷ []

-- Which status a text of status_str stands for.
abbrev named : Str → Option Status
named s =
    if length s == 2
    then some Status.ok
    else if length s == 13
    then some Status.not_logged_in
    else if length s == 14
    then some Status.already_exists
    else if length s == 9
    then some Status.not_found
    else if length s == 26
    then some Status.not_member
    else if length s == 15
    then some Status.not_implemented
    else if length s == 17
    then some Status.malformed
    else if length s == 19
    then first s
    else some Status.err
  where
    first : Str → Option Status
    first [] = none
    first (c ∷ s) = if c == b'i' then some Status.bad_credentials else some Status.not_owner

named-status_str : (s : Status) → named (status_str (status_code s)) ≡ some s
unfolding status_str status_code
named-status_str Status.ok = refl
named-status_str Status.err = refl
named-status_str Status.not_logged_in = refl
named-status_str Status.bad_credentials = refl
named-status_str Status.already_exists = refl
named-status_str Status.not_found = refl
named-status_str Status.not_owner = refl
named-status_str Status.not_member = refl
named-status_str Status.not_implemented = refl
named-status_str Status.malformed = refl

-- Different statuses have different texts.
pub status_str_differ :
    (s t : Status) → status_str (status_code s) ≡ status_str (status_code t) → s ≡ t
status_str_differ s t e = some_eq (sym (named-status_str s) ∙ ap named e ∙ named-status_str t)
