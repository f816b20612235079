-- ===== src/Stream.antt =====
-- What the program uses of the streams and of strtol: `>>` into a string and into an int, tokenize of
-- client/main.cpp, and strtol in base ten. The classes of characters are those of the C locale.
pub mod Words
pub mod Tokens
pub mod Numbers
use Prim.Native.Nat.{min}
use peer_to_peer_distributed.Base.{
  ℕ, zero, suc, ◌+◌, ◌-◌, ◌*◌, ◌^◌, Bool, true, false, ◌||◌, ◌&&◌, Option, none, some, List, [],
  ◌∷◌, length, ltb, leb, ◌==◌, if◌then◌else◌,
}
use peer_to_peer_distributed.Text.{Str, is_empty}

-- `pos n` is n and `negsuc n` is -n - 1.
pub data ℤ : Type 0 where
  pos : ℕ → ℤ
  negsuc : ℕ → ℤ

-- isspace: tab to carriage return, and the space
abbrev pub is_space : ℕ → Bool
is_space c = c == b' ' || (leb 9 c && leb c 13)

abbrev pub is_digit : ℕ → Bool
is_digit c = leb b'0' c && leb c b'9'

abbrev pub skip_spaces : Str → Str
skip_spaces [] = []
skip_spaces (c ∷ s) = let rest = skip_spaces s in if is_space c then rest else c ∷ s

-- The characters up to the next space.
abbrev pub word_of : Str → Str
word_of [] = []
word_of (c ∷ s) = let rest = word_of s in if is_space c then [] else c ∷ rest

abbrev pub after_word : Str → Str
after_word [] = []
after_word (c ∷ s) = let rest = after_word s in if is_space c then c ∷ s else rest

-- `f >> w`: the word and what is left, or a stream that has failed.
unfoldable pub get_word : Str → Option (Str × Str)
get_word s = let t = skip_spaces s in if is_empty t then none else some (word_of t, after_word t)

-- `while (is >> w) t.push_back(w)`
unfoldable pub tokens : ℕ → Str → List Str
unfolding get_word
tokens zero s = []
tokens (suc fuel) s = elim (get_word s) [ none ↦ [] | some (w, rest) ↦ w ∷ tokens fuel rest ]

-- tokenize; each round takes a character at least.
unfoldable pub tokenize : Str → List Str
unfolding tokens
tokenize line = tokens (length line) line

-- The digits at the front, added to a number, and what follows them.
abbrev pub digits_value : ℕ → Str → ℕ
digits_value v [] = v
digits_value v (c ∷ s) =
    let rest = digits_value (v * 10 + (c - b'0')) s in if is_digit c then rest else v

abbrev pub after_digits : Str → Str
after_digits [] = []
after_digits (c ∷ s) = let rest = after_digits s in if is_digit c then rest else c ∷ s

abbrev pub starts_digit : Str → Bool
starts_digit [] = false
starts_digit (c ∷ s) = is_digit c

abbrev pub is_minus : Str → Bool
is_minus [] = false
is_minus (c ∷ s) = c == b'-'

abbrev pub skip_sign : Str → Str
skip_sign [] = []
skip_sign (c ∷ s) = if c == b'-' || c == b'+' then s else c ∷ s

abbrev pub signed : Bool → ℕ → ℤ
signed false v = pos v
signed true zero = pos 0
signed true (suc v) = negsuc v

-- strtol in base ten, on a long of 64 bits: a number out of range is cut to the nearest.
unfoldable pub strtol : Str → ℤ
strtol s =
    let t = skip_spaces s in
    let v = digits_value 0 (skip_sign t) in
    signed (is_minus t) (min v (if is_minus t then 2 ^ 63 else 2 ^ 63 - 1))

-- `f >> i` for an int of 32 bits: no digits, and a number out of range, make the stream fail.
unfoldable pub get_int : Str → Option (ℤ × Str)
get_int s =
    let t = skip_spaces s in
    let u = skip_sign t in
    let v = digits_value 0 u in
    if starts_digit u && leb v (if is_minus t then 2 ^ 31 else 2 ^ 31 - 1)
    then some (signed (is_minus t) v, after_digits u)
    else none
