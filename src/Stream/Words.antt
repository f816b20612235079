-- ===== src/Stream/Words.antt =====
-- Words read from a line.
use peer_to_peer_distributed.Base.{
  ◌≡◌, refl, ap, true, false, some, List, [], ◌∷◌, ◌++◌, All, if◌then◌else◌,
}
use peer_to_peer_distributed.Text.{Str, is_empty}
use peer_to_peer_distributed.Stream.{is_space, skip_spaces, word_of, after_word, get_word}

abbrev pub Spaces : Str → Type 0
Spaces = All (λ c. is_space c ≡ true)

-- A word: characters that are no spaces, one at least.
abbrev pub IsWord : Str → Type 0
IsWord w = (is_empty w ≡ false) × All (λ c. is_space c ≡ false) w

abbrev pub Ends : Str → Type 0
Ends [] = Unit {0}
Ends (c ∷ s) = is_space c ≡ true

-- The characters that are no spaces.
abbrev pub visible : Str → Str
visible [] = []
visible (c ∷ s) = let rest = visible s in if is_space c then rest else c ∷ rest

abbrev pub joined : List Str → Str
joined [] = []
joined (w ∷ ws) = w ++ joined ws

pub skip_spaces-append : (gap s : Str) → Spaces gap → skip_spaces (gap ++ s) ≡ skip_spaces s
skip_spaces-append [] s h = refl
skip_spaces-append (c ∷ gap) s h = rw (h.0) (skip_spaces-append gap s h.1)

pub skip_spaces_word : (w s : Str) → IsWord w → skip_spaces (w ++ s) ≡ w ++ s
skip_spaces_word [] s h = cc
skip_spaces_word (c ∷ w) s h = rw (h.1.0) refl

word_of-append : (w s : Str) → All (λ c. is_space c ≡ false) w → Ends s → word_of (w ++ s) ≡ w
word_of-append [] [] h e = refl
word_of-append [] (c ∷ s) h e = rw e refl
word_of-append (c ∷ w) s h e = rw (h.0) (ap (◌∷◌ c) (word_of-append w s h.1 e))

after_word-append : (w s : Str) → All (λ c. is_space c ≡ false) w → Ends s → after_word (w ++ s) ≡ s
after_word-append [] [] h e = refl
after_word-append [] (c ∷ s) h e = rw e refl
after_word-append (c ∷ w) s h e = rw (h.0) (after_word-append w s h.1 e)

-- A word is read, with the spaces before it gone.
pub get_word_lem :
    (gap w s : Str) → Spaces gap → IsWord w → Ends s → get_word (gap ++ (w ++ s)) ≡ some (w, s)
unfolding get_word
get_word_lem gap w s g h e =
    rw (skip_spaces-append gap (w ++ s) g, skip_spaces_word w s h)
      (rw (not_empty w h.0, word_of-append w s h.1 e, after_word-append w s h.1 e) refl)
  where
    not_empty : (w : Str) → is_empty w ≡ false → is_empty (w ++ s) ≡ false
    not_empty [] k = cc
    not_empty (c ∷ w) k = refl
