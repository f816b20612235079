-- ===== src/Stream/Tokens.antt =====
-- The words of a line: what tokenize of client/main.cpp gives.
use peer_to_peer_distributed.Base.{
  ℕ, zero, suc, ◌+◌, ◌≤◌, ◌<◌, ◌≡◌, refl, sym, ◌∙◌, ap, true, false, Option, none, some, List, [],
  ◌∷◌, ◌++◌, arith, length, length-append, All, map, Bool-cases, if_cases, inl, inr,
}
use peer_to_peer_distributed.Text.{Str, is_empty}
use peer_to_peer_distributed.Stream.{
  is_space, skip_spaces, word_of, after_word, get_word, tokens, tokenize,
}
use peer_to_peer_distributed.Stream.Words.{Spaces, IsWord, Ends, visible, joined, get_word_lem}

visible-skip_spaces : (s : Str) → visible (skip_spaces s) ≡ visible s
visible-skip_spaces [] = refl
visible-skip_spaces (c ∷ s) = elim (Bool-cases (is_space c)) [
  | inl e ↦ rw e (visible-skip_spaces s)
  | inr e ↦ rw e (rw e refl)
]

visible-word_of : (s : Str) → visible s ≡ word_of s ++ visible (after_word s)
visible-word_of [] = refl
visible-word_of (c ∷ s) = elim (Bool-cases (is_space c)) [
  | inl e ↦ rw e (rw e refl)
  | inr e ↦ rw e (ap (◌∷◌ c) (visible-word_of s))
]

no_spaces : (s : Str) → All (λ c. is_space c ≡ false) (word_of s)
no_spaces [] = tt
no_spaces (c ∷ s) = elim (Bool-cases (is_space c)) [
  | inl e ↦ rw e tt
  | inr e ↦ rw e (e, no_spaces s)
]

skipped_length : (s : Str) → length (skip_spaces s) ≤ length s
skipped_length [] = omega arith
skipped_length (c ∷ s) = elim (Bool-cases (is_space c)) [
  | inl e ↦ rw e (omega (arith, skipped_length s))
  | inr e ↦ rw e (omega arith)
]

word_length : (s : Str) → length (word_of s) + length (after_word s) ≡ length s
word_length [] = omega arith
word_length (c ∷ s) = elim (Bool-cases (is_space c)) [
  | inl e ↦ rw e (omega arith)
  | inr e ↦ rw e (omega (arith, word_length s))
]

-- What is skipped to is no space.
skipped_word :
    (s : Str) → is_empty (skip_spaces s) ≡ false → is_empty (word_of (skip_spaces s)) ≡ false
skipped_word [] e = cc
skipped_word (c ∷ s) e = elim (Bool-cases (is_space c)) [
  | inl k ↦
      let same : skip_spaces (c ∷ s) ≡ skip_spaces s = rw k refl in
      ap (λ t. is_empty (word_of t)) same ∙ skipped_word s (sym (ap is_empty same) ∙ e)
  | inr k ↦ rw k (rw k refl)
]

pub one_character : (w : Str) → is_empty w ≡ false → 0 < length w
one_character [] e = cc
one_character (c ∷ w) e = omega arith

empty_line : (s : Str) → is_empty s ≡ true → s ≡ []
empty_line [] e = refl
empty_line (c ∷ s) e = cc

tokens-Words :
    (fuel : ℕ) (s : Str)
    → length s ≤ fuel
    → All IsWord (tokens fuel s) × (joined (tokens fuel s) ≡ visible s)
unfolding tokens get_word
tokens-Words zero [] h = (tt, refl)
tokens-Words zero (c ∷ s) h = elim h [ ]
tokens-Words (suc fuel) s h =
    if_cases {A = Option (Str × Str)}
      (λ o.
        All IsWord (elim o [ none ↦ [] | some (w, rest) ↦ w ∷ tokens fuel rest ])
        × (joined (elim o [ none ↦ [] | some (w, rest) ↦ w ∷ tokens fuel rest ]) ≡ visible s))
      (is_empty (skip_spaces s)) _ _
      (λ e. (tt, sym (ap visible (empty_line (skip_spaces s) e)) ∙ visible-skip_spaces s))
      λ e.
        let t = skip_spaces s in
        let some_word = skipped_word s e in
        let (words, all) = tokens-Words fuel (after_word t) (
          omega (arith, h, skipped_length s, word_length t, one_character (word_of t) some_word)) in
        (
          ((some_word, no_spaces t), words),
          ap (λ x. word_of t ++ x) all ∙ sym (visible-word_of t) ∙ visible-skip_spaces s,
        )

-- tokenize gives words, and all the characters of the line that are no spaces, in order.
pub tokenize-visible :
    (line : Str) → All IsWord (tokenize line) × (joined (tokenize line) ≡ visible line)
unfolding tokenize
tokenize-visible line = tokens-Words (length line) line (omega arith)

-- Words, each behind a gap, and what follows the last one.
abbrev spell : List (Str × Str) → Str → Str
spell [] tail = tail
spell ((gap, w) ∷ entries) tail = gap ++ (w ++ spell entries tail)

-- A gap is not empty.
abbrev pub Spelled : Str × Str → Type 0
Spelled (gap, w) = (is_empty gap ≡ false) × Spaces gap × IsWord w

gap-Ends : (gap s : Str) → is_empty gap ≡ false → Spaces gap → Ends (gap ++ s)
gap-Ends [] s e h = cc
gap-Ends (c ∷ gap) s e h = h.0

spell-Ends :
    (entries : List (Str × Str)) (tail : Str)
    → All Spelled entries
    → Spaces tail
    → Ends (spell entries tail)
spell-Ends [] [] h k = tt
spell-Ends [] (c ∷ tail) h k = k.0
spell-Ends ((gap, w) ∷ entries) tail h k = gap-Ends gap _ h.0.0 h.0.1

pub all_skipped : (tail : Str) → Spaces tail → skip_spaces tail ≡ []
all_skipped [] h = refl
all_skipped (c ∷ tail) h = rw (h.0) (all_skipped tail h.1)

pub get_word_end : (s : Str) → skip_spaces s ≡ [] → get_word s ≡ none
unfolding get_word
get_word_end s e =
    if_cases {A = Option (Str × Str)} (λ o. o ≡ none) (is_empty (skip_spaces s)) _ _ (λ _. refl)
      λ k. absurd (empty (sym (ap is_empty e) ∙ k))
  where
    empty : true ≡ false → ⊥
    empty q = cc

tokens-spell :
    (fuel : ℕ) (entries : List (Str × Str)) (tail : Str)
    → All Spelled entries
    → Spaces tail
    → length entries ≤ fuel
    → tokens fuel (spell entries tail) ≡ map (λ e. e.1) entries
unfolding tokens get_word
tokens-spell zero [] tail h k l = refl
tokens-spell zero (e ∷ entries) tail h k l = elim l [ ]
tokens-spell (suc fuel) [] tail h k l =
    ap (λ o. elim o [ none ↦ [] | some (w, rest) ↦ w ∷ tokens fuel rest ])
      (get_word_end tail (all_skipped tail k))
tokens-spell (suc fuel) ((gap, w) ∷ entries) tail h k l =
    ap (λ o. elim o [ none ↦ [] | some (v, rest) ↦ v ∷ tokens fuel rest ])
      (get_word_lem gap w (spell entries tail) h.0.1 h.0.2 (spell-Ends entries tail h.1 k))
    ∙ ap (◌∷◌ w) (tokens-spell fuel entries tail h.1 k (omega (arith, l)))

spell_length :
    (entries : List (Str × Str)) (tail : Str)
    → All Spelled entries
    → length entries ≤ length (spell entries tail)
spell_length [] tail h = omega arith
spell_length ((gap, w) ∷ entries) tail h = omega (
  arith,
  length-append gap (w ++ spell entries tail),
  length-append w (spell entries tail),
  one_character gap h.0.0,
  spell_length entries tail h.1,
)

-- A line of words that are not empty and have no spaces in them, with a space at least between two of
-- them, gives these words in order, whatever spaces are before the first and behind the last.
tokenize-spell :
    (lead w : Str) (entries : List (Str × Str)) (tail : Str)
    → Spaces lead
    → IsWord w
    → All Spelled entries
    → Spaces tail
    → tokenize (lead ++ (w ++ spell entries tail)) ≡ w ∷ map (λ e. e.1) entries
unfolding tokenize
tokenize-spell lead w entries tail g h all k =
    tokens_from (length (lead ++ (w ++ spell entries tail))) (
      omega (
        arith,
        length-append lead (w ++ spell entries tail),
        length-append w (spell entries tail),
        one_character w h.0,
        spell_length entries tail all,
      ))
  where
    tokens_from :
        (fuel : ℕ)
        → suc (length entries) ≤ fuel
        → tokens fuel (lead ++ (w ++ spell entries tail)) ≡ w ∷ map (λ e. e.1) entries
    tokens_from zero l = elim l [ ]
    tokens_from (suc fuel) l =
        ap (λ o. elim o [ none ↦ [] | some (v, rest) ↦ v ∷ tokens fuel rest ])
          (get_word_lem lead w (spell entries tail) g h (spell-Ends entries tail all k))
        ∙ ap (◌∷◌ w) (tokens-spell fuel entries tail all k (omega (arith, l)))
