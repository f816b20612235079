-- ===== src/Stream/Numbers.antt =====
-- Numbers read from their decimal digits.
use Prim.Native.Nat.{min}
use peer_to_peer_distributed.Base.{
  ℕ, ◌+◌, ◌-◌, ◌*◌, ◌^◌, ◌<◌, ◌≡◌, refl, ◌∙◌, ap, Bool, true, false, ◌||◌, ◌&&◌, Option, none, some,
  List, [], ◌∷◌, ◌++◌, arith, All, map, if_cases, if◌then◌else◌, leb, ◌==◌,
}
use peer_to_peer_distributed.Text.{Str}
use peer_to_peer_distributed.Stream.{
  ℤ, pos, is_space, is_digit, skip_spaces, skip_sign, is_minus, starts_digit, digits_value,
  after_digits, signed, strtol, get_int,
}
use peer_to_peer_distributed.Stream.Words.{Spaces, skip_spaces-append}

abbrev pub Digits : List ℕ → Type 0
Digits = All (λ d. d < 10)

-- The characters of digits, and the number that they stand for.
abbrev pub spelled : List ℕ → Str
spelled = map (λ d. b'0' + d)

abbrev pub decimal : ℕ → List ℕ → ℕ
decimal v [] = v
decimal v (d ∷ ds) = decimal (v * 10 + d) ds

digit_char : (d : ℕ) → d < 10 → is_digit (b'0' + d) ≡ true
digit_char d l = ground (arith, l)

no_space : (d : ℕ) → d < 10 → is_space (b'0' + d) ≡ false
no_space d l = ground (arith, l)

no_sign : (d : ℕ) → d < 10 → (((b'0' + d) == b'-') || ((b'0' + d) == b'+')) ≡ false
no_sign d l = ground (arith, l)

no_minus : (d : ℕ) → d < 10 → ((b'0' + d) == b'-') ≡ false
no_minus d l = ground (arith, l)

pub digits_value-spelled :
    (v : ℕ) (ds : List ℕ) (rest : Str)
    → Digits ds
    → starts_digit rest ≡ false
    → digits_value v (spelled ds ++ rest) ≡ decimal v ds
digits_value-spelled v [] [] h e = refl
digits_value-spelled v [] (c ∷ rest) h e = rw e refl
digits_value-spelled v (d ∷ ds) rest h e =
    let same : v * 10 + (b'0' + d - b'0') ≡ v * 10 + d = omega arith in
    rw (digit_char d h.0, same) (digits_value-spelled (v * 10 + d) ds rest h.1 e)

pub after_digits-spelled :
    (ds : List ℕ) (rest : Str)
    → Digits ds
    → starts_digit rest ≡ false
    → after_digits (spelled ds ++ rest) ≡ rest
after_digits-spelled [] [] h e = refl
after_digits-spelled [] (c ∷ rest) h e = rw e refl
after_digits-spelled (d ∷ ds) rest h e = rw (digit_char d h.0) (after_digits-spelled ds rest h.1 e)

module _ (gap : Str) (d : ℕ) (ds : List ℕ) (rest : Str) (g : Spaces gap) (h : Digits (d ∷ ds))
    (e : starts_digit rest ≡ false) where
  abbrev text : Str
  text = spelled (d ∷ ds) ++ rest

  skipped : skip_spaces (gap ++ text) ≡ text
  skipped = skip_spaces-append gap text g ∙ rw (no_space d h.0) refl

  unsigned : skip_sign text ≡ text
  unsigned = rw (no_sign d h.0) refl

  pub strtol-spelled : strtol (gap ++ text) ≡ pos (min (decimal 0 (d ∷ ds)) (2 ^ 63 - 1))
  unfolding strtol
  strtol-spelled =
      ap
        (λ t.
          signed (is_minus t)
            (min (digits_value 0 (skip_sign t)) (if is_minus t then 2 ^ 63 else 2 ^ 63 - 1)))
        skipped
      ∙ ap
          (λ b. signed b (min (digits_value 0 (skip_sign text)) (if b then 2 ^ 63 else 2 ^ 63 - 1)))
          (no_minus d h.0)
      ∙ ap (λ t. pos (min (digits_value 0 t) (2 ^ 63 - 1))) unsigned
      ∙ ap (λ v. pos (min v (2 ^ 63 - 1))) (digits_value-spelled 0 (d ∷ ds) rest h e)

  pub get_int-spelled :
      decimal 0 (d ∷ ds) < 2 ^ 31 → get_int (gap ++ text) ≡ some (pos (decimal 0 (d ∷ ds)), rest)
  unfolding get_int
  get_int-spelled small =
      ap read skipped
      ∙ ap {A = Bool × Str} {B = Option (ℤ × Str)}
          (λ p.
            if starts_digit p.1 && leb (digits_value 0 p.1) (if p.0 then 2 ^ 31 else 2 ^ 31 - 1)
            then some (signed p.0 (digits_value 0 p.1), after_digits p.1)
            else none)
          {x = (is_minus text, skip_sign text)} {y = (false, text)} both
      ∙ ap {A = Bool × ℕ × Str} {B = Option (ℤ × Str)}
          (λ p. if p.0 && leb p.1 (2 ^ 31 - 1) then some (pos p.1, p.2) else none)
          {x = (starts_digit text, digits_value 0 text, after_digits text)}
          {y = (true, decimal 0 (d ∷ ds), rest)} all
      ∙ if_cases {A = Option (ℤ × Str)} (λ o. o ≡ some (pos (decimal 0 (d ∷ ds)), rest))
          (leb (decimal 0 (d ∷ ds)) (2 ^ 31 - 1)) _ _ (λ _. refl)
          (λ k. absurd (ground (arith, k, small)))
    where
      read : Str → Option (ℤ × Str)
      read t =
          if starts_digit (skip_sign t)
            && leb (digits_value 0 (skip_sign t)) (if is_minus t then 2 ^ 31 else 2 ^ 31 - 1)
          then some (signed (is_minus t) (digits_value 0 (skip_sign t)), after_digits (skip_sign t))
          else none

      both : ◌≡◌ {A = Bool × Str} (is_minus text, skip_sign text) (false, text)
      both =
          ap {B = Bool × Str} (λ b. (b, skip_sign text)) (no_minus d h.0)
          ∙ ap {B = Bool × Str} (λ t. (false, t)) unsigned

      all :
          ◌≡◌ {A = Bool × ℕ × Str}
            (starts_digit text, digits_value 0 text, after_digits text)
            (true, decimal 0 (d ∷ ds), rest)
      all =
          ap {B = Bool × ℕ × Str} (λ b. (b, digits_value 0 text, after_digits text))
            (digit_char d h.0)
          ∙ ap {B = Bool × ℕ × Str} (λ v. (true, v, after_digits text))
              (digits_value-spelled 0 (d ∷ ds) rest h e)
          ∙ ap {B = Bool × ℕ × Str} (λ s. (true, decimal 0 (d ∷ ds), s))
              (after_digits-spelled (d ∷ ds) rest h e)
