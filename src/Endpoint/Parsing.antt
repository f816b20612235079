-- ===== src/Endpoint/Parsing.antt =====
-- What parse_endpoint accepts.
use Prim.Native.Nat.{min}
use peer_to_peer_distributed.Base.{
  ℕ, zero, suc, ◌-◌, ◌^◌, ◌<◌, ◌≡◌, refl, sym, ◌∙◌, ap, subst, Bool, true, false, ◌&&◌, Option,
  none, some, List, [], ◌∷◌, ◌++◌, arith, All, some_eq, if_cases, if◌then◌else◌, ltb, ◌==◌, ==_iff,
}
use peer_to_peer_distributed.Text.{Str}
use peer_to_peer_distributed.Stream.{ℤ, pos, negsuc, starts_digit, strtol}
use peer_to_peer_distributed.Stream.Words.{Spaces}
use peer_to_peer_distributed.Stream.Numbers.{Digits, spelled, decimal, strtol-spelled}
use peer_to_peer_distributed.Endpoint.{
  longer, split_colon, port_of, with_port, parse_parts, parse_endpoint,
}

abbrev pub NoColon : Str → Type 0
NoColon = All (λ c. (c == b':') ≡ false)

split_colon-append :
    (ip rest : Str) → NoColon ip → split_colon (ip ++ (b':' ∷ rest)) ≡ some (ip, rest)
split_colon-append [] rest h = refl
split_colon-append (c ∷ ip) rest h = rw (h.0, split_colon-append ip rest h.1) refl

-- A port that is 0 or above 65535 is refused.
abbrev pub if_port : Str → ℕ → Option (Str × ℕ)
if_port ip v = if ltb 0 v && ltb v 65536 then some (ip, v) else none

port_of-pos : (n : ℕ) → port_of (pos n) ≡ (if ltb 0 n && ltb n 65536 then some n else none)
port_of-pos zero = refl
port_of-pos (suc n) =
    if_cases (λ o. o ≡ (if ltb 0 (suc n) && ltb (suc n) 65536 then some (suc n) else none))
      (ltb 65535 (suc n)) _ _ (λ e. ap (λ b. if b then some (suc n) else none) (sym (big e)))
      λ e. ap (λ b. if b then some (suc n) else none) (sym (fits e))
  where
    big : ltb 65535 (suc n) ≡ true → (ltb 0 (suc n) && ltb (suc n) 65536) ≡ false
    big e = ground (arith, e)

    fits : ltb 65535 (suc n) ≡ false → (ltb 0 (suc n) && ltb (suc n) 65536) ≡ true
    fits e = ground (arith, e)

-- The limit of a long is no limit here.
clamped :
    (v : ℕ)
    → (ltb 0 (min v (2 ^ 63 - 1)) && ltb (min v (2 ^ 63 - 1)) 65536) ≡ (ltb 0 v && ltb v 65536)
clamped v = ground arith

-- An address is an ip without a colon, a colon, spaces perhaps, and the digits of a port; what follows
-- the last digit is left aside. The port is the number that the digits stand for, whatever its size, and
-- the address is refused when it is 0 or above 65535.
parse_endpoint-spelled :
    (ip gap : Str) (d : ℕ) (ds : List ℕ) (rest : Str)
    → NoColon ip
    → Spaces gap
    → Digits (d ∷ ds)
    → starts_digit rest ≡ false
    → parse_endpoint (ip ++ (b':' ∷ (gap ++ (spelled (d ∷ ds) ++ rest))))
      ≡ if_port ip (decimal 0 (d ∷ ds))
unfolding parse_endpoint
parse_endpoint-spelled ip gap d ds rest h g k e =
    let v = decimal 0 (d ∷ ds) in
    ap parse_parts (split_colon-append ip (gap ++ (spelled (d ∷ ds) ++ rest)) h)
    ∙ ap (λ z. with_port ip (port_of z)) (strtol-spelled gap d ds rest g k e)
    ∙ ap (with_port ip) (port_of-pos (min v (2 ^ 63 - 1)))
    ∙ if_cases (λ o. with_port ip o ≡ if_port ip v)
        (ltb 0 (min v (2 ^ 63 - 1)) && ltb (min v (2 ^ 63 - 1)) 65536) _ _
        (λ q.
          let exact : min v (2 ^ 63 - 1) ≡ v = below v (sym (clamped v) ∙ q) in
          ap (λ n. some (ip, n)) exact ∙ sym (ap (chosen v) (sym (clamped v) ∙ q)))
        (λ q. sym (ap (chosen v) (sym (clamped v) ∙ q)))
  where
    chosen : ℕ → Bool → Option (Str × ℕ)
    chosen v b = if b then some (ip, v) else none

    below : (v : ℕ) → (ltb 0 v && ltb v 65536) ≡ true → min v (2 ^ 63 - 1) ≡ v
    below v q = ground (arith, q)

longer_parts :
    (c : ℕ) (o : Option (Str × Str)) (ip rest : Str)
    → longer c o ≡ some (ip, rest)
    → (front : Str) × (o ≡ some (front, rest)) × (ip ≡ c ∷ front)
longer_parts c none ip rest e = cc
longer_parts c (some (front, back)) ip rest e = (
  front,
  ap {B = Option (Str × Str)} (λ b. some (front, b)) (ap {A = Str × Str} (λ p. p.1) (some_eq e)),
  sym (ap {A = Str × Str} (λ p. p.0) (some_eq e)),
)

split_colon_parts :
    (s ip rest : Str) → split_colon s ≡ some (ip, rest) → NoColon ip × (s ≡ ip ++ (b':' ∷ rest))
split_colon_parts [] ip rest = λ e. cc
split_colon_parts (c ∷ s) ip rest =
    if_cases {A = Option (Str × Str)}
      (λ o. o ≡ some (ip, rest) → NoColon ip × (c ∷ s ≡ ip ++ (b':' ∷ rest))) (c == b':') _ _
      (λ k e.
        let front : [] ≡ ip = ap {A = Str × Str} (λ p. p.0) (some_eq e) in
        let back : s ≡ rest = ap {A = Str × Str} (λ p. p.1) (some_eq e) in
        (
          subst NoColon front tt,
          ap (λ x. x ∷ s) ((==_iff c b':').0 k)
              ∙ ap (◌∷◌ b':') back
              ∙ ap (λ x. x ++ (b':' ∷ rest)) front,
        ))
      λ k e.
        let (front, found, longer) = longer_parts c (split_colon s) ip rest e in
        let (none_in, whole) = split_colon_parts s front rest found in
        (
          subst NoColon (sym longer) (k, none_in),
          ap (◌∷◌ c) whole ∙ ap (λ x. x ++ (b':' ∷ rest)) (sym longer),
        )

port_of-bounds : (z : ℤ) (p : ℕ) → port_of z ≡ some p → (0 < p) × (p < 65536) × (z ≡ pos p)
port_of-bounds (negsuc n) p = λ e. cc
port_of-bounds (pos zero) p = λ e. cc
port_of-bounds (pos (suc n)) p =
    if_cases (λ o. o ≡ some p → (0 < p) × (p < 65536) × (pos (suc n) ≡ pos p)) (ltb 65535 (suc n)) _
      _ (λ _ e. cc)
      λ k e.
        let same : suc n ≡ p = some_eq e in
        (omega (arith, same), ground (arith, same, k), ap pos same)

with_port_parts :
    (ip i : Str) (o : Option ℕ) (p : ℕ) → with_port i o ≡ some (ip, p) → (i ≡ ip) × (o ≡ some p)
with_port_parts ip i none p e = cc
with_port_parts ip i (some q) p e =
    (ap {A = Str × ℕ} (λ r. r.0) (some_eq e), ap {A = Str × ℕ} (λ r. some r.1) (some_eq e))

-- What is accepted is an ip without a colon, a colon and a text that begins with the port, which is
-- neither 0 nor above 65535.
pub parse_endpoint-bounds :
    (s ip : Str) (p : ℕ)
    → parse_endpoint s ≡ some (ip, p)
    → (0 < p)
      × (p < 65536)
      × (rest : Str) × NoColon ip
      × (s ≡ ip ++ (b':' ∷ rest))
      × (strtol rest ≡ pos p)
unfolding parse_endpoint
parse_endpoint-bounds s ip p e = parts (split_colon s) refl e
  where
    parts :
        (o : Option (Str × Str))
        → split_colon s ≡ o
        → parse_parts o ≡ some (ip, p)
        → (0 < p)
          × (p < 65536)
          × (rest : Str) × NoColon ip
          × (s ≡ ip ++ (b':' ∷ rest))
          × (strtol rest ≡ pos p)
    parts none q e = cc
    parts (some (front, rest)) q e =
        let (same, port) = with_port_parts ip front (port_of (strtol rest)) p e in
        let (low, high, number) = port_of-bounds (strtol rest) p port in
        let (none_in, whole) = split_colon_parts s front rest q in
        (
          low,
          high,
          rest,
          subst NoColon same none_in,
          whole ∙ ap (λ x. x ++ (b':' ∷ rest)) same,
          number,
        )
