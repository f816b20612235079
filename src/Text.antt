-- ===== src/Text.antt =====
-- std::string as the program uses it: a sequence of bytes, compared as `std::less<std::string>`
-- does, byte by byte as unsigned numbers, a proper prefix first.
use peer_to_peer_distributed.Base.{
  ℕ, ◌≡◌, refl, Bool, true, false, List, [], ◌∷◌, compare, Ordering, arith,
}
use peer_to_peer_distributed.OrderedMap.{Ord}

abbrev pub Str : Type 0
Str = List ℕ

abbrev pub is_empty : Str → Bool
is_empty [] = true
is_empty (c ∷ s) = false

unfoldable pub compare_str : Str → Str → Ordering
compare_str [] [] = Ordering.eq
compare_str [] (d ∷ t) = Ordering.lt
compare_str (c ∷ s) [] = Ordering.gt
compare_str (c ∷ s) (d ∷ t) = elim (compare c d) [
  | Ordering.lt ↦ Ordering.lt
  | Ordering.gt ↦ Ordering.gt
  | Ordering.eq ↦ compare_str s t
]

pub compare_str_self : (s : Str) → compare_str s s ≡ Ordering.eq
unfolding compare_str
compare_str_self [] = refl
compare_str_self (c ∷ s) = ground (arith, compare_str_self s)

pub compare_str_eq : (s t : Str) → compare_str s t ≡ Ordering.eq → s ≡ t
unfolding compare_str
compare_str_eq [] [] h = refl
compare_str_eq [] (d ∷ t) h = cc
compare_str_eq (c ∷ s) [] h = cc
compare_str_eq (c ∷ s) (d ∷ t) h = ground (arith, compare_str_eq s t)

pub compare_str_flip : (s t : Str) → compare_str s t ≡ Ordering.gt → compare_str t s ≡ Ordering.lt
unfolding compare_str
compare_str_flip [] [] h = cc
compare_str_flip [] (d ∷ t) h = cc
compare_str_flip (c ∷ s) [] h = refl
compare_str_flip (c ∷ s) (d ∷ t) h = ground (arith, compare_str_flip s t)

pub compare_str_trans :
    (s t u : Str)
    → compare_str s t ≡ Ordering.lt
    → compare_str t u ≡ Ordering.lt
    → compare_str s u ≡ Ordering.lt
unfolding compare_str
compare_str_trans [] [] u h k = cc
compare_str_trans [] (d ∷ t) [] h k = cc
compare_str_trans [] (d ∷ t) (e ∷ u) h k = refl
compare_str_trans (c ∷ s) [] u h k = cc
compare_str_trans (c ∷ s) (d ∷ t) [] h k = cc
compare_str_trans (c ∷ s) (d ∷ t) (e ∷ u) h k = ground (arith, compare_str_trans s t u)

-- The order that the maps and sets of the program are kept in.
instance abbrev pub str_ord : Ord Str
str_ord = record {
  cmp = compare_str;
  cmp_self = compare_str_self;
  cmp_eq = compare_str_eq;
  cmp_flip = compare_str_flip;
  cmp_trans = compare_str_trans;
}

-- `a != b`
abbrev pub str_ne : Str → Str → Bool
str_ne a b = elim (compare_str a b) [ Ordering.eq ↦ false | _ ↦ true ]

-- `a != b` is false for equal strings only.
pub str_ne-eq : (a b : Str) → str_ne a b ≡ false → a ≡ b
str_ne-eq a b h = compare_str_eq a b (equal (compare_str a b) h)
  where
    equal : (o : Ordering) → (elim o [ Ordering.eq ↦ false | _ ↦ true ]) ≡ false → o ≡ Ordering.eq
    equal Ordering.lt h = cc
    equal Ordering.eq h = refl
    equal Ordering.gt h = cc
