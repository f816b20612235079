-- ===== src/Seeder/Keys.antt =====
-- client/seeder.hpp: the key of a shared file, ordered by its group and then by its name.
use peer_to_peer_distributed.Base.{◌≡◌, arith, Ordering}
use peer_to_peer_distributed.Text.{
  Str, compare_str, compare_str_self, compare_str_eq, compare_str_flip, compare_str_trans,
}
use peer_to_peer_distributed.OrderedMap.{Ord}

pub record ShareKey : Type 0 where
  pub group : Str
  pub file : Str

-- operator<, as a comparison
abbrev pub compare_key : ShareKey → ShareKey → Ordering
compare_key a b = elim (compare_str a.group b.group) [
  | Ordering.eq ↦ compare_str a.file b.file
  | Ordering.lt ↦ Ordering.lt
  | Ordering.gt ↦ Ordering.gt
]

compare_key_self : (a : ShareKey) → compare_key a a ≡ Ordering.eq
compare_key_self a = ground (arith, compare_str_self a.group, compare_str_self a.file)

compare_key_eq : (a b : ShareKey) → compare_key a b ≡ Ordering.eq → a ≡ b
compare_key_eq a b h = ground (arith, compare_str_eq a.group b.group, compare_str_eq a.file b.file)

compare_key_flip : (a b : ShareKey) → compare_key a b ≡ Ordering.gt → compare_key b a ≡ Ordering.lt
compare_key_flip a b h = ground (
  arith,
  compare_str_flip a.group b.group,
  compare_str_eq a.group b.group,
  compare_str_self a.group,
  compare_str_flip a.file b.file,
)

compare_key_trans :
    (a b c : ShareKey)
    → compare_key a b ≡ Ordering.lt
    → compare_key b c ≡ Ordering.lt
    → compare_key a c ≡ Ordering.lt
compare_key_trans a b c h k = ground (
  arith,
  compare_str_trans a.group b.group c.group,
  compare_str_eq a.group b.group,
  compare_str_eq b.group c.group,
  compare_str_trans a.file b.file c.file,
)

instance pub share_ord : Ord ShareKey
share_ord = record {
  cmp = compare_key;
  cmp_self = compare_key_self;
  cmp_eq = compare_key_eq;
  cmp_flip = compare_key_flip;
  cmp_trans = compare_key_trans;
}
