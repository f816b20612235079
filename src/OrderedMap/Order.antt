-- ===== src/OrderedMap/Order.antt =====
-- The entries stay in the order of their keys, and then the lookups determine the map.
use peer_to_peer_distributed.Base.{
  ◌≡◌, refl, sym, ◌∙◌, ap, inl, inr, none, some, [], ◌∷◌, ◌++◌, arith, Ordering, Bool-cases,
  append-nil, append_assoc, Ordering-cases,
}
use peer_to_peer_distributed.OrderedMap.Lookup.{find_before, find_past}
use peer_to_peer_distributed.OrderedMap.{Ord, Map, same_key, find, put, erase, map_values}

module _ {K V : Type 0} ⦃o : Ord K⦄ where
  -- `k` comes before every key of the map.
  abbrev pub Above : K → Map K V → Type 0
  Above k [] = Unit {0}
  Above k ((j, w) ∷ m) = (o.cmp k j ≡ Ordering.lt) × Above k m

  abbrev pub IsSorted : Map K V → Type 0
  IsSorted [] = Unit {0}
  IsSorted ((k, v) ∷ m) = Above k m × IsSorted m

  Above-trans : (i k : K) (m : Map K V) → o.cmp i k ≡ Ordering.lt → Above k m → Above i m
  Above-trans i k [] h a = tt
  Above-trans i k ((j, w) ∷ m) h a = (o.cmp_trans i k j h a.0, Above-trans i k m h a.1)

  put-Above :
      (i k : K) (v : V) (m : Map K V) → o.cmp i k ≡ Ordering.lt → Above i m → Above i (put k v m)
  unfolding put
  put-Above i k v [] h a = (h, tt)
  put-Above i k v ((j, w) ∷ m) h a = elim (Ordering-cases (o.cmp k j)) [
    | inl lt ↦ rw (lt, put) (h, a)
    | inr (inl eq) ↦ rw (eq, put) (h, a.1)
    | inr (inr gt) ↦ rw (gt, put) (a.0, put-Above i k v m h a.1)
  ]

  erase-Above : (i k : K) (m : Map K V) → Above i m → Above i (erase k m)
  unfolding erase
  erase-Above i k [] a = tt
  erase-Above i k ((j, w) ∷ m) a = elim (Bool-cases (same_key k j)) [
    | inl eq ↦ rw eq (erase-Above i k m a.1)
    | inr ne ↦ rw ne (a.0, erase-Above i k m a.1)
  ]

  pub put-IsSorted : (k : K) (v : V) (m : Map K V) → IsSorted m → IsSorted (put k v m)
  unfolding put
  put-IsSorted k v [] s = (tt, tt)
  put-IsSorted k v ((j, w) ∷ m) s = elim (Ordering-cases (o.cmp k j)) [
    | inl lt ↦ rw (lt, put) ((lt, Above-trans k j m lt s.0), s)
    | inr (inl eq) ↦ rw (eq, put) (rw (o.cmp_eq k j eq) s.0, s.1)
    | inr (inr gt) ↦
        rw (gt, put) (put-Above j k v m (o.cmp_flip k j gt) s.0, put-IsSorted k v m s.1)
  ]

  pub erase-IsSorted : (k : K) (m : Map K V) → IsSorted m → IsSorted (erase k m)
  unfolding erase
  erase-IsSorted k [] s = tt
  erase-IsSorted k ((j, w) ∷ m) s = elim (Bool-cases (same_key k j)) [
    | inl eq ↦ rw eq (erase-IsSorted k m s.1)
    | inr ne ↦ rw ne (erase-Above j k m s.0, erase-IsSorted k m s.1)
  ]

  pub Above-find : (k : K) (m : Map K V) → Above k m → find k m ≡ none
  unfolding find
  Above-find k [] a = refl
  Above-find k ((j, w) ∷ m) a = find_before k j w m a.0 ∙ Above-find k m a.1

  -- The first key comes before every other that the map has.
  pub first_least :
      (j k : K) (w : V) (m : Map K V) {v : V}
      → IsSorted ((j, w) ∷ m)
      → find k m ≡ some v
      → o.cmp j k ≡ Ordering.lt
  unfolding find
  first_least j k w [] s h = cc
  first_least j k w ((i, x) ∷ m) s h = elim (Ordering-cases (o.cmp k i)) [
    | inl lt ↦ first_least j k w m (s.0.1, s.1.1) (sym (find_before k i x m lt) ∙ h)
    | inr (inl eq) ↦ rw (o.cmp_eq k i eq) s.0.0
    | inr (inr gt) ↦ first_least j k w m (s.0.1, s.1.1) (sym (find_past k i x m gt) ∙ h)
  ]

  -- Writing what is there already changes nothing.
  pub put_same : (k : K) (v : V) (m : Map K V) → IsSorted m → find k m ≡ some v → put k v m ≡ m
  unfolding find put
  put_same k v [] s h = cc
  put_same k v ((j, w) ∷ m) s h = elim (Ordering-cases (o.cmp k j)) [
    | inl lt ↦ cc (Above-find k m (Above-trans k j m lt s.0), sym (find_before k j w m lt) ∙ h)
    | inr (inl eq) ↦ ground (arith, o.cmp_eq k j)
    | inr (inr gt) ↦
        rw (gt, put) (ap (◌∷◌ (j, w)) (put_same k v m s.1 (sym (find_past k j w m gt) ∙ h)))
  ]

  -- Writing one key twice keeps the last value.
  pub put-put_self : (k : K) (v w : V) (m : Map K V) → put k v (put k w m) ≡ put k v m
  unfolding put
  put-put_self k v w [] = ground (arith, o.cmp_self k)
  put-put_self k v w ((j, x) ∷ m) = ground (arith, o.cmp_self k, put-put_self k v w m)

  -- A key that is not there is not erased.
  pub erase-none : (k : K) (m : Map K V) → find k m ≡ none → erase k m ≡ m
  unfolding find erase
  erase-none k [] h = refl
  erase-none k ((j, w) ∷ m) h = ground (arith, erase-none k m)

  -- Entries written in order arrive at the end.
  pub put_last :
      (k : K) (v : V) (m n : Map K V) → IsSorted (m ++ (k, v) ∷ n) → put k v m ≡ m ++ (k, v) ∷ []
  unfolding put
  put_last k v [] n s = refl
  put_last k v ((j, w) ∷ m) n s =
      rw (later k v j m n s.0, put) (ap (◌∷◌ (j, w)) (put_last k v m n s.1))
    where
      later :
          (k : K) (v : V) (j : K) (m n : Map K V)
          → Above j (m ++ (k, v) ∷ n)
          → o.cmp k j ≡ Ordering.gt
      later k v j [] n a =
          ground
            (arith, o.cmp_flip k j, o.cmp_eq k j, o.cmp_self j, o.cmp_trans k j k, o.cmp_self k)
      later k v j (e ∷ m) n a = later k v j m n a.1

  -- m[k] = v for each entry in turn.
  unfoldable pub put_all : Map K V → Map K V → Map K V
  put_all m [] = m
  put_all m ((k, v) ∷ n) = put_all (put k v m) n

  -- Writing the entries of a sorted map one by one builds that map again.
  pub put_all_append : (m n : Map K V) → IsSorted (m ++ n) → put_all m n ≡ m ++ n
  unfolding put_all
  put_all_append m [] s = sym (append-nil m)
  put_all_append m ((k, v) ∷ n) s =
      rw (put_last k v m n s)
        (put_all_append (m ++ (k, v) ∷ []) n (rw append_assoc s) ∙ append_assoc m ((k, v) ∷ []) n)

  map_values-Above : (g : V → V) (k : K) (m : Map K V) → Above k m → Above k (map_values g m)
  unfolding map_values
  map_values-Above g k [] a = tt
  map_values-Above g k ((j, w) ∷ m) a = (a.0, map_values-Above g k m a.1)

  pub map_values-IsSorted : (g : V → V) (m : Map K V) → IsSorted m → IsSorted (map_values g m)
  unfolding map_values
  map_values-IsSorted g [] s = tt
  map_values-IsSorted g ((k, v) ∷ m) s = (map_values-Above g k m s.0, map_values-IsSorted g m s.1)
