-- ===== src/OrderedMap/Lookup.antt =====
-- What a lookup finds after a write or a removal, and predicates of all entries.
use mathlib.Core.Path.{subst₂}
use peer_to_peer_distributed.Base.{
  ◌≡◌, refl, sym, ◌∙◌, inl, inr, true, false, none, some, [], ◌∷◌, arith, Ordering, some_eq,
  if◌then◌else◌, Bool-cases, Ordering-cases,
}
use peer_to_peer_distributed.OrderedMap.{Ord, Map, same_key, find, put, erase, has, map_values}

module _ {K : Type 0} ⦃o : Ord K⦄ where
  pub same_key_self {ℓ} : {A : Type ℓ} (k : K) (x y : A) → (if same_key k k then x else y) ≡ x
  same_key_self k x y = ground (arith, o.cmp_self k)

module _ {K V : Type 0} ⦃o : Ord K⦄ (k j : K) (v : V) (m : Map K V) where
  -- The three cases of a lookup, by the comparison with the first key.
  pub find_at : o.cmp k j ≡ Ordering.eq → find k ((j, v) ∷ m) ≡ some v
  unfolding find
  find_at h = ground arith

  pub find_before : o.cmp k j ≡ Ordering.lt → find k ((j, v) ∷ m) ≡ find k m
  unfolding find
  find_before h = ground arith

  pub find_past : o.cmp k j ≡ Ordering.gt → find k ((j, v) ∷ m) ≡ find k m
  unfolding find
  find_past h = ground arith

module _ {K V : Type 0} ⦃o : Ord K⦄ where
  pub find-put :
      (k j : K) (v : V) (m : Map K V)
      → find j (put k v m) ≡ (if same_key j k then some v else find j m)
  unfolding find put
  find-put k j v [] = refl
  find-put k j v ((i, w) ∷ m) = ground (
    arith,
    find-put k j v m,
    o.cmp_eq j k,
    o.cmp_eq k i,
    o.cmp_eq j i,
    o.cmp_self j,
    o.cmp_self k,
  )

  pub find-erase :
      (k j : K) (m : Map K V) → find j (erase k m) ≡ (if same_key j k then none else find j m)
  unfolding find erase
  find-erase k j [] = ground arith
  find-erase k j ((i, w) ∷ m) = ground (
    arith,
    find-erase k j m,
    o.cmp_eq j k,
    o.cmp_eq k i,
    o.cmp_eq j i,
    o.cmp_self j,
    o.cmp_self k,
  )

module _ {K V : Type 0} ⦃o : Ord K⦄ where
  -- A predicate of every entry.
  abbrev pub AllEntries {ℓ} : (K → V → Type ℓ) → Map K V → Type ℓ
  AllEntries P [] = Unit
  AllEntries P ((k, v) ∷ m) = P k v × AllEntries P m

module _ {ℓ} {K V : Type 0} ⦃o : Ord K⦄ (P : K → V → Type ℓ) where
  pub find-AllEntries : (k : K) (m : Map K V) {v : V} → AllEntries P m → find k m ≡ some v → P k v
  unfolding find
  find-AllEntries k [] a h = cc
  find-AllEntries k ((j, w) ∷ m) {v} a h = elim (Ordering-cases (o.cmp k j)) [
    | inl lt ↦ find-AllEntries k m a.1 (sym (find_before k j w m lt) ∙ h)
    | inr (inl eq) ↦ subst₂ P (sym (o.cmp_eq k j eq)) (some_eq (sym (find_at k j w m eq) ∙ h)) a.0
    | inr (inr gt) ↦ find-AllEntries k m a.1 (sym (find_past k j w m gt) ∙ h)
  ]

  pub put-AllEntries :
      (k : K) (v : V) (m : Map K V) → AllEntries P m → P k v → AllEntries P (put k v m)
  unfolding put
  put-AllEntries k v [] a p = (p, tt)
  put-AllEntries k v ((j, w) ∷ m) a p = elim (Ordering-cases (o.cmp k j)) [
    | inl lt ↦ rw (lt, put) (p, a)
    | inr (inl eq) ↦ rw (eq, put) (p, a.1)
    | inr (inr gt) ↦ rw (gt, put) (a.0, put-AllEntries k v m a.1 p)
  ]

  pub erase-AllEntries : (k : K) (m : Map K V) → AllEntries P m → AllEntries P (erase k m)
  unfolding erase
  erase-AllEntries k [] a = tt
  erase-AllEntries k ((j, w) ∷ m) a = elim (Bool-cases (same_key k j)) [
    | inl eq ↦ rw eq (erase-AllEntries k m a.1)
    | inr ne ↦ rw ne (a.0, erase-AllEntries k m a.1)
  ]

module _ {ℓ κ} {K V : Type 0} ⦃o : Ord K⦄ (P : K → V → Type ℓ) (Q : K → V → Type κ) where
  pub AllEntries-mono :
      (m : Map K V) → ((k : K) (v : V) → P k v → Q k v) → AllEntries P m → AllEntries Q m
  AllEntries-mono [] f a = tt
  AllEntries-mono ((k, v) ∷ m) f a = (f k v a.0, AllEntries-mono m f a.1)

  pub map_values-AllEntries :
      (g : V → V) (m : Map K V)
      → ((k : K) (v : V) → P k v → Q k (g v))
      → AllEntries P m
      → AllEntries Q (map_values g m)
  unfolding map_values
  map_values-AllEntries g [] f a = tt
  map_values-AllEntries g ((k, v) ∷ m) f a = (f k v a.0, map_values-AllEntries g m f a.1)

module _ {ℓ} {K V : Type 0} ⦃o : Ord K⦄ (P : K → V → Type ℓ) where
  -- What is left after a removal has other keys.
  pub erase_others :
      (i : K) (m : Map K V)
      → AllEntries P m
      → AllEntries (λ k v. P k v × (same_key k i ≡ false)) (erase i m)
  unfolding erase
  erase_others i [] a = tt
  erase_others i ((k, v) ∷ m) a = elim (Bool-cases (same_key i k)) [
    | inl eq ↦ rw eq (erase_others i m a.1)
    | inr ne ↦ rw ne ((a.0, other i k ne), erase_others i m a.1)
  ]
    where
      other : (i k : K) → same_key i k ≡ false → same_key k i ≡ false
      other i k h = ground (arith, o.cmp_eq k i, o.cmp_self i)

module _ {K V : Type 0} ⦃o : Ord K⦄ where
  pub find-map_values :
      (g : V → V) (k : K) (m : Map K V)
      → find k (map_values g m) ≡ elim (find k m) [ none ↦ none | some v ↦ some (g v) ]
  unfolding find map_values
  find-map_values g k [] = refl
  find-map_values g k ((j, w) ∷ m) = ground (arith, find-map_values g k m)

  -- A key that the map has is still there after any write.
  pub has-put : (j k : K) (v : V) (m : Map K V) → has j m ≡ true → has j (put k v m) ≡ true
  has-put j k v m h = ground (arith, find-put k j v m)

  pub has-put_self : (k : K) (v : V) (m : Map K V) → has k (put k v m) ≡ true
  has-put_self k v m = ground (arith, find-put k k v m, o.cmp_self k)
