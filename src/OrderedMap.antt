-- ===== src/OrderedMap.antt =====
-- std::map and std::set, which the tracker and the client keep their state in: entries in the order
-- of their keys, one for each key. A set is a map to the unit type. The order of the keys is an
-- interface, since the program has keys of two kinds, strings and (group, file) pairs.
pub mod Lookup
pub mod Order
use peer_to_peer_distributed.Base.{
  ℕ, ◌≡◌, Bool, true, false, Option, none, some, List, [], ◌∷◌, Ordering, is_some, map,
  if◌then◌else◌,
}

-- A strict total order, by a comparison function.
pub record Ord {ℓ} (K : Type ℓ) : Type ℓ where
  pub cmp : K → K → Ordering
  pub cmp_self : (a : K) → cmp a a ≡ Ordering.eq
  pub cmp_eq : (a b : K) → cmp a b ≡ Ordering.eq → a ≡ b
  pub cmp_flip : (a b : K) → cmp a b ≡ Ordering.gt → cmp b a ≡ Ordering.lt
  pub cmp_trans :
      (a b c : K) → cmp a b ≡ Ordering.lt → cmp b c ≡ Ordering.lt → cmp a c ≡ Ordering.lt

abbrev pub Map : Type 0 → Type 0 → Type 0
Map K V = List (K × V)

abbrev pub Set : Type 0 → Type 0
Set K = Map K (Unit {0})

module _ {K : Type 0} ⦃o : Ord K⦄ where
  abbrev pub same_key : K → K → Bool
  same_key a b = elim (o.cmp a b) [ Ordering.eq ↦ true | _ ↦ false ]

  module _ {V : Type 0} where
    -- m.find(k)
    unfoldable pub find : K → Map K V → Option V
    find k [] = none
    find k ((j, v) ∷ m) = if same_key k j then some v else find k m

    -- m[k] = v
    unfoldable pub put : K → V → Map K V → Map K V
    put k v [] = (k, v) ∷ []
    put k v ((j, w) ∷ m) = elim (o.cmp k j) [
      | Ordering.lt ↦ (k, v) ∷ (j, w) ∷ m
      | Ordering.eq ↦ (k, v) ∷ m
      | Ordering.gt ↦ (j, w) ∷ put k v m
    ]

    -- m.erase(k)
    unfoldable pub erase : K → Map K V → Map K V
    erase k [] = []
    erase k ((j, w) ∷ m) = let rest = erase k m in if same_key k j then rest else (j, w) ∷ rest

    -- m.count(k)
    abbrev pub has : K → Map K V → Bool
    has k m = is_some (find k m)

    -- the keys, in the order of iteration
    abbrev pub keys : Map K V → List K
    keys = map (λ e. e.0)

    -- the values, in the order of iteration
    abbrev pub values : Map K V → List V
    values = map (λ e. e.1)

    -- `for (auto& kv : m)` with a write to each `kv.second`
    unfoldable pub map_values : (V → V) → Map K V → Map K V
    map_values f [] = []
    map_values f ((k, v) ∷ m) = (k, f v) ∷ map_values f m

  -- s.insert(k)
  abbrev pub insert : K → Set K → Set K
  insert k s = put k tt s
