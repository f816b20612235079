-- ===== src/Tracker/Snapshot/Entries.antt =====
-- A map or a set that is written with its count, and read back by inserting each element.
use peer_to_peer_distributed.Base.{
  ◌<◌, ◌^◌, ◌≡◌, refl, ap, ◌∙◌, some, List, [], ◌∷◌, ◌++◌, length, All, append_assoc,
}
use peer_to_peer_distributed.Text.{Str, str_ord}
use peer_to_peer_distributed.OrderedMap.{Map, Set, put, insert, keys, values}
use peer_to_peer_distributed.OrderedMap.Lookup.{AllEntries}
use peer_to_peer_distributed.OrderedMap.Order.{IsSorted, put_all, put_all_append}
use peer_to_peer_distributed.Buffer.{Reader, u32_bytes, str_bytes, each_bytes, get_str}
use peer_to_peer_distributed.Buffer.RoundTrip.{
  read_step, read_into-each_bytes, add_all, get_u32-u32_bytes, get_str-str_bytes,
}
use peer_to_peer_distributed.Tracker.Snapshot.{counted, get_counted}

-- A string whose length the 32-bit field can hold.
abbrev pub FitsStr : Str → Type 0
FitsStr s = length s < 2 ^ 32

module _ {ℓ κ η} {A : Type ℓ} {S : Type κ} (r : Reader A) (enc : A → Str) (Fits : A → Type η)
    (back : (x : A) (rest : Str) → Fits x → r (enc x ++ rest) ≡ some (x, rest)) where
  get_counted-counted :
      (add : A → S → S) (empty : S) (xs : List A) (rest : Str)
      → length xs < 2 ^ 32
      → All Fits xs
      → get_counted r add empty (counted enc xs ++ rest) ≡ some (add_all add empty xs, rest)
  unfolding get_counted counted
  get_counted-counted add empty xs rest n h =
      ap (get_counted r add empty) (append_assoc (u32_bytes (length xs)) (each_bytes enc xs) rest)
      ∙ read_step _ _ _ (get_u32-u32_bytes (length xs) (each_bytes enc xs ++ rest) n)
          (read_into-each_bytes r enc Fits back add empty xs rest h)

-- A map in order, with a count that fits, every value at its own key and of a form that fits.
abbrev pub MapFits : {V : Type 0} → (V → Str) → (V → Type 0) → Map Str V → Type 0
MapFits key Fits m =
    IsSorted m × (length (values m) < 2 ^ 32) × AllEntries (λ k v. (key v ≡ k) × Fits v) m

module _ {V : Type 0} (r : Reader V) (enc : V → Str) (key : V → Str) (Fits : V → Type 0)
    (back : (v : V) (rest : Str) → Fits v → r (enc v ++ rest) ≡ some (v, rest)) where
  pub AllEntries-All :
      (m : Map Str V) → AllEntries (λ k v. (key v ≡ k) × Fits v) m → All Fits (values m)
  AllEntries-All [] a = tt
  AllEntries-All ((k, v) ∷ m) a = (a.0.1, AllEntries-All m a.1)

  add_all-values :
      (acc m : Map Str V)
      → AllEntries (λ k v. (key v ≡ k) × Fits v) m
      → add_all (λ v. put (key v) v) acc (values m) ≡ put_all acc m
  unfolding add_all put_all
  add_all-values acc [] a = refl
  add_all-values acc ((k, v) ∷ m) a =
      add_all-values (put (key v) v acc) m a.1 ∙ ap (λ j. put_all (put j v acc) m) a.0.0

  pub get_counted-map :
      (m : Map Str V) (rest : Str)
      → MapFits key Fits m
      → get_counted r (λ v. put (key v) v) [] (counted enc (values m) ++ rest) ≡ some (m, rest)
  get_counted-map m rest (s, n, a) =
      get_counted-counted r enc Fits back (λ v. put (key v) v) [] (values m) rest n
        (AllEntries-All m a)
      ∙ ap (λ x. some (x, rest)) (add_all-values [] m a ∙ put_all_append [] m s)

abbrev pub SetFits : Set Str → Type 0
SetFits m = IsSorted m × (length (keys m) < 2 ^ 32) × All FitsStr (keys m)

add_all-keys : (acc m : Set Str) → add_all insert acc (keys m) ≡ put_all acc m
unfolding add_all put_all
add_all-keys acc [] = refl
add_all-keys acc ((k, u) ∷ m) = add_all-keys (put k u acc) m

pub get_counted-set :
    (m : Set Str) (rest : Str)
    → SetFits m
    → get_counted get_str insert [] (counted str_bytes (keys m) ++ rest) ≡ some (m, rest)
get_counted-set m rest (s, n, a) =
    get_counted-counted get_str str_bytes FitsStr get_str-str_bytes insert [] (keys m) rest n a
    ∙ ap (λ x. some (x, rest)) (add_all-keys [] m ∙ put_all_append [] m s)
