-- ===== src/Buffer/RoundTrip.antt =====
-- Each `get_x` reads back what `put_x` wrote, and leaves the bytes behind it unread.
use peer_to_peer_distributed.Base.{
  Option, ℕ, zero, suc, ◌/◌, ◌^◌, ◌<◌, ◌≡◌, refl, ap, sym, ◌∙◌, some, List, [], ◌∷◌, ◌++◌, arith,
  length, length-append, take-append, drop-append, append_assoc, append-nil, All, ge→ltb,
}
use peer_to_peer_distributed.Text.{Str}
use peer_to_peer_distributed.Buffer.{
  le_bytes, le_value, u8_bytes, u16_bytes, u32_bytes, u64_bytes, str_bytes, Reader, ◌>>=◌, get_raw,
  get_le, get_u8, get_u16, get_u32, get_u64, get_str, read_into, get_list, each_bytes,
}
use native.Mathlib.Nat.{pow-suc}

pub length-le_bytes : (w v : ℕ) → length (le_bytes w v) ≡ w
unfolding le_bytes
length-le_bytes zero v = refl
length-le_bytes (suc w) v = ap suc (length-le_bytes w (v / 256))

pub le_value-le_bytes : (w v : ℕ) → v < 256 ^ w → le_value (le_bytes w v) ≡ v
unfolding le_bytes le_value
le_value-le_bytes zero v h = omega arith
le_value-le_bytes (suc w) v h = omega (arith, le_value-le_bytes w (v / 256) (quotient_fits w v h))
  where
    quotient_fits : (w v : ℕ) → v < 256 ^ suc w → v / 256 < 256 ^ w
    quotient_fits w v h = omega (arith, pow-suc 256 w)

pub get_raw-append : (xs rest : Str) → get_raw (length xs) (xs ++ rest) ≡ some (xs, rest)
unfolding get_raw
get_raw-append xs rest = rw (
  ge→ltb (length (xs ++ rest)) (length xs) (omega (arith, length-append xs rest)),
  take-append,
  drop-append,
)

-- One step of a chain of reads.
pub read_step {ℓ κ} :
    {A : Type ℓ} {B : Type κ} (m : Reader A) (f : A → Reader B) (b : Str) {a : A} {rest : Str}
    {r : Option (B × Str)}
    → m b ≡ some (a, rest)
    → f a rest ≡ r
    → (m >>= f) b ≡ r
unfolding ◌>>=◌
read_step m f b e k = rw (e, ◌>>=◌) k

get_le-le_bytes :
    (w v : ℕ) (rest : Str) → v < 256 ^ w → get_le w (le_bytes w v ++ rest) ≡ some (v, rest)
unfolding get_le
get_le-le_bytes w v rest h =
    let raw = get_raw-append (le_bytes w v) rest in
    let exact = (rw (length-le_bytes w v) at raw) in
    read_step _ _ _ exact (ap (λ n. some (n, rest)) (le_value-le_bytes w v h))

pub get_u8-u8_bytes :
    (v : ℕ) (rest : Str) → v < 2 ^ 8 → get_u8 (u8_bytes v ++ rest) ≡ some (v, rest)
unfolding get_u8 u8_bytes
get_u8-u8_bytes v rest h = get_le-le_bytes 1 v rest h

pub get_u16-u16_bytes :
    (v : ℕ) (rest : Str) → v < 2 ^ 16 → get_u16 (u16_bytes v ++ rest) ≡ some (v, rest)
unfolding get_u16 u16_bytes
get_u16-u16_bytes v rest h = get_le-le_bytes 2 v rest h

pub get_u32-u32_bytes :
    (v : ℕ) (rest : Str) → v < 2 ^ 32 → get_u32 (u32_bytes v ++ rest) ≡ some (v, rest)
unfolding get_u32 u32_bytes
get_u32-u32_bytes v rest h = get_le-le_bytes 4 v rest h

pub get_u64-u64_bytes :
    (v : ℕ) (rest : Str) → v < 2 ^ 64 → get_u64 (u64_bytes v ++ rest) ≡ some (v, rest)
unfolding get_u64 u64_bytes
get_u64-u64_bytes v rest h = get_le-le_bytes 8 v rest h

-- A string shorter than 2 ^ 32 bytes is read back as it was written, and what follows it stays unread.
pub get_str-str_bytes :
    (s rest : Str) → length s < 2 ^ 32 → get_str (str_bytes s ++ rest) ≡ some (s, rest)
unfolding get_str str_bytes
get_str-str_bytes s rest h =
    rw (append_assoc (u32_bytes (length s)) s rest)
      (read_step _ _ _ (get_u32-u32_bytes (length s) (s ++ rest) h) (get_raw-append s rest))

-- What a loop of reads has gathered after it read the elements of a list.
unfoldable pub add_all {ℓ κ} : {A : Type ℓ} {S : Type κ} → (A → S → S) → S → List A → S
add_all add acc [] = acc
add_all add acc (x ∷ xs) = add_all add (add x acc) xs

module _ {ℓ κ η} {A : Type ℓ} {S : Type κ} (r : Reader A) (enc : A → Str) (Fits : A → Type η)
    (back : (x : A) (rest : Str) → Fits x → r (enc x ++ rest) ≡ some (x, rest)) where
  pub read_into-each_bytes :
      (add : A → S → S) (acc : S) (xs : List A) (rest : Str)
      → All Fits xs
      → read_into r add (length xs) acc (each_bytes enc xs ++ rest)
        ≡ some (add_all add acc xs, rest)
  unfolding read_into each_bytes add_all
  read_into-each_bytes add acc [] rest h = refl
  read_into-each_bytes add acc (x ∷ xs) rest h =
      rw (append_assoc (enc x) (each_bytes enc xs) rest) (
        rw (back x (each_bytes enc xs ++ rest) h.0, read_into)
          (read_into-each_bytes add (add x acc) xs rest h.1))

add_all-push {ℓ} :
    {A : Type ℓ} (acc xs : List A) → add_all (λ a acc. acc ++ a ∷ []) acc xs ≡ acc ++ xs
unfolding add_all
add_all-push acc [] = sym (append-nil acc)
add_all-push acc (x ∷ xs) = add_all-push (acc ++ x ∷ []) xs ∙ append_assoc acc (x ∷ []) xs

module _ {ℓ η} {A : Type ℓ} (r : Reader A) (enc : A → Str) (Fits : A → Type η)
    (back : (x : A) (rest : Str) → Fits x → r (enc x ++ rest) ≡ some (x, rest)) where
  pub get_list-each_bytes :
      (xs : List A) (rest : Str)
      → All Fits xs
      → get_list r (length xs) (each_bytes enc xs ++ rest) ≡ some (xs, rest)
  unfolding get_list
  get_list-each_bytes xs rest h =
      read_into-each_bytes r enc Fits back (λ a acc. acc ++ a ∷ []) [] xs rest h
      ∙ ap (λ l. some (l, rest)) (add_all-push [] xs)
