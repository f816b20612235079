-- ===== src/Buffer.antt =====
-- common/buffer.hpp and common/buffer.cpp: the serialisation of message payloads.
-- A buffer that is written is the bytes so far, and `put_x v` appends; the model writes `x_bytes v`,
-- the bytes that are appended, so that a row of puts is a concatenation. A buffer that is read is its
-- unread bytes, `__data` from `__rpos` on; `Cursor` has
-- the two fields and their reads.
-- Numbers are copied in the byte order of the host, which is little-endian.
pub mod RoundTrip
pub mod Cursor
use peer_to_peer_distributed.Base.{
  ℕ, zero, suc, ◌+◌, ◌*◌, ◌/◌, ◌%◌, Option, none, some, List, [], ◌∷◌, ◌++◌, ltb, length, take,
  drop, if◌then◌else◌,
}
use peer_to_peer_distributed.Text.{Str}

-- The low `w` bytes of a number, the lowest first.
unfoldable pub le_bytes : ℕ → ℕ → Str
le_bytes zero v = []
le_bytes (suc w) v = v % 256 ∷ le_bytes w (v / 256)

unfoldable pub le_value : Str → ℕ
le_value [] = 0
le_value (b ∷ bs) = b + 256 * le_value bs

-- put_u8, put_u16, put_u32, put_u64; an argument that is wider than its field is cut to it.
unfoldable pub u8_bytes : ℕ → Str
u8_bytes v = le_bytes 1 v

unfoldable pub u16_bytes : ℕ → Str
u16_bytes v = le_bytes 2 v

unfoldable pub u32_bytes : ℕ → Str
u32_bytes v = le_bytes 4 v

unfoldable pub u64_bytes : ℕ → Str
u64_bytes v = le_bytes 8 v

-- put_str: the length as a uint32_t, then the bytes.
unfoldable pub str_bytes : Str → Str
str_bytes s = u32_bytes (length s) ++ s

-- A read that may run past the end, and the unread bytes after it.
abbrev pub Reader {ℓ} : Type ℓ → Type ℓ
Reader A = Str → Option (A × Str)

infixl 5 ◌>>=◌
unfoldable pub ◌>>=◌ {ℓ κ} : {A : Type ℓ} {B : Type κ} → Reader A → (A → Reader B) → Reader B
◌>>=◌ m f b = elim (m b) [ none ↦ none | some (a, rest) ↦ f a rest ]

abbrev pub pure {ℓ} : {A : Type ℓ} → A → Reader A
pure a b = some (a, b)

-- get_raw
unfoldable pub get_raw : ℕ → Reader Str
get_raw n b = if ltb (length b) n then none else some (take n b, drop n b)

unfoldable pub get_le : ℕ → Reader ℕ
get_le w = do bs ← get_raw w; pure (le_value bs)

-- get_u8, get_u16, get_u32, get_u64
unfoldable pub get_u8 : Reader ℕ
get_u8 = get_le 1

unfoldable pub get_u16 : Reader ℕ
get_u16 = get_le 2

unfoldable pub get_u32 : Reader ℕ
get_u32 = get_le 4

unfoldable pub get_u64 : Reader ℕ
get_u64 = get_le 8

-- get_str
unfoldable pub get_str : Reader Str
get_str = do n ← get_u32; get_raw n

-- `for (i = 0; i < n; i++) { read one item; add it to acc }`, which stops at a failed read.
unfoldable pub read_into {ℓ κ} :
    {A : Type ℓ} {S : Type κ} → Reader A → (A → S → S) → ℕ → S → Reader S
read_into r add zero acc b = some (acc, b)
read_into r add (suc n) acc b = elim (r b) [
  | none ↦ none
  | some (a, rest) ↦ read_into r add n (add a acc) rest
]

-- `v.resize(n)` and a read of each element.
unfoldable pub get_list {ℓ} : {A : Type ℓ} → Reader A → ℕ → Reader (List A)
get_list r n = read_into r (λ a acc. acc ++ a ∷ []) n []

-- The writes of a loop over the elements.
unfoldable pub each_bytes {ℓ} : {A : Type ℓ} → (A → Str) → List A → Str
each_bytes enc [] = []
each_bytes enc (x ∷ xs) = enc x ++ each_bytes enc xs
