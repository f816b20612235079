-- ===== src/Buffer/Cursor.antt =====
-- common/buffer.hpp: the two fields of a Buffer, and the reads on them as the source has them. A read
-- with the read position is the read of the unread bytes that the other modules use.
use peer_to_peer_distributed.Base.{
  ℕ, ◌+◌, ◌-◌, ◌≡◌, refl, sym, inl, inr, none, some, Option, ltb, length, take, drop, drop-drop,
  length-drop, Bool-cases, if◌then◌else◌,
}
use peer_to_peer_distributed.Text.{Str}
use peer_to_peer_distributed.Buffer.{◌>>=◌, pure, le_value, get_raw, get_le, get_u32, get_str}

pub record Cursor : Type 0 where
  pub bytes : Str
  pub rpos : ℕ

abbrev pub remaining : Cursor → ℕ
remaining c = length c.bytes - c.rpos

abbrev pub unread : Cursor → Str
unread c = drop c.rpos c.bytes

-- Buffer::get_raw: the bytes and the buffer after the read, or nothing.
unfoldable pub cursor_raw : ℕ → Cursor → Option (Str × Cursor)
cursor_raw n c =
    if ltb (remaining c) n then none else some (take n (unread c), record c { rpos = c.rpos + n })

unfoldable pub cursor_u32 : Cursor → Option (ℕ × Cursor)
unfolding cursor_raw
cursor_u32 c = elim (cursor_raw 4 c) [ none ↦ none | some (bs, c') ↦ some (le_value bs, c') ]

-- Buffer::get_str
unfoldable pub cursor_str : Cursor → Option (Str × Cursor)
unfolding cursor_raw cursor_u32
cursor_str c = elim (cursor_u32 c) [
  | none ↦ none
  | some (n, c') ↦
      if ltb (remaining c') n
      then none
      else some (take n (unread c'), record c' { rpos = c'.rpos + n })
]

-- What a read has in common with the read of the unread bytes: the same value or the same refusal, and
-- the same bytes left.
abbrev pub forget {ℓ} : {A : Type ℓ} → Option (A × Cursor) → Option (A × Str)
forget none = none
forget (some (a, c)) = some (a, unread c)

pub cursor_raw-get_raw : (n : ℕ) (c : Cursor) → forget (cursor_raw n c) ≡ get_raw n (unread c)
unfolding cursor_raw get_raw
cursor_raw-get_raw n c = elim (Bool-cases (ltb (remaining c) n)) [
  | inl e ↦ rw (e, length-drop c.rpos c.bytes, e) refl
  | inr e ↦ rw (e, length-drop c.rpos c.bytes, e, drop-drop n c.rpos c.bytes) refl
]

-- A read that follows another.
then_read {ℓ κ} :
    {A : Type ℓ} {B : Type κ}
    → Option (A × Cursor)
    → (A → Cursor → Option (B × Cursor))
    → Option (B × Cursor)
then_read o f = elim o [ none ↦ none | some (a, c) ↦ f a c ]

forget-then_read {ℓ κ} :
    {A : Type ℓ} {B : Type κ} (o : Option (A × Cursor)) (f : A → Cursor → Option (B × Cursor))
    (bs : Str) (r : Str → Option (A × Str)) (g : A → Str → Option (B × Str))
    → forget o ≡ r bs
    → ((a : A) (c : Cursor) → forget (f a c) ≡ g a (unread c))
    → forget (then_read o f) ≡ (r >>= g) bs
unfolding then_read ◌>>=◌
forget-then_read none f bs r g h k = rw (sym h, ◌>>=◌) refl
forget-then_read (some (a, c)) f bs r g h k = rw (sym h, ◌>>=◌) (k a c)

cursor_u32-get_u32 : (c : Cursor) → forget (cursor_u32 c) ≡ get_u32 (unread c)
unfolding cursor_u32 get_u32 get_le then_read
cursor_u32-get_u32 c =
    forget-then_read (cursor_raw 4 c) (λ bs c'. some (le_value bs, c')) (unread c) (get_raw 4)
      (λ bs. pure (le_value bs)) (cursor_raw-get_raw 4 c) (λ bs c'. refl)

-- A string that is read with the read position is the one that is read from the unread bytes, with the
-- same bytes left; and the one read fails when the other does.
pub cursor_str-get_str : (c : Cursor) → forget (cursor_str c) ≡ get_str (unread c)
unfolding cursor_str cursor_raw get_str then_read
cursor_str-get_str c =
    forget-then_read (cursor_u32 c) cursor_raw (unread c) get_u32 get_raw (cursor_u32-get_u32 c)
      cursor_raw-get_raw
