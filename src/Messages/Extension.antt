-- ===== src/Messages/Extension.antt =====
-- A read that succeeds reads the same from a longer buffer, and leaves the added bytes unread.
use peer_to_peer_distributed.Base.{
  ℕ, zero, suc, ◌≤◌, ◌≡◌, refl, ap, inl, inr, some, [], ◌∷◌, ◌++◌, arith, length, take, drop,
  length-append, Option-cases, some_eq,
}
use peer_to_peer_distributed.Text.{Str}
use peer_to_peer_distributed.Buffer.{
  Reader, ◌>>=◌, pure, get_raw, get_le, le_value, get_u16, get_u32, get_u64, get_str, get_list,
  read_into,
}
use peer_to_peer_distributed.Messages.{get_two, get_upload, get_have}

-- `r` reads the same with more bytes behind.
abbrev pub Extends {ℓ} : {A : Type ℓ} → Reader A → Type ℓ
Extends {A} r =
    (b extra : Str) (a : A) (rest : Str)
    → r b ≡ some (a, rest)
    → r (b ++ extra) ≡ some (a, rest ++ extra)

take-append_le : (n : ℕ) (b extra : Str) → n ≤ length b → take n (b ++ extra) ≡ take n b
take-append_le zero b extra h = refl
take-append_le (suc n) [] extra h = elim h [ ]
take-append_le (suc n) (x ∷ b) extra h = ap (◌∷◌ x) (take-append_le n b extra (omega arith))

drop-append_le : (n : ℕ) (b extra : Str) → n ≤ length b → drop n (b ++ extra) ≡ drop n b ++ extra
drop-append_le zero b extra h = refl
drop-append_le (suc n) [] extra h = elim h [ ]
drop-append_le (suc n) (x ∷ b) extra h = drop-append_le n b extra (omega arith)

get_raw-Extends : (n : ℕ) → Extends (get_raw n)
unfolding get_raw
get_raw-Extends n b extra a rest h =
    ground (arith, take-append_le n b extra, drop-append_le n b extra, length-append b extra)

pure-Extends {ℓ} : {A : Type ℓ} (x : A) → Extends (pure x)
pure-Extends x b extra a rest h = ap (λ p. some (p.0, p.1 ++ extra)) (some_eq h)

>>=-Extends {ℓ κ} :
    {A : Type ℓ} {B : Type κ} (m : Reader A) (f : A → Reader B)
    → Extends m
    → ((a : A) → Extends (f a))
    → Extends (m >>= f)
unfolding ◌>>=◌
>>=-Extends m f em ef b extra c rest h = elim (Option-cases (m b)) [
  | inl e ↦ cc (rw (e, ◌>>=◌) at h)
  | inr ((a, mid), e) ↦ rw (em b extra a mid e, ◌>>=◌) (ef a mid extra c rest (rw (e, ◌>>=◌) at h))
]

get_le-Extends : (w : ℕ) → Extends (get_le w)
unfolding get_le
get_le-Extends w = >>=-Extends _ _ (get_raw-Extends w) (λ bs. pure-Extends (le_value bs))

get_u16-Extends : Extends get_u16
unfolding get_u16
get_u16-Extends = get_le-Extends 2

get_u32-Extends : Extends get_u32
unfolding get_u32
get_u32-Extends = get_le-Extends 4

get_u64-Extends : Extends get_u64
unfolding get_u64
get_u64-Extends = get_le-Extends 8

get_str-Extends : Extends get_str
unfolding get_str
get_str-Extends = >>=-Extends _ _ get_u32-Extends get_raw-Extends

read_into-Extends {ℓ κ} :
    {A : Type ℓ} {S : Type κ} (r : Reader A) (add : A → S → S)
    → Extends r
    → (n : ℕ) (acc : S) → Extends (read_into r add n acc)
unfolding read_into
read_into-Extends r add er zero acc b extra a rest h =
    ap (λ p. some (p.0, p.1 ++ extra)) (some_eq h)
read_into-Extends r add er (suc n) acc b extra c rest h = elim (Option-cases (r b)) [
  | inl e ↦ cc (rw (e, read_into) at h)
  | inr ((a, mid), e) ↦
      rw (er b extra a mid e, read_into)
        (read_into-Extends r add er n (add a acc) mid extra c rest (rw (e, read_into) at h))
]

get_list-Extends {ℓ} : {A : Type ℓ} (r : Reader A) (n : ℕ) → Extends r → Extends (get_list r n)
unfolding get_list
get_list-Extends r n er = read_into-Extends r _ er n []

pub get_two-Extends : Extends get_two
unfolding get_two
get_two-Extends =
    >>=-Extends _ _ get_str-Extends λ a. >>=-Extends _ _ get_str-Extends λ b. pure-Extends (a, b)

pub get_upload-Extends : Extends get_upload
unfolding get_upload
get_upload-Extends = >>=-Extends _ _ get_str-Extends λ gid. >>=-Extends _ _ get_str-Extends λ name.
    >>=-Extends _ _ get_u64-Extends λ size. >>=-Extends _ _ get_str-Extends λ hash.
      >>=-Extends _ _ get_u32-Extends
        λ pc. >>=-Extends _ _ (get_list-Extends get_str pc get_str-Extends) λ hs. pure-Extends _

pub get_have-Extends : Extends get_have
unfolding get_have
get_have-Extends = >>=-Extends _ _ get_str-Extends λ gid. >>=-Extends _ _ get_str-Extends λ fname.
    >>=-Extends _ _ get_u32-Extends
      λ n. >>=-Extends _ _ (get_raw-Extends n) λ bits. pure-Extends (gid, fname, bits)
