-- ===== src/Base/Slots.antt =====
-- A list of slots: one is read with a default behind the end, and one is set.
use Prim.Native.Nat.{ℕ, zero, suc, ◌<◌}
use mathlib.Core.Path.{◌≡◌, refl, subst, ap}
use mathlib.Core.Bool.{false}
use mathlib.Core.Logic.{◌⊎◌, inl, inr}
use mathlib.Core.List.{List, [], ◌∷◌}
use native.Mathlib.Omega.{arith}
use peer_to_peer_distributed.Base.Tests.{◌==◌, ==_iff, Bool-cases}
use peer_to_peer_distributed.Base.Lists.{length}

module _ {ℓ} {A : Type ℓ} where
  abbrev pub slot_at : A → List A → ℕ → A
  slot_at a [] i = a
  slot_at a (x ∷ xs) zero = x
  slot_at a (x ∷ xs) (suc i) = slot_at a xs i

  abbrev pub set_at : ℕ → A → List A → List A
  set_at i a [] = []
  set_at zero a (x ∷ xs) = a ∷ xs
  set_at (suc i) a (x ∷ xs) = x ∷ set_at i a xs

  pub slot_at-set_at :
      (d : A) (i : ℕ) (a : A) (xs : List A) → i < length xs → slot_at d (set_at i a xs) i ≡ a
  slot_at-set_at d i a [] l = elim l [ ]
  slot_at-set_at d zero a (x ∷ xs) l = refl
  slot_at-set_at d (suc i) a (x ∷ xs) l = slot_at-set_at d i a xs (omega (arith, l))

  pub other_at :
      (d : A) (i j : ℕ) (a : A) (xs : List A)
      → (i == j) ≡ false
      → slot_at d (set_at i a xs) j ≡ slot_at d xs j
  other_at d i j a [] e = refl
  other_at d zero zero a (x ∷ xs) e = cc
  other_at d zero (suc j) a (x ∷ xs) e = refl
  other_at d (suc i) zero a (x ∷ xs) e = refl
  other_at d (suc i) (suc j) a (x ∷ xs) e = other_at d i j a xs (ground (arith, e))

  -- The slot that was set, or another one as it was.
  pub after_set_at :
      (d : A) (i j : ℕ) (a : A) (xs : List A)
      → i < length xs
      → ((i ≡ j) × (slot_at d (set_at i a xs) j ≡ a))
        ⊎ (slot_at d (set_at i a xs) j ≡ slot_at d xs j)
  after_set_at d i j a xs l = elim (Bool-cases (i == j)) [
    | inl e ↦
        let same : i ≡ j = (==_iff i j).0 e in
        inl (same, subst (λ x. slot_at d (set_at i a xs) x ≡ a) same (slot_at-set_at d i a xs l))
    | inr e ↦ inr (other_at d i j a xs e)
  ]

  pub length-set_at : (i : ℕ) (a : A) (xs : List A) → length (set_at i a xs) ≡ length xs
  length-set_at i a [] = refl
  length-set_at zero a (x ∷ xs) = refl
  length-set_at (suc i) a (x ∷ xs) = ap suc (length-set_at i a xs)
