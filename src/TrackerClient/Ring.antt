-- ===== src/TrackerClient/Ring.antt =====
-- The search for a tracker that accepts a connection goes once around all of them.
use native.Mathlib.Nat.{mod-lt, mod-add-mod, mod-eq_of_lt, add-mod_right}
use peer_to_peer_distributed.Base.{
  ℕ, zero, suc, ◌+◌, ◌-◌, ◌%◌, ◌<◌, ◌≡◌, refl, sym, ◌∙◌, ap, ◌⊎◌, inl, inr, Bool, true, false,
  Option, some, arith, Bool-cases, ltb, ◌==◌, ==_iff,
}
use peer_to_peer_distributed.TrackerClient.{first_up}

-- The trackers that accept a connection are tried.
Found : (ℕ → Bool) → ℕ → Option ℕ → Type 0
Found accepts n o = (idx : ℕ) × ((o ≡ some idx) × (idx < n) × (accepts idx ≡ true))

first_up_from :
    (accepts : ℕ → Bool) (base n left j : ℕ)
    → zero < n
    → j < left
    → accepts ((base + (n - suc j)) % n) ≡ true
    → Found accepts n (first_up accepts base n left)
unfolding first_up Found
first_up_from accepts base n zero j p l h = elim l [ ]
first_up_from accepts base n (suc left) j p l h =
    elim (Bool-cases (accepts ((base + (n - suc left)) % n))) [
      | inl e ↦ rw e ((base + (n - suc left)) % n, (refl, mod-lt (base + (n - suc left)) p, e))
      | inr e ↦ rw e (first_up_from accepts base n left j p (earlier (Bool-cases (j == left)) e) h)
    ]
  where
    earlier :
        ((j == left) ≡ true) ⊎ ((j == left) ≡ false)
        → accepts ((base + (n - suc left)) % n) ≡ false
        → j < left
    earlier (inl q) e =
        let same : accepts ((base + (n - suc j)) % n) ≡ accepts ((base + (n - suc left)) % n) =
          ap (λ x. accepts ((base + (n - suc x)) % n)) ((==_iff j left).0 q) in
        cc
    earlier (inr q) e = ground (arith, l, q)

-- How far around the ring `k` is.
ring : (base n k : ℕ) → k < n → (i : ℕ) × ((i < n) × ((base + i) % n ≡ k))
ring base n k h = elim (Bool-cases (ltb k (base % n))) [
  | inl e ↦
      let m = base % n in
      let below : m < n = mod-lt base (omega (arith, h)) in
      let around : m + (k + n - m) ≡ k + n = omega (arith, below) in
      (
        k + n - m,
        (
          ground (arith, e, h),
          sym (mod-add-mod base n (k + n - m))
              ∙ ap (λ x. x % n) around
              ∙ add-mod_right k n
              ∙ mod-eq_of_lt h,
        ),
      )
  | inr e ↦
      let m = base % n in
      let there : m + (k - m) ≡ k = ground (arith, e) in
      (
        k - m,
        (
          omega (arith, h),
          sym (mod-add-mod base n (k - m)) ∙ ap (λ x. x % n) there ∙ mod-eq_of_lt h,
        ),
      )
]

-- Wherever the search starts, it finds a tracker that accepts if there is one.
pub first_up_found :
    (accepts : ℕ → Bool) (base n k : ℕ)
    → k < n
    → accepts k ≡ true
    → (idx : ℕ) × ((first_up accepts base n n ≡ some idx) × (idx < n) × (accepts idx ≡ true))
unfolding Found
first_up_found accepts base n k l h =
    let (i, (inside, e)) = ring base n k l in
    let back : n - suc (n - suc i) ≡ i = omega (arith, inside) in
    first_up_from accepts base n n (n - suc i) (omega (arith, l)) (omega (arith, inside))
      (ap (λ x. accepts ((base + x) % n)) back ∙ ap accepts e ∙ h)
