-- ===== src/HashFile/Ending.antt =====
-- Rounds in which every thread of hash_file moves, and what it returns after enough of them.
use peer_to_peer_distributed.Base.{
  ℕ, suc, ◌+◌, ◌^◌, ◌<◌, ◌≤◌, ◌≡◌, ◌≢◌, refl, sym, ◌∙◌, ap, subst, ◌⊎◌, inl, inr, true, false, List,
  [], ◌∷◌, ◌++◌, arith, length, ◌==◌, ==_iff, Bool-cases, if_cases, All,
}
use peer_to_peer_distributed.Net.{Answer}
use peer_to_peer_distributed.PieceStore.{Contents}
use peer_to_peer_distributed.HashFile.{
  Hasher, Hashing, hasher_at, all_returned, pieces_in, hash_move, run_hashers,
}
use peer_to_peer_distributed.HashFile.Slots.{all_returned_at, in_range}
use peer_to_peer_distributed.HashFile.Claims.{Claimed}
use peer_to_peer_distributed.HashFile.Reference.{hash_move-Claimed}
use peer_to_peer_distributed.HashFile.Fairness.{
  IsServed, moves_in, moves_of_all, moves_left, hash_move-moves_left,
}

abbrev pub Turns : Type 0
Turns = List (ℕ × List Answer)

abbrev pub in_turn : List Turns → Turns
in_turn [] = []
in_turn (round ∷ rounds) = round ++ in_turn rounds

-- A round names each of the threads.
abbrev pub IsRound : ℕ → Turns → Type 0
IsRound n round = (w : ℕ) → w < n → moves_in w round ≡ true

still_running :
    (hs : List Hasher) → all_returned hs ≡ false → (w : ℕ) × (hasher_at hs w ≢ Hasher.returned)
still_running [] e = cc
still_running (Hasher.returned ∷ hs) e = let (w, k) = still_running hs e in (suc w, k)
still_running (Hasher.looking ∷ hs) e = (0, λ k. cc)
still_running (Hasher.pulling ∷ hs) e = (0, λ k. cc)
still_running (Hasher.reading i ∷ hs) e = (0, λ k. cc)

no_moves : (hs : List Hasher) → moves_of_all hs ≡ 0 → all_returned hs ≡ true
no_moves [] e = refl
no_moves (Hasher.returned ∷ hs) e = no_moves hs (omega (arith, e))
no_moves (Hasher.looking ∷ hs) e = absurd (omega (arith, e))
no_moves (Hasher.pulling ∷ hs) e = absurd (omega (arith, e))
no_moves (Hasher.reading i ∷ hs) e = absurd (omega (arith, e))

is_returned_or : (h : Hasher) → (h ≡ Hasher.returned) ⊎ (h ≢ Hasher.returned)
is_returned_or Hasher.returned = inl refl
is_returned_or Hasher.looking = inr (λ k. cc)
is_returned_or Hasher.pulling = inr (λ k. cc)
is_returned_or (Hasher.reading i) = inr (λ k. cc)

module _ (ps : ℕ) (file : Contents) (size n : ℕ) (few : pieces_in ps size + n < 2 ^ 32) where
  abbrev left : Hashing → ℕ
  left r = moves_left ps file size n few r

  -- The claims hold and no read has failed.
  pub record Sound (r : Hashing) : Type 0 where
    pub claims : Claimed ps file size n r
    pub fine : r.failed ≡ false

  abbrev moved : ℕ → List Answer → Hashing → Hashing
  moved w answers r = hash_move ps file size w answers (hasher_at r.hashers w) r

  rests :
      (w : ℕ) (answers : List Answer) (r : Hashing)
      → hasher_at r.hashers w ≡ Hasher.returned
      → moved w answers r ≡ r
  unfolding hash_move
  rests w answers r e = ap (λ g. hash_move ps file size w answers g r) e

  move-Sound :
      (w : ℕ) (answers : List Answer) (r : Hashing)
      → IsServed ps (w, answers)
      → Sound r
      → Sound (moved w answers r)
        × (left (moved w answers r) ≤ left r)
        × (hasher_at r.hashers w ≢ Hasher.returned → left (moved w answers r) + 1 ≤ left r)
  move-Sound w answers r served v = elim (is_returned_or (hasher_at r.hashers w)) [
    | inl e ↦ (
      subst Sound (sym (rests w answers r e)) v,
      omega (arith, ap left (rests w answers r e)),
      λ k. absurd (k e),
    )
    | inr k ↦
        let (less, fine) =
          hash_move-moves_left ps file size n few w answers (hasher_at r.hashers w) r refl k served
            v.claims v.fine in
        (
          record {
            claims =
                hash_move-Claimed ps file size n w answers (hasher_at r.hashers w) r refl few
                  v.claims;
            fine = fine;
          },
          omega (arith, less),
          λ _. less,
        )
  ]

  -- A schedule that names a thread which has not returned makes progress.
  run-Sound :
      (schedule : Turns) (r : Hashing)
      → All (IsServed ps) schedule
      → Sound r
      → Sound (run_hashers ps file size schedule r)
        × (left (run_hashers ps file size schedule r) ≤ left r)
        × ((w : ℕ)
            → hasher_at r.hashers w ≢ Hasher.returned
            → moves_in w schedule ≡ true
            → left (run_hashers ps file size schedule r) + 1 ≤ left r)
  unfolding run_hashers
  run-Sound [] r served v = (v, omega arith, λ w k e. cc)
  run-Sound ((u, answers) ∷ schedule) r served v =
      let (sound, bound, strict) = move-Sound u answers r served.0 v in
      let (after, lower, named) = run-Sound schedule (moved u answers r) served.1 sound in
      (
        after,
        omega (arith, bound, lower),
        λ w k e. elim (is_returned_or (hasher_at r.hashers u)) [
          | inl stays ↦
              let same = rests u answers r stays in
              let others : moves_in w schedule ≡ true =
                if_cases (λ b. b ≡ true → moves_in w schedule ≡ true) (u == w) _ _
                  (λ q _. absurd (k (ap (hasher_at r.hashers) (sym ((==_iff u w).0 q)) ∙ stays)))
                  (λ _ p. p) e in
              omega (
                arith,
                bound,
                named w (λ p. k (sym (ap (λ x. hasher_at x.hashers w) same) ∙ p)) others,
              )
          | inr going ↦ omega (arith, strict going, lower)
        ],
      )

  all_rest :
      (schedule : Turns) (r : Hashing)
      → all_returned r.hashers ≡ true
      → run_hashers ps file size schedule r ≡ r
  unfolding run_hashers
  all_rest [] r e = refl
  all_rest ((w, answers) ∷ schedule) r e =
      ap (run_hashers ps file size schedule) (rests w answers r (all_returned_at r.hashers w e))
      ∙ all_rest schedule r e

  run_hashers-append :
      (first second : Turns) (r : Hashing)
      → run_hashers ps file size (first ++ second) r
        ≡ run_hashers ps file size second (run_hashers ps file size first r)
  unfolding run_hashers
  run_hashers-append [] second r = refl
  run_hashers-append ((w, answers) ∷ first) second r =
      run_hashers-append first second (moved w answers r)

  -- After as many rounds as there are moves left, all threads have returned, and no read has failed.
  pub rounds_end :
      (rounds : List Turns) (r : Hashing)
      → All (IsRound n) rounds
      → All (All (IsServed ps)) rounds
      → Sound r
      → left r ≤ length rounds
      → Sound (run_hashers ps file size (in_turn rounds) r)
        × (all_returned (run_hashers ps file size (in_turn rounds) r).hashers ≡ true)
  unfolding run_hashers
  rounds_end [] r all served v l = (v, no_moves r.hashers (omega (arith, l)))
  rounds_end (round ∷ rounds) r all served v l =
      let (after, lower, named) = run-Sound round r served.0 v in
      subst (λ x. Sound x × (all_returned x.hashers ≡ true))
        (sym (run_hashers-append round (in_turn rounds) r))
        (elim (Bool-cases (all_returned r.hashers)) [
          | inl e ↦
              let stays : run_hashers ps file size (in_turn rounds)
                    (run_hashers ps file size round r)
                  ≡ r =
                ap (run_hashers ps file size (in_turn rounds)) (all_rest round r e)
                ∙ all_rest (in_turn rounds) r e in
              subst (λ x. Sound x × (all_returned x.hashers ≡ true)) (sym stays) (v, e)
          | inr e ↦
              let (w, k) = still_running r.hashers e in
              rounds_end rounds (run_hashers ps file size round r) all.1 served.1 after (
                omega (
                  arith,
                  l,
                  named w k (all.0 w (omega (arith, in_range w r.hashers k, v.claims.threads))),
                ))
        ])
