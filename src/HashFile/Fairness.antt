-- ===== src/HashFile/Fairness.antt =====
-- How many moves the threads of hash_file have left.
use peer_to_peer_distributed.Base.{
  ℕ, zero, suc, ◌+◌, ◌-◌, ◌*◌, ◌%◌, ◌^◌, ◌<◌, ◌≤◌, ◌≡◌, ◌≢◌, refl, sym, ◌∙◌, ap, subst, Bool, true,
  false, List, [], ◌∷◌, arith, length, ltb, ◌==◌, if_cases, if◌then◌else◌, All,
}
use peer_to_peer_distributed.Net.{Answer}
use peer_to_peer_distributed.PieceStore.{Contents}
use peer_to_peer_distributed.PieceStore.Transfer.{IsMove, read_loop-read_bytes}
use peer_to_peer_distributed.HashFile.{
  Hasher, Hashing, hasher_at, set_hasher, pieces_in, part_len, end_reading, hash_move,
}
use peer_to_peer_distributed.HashFile.Slots.{in_range, returned_count_moved}
use peer_to_peer_distributed.HashFile.Claims.{Claimed}

-- How many moves a thread makes before it is back at the counter, or returned.
abbrev pub moves_of : Hasher → ℕ
moves_of Hasher.looking = 2
moves_of Hasher.pulling = 1
moves_of (Hasher.reading i) = 3
moves_of Hasher.returned = 0

abbrev pub moves_of_all : List Hasher → ℕ
moves_of_all [] = 0
moves_of_all (h ∷ hs) = moves_of h + moves_of_all hs

moves_of_all-set_hasher :
    (w : ℕ) (g h : Hasher) (hs : List Hasher)
    → hasher_at hs w ≡ g
    → w < length hs
    → moves_of_all (set_hasher w h hs) + moves_of g ≡ moves_of_all hs + moves_of h
moves_of_all-set_hasher w g h [] e l = elim l [ ]
moves_of_all-set_hasher zero g h (k ∷ hs) e l = omega (arith, ap moves_of e)
moves_of_all-set_hasher (suc w) g h (k ∷ hs) e l =
    omega (arith, moves_of_all-set_hasher w g h hs e (omega (arith, l)))

-- An answer for each byte that a piece may have, and each moves something.
abbrev pub IsServed : ℕ → ℕ × List Answer → Type 0
IsServed ps (w, answers) = (All IsMove answers) × (ps ≤ length answers)

-- A thread is named in a schedule.
abbrev pub moves_in : ℕ → List (ℕ × List Answer) → Bool
moves_in w [] = false
moves_in w ((v, answers) ∷ schedule) = if v == w then true else moves_in w schedule

module _ (ps : ℕ) (file : Contents) (size n : ℕ) (few : pieces_in ps size + n < 2 ^ 32) where
  abbrev pub moves_left : Hashing → ℕ
  moves_left r = 3 * (pieces_in ps size - r.next) + moves_of_all r.hashers

  -- A thread that has not returned makes one of the moves that are left, and none fails.
  pub hash_move-moves_left :
      (w : ℕ) (answers : List Answer) (g : Hasher) (r : Hashing)
      → hasher_at r.hashers w ≡ g
      → g ≢ Hasher.returned
      → IsServed ps (w, answers)
      → Claimed ps file size n r
      → r.failed ≡ false
      → (moves_left (hash_move ps file size w answers g r) + 1 ≤ moves_left r)
        × ((hash_move ps file size w answers g r).failed ≡ false)
  unfolding hash_move
  hash_move-moves_left w answers Hasher.looking r at moves served v fine =
      if_cases
        (λ h.
          (3 * (pieces_in ps size - r.next) + moves_of_all (set_hasher w h r.hashers) + 1
            ≤ moves_left r)
          × (r.failed ≡ false))
        r.failed _ _ (λ e. cc)
        λ e. (
          omega (
            arith,
            moves_of_all-set_hasher w Hasher.looking Hasher.pulling r.hashers at
                (in_range w r.hashers (λ k. moves (sym at ∙ k))),
          ),
          fine,
        )
  hash_move-moves_left w answers Hasher.pulling r at moves served v fine =
      let there = in_range w r.hashers (λ k. moves (sym at ∙ k)) in
      let whole : (r.next + 1) % 2 ^ 32 ≡ r.next + 1 = omega (
        arith,
        few,
        v.counter,
        v.threads,
        (returned_count_moved w Hasher.pulling Hasher.looking r.hashers at (λ e. cc)).1,
      ) in
      (
        if_cases
            (λ h.
              3 * (pieces_in ps size - (r.next + 1) % 2 ^ 32)
                + moves_of_all (set_hasher w h r.hashers)
                + 1
              ≤ moves_left r)
            (ltb r.next (pieces_in ps size)) _ _
            (λ e.
              let below : r.next < pieces_in ps size = ground (arith, e) in
              omega (
                arith,
                whole,
                below,
                moves_of_all-set_hasher w Hasher.pulling (Hasher.reading r.next) r.hashers at there,
              ))
            λ e. omega (
              arith,
              whole,
              moves_of_all-set_hasher w Hasher.pulling Hasher.returned r.hashers at there,
            ),
        fine,
      )
  hash_move-moves_left w answers (Hasher.reading i) r at moves served v fine =
      let there = in_range w r.hashers (λ k. moves (sym at ∙ k)) in
      let read =
        read_loop-read_bytes answers (i * ps) (part_len ps size i) file served.0
          (omega (arith, served.1)) in
      subst
        (λ p.
          (moves_left (end_reading w i p r) + 1 ≤ moves_left r)
          × ((end_reading w i p r).failed ≡ false))
        (sym read)
        (
          omega (
            arith,
            moves_of_all-set_hasher w (Hasher.reading i) Hasher.looking r.hashers at there,
          ),
          fine,
        )
  hash_move-moves_left w answers Hasher.returned r at moves served v fine = absurd (moves refl)
