-- ===== src/Download/Job/Start.antt =====
-- The queue and the workers at the start of a round.
use peer_to_peer_distributed.Base.{
  ℕ, zero, suc, ◌+◌, ◌*◌, ◌<◌, ◌≤◌, ◌≡◌, refl, sym, ◌∙◌, ap, subst, inl, inr, Bool, false, List,
  ◌∷◌, arith, length, leb, ◌==◌, ==_iff, All, Bool-cases, if_cases,
}
use peer_to_peer_distributed.Text.{Str}
use peer_to_peer_distributed.PieceStore.{PieceStore, marked, has_piece}
use peer_to_peer_distributed.PieceStore.Verified.{StoreValid}
use peer_to_peer_distributed.Download.Peers.{PeerAddr}
use peer_to_peer_distributed.Download.Workers.{Round}
use peer_to_peer_distributed.Download.Workers.Places.{bit, occurs, holds, held, IsPatient}
use peer_to_peer_distributed.Download.Workers.Accounted.{Covers, Accounted}
use peer_to_peer_distributed.Download.Job.{missing, start_workers, start_round, conns_per_peer}

has_piece_below : (s : PieceStore) (i : ℕ) → i < s.piece_count → has_piece s i ≡ marked s.have i
unfolding has_piece
has_piece_below s i h =
    if_cases (λ b. b ≡ marked s.have i) (leb s.piece_count i) _ _ (λ e. absurd (ground (arith, e)))
      (λ _. refl)

missing_above : (n : ℕ) (s : PieceStore) (i : ℕ) → n ≤ i → occurs i (missing n s) ≡ 0
unfolding missing
missing_above zero s i h = refl
missing_above (suc n) s i h =
    if_cases (λ q. occurs i q ≡ 0) (has_piece s n) _ _ (λ _. missing_above n s i (omega (arith, h)))
      (λ _. omega (arith, missing_above n s i (omega (arith, h)), ap bit (differ h)))
  where
    differ : suc n ≤ i → (n == i) ≡ false
    differ l = ground (arith, l)

missing_below :
    (n : ℕ) (s : PieceStore) (i : ℕ)
    → n ≤ s.piece_count
    → i < n
    → occurs i (missing n s) + bit (marked s.have i) ≡ 1
unfolding missing
missing_below zero s i l h = elim h [ ]
missing_below (suc n) s i l h = elim (Bool-cases (n == i)) [
  | inl q ↦
      let e : n ≡ i = (==_iff n i).0 q in
      subst (λ j. occurs j (missing (suc n) s) + bit (marked s.have j) ≡ 1) e (here n l)
  | inr q ↦
      let rest = missing_below n s i (omega (arith, l)) (ground (arith, h, q)) in
      if_cases (λ xs. occurs i xs + bit (marked s.have i) ≡ 1) (has_piece s n) _ _ (λ _. rest)
        (λ _. omega (arith, rest, ap bit q))
]
  where
    here :
        (k : ℕ) → suc k ≤ s.piece_count → occurs k (missing (suc k) s) + bit (marked s.have k) ≡ 1
    here k b =
        if_cases (λ xs. occurs k xs + bit (marked s.have k) ≡ 1) (has_piece s k) _ _
          (λ e.
            omega
              (arith, missing_above k s k (omega arith), ap bit (sym (has_piece_below s k b) ∙ e)))
          (λ e. omega (
            arith,
            missing_above k s k (omega arith),
            ap bit (sym (has_piece_below s k b) ∙ e),
            ap bit ((==_iff k k).1 refl),
          ))

start_workers_hold : (i : ℕ) (connects : ℕ → Bool) (n : ℕ) → held i (start_workers connects n) ≡ 0
start_workers_hold i connects zero = refl
start_workers_hold i connects (suc n) =
    if_cases (λ u. holds i u + held i (start_workers connects n) ≡ 0) (connects n) _ _
      (λ _. omega (arith, start_workers_hold i connects n))
      (λ _. omega (arith, start_workers_hold i connects n))

pub start_workers-IsPatient :
    (connects : ℕ → Bool) (n : ℕ) → All IsPatient (start_workers connects n)
start_workers-IsPatient connects zero = tt
start_workers-IsPatient connects (suc n) =
    if_cases (λ u. All IsPatient (u ∷ start_workers connects n)) (connects n) _ _
      (λ _. (omega arith, start_workers-IsPatient connects n))
      (λ _. (tt, start_workers-IsPatient connects n))

-- What stays from one round to the next.
pub record JobValid (hashes : ℕ → Str) (r : Round) : Type 0 where
  pub store : StoreValid hashes r.store
  pub honest : All (Covers r.store.have) r.announced

pub start_round-Accounted :
    (hashes : ℕ → Str) (peers : List PeerAddr) (connects : ℕ → Bool) (r : Round)
    → JobValid hashes r
    → Accounted hashes (start_round peers connects r)
start_round-Accounted hashes peers connects r v =
    let n = length peers * conns_per_peer peers in
    record {
      store = v.store;
      once = λ i l. omega (
        arith,
        missing_below r.store.piece_count r.store i (omega arith) l,
        start_workers_hold i connects n,
      );
      inside = λ i l.
          omega
            (arith, missing_above r.store.piece_count r.store i l, start_workers_hold i connects n);
      patient = start_workers-IsPatient connects n;
      honest = v.honest;
    }
