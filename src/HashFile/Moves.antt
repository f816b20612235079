-- ===== src/HashFile/Moves.antt =====
-- What the moves of a thread do to the claims: it pulls an index, or its reads come to an end.
use peer_to_peer_distributed.Base.{
  ℕ, ◌+◌, ◌<◌, ◌≤◌, ◌≡◌, ◌≢◌, refl, sym, ◌∙◌, ap, subst, ◌⊎◌, inl, inr, true, false, arith, length,
  ◌==◌, ==_iff, Bool-cases,
}
use peer_to_peer_distributed.Text.{Str}
use peer_to_peer_distributed.Sha1.{hash_buffer}
use peer_to_peer_distributed.PieceStore.{Contents}
use peer_to_peer_distributed.PieceStore.Resume.{hash_at}
use peer_to_peer_distributed.HashFile.{Hasher, Hashing, hasher_at, set_hasher, set_slot, pieces_in}
use peer_to_peer_distributed.HashFile.Slots.{
  length-set_hasher, length-set_slot, hasher_at-set_hasher, hash_at-set_slot, other_slot,
  returned_count_moved,
}
use peer_to_peer_distributed.HashFile.Claims.{
  Claimed, Found, part, after_set, here, unmoved, moved_on,
}

module _ (ps : ℕ) (file : Contents) (size n : ℕ) where
  module _ (w : ℕ) (g : Hasher) (r : Hashing) (at : hasher_at r.hashers w ≡ g)
      (moves : g ≢ Hasher.returned) (v : Claimed ps file size n r) where
    there : w < length r.hashers
    there = here ps file size n w g r at moves v

    still :
        (h : Hasher) (i : ℕ)
        → g ≢ Hasher.reading i
        → Found ps file size n r i
        → Found ps file size n (record r { hashers = set_hasher w h r.hashers }) i
    still = unmoved ps file size n w g r at moves v

    moved :
        (h : Hasher)
        → ((i : ℕ) → g ≢ Hasher.reading i)
        → ((i : ℕ) → h ≢ Hasher.reading i)
        → (h ≡ Hasher.returned → (r.failed ≡ true) ⊎ (pieces_in ps size ≤ r.next))
        → Claimed ps file size n (record r { hashers = set_hasher w h r.hashers })
    moved = moved_on ps file size n w g r at moves v

    module _ (pulling : g ≡ Hasher.pulling) where
      no_read : (i : ℕ) → g ≢ Hasher.reading i
      no_read i e = cc

      -- The counter was below the count of pieces: the thread reads that piece.
      pub pulled_piece :
          r.next < pieces_in ps size
          → Claimed ps file size n (record r {
            next = r.next + 1;
            hashers = set_hasher w (Hasher.reading r.next) r.hashers;
          })
      pulled_piece l = record {
        threads = length-set_hasher w (Hasher.reading r.next) r.hashers ∙ v.threads;
        slots = v.slots;
        counter = omega (arith, l);
        claimed = λ i a b. elim (Bool-cases (r.next == i)) [
          | inl e ↦ inr (
              inl (
                w,
                hasher_at-set_hasher w (Hasher.reading r.next) r.hashers there
                    ∙ ap Hasher.reading ((==_iff r.next i).0 e),
              ))
          | inr e ↦
              still (Hasher.reading r.next) i (no_read i) (v.claimed i a (ground (arith, b, e)))
        ];
        inside = λ u i e. elim (after_set w u (Hasher.reading r.next) r.hashers there) [
          | inl (same, k) ↦ subst (λ x. x < pieces_in ps size) (index_of (sym k ∙ e)) l
          | inr k ↦ v.inside u i (sym k ∙ e)
        ];
        stopped = λ u a e. elim (after_set w u (Hasher.reading r.next) r.hashers there) [
          | inl (same, k) ↦ absurd (reads_on (sym k ∙ e))
          | inr k ↦ later (v.stopped u a (sym k ∙ e))
        ];
      }
        where
          index_of : {i j : ℕ} → Hasher.reading i ≡ Hasher.reading j → i ≡ j
          index_of e = cc

          reads_on : {i : ℕ} → Hasher.reading i ≡ Hasher.returned → ⊥
          reads_on e = cc

          later :
              (r.failed ≡ true) ⊎ (pieces_in ps size ≤ r.next)
              → (r.failed ≡ true) ⊎ (pieces_in ps size ≤ r.next + 1)
          later (inl e) = inl e
          later (inr k) = inr (omega (arith, k))

      -- There was no piece left: the thread returns.
      pub pulled_nothing :
          pieces_in ps size ≤ r.next
          → Claimed ps file size n
              (record r { next = r.next + 1; hashers = set_hasher w Hasher.returned r.hashers })
      pulled_nothing l =
          let c = moved Hasher.returned no_read (λ i e. cc) (λ _. inr l) in
          record {
            threads = c.threads;
            slots = c.slots;
            counter =
                omega (
                  arith,
                  v.counter,
                  (returned_count_moved w g Hasher.returned r.hashers at moves).0,
                );
            claimed = λ i a b. c.claimed i a (omega (arith, a, l));
            inside = c.inside;
            stopped = λ u a e. inr (omega (arith, l));
          }

    module _ (i : ℕ) (had : g ≡ Hasher.reading i) where
      -- The piece was read: its slot is filled.
      pub filled :
          (bytes : Str)
          → bytes ≡ part ps file size n i
          → Claimed ps file size n (record r {
            hashes = set_slot i (hash_buffer bytes) r.hashes;
            hashers = set_hasher w Hasher.looking r.hashers;
          })
      filled bytes right = record {
        threads = length-set_hasher w Hasher.looking r.hashers ∙ v.threads;
        slots = length-set_slot i (hash_buffer bytes) r.hashes ∙ v.slots;
        counter =
            omega
              (arith, v.counter, (returned_count_moved w g Hasher.looking r.hashers at moves).0);
        claimed = λ j a b. elim (Bool-cases (i == j)) [
          | inl e ↦
              let same : i ≡ j = (==_iff i j).0 e in
              let in_slots : i < length r.hashes = omega (arith, v.slots, same, a) in
              inl (
                subst
                  (λ x.
                    hash_at (set_slot i (hash_buffer bytes) r.hashes) x
                    ≡ hash_buffer (part ps file size n x))
                  same
                  (hash_at-set_slot i (hash_buffer bytes) r.hashes in_slots ∙ ap hash_buffer right))
          | inr e ↦ other j e (still Hasher.looking j (other_index j e) (v.claimed j a b))
        ];
        inside = λ u j e. elim (after_set w u Hasher.looking r.hashers there) [
          | inl (same, k) ↦ absurd (no_look (sym k ∙ e))
          | inr k ↦ v.inside u j (sym k ∙ e)
        ];
        stopped = λ u a e. elim (after_set w u Hasher.looking r.hashers there) [
          | inl (same, k) ↦ absurd (looks_on (sym k ∙ e))
          | inr k ↦ v.stopped u a (sym k ∙ e)
        ];
      }
        where
          other_index : (j : ℕ) → (i == j) ≡ false → g ≢ Hasher.reading j
          other_index j e k = absurd (differ ((==_iff i j).1 (index_of (sym had ∙ k))))
            where
              index_of : Hasher.reading i ≡ Hasher.reading j → i ≡ j
              index_of q = cc

              differ : (i == j) ≡ true → ⊥
              differ q = cc

          other :
              (j : ℕ)
              → (i == j) ≡ false
              → Found ps file size n
                  (record r { hashers = set_hasher w Hasher.looking r.hashers })
                  j
              → Found ps file size n
                  (record r {
                    hashes = set_slot i (hash_buffer bytes) r.hashes;
                    hashers = set_hasher w Hasher.looking r.hashers;
                  })
                  j
          other j e (inl k) = inl (other_slot i j (hash_buffer bytes) r.hashes e ∙ k)
          other j e (inr k) = inr k

          no_look : {j : ℕ} → Hasher.looking ≡ Hasher.reading j → ⊥
          no_look e = cc

          looks_on : Hasher.looking ≡ Hasher.returned → ⊥
          looks_on e = cc

      -- The read failed: the thread returns, and the others will.
      pub gave_up :
          Claimed ps file size n
            (record r { failed = true; hashers = set_hasher w Hasher.returned r.hashers })
      gave_up = record {
        threads = length-set_hasher w Hasher.returned r.hashers ∙ v.threads;
        slots = v.slots;
        counter =
            omega
              (arith, v.counter, (returned_count_moved w g Hasher.returned r.hashers at moves).0);
        claimed = λ j a b. inr (inr refl);
        inside = λ u j e. elim (after_set w u Hasher.returned r.hashers there) [
          | inl (same, k) ↦ absurd (no_return (sym k ∙ e))
          | inr k ↦ v.inside u j (sym k ∙ e)
        ];
        stopped = λ u a e. inl refl;
      }
        where
          no_return : {j : ℕ} → Hasher.returned ≡ Hasher.reading j → ⊥
          no_return e = cc
