-- ===== src/HashFile/Claims.antt =====
-- The indices below the counter: which thread has them, and whose slot is filled.
use peer_to_peer_distributed.Base.{
  ℕ, ◌+◌, ◌*◌, ◌<◌, ◌≤◌, ◌≡◌, ◌≢◌, sym, ◌∙◌, ap, subst, ◌⊎◌, inl, inr, true, List, arith, length,
  ◌==◌, ==_iff, Bool-cases,
}
use peer_to_peer_distributed.Text.{Str}
use peer_to_peer_distributed.Sha1.{hash_buffer}
use peer_to_peer_distributed.PieceStore.{Contents, read_bytes}
use peer_to_peer_distributed.PieceStore.Resume.{hash_at}
use peer_to_peer_distributed.HashFile.{Hasher, Hashing, hasher_at, set_hasher, pieces_in, part_len}
use peer_to_peer_distributed.HashFile.Slots.{
  length-set_hasher, hasher_at-set_hasher, other_hasher, in_range, returned_count,
  returned_count_moved,
}

-- A thread after one of them has changed: the one that did, or another one as it was.
pub after_set :
    (w v : ℕ) (h : Hasher) (hs : List Hasher)
    → w < length hs
    → ((w ≡ v) × (hasher_at (set_hasher w h hs) v ≡ h))
      ⊎ (hasher_at (set_hasher w h hs) v ≡ hasher_at hs v)
after_set w v h hs l = elim (Bool-cases (w == v)) [
  | inl e ↦
      let same : w ≡ v = (==_iff w v).0 e in
      inl (
        same,
        subst (λ x. hasher_at (set_hasher w h hs) x ≡ h) same (hasher_at-set_hasher w h hs l),
      )
  | inr e ↦ inr (other_hasher w v h hs e)
]

module _ (ps : ℕ) (file : Contents) (size n : ℕ) where
  abbrev pub part : ℕ → Str
  part i = read_bytes (i * ps) (part_len ps size i) file

  abbrev pub pc : ℕ
  pc = pieces_in ps size

  -- The slot of a piece is filled, a thread reads it, or a read has failed.
  abbrev pub Found : Hashing → ℕ → Type 0
  Found r i =
      (hash_at r.hashes i ≡ hash_buffer (part i))
      ⊎ ((w : ℕ) × (hasher_at r.hashers w ≡ Hasher.reading i))
      ⊎ (r.failed ≡ true)

  pub record Claimed (r : Hashing) : Type 0 where
    pub threads : length r.hashers ≡ n
    pub slots : length r.hashes ≡ pc
    pub counter : r.next ≤ pc + returned_count r.hashers
    pub claimed : (i : ℕ) → i < pc → i < r.next → Found r i
    pub inside : (w i : ℕ) → hasher_at r.hashers w ≡ Hasher.reading i → i < pc
    pub stopped :
        (w : ℕ)
        → w < n
        → hasher_at r.hashers w ≡ Hasher.returned
        → (r.failed ≡ true) ⊎ (pc ≤ r.next)

  module _ (w : ℕ) (g : Hasher) (r : Hashing) (at : hasher_at r.hashers w ≡ g)
      (moves : g ≢ Hasher.returned) (v : Claimed r) where
    pub here : w < length r.hashers
    here = in_range w r.hashers (λ k. moves (sym at ∙ k))

    -- A thread that read nothing changes: what was found is found.
    pub unmoved :
        (h : Hasher) (i : ℕ)
        → g ≢ Hasher.reading i
        → Found r i
        → Found (record r { hashers = set_hasher w h r.hashers }) i
    unmoved h i other (inl e) = inl e
    unmoved h i other (inr (inr e)) = inr (inr e)
    unmoved h i other (inr (inl (u, e))) = inr (
        inl (
          u,
          (elim (after_set w u h r.hashers here) [
            | inl (same, k) ↦ absurd (other (sym at ∙ ap (hasher_at r.hashers) same ∙ e))
            | inr k ↦ k ∙ e
          ]),
        ))

    -- A thread goes on to something that is no read, and stops for a reason only.
    pub moved_on :
        (h : Hasher)
        → ((i : ℕ) → g ≢ Hasher.reading i)
        → ((i : ℕ) → h ≢ Hasher.reading i)
        → (h ≡ Hasher.returned → (r.failed ≡ true) ⊎ (pc ≤ r.next))
        → Claimed (record r { hashers = set_hasher w h r.hashers })
    moved_on h old new reason = record {
      threads = length-set_hasher w h r.hashers ∙ v.threads;
      slots = v.slots;
      counter = omega (arith, v.counter, (returned_count_moved w g h r.hashers at moves).0);
      claimed = λ i l k. unmoved h i (old i) (v.claimed i l k);
      inside = λ u i e. elim (after_set w u h r.hashers here) [
        | inl (same, k) ↦ absurd (new i (sym k ∙ e))
        | inr k ↦ v.inside u i (sym k ∙ e)
      ];
      stopped = λ u l e. elim (after_set w u h r.hashers here) [
        | inl (same, k) ↦ reason (sym k ∙ e)
        | inr k ↦ v.stopped u l (sym k ∙ e)
      ];
    }
