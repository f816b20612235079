-- ===== src/Net/Transfer.antt =====
-- The loops of send_all and recv_all: what they move, however the kernel cuts it.
use Prim.Native.Nat.{min}
use peer_to_peer_distributed.Base.{
  ℕ, zero, suc, ◌+◌, ◌-◌, ◌≤◌, ◌≡◌, refl, ◌∙◌, ap, List, [], ◌∷◌, ◌++◌, arith, length, take, drop,
  All, length-drop, drop-drop, append_assoc, take-append-drop,
}
use native.Mathlib.Numerals.{unary_clauses}
use peer_to_peer_distributed.Text.{Str}
use peer_to_peer_distributed.Net.{Answer, Progress, Incoming, send_all, recv_loop}

-- An answer that is not the end of the connection, and how many of them move a byte.
abbrev pub IsProgress : Answer → Type 0
IsProgress (Answer.moved (suc k)) = Unit {0}
IsProgress Answer.interrupted = Unit {0}
IsProgress _ = ⊥

abbrev pub moves : List Answer → ℕ
moves [] = 0
moves (Answer.moved k ∷ answers) = suc (moves answers)
moves (_ ∷ answers) = moves answers

-- Whatever the answers are, the bytes that the kernel took are the first ones of the data, in order;
-- and when the result is success, they are all of it.
pub send_all-prefix :
    (answers : List Answer) (p : Str)
    → let (r, out, left) = send_all answers p in
      (rest : Str) × (out ++ rest ≡ p) × (r ≡ Progress.done → rest ≡ [])
unfolding send_all
send_all-prefix answers [] = ([], refl, λ e. refl)
send_all-prefix [] (x ∷ p) = (x ∷ p, refl, λ e. cc)
send_all-prefix (Answer.moved zero ∷ answers) (x ∷ p) = (x ∷ p, refl, λ e. cc)
send_all-prefix (Answer.moved (suc k) ∷ answers) (x ∷ p) =
    let (rest, e, whole) = send_all-prefix answers (drop k p) in
    (
      rest,
      ap (◌∷◌ x) (
          append_assoc (take k p) (send_all answers (drop k p)).1 rest
          ∙ ap (◌++◌ (take k p)) e
          ∙ take-append-drop k p),
      whole,
    )
send_all-prefix (Answer.interrupted ∷ answers) (x ∷ p) = send_all-prefix answers (x ∷ p)
send_all-prefix (Answer.error ∷ answers) (x ∷ p) = (x ∷ p, refl, λ e. cc)

take-take-drop : (j n : ℕ) (xs : Str) → take j xs ++ take n (drop j xs) ≡ take (j + n) xs
take-take-drop zero n xs = ap (λ m. take m xs) (omega arith)
take-take-drop (suc j) zero [] = simp unary_clauses refl
take-take-drop (suc j) (suc n) [] = simp unary_clauses refl
take-take-drop (suc j) n (x ∷ xs) =
    let e : suc j + n ≡ suc (j + n) = omega arith in rw e (ap (◌∷◌ x) (take-take-drop j n xs))

-- While the kernel answers with progress, and the answers and the bytes are enough, recv_all succeeds:
-- it reads exactly the next `n` bytes, and uses up at most `n` answers that move something.
pub recv_loop-take :
    (answers : List Answer) (n : ℕ) (stream : Str)
    → All IsProgress answers
    → n ≤ moves answers
    → n ≤ length stream
    → (left : List Answer) × All IsProgress left
      × (moves answers ≤ moves left + n)
      × (recv_loop answers n stream
          ≡ (Progress.done, take n stream, record { answers = left; stream = drop n stream }))
unfolding recv_loop
recv_loop-take answers zero stream p h k = (answers, p, omega arith, refl)
recv_loop-take [] (suc n) stream p h k = absurd (omega arith)
recv_loop-take (Answer.moved zero ∷ answers) (suc n) stream p h k = elim p.0 [ ]
recv_loop-take (Answer.moved (suc i) ∷ answers) (suc n) stream p h k =
    let j = min (suc i) (suc n) in
    let (left, q, m, e) =
      recv_loop-take answers (suc n - j) (drop j stream) p.1 (omega arith)
        (omega (arith, length-drop j stream)) in
    let whole : j + (suc n - j) ≡ suc n = omega arith in
    (
      left,
      q,
      omega arith,
      ap {A = Progress × Str × Incoming} (λ r. (r.0, take j stream ++ r.1, r.2)) e
          ∙ rw (take-take-drop j (suc n - j) stream, drop-drop (suc n - j) j stream, whole) refl,
    )
recv_loop-take (Answer.interrupted ∷ answers) (suc n) stream p h k =
    recv_loop-take answers (suc n) stream p.1 h k
recv_loop-take (Answer.error ∷ answers) (suc n) stream p h k = elim p.0 [ ]
