-- ===== src/Download/Workers/Places.antt =====
-- Where the pieces of a round are, and what the workers have used up, as sums over the workers.
use peer_to_peer_distributed.Base.{
  ℕ, zero, suc, ◌+◌, ◌<◌, ◌≤◌, ◌≡◌, refl, ◌∙◌, ap, subst, Bool, true, false, ◌||◌, List, [], ◌∷◌,
  arith, ltb, ◌==◌, All, if_cases,
}
use peer_to_peer_distributed.Download.Workers.{Worker, worker_at, set_worker, after_failure}

abbrev pub bit : Bool → ℕ
bit true = 1
bit false = 0

abbrev pub occurs : ℕ → List ℕ → ℕ
occurs i [] = 0
occurs i (j ∷ q) = bit (j == i) + occurs i q

abbrev pub holds : ℕ → Worker → ℕ
holds i (Worker.holding f j) = bit (j == i)
holds i _ = 0

-- A quantity added up over the workers.
abbrev pub total : (Worker → ℕ) → List Worker → ℕ
total g [] = 0
total g (w ∷ ws) = g w + total g ws

abbrev pub held : ℕ → List Worker → ℕ
held i = total (holds i)

-- The count of consecutive failures is below the limit.
abbrev pub IsPatient : Worker → Type 0
IsPatient (Worker.idle f) = f < 3
IsPatient (Worker.holding f j) = f < 3
IsPatient Worker.announcing = Unit {0}
IsPatient Worker.retired = Unit {0}

abbrev pub is_active : Worker → Bool
is_active Worker.retired = false
is_active _ = true

total-set_worker :
    (g : Worker → ℕ) (w : ℕ) (v : Worker) (ws : List Worker)
    → is_active (worker_at ws w) ≡ true
    → total g (set_worker w v ws) + g (worker_at ws w) ≡ total g ws + g v
total-set_worker g w v [] h = cc
total-set_worker g zero v (u ∷ ws) h = omega arith
total-set_worker g (suc w) v (u ∷ ws) h = omega (arith, total-set_worker g w v ws h)

-- One worker moves: the quantity changes by what its own changes.
pub total_moved :
    (g : Worker → ℕ) (w : ℕ) (u v : Worker) (ws : List Worker)
    → worker_at ws w ≡ u
    → is_active u ≡ true
    → total g (set_worker w v ws) + g u ≡ total g ws + g v
total_moved g w u v ws e h =
    subst (λ x. total g (set_worker w v ws) + g x ≡ total g ws + g v) e
      (total-set_worker g w v ws (ap is_active e ∙ h))

pub holds-le : (i w : ℕ) (ws : List Worker) → holds i (worker_at ws w) ≤ held i ws
holds-le i w [] = omega arith
holds-le i zero (u ∷ ws) = omega arith
holds-le i (suc w) (u ∷ ws) = omega (arith, holds-le i w ws)

pub set_worker-IsPatient :
    (w : ℕ) (v : Worker) (ws : List Worker)
    → IsPatient v
    → All IsPatient ws
    → All IsPatient (set_worker w v ws)
set_worker-IsPatient w v [] h a = tt
set_worker-IsPatient zero v (u ∷ ws) h a = (h, a.1)
set_worker-IsPatient (suc w) v (u ∷ ws) h a = (a.0, set_worker-IsPatient w v ws h a.1)

pub worker_at-IsPatient : (w : ℕ) (ws : List Worker) → All IsPatient ws → IsPatient (worker_at ws w)
worker_at-IsPatient w [] a = tt
worker_at-IsPatient zero (u ∷ ws) a = a.0
worker_at-IsPatient (suc w) (u ∷ ws) a = worker_at-IsPatient w ws a.1

pub bit-or : (a b : Bool) → (a ≡ true → b ≡ false) → bit (a || b) ≡ bit a + bit b
bit-or true b h = rw (h refl) refl
bit-or false b h = omega arith

pub no_piece : (i f : ℕ) → holds i (after_failure f) ≡ 0
no_piece i f = if_cases (λ u. holds i u ≡ 0) (ltb (f + 1) 3) _ _ (λ _. refl) (λ _. refl)

pub after_failure-IsPatient : (f : ℕ) → IsPatient (after_failure f)
after_failure-IsPatient f =
    if_cases IsPatient (ltb (f + 1) 3) _ _ (λ e. ground (arith, e)) (λ _. tt)
