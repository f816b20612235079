-- ===== src/Sync/Links/Stopping.antt =====
-- How connect_loop ends after stop, and what becomes of a link that a newer one has replaced.
use peer_to_peer_distributed.Base.{
  ℕ, ◌≡◌, refl, sym, ◌∙◌, ap, subst, ◌⊎◌, inl, inr, true, false, none, some, List, [], ◌∷◌, ◌++◌,
  append_assoc, All, ◌==◌, if◌then◌else◌, append-nil,
}
use peer_to_peer_distributed.Sync.Links.{
  Links, fd_list, accept_link, drop_link, stop, Dialer, checking, connecting, connected, reading,
  cleaning, returned, Sockets, dial, run_dialer,
}

-- A descriptor is in a list.
abbrev pub Among : ℕ → List ℕ → Type 0
Among fd [] = ⊥
Among fd (x ∷ xs) = (x ≡ fd) ⊎ Among fd xs

last_one : (fd : ℕ) (xs : List ℕ) → Among fd (xs ++ fd ∷ [])
last_one fd [] = inl refl
last_one fd (x ∷ xs) = inr (last_one fd xs)

-- recv_msg ends on a descriptor that was shut down.
abbrev pub EndsShut : Links → Sockets → Type 0
EndsShut k w = (fd : ℕ) → Among fd k.shut → w.ends fd ≡ true

-- connect_loop is not between its test of `__running` and the store of the descriptor.
abbrev pub Stoppable : Dialer × Links → Type 0
Stoppable (checking, k) = Unit {0}
Stoppable (connecting, k) = ⊥
Stoppable (connected fd, k) = ⊥
Stoppable (reading fd, k) = k.out_fd ≡ some fd
Stoppable (cleaning, k) = Unit {0}
Stoppable (returned, k) = Unit {0}

-- When stop is called while connect_loop is at its test, reads its link or cleans up, the loop has
-- returned after two of its moves, with recv_msg ending on a descriptor that was shut down.
pub stop_ends :
    (d : Dialer) (k : Links) (first second : Sockets)
    → Stoppable (d, k)
    → EndsShut (stop k) first
    → (run_dialer (first ∷ second ∷ []) (d, stop k)).0 ≡ returned
unfolding run_dialer dial stop
stop_ends checking k first second s e = refl
stop_ends connecting k first second s e = elim s [ ]
stop_ends (connected fd) k first second s e = elim s [ ]
stop_ends (reading fd) k first second s e =
    let shut : first.ends fd ≡ true =
      e fd (subst (λ o. Among fd (k.shut ++ fd_list o)) (sym s) (last_one fd k.shut)) in
    ap (λ b. (dial second (if b then cleaning else reading fd, stop k)).0) shut
stop_ends cleaning k first second s e = refl
stop_ends returned k first second s e = refl

-- When stop is called between tcp_connect and the store of the descriptor, nothing is shut down, and
-- connect_loop reads from the new link for as long as its peer keeps it open.
pub stop_missed :
    (fd : ℕ) (k : Links) (first : Sockets) (ws : List Sockets)
    → k.out_fd ≡ none
    → All (λ w. w.ends fd ≡ false) ws
    → run_dialer (first ∷ ws) (connected fd, stop k)
      ≡ (reading fd, record k { out_fd = some fd; running = false })
unfolding run_dialer dial stop
stop_missed fd k first ws unlinked up =
    reads_on ws up
    ∙ ap {B = Dialer × Links}
        (λ xs. (reading fd, record k { out_fd = some fd; running = false; shut = xs }))
        (ap (λ o. k.shut ++ fd_list o) unlinked ∙ append-nil k.shut)
  where
    stored : Links
    stored = record k { out_fd = some fd; running = false; shut = k.shut ++ fd_list k.out_fd }

    reads_on :
        (ws : List Sockets)
        → All (λ w. w.ends fd ≡ false) ws
        → run_dialer ws (reading fd, stored) ≡ (reading fd, stored)
    reads_on [] up = refl
    reads_on (w ∷ ws) up =
        ap (λ b. run_dialer ws (if b then cleaning else reading fd, stored)) (up.0)
        ∙ reads_on ws up.1

-- A second link that is accepted replaces the first, and stays when the first one's loop ends; the
-- first one's descriptor is closed by both.
pub superseded_closed_twice :
    (old new : ℕ) (k : Links)
    → (new == old) ≡ false
    → k.out_fd ≡ some old
    → drop_link old (accept_link new k)
      ≡ record k { out_fd = some new; closed = k.closed ++ (old ∷ old ∷ []) }
unfolding drop_link accept_link
superseded_closed_twice old new k other up =
    ap {B = Links}
      (λ b.
        if b
        then record k { out_fd = none; closed = (k.closed ++ fd_list k.out_fd) ++ old ∷ [] }
        else record k { out_fd = some new; closed = (k.closed ++ fd_list k.out_fd) ++ old ∷ [] })
      other
    ∙ ap (λ o. record k { out_fd = some new; closed = (k.closed ++ fd_list o) ++ old ∷ [] }) up
    ∙ ap (λ xs. record k { out_fd = some new; closed = xs })
        (append_assoc k.closed (old ∷ []) (old ∷ []))
