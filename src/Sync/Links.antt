-- ===== src/Sync/Links.antt =====
-- The life of the link in tracker/sync.cpp: start and stop, connect_loop and handle_peer_connection,
-- with `__out_fd` as a number. What tcp_connect gives and when recv_msg ends are arguments; the calls of
-- close and shutdown are listed in order. Sleeps are left out, and the messages are in Sync/Link.
pub mod Stopping
use peer_to_peer_distributed.Base.{
  ℕ, zero, suc, Bool, true, false, Option, none, some, List, [], ◌∷◌, ◌++◌, ◌==◌, if◌then◌else◌,
}

pub record Links : Type 0 where
  pub out_fd : Option ℕ
  pub running : Bool
  pub closed : List ℕ
  pub shut : List ℕ

abbrev pub fd_list : Option ℕ → List ℕ
fd_list none = []
fd_list (some fd) = fd ∷ []

-- handle_peer_connection up to its loop: the link that was there is closed.
unfoldable pub accept_link : ℕ → Links → Links
accept_link fd k = record k { out_fd = some fd; closed = k.closed ++ fd_list k.out_fd }

abbrev is_fd : Option ℕ → ℕ → Bool
is_fd none fd = false
is_fd (some out) fd = out == fd

-- handle_peer_connection behind its loop
unfoldable pub drop_link : ℕ → Links → Links
drop_link fd k =
    if is_fd k.out_fd fd
    then record k { out_fd = none; closed = k.closed ++ fd ∷ [] }
    else record k { closed = k.closed ++ fd ∷ [] }

-- stop, up to the join
unfoldable pub stop : Links → Links
stop k = record k { running = false; shut = k.shut ++ fd_list k.out_fd }

-- connect_loop before its test of `__running`, in tcp_connect, before the descriptor is stored, in its
-- reading loop, before the clean-up, and returned.
pub data Dialer : Type 0 where
  checking : Dialer
  connecting : Dialer
  connected : ℕ → Dialer
  reading : ℕ → Dialer
  cleaning : Dialer
  returned : Dialer

-- start: the thread of connect_loop, which only the tracker with the index 0 goes on with.
abbrev pub start : ℕ → Links → Dialer × Links
start zero k = (checking, record k { running = true })
start (suc index) k = (returned, record k { running = true })

-- What tcp_connect gives, and whether recv_msg ends on a descriptor.
pub record Sockets : Type 0 where
  pub connects : Option ℕ
  pub ends : ℕ → Bool

abbrev pub connect_result : Option ℕ → Dialer
connect_result none = checking
connect_result (some fd) = connected fd

unfoldable pub dial : Sockets → Dialer × Links → Dialer × Links
dial w (checking, k) = (if k.running then connecting else returned, k)
dial w (connecting, k) = (connect_result w.connects, k)
dial w (connected fd, k) = (reading fd, record k { out_fd = some fd })
dial w (reading fd, k) = (if w.ends fd then cleaning else reading fd, k)
dial w (cleaning, k) = (
  if k.running then checking else returned,
  record k { out_fd = none; closed = k.closed ++ fd_list k.out_fd },
)
dial w (returned, k) = (returned, k)

unfoldable pub run_dialer : List Sockets → Dialer × Links → Dialer × Links
unfolding dial
run_dialer [] d = d
run_dialer (w ∷ ws) d = run_dialer ws (dial w d)
