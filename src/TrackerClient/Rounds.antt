-- ===== src/TrackerClient/Rounds.antt =====
-- How one round of a request ends.
use peer_to_peer_distributed.Base.{
  ℕ, ◌+◌, ◌<◌, ◌≡◌, refl, Bool, true, false, not, ◌&&◌, Option, none, some, List, [], ◌∷◌, if_cases,
}
use peer_to_peer_distributed.Text.{Str}
use peer_to_peer_distributed.Protocol.{MsgType, Status}
use peer_to_peer_distributed.TrackerClient.{
  TrackerClient, Sent, Weather, Attempted, first_up, connect_to, is_login, login_message,
  request_message, exchange, replay_login, on_fresh, attempt,
}
use peer_to_peer_distributed.TrackerClient.Ring.{first_up_found}

-- A round that drops the connection leaves the client without one, and with its login.
abbrev pub Lost : Bool → Attempted → Type 0
Lost l (Attempted.dropped c sent) = (c.connected ≡ false) × (c.logged_in ≡ l)
Lost l _ = Unit {0}

-- A round that found a tracker, and one that got a reply.
abbrev pub IsReached : Attempted → Type 0
IsReached Attempted.unreachable = ⊥
IsReached _ = Unit {0}

abbrev pub IsAnswered : Attempted → Type 0
IsAnswered (Attempted.answered c sent reply) = Unit {0}
IsAnswered _ = ⊥

module _ (type : MsgType) (payload : Str) where
  -- A round that got a reply sent the login and then the request, to the same tracker.
  abbrev pub Replayed : Attempted → Type 0
  Replayed (Attempted.answered c sent reply) =
      sent ≡ login_message c ∷ request_message type payload c ∷ []
  Replayed _ = Unit {0}

  exchange-Lost :
      (c : TrackerClient) (sent : List Sent) (reply : Option (Status × Str))
      → Lost c.logged_in (exchange type payload c sent reply)
  exchange-Lost c sent none = (refl, refl)
  exchange-Lost c sent (some reply) = tt

  replay_login-Lost :
      (c : TrackerClient) (w : Weather) (reply : Option Status)
      → Lost c.logged_in (replay_login type payload c w reply)
  replay_login-Lost c w none = (refl, refl)
  replay_login-Lost c w (some status) = exchange-Lost c (login_message c ∷ []) w.reply

  on_fresh-Lost : (w : Weather) (c : TrackerClient) → Lost c.logged_in (on_fresh type payload w c)
  unfolding on_fresh
  on_fresh-Lost w c =
      if_cases (Lost c.logged_in) (c.logged_in && not (is_login type)) _ _
        (λ _. replay_login-Lost c w w.login_reply) (λ _. exchange-Lost c [] w.reply)

  pub attempt-Lost :
      (n : ℕ) (w : Weather) (c : TrackerClient) → Lost c.logged_in (attempt type payload n w c)
  unfolding attempt
  attempt-Lost n w c =
      if_cases (Lost c.logged_in) c.connected _ _ (λ _. exchange-Lost c [] w.reply)
        (λ _. by_endpoint (first_up w.accepts (c.current + 1) n n))
    where
      by_endpoint :
          (o : Option ℕ)
          → Lost c.logged_in (elim o [
            | none ↦ Attempted.unreachable
            | some idx ↦ on_fresh type payload w (connect_to idx c)
          ])
      by_endpoint none = tt
      by_endpoint (some idx) = on_fresh-Lost w (connect_to idx c)

  exchange-Replayed :
      (c : TrackerClient) (reply : Option (Status × Str))
      → Replayed (exchange type payload c (login_message c ∷ []) reply)
  exchange-Replayed c none = tt
  exchange-Replayed c (some reply) = refl

  replay_login-Replayed :
      (c : TrackerClient) (w : Weather) (reply : Option Status)
      → Replayed (replay_login type payload c w reply)
  replay_login-Replayed c w none = tt
  replay_login-Replayed c w (some status) = exchange-Replayed c w.reply

  -- A round that opens the connection.
  pub attempt-Replayed :
      (n : ℕ) (w : Weather) (c : TrackerClient)
      → c.connected ≡ false
      → c.logged_in ≡ true
      → is_login type ≡ false
      → Replayed (attempt type payload n w c)
  unfolding attempt on_fresh
  attempt-Replayed n w c h l k = rw h (by_endpoint (first_up w.accepts (c.current + 1) n n))
    where
      by_endpoint :
          (o : Option ℕ)
          → Replayed (elim o [
            | none ↦ Attempted.unreachable
            | some idx ↦ on_fresh type payload w (connect_to idx c)
          ])
      by_endpoint none = tt
      by_endpoint (some idx) =
          if_cases Replayed (c.logged_in && not (is_login type)) _ _
            (λ _. replay_login-Replayed (connect_to idx c) w w.login_reply)
            (λ f. cc (rw (l, k) at f))

  exchange-IsReached :
      (c : TrackerClient) (sent : List Sent) (reply : Option (Status × Str))
      → IsReached (exchange type payload c sent reply)
  exchange-IsReached c sent none = tt
  exchange-IsReached c sent (some reply) = tt

  replay_login-IsReached :
      (c : TrackerClient) (w : Weather) (reply : Option Status)
      → IsReached (replay_login type payload c w reply)
  replay_login-IsReached c w none = tt
  replay_login-IsReached c w (some status) = exchange-IsReached c (login_message c ∷ []) w.reply

  pub attempt-IsReached :
      (n k : ℕ) (w : Weather) (c : TrackerClient)
      → k < n
      → w.accepts k ≡ true
      → IsReached (attempt type payload n w c)
  unfolding attempt on_fresh
  attempt-IsReached n k w c l h =
      if_cases IsReached c.connected _ _ (λ _. exchange-IsReached c [] w.reply)
        λ _.
          let (idx, (e, _, _)) = first_up_found w.accepts (c.current + 1) n k l h in
          rw e (
            if_cases IsReached (c.logged_in && not (is_login type)) _ _
              (λ _. replay_login-IsReached (connect_to idx c) w w.login_reply)
              (λ _. exchange-IsReached (connect_to idx c) [] w.reply))

  pub attempt-IsAnswered :
      (n k : ℕ) (w : Weather) (c : TrackerClient) (status : Status) (reply : Status × Str)
      → c.connected ≡ false
      → k < n
      → w.accepts k ≡ true
      → w.login_reply ≡ some status
      → w.reply ≡ some reply
      → IsAnswered (attempt type payload n w c)
  unfolding attempt on_fresh
  attempt-IsAnswered n k w c status reply d l h a b =
      let (idx, (e, _, _)) = first_up_found w.accepts (c.current + 1) n k l h in
      rw (d, e)
        (if_cases IsAnswered (c.logged_in && not (is_login type)) _ _ (λ _. rw (a, b) tt)
          (λ _. rw b tt))
