-- ===== src/TrackerClient/Login.antt =====
-- The login that is on file, under a request.
use peer_to_peer_distributed.Base.{
  ℕ, ◌+◌, ◌≡◌, refl, ◌∙◌, Bool, not, ◌&&◌, Option, none, some, List, [], ◌∷◌, if_cases,
}
use peer_to_peer_distributed.Text.{Str}
use peer_to_peer_distributed.Protocol.{MsgType, Status}
use peer_to_peer_distributed.TrackerClient.{
  TrackerClient, Sent, Weather, Attempted, first_up, connect_to, is_login, login_message, exchange,
  replay_login, on_fresh, attempt, last_attempt, first_attempt, request,
}

abbrev pub login_of : TrackerClient → Bool × Str × Str × ℕ
login_of c = (c.logged_in, c.last_uid, c.last_pwd, c.last_port)

abbrev Keeps : TrackerClient → Attempted → Type 0
Keeps c Attempted.unreachable = Unit {0}
Keeps c (Attempted.dropped d sent) = login_of d ≡ login_of c
Keeps c (Attempted.answered d sent reply) = login_of d ≡ login_of c

module _ (type : MsgType) (payload : Str) where
  exchange-Keeps :
      (c : TrackerClient) (sent : List Sent) (reply : Option (Status × Str))
      → Keeps c (exchange type payload c sent reply)
  exchange-Keeps c sent none = refl
  exchange-Keeps c sent (some reply) = refl

  replay_login-Keeps :
      (c : TrackerClient) (w : Weather) (reply : Option Status)
      → Keeps c (replay_login type payload c w reply)
  replay_login-Keeps c w none = refl
  replay_login-Keeps c w (some status) = exchange-Keeps c (login_message c ∷ []) w.reply

  connect_to-Keeps :
      (c : TrackerClient) (idx : ℕ) (a : Attempted) → Keeps (connect_to idx c) a → Keeps c a
  connect_to-Keeps c idx Attempted.unreachable h = tt
  connect_to-Keeps c idx (Attempted.dropped d sent) h = h
  connect_to-Keeps c idx (Attempted.answered d sent reply) h = h

  on_fresh-Keeps : (w : Weather) (c : TrackerClient) → Keeps c (on_fresh type payload w c)
  unfolding on_fresh
  on_fresh-Keeps w c =
      if_cases (Keeps c) (c.logged_in && not (is_login type)) _ _
        (λ _. replay_login-Keeps c w w.login_reply) (λ _. exchange-Keeps c [] w.reply)

  attempt-Keeps : (n : ℕ) (w : Weather) (c : TrackerClient) → Keeps c (attempt type payload n w c)
  unfolding attempt
  attempt-Keeps n w c =
      if_cases (Keeps c) c.connected _ _ (λ _. exchange-Keeps c [] w.reply)
        (λ _. by_endpoint (first_up w.accepts (c.current + 1) n n))
    where
      by_endpoint :
          (o : Option ℕ)
          → Keeps c (elim o [
            | none ↦ Attempted.unreachable
            | some idx ↦ on_fresh type payload w (connect_to idx c)
          ])
      by_endpoint none = tt
      by_endpoint (some idx) =
          connect_to-Keeps c idx (on_fresh type payload w (connect_to idx c))
            (on_fresh-Keeps w (connect_to idx c))

  last_attempt-login :
      (c d : TrackerClient) (sent : List Sent) (a : Attempted)
      → login_of d ≡ login_of c
      → Keeps d a
      → login_of (last_attempt d sent a).client ≡ login_of c
  last_attempt-login c d sent Attempted.unreachable e h = e
  last_attempt-login c d sent (Attempted.dropped d' more) e h = h ∙ e
  last_attempt-login c d sent (Attempted.answered d' more reply) e h = h ∙ e

  first_attempt-login :
      (n : ℕ) (second : Weather) (c : TrackerClient) (a : Attempted)
      → Keeps c a
      → login_of (first_attempt type payload n second c a).client ≡ login_of c
  first_attempt-login n second c Attempted.unreachable h = refl
  first_attempt-login n second c (Attempted.answered d sent reply) h = h
  first_attempt-login n second c (Attempted.dropped d sent) h =
      last_attempt-login c d sent (attempt type payload n second d) h (attempt-Keeps n second d)

  pub request-login :
      (n : ℕ) (first second : Weather) (c : TrackerClient)
      → login_of (request type payload n first second c).client ≡ login_of c
  unfolding request
  request-login n first second c =
      first_attempt-login n second c (attempt type payload n first c) (attempt-Keeps n first c)
