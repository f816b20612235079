-- ===== src/TrackerClient/Failover.antt =====
-- A request that may lose its connection.
use peer_to_peer_distributed.Base.{
  sym, subst, Bool, if◌then◌else◌, ℕ, ◌<◌, ◌≡◌, refl, ◌∙◌, ap, ◌⊎◌, inl, inr, true, false, Option,
  none, some, List, [], ◌∷◌, ◌++◌, Bool-cases, is_some,
}
use peer_to_peer_distributed.Text.{Str}
use peer_to_peer_distributed.Protocol.{MsgType, Status}
use peer_to_peer_distributed.TrackerClient.{
  TrackerClient, Sent, Weather, Attempted, Requested, is_login, login_message, request_message,
  exchange, attempt, last_attempt, first_attempt, request,
}
use peer_to_peer_distributed.TrackerClient.Rounds.{
  Lost, IsReached, IsAnswered, Replayed, attempt-Lost, attempt-Replayed, attempt-IsReached,
  attempt-IsAnswered,
}

when_true : (b : Bool) (x y : Attempted) → b ≡ true → (if b then x else y) ≡ x
when_true true x y h = refl
when_true false x y h = cc

-- After the whole loop: the request alone on the connection that the client had, or behind the login.
module _ (type : MsgType) (payload : Str) (c : TrackerClient) where
  abbrev Good : Requested → Type 0
  Good r =
      ((c.connected ≡ true) × (r.sent ≡ request_message type payload c ∷ []))
      ⊎ ((before : List Sent) × (r.sent
            ≡ before ++ login_message r.client ∷ request_message type payload r.client ∷ []))

  abbrev Direct : Attempted → Type 0
  Direct (Attempted.answered d sent r) =
      ((c.connected ≡ true) × (sent ≡ request_message type payload c ∷ []))
      ⊎ Replayed type payload (Attempted.answered d sent r)
  Direct _ = Unit {0}

  direct : (r : Option (Status × Str)) → c.connected ≡ true → Direct (exchange type payload c [] r)
  direct none h = tt
  direct (some r) h = inl (h, refl)

  of_Replayed : (a : Attempted) → Replayed type payload a → Direct a
  of_Replayed Attempted.unreachable h = tt
  of_Replayed (Attempted.dropped d sent) h = tt
  of_Replayed (Attempted.answered d sent r) h = inr h

  attempt-Direct :
      (n : ℕ) (w : Weather)
      → c.logged_in ≡ true
      → is_login type ≡ false
      → Direct (attempt type payload n w c)
  unfolding attempt
  attempt-Direct n w l k = elim (Bool-cases c.connected) [
    | inl h ↦ subst Direct (sym (when_true c.connected _ _ h)) (direct w.reply h)
    | inr h ↦ of_Replayed (attempt type payload n w c) (attempt-Replayed type payload n w c h l k)
  ]

  last_attempt-Good :
      (d : TrackerClient) (sent : List Sent) (reply : Status × Str) (a : Attempted)
      → Replayed type payload a
      → (last_attempt d sent a).reply ≡ some reply
      → Good (last_attempt d sent a)
  last_attempt-Good d sent reply Attempted.unreachable h e = cc
  last_attempt-Good d sent reply (Attempted.dropped d' more) h e = cc
  last_attempt-Good d sent reply (Attempted.answered d' more r) h e =
      inr (sent, ap (λ xs. sent ++ xs) h)

  first_attempt-Good :
      (n : ℕ) (second : Weather) (reply : Status × Str) (a : Attempted)
      → c.logged_in ≡ true
      → is_login type ≡ false
      → Lost c.logged_in a
      → Direct a
      → (first_attempt type payload n second c a).reply ≡ some reply
      → Good (first_attempt type payload n second c a)
  first_attempt-Good n second reply Attempted.unreachable l k lost h e = cc
  first_attempt-Good n second reply (Attempted.answered d sent r) l k lost (inl h) e = inl h
  first_attempt-Good n second reply (Attempted.answered d sent r) l k lost (inr h) e = inr ([], h)
  first_attempt-Good n second reply (Attempted.dropped d sent) l k lost h e =
      last_attempt-Good d sent reply (attempt type payload n second d)
        (attempt-Replayed type payload n second d lost.0 (lost.1 ∙ l) k) e

is_answered :
    (d : TrackerClient) (sent : List Sent) (x : Attempted)
    → IsAnswered x
    → is_some (last_attempt d sent x).reply ≡ true
is_answered d sent Attempted.unreachable h = elim h [ ]
is_answered d sent (Attempted.dropped d' more) h = elim h [ ]
is_answered d sent (Attempted.answered d' more r) h = refl

module _ (type : MsgType) (payload : Str) where
  -- If the client has a login and the request is another one and gets a reply, then it was sent on the
  -- connection that the client had, or right after the login to the same tracker.
  pub request_replays_login :
      (n : ℕ) (first second : Weather) (c : TrackerClient) (reply : Status × Str)
      → c.logged_in ≡ true
      → is_login type ≡ false
      → (request type payload n first second c).reply ≡ some reply
      → ((c.connected ≡ true)
          × ((request type payload n first second c).sent ≡ request_message type payload c ∷ []))
        ⊎ ((before : List Sent) × ((request type payload n first second c).sent
              ≡ before
                ++ login_message (request type payload n first second c).client
                  ∷ request_message type payload (request type payload n first second c).client
                  ∷ []))
  unfolding request
  request_replays_login n first second c reply l k =
      first_attempt-Good type payload c n second reply (attempt type payload n first c) l k
        (attempt-Lost type payload n first c) (attempt-Direct type payload c n first l k)

  -- A request gets a reply if a tracker accepts connections in each of its two rounds, and in the second
  -- one the login and the request are replied to, whatever happened to the connection that the client
  -- had.
  pub request_answered :
      (n k m : ℕ) (first second : Weather) (c : TrackerClient) (status : Status)
      (reply : Status × Str)
      → k < n
      → first.accepts k ≡ true
      → m < n
      → second.accepts m ≡ true
      → second.login_reply ≡ some status
      → second.reply ≡ some reply
      → is_some (request type payload n first second c).reply ≡ true
  unfolding request
  request_answered n k m first second c status reply lk hk lm hm a b =
      by_first (attempt type payload n first c) (attempt-Lost type payload n first c)
        (attempt-IsReached type payload n k first c lk hk)
    where
      by_first :
          (x : Attempted)
          → Lost c.logged_in x
          → IsReached x
          → is_some (first_attempt type payload n second c x).reply ≡ true
      by_first Attempted.unreachable lost h = elim h [ ]
      by_first (Attempted.answered c' sent r) lost h = refl
      by_first (Attempted.dropped c' sent) lost h =
          is_answered c' sent (attempt type payload n second c')
            (attempt-IsAnswered type payload n m second c' status reply lost.0 lm hm a b)
