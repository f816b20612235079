-- ===== src/Session/Handlers/Authority.antt =====
-- In whose name a request changes what users are in the groups.
use peer_to_peer_distributed.Base.{
  ℕ, ◌≡◌, refl, ap, subst, false, inl, inr, Option-cases, ◌⊎◌, if_cases,
}
use peer_to_peer_distributed.Text.{Str, is_empty}
use peer_to_peer_distributed.Protocol.{Status, MsgType, msg_type}
use peer_to_peer_distributed.Messages.{get_login}
use peer_to_peer_distributed.Tracker.{TrackerState, Outcome}
use peer_to_peer_distributed.Tracker.Calls
use peer_to_peer_distributed.Tracker.Calls.{Call, perform}
use peer_to_peer_distributed.Tracker.Calls.Roles.{
  Role, stranger, waiting, member, role, Owns, Edge, stays, founds, asks, admitted, leaves,
  dissolved,
}
use peer_to_peer_distributed.Tracker.Calls.Steps.{perform-Edge}
use peer_to_peer_distributed.Tracker.Validity.{IsValid}
use peer_to_peer_distributed.Session.{Session, Served}
use peer_to_peer_distributed.Session.Handlers.{handle, dispatch, on_login, on_logout, after_login}
use peer_to_peer_distributed.Session.Handlers.Cases.{IsBy, shared_case}

-- What a user may do to the role of a user in a group: to the own role, or as the group's owner.
pub data Change (s : TrackerState) (by gid who : Str) : Role → Role → Type 0 where
  creates : who ≡ by → Change s by gid who stranger member
  requests : who ≡ by → Change s by gid who stranger waiting
  leaves_it : who ≡ by → Change s by gid who member stranger
  lets_in : Owns s gid by → Change s by gid who waiting member
  disbands : Owns s gid by → Change s by gid who waiting stranger

-- The role is what it was, or it is changed by the session's user, who is logged in.
abbrev pub ChangedBy : Session → TrackerState → Str → Str → Role → Role → Type 0
ChangedBy ses s gid who r q =
    (q ≡ r) ⊎ ((is_empty ses.user ≡ false) × Change s ses.user gid who r q)

Edge-ChangedBy :
    (ses : Session) (s : TrackerState) {c : Call} {gid who : Str} {r q : Role}
    → Edge s c gid who r q
    → IsBy ses c
    → ChangedBy ses s gid who r q
Edge-ChangedBy ses s stays by = inl refl
Edge-ChangedBy ses s founds (own, logged) = inr (logged, Change.creates own)
Edge-ChangedBy ses s asks (own, logged) = inr (logged, Change.requests own)
Edge-ChangedBy ses s leaves (own, logged) = inr (logged, Change.leaves_it own)
Edge-ChangedBy ses s {gid = gid} (admitted owns) (own, logged) =
    inr (logged, Change.lets_in (subst (Owns s gid) own owns))
Edge-ChangedBy ses s {gid = gid} (dissolved owns) (own, logged) =
    inr (logged, Change.disbands (subst (Owns s gid) own owns))

module _ (payload : Str) (ses : Session) (s : TrackerState) (v : IsValid s) (gid who : Str) where
  abbrev After : TrackerState → Type 0
  After t = ChangedBy ses s gid who (role gid who s) (role gid who t)

  abbrev Kept : Served → Type 0
  Kept served = After served.state

  by_call : (c : Call) → IsBy ses c → After (perform c s).1
  by_call c by = Edge-ChangedBy ses s (perform-Edge s gid who c v) by

  after_login-Kept :
      (uid : Str) (port : ℕ) (out : Outcome)
      → After out.1
      → Kept (after_login payload ses s uid port out)
  unfolding after_login
  after_login-Kept uid port (Status.ok, s') h = h
  after_login-Kept uid port (_, s') h = h

  on_login-Kept : Kept (on_login payload ses s)
  unfolding on_login perform
  on_login-Kept = elim (Option-cases (get_login payload)) [
    | inl e ↦ rw (e, on_login) (inl refl)
    | inr (((uid, pwd, port), rest), e) ↦
        rw (e, on_login)
          (after_login-Kept uid port _ (by_call (Calls.login uid pwd ses.peer_ip port) tt))
  ]

  on_logout-Kept : Kept (on_logout payload ses s)
  unfolding on_logout perform
  on_logout-Kept =
      if_cases Kept (is_empty ses.user) _ _ (λ _. inl refl)
        (λ e. by_call (Calls.logout ses.user) (refl, e))

  handle-Kept : (t : MsgType) → Kept (handle payload ses s t)
  unfolding handle
  handle-Kept MsgType.login = on_login-Kept
  handle-Kept MsgType.logout = on_logout-Kept
  handle-Kept t =
      shared_case payload ses s Kept (λ c by _ _. by_call c by)
        (λ served e. inl (ap (role gid who) e.0)) t tt

  -- In a valid state, whatever the opcode and the payload of a request: what any user is in any group
  -- stays what it was, or the session's user is logged in and changes it, as its own (a stranger
  -- founds the group or asks to join it, a member leaves it) or as the group's owner (one who waits
  -- is let in, or the group that the last member leaves is gone).
  pub dispatch-ChangedBy :
      (type : ℕ)
      → ChangedBy ses s gid who (role gid who s) (role gid who (dispatch payload ses s type).state)
  unfolding dispatch
  dispatch-ChangedBy type = elim (Option-cases (msg_type type)) [
    | inl e ↦ rw (e, dispatch) (inl refl)
    | inr (t, e) ↦ rw (e, dispatch) (handle-Kept t)
  ]
