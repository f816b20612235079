-- ===== src/Session/Handlers/Identity.antt =====
-- How a session comes to act as a user.
use peer_to_peer_distributed.Base.{
  ℕ, ◌≡◌, ◌≢◌, Option, refl, some, inl, inr, [], Option-cases, ◌⊎◌, if_cases,
}
use peer_to_peer_distributed.Text.{Str, str_ord, is_empty}
use peer_to_peer_distributed.OrderedMap.{find}
use peer_to_peer_distributed.Protocol.{Status, MsgType, msg_type}
use peer_to_peer_distributed.Messages.{get_login}
use peer_to_peer_distributed.Tracker.{User, TrackerState}
use peer_to_peer_distributed.Tracker.Users.{hash_password}
use peer_to_peer_distributed.Tracker.Users.Cases.{login_cases}
use peer_to_peer_distributed.Session.{Session, Served}
use peer_to_peer_distributed.Session.Handlers.{handle, dispatch, on_login, on_logout, after_login}
use peer_to_peer_distributed.Session.Handlers.Cases.{IsShared, shared_case}

-- A login request with the password of a user that the tracker has, after which the session is that
-- user's, with the port that the request gives.
pub record Login (payload : Str) (ses : Session) (s : TrackerState) (after : Session) : Type 0 where
  pub uid : Str
  pub pwd : Str
  pub port : ℕ
  pub rest : Str
  pub user : User
  pub reads : get_login payload ≡ some ((uid, pwd, port), rest)
  pub found : find uid s.users ≡ some user
  pub right : user.password ≡ hash_password pwd
  pub becomes : after ≡ record ses { user = uid; seed_port = port }

module _ (payload : Str) (ses : Session) (s : TrackerState) where
  -- What a request makes of the session: nothing, by a logout nobody's, or a user's by a login.
  abbrev pub Becomes : Option MsgType → Session → Type 0
  Becomes o after =
      (after ≡ ses)
      ⊎ (((o ≡ some MsgType.logout) × (after ≡ record ses { user = [] }))
          ⊎ ((o ≡ some MsgType.login) × Login payload ses s after))

  on_login-Becomes : Becomes (some MsgType.login) (on_login payload ses s).session
  unfolding on_login
  on_login-Becomes = elim (Option-cases (get_login payload)) [
    | inl e ↦ rw (e, on_login) (inl refl)
    | inr (((uid, pwd, port), rest), e) ↦
        rw (e, on_login)
          (login_cases
            (λ out. Becomes (some MsgType.login) (after_login payload ses s uid port out).session) s
            (refused uid port) uid pwd ses.peer_ip port
            (λ u found right. inr (
              inr (
                refl,
                record {
                  uid = uid;
                  pwd = pwd;
                  port = port;
                  rest = rest;
                  user = u;
                  reads = e;
                  found = found;
                  right = right;
                  becomes = refl;
                },
              ))))
  ]
    where
      refused :
          (uid : Str) (port : ℕ) (e : Status)
          → e ≢ Status.ok
          → Becomes (some MsgType.login) (after_login payload ses s uid port (e, s)).session
      refused uid port Status.ok h = absurd (h refl)
      refused uid port _ h = inl refl

  on_logout-Becomes : Becomes (some MsgType.logout) (on_logout payload ses s).session
  unfolding on_logout
  on_logout-Becomes =
      if_cases {A = Served} (λ served. Becomes (some MsgType.logout) served.session)
        (is_empty ses.user) _ _ (λ _. inl refl) (λ _. inr (inl (refl, refl)))

  shared-Becomes : (t : MsgType) → IsShared t → (handle payload ses s t).session ≡ ses
  shared-Becomes t x =
      shared_case payload ses s (λ served. served.session ≡ ses) (λ _ _ _ _. refl) (λ _ e. e.1) t x

  handle-Becomes : (t : MsgType) → Becomes (some t) (handle payload ses s t).session
  unfolding handle
  handle-Becomes MsgType.login = on_login-Becomes
  handle-Becomes MsgType.logout = on_logout-Becomes
  handle-Becomes t = inl (shared-Becomes t tt)

  -- Whatever the opcode and the payload of a request and whatever its answer, the session is the one
  -- before, or the opcode is that of a logout and the session is nobody's, or it is that of a login
  -- with the password of a user that the tracker has and the session is that user's.
  pub dispatch-Becomes : (type : ℕ) → Becomes (msg_type type) (dispatch payload ses s type).session
  unfolding dispatch
  dispatch-Becomes type = elim (Option-cases (msg_type type)) [
    | inl e ↦ rw (e, dispatch) (inl refl)
    | inr (t, e) ↦ rw (e, dispatch) (handle-Becomes t)
  ]
