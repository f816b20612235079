-- ===== src/Sync/Cluster/Silence.antt =====
-- A request that hands no op to the replication leaves the tracker's metadata as it was.
use peer_to_peer_distributed.Base.{ℕ, ◌≡◌, ◌≢◌, refl, inl, inr, none, some, Option-cases}
use peer_to_peer_distributed.Text.{Str}
use peer_to_peer_distributed.Protocol.{Status, MsgType, msg_type}
use peer_to_peer_distributed.Tracker.{TrackerState, Outcome}
use peer_to_peer_distributed.Tracker.Calls
use peer_to_peer_distributed.Tracker.Calls.{perform}
use peer_to_peer_distributed.Tracker.Calls.Errors.{perform_error}
use peer_to_peer_distributed.Session.{Session, Served, conclude}
use peer_to_peer_distributed.Session.Handlers.{handle, dispatch}
use peer_to_peer_distributed.Session.Handlers.Cases.{IsShared, shared_case}

-- What hands nothing to the replication leaves the metadata as it was.
abbrev pub Silent : TrackerState → Served → Type 0
Silent s served = served.op ≡ none → served.state ≡ s

conclude-Silent :
    (s : TrackerState) (ses : Session) (c : Calls.Call) (t : MsgType) (payload : Str)
    → Silent s (conclude ses (perform c s) t payload)
conclude-Silent s ses c t payload h = perform_error c s (failed (perform c s) h)
  where
    failed : (out : Outcome) → (conclude ses out t payload).op ≡ none → out.0 ≢ Status.ok
    failed (Status.ok, s') h k = cc
    failed (_, s') h k = cc

module _ (payload : Str) (ses : Session) (s : TrackerState) where
  handle-Silent : (t : MsgType) → IsShared t → Silent s (handle payload ses s t)
  handle-Silent t x =
      shared_case payload ses s (Silent s) (λ c _. conclude-Silent s ses c) (λ _ e _. e.0) t x

  pub dispatch-Silent :
      (type : ℕ)
      → ((t : MsgType) → msg_type type ≡ some t → IsShared t)
      → Silent s (dispatch payload ses s type)
  unfolding dispatch
  dispatch-Silent type shared = elim (Option-cases (msg_type type)) [
    | inl e ↦ rw (e, dispatch) (λ _. refl)
    | inr (t, e) ↦ rw (e, dispatch) (handle-Silent t (shared t e))
  ]
