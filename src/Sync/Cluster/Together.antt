-- ===== src/Sync/Cluster/Together.antt =====
-- The two trackers behind a link, with requests at either side, beside a single tracker.
use peer_to_peer_distributed.Base.{◌^◌, ◌<◌, ◌≡◌, Bool, some, List, [], ◌∷◌, length, if◌then◌else◌}
use peer_to_peer_distributed.Protocol.{MsgType, msg_type}
use peer_to_peer_distributed.Tracker.{TrackerState}
use peer_to_peer_distributed.Session.{Session, Replicated}
use peer_to_peer_distributed.Session.Handlers.{dispatch}
use peer_to_peer_distributed.Session.Handlers.FileReplay.{SessionFits}
use peer_to_peer_distributed.Session.Handlers.Replication.{IsExact}
use peer_to_peer_distributed.Session.Handlers.Cases.{IsShared}
use peer_to_peer_distributed.Sync.Cluster.{Request, serve}
use peer_to_peer_distributed.Sync.Delivery.{FitsLink}
use peer_to_peer_distributed.Sync.Cluster.Exchange.{Pair, cross_link, swap}

-- One request, with its messages and their acknowledgements delivered.
unfoldable pub visit : Request → Session → Pair → Pair
visit q ses w = let (ses', a, out) = serve q ses w.here in cross_link a out w.there

-- A request at the first tracker or at the second one.
pub record Visit : Type 0 where
  pub first : Bool
  pub request : Request
  pub session : Session

unfoldable pub visits : List Visit → Pair → Pair
visits [] w = w
visits (v ∷ vs) w =
    visits vs
      (if v.first then visit v.request v.session w else swap (visit v.request v.session (swap w)))

-- The same requests at one tracker.
abbrev pub served_state : Visit → TrackerState → TrackerState
served_state v s = (dispatch v.request.payload v.session s v.request.type).state

abbrev pub all_served : List Visit → TrackerState → TrackerState
all_served [] s = s
all_served (v ∷ vs) s = all_served vs (served_state v s)

-- A request that is not a login or a logout, and whose op the link can carry, its message not above
-- MAX_PAYLOAD, at a tracker with this metadata.
pub record IsCarriedVisit (v : Visit) (s : TrackerState) : Type 0 where
  pub short : length v.request.payload < 2 ^ 32
  pub session : SessionFits v.session
  pub exact : (t : MsgType) → msg_type v.request.type ≡ some t → IsExact t v.request.payload
  pub shared : (t : MsgType) → msg_type v.request.type ≡ some t → IsShared t
  pub now : v.request.now < 2 ^ 64
  pub payload :
      (r : Replicated)
      → (dispatch v.request.payload v.session s v.request.type).op ≡ some r
      → FitsLink r.payload

abbrev pub AllCarried : List Visit → TrackerState → Type 0
AllCarried [] s = Unit {0}
AllCarried (v ∷ vs) s = IsCarriedVisit v s × AllCarried vs (served_state v s)
