-- ===== src/Examples/Memberships.antt =====
-- How a user logs in, joins a group and leaves it, on concrete calls and requests.
use peer_to_peer_distributed.Base.{◌≡◌, ◌≢◌, refl, sym, ◌∙◌, List, [], ◌∷◌, ◌++◌, ◌⊎◌}
use peer_to_peer_distributed.Text.{Str, compare_str}
use peer_to_peer_distributed.OrderedMap.{find, put, erase}
use peer_to_peer_distributed.Examples.{alice, bob, club, alice_session}
use peer_to_peer_distributed.Tracker.{initial}
use peer_to_peer_distributed.Buffer.{str_bytes, u16_bytes}
use peer_to_peer_distributed.Protocol.{MsgType, opcode, msg_type}
use peer_to_peer_distributed.Session.Handlers.{dispatch}
use peer_to_peer_distributed.Session.{connected}
use peer_to_peer_distributed.Session.Handlers.Identity.{Becomes, dispatch-Becomes}
use peer_to_peer_distributed.Session.Handlers.Authority.{ChangedBy, dispatch-ChangedBy}
use peer_to_peer_distributed.Tracker.Users
use peer_to_peer_distributed.Tracker.Groups
use peer_to_peer_distributed.Tracker.Calls.{
  Call, create_user, create_group, join_group, accept_request, leave_group, perform, run,
}
use peer_to_peer_distributed.Tracker.Calls.Roles.{stranger, member, role, Owns}
use peer_to_peer_distributed.Tracker.Calls.Admission.{run_admits, run_leaves}
use peer_to_peer_distributed.Tracker.Validity.{initial-IsValid}
use peer_to_peer_distributed.Tracker.Validity.Preserved.{run-IsValid}

-- Bob asks to join the group of Alice, and she accepts him.
abbrev joining : List Call
joining =
    create_user alice (49 ∷ [])
    ∷ create_user bob (50 ∷ [])
    ∷ create_group club alice
    ∷ join_group club bob
    ∷ accept_request club alice bob
    ∷ []

-- Alice leaves, and then Bob.
abbrev leaving : List Call
leaving = leave_group club alice ∷ leave_group club bob ∷ []

bob_joined : role club bob (run joining initial) ≡ member
unfolding perform run Users.create_user Groups.create_group Groups.join_group Groups.accept_request
    find put erase compare_str
bob_joined = refl

bob_is_new : role club bob initial ≡ stranger
unfolding find
bob_is_new = refl

run_admits_example :
    ((before : List Call) × (after : List Call) × (joining
        ≡ before ++ create_group club bob ∷ after))
    ⊎ ((owner : Str) × (before : List Call) × (between : List Call) × (after : List Call) × (joining
          ≡ before ++ join_group club bob ∷ between ++ accept_request club owner bob ∷ after)
        × Owns (run (before ++ join_group club bob ∷ between) initial) club owner)
run_admits_example = run_admits club bob joining initial initial-IsValid bob_is_new bob_joined

bob_left : role club bob (run leaving (run joining initial)) ≡ stranger
unfolding perform run Users.create_user Groups.create_group Groups.join_group Groups.accept_request
    Groups.leave_group find put erase compare_str
bob_left = refl

bob_is_out : role club bob (run leaving (run joining initial)) ≢ member
bob_is_out e = differ (sym bob_left ∙ e)
  where
    differ : stranger ≢ member
    differ = λ h. cc

run_leaves_example :
    (before : List Call) × (after : List Call) × (leaving ≡ before ++ leave_group club bob ∷ after)
run_leaves_example =
    run_leaves club bob leaving (run joining initial) (run-IsValid joining) bob_joined bob_is_out

-- Bob has asked, and a request of Alice accepts him.
abbrev asking : List Call
asking =
    create_user alice (49 ∷ [])
    ∷ create_user bob (50 ∷ [])
    ∷ create_group club alice
    ∷ join_group club bob
    ∷ []

abbrev acceptance : Str
acceptance = str_bytes club ++ str_bytes bob

dispatch-ChangedBy_example :
    ChangedBy alice_session (run asking initial) club bob (role club bob (run asking initial)) (
      role club bob
        (dispatch acceptance alice_session
          (run asking initial)
          (opcode MsgType.accept_request)).state)
dispatch-ChangedBy_example =
    dispatch-ChangedBy acceptance alice_session (run asking initial) (run-IsValid asking) club bob
      (opcode MsgType.accept_request)

-- A request of Alice to log in, on a new connection.
abbrev credentials : Str
credentials = str_bytes alice ++ (str_bytes (49 ∷ []) ++ u16_bytes 7)

dispatch-Becomes_example :
    Becomes credentials
      (connected (49 ∷ []))
      (run asking initial)
      (msg_type (opcode MsgType.login))
      (dispatch credentials
        (connected (49 ∷ []))
        (run asking initial)
        (opcode MsgType.login)).session
dispatch-Becomes_example =
    dispatch-Becomes credentials (connected (49 ∷ [])) (run asking initial) (opcode MsgType.login)
