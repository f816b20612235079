-- ===== src/Examples/Replicas.antt =====
-- The two trackers on concrete data.
use peer_to_peer_distributed.Base.{
  ◌≡◌, ◌≢◌, refl, sym, ◌∙◌, subst, some, none, true, false, [], ◌∷◌, ◌++◌, arith, some_eq,
}
use peer_to_peer_distributed.Text.{Str, str_ord, compare_str}
use peer_to_peer_distributed.Protocol.{MsgType, msg_type, opcode}
use peer_to_peer_distributed.Examples.{
  alice, bob, club, movie, alice_session, alice_group, two_ops, first_op, second_op, sender, fresh,
  one_user, receiver,
}
use peer_to_peer_distributed.Buffer.{
  u64_bytes, str_bytes, u32_bytes, u16_bytes, le_bytes, get_str, ◌>>=◌, get_u32, get_u64, get_le,
  get_raw, le_value, get_list, read_into,
}
use peer_to_peer_distributed.Messages.{get_upload}
use peer_to_peer_distributed.Tracker.{Group, TrackerState}
use peer_to_peer_distributed.Tracker.Users.{empty}
use peer_to_peer_distributed.Tracker.Groups.{create_group}
use peer_to_peer_distributed.OrderedMap.{find, has}
use peer_to_peer_distributed.Session.{Replicated}
use peer_to_peer_distributed.Session.Handlers.{dispatch, on_create_group}
use peer_to_peer_distributed.Session.Handlers.Replay.{Replays}
use peer_to_peer_distributed.Session.Handlers.FileReplay.{SessionFits, origin_bytes}
use peer_to_peer_distributed.Session.Handlers.Forgery.{seeded_by, dispatch_forged}
use peer_to_peer_distributed.Session.Handlers.Replication.{IsExact, dispatch-Replays}
use peer_to_peer_distributed.Sync.{next_op, op_message, record_and_replicate, trim, newer}
use peer_to_peer_distributed.Sync.Apply.{apply_remote}
use peer_to_peer_distributed.Sync.Link.{Node, on_op, process, acceptor_opens}
use peer_to_peer_distributed.Sync.Log.{LogValid}
use peer_to_peer_distributed.Sync.Delivery.{
  FitsLink, OpFits, deliver, apply_ops, with_log, catch_up,
}
use peer_to_peer_distributed.Sync.Cluster.{Request}
use peer_to_peer_distributed.Session.Handlers.Cases.{IsShared}
use peer_to_peer_distributed.Sync.Cluster.Agreement.{IsCarried}
use peer_to_peer_distributed.Sync.Cluster.Losses.{rejected_op_is_lost, unsent_ops_are_lost}

pub two_ops-LogValid : LogValid two_ops
two_ops-LogValid = record {
  ascending = (omega arith, (omega arith, tt));
  below = (omega arith, (omega arith, tt));
  positive = omega arith;
}

first_op-OpFits : OpFits first_op
first_op-OpFits = record {
  seq = omega arith;
  type = omega arith;
  ts = omega arith;
  payload = omega arith;
}

second_op-OpFits : OpFits second_op
second_op-OpFits = record {
  seq = omega arith;
  type = omega arith;
  ts = omega arith;
  payload = omega arith;
}

trim_test : trim 1 two_ops.log ≡ second_op ∷ []
unfolding trim
trim_test = refl

something_newer : newer 1 two_ops.log ≢ []
unfolding newer
something_newer = λ e. cc

catch_up_example :
    let (a', sent) = process (u64_bytes 1) sender MsgType.sync_catchup in
    let (b', acks) = deliver sent receiver in
    (a' ≡ sender)
    × (b' ≡ apply_ops (newer 1 sender.sync.log) receiver)
    × (deliver acks sender ≡ (with_log [] sender, []))
catch_up_example =
    catch_up 1 sender receiver (omega arith) two_ops-LogValid
      (first_op-OpFits, (second_op-OpFits, tt)) something_newer

first_op_refused : (apply_remote first_op.type first_op.payload receiver.state).0 ≡ false
unfolding apply_remote msg_type
first_op_refused = refl

rejected_op_is_lost_example :
    let (b', acks) = deliver (op_message first_op ∷ []) receiver in
    (b' ≡ receiver) × (deliver acks sender ≡ (with_log (newer 1 sender.sync.log) sender, []))
rejected_op_is_lost_example =
    rejected_op_is_lost first_op sender receiver first_op-OpFits two_ops-LogValid first_op_refused

receiver_has : empty receiver.state ≡ false
unfolding empty
receiver_has = refl

unsent_ops_are_lost_example :
    let (y, sent) = record_and_replicate 10 alice 8 sender.sync in
    let (b', acks) = deliver sent receiver in
    let a' : Node = record sender { sync = y } in
    ((acceptor_opens receiver).1 ≡ [])
    × (b' ≡ (on_op (next_op 10 alice 8 sender.sync) receiver).0)
    × (deliver acks a' ≡ (with_log [] a', []))
unsent_ops_are_lost_example =
    unsent_ops_are_lost 10 alice 8 sender receiver receiver_has refl (omega arith) two_ops-LogValid
      (record { seq = omega arith; type = omega arith; ts = omega arith; payload = omega arith })

-- A request to create a group.
abbrev pub club_bytes : Str
club_bytes = 1 ∷ 0 ∷ 0 ∷ 0 ∷ 99 ∷ []

pub alice_session-SessionFits : SessionFits alice_session
alice_session-SessionFits = record {
  user = omega arith;
  peer_ip = omega arith;
  seed_port = omega arith;
}

pub is_create_group :
    (t : MsgType) → msg_type (opcode MsgType.create_group) ≡ some t → MsgType.create_group ≡ t
unfolding msg_type opcode
is_create_group t e = some_eq e

pub create_group-IsExact :
    (t : MsgType) → msg_type (opcode MsgType.create_group) ≡ some t → IsExact t club_bytes
create_group-IsExact t e = subst (λ t. IsExact t club_bytes) (is_create_group t e) tt

dispatch-Replays_example :
    Replays one_user (dispatch club_bytes alice_session one_user (opcode MsgType.create_group))
dispatch-Replays_example =
    dispatch-Replays club_bytes alice_session one_user (omega arith) alice_session-SessionFits
      (opcode MsgType.create_group) create_group-IsExact

abbrev pub creation : Request
creation = record { type = opcode MsgType.create_group; payload = club_bytes; now = 3 }

create_group_op :
    (dispatch club_bytes alice_session one_user (opcode MsgType.create_group)).op
    ≡ some (record { type = MsgType.create_group; payload = club_bytes ++ 1 ∷ 0 ∷ 0 ∷ 0 ∷ 97 ∷ [] })
unfolding dispatch msg_type opcode on_create_group get_str ◌>>=◌ get_u32 get_le get_raw le_value
    create_group find compare_str str_bytes u32_bytes le_bytes
create_group_op = refl

pub create_group-FitsLink :
    (r : Replicated)
    → (dispatch club_bytes alice_session one_user (opcode MsgType.create_group)).op ≡ some r
    → FitsLink r.payload
create_group-FitsLink r e =
    subst (λ (r : Replicated). FitsLink r.payload) (some_eq (sym create_group_op ∙ e)) (omega arith)

creation-IsCarried : IsCarried creation alice_session fresh
creation-IsCarried = record {
  short = omega arith;
  session = alice_session-SessionFits;
  exact = create_group-IsExact;
  shared = λ t e. subst IsShared (is_create_group t e) tt;
  now = omega arith;
  payload = create_group-FitsLink;
}

-- An upload of a file without pieces to `club`, and behind it bob at another address.
abbrev forged_fields : Str
forged_fields =
    1 ∷ 0 ∷ 0 ∷ 0 ∷ 99 ∷ 1 ∷ 0 ∷ 0 ∷ 0 ∷ 109 ∷ 5 ∷ 0 ∷ 0 ∷ 0 ∷ 0 ∷ 0 ∷ 0 ∷ 0 ∷ 1 ∷ 0 ∷ 0 ∷ 0 ∷ 102
    ∷ 0 ∷ 0 ∷ 0 ∷ 0 ∷ []

forged_upload :
    get_upload (forged_fields ++ origin_bytes bob (50 ∷ []) 9)
    ≡ some ((club, movie), origin_bytes bob (50 ∷ []) 9 ++ [])
unfolding get_upload ◌>>=◌ get_str get_u32 get_le get_raw le_value get_list read_into get_u64
    origin_bytes u16_bytes str_bytes u32_bytes le_bytes
forged_upload = refl

-- A group of alice and bob.
abbrev both : Group
both = record alice_group { members = (alice, tt) ∷ (bob, tt) ∷ []; pending = [] }

abbrev both_state : TrackerState
both_state = record { users = []; groups = (club, both) ∷ [] }

club_found : find club both_state.groups ≡ some both
unfolding find compare_str
club_found = refl

bob_in : has bob both.members ≡ true
unfolding find compare_str
bob_in = refl

alice_in : has alice both.members ≡ true
unfolding find compare_str
alice_in = refl

no_movie : find movie.name both.files ≡ none
unfolding find
no_movie = refl

abbrev forged : Str
forged = forged_fields ++ origin_bytes bob (50 ∷ []) 9

dispatch_forged_example :
    let served = dispatch forged alice_session both_state (opcode MsgType.upload_file) in
    (served.state
      ≡ seeded_by both_state club movie both club_found no_movie refl refl alice (49 ∷ []) 7)
    × (op : Replicated) × (served.op ≡ some op)
    × (apply_remote (opcode op.type) op.payload both_state ≡ (
      true,
      seeded_by both_state club movie both club_found no_movie refl refl bob (50 ∷ []) 9,
    ))
dispatch_forged_example =
    dispatch_forged both_state club movie both club_found no_movie refl refl forged [] alice_session
      bob (50 ∷ []) 9 (omega arith) (omega arith) (omega arith) refl bob_in refl alice_in
      forged_upload
