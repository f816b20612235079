-- ===== src/Examples/Clients.antt =====
-- Commands of a client and connections of a tracker, on concrete data.
use peer_to_peer_distributed.Base.{
  ◌≡◌, refl, true, false, none, some, List, [], ◌∷◌, ◌++◌, arith, length, All, replicate,
}
use peer_to_peer_distributed.Text.{str_ord, compare_str}
use peer_to_peer_distributed.OrderedMap.{values}
use peer_to_peer_distributed.Protocol.{MsgType, Status, opcode}
use peer_to_peer_distributed.Buffer.{str_bytes, u32_bytes, le_bytes}
use peer_to_peer_distributed.Tracker.Calls
use peer_to_peer_distributed.Tracker.Calls.{perform}
use peer_to_peer_distributed.Session.Handlers.{dispatch, meta_bytes}
use peer_to_peer_distributed.Download.Peers.{others}
use peer_to_peer_distributed.Client
use peer_to_peer_distributed.Client.{Command, message_of, parse_command}
use peer_to_peer_distributed.Client.Words.{login_word}
use peer_to_peer_distributed.Client.Requests.{call_of, command_served}
use peer_to_peer_distributed.Client.Loop.Download.{download_of, after_reply-meta_bytes}
use peer_to_peer_distributed.Download.Jobs.{start}
use peer_to_peer_distributed.Net.{Answer, Progress, header_of, recv_msg}
use peer_to_peer_distributed.Net.Framing.{wire}
use peer_to_peer_distributed.Net.Transfer.{IsProgress}
use peer_to_peer_distributed.Text.{Str}
use peer_to_peer_distributed.Client.Loop.{ClientState, Surroundings, run_commands, after_reply}
use peer_to_peer_distributed.Client.Loop.Login.{LoginKept, IsNobody, run_commands-LoginKept}
use peer_to_peer_distributed.Examples.{alice, bob, club, small_state, alice_session}
use peer_to_peer_distributed.Examples.Downloads.{seeded, seeded-FileFits}

parsed : parse_command (login_word ∷ alice ∷ bob ∷ []) ≡ Client.login alice bob
unfolding parse_command compare_str
parsed = refl

abbrev acceptance : Str
acceptance = str_bytes club ++ str_bytes bob

-- The kernel moves a byte at a time.
abbrev slow : List Answer
slow = replicate 22 (Answer.moved 1)

slow-IsProgress : All IsProgress slow
slow-IsProgress = (
  tt,
  (
    tt,
    (
      tt,
      (
        tt,
        (
          tt,
          (
            tt,
            (
              tt,
              (
                tt,
                (
                  tt,
                  (tt, (tt, (tt, (tt, (tt, (tt, (tt, (tt, (tt, (tt, (tt, (tt, (tt, tt))))))))))))),
                ),
              ),
            ),
          ),
        ),
      ),
    ),
  ),
)

acceptance_fits : length acceptance ≡ 10
unfolding str_bytes u32_bytes le_bytes
acceptance_fits = refl

command_served_example :
    ((left : List Answer) × (recv_msg
          (record {
            answers = slow;
            stream = wire (opcode MsgType.accept_request) 0 acceptance ++ [];
          })
          (header_of 0 0 [])
        ≡ (
          Progress.done,
          header_of (opcode MsgType.accept_request) 0 acceptance,
          acceptance,
          record { answers = left; stream = [] },
        )))
    × ((dispatch acceptance alice_session small_state (opcode MsgType.accept_request)).status
        ≡ (perform (Calls.accept_request club alice bob) small_state).0)
    × ((dispatch acceptance alice_session small_state (opcode MsgType.accept_request)).state
        ≡ (perform (Calls.accept_request club alice bob) small_state).1)
unfolding message_of call_of
command_served_example =
    command_served 7 alice_session small_state none (Client.accept_request club bob)
      (record { type = MsgType.accept_request; payload = acceptance })
      (Calls.accept_request club alice bob) slow (header_of 0 0 []) [] (omega arith) refl
      (omega arith, omega arith) refl refl (omega (arith, acceptance_fits)) slow-IsProgress
      (omega (arith, acceptance_fits))

abbrev nobody : ClientState
nobody = record {
  tracker = record {
    connected = false;
    current = 0;
    logged_in = false;
    last_uid = [];
    last_pwd = [];
    last_port = 0;
  };
  shares = [];
  jobs = [];
  logged_in_as = [];
}

abbrev calm : Surroundings
calm = record {
  hashed = none;
  reopened = none;
  first = record { accepts = λ i. true; login_reply = none; reply = some (Status.ok, []) };
  second = record { accepts = λ i. true; login_reply = none; reply = none };
}

nobody-LoginKept : LoginKept nobody
nobody-LoginKept = record { user = λ h. cc; nobody = λ h. refl }

abbrev evening : List (Surroundings × Command)
evening = (calm, Client.login alice bob) ∷ (calm, Client.join_group club) ∷ []

run_commands-LoginKept_example :
    LoginKept (run_commands 2 7 evening nobody)
    × IsNobody (
        run_commands 2 7
          (evening ++ (calm, Client.logout) ∷ (calm, Client.list_groups) ∷ [])
          nobody)
run_commands-LoginKept_example =
    run_commands-LoginKept 2 7 evening ((calm, Client.list_groups) ∷ []) calm nobody (tt, tt)
      nobody-LoginKept

after_reply-meta_bytes_example :
    after_reply 7 calm
      (Client.download_file club (109 ∷ []) bob)
      (some (Status.ok, meta_bytes seeded))
      nobody
    ≡ elim (others [] (values seeded.seeders)) [
      | [] ↦ nobody
      | peer ∷ peers ↦ record nobody {
        jobs = (start (download_of club (109 ∷ []) [] seeded (peer ∷ peers)) []).1;
      }
    ]
after_reply-meta_bytes_example =
    after_reply-meta_bytes 7 calm club (109 ∷ []) bob seeded nobody seeded-FileFits
