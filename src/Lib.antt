-- ===== src/Lib.antt =====
-- The peer-to-peer file sharing system: two trackers that keep the metadata of users, groups and
-- files, clients that share pieces of files, and the library that both use.
--
-- The program's parts and the modules that model them:
-- Protocol: common/protocol.hpp, the opcodes, the statuses, the limits and the message header.
-- Buffer: common/buffer.hpp and common/buffer.cpp. A written buffer is its bytes; a read takes the
--   unread bytes and returns the value and the bytes left. Buffer/Cursor has the fields of the class.
-- Net: send_all, recv_all, send_msg and recv_msg of common/net.cpp, over the kernel's answers;
--   Net/Phrases is status_str.
-- Stream, Endpoint: what the program reads as text: tokenize of client/main.cpp, parse_endpoint of
--   common/net.cpp, and the list of trackers of tracker/main.cpp and client/main.cpp. A stream is the
--   characters that are left.
-- Sha1: class SHA1 of common/sha1.cpp. HashFile is hash_file: its threads move on the counter, the flag
--   and the slots that they share, in the order of a schedule.
-- Tracker: tracker/tracker_state.cpp. The state is TrackerState; each method is a function of the
--   same name from its arguments and the state to the status and the state after it, in
--   Tracker/Users, Tracker/Groups, Tracker/Files and Tracker/Snapshot. Tracker/Calls has the calls as
--   data and what they make a user of a group, and Tracker/Validity the invariant. OrderedMap is std::map and std::set, Text is
--   std::string with its order.
-- Messages, Session: tracker/session.cpp. dispatch is a function of a request, the session and the
--   state; the reply and the op that is handed to the replication are in its result.
--   Session/Handlers has its cases, and under them the users that a session acts for.
--   Session/Connections has the connections of tracker/main.cpp with Session::run.
-- Sync: tracker/sync.cpp. Sync is SyncManager's state; Sync/Apply is apply_remote, Sync/Link is
--   process_peer_message and the opening of the link, Sync/Log the op log, Sync/Delivery the messages
--   on their way, up to one that recv_msg refuses, and Sync/Cluster the two trackers together. Sync/Recorders has the threads between the
--   locks of record_and_replicate, and Sync/Links start, stop, connect_loop and handle_peer_connection
--   with the descriptor of the link.
-- Process: tracker/main.cpp with all connections of a tracker: an event is a message of a client or of the
--   other tracker, or the opening or the end of a connection.
-- PieceStore: client/piece_store.cpp. A file is a function from offsets to bytes. PieceStore/Bitmap has
--   the marks, PieceStore/Disk the bytes, PieceStore/Verified the invariant, and PieceStore/Resume
--   resume_scan.
-- Seeder: client/seeder.cpp. serve_peer is a function of the shares and a request; Seeder/Fetch is the
--   other end, DownloadManager::fetch_piece, on a connection whose failures are arguments.
-- Download: client/download_manager.cpp. Download/Peers is decode_peer_list; Download/Workers is
--   peer_worker with announce and maybe_announce, as moves of workers on a shared queue and store;
--   Download/Job is run_job with its rounds, Download/Jobs the table of jobs, and Download/Supply a
--   piece on its way from a Seeder.
-- TrackerClient: client/tracker_client.cpp. request is a function of the client and of what each of its
--   two rounds meets.
-- Client: client/main.cpp. Client has the commands and the messages that they send, Client/Loop what
--   the replies change, Client/Loop/Download and Client/Start the job that a download is started with, and Client/Hashing and
--   Client/Seeding the hashes and the store of a file that is uploaded.
-- Examples: concrete data, tests, and each theorem at a concrete input.
--
-- The parts meet as in the program: Session calls Tracker and hands an op to Sync; Sync of the other
-- tracker decodes it with Buffer and calls its own Tracker; all messages are framed by Net. Download
-- fetches pieces from a Seeder into a PieceStore, and shares the store when it is complete; the peers
-- come from the answer that Session gives.
--
-- Conventions. A byte is a number below 256 and a string a list of bytes. Numbers of a fixed width
-- are natural numbers with the wrap-around written out where the code may reach it; what is written
-- to a message is cut to its field. Numbers in payloads are in the byte order of the host, taken to
-- be little-endian; the message header is in network order. A method that holds its lock for its
-- whole body is one step. The clock's reading and the kernel's answers are arguments.
--
-- Bounds and fuel. SHA1's update loop has the length of the data as fuel, since each round takes a
-- byte at least; the padding loop has 64, since at most 63 zero bytes are missing. The loops of
-- send_all and recv_all, and those of read_piece, write_piece and hash_file, use up one answer of the kernel a
-- round, and have a result of their own for answers that have run out. A job has kMaxRounds rounds, and
-- a request two, as in the code. The workers of a round follow a schedule, which may leave some of
-- them running; the job then has a result of its own. The threads of hash_file, those that record ops,
-- and connect_loop make one move for each entry of a schedule too. The loops that read words and lines
-- have the length of the text as fuel, since each round takes a character at least.
-- A bitmap has (n + 7) / 8 bytes for n pieces; the sum wraps in the code for a file of 2 ^ 32 - 7 pieces or
-- more only, which is above 2 petabytes.
--
-- Not modelled: timers and sleeps; the opening of sockets and files, which are calls of the system; what
-- client/main.cpp prints, and its prompt; the addresses that accept gives.
pub mod Base
pub mod Text
pub mod OrderedMap
pub mod Protocol
pub mod Net
pub mod Buffer
pub mod Stream
pub mod Endpoint
pub mod Sha1
pub mod PieceStore
pub mod Tracker
pub mod Messages
pub mod Session
pub mod Sync
pub mod HashFile
pub mod Process
pub mod Seeder
pub mod Download
pub mod TrackerClient
pub mod Client
pub mod Examples
