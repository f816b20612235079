-- ===== src/Download.antt =====
-- client/download_manager.hpp and client/download_manager.cpp: a download, from the peers of a file
-- to a store in which every piece was verified. Download/Peers is the tracker's answer about a file,
-- Download/Workers the threads of a round over their shared queue, and Download/Job the rounds. The
-- clock and what the peers send are arguments.
pub mod Peers
pub mod Workers
pub mod Job
pub mod Jobs
pub mod Supply
