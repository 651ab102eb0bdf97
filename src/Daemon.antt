-- ===== src/Daemon.antt =====
-- src/runnerd_main.cpp: what the daemon does with its options and its jobs, away from the sockets.
pub mod Options
pub mod Responses
pub mod Connections
pub mod Jobs
pub mod Requests
pub mod Serving
pub mod DeadlineEvents
