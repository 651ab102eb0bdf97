-- ===== src/Tests.antt =====
-- Runs of the modelled code at concrete inputs, and the theorems applied to them.
mod Jobs
mod Scheduling
mod Requests
mod Frames
mod Deadlines
mod Commands
mod Service
mod Processes
mod Pumps
mod Launches
