-- ===== src/Tests.antt =====
-- Runs on concrete frames, and the theorems at concrete inputs.
mod Fixtures
mod Roomy
mod Frames
mod Requests
mod Acknowledgments
mod Messages
mod Streams
mod Totals
mod Endings
mod Sessions
mod Replies
mod Programs
mod Tables
mod Accepted
