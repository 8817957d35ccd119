-- ===== src/Github.antt =====
-- internal/github: what the program reads from the GitHub API.
pub mod Classify
pub mod Review
pub mod Pages
pub mod Fetch
pub mod Threads
pub mod Checks
pub mod Request
pub mod Diagnostics
pub mod Gateway
