-- ===== src/Examples.antt =====
-- The theorems at concrete inputs.
mod Watching
mod Stores
mod Github
mod Cycles
mod Fetches
mod Handlers
mod Requests
mod Waits
mod Views
mod Servers
mod Workers
