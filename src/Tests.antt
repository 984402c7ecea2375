-- ===== src/Tests.antt =====
-- The theorems at concrete inputs: a small map, a server with two players, frames of a client.
pub mod Fixtures
pub mod Grid
pub mod Wire
pub mod Village
pub mod Server
pub mod Rounds
pub mod Runs
pub mod Tokens
pub mod Requests
pub mod Returns
pub mod Clients
pub mod Starts
