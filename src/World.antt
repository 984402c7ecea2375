-- ===== src/World.antt =====
-- The running server: maps, players and sessions that point to one another (backend/maps/map.c,
-- backend/player/player.c, backend/communication/packet-handlers.c, backend/core/event-loop.c).
pub mod State
pub mod Loading
pub mod Loads
pub mod Counting
pub mod Occupants
pub mod Placement
pub mod Handlers
pub mod Sessions
pub mod EventLoop
pub mod Serving
pub mod Depth
pub mod Sending
pub mod Moves
pub mod Listeners
pub mod Quiet
pub mod Walking
pub mod Walks
pub mod Contested
pub mod Events
pub mod Rounds
pub mod Logins
pub mod Inspections
pub mod Returning
pub mod Respawn
pub mod Keeps
pub mod Runs
pub mod Cache
pub mod Random
pub mod Startup
