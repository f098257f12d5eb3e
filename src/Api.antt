-- ===== src/Api.antt =====
-- The dashboard's back end under api/: one long-lived node behind HTTP and websocket endpoints.
pub mod Sockets
pub mod State
pub mod Endpoints
pub mod Management
pub mod Clients
pub mod Requests
pub mod Validation
pub mod Runs
pub mod Progress
pub mod Told
pub mod FirstKeys
pub mod Provision
pub mod Golden
pub mod Start
pub mod FirstStart
pub mod Texts
pub mod Exchange
pub mod Answers
