-- ===== src/Rpc.antt =====
-- rpcclient/rpcclient.go and the routes of cmd/rpc/http.go: the calls of the RPC client, and what
-- they come to at the server.
pub mod Routes
pub mod Client
pub mod RouteLaws
pub mod Server
pub mod Answers
pub mod Broadcast
pub mod Start
pub mod StartTests
pub mod Tests
