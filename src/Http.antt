-- ===== src/Http.antt =====
-- cmd/rpc/http.go and rpcclient/rpcclient.go: the handlers of the HTTP server, and its client.
pub mod Text
pub mod Errors
pub mod Blocks
pub mod BlockLaws
pub mod Commands
pub mod Estimate
pub mod Sign
pub mod Status
pub mod CommandLaws
pub mod Fees
pub mod Tests
