-- ===== src/Server.antt =====
-- cmd/cache-server/main.go: the demo server. Flags, logging, Redis and the listeners are outside; what
-- Redis answers is an argument.
pub mod Text
pub mod Backend
pub mod Noop
pub mod Setup
pub mod Api
pub mod Counts
