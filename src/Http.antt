-- ===== src/Http.antt =====
-- http.go: the pool of peers, the messages between them, the client and the handler.
pub mod Messages
pub mod Pool
pub mod Client
pub mod Handler
pub mod Choice
pub mod Broadcast
pub mod Wire
pub mod Statuses
pub mod Calls
