-- ===== src/Http.antt =====
-- http/: the server's connections, the parser of requests, and the pages that change something.
pub mod Lexer
pub mod Process
pub mod Clients
pub mod Ota
pub mod Form
pub mod Setup
pub mod Server
pub mod Logs
mod Tests
