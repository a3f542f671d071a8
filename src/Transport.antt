-- ===== src/Transport.antt =====
-- internal/transport/http: the HTTP side, and what it uses of gin and net/http.
pub mod Gin
pub mod Config
pub mod Check
pub mod Cors
pub mod Logging
pub mod Router
pub mod Server
