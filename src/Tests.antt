-- ===== src/Tests.antt =====
-- Runs of the definitions on concrete inputs, over stand-ins for ZITADEL, the cache and the network.
pub mod Memory
pub mod Network
mod Authz
mod Steps
mod Redis
mod Pat
mod Zitadel
pub mod Transport
mod Process
mod Claims
mod Logging
pub mod Tracing
mod Program
mod Served
