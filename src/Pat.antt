-- ===== src/Pat.antt =====
-- Personal access tokens of the machine user that stands for a human user: the domain service, the
-- command and query services over it, and the RPC handler.
pub mod Service
pub mod App
pub mod Handler
