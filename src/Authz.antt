-- ===== src/Authz.antt =====
-- internal/domain/authz and internal/app/authz: the decision on a personal access token.
pub mod Types
pub mod Claims
pub mod Service
pub mod App
