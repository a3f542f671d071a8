-- ===== src/Zitadel.antt =====
-- internal/infra/zitadel: the client of ZITADEL's API.
pub mod Types
pub mod Responses
pub mod PatResponses
pub mod Requests
pub mod Api
pub mod Client
pub mod Tokens
pub mod Users
pub mod Pats
pub mod Service
pub mod Accepted
pub mod Created
pub mod Added
pub mod Laws
