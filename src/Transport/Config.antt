-- ===== src/Transport/Config.antt =====
-- internal/config/config.go: the settings, each group of them a record.
pub mod Load
use oauth2_token_exchange.Common.Int.{ℤ}
use oauth2_token_exchange.Common.{String, Bool, List}
use oauth2_token_exchange.Cache.{Duration}

pub record ServerConfig : Type 0 where
  pub addr : String
  pub mode : String
  pub read_timeout : Duration
  pub write_timeout : Duration

pub record RedisConfig : Type 0 where
  pub url : String
  pub pool_size : ℤ

pub record ZitadelConfig : Type 0 where
  pub issuer : String
  pub client_id : String
  pub client_secret : String
  pub organization_id : String

pub record HeaderKeys : Type 0 where
  pub user_id : String
  pub user_email : String
  pub user_groups : String
  pub user_preferred_username : String
  pub user_jwt : String

pub record AuthConfig : Type 0 where
  pub admin_pat : String
  pub zitadel : ZitadelConfig
  pub cache_ttl : Duration
  pub header_keys : HeaderKeys

pub record ObservabilityConfig : Type 0 where
  pub metrics_enabled : Bool
  pub trace_enabled : Bool
  pub tracing_endpoint_url : String
  pub log_level : String
  pub format : String
  pub log_source : Bool

pub record Config : Type 0 where
  pub server : ServerConfig
  pub redis : RedisConfig
  pub auth : AuthConfig
  pub observability : ObservabilityConfig
  pub allowed_origins : List String
