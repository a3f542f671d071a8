-- ===== src/Transport/Config/Load.antt =====
-- `MustLoad` of internal/config/config.go. viper and the environment are the interface `Settings`.
pub mod Laws
use oauth2_token_exchange.Common.{
  ℕ, String, ◌<>◌, ◌==◌, ◌≡◌, ◌≢◌, refl, ap, subst, ◌∙◌, eq_iff, arith, inl, inr, Bool-cases,
  if◌then◌else◌,
}
use oauth2_token_exchange.Go.Errors.{GoError}
use oauth2_token_exchange.Go.Act.{Act, Reply, returned, failed, panicked}
use oauth2_token_exchange.Go.Exit.{Ending, going, exited, crashed, continue_going, or_exit}
use oauth2_token_exchange.Transport.Config.{Config}

-- `merge_in_config` is `MergeInConfig` after `SetConfigName`; `log_line` writes a line by slog's
-- default logger.
pub record Settings (S : Type 0) : Type 0 where
  pub read_in_config : Act S (Unit {0})
  pub getenv : String → S → String
  pub merge_in_config : String → Act S (Unit {0})
  pub unmarshal : Act S Config
  pub log_line : String → S → S

module _ {S : Type 0} (v : Settings S) where
  abbrev pub loaded_line : S → S
  loaded_line = v.log_line "Environment-specific config loaded"

  -- The outcome of the merge only decides whether there is one line more.
  abbrev pub after_merge : Reply (Unit {0}) → S → Ending (Unit {0}) × S
  after_merge (returned a) s = (going tt, loaded_line s)
  after_merge (failed e) s =
      (going tt, loaded_line (v.log_line "No environment-specific config (optional)" s))
  after_merge (panicked text) s = (crashed text, s)

  -- The file of the environment that `APP_ENV` names, if it names one.
  unfoldable pub merge_environment : S → Ending (Unit {0}) × S
  merge_environment s =
      let env = v.getenv "APP_ENV" s in
      if env == ""
      then (going tt, s)
      else let (r, s') = v.merge_in_config ("config." <> env) s in after_merge r s'

  abbrev pub finish : Config → S → Ending Config × S
  finish cfg s = (going cfg, s)

  abbrev pub unmarshalled : Unit {0} → S → Ending Config × S
  unmarshalled done s =
      let (r, s') = v.unmarshal s in
      or_exit r (λ e. v.log_line "Failed to unmarshal config") finish s'

  abbrev pub merged : Unit {0} → S → Ending Config × S
  merged done s = let (r, s') = merge_environment s in continue_going r unmarshalled s'

  unfoldable pub must_load : S → Ending Config × S
  unfolding merge_environment
  must_load s =
      let (r, s') = v.read_in_config s in
      or_exit r (λ e. v.log_line "Failed to read config") merged s'
