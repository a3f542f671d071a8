-- ===== src/Tests/Process.antt =====
-- The process, over parts that count their calls, and the settings of a file.
use oauth2_token_exchange.Common.{String, false, none, List, [], ◌∷◌, ◌≡◌, refl}
use oauth2_token_exchange.Go.Errors.{message}
use oauth2_token_exchange.Go.Act.{Act, returned, failed}
use oauth2_token_exchange.Go.Exit.{going}
use oauth2_token_exchange.Go.Time.{Time, zero_time}
use oauth2_token_exchange.Transport.Config.Load.{Settings, must_load}
use oauth2_token_exchange.Process.{signal, listen_ended, Parts, main}
use oauth2_token_exchange.Process.Laws.{IsWaitingOrStopped, main-IsWaitingOrStopped}
use oauth2_token_exchange.Tests.Transport.{config}

-- The world is the lines that were written.
abbrev Lines : Type 0
Lines = List String

abbrev settings : Settings Lines
settings = record {
  read_in_config = λ s. (returned tt, s);
  getenv = λ name s. "test";
  merge_in_config = λ name s. (failed (message "missing"), s);
  unmarshal = λ s. (returned config, s);
  log_line = λ line s. line ∷ s;
}

settings_loaded : (must_load settings []).0 ≡ going config
unfolding must_load
settings_loaded = refl

abbrev shutdown_server : Time → Act Lines (Unit {0})
shutdown_server deadline s = (failed (message "busy"), "server" ∷ s)

abbrev parts : Parts Lines
parts = record {
  load = must_load settings;
  new_server = λ cfg s. (returned shutdown_server, s);
  shutdown_tracer = λ deadline s. (returned tt, "tracer" ∷ s);
  is_server_closed = λ e. false;
  now = λ s. (zero_time, s);
  log_line = λ line s. line ∷ s;
}

abbrev loaded_lines : Lines
loaded_lines = (must_load settings []).1

config_loaded : parts.load [] ≡ (going config, loaded_lines)
unfolding must_load
config_loaded = refl

main-IsWaitingOrStopped_example :
    IsWaitingOrStopped parts shutdown_server config [] loaded_lines loaded_lines config_loaded refl
      (listen_ended none ∷ signal ∷ [])
      (main parts (listen_ended none ∷ signal ∷ []) [])
main-IsWaitingOrStopped_example =
    main-IsWaitingOrStopped parts shutdown_server config [] loaded_lines loaded_lines config_loaded
      refl (λ d s text e. cc) (λ d s text e. cc) (listen_ended none ∷ signal ∷ [])
