-- ===== src/Transport/Config/Load/Laws.antt =====
-- When `MustLoad` of internal/config/config.go returns, and that the file of the environment is
-- optional.
use oauth2_token_exchange.Common.{
  ◌<>◌, ◌==◌, false, ◌≡◌, ◌≢◌, refl, ap, ◌∙◌, eq_iff, arith, if◌then◌else◌,
}
use oauth2_token_exchange.Go.Errors.{GoError}
use oauth2_token_exchange.Go.Act.{Reply, returned, failed, panicked}
use oauth2_token_exchange.Go.Exit.{Ending, going, exited, crashed, continue_going, or_exit}
use oauth2_token_exchange.Transport.Config.{Config}
use oauth2_token_exchange.Transport.Config.Load.{
  Settings, loaded_line, after_merge, merge_environment, finish, unmarshalled, merged, must_load,
}

module _ {S A B : Type 0} where
  or_exit-eq-going :
      (r : Reply A) (report : GoError → S → S) (f : A → S → Ending B × S) (s : S) {b : B}
      → (or_exit r report f s).0 ≡ going b
      → (a : A) × (r ≡ returned a) × ((f a s).0 ≡ going b)
  or_exit-eq-going (returned a) report f s h = (a, refl, h)
  or_exit-eq-going (failed e) report f s h = cc
  or_exit-eq-going (panicked text) report f s h = cc

  continue_going-eq-going :
      (o : Ending A) (f : A → S → Ending B × S) (s : S) {b : B}
      → (continue_going o f s).0 ≡ going b
      → (a : A) × (o ≡ going a) × ((f a s).0 ≡ going b)
  continue_going-eq-going (going a) f s h = (a, refl, h)
  continue_going-eq-going (exited code) f s h = cc
  continue_going-eq-going (crashed text) f s h = cc

module _ {S : Type 0} (v : Settings S) where
  -- The settings are loaded only if the file was read and the settings were unmarshalled,
  -- whatever became of the environment's file.
  pub must_load_going :
      (s : S) (cfg : Config)
      → (must_load v s).0 ≡ going cfg
      → ((v.read_in_config s).0 ≡ returned tt) × ((s' : S) × ((v.unmarshal s').0 ≡ returned cfg))
  unfolding must_load
  must_load_going s cfg h =
      let (_, read, h1) = or_exit-eq-going (v.read_in_config s).0 _ (merged v) _ h in
      let env = merge_environment v (v.read_in_config s).1 in
      let (_, _, h2) = continue_going-eq-going env.0 (unmarshalled v) env.1 h1 in
      let (got, e, h3) = or_exit-eq-going (v.unmarshal env.1).0 _ (finish v) _ h2 in
      (read, (env.1, e ∙ ap returned (cc)))

  merge_environment_failed :
      (s1 s2 : S) (e : GoError)
      → v.getenv "APP_ENV" s1 ≢ ""
      → v.merge_in_config ("config." <> v.getenv "APP_ENV" s1) s1 ≡ (failed e, s2)
      → merge_environment v s1 ≡ after_merge v (failed e) s2
  unfolding merge_environment
  merge_environment_failed s1 s2 e named merge =
      let env = v.getenv "APP_ENV" s1 in
      let read = λ (x : Reply (Unit {0}) × S). after_merge v x.0 x.1 in
      let test : (env == "") ≡ false = ground (arith, eq_iff env "") in
      ap (λ b. if b then (going tt, s1) else read (v.merge_in_config ("config." <> env) s1)) test
      ∙ ap read merge

  -- A file of the environment that cannot be merged is no error; the line that says that it was loaded
  -- is written all the same.
  pub must_load_merge_failed :
      (s s1 s2 s3 : S) (e : GoError) (cfg : Config)
      → v.read_in_config s ≡ (returned tt, s1)
      → v.getenv "APP_ENV" s1 ≢ ""
      → v.merge_in_config ("config." <> v.getenv "APP_ENV" s1) s1 ≡ (failed e, s2)
      → v.unmarshal (loaded_line v (v.log_line "No environment-specific config (optional)" s2))
        ≡ (returned cfg, s3)
      → must_load v s ≡ (going cfg, s3)
  unfolding must_load
  must_load_merge_failed s s1 s2 s3 e cfg read named merge got =
      ap
        (λ (x : Reply (Unit {0}) × S).
          or_exit x.0 (λ e. v.log_line "Failed to read config") (merged v) x.1)
        read
      ∙ ap (λ (x : Ending (Unit {0}) × S). continue_going x.0 (unmarshalled v) x.1)
          (merge_environment_failed s1 s2 e named merge)
      ∙ ap
          (λ (x : Reply Config × S).
            or_exit x.0 (λ e. v.log_line "Failed to unmarshal config") (finish v) x.1)
          got
