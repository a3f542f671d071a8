-- ===== src/Transport/Server/Laws.antt =====
-- The services that the server may run with, over the client of ZITADEL and the cache over Redis.
use oauth2_token_exchange.Common.{
  String, true, Option, ◌==◌, ◌≡◌, ◌⊎◌, inl, inr, sym, subst, Bool-cases,
}
use oauth2_token_exchange.Zitadel.Client.{ZitadelClient}
use oauth2_token_exchange.Go.Strings.{trim_suffix}
use oauth2_token_exchange.Cache.{CachedToken, Redis, redis_cache}
use oauth2_token_exchange.Cache.Laws.{IsLawful}
use oauth2_token_exchange.Authz.Service.{
  Service, new_service, new_service_with_machine_user_support,
}
use oauth2_token_exchange.Transport.Config.{Config}
use oauth2_token_exchange.Transport.Server.{Platform, authz_domain_service, zitadel_client}

module _ {S O : Type 0} (p : Platform S O) (cfg : Config) (redis : Redis S) where
  -- The settings of the client: those of the configuration, without a slash at the issuer's end.
  abbrev pub settings : ZitadelClient
  settings = record {
    issuer = trim_suffix cfg.auth.zitadel.issuer "/";
    client_id = cfg.auth.zitadel.client_id;
    client_secret = cfg.auth.zitadel.client_secret;
    organization_id = cfg.auth.zitadel.organization_id;
  }

  -- The services that `NewServer` chooses between.
  abbrev pub plain_service : Service S
  plain_service =
      new_service (redis_cache redis p.json) (zitadel_client p cfg).token_exchanger true p.sha256
        p.json

  abbrev pub full_service : Service S
  full_service =
      new_service_with_machine_user_support (redis_cache redis p.json)
        (zitadel_client p cfg).token_exchanger (zitadel_client p cfg).user_info_getter
        cfg.auth.admin_pat true p.sha256 p.json

  pub authz_domain_service-cases :
      (authz_domain_service p cfg redis ≡ plain_service)
      ⊎ (authz_domain_service p cfg redis ≡ full_service)
  unfolding authz_domain_service
  authz_domain_service-cases = elim (Bool-cases (cfg.auth.admin_pat == "")) [
    | inl unset ↦ inl (rw unset)
    | inr given ↦ inr (rw given)
  ]

  -- The cache of either service is the one over Redis.
  pub authz_cache-IsLawful :
      (held : S → String → Option CachedToken)
      → IsLawful (redis_cache redis p.json) held
      → IsLawful (authz_domain_service p cfg redis).token_cache held
  unfolding new_service new_service_with_machine_user_support
  authz_cache-IsLawful held lawful = elim authz_domain_service-cases [
    | inl plain ↦ subst (λ (s : Service S). IsLawful s.token_cache held) (sym plain) lawful
    | inr full ↦ subst (λ (s : Service S). IsLawful s.token_cache held) (sym full) lawful
  ]
