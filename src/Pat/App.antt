-- ===== src/Pat/App.antt =====
-- internal/app/pat: the command and the query service. Spans are not modelled.
use oauth2_token_exchange.Common.{String, List}
use oauth2_token_exchange.Go.Act.{Act, pure, ◌>>=◌, ◌>>◌}
use oauth2_token_exchange.Go.Time.{Time}
use oauth2_token_exchange.Pat.Service.{Pat, PatService}

module _ {S : Type 0} (domain_service : PatService S) where
  unfoldable pub create_pat : String → String → String → Time → Act S (Pat × String)
  create_pat user_id email preferred_username expiration_date = do
    (pat, token) ← domain_service.create_pat user_id email preferred_username expiration_date
    pure (pat, token)

  unfoldable pub delete_pat : String → String → Act S (Unit {0})
  delete_pat user_id pat_id = do domain_service.delete_pat user_id pat_id; pure tt

  unfoldable pub list_pats : String → Act S (List Pat)
  list_pats user_id = do pats ← domain_service.list_pats user_id; pure pats
