-- ===== src/Pat/Handler/Deletion.antt =====
-- What `DeletePAT` answers, from the handler down to the client of ZITADEL.
use oauth2_token_exchange.Common.{String, true, false, some, none, ◌==◌, eq_iff, ◌≡◌, ◌≢◌, arith}
use oauth2_token_exchange.Go.Errors.{message, sentinel, machine_user_not_found}
use oauth2_token_exchange.Go.Act.{returned, failed}
use oauth2_token_exchange.Go.Map.{StringMap, get}
use oauth2_token_exchange.Go.Time.{Time}
use oauth2_token_exchange.Zitadel.Types.{MachineUser}
use oauth2_token_exchange.Pat.Service.{Service, service}
use oauth2_token_exchange.Pat.Service.Laws.{delete_pat_found, delete_pat_missing}
use oauth2_token_exchange.Pat.App
use oauth2_token_exchange.Pat.Handler.{
  answered, refused, not_found, internal, delete_pat, delete_code,
}

module _ {S : Type 0} (s : Service S) (now : S → Time × S) (header : StringMap)
    (known : get header "X-Auth-Request-User" ≢ "") (pat_id : String) (st : S) where
  given : (get header "X-Auth-Request-User" == "") ≡ false
  given = ground (arith, eq_iff (get header "X-Auth-Request-User") "")

  -- Where the header names a user and no machine user is found under that name, `DeletePAT` is
  -- refused as not found, and nothing is removed.
  pub delete_pat_no_machine_user :
      (st1 : S)
      → s.zitadel_client.get_machine_user_by_username s.admin_pat
          (get header "X-Auth-Request-User")
          st
        ≡ (returned none, st1)
      → delete_pat (service s) now header pat_id st
        ≡ (returned (refused not_found (sentinel machine_user_not_found)), st1)
  unfolding delete_pat service App.delete_pat delete_code
  delete_pat_no_machine_user st1 missing =
      rw (given, delete_pat_missing s (get header "X-Auth-Request-User") pat_id st st1 missing)

  module _ (user : MachineUser) (st1 : S)
      (found : s.zitadel_client.get_machine_user_by_username s.admin_pat
          (get header "X-Auth-Request-User")
          st
        ≡ (returned (some user), st1)) where
    -- Where the header names a user, a machine user is found under that name, and ZITADEL removes
    -- the token from that machine user, `DeletePAT` answers with success.
    pub delete_pat_removed :
        (st2 : S)
        → s.zitadel_client.remove_personal_access_token s.admin_pat user.id pat_id st1
          ≡ (returned tt, st2)
        → delete_pat (service s) now header pat_id st ≡ (returned (answered true), st2)
    unfolding delete_pat service App.delete_pat delete_code
    delete_pat_removed st2 removed = rw (
      given,
      delete_pat_found s (get header "X-Auth-Request-User") pat_id user st st1 found,
      removed,
    )

    -- Where the header names a user, a machine user is found under that name, and the removal
    -- fails with an error text of its own, `DeletePAT` is refused as an internal error with that
    -- text.
    pub delete_pat_removal_failed :
        (text : String) (st2 : S)
        → s.zitadel_client.remove_personal_access_token s.admin_pat user.id pat_id st1
          ≡ (failed (message text), st2)
        → delete_pat (service s) now header pat_id st
          ≡ (returned (refused internal (message text)), st2)
    unfolding delete_pat service App.delete_pat delete_code
    delete_pat_removal_failed text st2 wrong = rw (
      given,
      delete_pat_found s (get header "X-Auth-Request-User") pat_id user st st1 found,
      wrong,
    )
