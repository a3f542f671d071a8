-- ===== src/Pat/Handler.antt =====
-- internal/transport/http/handler/pat.go: the RPC handler. A call is answered or refused with a code
-- of Connect. Spans are not modelled.
pub mod Deletion
use oauth2_token_exchange.Common.Int.{ℤ}
use oauth2_token_exchange.Common.{String, Bool, true, false, List, map, ◌==◌, if◌then◌else◌}
use oauth2_token_exchange.Go.Errors.{
  Sentinel, invalid_expiration, machine_user_not_found, pat_not_found, failed_to_create_pat,
  GoError, sentinel, message, error_is, Result, ok, err,
}
use oauth2_token_exchange.Go.Act.{Act, returned, pure, attempt, ◌>>=◌}
use oauth2_token_exchange.Go.Map.{StringMap, get}
use oauth2_token_exchange.Go.Time.{Time, before, of_unix, unix}
use oauth2_token_exchange.Pat.Service.{Pat, PatService}
use oauth2_token_exchange.Pat.App

pub data Code : Type 0 where
  unauthenticated invalid_argument not_found internal : Code

-- `(*connect.Response[A], error)`
pub data Rpc (A : Type 0) : Type 0 where
  answered : A → Rpc A
  refused : Code → GoError → Rpc A

-- pb/pat/v1/types.proto
pub record ProtoPat : Type 0 where
  pub id : String
  pub machine_user_id : String
  pub human_user_id : String
  pub expiration_date : ℤ
  pub created_at : ℤ

unfoldable pub to_proto : Pat → ProtoPat
unfolding unix
to_proto p = record {
  id = p.id;
  machine_user_id = p.machine_user_id;
  human_user_id = p.human_user_id;
  expiration_date = unix p.expiration_date;
  created_at = unix p.created_at;
}

abbrev is_invalid_expiration : Sentinel → Bool
is_invalid_expiration invalid_expiration = true
is_invalid_expiration _ = false

abbrev is_failed_to_create : Sentinel → Bool
is_failed_to_create failed_to_create_pat = true
is_failed_to_create _ = false

abbrev is_pat_not_found : Sentinel → Bool
is_pat_not_found pat_not_found = true
is_pat_not_found _ = false

abbrev is_machine_user_not_found : Sentinel → Bool
is_machine_user_not_found machine_user_not_found = true
is_machine_user_not_found _ = false

abbrev pub missing_user : GoError
missing_user = message "missing X-Auth-Request-User header"

-- The code for an error of `CreatePAT`.
unfoldable pub create_code : GoError → Code
unfolding error_is
create_code e =
    if error_is is_invalid_expiration e
    then invalid_argument
    else if error_is is_failed_to_create e
    then internal
    else internal

-- The code for an error of `DeletePAT`.
unfoldable pub delete_code : GoError → Code
unfolding error_is
delete_code e =
    if error_is is_pat_not_found e
    then not_found
    else if error_is is_machine_user_not_found e
    then not_found
    else internal

module _ {S : Type 0} (service : PatService S) (now : S → Time × S) where
  abbrev pub create_reply : Result (Pat × String) → Rpc (ProtoPat × String)
  create_reply (err e) = refused (create_code e) e
  create_reply (ok (pat, token)) = answered (to_proto pat, token)

  abbrev pub clock : Act S Time
  clock st = let (t, st') = now st in (returned t, st')

  -- `CreatePAT` after `time.Now`.
  abbrev pub create_at : StringMap → ℤ → Time → Act S (Rpc (ProtoPat × String))
  create_at header expiration t =
      if before (of_unix expiration) t
      then pure (refused invalid_argument (sentinel invalid_expiration))
      else (do
        r ← attempt (
            App.create_pat service (get header "X-Auth-Request-User")
              (get header "X-Auth-Request-Email") (get header "X-Auth-Request-Preferred-Username")
              (of_unix expiration))
        pure (create_reply r))

  -- `CreatePAT`, with the headers of the request and the date of its message
  unfoldable pub create_pat : StringMap → ℤ → Act S (Rpc (ProtoPat × String))
  unfolding get App.create_pat to_proto
  create_pat header expiration =
      if get header "X-Auth-Request-User" == ""
      then pure (refused unauthenticated missing_user)
      else (do t ← clock; create_at header expiration t)

  abbrev pub list_reply : Result (List Pat) → Rpc (List ProtoPat)
  list_reply (err e) = refused internal e
  list_reply (ok pats) = answered (map to_proto pats)

  -- `ListPATs`
  unfoldable pub list_pats : StringMap → Act S (Rpc (List ProtoPat))
  unfolding get App.list_pats to_proto
  list_pats header =
      if get header "X-Auth-Request-User" == ""
      then pure (refused unauthenticated missing_user)
      else (do
        r ← attempt (App.list_pats service (get header "X-Auth-Request-User"))
        pure (list_reply r))

  abbrev pub delete_reply : Result (Unit {0}) → Rpc Bool
  delete_reply (err e) = refused (delete_code e) e
  delete_reply (ok _) = answered true

  -- `DeletePAT`, with the headers of the request and the token's id of its message
  unfoldable pub delete_pat : StringMap → String → Act S (Rpc Bool)
  unfolding get App.delete_pat
  delete_pat header pat_id =
      if get header "X-Auth-Request-User" == ""
      then pure (refused unauthenticated missing_user)
      else (do
        r ← attempt (App.delete_pat service (get header "X-Auth-Request-User") pat_id)
        pure (delete_reply r))

-- The interface `PATServiceHandler` of the generated code.
pub record PatServiceHandler (S : Type 0) : Type 0 where
  pub create_pat : StringMap → ℤ → Act S (Rpc (ProtoPat × String))
  pub list_pats : StringMap → Act S (Rpc (List ProtoPat))
  pub delete_pat : StringMap → String → Act S (Rpc Bool)

-- `NewPATHandler`
unfoldable pub new_pat_handler : {S : Type 0} → PatService S → (S → Time × S) → PatServiceHandler S
new_pat_handler service now = record {
  create_pat = create_pat service now;
  list_pats = list_pats service now;
  delete_pat = delete_pat service now;
}
