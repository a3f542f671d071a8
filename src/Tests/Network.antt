-- ===== src/Tests/Network.antt =====
-- A stand-in for the network: ZITADEL at `https://z`, where every machine user is new.
use oauth2_token_exchange.Common.{String, none, some, ◌==◌, if◌then◌else◌, [], ◌∷◌}
use oauth2_token_exchange.Go.Errors.{message, err}
use oauth2_token_exchange.Go.Act.{returned}
use oauth2_token_exchange.Go.Time.{Time, zero_time, Rfc3339}
use oauth2_token_exchange.Go.Json.{Json, object, member, end, text}
use oauth2_token_exchange.Http.{Response, Network}
use oauth2_token_exchange.Zitadel.Client.{ZitadelClient, Outside}
use oauth2_token_exchange.Tests.Memory.{Memory}

abbrev good : Json → Response
good doc = record { status = 200; text = ""; document = some doc }

abbrev missing : Response
missing = record { status = 404; text = "not found"; document = none }

abbrev reply_to : String → Response
reply_to url =
    if url == "https://z/oidc/v1/userinfo"
    then good (object (member "sub" (text "1") (member "preferred_username" (text "ada") end)))
    else if url == "https://z/oauth/v2/token"
    then good (object (member "access_token" (text "jwt") (member "id_token" (text "h.e30.s") end)))
    else if url == "https://z/v2/users"
    then good (object end)
    else if url == "https://z/v2/users/new"
    then good (object (member "id" (text "m1") end))
    else if url == "https://z/v2/users/m1/pats"
    then good (object (member "tokenId" (text "t1") (member "token" (text "new") end)))
    else missing

abbrev network : {S : Type 0} → Network S
network = record {
  send = λ r readable m. (returned (reply_to r.url), m);
  canonical = λ k. k;
  propagated = λ m. some (("Traceparent", "00-t1-s1-01") ∷ []);
}

abbrev pub calendar : Rfc3339
calendar = record { format = λ t. "2030-01-01T00:00:00Z"; parse = λ s. err (message "bad time") }

abbrev pub outside_of : {S : Type 0} → Outside S
outside_of = record {
  network = network;
  calendar = calendar;
  show_users = λ r. "";
  show_created_user = λ r. "";
}

abbrev pub outside : Outside Memory
outside = outside_of

abbrev pub settings : ZitadelClient
settings = record {
  issuer = "https://z";
  client_id = "id";
  client_secret = "secret";
  organization_id = "org";
}

abbrev pub now : Memory → Time × Memory
now m = (zero_time, m)
