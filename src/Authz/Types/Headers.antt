-- ===== src/Authz/Types/Headers.antt =====
-- The headers of an allowed decision.
use oauth2_token_exchange.Common.{
  String, List, [], ◌∷◌, ◌==◌, eq_iff, if◌then◌else◌, ◌≡◌, ◌≢◌, refl, ◌∙◌, arith, none, some,
}
use oauth2_token_exchange.Go.Strings.{join}
use oauth2_token_exchange.Go.Map.{StringMap, lookup, get, lookup-insert}
use oauth2_token_exchange.Authz.Types.{
  TokenClaims, put_text, put_groups, build_decision_from_claims,
}

put_text_same :
    (k v : String) (m : StringMap)
    → lookup k m ≡ none
    → lookup k (put_text k v m) ≡ (if v == "" then none else some v)
put_text_same k v m h = ground (arith, lookup-insert k k v m, eq_iff k k)

put_text_other : (k j v : String) (m : StringMap) → k ≢ j → lookup j (put_text k v m) ≡ lookup j m
put_text_other k j v m differ = ground (arith, lookup-insert j k v m, eq_iff k j)

put_groups_other :
    (k j : String) (gs : List String) (m : StringMap)
    → k ≢ j
    → lookup j (put_groups k gs m) ≡ lookup j m
put_groups_other k j [] m differ = refl
put_groups_other k j (g ∷ gs) m differ =
    ground (arith, lookup-insert j k (join (g ∷ gs) ",") m, eq_iff k j)

module _ (keys : StringMap) (claims : TokenClaims) where
  abbrev the_key : String
  the_key = get keys "user_id"

  -- The header for the user's id of a decision that is made of claims holds exactly the id of the
  -- claims, or is missing if that is empty, where no other value goes under the same header name.
  pub user_id_header :
      get keys "user_email" ≢ get keys "user_id"
      → get keys "user_groups" ≢ get keys "user_id"
      → get keys "user_preferred_username" ≢ get keys "user_id"
      → get keys "user_jwt" ≢ get keys "user_id"
      → lookup (get keys "user_id") (build_decision_from_claims claims keys).headers
        ≡ (if claims.user_id == "" then none else some claims.user_id)
  unfolding build_decision_from_claims
  user_id_header email groups name jwt =
      put_text_other (get keys "user_jwt") the_key claims.jwt _ jwt
      ∙ put_text_other (get keys "user_preferred_username") the_key claims.preferred_username _ name
      ∙ put_groups_other (get keys "user_groups") the_key claims.groups _ groups
      ∙ put_text_other (get keys "user_email") the_key claims.email _ email
      ∙ put_text_same the_key claims.user_id [] refl
