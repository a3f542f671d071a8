-- ===== src/Cache.antt =====
-- internal/infra/cache/redis.go: the token cache, as an interface and over Redis.
pub mod Laws
pub mod Held
use oauth2_token_exchange.Common.Int.{ℤ}
use oauth2_token_exchange.Common.{
  ℕ, String, ◌<>◌, Bool, true, false, Option, none, some, List, [], ◌∷◌, if◌then◌else◌,
}
use oauth2_token_exchange.Go.Errors.{
  Sentinel, cache_miss, redis_nil, GoError, sentinel, wrapped, error_is, Result, ok, err,
}
use oauth2_token_exchange.Go.Act.{Act, pure, fail, lift, attempt, wrapping, ◌>>=◌, ◌>>◌}
use oauth2_token_exchange.Go.Json.{
  Json, JsonText, null, bool, text, array, object, Items, nil, item, end, member,
}
use oauth2_token_exchange.Go.Json.Decode.{
  Decoder, into_text, into_bool, into_list, field, into_struct, unmarshal_bytes,
}

pub record CachedToken : Type 0 where
  pub access_token : String
  pub user_id : String
  pub email : String
  pub groups : List String
  pub preferred_username : String
  pub is_invalid : Bool

abbrev pub no_cached_token : CachedToken
no_cached_token = record {
  access_token = "";
  user_id = "";
  email = "";
  groups = [];
  preferred_username = "";
  is_invalid = false;
}

-- Nanoseconds, as `time.Duration`.
abbrev pub Duration : Type 0
Duration = ℤ

pub record TokenCache (S : Type 0) : Type 0 where
  pub get : String → Act S (Option CachedToken)
  pub set : String → CachedToken → Duration → Act S (Unit {0})

-- The two commands of go-redis that are used. `get` fails with `redis.Nil` on a missing key.
pub record Redis (S : Type 0) : Type 0 where
  pub get : String → Act S (List ℕ)
  pub set : String → List ℕ → Duration → Act S (Unit {0})

abbrev place : String → String
place name = "Go struct field CachedToken." <> name

unfoldable pub decode_cached_token : Decoder CachedToken
unfolding into_struct into_list
decode_cached_token = into_struct "cache.CachedToken" (
    field "access_token" (into_text (place "access_token")) (λ s. s.access_token)
      (λ a s. record s { access_token = a })
    ∷ field "user_id" (into_text (place "user_id")) (λ s. s.user_id)
        (λ a s. record s { user_id = a })
    ∷ field "email" (into_text (place "email")) (λ s. s.email) (λ a s. record s { email = a })
    ∷ field "groups" (into_list "" (into_text (place "groups")) (place "groups") "[]string")
        (λ s. s.groups) (λ a s. record s { groups = a })
    ∷ field "preferred_username" (into_text (place "preferred_username"))
        (λ s. s.preferred_username) (λ a s. record s { preferred_username = a })
    ∷ field "is_invalid" (into_bool (place "is_invalid")) (λ s. s.is_invalid)
        (λ a s. record s { is_invalid = a })
    ∷ [])

text_items : List String → Items
text_items [] = nil
text_items (s ∷ ss) = item (text s) (text_items ss)

-- A slice with no element is taken to be nil, which is written `null`.
abbrev encode_groups : List String → Json
encode_groups [] = null
encode_groups (s ∷ ss) = array (text_items (s ∷ ss))

unfoldable pub encode_cached_token : CachedToken → Json
unfolding text_items
encode_cached_token t = object (
    member "access_token" (text t.access_token) (
      member "user_id" (text t.user_id) (
        member "email" (text t.email) (
          member "groups" (encode_groups t.groups) (
            member "preferred_username" (text t.preferred_username)
              (member "is_invalid" (bool t.is_invalid) end))))))

abbrev is_redis_nil : Sentinel → Bool
is_redis_nil redis_nil = true
is_redis_nil _ = false

-- `fmt.Sprintf("authz:pat:%s", patHash)`
unfoldable pub cache_key : String → String
cache_key pat_hash = "authz:pat:" <> pat_hash

module _ {S : Type 0} (r : Redis S) (json : JsonText) where
  abbrev read_value : Result (List ℕ) → Act S (Option CachedToken)
  read_value (err e) = fail (
      if error_is is_redis_nil e then sentinel cache_miss else wrapped "failed to get from redis" e)
  read_value (ok val) = elim (unmarshal_bytes json decode_cached_token no_cached_token val) [
    | err e ↦ fail (wrapped "failed to unmarshal cached token" e)
    | ok token ↦ pure (some token)
  ]

  unfoldable pub redis_get : String → Act S (Option CachedToken)
  unfolding cache_key
  redis_get pat_hash = do val ← attempt (r.get (cache_key pat_hash)); read_value val

  -- `json.Marshal` of this struct has no error.
  unfoldable pub redis_set : String → CachedToken → Duration → Act S (Unit {0})
  unfolding cache_key
  redis_set pat_hash value ttl =
      wrapping "failed to set redis cache"
        (r.set (cache_key pat_hash) (json.print (encode_cached_token value)) ttl)

  -- `NewTokenCache`
  unfoldable pub redis_cache : TokenCache S
  unfolding redis_get redis_set
  redis_cache = record { get = redis_get; set = redis_set }

-- What is used of go-redis to connect, for its type `O` of options.
pub record GoRedis (S O : Type 0) : Type 0 where
  pub parse_url : String → Result O
  pub set_pool_size : ℤ → O → O
  pub connect : O → Redis S
  pub ping : O → Act S (Unit {0})

unfoldable pub new_redis_client : {S O : Type 0} → GoRedis S O → String → ℤ → Act S (Redis S)
new_redis_client g url pool_size = do
  opt ← wrapping "failed to parse redis URL" (lift (g.parse_url url))
  wrapping "failed to ping redis" (g.ping (g.set_pool_size pool_size opt))
  pure (g.connect (g.set_pool_size pool_size opt))
