-- ===== src/Cache/Laws.antt =====
-- What the cache promises, as a map from hashes to tokens, and that the cache over Redis keeps it.
use text.Mathlib.TextLemmas.{append_cancel_left}
use mathlib.Core.Option.{some-injective}
use oauth2_token_exchange.Common.{
  ℕ, String, ◌≡◌, ◌≢◌, ◌⊎◌, inl, inr, refl, ap, sym, ◌∙◌, Option, none, some, List, [], ◌∷◌, arith,
}
use oauth2_token_exchange.Go.Errors.{Result, ok, err}
use oauth2_token_exchange.Go.Act.{returned, attempt}
use oauth2_token_exchange.Go.Act.Laws.{>>=-eq-returned, attempt_reply-eq-ok, wrap_reply-eq-returned}
use oauth2_token_exchange.Go.Json.{JsonText}
use oauth2_token_exchange.Go.Json.Decode.{
  into_text, into_items, into_list, unmarshal, unmarshal_bytes, unmarshal_parsed,
}
use oauth2_token_exchange.Cache.{
  CachedToken, no_cached_token, TokenCache, Redis, Duration, decode_cached_token, text_items,
  encode_cached_token, cache_key, read_value, redis_get, redis_set, redis_cache, place,
  encode_groups,
}

-- Redis against the values that it holds. What is read is held; reading brings up no value; after
-- a successful write no other value stands under the key. Values may go at any time, since they
-- expire, and a write that fails may have been made.
pub record IsRedis {S : Type 0} (r : Redis S) (held : S → String → Option (List ℕ)) : Type 0 where
  pub get_sound : (k : String) (s : S) (v : List ℕ) → (r.get k s).0 ≡ returned v → held s k ≡ some v
  pub held-get :
      (k j : String) (s : S) (w : List ℕ) → held (r.get k s).1 j ≡ some w → held s j ≡ some w
  pub held-set :
      (k : String) (v w : List ℕ) (ttl : Duration) (s : S)
      → (r.set k v ttl s).0 ≡ returned tt
      → held (r.set k v ttl s).1 k ≡ some w
      → w ≡ v
  pub held-set_any :
      (k : String) (v w : List ℕ) (ttl : Duration) (s : S)
      → held (r.set k v ttl s).1 k ≡ some w
      → (w ≡ v) ⊎ (held s k ≡ some w)
  pub held-set_ne :
      (k j : String) (v w : List ℕ) (ttl : Duration) (s : S)
      → k ≢ j
      → held (r.set k v ttl s).1 j ≡ some w
      → held s j ≡ some w

-- The text of a token's JSON value is read back as that value.
pub record PrintsTokens (json : JsonText) : Type 0 where
  pub parse-print :
      (t : CachedToken)
      → json.parse (json.print (encode_cached_token t)) ≡ ok (encode_cached_token t)

-- The same of a token cache.
pub record IsLawful {S : Type 0} (c : TokenCache S) (held : S → String → Option CachedToken)
    : Type 0 where
  pub get_sound :
      (k : String) (s : S) (t : CachedToken) → (c.get k s).0 ≡ returned (some t) → held s k ≡ some t
  pub held-get :
      (k j : String) (s : S) (u : CachedToken) → held (c.get k s).1 j ≡ some u → held s j ≡ some u
  pub held-set :
      (k : String) (t u : CachedToken) (ttl : Duration) (s : S)
      → (c.set k t ttl s).0 ≡ returned tt
      → held (c.set k t ttl s).1 k ≡ some u
      → u ≡ t
  pub held-set_any :
      (k : String) (t u : CachedToken) (ttl : Duration) (s : S)
      → held (c.set k t ttl s).1 k ≡ some u
      → (u ≡ t) ⊎ (held s k ≡ some u)
  pub held-set_ne :
      (k j : String) (t u : CachedToken) (ttl : Duration) (s : S)
      → k ≢ j
      → held (c.set k t ttl s).1 j ≡ some u
      → held s j ≡ some u

into_items-text_items :
    (name : String) (ss : List String) → into_items "" (into_text name) (text_items ss) ≡ (ss, none)
unfolding into_items text_items
into_items-text_items name [] = refl
into_items-text_items name (s ∷ ss) = rw (into_items-text_items name ss)

into_list-encode_groups :
    (name : String) (groups : List String)
    → into_list "" (into_text name) name "[]string" (encode_groups groups) [] ≡ (groups, none)
unfolding into_list
into_list-encode_groups name [] = refl
into_list-encode_groups name (s ∷ ss) = into_items-text_items name (s ∷ ss)

-- Decoding the JSON value of a token gives back the token.
pub decode-encode :
    (t : CachedToken) → unmarshal decode_cached_token no_cached_token (encode_cached_token t) ≡ ok t
unfolding decode_cached_token encode_cached_token
decode-encode t = rw (into_list-encode_groups (place "groups") t.groups)

abbrev of_result : Result CachedToken → Option CachedToken
of_result (ok t) = some t
of_result (err e) = none

module _ {S : Type 0} (r : Redis S) (json : JsonText) (lawful : PrintsTokens json)
    (held : S → String → Option (List ℕ)) (spec : IsRedis r held) where
  abbrev decoded : Option (List ℕ) → Option CachedToken
  decoded none = none
  decoded (some v) = of_result (unmarshal_bytes json decode_cached_token no_cached_token v)

  -- The tokens that Redis holds for the cache.
  abbrev pub held_tokens : S → String → Option CachedToken
  held_tokens s pat_hash = decoded (held s (cache_key pat_hash))

  decoded-print : (t : CachedToken) → decoded (some (json.print (encode_cached_token t))) ≡ some t
  decoded-print t =
      ap (λ v. of_result (unmarshal_parsed decode_cached_token no_cached_token v))
        (lawful.parse-print t)
      ∙ ap of_result (decode-encode t)

  read_value_sound :
      (x : Result (List ℕ)) (s : S) (t : CachedToken)
      → (read_value r json x s).0 ≡ returned (some t)
      → (v : List ℕ) × (x ≡ ok v) × (decoded (some v) ≡ some t)
  read_value_sound (err e) s t h = cc
  read_value_sound (ok v) s t h = (v, refl, ground arith)

  redis_get_sound :
      (k : String) (s : S) (t : CachedToken)
      → (redis_get r json k s).0 ≡ returned (some t)
      → held_tokens s k ≡ some t
  unfolding redis_get
  redis_get_sound k s t h =
      let (x, got, read) =
        >>=-eq-returned (attempt (r.get (cache_key k))) (read_value r json) s h in
      let (v, same, value) = read_value_sound x _ t read in
      let got_v = attempt_reply-eq-ok (r.get (cache_key k) s).0 (got ∙ ap returned same) in
      ap decoded (spec.get_sound (cache_key k) s v got_v) ∙ value

  -- Reading costs one call of Redis, whatever the outcome.
  state-redis_get : (k : String) (s : S) → (redis_get r json k s).1 ≡ (r.get (cache_key k) s).1
  unfolding redis_get
  state-redis_get k s = ground arith

  cache_key-injective : (k j : String) → cache_key k ≡ cache_key j → k ≡ j
  unfolding cache_key
  cache_key-injective k j e = append_cancel_left "authz:pat:" k j e

  decoded-eq-some :
      (o : Option (List ℕ)) (t : CachedToken)
      → decoded o ≡ some t
      → (w : List ℕ) × (o ≡ some w) × (decoded (some w) ≡ some t)
  decoded-eq-some none t h = cc
  decoded-eq-some (some w) t h = (w, refl, h)

  decoded_unique :
      (w : List ℕ) (t u : CachedToken)
      → w ≡ json.print (encode_cached_token t)
      → decoded (some w) ≡ some u
      → u ≡ t
  decoded_unique w t u e h =
      some-injective u t (sym h ∙ ap (λ b. decoded (some b)) e ∙ decoded-print t)

  held-redis_get :
      (k j : String) (s : S) (u : CachedToken)
      → held_tokens (redis_get r json k s).1 j ≡ some u
      → held_tokens s j ≡ some u
  held-redis_get k j s u h =
      let (w, kept, value) = decoded-eq-some _ u (rw state-redis_get at h) in
      ap decoded (spec.held-get (cache_key k) (cache_key j) s w kept) ∙ value

  held-redis_set :
      (k : String) (t u : CachedToken) (ttl : Duration) (s : S)
      → (redis_set r json k t ttl s).0 ≡ returned tt
      → held_tokens (redis_set r json k t ttl s).1 k ≡ some u
      → u ≡ t
  unfolding redis_set
  held-redis_set k t u ttl s h e =
      let (w, kept, value) = decoded-eq-some _ u e in
      let sent = wrap_reply-eq-returned "failed to set redis cache" _ h in
      decoded_unique w t u (spec.held-set (cache_key k) _ w ttl s sent kept) value

  held-redis_set_any :
      (k : String) (t u : CachedToken) (ttl : Duration) (s : S)
      → held_tokens (redis_set r json k t ttl s).1 k ≡ some u
      → (u ≡ t) ⊎ (held_tokens s k ≡ some u)
  unfolding redis_set
  held-redis_set_any k t u ttl s e =
      let (w, kept, value) = decoded-eq-some _ u e in
      elim (spec.held-set_any (cache_key k) _ w ttl s kept) [
        | inl new ↦ inl (decoded_unique w t u new value)
        | inr old ↦ inr (ap decoded old ∙ value)
      ]

  held-redis_set_ne :
      (k j : String) (t u : CachedToken) (ttl : Duration) (s : S)
      → k ≢ j
      → held_tokens (redis_set r json k t ttl s).1 j ≡ some u
      → held_tokens s j ≡ some u
  unfolding redis_set
  held-redis_set_ne k j t u ttl s differ e =
      let (w, kept, value) = decoded-eq-some _ u e in
      let apart : cache_key k ≢ cache_key j = λ p. differ (cache_key-injective k j p) in
      ap decoded (spec.held-set_ne (cache_key k) (cache_key j) _ w ttl s apart kept) ∙ value

  -- The cache over Redis is sound as a map from hashes to tokens, if Redis is one from keys to
  -- bytes and the JSON texts of tokens are read as they were printed: a token that is read is the
  -- one that was written under its hash, and no call brings up another.
  pub redis_cache-IsLawful : IsLawful (redis_cache r json) held_tokens
  unfolding redis_cache
  redis_cache-IsLawful = record {
    get_sound = redis_get_sound;
    held-get = held-redis_get;
    held-set = held-redis_set;
    held-set_any = held-redis_set_any;
    held-set_ne = held-redis_set_ne;
  }
