-- ===== src/Tests/Redis.antt =====
-- Stand-ins for Redis and for the texts of JSON values, which keep what the cache writes.
use Prim.Native.Char.{Char, char, code, IsLt}
use Prim.Native.Nat.{Ordering, compare}
use oauth2_token_exchange.Common.{
  ℕ, zero, suc, String, ◌==◌, eq_iff, Bool, true, false, Option, none, some, List, [], ◌∷◌, ◌≡◌,
  refl, ap, ◌∙◌, arith, if◌then◌else◌,
}
use oauth2_token_exchange.Go.Errors.{sentinel, redis_nil, Result, ok, err}
use oauth2_token_exchange.Go.Act.{Reply, returned, failed}
use oauth2_token_exchange.Go.Json.{JsonText}
use oauth2_token_exchange.Go.Json.Decode.{unmarshal}
use oauth2_token_exchange.Cache.{
  CachedToken, Redis, no_cached_token, decode_cached_token, encode_cached_token, redis_cache,
}
use oauth2_token_exchange.Cache.Laws.{
  IsRedis, IsLawful, PrintsTokens, decode-encode, held_tokens, redis_cache-IsLawful,
}

-- `IsScalar` by its three comparisons.
abbrev BothLt : Ordering → Ordering → Type 0
BothLt Ordering.lt o = IsLt o
BothLt Ordering.eq o = ⊥
BothLt Ordering.gt o = ⊥

abbrev Scalar : Ordering → Ordering → Ordering → Type 0
Scalar Ordering.lt o p = Unit
Scalar Ordering.eq o p = BothLt o p
Scalar Ordering.gt o p = BothLt o p

-- The value at a proof, if there is one.
both_or : (o p : Ordering) → Char → (BothLt o p → Char) → Char
both_or Ordering.lt Ordering.lt d f = f tt
both_or Ordering.lt Ordering.eq d f = d
both_or Ordering.lt Ordering.gt d f = d
both_or Ordering.eq p d f = d
both_or Ordering.gt p d f = d

both_or_lem :
    (o p : Ordering) (d : Char) (f : BothLt o p → Char) (h : BothLt o p) → both_or o p d f ≡ f h
unfolding both_or
both_or_lem Ordering.lt Ordering.lt d f h = refl
both_or_lem Ordering.lt Ordering.eq d f h = absurd h
both_or_lem Ordering.lt Ordering.gt d f h = absurd h
both_or_lem Ordering.eq p d f h = absurd h
both_or_lem Ordering.gt p d f h = absurd h

scalar_or : (n o p : Ordering) → Char → (Scalar n o p → Char) → Char
unfolding both_or
scalar_or Ordering.lt o p d f = f tt
scalar_or Ordering.eq o p d f = both_or o p d f
scalar_or Ordering.gt o p d f = both_or o p d f

scalar_or_lem :
    (n o p : Ordering) (d : Char) (f : Scalar n o p → Char) (h : Scalar n o p)
    → scalar_or n o p d f ≡ f h
unfolding scalar_or
scalar_or_lem Ordering.lt o p d f h = refl
scalar_or_lem Ordering.eq o p d f h = both_or_lem o p d f h
scalar_or_lem Ordering.gt o p d f h = both_or_lem o p d f h

to_char : ℕ → Char
unfolding scalar_or
to_char n = scalar_or (compare n 55296) (compare 57343 n) (compare n 1114112) (char 0 tt) (char n)

to_char-code : (c : Char) → to_char (code c) ≡ c
unfolding to_char
to_char-code (char n h) =
    scalar_or_lem (compare n 55296) (compare 57343 n) (compare n 1114112) (char 0 tt) (char n) h

-- Texts one after another: each character by a number from 1 on, and 0 behind each text.
join_text : String → List ℕ → List ℕ
join_text String.[] rest = 0 ∷ rest
join_text (String.◌∷◌ c s) rest = suc (code c) ∷ join_text s rest

unfoldable pub join_texts : List String → List ℕ
unfolding join_text
join_texts [] = []
join_texts (s ∷ ss) = join_text s (join_texts ss)

grow : Char → List String → List String
grow c [] = String.◌∷◌ c String.[] ∷ []
grow c (s ∷ ss) = String.◌∷◌ c s ∷ ss

unfoldable pub split_texts : List ℕ → List String
unfolding grow to_char
split_texts [] = []
split_texts (zero ∷ ns) = String.[] ∷ split_texts ns
split_texts (suc n ∷ ns) = grow (to_char n) (split_texts ns)

split-join_text :
    (s : String) (rest : List ℕ) → split_texts (join_text s rest) ≡ s ∷ split_texts rest
unfolding split_texts join_text
split-join_text String.[] rest = refl
split-join_text (String.◌∷◌ c s) rest = rw (split-join_text s rest, to_char-code c, grow)

split-join_texts : (ss : List String) → split_texts (join_texts ss) ≡ ss
unfolding join_texts split_texts
split-join_texts [] = refl
split-join_texts (s ∷ ss) =
    split-join_text s (join_texts ss) ∙ ap (λ ts. s ∷ ts) (split-join_texts ss)

flag : Bool → String
flag true = "t"
flag false = ""

unfoldable pub texts_of : CachedToken → List String
unfolding flag
texts_of t =
    t.access_token ∷ t.user_id ∷ t.email ∷ t.preferred_username ∷ flag t.is_invalid ∷ t.groups

unfoldable pub of_texts : List String → CachedToken
of_texts (a ∷ u ∷ e ∷ p ∷ f ∷ groups) = record {
  access_token = a;
  user_id = u;
  email = e;
  groups = groups;
  preferred_username = p;
  is_invalid = f == "t";
}
of_texts _ = no_cached_token

flag-true : (b : Bool) → (flag b == "t") ≡ b
unfolding flag
flag-true true = refl
flag-true false = refl

of_texts-texts_of : (t : CachedToken) → of_texts (texts_of t) ≡ t
unfolding of_texts texts_of
of_texts-texts_of t = ap (λ b. record t { is_invalid = b }) (flag-true t.is_invalid)

unfoldable pub token_or_empty : Result CachedToken → CachedToken
token_or_empty (ok t) = t
token_or_empty (err e) = no_cached_token

abbrev pub token_text : JsonText
token_text = record {
  print =
      λ v. join_texts (texts_of (token_or_empty (unmarshal decode_cached_token no_cached_token v)));
  parse = λ bytes. ok (encode_cached_token (of_texts (split_texts bytes)));
}

pub token_text-PrintsTokens : PrintsTokens token_text
unfolding token_or_empty
token_text-PrintsTokens = record {
  parse-print = λ t.
      ap
        (λ u.
          ok (
            encode_cached_token
              (of_texts (split_texts (join_texts (texts_of (token_or_empty u)))))))
        (decode-encode t)
      ∙ ap (λ ts. ok (encode_cached_token (of_texts ts))) (split-join_texts (texts_of t))
      ∙ ap (λ u. ok (encode_cached_token u)) (of_texts-texts_of t);
}

abbrev pub Store : Type 0
Store = List (String × List ℕ)

unfoldable pub look : Store → String → Option (List ℕ)
look [] k = none
look ((j, v) ∷ m) k = if j == k then some v else look m k

abbrev value_reply : Option (List ℕ) → Reply (List ℕ)
value_reply none = failed (sentinel redis_nil)
value_reply (some v) = returned v

abbrev pub store_redis : Redis Store
store_redis = record {
  get = λ k m. (value_reply (look m k), m);
  set = λ k v ttl m. (returned tt, (k, v) ∷ m);
}

pub store_redis-IsRedis : IsRedis store_redis look
unfolding look
store_redis-IsRedis = record {
  get_sound = λ k s v h. ground arith;
  held-get = λ k j s w h. h;
  held-set = λ k v w ttl s sent h. ground (arith, eq_iff k k);
  held-set_any = λ k v w ttl s h. ground (arith, eq_iff k k);
  held-set_ne = λ k j v w ttl s differ h. ground (arith, eq_iff k j);
}

redis_cache-IsLawful_example :
    IsLawful
      (redis_cache store_redis token_text)
      (held_tokens store_redis token_text token_text-PrintsTokens look store_redis-IsRedis)
redis_cache-IsLawful_example =
    redis_cache-IsLawful store_redis token_text token_text-PrintsTokens look store_redis-IsRedis
