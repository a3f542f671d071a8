-- ===== src/Cache/Held.antt =====
-- A property of all tokens that a lawful cache holds, under the cache's two calls.
use oauth2_token_exchange.Common.{
  String, ◌==◌, eq_iff, Option, some, ◌≡◌, sym, subst, inl, inr, arith, Bool-cases,
}
use oauth2_token_exchange.Cache.{CachedToken, TokenCache, Duration}
use oauth2_token_exchange.Cache.Laws.{IsLawful}

module _ {S : Type 0} (cache : TokenCache S) (held : S → String → Option CachedToken)
    (lawful : IsLawful cache held) (P : String → CachedToken → Type 0) where
  abbrev AllHeld : S → Type 0
  AllHeld st = (h : String) (t : CachedToken) → held st h ≡ some t → P h t

  pub get-AllHeld : (h : String) (st : S) → AllHeld st → AllHeld (cache.get h st).1
  get-AllHeld h st all k t e = all k t (lawful.held-get h k st t e)

  -- A write leaves under its own hash the new token or the old one.
  set-AllHeld_here :
      (h : String) (t u : CachedToken) (ttl : Duration) (st : S)
      → P h t
      → AllHeld st
      → held (cache.set h t ttl st).1 h ≡ some u
      → P h u
  set-AllHeld_here h t u ttl st here all e = elim (lawful.held-set_any h t u ttl st e) [
    | inl new ↦ subst (P h) (sym new) here
    | inr old ↦ all h u old
  ]

  pub set-AllHeld :
      (h : String) (t : CachedToken) (ttl : Duration) (st : S)
      → P h t
      → AllHeld st
      → AllHeld (cache.set h t ttl st).1
  set-AllHeld h t ttl st here all k u e = elim (Bool-cases (h == k)) [
    | inl same ↦
        let p = (eq_iff h k).0 same in
        subst (λ j. P j u) p
          (set-AllHeld_here h t u ttl st here all
            (subst (λ j. held (cache.set h t ttl st).1 j ≡ some u) (sym p) e))
    | inr differ ↦ all k u (lawful.held-set_ne h k t u ttl st (ground (arith, eq_iff h k)) e)
  ]
