-- ===== src/Transport/Cors/Laws.antt =====
-- Which cross-origin requests a browser may make with credentials.
use oauth2_token_exchange.Common.{
  String, true, false, ◌&&◌, not, none, some, List, ◌==◌, eq_iff, if◌then◌else◌, ◌≡◌, ◌≢◌, ◌∙◌,
  arith, Bool-cases, inl, inr,
}
use oauth2_token_exchange.Go.Map.{lookup, lookup-insert}
use oauth2_token_exchange.Transport.Gin.{Outgoing, set_header}
use oauth2_token_exchange.Transport.Cors.{
  allowed, is_empty, allow_origin, allow_credentials, allow_methods, allow_headers, request_headers,
  origin_headers, cors_headers,
}

module _ (canonical : String → String) where
  -- The names that the middleware sets are canonical as they are written.
  pub record KeepsNames : Type 0 where
    pub origin_kept : canonical allow_origin ≡ allow_origin
    pub credentials_kept : canonical allow_credentials ≡ allow_credentials
    pub methods_kept : canonical allow_methods ≡ allow_methods
    pub headers_kept : canonical allow_headers ≡ allow_headers

  module _ (origins : List String) (names : KeepsNames) where
    lookup-set_header :
        (j k v : String) (w : Outgoing)
        → canonical k ≡ k
        → lookup j (set_header canonical k v w).header
          ≡ (if k == j then some v else lookup j w.header)
    unfolding set_header
    lookup-set_header j k v w kept = rw (kept, lookup-insert j k v w.header)

    lookup-set_header_ne :
        (j k v : String) (w : Outgoing)
        → canonical k ≡ k
        → k ≢ j
        → lookup j (set_header canonical k v w).header ≡ lookup j w.header
    lookup-set_header_ne j k v w kept differ =
        lookup-set_header j k v w kept ∙ ground (arith, eq_iff k j)

    lookup-set_header_same :
        (k v : String) (w : Outgoing)
        → canonical k ≡ k
        → lookup k (set_header canonical k v w).header ≡ some v
    lookup-set_header_same k v w kept = lookup-set_header k k v w kept ∙ ground (arith, eq_iff k k)

    -- The methods and the header list do not touch the two headers of the origin.
    lookup-cors_headers :
        (j origin : String) (w : Outgoing)
        → allow_methods ≢ j
        → allow_headers ≢ j
        → lookup j (cors_headers canonical origins origin w).header
          ≡ lookup j (origin_headers canonical origins origin w).header
    unfolding cors_headers
    lookup-cors_headers j origin w other other' =
        let w1 = origin_headers canonical origins origin w in
        lookup-set_header_ne j allow_headers request_headers
          (set_header canonical allow_methods "POST, OPTIONS, GET" w1) names.headers_kept other'
        ∙ lookup-set_header_ne j allow_methods "POST, OPTIONS, GET" w1 names.methods_kept other

    -- A listed origin is named, with credentials.
    named_origin :
        (origin : String) (w : Outgoing)
        → (not (origin == "") && allowed origins origin) ≡ true
        → lookup allow_origin (cors_headers canonical origins origin w).header ≡ some origin
    unfolding origin_headers
    named_origin origin w listed =
        lookup-cors_headers allow_origin origin w (λ e. cc) (λ e. cc)
        ∙ rw listed (
            lookup-set_header_ne allow_origin allow_credentials "true"
              (set_header canonical allow_origin origin w) names.credentials_kept (λ e. cc)
            ∙ lookup-set_header_same allow_origin origin w names.origin_kept)

    -- Another origin gets no credentials.
    no_credentials :
        (origin : String) (w : Outgoing)
        → (not (origin == "") && allowed origins origin) ≡ false
        → lookup allow_credentials (cors_headers canonical origins origin w).header
          ≡ lookup allow_credentials w.header
    unfolding origin_headers
    no_credentials origin w other =
        lookup-cors_headers allow_credentials origin w (λ e. cc) (λ e. cc)
        ∙ rw other (elim (Bool-cases (is_empty origins)) [
          | inl empty ↦ rw empty (
              lookup-set_header_ne allow_credentials allow_origin "*" w names.origin_kept (λ e. cc))
          | inr some_origin ↦ rw some_origin
        ])

    -- The response lets a browser send credentials only for an origin of the list, and then names
    -- that origin, if the chain before it has set no such header and the four names that are set
    -- are canonical.
    pub cors_headers_credentials :
        (origin v : String) (w : Outgoing)
        → lookup allow_credentials w.header ≡ none
        → lookup allow_credentials (cors_headers canonical origins origin w).header ≡ some v
        → (origin ≢ "")
          × (allowed origins origin ≡ true)
          × (lookup allow_origin (cors_headers canonical origins origin w).header ≡ some origin)
    cors_headers_credentials origin v w clean h =
        elim (Bool-cases (not (origin == "") && allowed origins origin)) [
          | inl listed ↦
              (ground (arith, eq_iff origin ""), ground arith, named_origin origin w listed)
          | inr other ↦ let absent = no_credentials origin w other ∙ clean in absurd (ground arith)
        ]
