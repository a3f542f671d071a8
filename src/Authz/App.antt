-- ===== src/Authz/App.antt =====
-- internal/app/authz/service.go: the part of a token that its span shows.
use oauth2_token_exchange.Common.{
  ℕ, ◌≤◌, ◌<◌, List, ◌++◌, ◌≡◌, ◌⊎◌, inl, inr, arith, Bool-cases, ltb, length, take, drop,
  take-append-drop, length-take, length-drop, sym, if◌then◌else◌,
}
use oauth2_token_exchange.Go.Encoding.{bytes}

abbrev pub pat_prefix_length : ℕ
pat_prefix_length = 8

-- `getPATPrefix`, on the bytes of the token
unfoldable pub get_pat_prefix : List ℕ → List ℕ
unfolding bytes
get_pat_prefix pat =
    if ltb pat_prefix_length (length pat)
    then take pat_prefix_length pat ++ bytes "..."
    else bytes "***"

-- Of a token of more than eight bytes a span shows the first eight, with at least one left out,
-- and of any other token nothing.
pub get_pat_prefix_bounds :
    (pat : List ℕ)
    → ((length pat ≤ 8) × (get_pat_prefix pat ≡ bytes "***"))
      ⊎ ((start : List ℕ) × (rest : List ℕ) × (pat ≡ start ++ rest)
          × (length start ≡ 8)
          × (0 < length rest)
          × (get_pat_prefix pat ≡ start ++ bytes "..."))
unfolding get_pat_prefix
get_pat_prefix_bounds pat = elim (Bool-cases (ltb pat_prefix_length (length pat))) [
  | inl long ↦
      let start : List ℕ = take pat_prefix_length pat in
      let rest : List ℕ = drop pat_prefix_length pat in
      let enough : pat_prefix_length < length pat = ground arith in
      let left : 0 < length rest = elim (length-drop pat_prefix_length pat) [
        | inl e ↦ omega arith
        | inr few ↦ absurd (omega arith)
      ] in
      inr (
        start,
        rest,
        sym (take-append-drop pat_prefix_length pat),
        length-take pat_prefix_length pat (omega arith),
        left,
        rw long,
      )
  | inr short ↦ inl (ground arith, rw short)
]
