-- ===== src/Go/Strings/Laws.antt =====
-- Laws of the text functions: prefixes, white space, and splitting against joining.
use Prim.Native.Char.{Char, code}
use Prim.Native.String.{[], ◌∷◌}
use text.Mathlib.TextEquality.{Char-path}
use text.Mathlib.TextLemmas.{nil-append, cons-append}
use mathlib.Core.Option.{some-injective}
use oauth2_token_exchange.Common.{
  ℕ, String, ◌<>◌, true, false, ◌&&◌, none, some, List, eqb, eqb_iff, ◌==◌, ◌≡◌, refl, sym, ap, ◌≢◌,
  arith, Bool-cases, Option-cases, inl, inr,
}
use oauth2_token_exchange.Go.Strings.{
  strip, has_prefix, trim_prefix, is_space, trim_left, trim_right, trim_space, join, split, grow,
}

-- Stripping a prefix that was put in front gives back the text.
pub strip-append : (p s : String) → strip p (p <> s) ≡ some s
unfolding strip
strip-append [] s = rw nil-append
strip-append (c ∷ p) s = rw cons-append (ground (arith, strip-append p s))

pub trim_prefix-append : (p s : String) → trim_prefix (p <> s) p ≡ s
unfolding trim_prefix
trim_prefix-append p s = rw (strip-append p s, trim_prefix)

-- A text without the prefix stays as it is.
pub trim_prefix_of_other : (p s : String) → strip p s ≡ none → trim_prefix s p ≡ s
unfolding trim_prefix
trim_prefix_of_other p s h = rw (h, trim_prefix)

-- A text that can be stripped of a prefix is the prefix and the rest.
strip-eq-some : (p s rest : String) → strip p s ≡ some rest → s ≡ p <> rest
unfolding strip
strip-eq-some [] s rest h = rw nil-append (some-injective _ _ h)
strip-eq-some (c ∷ p) [] rest h = cc
strip-eq-some (c ∷ p) (d ∷ s) rest h = elim (Bool-cases (eqb (code c) (code d))) [
  | inl same ↦
      let tail = strip-eq-some p s rest (rw same at h) in
      rw (cons-append, tail)
        (ap (λ a. a ∷ (p <> rest)) (sym (Char-path c d ((eqb_iff _ _).0 same))))
  | inr differs ↦ absurd (let bad = rw differs at h in cc)
]

pub has_prefix-append : (s p : String) → has_prefix s p ≡ true → s ≡ p <> trim_prefix s p
unfolding has_prefix trim_prefix
has_prefix-append s p h = elim (Option-cases (strip p s)) [
  | inl missing ↦ absurd (let bad = rw (missing, has_prefix) at h in cc)
  | inr (rest, found) ↦ rw (found, trim_prefix) (strip-eq-some p s rest found)
]

-- The text does not begin with white space.
abbrev pub StartsSolid : String → Type 0
StartsSolid [] = Unit
StartsSolid (c ∷ s) = is_space (code c) ≡ false

-- The text does not end with white space.
abbrev pub EndsSolid : String → Type 0
EndsSolid s = trim_right s ≡ s

trim_left-StartsSolid : (s : String) → StartsSolid (trim_left s)
unfolding trim_left
trim_left-StartsSolid [] = tt
trim_left-StartsSolid (c ∷ s) = elim (Bool-cases (is_space (code c))) [
  | inl blank ↦ rw (blank, trim_left) (trim_left-StartsSolid s)
  | inr solid ↦ rw (solid, trim_left) solid
]

trim_right-StartsSolid : (s : String) → StartsSolid s → StartsSolid (trim_right s)
unfolding trim_right
trim_right-StartsSolid [] h = tt
trim_right-StartsSolid (c ∷ s) h = rw h (ground arith)

trim_right-trim_right : (s : String) → trim_right (trim_right s) ≡ trim_right s
unfolding trim_right
trim_right-trim_right [] = refl
trim_right-trim_right (c ∷ s) = elim (Bool-cases (trim_right s == "" && is_space (code c))) [
  | inl blank ↦ rw blank
  | inr solid ↦ rw solid (rw (trim_right-trim_right s, trim_right) (rw solid))
]

trim_left_of_StartsSolid : (s : String) → StartsSolid s → trim_left s ≡ s
unfolding trim_left
trim_left_of_StartsSolid [] h = refl
trim_left_of_StartsSolid (c ∷ s) h = rw h

-- A text that begins and ends with no white space is its own `TrimSpace`.
pub trim_space_of_solid : (s : String) → StartsSolid s → EndsSolid s → trim_space s ≡ s
unfolding trim_space
trim_space_of_solid s h k = rw (trim_left_of_StartsSolid s h, trim_space) k

-- `TrimSpace` leaves no white space at either end.
pub trim_space-solid : (s : String) → StartsSolid (trim_space s) × EndsSolid (trim_space s)
unfolding trim_space
trim_space-solid s = (
  trim_right-StartsSolid (trim_left s) (trim_left-StartsSolid s),
  trim_right-trim_right (trim_left s),
)

-- White space in front of a text is not seen by `TrimSpace`.
pub trim_space-cons :
    (c : Char) (s : String) → is_space (code c) ≡ true → trim_space (c ∷ s) ≡ trim_space s
unfolding trim_space
trim_space-cons c s h = rw (h, trim_space)

split-ne-nil : (s : String) (separator : ℕ) → split s separator ≢ List.[]
unfolding split
split-ne-nil [] separator = cc
split-ne-nil (c ∷ s) separator = ground (arith, split-ne-nil s separator)

join-grow :
    (c : Char) (parts : List String) (separator : String)
    → parts ≢ List.[]
    → join (grow c parts) separator ≡ c ∷ join parts separator
unfolding join
join-grow c List.[] separator h = absurd (h refl)
join-grow c (List.◌∷◌ s List.[]) separator h = refl
join-grow c (List.◌∷◌ s (List.◌∷◌ t rest)) separator h = rw cons-append

join-nil-cons :
    (parts : List String) (separator : String)
    → parts ≢ List.[]
    → join (List.◌∷◌ [] parts) separator ≡ separator <> join parts separator
unfolding join
join-nil-cons List.[] separator h = absurd (h refl)
join-nil-cons (List.◌∷◌ s rest) separator h = rw nil-append

-- Joining the parts of a split text with its separator gives back the text.
pub join-split :
    (s : String) (separator : Char) → join (split s (code separator)) (separator ∷ []) ≡ s
unfolding split join
join-split [] separator = refl
join-split (c ∷ s) separator = elim (Bool-cases (eqb (code c) (code separator))) [
  | inl same ↦
      rw (same, split)
        (rw
          (join-nil-cons (split s (code separator)) (separator ∷ [])
            (split-ne-nil s (code separator)))
          (rw (join-split s separator, cons-append, nil-append)
            (ap (λ d. d ∷ s) (Char-path separator c (sym ((eqb_iff _ _).0 same))))))
  | inr other ↦
      rw (other, split)
        (rw
          (join-grow c (split s (code separator)) (separator ∷ [])
            (split-ne-nil s (code separator)))
          (ap (λ t. c ∷ t) (join-split s separator)))
]
