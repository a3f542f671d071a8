-- ===== src/Go/Strings/Parts.antt =====
-- `strings.Split` of parts that were put together with the separator.
use Prim.Native.Char.{Char, code}
use Prim.Native.String.{[], ◌∷◌}
use text.Mathlib.TextLemmas.{nil-append, cons-append}
use oauth2_token_exchange.Common.{ℕ, String, ◌<>◌, true, false, List, eqb, ◌≡◌, refl}
use oauth2_token_exchange.Go.Strings.{split, grow}

-- The separator does not occur in the text.
abbrev pub Lacks : ℕ → String → Type 0
Lacks separator [] = Unit
Lacks separator (c ∷ s) = (eqb (code c) separator ≡ false) × Lacks separator s

pub split-of_Lacks :
    (s : String) (separator : ℕ) → Lacks separator s → split s separator ≡ List.◌∷◌ s List.[]
unfolding split
split-of_Lacks [] separator h = refl
split-of_Lacks (c ∷ s) separator (h, hs) = rw (h, split-of_Lacks s separator hs, grow)

-- The first part of a text that begins with a part and the separator.
pub split-append :
    (s rest : String) (dot : Char)
    → Lacks (code dot) s
    → eqb (code dot) (code dot) ≡ true
    → split (s <> (dot ∷ [] <> rest)) (code dot) ≡ List.◌∷◌ s (split rest (code dot))
unfolding split
split-append [] rest dot h same = rw (nil-append, cons-append, nil-append) (rw same)
split-append (c ∷ s) rest dot (h, hs) same =
    rw (cons-append c s (dot ∷ [] <> rest)) (rw (h, split-append s rest dot hs same, grow))
