-- ===== src/Go/Act/Laws.antt =====
-- Inversion of actions that returned a value.
use oauth2_token_exchange.Common.{
  ◌≡◌, refl, ◌⊎◌, inl, inr, Bool, true, false, String, if◌then◌else◌,
}
use oauth2_token_exchange.Go.Errors.{GoError, ok, err}
use oauth2_token_exchange.Go.Act.{
  Reply, returned, failed, panicked, Act, continue, ◌>>=◌, ◌>>◌, attempt_reply, wrap_reply,
  refuse_if, pure,
}

pub Reply-cases {ℓ} :
    {A : Type ℓ} (r : Reply A)
    → ((a : A) × (r ≡ returned a))
      ⊎ ((e : GoError) × (r ≡ failed e))
      ⊎ ((t : String) × (r ≡ panicked t))
Reply-cases (returned a) = inl (a, refl)
Reply-cases (failed e) = inr (inl (e, refl))
Reply-cases (panicked t) = inr (inr (t, refl))

module _ {ℓ κ} {S : Type 0} {A : Type ℓ} {B : Type κ} where
  continue-eq-returned :
      (r : Reply A) (f : A → Act S B) (s : S) {b : B}
      → (continue r f s).0 ≡ returned b
      → (a : A) × (r ≡ returned a) × ((f a s).0 ≡ returned b)
  continue-eq-returned (returned a) f s h = (a, refl, h)
  continue-eq-returned (failed e) f s h = cc
  continue-eq-returned (panicked t) f s h = cc

  -- What holds of the state after a call, and after each way to go on, holds at the end.
  pub state-continue :
      (P : S → Type 0) (r : Reply A) (f : A → Act S B) (s : S)
      → P s
      → ((a : A) → r ≡ returned a → P (f a s).1)
      → P (continue r f s).1
  state-continue P (returned a) f s h k = k a refl
  state-continue P (failed e) f s h k = h
  state-continue P (panicked t) f s h k = h

  -- The same of the reply and the state together.
  pub post-continue :
      (Q : Reply B → S → Type 0) (r : Reply A) (f : A → Act S B) (s : S)
      → ((e : GoError) → Q (failed e) s)
      → ((t : String) → Q (panicked t) s)
      → ((a : A) → r ≡ returned a → Q (f a s).0 (f a s).1)
      → Q (continue r f s).0 (continue r f s).1
  post-continue Q (returned a) f s h p k = k a refl
  post-continue Q (failed e) f s h p k = h e
  post-continue Q (panicked t) f s h p k = p t

  -- A block that returned has got a value from its first call.
  pub >>=-eq-returned :
      (m : Act S A) (f : A → Act S B) (s : S) {b : B}
      → ((m >>= f) s).0 ≡ returned b
      → (a : A) × ((m s).0 ≡ returned a) × ((f a (m s).1).0 ≡ returned b)
  >>=-eq-returned m f s h = continue-eq-returned (m s).0 f (m s).1 h

module _ {ℓ} {A : Type ℓ} where
  pub returned-injective : (a b : A) → returned a ≡ returned b → a ≡ b
  returned-injective a b h = cc

  pub attempt_reply-eq-ok :
      (r : Reply A) {a : A} → attempt_reply r ≡ returned (ok a) → r ≡ returned a
  attempt_reply-eq-ok (returned a) h = cc
  attempt_reply-eq-ok (failed e) h = cc
  attempt_reply-eq-ok (panicked t) h = cc

  pub attempt_reply-eq-err :
      (r : Reply A) {e : GoError} → attempt_reply r ≡ returned (err e) → r ≡ failed e
  attempt_reply-eq-err (returned a) h = cc
  attempt_reply-eq-err (failed e) h = cc
  attempt_reply-eq-err (panicked t) h = cc

  pub wrap_reply-eq-returned :
      (prefix : String) (r : Reply A) {a : A} → wrap_reply prefix r ≡ returned a → r ≡ returned a
  wrap_reply-eq-returned prefix (returned a) h = h
  wrap_reply-eq-returned prefix (failed e) h = cc
  wrap_reply-eq-returned prefix (panicked t) h = cc

-- What holds after both branches holds after the conditional.
pub state-if {ℓ} :
    {S : Type 0} {A : Type ℓ} (P : S → Type 0) (b : Bool) (m n : Act S A) (s : S)
    → (b ≡ true → P (m s).1)
    → (b ≡ false → P (n s).1)
    → P ((if b then m else n) s).1
state-if P true m n s h k = h refl
state-if P false m n s h k = k refl

pub post-if {ℓ} :
    {S : Type 0} {A : Type ℓ} (Q : Reply A → S → Type 0) (b : Bool) (m n : Act S A) (s : S)
    → (b ≡ true → Q (m s).0 (m s).1)
    → (b ≡ false → Q (n s).0 (n s).1)
    → Q ((if b then m else n) s).0 ((if b then m else n) s).1
post-if Q true m n s h k = h refl
post-if Q false m n s h k = k refl

module _ {ℓ} {S : Type 0} {B : Type ℓ} where
  pub refuse_if-true :
      (b : Bool) (e : GoError) (m : Act S B) (s : S)
      → b ≡ true
      → (refuse_if b e >> m) s ≡ (failed e, s)
  refuse_if-true true e m s h = refl
  refuse_if-true false e m s h = cc

  pub refuse_if_passed :
      (b : Bool) (e : GoError) (m : Act S B) (s : S) {a : B}
      → ((refuse_if b e >> m) s).0 ≡ returned a
      → (b ≡ false) × ((m s).0 ≡ returned a)
  refuse_if_passed true e m s h = cc
  refuse_if_passed false e m s h = (refl, h)

module _ {ℓ} {S : Type 0} {A : Type ℓ} where
  continue-pure : (r : Reply A) (s : S) → continue r pure s ≡ (r, s)
  continue-pure (returned a) s = refl
  continue-pure (failed e) s = refl
  continue-pure (panicked t) s = refl

  -- Returning what a call returned is the call.
  pub >>=-pure : (m : Act S A) (s : S) → (m >>= pure) s ≡ m s
  >>=-pure m s = continue-pure (m s).0 (m s).1
