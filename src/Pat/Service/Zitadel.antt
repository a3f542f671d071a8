-- ===== src/Pat/Service/Zitadel.antt =====
-- The token service over the client of internal/infra/zitadel/client.go, behind the RPC handler.
use mathlib.Core.Option.{some-injective}
use oauth2_token_exchange.Common.Int.{ℤ, IsInt64}
use oauth2_token_exchange.Common.{
  String, false, ◌==◌, eq_iff, ◌≡◌, ◌≢◌, inl, inr, refl, sym, ap, ◌∙◌, arith, Bool-cases,
}
use oauth2_token_exchange.Go.Errors.{Result, ok, err}
use oauth2_token_exchange.Go.Act.{returned, pure, attempt}
use oauth2_token_exchange.Go.Act.Laws.{returned-injective, >>=-eq-returned, attempt_reply-eq-ok}
use oauth2_token_exchange.Go.Map.{StringMap, get}
use oauth2_token_exchange.Go.Time.{Time, before, of_unix, unix, unix-of_unix}
use oauth2_token_exchange.Zitadel.Client.{ZitadelClient, Outside}
use oauth2_token_exchange.Zitadel.Service.{client}
use oauth2_token_exchange.Zitadel.Added.{add_personal_access_token_returned}
use oauth2_token_exchange.Pat.Service.{Pat, Service, create_pat, of_token, service}
use oauth2_token_exchange.Pat.Service.Laws.{create_pat_returned}
use oauth2_token_exchange.Pat.App
use oauth2_token_exchange.Pat.Handler
use oauth2_token_exchange.Pat.Handler.{
  Rpc, answered, refused, create_at, create_reply, clock, to_proto, ProtoPat,
}

module _ {S : Type 0} (o : Outside S) (c : ZitadelClient) (admin_pat : String)
    (now : S → Time × S) where
  -- The service that `NewServer` builds.
  abbrev pub wired : Service S
  wired = record { zitadel_client = client o c; admin_pat = admin_pat; now = now }

  -- A token that the service creates is the caller's, has the expiration date asked for, which is
  -- not past, and belongs to a machine user with an id.
  pub create_pat_for_caller :
      (user_id email name : String) (expiration : Time) (st : S) (p : Pat) (token : String)
      → (create_pat wired user_id email name expiration st).0 ≡ returned (p, token)
      → (p.human_user_id ≡ user_id)
        × (p.expiration_date ≡ expiration)
        × (before expiration (now st).0 ≡ false)
        × (p.machine_user_id ≢ "")
  unfolding client of_token
  create_pat_for_caller user_id email name expiration st p token h =
      let (future, made) = create_pat_returned wired user_id email name expiration st p token h in
      let (result, _, same) =
        add_personal_access_token_returned o c admin_pat made.user.id expiration made.before_add _
          made.added in
      let same' = some-injective _ _ (ap (λ a. a.0) same) in
      (
        ap (λ q. q.human_user_id) made.built,
        ap (λ q. q.expiration_date) made.built ∙ ap (λ q. q.expiration_date) same',
        future,
        λ empty. made.has_id (sym (ap (λ q. q.machine_user_id) made.built) ∙ empty),
      )

  create_reply-answered :
      (r : Result (Pat × String)) (now' : S → Time × S) (st : S) (answer : ProtoPat × String)
      → create_reply (service wired) now' r ≡ answered answer
      → (p : Pat) × (token : String) × (r ≡ ok (p, token)) × (answer ≡ (to_proto p, token))
  create_reply-answered (err e) now' st answer h = cc
  create_reply-answered (ok (p, token)) now' st answer h = (p, token, refl, ground arith)

  app_create_returned :
      (user_id email name : String) (expiration : Time) (st : S) {made : Pat × String}
      → (App.create_pat (service wired) user_id email name expiration st).0 ≡ returned made
      → (create_pat wired user_id email name expiration st).0 ≡ returned made
  unfolding App.create_pat service
  app_create_returned user_id email name expiration st h =
      let ((p, token), made, same) =
        >>=-eq-returned (create_pat wired user_id email name expiration) _ st h in
      made ∙ same

  create_at-answered :
      (header : StringMap) (expiration : ℤ) (t : Time) (st : S) (answer : ProtoPat × String)
      → (create_at (service wired) now header expiration t st).0 ≡ returned (answered answer)
      → (p : Pat) × (token : String) × (answer ≡ (to_proto p, token))
        × ((App.create_pat
              (service wired)
              (get header "X-Auth-Request-User")
              (get header "X-Auth-Request-Email")
              (get header "X-Auth-Request-Preferred-Username")
              (of_unix expiration)
              st).0
            ≡ returned (p, token))
  create_at-answered header expiration t st answer h =
      elim (Bool-cases (before (of_unix expiration) t)) [
        | inl past ↦ absurd (ground arith)
        | inr future ↦
            let call =
              App.create_pat (service wired) (get header "X-Auth-Request-User")
                (get header "X-Auth-Request-Email") (get header "X-Auth-Request-Preferred-Username")
                (of_unix expiration) in
            let (r, gave, rest) =
              >>=-eq-returned (attempt call) (λ r. pure (create_reply (service wired) now r)) st
                (rw future at h) in
            let (p, token, same, built) =
              create_reply-answered r now st answer (returned-injective _ _ rest) in
            (p, token, built, attempt_reply-eq-ok _ (gave ∙ ap returned same))
      ]

  -- A call of `CreatePAT` that is answered, over the client of ZITADEL, has a header that names
  -- the user, and gives a token of that user, which expires at the second asked for, if that is
  -- an `int64`, and belongs to a machine user whose id is not empty.
  pub create_pat_answered :
      (header : StringMap) (expiration : ℤ) (st : S) (answer : ProtoPat × String)
      → IsInt64 expiration
      → (Handler.create_pat (service wired) now header expiration st).0 ≡ returned (answered answer)
      → (get header "X-Auth-Request-User" ≢ "")
        × (answer.0.human_user_id ≡ get header "X-Auth-Request-User")
        × (answer.0.expiration_date ≡ expiration)
        × (answer.0.machine_user_id ≢ "")
  unfolding Handler.create_pat to_proto
  create_pat_answered header expiration st answer range h =
      elim (Bool-cases (get header "X-Auth-Request-User" == "")) [
        | inl missing ↦ absurd (ground arith)
        | inr known ↦
            let (t, told, h1) =
              >>=-eq-returned (clock (service wired) now)
                (create_at (service wired) now header expiration) st (rw known at h) in
            let (p, token, built, made) = create_at-answered header expiration t _ answer h1 in
            let (caller, date, future, has_id) =
              create_pat_for_caller _ _ _ (of_unix expiration) _ p token
                (app_create_returned _ _ _ _ _ made) in
            (
              ground (arith, eq_iff (get header "X-Auth-Request-User") ""),
              ap (λ (a : ProtoPat × String). a.0.human_user_id) built ∙ caller,
              ap (λ (a : ProtoPat × String). a.0.expiration_date) built
                  ∙ ap unix date
                  ∙ unix-of_unix expiration range,
              λ empty.
                  has_id (sym (ap (λ (a : ProtoPat × String). a.0.machine_user_id) built) ∙ empty),
            )
      ]
