-- ===== src/Adapters/X/Stages.antt =====
-- `billed` of backend/src/publishing/adapters/x.adapter.ts in stages, one for each call that it awaits: the uploads of a post
-- run at the same time, and between two stages of one any stages of the others may take place.
use social_promotion_automat.Base.{ℕ, String, ◌≡◌, refl}
use social_promotion_automat.Publishing.{Attempt, returned, threw}
use social_promotion_automat.Adapters.{lift, ◌>>=◌, Json, Runtime}
use social_promotion_automat.Adapters.X.{
  XUsageOperation, XRequest, XState, XCredential, XProvider, reserve, estimate,
}
use social_promotion_automat.Adapters.X.Adapter.{
  send_request, settle_answer, request_reserved, billed,
}

-- Before the reservation, before the request, before the settlement, and over.
pub data Stage : Type 0 where
  waiting : XCredential → XUsageOperation → Attempt String → (String → XRequest) → Stage
  holding : String → Attempt String → (String → XRequest) → Stage
  answered : String → Attempt Json → Stage
  over : Attempt Json → Stage

abbrev pub begun : Attempt String → (String → XRequest) → Attempt String × XState → Stage × XState
begun url make (threw e, s) = (over (threw e), s)
begun url make (returned id, s) = (holding id url make, s)

module _ (rt : Runtime) (provider : XProvider) where
  unfoldable pub advance : Stage → XState → Stage × XState
  advance (waiting c operation url make) s = elim (estimate rt operation) [
    | threw e ↦ (over (threw e), s)
    | returned quote ↦
        begun url make (reserve rt provider c.social_account_id operation quote.0 quote.1 s)
  ]
  advance (holding id url make) s =
      let (answer, t) = send_request rt provider url make s in (answered id answer, t)
  advance (answered id answer) s =
      let (body, t) = settle_answer rt provider id answer s in (over body, t)
  advance (over body) s = (over body, s)

  abbrev pub advanced : Stage × XState → Stage × XState
  advanced x = advance x.0 x.1

  -- The three stages, with nothing between them, are `billed`.
  pub billed_advances :
      (c : XCredential) (operation : XUsageOperation) (url : Attempt String)
      (make : String → XRequest) (s : XState)
      → let r = billed rt provider c operation (send_request rt provider url make) s in
        advanced (advanced (advance (waiting c operation url make) s)) ≡ (over r.0, r.1)
  unfolding advance billed request_reserved ◌>>=◌
  billed_advances c operation url make s = quoted (estimate rt operation)
    where
      taken :
          (r : Attempt String × XState)
          → let b = elim r.0 as (λ x. Attempt Json × XState) [
            | returned id ↦ request_reserved rt provider (send_request rt provider url make) id r.1
            | threw e ↦ (threw e, r.1)
          ] in
            advanced (advanced (begun url make r)) ≡ (over b.0, b.1)
      taken (threw e, t) = refl
      taken (returned id, t) = refl

      quoted :
          (q : Attempt (ℕ × String))
          → let b =
              (lift q >>= λ quote.
              reserve rt provider c.social_account_id operation quote.0 quote.1
              >>= request_reserved rt provider (send_request rt provider url make))
                s in
            advanced (
              advanced (elim q as (λ x. Stage × XState) [
                | threw e ↦ (over (threw e), s)
                | returned quote ↦
                    begun url make
                      (reserve rt provider c.social_account_id operation quote.0 quote.1 s)
              ]))
            ≡ (over b.0, b.1)
      quoted (threw e) = refl
      quoted (returned quote) =
          taken (reserve rt provider c.social_account_id operation quote.0 quote.1 s)
