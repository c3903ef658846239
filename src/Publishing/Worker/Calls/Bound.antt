-- ===== src/Publishing/Worker/Calls/Bound.antt =====
-- The writes to the provider in one delivery of backend/src/publishing/publish-worker.processor.ts: how many there are,
-- and under which key.
use social_promotion_automat.Base.{
  ℕ, suc, ◌+◌, ◌≤◌, String, true, false, Option, none, some, List, ◌≡◌, refl, or_else, truthy?,
  arith, ap, ◌∙◌, sym,
}
use social_promotion_automat.Entity.{Post, PublishJob}
use social_promotion_automat.Store.{find_job}
use social_promotion_automat.Result.{Result, ok, raised, some_inj}
use social_promotion_automat.Outbox.{ClaimedPublishJob, claim_publish_job}
use social_promotion_automat.Outbox.Lease.{claim_sound}
use social_promotion_automat.Publishing.{
  SocialPost, Call, SocialAdapter, World, can_safely_repeat_remote_request,
}
use social_promotion_automat.Publishing.Worker.{
  LogContext, Done, done, stopped, Work, ◌>>=◌, pure, lift, request_key_of, run_claimed, process,
}
use social_promotion_automat.Publishing.Worker.Calls.{publish_count, Keyed}
use social_promotion_automat.Publishing.Worker.Calls.Steps.{run_claimed-Writes, run_claimed-quiet}

-- What holds before a delivery and after the work on a job that it has claimed holds after the delivery.
process-after :
    (clock : ℕ → ℕ) (adapters : List SocialAdapter) (format : Post → PublishJob → SocialPost)
    (slice : String → String) (id : String) (lease_ms attempt : ℕ) (q : Option String) (w : World)
    (Q : List Call → Type 0)
    → Q w.calls
    → ((c : ClaimedPublishJob) (w' : World)
        → (claim_publish_job id lease_ms q (clock w.ticks) w.db).0 ≡ ok (some c)
        → w'.calls ≡ w.calls
        → Q (run_claimed clock adapters format slice c lease_ms attempt w').1.calls)
    → Q (process clock adapters format slice id lease_ms attempt q w).1.calls
unfolding process ◌>>=◌
process-after clock adapters format slice id lease_ms attempt q w Q before claimed =
    go (claim_publish_job id lease_ms q (clock w.ticks) w.db).0 refl
  where
    w1 : World
    w1 = record w {
      db = (claim_publish_job id lease_ms q (clock w.ticks) w.db).1;
      ticks = suc w.ticks;
    }

    go :
        (r : Result (Option ClaimedPublishJob))
        → (claim_publish_job id lease_ms q (clock w.ticks) w.db).0 ≡ r
        → Q
            (elim (lift r) as (λ x. Done (Option LogContext) × World) [
              | done o ↦
                  (elim o as (λ x. Work (Option LogContext)) [
                    | none ↦ pure none
                    | some c ↦ run_claimed clock adapters format slice c lease_ms attempt
                  ])
                    w1
              | stopped e ↦ (stopped e, w1)
            ]).1.calls
    go (ok none) e = before
    go (ok (some c)) e = claimed c w1 e refl
    go (raised x) e = before

module _ (clock : ℕ → ℕ) (adapters : List SocialAdapter) (format : Post → PublishJob → SocialPost)
    (slice : String → String) (id : String) (lease_ms attempt : ℕ) (q : Option String)
    (w : World) where
  -- A delivery makes at most one call of a provider's publish, whatever the providers answer.
  pub process_writes_once :
      publish_count (process clock adapters format slice id lease_ms attempt q w).1.calls
      ≤ 1 + publish_count w.calls
  process_writes_once =
      process-after clock adapters format slice id lease_ms attempt q w
        (λ calls. publish_count calls ≤ 1 + publish_count w.calls) (omega arith)
        (λ c w' e same. rw (← same) (
          (run_claimed-Writes (λ k. Unit) clock adapters format slice c lease_ms attempt tt).bound
            w'))

  -- Of a job that carries a request key, on a platform whose adapter does not promise idempotent writes, a
  -- delivery makes no call of publish.
  pub process_never_repeats :
      (j : PublishJob)
      → find_job id w.db ≡ some j
      → truthy? j.remote_request_key ≡ true
      → can_safely_repeat_remote_request clock adapters format slice j.platform ≡ false
      → publish_count (process clock adapters format slice id lease_ms attempt q w).1.calls
        ≤ publish_count w.calls
  process_never_repeats j found set unsafe =
      process-after clock adapters format slice id lease_ms attempt q w
        (λ calls. publish_count calls ≤ publish_count w.calls) (omega arith)
        (λ c w' e same.
          let (i, there, _, _, _, _, row, _) = claim_sound id lease_ms q (clock w.ticks) w.db c e in
          let i_eq : i ≡ j = some_inj (sym there ∙ found) in
          let key : c.job.remote_request_key ≡ j.remote_request_key =
            ap (λ (x : PublishJob). x.remote_request_key) row
            ∙ ap (λ (x : PublishJob). x.remote_request_key) i_eq in
          let platform : c.job.platform ≡ j.platform =
            ap (λ (x : PublishJob). x.platform) row ∙ ap (λ (x : PublishJob). x.platform) i_eq in
          rw (← same) (
            omega (
              arith,
              (run_claimed-quiet (λ k. Unit) clock adapters format slice c lease_ms attempt
                    (rw key set) (rw platform unsafe)).bound
                  w',
            )))

  -- Every call of publish in a delivery is made under the request key that the job carries or, if it carries none,
  -- under `social-publish:` and the job's id.
  pub process_key :
      (j : PublishJob)
      → find_job id w.db ≡ some j
      → let K = λ (k : String). k ≡ or_else j.remote_request_key (request_key_of j) in
        Keyed K w.calls
        → Keyed K (process clock adapters format slice id lease_ms attempt q w).1.calls
  process_key j found before =
      let K = λ (k : String). k ≡ or_else j.remote_request_key (request_key_of j) in
      process-after clock adapters format slice id lease_ms attempt q w (Keyed K) before
        (λ c w' e same.
          let (i, there, _, _, _, _, row, _) = claim_sound id lease_ms q (clock w.ticks) w.db c e in
          let i_eq : i ≡ j = some_inj (sym there ∙ found) in
          let key : or_else c.job.remote_request_key (request_key_of c.job)
              ≡ or_else j.remote_request_key (request_key_of j) =
            ap (λ (x : PublishJob). or_else x.remote_request_key (request_key_of x)) row
            ∙ ap (λ (x : PublishJob). or_else x.remote_request_key (request_key_of x)) i_eq in
          (run_claimed-Writes K clock adapters format slice c lease_ms attempt key).keyed w'
            (rw same before))
