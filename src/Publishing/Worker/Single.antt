-- ===== src/Publishing/Worker/Single.antt =====
-- The job that one delivery in backend/src/publishing/publish-worker.processor.ts works on, and the rows of the others.
use social_promotion_automat.Base.{
  ℕ, String, true, Option, none, some, List, ◌≡◌, ◌≢◌, if◌then◌else◌,
}
use social_promotion_automat.Entity.{Post, PublishJob}
use social_promotion_automat.Store.{find_job}
use social_promotion_automat.Outbox.{ClaimedPublishJob, mark_remote_requesting}
use social_promotion_automat.Outbox.Interleaving.{is_final, WorkerRun-final}
use social_promotion_automat.Outbox.Isolation.{RunOn, RunOn-others, RunOn-WorkerRun}
use social_promotion_automat.Publishing.{
  SocialPost, PublishReconciliation, SocialAdapter, World, reconcile,
  can_safely_repeat_remote_request,
}
use social_promotion_automat.Publishing.Worker.{
  LogContext, Work, ◌>>=◌, pure, reconciled_job, query, persist_success,
  defer_ambiguous_remote_outcome, send, resume, run_claimed, finish_persisted, process,
}
use social_promotion_automat.Publishing.Worker.Rules.{
  Keeps, Anything, HasId, ClaimsId, Keeps-bind, Keeps-pure, Keeps-if, claim-Keeps, mark-Keeps,
  succeed-Keeps, reconcile_quiet, ask-Keeps,
}
use social_promotion_automat.Publishing.Worker.Steps.{
  persist_success-Keeps, defer-Keeps, send-Keeps,
}

module _ (clock : ℕ → ℕ) (adapters : List SocialAdapter) (format : Post → PublishJob → SocialPost)
    (slice : String → String) (id : String) where
  resume-Keeps :
      (c : ClaimedPublishJob) (key : String) (lease_ms attempt : ℕ)
      → c.job.id ≡ id
      → Keeps id Anything (resume clock adapters format slice c key lease_ms attempt)
  unfolding resume
  resume-Keeps c key lease_ms attempt same =
      Keeps-bind id Anything Anything _ (λ r u. after r)
        (ask-Keeps clock adapters format slice id Anything
          (reconcile clock adapters format slice c.post c.job)
          (reconcile_quiet clock adapters format slice id c.post c.job) (λ w. tt))
    where
      after :
          (r : PublishReconciliation)
          → Keeps id Anything (elim r as (λ x. Work (Option LogContext)) [
            | PublishReconciliation.confirmed result ↦
                query clock adapters format slice
                  (λ now. mark_remote_requesting c.job.id key lease_ms now)
                >>= λ job.
                    persist_success clock adapters format slice c.post.campaign_id
                      (reconciled_job job result)
                      attempt
            | _ ↦
                if can_safely_repeat_remote_request clock adapters format slice c.job.platform
                then send clock adapters format slice c lease_ms attempt
                else defer_ambiguous_remote_outcome clock adapters format slice c.post.campaign_id
                    c.job attempt
          ])
      after (PublishReconciliation.confirmed result) =
          Keeps-bind id (HasId id) Anything _
            (λ job e.
              persist_success-Keeps clock adapters format slice id c.post.campaign_id
                (reconciled_job job result) attempt e)
            (mark-Keeps clock adapters format slice id key lease_ms c.job.id same)
      after _ =
          Keeps-if id Anything _ (send-Keeps clock adapters format slice id c lease_ms attempt same)
            (defer-Keeps clock adapters format slice id c.post.campaign_id c.job attempt same)

  finish_persisted-Keeps :
      (c : ClaimedPublishJob) (attempt : ℕ)
      → c.job.id ≡ id
      → Keeps id Anything (finish_persisted clock adapters format slice c attempt)
  unfolding finish_persisted
  finish_persisted-Keeps c attempt same =
      Keeps-bind id Anything Anything _ (λ a u. Keeps-pure id Anything _ tt)
        (succeed-Keeps clock adapters format slice id c.job same)

  run_claimed-Keeps :
      (c : ClaimedPublishJob) (lease_ms attempt : ℕ)
      → c.job.id ≡ id
      → Keeps id Anything (run_claimed clock adapters format slice c lease_ms attempt)
  unfolding run_claimed
  run_claimed-Keeps c lease_ms attempt same =
      Keeps-if id Anything _ (finish_persisted-Keeps c attempt same) (
        Keeps-if id Anything _ (resume-Keeps c _ lease_ms attempt same)
          (send-Keeps clock adapters format slice id c lease_ms attempt same))

  process-Keeps :
      (lease_ms attempt : ℕ) (q : Option String)
      → Keeps id Anything (process clock adapters format slice id lease_ms attempt q)
  unfolding process
  process-Keeps lease_ms attempt q =
      Keeps-bind id (ClaimsId id) Anything _ after
        (claim-Keeps clock adapters format slice id lease_ms q)
    where
      after :
          (o : Option ClaimedPublishJob)
          → ClaimsId id o
          → Keeps id Anything (elim o as (λ x. Work (Option LogContext)) [
            | none ↦ pure none
            | some c ↦ run_claimed clock adapters format slice c lease_ms attempt
          ])
      after none e = Keeps-pure id Anything none tt
      after (some c) e = run_claimed-Keeps c lease_ms attempt e

  -- Whatever the providers answer and wherever the run stops, what a delivery writes is a sequence of the
  -- repository's statements that all name the job of its message.
  pub process-RunOn :
      (lease_ms attempt : ℕ) (q : Option String) (w : World)
      → RunOn id w.db (process clock adapters format slice id lease_ms attempt q w).1.db
  process-RunOn lease_ms attempt q w = (process-Keeps lease_ms attempt q).runs w

  -- A delivery for one job leaves the row of every other job as it is.
  pub process_isolated :
      (lease_ms attempt : ℕ) (q : Option String) (w : World) (k : String)
      → k ≢ id
      → find_job k (process clock adapters format slice id lease_ms attempt q w).1.db
        ≡ find_job k w.db
  process_isolated lease_ms attempt q w k ne =
      RunOn-others k (process-RunOn lease_ms attempt q w) ne

  -- A delivery for a job that is published, failed or cancelled leaves its row as it is.
  pub process_final :
      (lease_ms attempt : ℕ) (q : Option String) (w : World) (j : PublishJob)
      → find_job id w.db ≡ some j
      → is_final j.status ≡ true
      → find_job id (process clock adapters format slice id lease_ms attempt q w).1.db ≡ some j
  process_final lease_ms attempt q w j found h =
      WorkerRun-final id j (RunOn-WorkerRun (process-RunOn lease_ms attempt q w)) found h
