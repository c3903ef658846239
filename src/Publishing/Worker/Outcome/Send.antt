-- ===== src/Publishing/Worker/Outcome/Send.antt =====
-- How a remote request of backend/src/publishing/publish-worker.processor.ts ends, and the job's row.
use social_promotion_automat.Base.{
  refl, ℕ, suc, String, Bool, true, false, Option, some, List, ◌≡◌, or_else, if◌then◌else◌, arith,
  inr, ap, ◌∙◌, sym, subst, ◌⊎◌,
}
use social_promotion_automat.Entity.{JobStatus, Post, PublishJob}
use social_promotion_automat.Store.{Db, find_job}
use social_promotion_automat.Store.Laws.{find_job_id}
use social_promotion_automat.Outbox.{ClaimedPublishJob, mark_remote_requesting, is_active}
use social_promotion_automat.Outbox.Lease.{request_key}
use social_promotion_automat.Publishing.{
  SocialPost, PublishReconciliation, SocialAdapter, World, PublishExecution, succeeded, failed,
  publish, reconcile,
}
use social_promotion_automat.Publishing.Worker.{
  deferred_job, settle_failure, LogContext, Work, ◌>>=◌, request_key_of, reconciled_job, ask,
  persist_success, defer_ambiguous_remote_outcome, settle_ambiguous, settle, send,
}
use social_promotion_automat.Publishing.Worker.Rules.{publish_quiet, reconcile_quiet}
use social_promotion_automat.Publishing.Worker.Steps.{ExecutionId, publish_id}
use social_promotion_automat.Publishing.Worker.Outcome.Counts.{
  request_count, Counts, can_request_own, mark_returns, publish-Counts,
}
use social_promotion_automat.Publishing.Worker.Outcome.{Ended, query-split}
use social_promotion_automat.Publishing.Worker.Outcome.Settle.{
  persist_success-Ended, defer-Ended, settle_failure-Ended,
}

pub active_of_status :
    (j : PublishJob)
    → (j.status ≡ JobStatus.claimed) ⊎ (j.status ≡ JobStatus.remote_requesting)
    → is_active j ≡ true
unfolding is_active
active_of_status j h = ground (arith, h)

module _ (clock : ℕ → ℕ) (adapters : List SocialAdapter) (format : Post → PublishJob → SocialPost)
    (slice : String → String) (id : String) (n : ℕ) (db0 : Db) where
  settle_ambiguous-Ended :
      (post : Post) (job job' row : PublishJob) (attempt : ℕ) (w : World)
      → job.id ≡ id
      → job'.id ≡ id
      → find_job id w.db ≡ some row
      → row.status ≡ JobStatus.remote_requesting
      → (deferred_job job').retry_count ≡ suc n
      → Ended id n db0 (settle_ambiguous clock adapters format slice post job job' attempt w)
  unfolding settle_ambiguous ◌>>=◌
  settle_ambiguous-Ended post job job' row attempt w same same' found requesting counts =
      after (reconcile clock adapters format slice post job w).0
    where
      w1 : World
      w1 = (reconcile clock adapters format slice post job w).1

      there : find_job id w1.db ≡ some row
      there = ap (find_job id) (reconcile_quiet clock adapters format slice id post job w) ∙ found

      after :
          (r : PublishReconciliation)
          → Ended id n db0 (
              (elim r as (λ x. Work (Option LogContext)) [
                | PublishReconciliation.confirmed result ↦
                    persist_success clock adapters format slice post.campaign_id
                      (reconciled_job job result)
                      attempt
                | _ ↦
                    defer_ambiguous_remote_outcome clock adapters format slice post.campaign_id job'
                      attempt
              ])
                w1)
      after (PublishReconciliation.confirmed result) =
          persist_success-Ended clock adapters format slice id n db0 post.campaign_id
            (reconciled_job job result) row attempt w1 same there requesting
      after _ =
          defer-Ended clock adapters format slice id n db0 post.campaign_id job' row attempt w1
            same' there (active_of_status row (inr requesting)) counts

  settle-Ended :
      (post : Post) (job row : PublishJob) (attempt : ℕ) (e : PublishExecution) (w : World)
      → job.id ≡ id
      → ExecutionId clock adapters format slice id e
      → find_job id w.db ≡ some row
      → row.status ≡ JobStatus.remote_requesting
      → Counts n e
      → Ended id n db0 (settle clock adapters format slice post job attempt e w)
  unfolding settle
  settle-Ended post job row attempt (succeeded job' result) w same same' found requesting counts =
      persist_success-Ended clock adapters format slice id n db0 post.campaign_id job' row attempt w
        same' found requesting
  settle-Ended post job row attempt (failed job' message f) w same same' found requesting
        (counts, again) =
      go f.ambiguous refl
    where
      go :
          (b : Bool)
          → f.ambiguous ≡ b
          → Ended id n db0 (
              (if b
                  then settle_ambiguous clock adapters format slice post job job' attempt
                  else settle_failure clock adapters format slice post.campaign_id job' message f
                      attempt)
                w)
      go true e =
          settle_ambiguous-Ended post job job' row attempt w same same' found requesting (counts e)
      go false e =
          settle_failure-Ended clock adapters format slice id n db0 post.campaign_id job' row
            message f attempt w same' found (active_of_status row (inr requesting)) again

  pub found_by :
      (c : ClaimedPublishJob) (w : World)
      → c.job.id ≡ id
      → find_job id w.db ≡ some c.job
      → find_job c.job.id w.db ≡ some c.job
  found_by c w same stored = subst (λ k. find_job k w.db ≡ some c.job) (sym same) stored

  pub send-Ended :
      (c : ClaimedPublishJob) (lease_ms attempt : ℕ) (w : World)
      → c.job.id ≡ id
      → find_job id w.db ≡ some c.job
      → c.job.status ≡ JobStatus.claimed
      → c.job.retry_count ≡ n
      → Ended id n db0 (send clock adapters format slice c lease_ms attempt w)
  unfolding send ◌>>=◌
  send-Ended c lease_ms attempt w same stored claimed before =
      let key = or_else c.job.remote_request_key (request_key_of c.job) in
      query-split (Ended id n db0)
        (λ job.
          ask clock adapters format slice (publish clock adapters format slice c.post job)
          >>= λ execution. settle clock adapters format slice c.post job attempt execution)
        clock adapters format slice (λ now. mark_remote_requesting c.job.id key lease_ms now) w
        (λ e h.
          mark_returns c.job.id key lease_ms (clock w.ticks) c.job w.db e (found_by c w same stored)
            (can_request_own c.job (request_key_of c.job) claimed) h)
        (λ job e.
          let now = clock w.ticks in
          let (_, _, _, _, _, status, row) = request_key c.job.id key lease_ms now w.db job e in
          let db1 = (mark_remote_requesting c.job.id key lease_ms now w.db).1 in
          let w1 : World = record w { db = db1; ticks = suc w.ticks } in
          let found : find_job id db1 ≡ some job =
            subst (λ k. find_job k db1 ≡ some job) same row in
          let jid : job.id ≡ id = find_job_id id job db1 found in
          settle-Ended c.post job job attempt (publish clock adapters format slice c.post job w1).0
            (publish clock adapters format slice c.post job w1).1 jid
            (publish_id clock adapters format slice id c.post job w1 jid)
            (ap (find_job id) (publish_quiet clock adapters format slice id c.post job w1) ∙ found)
            status
            (subst (λ m. Counts m (publish clock adapters format slice c.post job w1).0)
              (request_count c.job.id key lease_ms now c.job w.db job (found_by c w same stored) e
                ∙ before)
              (publish-Counts clock adapters format slice c.post job w1 status)))
