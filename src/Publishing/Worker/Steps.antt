-- ===== src/Publishing/Worker/Steps.antt =====
-- The job that each step of a delivery in backend/src/publishing/publish-worker.processor.ts works on.
use social_promotion_automat.Base.{
  ℕ, ◌+◌, ◌||◌, not, truthy, String, Bool, true, false, Option, none, some, List, ◌≡◌, inl, inr,
  Bool-cases, or_else, truthy?,
}
use social_promotion_automat.Entity.{JobStatus, Post, PublishJob}
use social_promotion_automat.Entity.Equality.{same_status}
use social_promotion_automat.Retry.{PublishFailure, retry_delay_for_failure}
use social_promotion_automat.Result.{Error}
use social_promotion_automat.Outbox.{ClaimedPublishJob}
use social_promotion_automat.Publishing.{
  SocialPost, PublishResult, Attempt, returned, threw, conclude, adapter_for, PublishReconciliation,
  SocialAdapter, World, PublishExecution, succeeded, failed, publish, publish_with, call_publish,
  reconcile,
}
use social_promotion_automat.Publishing.Worker.{
  LogContext, other, Work, pure, throw, reconciled_job, deferred_job, persist_success, next_retry,
  defer_ambiguous_remote_outcome, settle_failure, settle_ambiguous, settle, send,
}
use social_promotion_automat.Publishing.Worker.Rules.{
  Keeps, Anything, HasId, Keeps-bind, Keeps-pure, Keeps-throw, Keeps-if, mark-Keeps, confirm-Keeps,
  succeed-Keeps, record-Keeps, fail-Keeps, clock-Keeps, publish_quiet, reconcile_quiet, ask-Keeps,
}

module _ (clock : ℕ → ℕ) (adapters : List SocialAdapter) (format : Post → PublishJob → SocialPost)
    (slice : String → String) (id : String) where
  pub persist_success-Keeps :
      (campaign_id : String) (job : PublishJob) (attempt : ℕ)
      → job.id ≡ id
      → Keeps id Anything (persist_success clock adapters format slice campaign_id job attempt)
  unfolding persist_success
  persist_success-Keeps campaign_id job attempt same =
      Keeps-bind id (HasId id) Anything _
        (λ j e.
          Keeps-bind id Anything Anything _ (λ a u. Keeps-pure id Anything _ tt)
            (succeed-Keeps clock adapters format slice id j e))
        (confirm-Keeps clock adapters format slice id job same)

  next_retry-Keeps :
      (b : Bool) (n : ℕ) → Keeps id Anything (next_retry clock adapters format slice b n)
  unfolding next_retry
  next_retry-Keeps false n = Keeps-pure id Anything none tt
  next_retry-Keeps true n =
      Keeps-bind id Anything Anything _ (λ now u. delayed now (retry_delay_for_failure n))
        (clock-Keeps clock adapters format slice id)
    where
      delayed :
          (now : ℕ) (o : Option ℕ)
          → Keeps id Anything (elim o as (λ x. Work (Option ℕ)) [
            | none ↦
                throw (
                  other (Error.range_error "No retry delay exists for a terminal publish failure."))
            | some delay ↦ pure (some (now + delay))
          ])
      delayed now none = Keeps-throw id Anything _
      delayed now (some d) = Keeps-pure id Anything _ tt

  pub defer-Keeps :
      (campaign_id : String) (job : PublishJob) (attempt : ℕ)
      → job.id ≡ id
      → Keeps id Anything
          (defer_ambiguous_remote_outcome clock adapters format slice campaign_id job attempt)
  unfolding defer_ambiguous_remote_outcome
  defer-Keeps campaign_id job attempt same =
      Keeps-bind id Anything Anything _
        (λ next u.
          Keeps-bind id Anything Anything _ (λ a v. Keeps-throw id Anything _)
            (record-Keeps clock adapters format slice id (deferred_job job) _ next same))
        (next_retry-Keeps _ _)

  settle_failure-Keeps :
      (campaign_id : String) (job : PublishJob) (message : Option String) (f : PublishFailure)
      (attempt : ℕ)
      → job.id ≡ id
      → Keeps id Anything
          (settle_failure clock adapters format slice campaign_id job message f attempt)
  unfolding settle_failure
  settle_failure-Keeps campaign_id job message f attempt same =
      Keeps-bind id Anything Anything _
        (λ next u.
          Keeps-bind id Anything Anything _ (λ a v. Keeps-throw id Anything _)
            (fail-Keeps clock adapters format slice id job _ next same))
        (next_retry-Keeps _ _)

  settle_ambiguous-Keeps :
      (post : Post) (job job' : PublishJob) (attempt : ℕ)
      → job.id ≡ id
      → job'.id ≡ id
      → Keeps id Anything (settle_ambiguous clock adapters format slice post job job' attempt)
  unfolding settle_ambiguous
  settle_ambiguous-Keeps post job job' attempt same same' =
      Keeps-bind id Anything Anything _ (λ r u. after r)
        (ask-Keeps clock adapters format slice id Anything
          (reconcile clock adapters format slice post job)
          (reconcile_quiet clock adapters format slice id post job) (λ w. tt))
    where
      after :
          (r : PublishReconciliation)
          → Keeps id Anything (elim r as (λ x. Work (Option LogContext)) [
            | PublishReconciliation.confirmed result ↦
                persist_success clock adapters format slice post.campaign_id
                  (reconciled_job job result)
                  attempt
            | _ ↦
                defer_ambiguous_remote_outcome clock adapters format slice post.campaign_id job'
                  attempt
          ])
      after (PublishReconciliation.confirmed result) =
          persist_success-Keeps post.campaign_id (reconciled_job job result) attempt same
      after _ = defer-Keeps post.campaign_id job' attempt same'

  -- The job of an execution is the job that was handed over.
  abbrev pub ExecutionId : PublishExecution → Type 0
  ExecutionId (succeeded job result) = job.id ≡ id
  ExecutionId (failed job message f) = job.id ≡ id

  conclude_id :
      (job : PublishJob) (a : Attempt PublishResult)
      → job.id ≡ id
      → ExecutionId (conclude slice job a)
  unfolding conclude
  conclude_id job (returned result) same = elim (Bool-cases (truthy result.remote_post_id)) [
    | inl given ↦ rw given same
    | inr missing ↦ rw missing same
  ]
  conclude_id job (threw error) same = same

  pub publish_id :
      (post : Post) (job : PublishJob) (w : World)
      → job.id ≡ id
      → ExecutionId (publish clock adapters format slice post job w).0
  unfolding publish publish_with call_publish
  publish_id post job w same =
      elim (Bool-cases (
        not (same_status job.status JobStatus.remote_requesting)
        || not (truthy? job.remote_request_key))) [
          | inl refused ↦ rw refused same
          | inr allowed ↦ rw allowed (with_adapter (adapter_for adapters job.platform))
        ]
    where
      with_adapter :
          (o : Option SocialAdapter)
          → ExecutionId
              (publish_with clock adapters format slice o post job
                (or_else job.remote_request_key "")
                w).0
      with_adapter none = same
      with_adapter (some a) = conclude_id job _ same

  settle-Keeps :
      (post : Post) (job : PublishJob) (attempt : ℕ) (e : PublishExecution)
      → job.id ≡ id
      → ExecutionId e
      → Keeps id Anything (settle clock adapters format slice post job attempt e)
  unfolding settle
  settle-Keeps post job attempt (succeeded job' result) same same' =
      persist_success-Keeps post.campaign_id job' attempt same'
  settle-Keeps post job attempt (failed job' message f) same same' =
      Keeps-if id Anything f.ambiguous (settle_ambiguous-Keeps post job job' attempt same same')
        (settle_failure-Keeps post.campaign_id job' message f attempt same')

  pub send-Keeps :
      (c : ClaimedPublishJob) (lease_ms attempt : ℕ)
      → c.job.id ≡ id
      → Keeps id Anything (send clock adapters format slice c lease_ms attempt)
  unfolding send
  send-Keeps c lease_ms attempt same =
      Keeps-bind id (HasId id) Anything _
        (λ job e.
          Keeps-bind id ExecutionId Anything _ (λ x ex. settle-Keeps c.post job attempt x e ex)
            (ask-Keeps clock adapters format slice id ExecutionId
              (publish clock adapters format slice c.post job)
              (publish_quiet clock adapters format slice id c.post job)
              (λ w. publish_id c.post job w e)))
        (mark-Keeps clock adapters format slice id _ lease_ms c.job.id same)
