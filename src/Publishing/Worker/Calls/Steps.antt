-- ===== src/Publishing/Worker/Calls/Steps.antt =====
-- What each step of a delivery in backend/src/publishing/publish-worker.processor.ts writes to the provider.
use social_promotion_automat.Base.{
  ℕ, ◌+◌, String, Bool, true, false, Option, none, some, List, ◌≡◌, or_else, truthy?, if◌then◌else◌,
}
use social_promotion_automat.Entity.{Post, PublishJob}
use social_promotion_automat.Retry.{PublishFailure, retry_delay_for_failure}
use social_promotion_automat.Result.{Error, ok}
use social_promotion_automat.Outbox.{
  ClaimedPublishJob, mark_remote_requesting, confirm_remote_publication,
}
use social_promotion_automat.Outbox.Save.{save_success}
use social_promotion_automat.Outbox.Lease.{request_key}
use social_promotion_automat.Publishing.{
  SocialPost, PublishResult, PublishReconciliation, SocialAdapter, World, PublishExecution,
  succeeded, failed, can_safely_repeat_remote_request,
}
use social_promotion_automat.Publishing.Worker.{
  LogContext, other, Work, ◌>>=◌, pure, throw, reconciled_job, request_key_of, persist_success,
  next_retry, defer_ambiguous_remote_outcome, settle_failure, settle_ambiguous, settle, send,
  resume, finish_persisted, run_claimed, query,
}
use social_promotion_automat.Publishing.Worker.Rules.{Anything, After-lift}
use social_promotion_automat.Publishing.Worker.Calls.{
  Writes, Writes-bind, Writes-pure, Writes-throw, Writes-if, Writes-if_true, Writes-then,
  Writes-more, Writes-query, Writes-query_any, Writes-execute, Writes-clock, Writes-reconcile,
  Writes-publish,
}

module _ (K : String → Type 0) (clock : ℕ → ℕ) (adapters : List SocialAdapter)
    (format : Post → PublishJob → SocialPost) (slice : String → String) where
  persist_success-Writes :
      (campaign_id : String) (job : PublishJob) (attempt : ℕ)
      → Writes 0 K Anything (persist_success clock adapters format slice campaign_id job attempt)
  unfolding persist_success
  persist_success-Writes campaign_id job attempt =
      Writes-bind 0 0 K Anything Anything _
        (λ j u.
          Writes-bind 0 0 K Anything Anything _ (λ a v. Writes-pure K Anything _ tt)
            (Writes-execute K clock adapters format slice Anything _ tt))
        (Writes-query_any K clock adapters format slice (λ now. confirm_remote_publication job))

  next_retry-Writes :
      (b : Bool) (n : ℕ) → Writes 0 K Anything (next_retry clock adapters format slice b n)
  unfolding next_retry
  next_retry-Writes false n = Writes-pure K Anything none tt
  next_retry-Writes true n =
      Writes-bind 0 0 K Anything Anything _ (λ now u. delayed now (retry_delay_for_failure n))
        (Writes-clock K clock adapters format slice Anything (λ m. tt))
    where
      delayed :
          (now : ℕ) (o : Option ℕ)
          → Writes 0 K Anything (elim o as (λ x. Work (Option ℕ)) [
            | none ↦
                throw (
                  other (Error.range_error "No retry delay exists for a terminal publish failure."))
            | some delay ↦ pure (some (now + delay))
          ])
      delayed now none = Writes-throw K Anything _
      delayed now (some d) = Writes-pure K Anything _ tt

  defer-Writes :
      (campaign_id : String) (job : PublishJob) (attempt : ℕ)
      → Writes 0 K Anything
          (defer_ambiguous_remote_outcome clock adapters format slice campaign_id job attempt)
  unfolding defer_ambiguous_remote_outcome
  defer-Writes campaign_id job attempt =
      Writes-bind 0 0 K Anything Anything _
        (λ next u.
          Writes-bind 0 0 K Anything Anything _ (λ a v. Writes-throw K Anything _)
            (Writes-execute K clock adapters format slice Anything _ tt))
        (next_retry-Writes _ _)

  settle_failure-Writes :
      (campaign_id : String) (job : PublishJob) (message : Option String) (f : PublishFailure)
      (attempt : ℕ)
      → Writes 0 K Anything
          (settle_failure clock adapters format slice campaign_id job message f attempt)
  unfolding settle_failure
  settle_failure-Writes campaign_id job message f attempt =
      Writes-bind 0 0 K Anything Anything _
        (λ next u.
          Writes-bind 0 0 K Anything Anything _ (λ a v. Writes-throw K Anything _)
            (Writes-execute K clock adapters format slice Anything _ tt))
        (next_retry-Writes _ _)

  settle_ambiguous-Writes :
      (post : Post) (job job' : PublishJob) (attempt : ℕ)
      → Writes 0 K Anything (settle_ambiguous clock adapters format slice post job job' attempt)
  unfolding settle_ambiguous
  settle_ambiguous-Writes post job job' attempt =
      Writes-bind 0 0 K (λ r. Unit) Anything _ (λ r u. after r)
        (Writes-reconcile K clock adapters format slice post job)
    where
      after :
          (r : PublishReconciliation)
          → Writes 0 K Anything (elim r as (λ x. Work (Option LogContext)) [
            | PublishReconciliation.confirmed result ↦
                persist_success clock adapters format slice post.campaign_id
                  (reconciled_job job result)
                  attempt
            | _ ↦
                defer_ambiguous_remote_outcome clock adapters format slice post.campaign_id job'
                  attempt
          ])
      after (PublishReconciliation.confirmed result) = persist_success-Writes _ _ attempt
      after _ = defer-Writes post.campaign_id job' attempt

  settle-Writes :
      (post : Post) (job : PublishJob) (attempt : ℕ) (e : PublishExecution)
      → Writes 0 K Anything (settle clock adapters format slice post job attempt e)
  unfolding settle
  settle-Writes post job attempt (succeeded job' result) = persist_success-Writes _ _ attempt
  settle-Writes post job attempt (failed job' message f) =
      Writes-if K 0 Anything f.ambiguous (settle_ambiguous-Writes post job job' attempt)
        (settle_failure-Writes _ job' message f attempt)

  abbrev HasKey : String → PublishJob → Type 0
  HasKey key job = job.remote_request_key ≡ some key

  send-Writes :
      (c : ClaimedPublishJob) (lease_ms attempt : ℕ)
      → K (or_else c.job.remote_request_key (request_key_of c.job))
      → Writes 1 K Anything (send clock adapters format slice c lease_ms attempt)
  unfolding send
  send-Writes c lease_ms attempt k =
      let key = or_else c.job.remote_request_key (request_key_of c.job) in
      Writes-bind 0 1 K (HasKey key) Anything _
        (λ job e.
          Writes-bind 1 0 K (λ r. Unit) Anything _ (λ x u. settle-Writes c.post job attempt x)
            (Writes-publish K clock adapters format slice c.post job (rw e k)))
        (Writes-query K clock adapters format slice (HasKey key)
          (λ now. mark_remote_requesting c.job.id key lease_ms now)
          (λ w. After-lift (HasKey key) _ (λ j e. keeps w j e)))
    where
      keeps :
          (w : World) (j : PublishJob)
          → (mark_remote_requesting c.job.id
              (or_else c.job.remote_request_key (request_key_of c.job))
              lease_ms
              (clock w.ticks)
              w.db).0
            ≡ ok j
          → j.remote_request_key ≡ some (or_else c.job.remote_request_key (request_key_of c.job))
      keeps w j e =
          let (_, _, _, _, key, _, _) = request_key c.job.id _ lease_ms (clock w.ticks) w.db j e in
          key

  resume-Writes :
      (c : ClaimedPublishJob) (key : String) (lease_ms attempt n : ℕ)
      → Writes n K Anything (
          if can_safely_repeat_remote_request clock adapters format slice c.job.platform
          then send clock adapters format slice c lease_ms attempt
          else defer_ambiguous_remote_outcome clock adapters format slice c.post.campaign_id c.job
              attempt)
      → Writes n K Anything (resume clock adapters format slice c key lease_ms attempt)
  unfolding resume
  resume-Writes c key lease_ms attempt n again =
      Writes-then n K (λ r. Unit) Anything _ (λ r u. after r)
        (Writes-reconcile K clock adapters format slice c.post c.job)
    where
      finish :
          (result : PublishResult)
          → Writes 0 K Anything (
              query clock adapters format slice
                (λ now. mark_remote_requesting c.job.id key lease_ms now)
              >>= λ job.
                  persist_success clock adapters format slice c.post.campaign_id
                    (reconciled_job job result)
                    attempt)
      finish result =
          Writes-bind 0 0 K Anything Anything _ (λ job u. persist_success-Writes _ _ attempt)
            (Writes-query_any K clock adapters format slice
              (λ now. mark_remote_requesting c.job.id key lease_ms now))

      after :
          (r : PublishReconciliation)
          → Writes n K Anything (elim r as (λ x. Work (Option LogContext)) [
            | PublishReconciliation.confirmed result ↦
                query clock adapters format slice
                  (λ now. mark_remote_requesting c.job.id key lease_ms now)
                >>= λ job.
                    persist_success clock adapters format slice c.post.campaign_id
                      (reconciled_job job result)
                      attempt
            | _ ↦
                if can_safely_repeat_remote_request clock adapters format slice c.job.platform
                then send clock adapters format slice c lease_ms attempt
                else defer_ambiguous_remote_outcome clock adapters format slice c.post.campaign_id
                    c.job attempt
          ])
      after (PublishReconciliation.confirmed result) = Writes-more K n Anything (finish result)
      after _ = again

  finish_persisted-Writes :
      (c : ClaimedPublishJob) (attempt : ℕ)
      → Writes 0 K Anything (finish_persisted clock adapters format slice c attempt)
  unfolding finish_persisted
  finish_persisted-Writes c attempt =
      Writes-bind 0 0 K Anything Anything _ (λ a u. Writes-pure K Anything _ tt)
        (Writes-execute K clock adapters format slice Anything (save_success c.job) tt)

  pub run_claimed-Writes :
      (c : ClaimedPublishJob) (lease_ms attempt : ℕ)
      → K (or_else c.job.remote_request_key (request_key_of c.job))
      → Writes 1 K Anything (run_claimed clock adapters format slice c lease_ms attempt)
  unfolding run_claimed
  run_claimed-Writes c lease_ms attempt k =
      Writes-if K 1 Anything _ (Writes-more K 1 Anything (finish_persisted-Writes c attempt)) (
        Writes-if K 1 Anything _
          (resume-Writes c _ lease_ms attempt 1 (
            Writes-if K 1 Anything _ (send-Writes c lease_ms attempt k)
              (Writes-more K 1 Anything (defer-Writes c.post.campaign_id c.job attempt))))
          (send-Writes c lease_ms attempt k))

  -- A claimed job that carries a key, on a platform without idempotent writes: no write is made.
  pub run_claimed-quiet :
      (c : ClaimedPublishJob) (lease_ms attempt : ℕ)
      → truthy? c.job.remote_request_key ≡ true
      → can_safely_repeat_remote_request clock adapters format slice c.job.platform ≡ false
      → Writes 0 K Anything (run_claimed clock adapters format slice c lease_ms attempt)
  unfolding run_claimed
  run_claimed-quiet c lease_ms attempt set unsafe =
      Writes-if K 0 Anything _ (finish_persisted-Writes c attempt) (
        Writes-if_true K 0 Anything (truthy? c.job.remote_request_key) _
          (send clock adapters format slice c lease_ms attempt) set
          (resume-Writes c _ lease_ms attempt 0
            (rw unsafe (defer-Writes c.post.campaign_id c.job attempt))))
