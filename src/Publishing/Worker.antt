-- ===== src/Publishing/Worker.antt =====
-- backend/src/publishing/publish-worker.processor.ts: one delivery of a queue message, from the claim of the
-- job to what is thrown to BullMQ.
pub mod Rules
pub mod Steps
pub mod Outcome
pub mod Calls
pub mod Single
use social_promotion_automat.Base.{
  ℕ, suc, ◌+◌, String, Bool, true, false, not, ◌&&◌, ◌||◌, Option, none, some, List, if◌then◌else◌,
  leb, or_else, truthy?, is_some,
}
use Prim.Native.String
use social_promotion_automat.Entity.{SocialPlatform, JobStatus, Post, PublishJob}
use social_promotion_automat.Entity.Equality.{same_status}
use social_promotion_automat.Retry.{PublishFailure, retry_delay_for_failure, should_retry_publish}
use social_promotion_automat.Result.{Error, Result, ok, raised}
use social_promotion_automat.Store.{Db}
use social_promotion_automat.Outbox.{
  ClaimedPublishJob, claim_publish_job, mark_remote_requesting, confirm_remote_publication,
  record_ambiguous_remote_outcome,
}
use social_promotion_automat.Outbox.Save.{save_success, save_failure}
use social_promotion_automat.Publishing.{
  SocialPost, PublishResult, PublishReconciliation, SocialAdapter, World, PublishExecution,
  succeeded, failed, publish, reconcile, can_safely_repeat_remote_request,
}

-- `PublishWorkerLogContext`
pub record LogContext : Type 0 where
  pub campaign_id : String
  pub post_id : String
  pub publish_job_id : String
  pub platform : SocialPlatform
  pub social_account_id : String
  pub remote_post_id : Option String
  pub attempt : ℕ
  pub error_code : Option String

-- `PublishJobFailedError`, `PublishJobTerminalError`, and what the repository throws.
pub data WorkError : Type 0 where
  job_failed job_terminal : LogContext → String → WorkError
  other : Error → WorkError

pub data Done (A : Type 0) : Type 0 where
  done : A → Done A
  stopped : WorkError → Done A

-- Code that reads and changes the world, and may throw.
abbrev pub Work : Type 0 → Type 0
Work A = World → Done A × World

infixl 5 ◌>>=◌ ◌>>◌
unfoldable pub ◌>>=◌ : {A B : Type 0} → Work A → (A → Work B) → Work B
◌>>=◌ m f w = let (r, w') = m w in elim r [ done a ↦ f a w' | stopped e ↦ (stopped e, w') ]

abbrev pub ◌>>◌ : {A B : Type 0} → Work A → Work B → Work B
m >> k = m >>= λ _. k

abbrev pub pure : {A : Type 0} → A → Work A
pure a w = (done a, w)

abbrev pub throw : {A : Type 0} → WorkError → Work A
throw e w = (stopped e, w)

abbrev pub lift : {A : Type 0} → Result A → Done A
lift (ok a) = done a
lift (raised e) = stopped (other e)

-- `logContext`
abbrev pub log_context : String → PublishJob → ℕ → Option String → LogContext
log_context campaign_id job attempt error_code = record {
  campaign_id = campaign_id;
  post_id = job.post_id;
  publish_job_id = job.id;
  platform = job.platform;
  social_account_id = job.account_id;
  remote_post_id = job.remote_post_id;
  attempt = attempt;
  error_code = error_code;
}

-- `social-publish:${job.id}`
abbrev pub request_key_of : PublishJob → String
request_key_of job = String.◌++◌ "social-publish:" job.id

-- The job that a confirmed reconciliation stands for.
abbrev pub reconciled_job : PublishJob → PublishResult → PublishJob
reconciled_job job result = record job {
  status = JobStatus.remote_confirmed;
  published_at = some result.published_at;
  remote_post_id = some result.remote_post_id;
  remote_post_url = result.remote_post_url;
  error_code = none;
  error_message = none;
  lease_expires_at = none;
}

abbrev pub deferred_message : String
deferred_message =
    "Remote publish outcome could not be confirmed; reconciliation is required before another write."

-- `deferredJob`
abbrev pub deferred_job : PublishJob → PublishJob
deferred_job job = record job {
  status = JobStatus.remote_requesting;
  error_code = some "AMBIGUOUS_REMOTE_OUTCOME";
  error_message = some deferred_message;
  retry_count = job.retry_count + (if same_status job.status JobStatus.failed then 0 else 1);
  lease_expires_at = none;
}

-- `executionMessage`
abbrev pub execution_message : PublishJob → Option String → String
execution_message job message =
    or_else job.error_message (or_else message "Social publishing failed.")

-- `job.status === 'remote_confirmed' && job.remotePostId && job.publishedAt`
abbrev pub is_persisted : PublishJob → Bool
is_persisted job =
    same_status job.status JobStatus.remote_confirmed
    && (truthy? job.remote_post_id && is_some job.published_at)

module _ (clock : ℕ → ℕ) (adapters : List SocialAdapter) (format : Post → PublishJob → SocialPost)
    (slice : String → String) where
  -- A statement of the repository, at the database's present time.
  abbrev pub query : {A : Type 0} → (ℕ → Db → Result A × Db) → Work A
  query f w =
      let (r, db') = f (clock w.ticks) w.db in (lift r, record w { db = db'; ticks = suc w.ticks })

  abbrev pub execute : (Db → Db) → Work (Unit {0})
  execute f w = (done tt, record w { db = f w.db })

  -- `Date.now()`
  abbrev pub read_clock : Work ℕ
  read_clock w = (done (clock w.ticks), record w { ticks = suc w.ticks })

  -- A call of the publishing service, which throws nothing.
  abbrev pub ask : {A : Type 0} → (World → A × World) → Work A
  ask f w = let (a, w') = f w in (done a, w')

  -- `persistSuccess`
  unfoldable pub persist_success : String → PublishJob → ℕ → Work (Option LogContext)
  persist_success campaign_id job attempt = do
    confirmed_job ← query (λ now. confirm_remote_publication job)
    execute (save_success confirmed_job)
    pure (some (log_context campaign_id confirmed_job attempt none))

  -- `retryPending ? new Date(Date.now() + retryDelayForFailure(n)) : null`
  unfoldable pub next_retry : Bool → ℕ → Work (Option ℕ)
  next_retry false n = pure none
  next_retry true n = do
    now ← read_clock
    elim (retry_delay_for_failure n) [
      | none ↦
          throw (other (Error.range_error "No retry delay exists for a terminal publish failure."))
      | some delay ↦ pure (some (now + delay))
    ]

  -- `deferAmbiguousRemoteOutcome`
  unfoldable pub defer_ambiguous_remote_outcome : String → PublishJob → ℕ → Work (Option LogContext)
  defer_ambiguous_remote_outcome campaign_id job attempt = do
    let deferred = deferred_job job
    let retry_pending = leb deferred.retry_count 3
    next_retry_at ← next_retry retry_pending deferred.retry_count
    execute (record_ambiguous_remote_outcome deferred retry_pending next_retry_at)
    let context = log_context campaign_id deferred attempt (some "AMBIGUOUS_REMOTE_OUTCOME")
    throw (
        if retry_pending
        then job_failed context deferred_message
        else job_terminal context deferred_message)

  -- The end of `process` for a definite failure.
  unfoldable pub settle_failure :
      String → PublishJob → Option String → PublishFailure → ℕ → Work (Option LogContext)
  settle_failure campaign_id job message failure attempt = do
    let retry_pending = should_retry_publish failure job.retry_count
    next_retry_at ← next_retry retry_pending job.retry_count
    execute (save_failure job retry_pending next_retry_at)
    let context =
        log_context campaign_id job attempt (some (or_else job.error_code "UNKNOWN_ERROR"))
    throw (
        if retry_pending
        then job_failed context (execution_message job message)
        else job_terminal context (execution_message job message))

  -- `if (execution.failure.ambiguous) { ... }`
  unfoldable pub settle_ambiguous : Post → PublishJob → PublishJob → ℕ → Work (Option LogContext)
  settle_ambiguous post job failed_job attempt = do
    reconciliation ← ask (reconcile clock adapters format slice post job)
    elim reconciliation [
      | PublishReconciliation.confirmed result ↦
          persist_success post.campaign_id (reconciled_job job result) attempt
      | _ ↦ defer_ambiguous_remote_outcome post.campaign_id failed_job attempt
    ]

  -- `process` from the call of `publish` on.
  unfoldable pub settle : Post → PublishJob → ℕ → PublishExecution → Work (Option LogContext)
  settle post job attempt (succeeded job' result) = persist_success post.campaign_id job' attempt
  settle post job attempt (failed job' message failure) =
      if failure.ambiguous
      then settle_ambiguous post job job' attempt
      else settle_failure post.campaign_id job' message failure attempt

  -- `process` from the second `markRemoteRequesting` on.
  unfoldable pub send : ClaimedPublishJob → ℕ → ℕ → Work (Option LogContext)
  send c lease_ms attempt = do
    job ← query (λ now.
        mark_remote_requesting c.job.id (or_else c.job.remote_request_key (request_key_of c.job))
          lease_ms now)
    execution ← ask (publish clock adapters format slice c.post job)
    settle c.post job attempt execution

  -- A job that carries a request key: look before another write.
  unfoldable pub resume : ClaimedPublishJob → String → ℕ → ℕ → Work (Option LogContext)
  resume c key lease_ms attempt = do
    reconciliation ← ask (reconcile clock adapters format slice c.post c.job)
    elim reconciliation [
      | PublishReconciliation.confirmed result ↦ do
        job ← query (λ now. mark_remote_requesting c.job.id key lease_ms now)
        persist_success c.post.campaign_id (reconciled_job job result) attempt
      | _ ↦
          if can_safely_repeat_remote_request clock adapters format slice c.job.platform
          then send c lease_ms attempt
          else defer_ambiguous_remote_outcome c.post.campaign_id c.job attempt
    ]

  -- A publication that was confirmed before a crash is only persisted.
  unfoldable pub finish_persisted : ClaimedPublishJob → ℕ → Work (Option LogContext)
  finish_persisted c attempt = do
    execute (save_success c.job)
    pure (some (log_context c.post.campaign_id c.job attempt none))

  -- `process` of a job that was claimed.
  unfoldable pub run_claimed : ClaimedPublishJob → ℕ → ℕ → Work (Option LogContext)
  run_claimed c lease_ms attempt =
      if is_persisted c.job
      then finish_persisted c attempt
      else if truthy? c.job.remote_request_key
      then resume c (or_else c.job.remote_request_key "") lease_ms attempt
      else send c lease_ms attempt

  -- `process`
  unfoldable pub process : String → ℕ → ℕ → Option String → Work (Option LogContext)
  process publish_job_id lease_ms attempt queue_job_id = do
    claimed ← query (claim_publish_job publish_job_id lease_ms queue_job_id)
    elim claimed [ none ↦ pure none | some c ↦ run_claimed c lease_ms attempt ]
