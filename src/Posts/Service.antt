-- ===== src/Posts/Service.antt =====
-- backend/src/posts/post.service.ts, with `validate` of backend/src/media/media.service.ts. The language's
-- `trim` and `URL` enter as `is_blank` (nothing is left of a text) and `is_https` (it parses, with that protocol);
-- `issues`, what the formatted texts violate, is a parameter too.
pub mod Status
pub mod Edit
pub mod Stale
pub mod Outcome
pub mod Rows
pub mod Stored
pub mod Create
use social_promotion_automat.Base.{
  ℕ, zero, suc, ◌+◌, String, Bool, true, false, not, ◌&&◌, ◌||◌, Option, none, some, List, [], ◌∷◌,
  map, ◌===◌, ◌==◌, if◌then◌else◌, leb, any, all, truthy?, find,
}
use social_promotion_automat.Entity.{
  SocialPlatform, JobStatus, PostStatus, PostMedia, PostContent, Post, PublishJob,
}
use social_promotion_automat.Entity.Equality.{same_platform, same_status, same_post_status}
use social_promotion_automat.Result.{Error, Result, ok, raised, ◌>>=◌, ◌>>◌, raise_if}
use social_promotion_automat.Store.{job_is}
use social_promotion_automat.Posts.{PostRecord, PostDb, read}
use social_promotion_automat.Posts.Change.{mutate, save}

abbrev pub has_status : JobStatus → PublishJob → Bool
has_status s j = same_status j.status s

-- `['claimed','remote_requesting','remote_confirmed'].includes(j.status)`
abbrev pub in_flight : JobStatus → Bool
in_flight JobStatus.claimed = true
in_flight JobStatus.remote_requesting = true
in_flight JobStatus.remote_confirmed = true
in_flight _ = false

abbrev pub failed_or_cancelled : JobStatus → Bool
failed_or_cancelled JobStatus.failed = true
failed_or_cancelled JobStatus.cancelled = true
failed_or_cancelled _ = false

abbrev pub is_empty : List PublishJob → Bool
is_empty [] = true
is_empty (j ∷ jobs) = false

-- `summarizeStatus`
unfoldable pub summarize_status : List PublishJob → PostStatus
summarize_status jobs =
    if is_empty jobs
    then PostStatus.draft
    else if all (has_status JobStatus.cancelled) jobs
    then PostStatus.cancelled
    else if all (has_status JobStatus.published) jobs
    then PostStatus.completed
    else if any (λ j. in_flight j.status) jobs
    then PostStatus.publishing
    else if all (λ j. failed_or_cancelled j.status) jobs
    then PostStatus.failed
    else if any (λ j. failed_or_cancelled j.status) jobs
    then PostStatus.partially_failed
    else PostStatus.scheduled

-- `present`
unfoldable pub present : PostRecord → PostRecord
present r = record r {
  post = record r.post {
    status =
        if same_post_status r.post.status PostStatus.draft
        then PostStatus.draft
        else summarize_status r.jobs;
  };
}

-- `revision`
unfoldable pub check_revision : PostRecord → ℕ → Result (Unit {0})
check_revision r n =
    raise_if (not (n == r.post.revision))
      (Error.conflict "Content changed. Reload and review the latest version.")

-- `!['waiting','cancelled'].includes(j.status) || j.remoteRequestKey`
unfoldable pub not_reschedulable : PublishJob → Bool
not_reschedulable j =
    not (has_status JobStatus.waiting j || has_status JobStatus.cancelled j)
    || truthy? j.remote_request_key

abbrev pub rescheduled_job : ℕ → PublishJob → PublishJob
rescheduled_job at j =
    if has_status JobStatus.cancelled j
    then j
    else record j { scheduled_at = at; status = JobStatus.waiting }

-- `in_flight`, or a request key without a publication
unfoldable pub not_cancellable : PublishJob → Bool
not_cancellable j =
    in_flight j.status || (truthy? j.remote_request_key && not (has_status JobStatus.published j))

-- `['waiting','retrying','failed'].includes(j.status)`
abbrev pub can_be_cancelled : JobStatus → Bool
can_be_cancelled JobStatus.waiting = true
can_be_cancelled JobStatus.retrying = true
can_be_cancelled JobStatus.failed = true
can_be_cancelled _ = false

unfoldable pub cancelled_job : PublishJob → PublishJob
cancelled_job j =
    if can_be_cancelled j.status
    then record j { status = JobStatus.cancelled; next_retry_at = none }
    else j

abbrev pub retried_job : ℕ → PublishJob → PublishJob
retried_job now j = record j {
  status = JobStatus.waiting;
  scheduled_at = now;
  error_code = none;
  error_message = none;
  retry_count = 0;
  next_retry_at = none;
}

-- `job.status!=='failed' || job.remoteRequestKey || job.remotePostId`
unfoldable pub not_retriable : PublishJob → Bool
not_retriable j =
    not (has_status JobStatus.failed j)
    || (truthy? j.remote_request_key || truthy? j.remote_post_id)

-- The change of `cancel`.
unfoldable pub cancel_record : ℕ → PostRecord → Result PostRecord
cancel_record revision r = do
  check_revision r revision
  raise_if (any not_cancellable r.jobs)
      (Error.conflict "Publication is in progress or needs reconciliation.")
  let jobs = map cancelled_job r.jobs
  ok (record { post = record r.post { status = summarize_status jobs }; jobs = jobs })

-- The change of `retry`, with the job that was found.
unfoldable pub retry_found : ℕ → String → PostRecord → Option PublishJob → Result PostRecord
retry_found now job_id r none = raised (Error.not_found "Job not found.")
retry_found now job_id r (some job) = do
  raise_if (not_retriable job) (
      Error.conflict
        "Only a confirmed failed request can be retried. Ambiguous results require reconciliation.")
  ok (record {
    post = record r.post { status = PostStatus.scheduled };
    jobs = map (λ j. if job_is job_id j then retried_job now j else j) r.jobs;
  })

unfoldable pub retry_record : ℕ → String → ℕ → PostRecord → Result PostRecord
retry_record now job_id revision r = do
  check_revision r revision
  retry_found now job_id r (find (job_is job_id) r.jobs)

module _ (is_blank is_https : String → Bool) (issues : PostRecord → List String) where
  -- `MediaService.validate`
  unfoldable pub validate_media : List PostMedia → Result (List PostMedia)
  validate_media media = do
    raise_if (not (all (λ (m : PostMedia). is_https m.url) media))
        (Error.type_error "Media URL must be a valid HTTPS URL.")
    ok media

  -- The change of `update`.
  unfoldable pub update_record : PostContent → ℕ → PostRecord → Result PostRecord
  update_record content revision r = do
    check_revision r revision
    raise_if (not (same_post_status r.post.status PostStatus.draft))
        (Error.conflict "Only drafts can be edited. Copy this post to create a new draft.")
    raise_if (is_blank content.body) (Error.bad_request "Content is required.")
    media ← validate_media content.media
    ok (record r { post = record r.post { content = record content { media = media } } })

  -- The change of `schedule`.
  unfoldable pub schedule_record : ℕ → ℕ → PostRecord → Result PostRecord
  schedule_record at revision r = do
    check_revision r revision
    raise_if (any not_reschedulable r.jobs)
        (Error.conflict "Processing or completed posts cannot be rescheduled.")
    raise_if (same_post_status r.post.status PostStatus.cancelled)
        (Error.conflict "Copy the cancelled post to a new draft.")
    raise_if (elim (issues r) [ [] ↦ false | i ∷ is ↦ true ])
        (Error.bad_request "The formatted content is invalid.")
    ok (record {
      post = record r.post { status = PostStatus.scheduled; scheduled_at = at };
      jobs = map (rescheduled_job at) r.jobs;
    })

  -- `Date.now()`, the UUIDs of new rows, and the names of the messages that the transaction writes.
  module _ (queue_id : String → String) (uuid : ℕ → String) (now : ℕ) where
    -- `findOwned`
    unfoldable pub find_owned : String → String → PostDb → Result PostRecord
    find_owned id owner_id s = read id owner_id s >>= λ r. ok (present r)

    -- `update`
    unfoldable pub update : String → String → PostContent → ℕ → PostDb → Result PostRecord × PostDb
    update owner_id id content revision =
        mutate queue_id now id owner_id (update_record content revision)

    -- `schedule`; a time that does not parse is `none`.
    unfoldable pub schedule : String → String → Option ℕ → ℕ → PostDb → Result PostRecord × PostDb
    schedule owner_id id none revision s =
        (raised (Error.bad_request "Schedule must be in the future."), s)
    schedule owner_id id (some at) revision s =
        if leb at now
        then (raised (Error.bad_request "Schedule must be in the future."), s)
        else mutate queue_id now id owner_id (schedule_record at revision) s

    -- `publishNow`
    unfoldable pub publish_now : String → String → ℕ → PostDb → Result PostRecord × PostDb
    publish_now owner_id id revision = schedule owner_id id (some (now + 1000)) revision

    -- `cancel`
    unfoldable pub cancel : String → String → ℕ → PostDb → Result PostRecord × PostDb
    cancel owner_id id revision = mutate queue_id now id owner_id (cancel_record revision)

    -- `retry`
    unfoldable pub retry : String → String → String → ℕ → PostDb → Result PostRecord × PostDb
    retry owner_id id job_id revision =
        mutate queue_id now id owner_id (retry_record now job_id revision)
