-- ===== src/Outbox/Save.antt =====
-- `saveExecution` of backend/src/publishing/pg-publish-outbox.repository.ts: save_success and save_failure.
use social_promotion_automat.Base.{
  ℕ, String, Bool, false, not, ◌&&◌, ◌||◌, Option, none, some, List, [], ◌∷◌, ◌===◌, ◌==◌,
  if◌then◌else◌, or_else, any, is_none,
}
use social_promotion_automat.Entity.{JobStatus, PublishJob}
use social_promotion_automat.Entity.Equality.{same_status, same_platform}
use social_promotion_automat.Result.{Error, Result, ok, raised}
use social_promotion_automat.Store.{Db, SocialPostRow, update_job, updated_job}
use social_promotion_automat.Outbox.{insert_audit, is_active, audit_if_final}

unfoldable pub is_confirmed : PublishJob → Bool
is_confirmed job = same_status job.status JobStatus.remote_confirmed

abbrev pub published_job : PublishJob → PublishJob → PublishJob
published_job from job = record job {
  status = JobStatus.published;
  published_at = from.published_at;
  remote_post_id = from.remote_post_id;
  remote_post_url = from.remote_post_url;
  error_code = none;
  error_message = none;
  lease_expires_at = none;
  next_retry_at = none;
}

abbrev pub social_post_of : PublishJob → SocialPostRow
social_post_of row = record {
  social_publish_job_id = row.id;
  post_id = row.post_id;
  social_account_id = row.account_id;
  platform = row.platform;
  remote_post_id = row.remote_post_id;
  remote_post_url = row.remote_post_url;
  published_at = row.published_at;
}

abbrev pub social_post_is : String → SocialPostRow → Bool
social_post_is k s = s.social_publish_job_id === k

-- `INSERT INTO social_posts ... ON CONFLICT (social_publish_job_id) DO UPDATE SET ...`, of a row that the table's
-- constraints let through; `refuses_social_post` are those that may not.
unfoldable pub upsert_social_post : SocialPostRow → List SocialPostRow → List SocialPostRow
upsert_social_post row [] = row ∷ []
upsert_social_post row (s ∷ rows) =
    if social_post_is row.social_publish_job_id s
    then record s {
      remote_post_id = row.remote_post_id;
      remote_post_url = row.remote_post_url;
      published_at = row.published_at;
    }
      ∷ rows
    else s ∷ upsert_social_post row rows

unfoldable pub record_publication : Option PublishJob → Db → Db
record_publication none db = db
record_publication (some row) db =
    insert_audit "social_post.published" row.id row.post_id
      (record db { social_posts = upsert_social_post (social_post_of row) db.social_posts })

-- `saveExecution` of a successful execution
unfoldable pub save_success : PublishJob → Db → Db
save_success job db =
    record_publication (updated_job job.id is_confirmed (published_job job) db)
      (update_job job.id is_confirmed (published_job job) db)

abbrev pub failed_job : PublishJob → Bool → Option ℕ → PublishJob → PublishJob
failed_job from retry_pending next_retry_at job = record job {
  status = if retry_pending then JobStatus.retrying else JobStatus.failed;
  error_code = some (or_else from.error_code "UNKNOWN_ERROR");
  error_message = some (or_else from.error_message "Publishing failed.");
  retry_count = from.retry_count;
  next_retry_at = next_retry_at;
  lease_expires_at = none;
  remote_request_key = none;
  remote_request_started_at = none;
}

-- `saveExecution` of a failed execution
unfoldable pub save_failure : PublishJob → Bool → Option ℕ → Db → Db
save_failure job retry_pending next_retry_at db =
    audit_if_final retry_pending
      (updated_job job.id is_active (failed_job job retry_pending next_retry_at) db)
      (update_job job.id is_active (failed_job job retry_pending next_retry_at) db)

abbrev pub same_remote : Option String → Option String → Bool
same_remote (some a) (some b) = a === b
same_remote _ _ = false

-- `UNIQUE (platform, remote_post_id)`, and the `NOT NULL` of what a publication brings, in
-- backend/migrations/011_postgresql_canonical_social_model.sql
unfoldable pub refuses_social_post : SocialPostRow → List SocialPostRow → Bool
refuses_social_post row rows =
    is_none row.remote_post_id
    || is_none row.published_at
    || any
        (λ s.
          not (social_post_is row.social_publish_job_id s)
          && (same_platform s.platform row.platform
              && same_remote s.remote_post_id row.remote_post_id))
        rows

-- The transaction of `saveExecution` of a successful execution: what a constraint refuses throws, and nothing is written.
unfoldable pub save_success_checked : PublishJob → Db → Result (Unit {0}) × Db
save_success_checked job db = elim (updated_job job.id is_confirmed (published_job job) db) [
  | none ↦ (ok tt, save_success job db)
  | some row ↦
      if refuses_social_post (social_post_of row) db.social_posts
      then (raised (Error.failed "The published row breaks a constraint."), db)
      else (ok tt, save_success job db)
]

-- The transaction of `saveExecution` of a failed execution, with the `CHECK (retry_count >= 1)` of an alert in
-- backend/migrations/010_publish_retry_state_and_failure_alerts.sql
unfoldable pub save_failure_checked : PublishJob → Bool → Option ℕ → Db → Result (Unit {0}) × Db
save_failure_checked job retry_pending next_retry_at db =
    elim (updated_job job.id is_active (failed_job job retry_pending next_retry_at) db) [
      | none ↦ (ok tt, save_failure job retry_pending next_retry_at db)
      | some row ↦
          if not retry_pending && (row.retry_count == 0)
          then (raised (Error.failed "The alert breaks a constraint."), db)
          else (ok tt, save_failure job retry_pending next_retry_at db)
    ]
