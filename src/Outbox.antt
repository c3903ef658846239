-- ===== src/Outbox.antt =====
-- The job statements of backend/src/publishing/pg-publish-outbox.repository.ts. `now` is the
-- database's clock at the statement, a transaction that throws leaves the tables alone, and the
-- trigger of backend/migrations/014_editorial_workflow.sql acts on none of these statements, which
-- set neither `waiting` nor `cancelled`.
pub mod Transition
pub mod Lease
pub mod Isolation
pub mod Terminal
pub mod Failure
pub mod Interleaving
pub mod Save
pub mod Claimed
pub mod Written
use social_promotion_automat.Base.{
  ℕ, ◌+◌, String, Bool, true, false, not, ◌&&◌, ◌||◌, Option, none, some, List, [], ◌∷◌, ◌++◌,
  ◌===◌, if◌then◌else◌, leb, find, any, or_else, is_none,
}
use social_promotion_automat.Entity.{JobStatus, PostStatus, Post, PublishJob}
use social_promotion_automat.Entity.Equality.{same_status, same_post_status}
use social_promotion_automat.Result.{Error, Result, ok, raised}
use social_promotion_automat.Store.{
  Db, OutboxRow, SocialPostRow, AlertRow, AuditRow, find_job, find_post, update_job, updated_job,
  due, due_or_null,
}

-- `EXISTS (SELECT 1 FROM posts p WHERE p.id = post_id AND p.status <> 'draft')`
unfoldable pub has_approved_post : Db → PublishJob → Bool
has_approved_post db job =
    any (λ p. (p.id === job.post_id) && not (same_post_status p.status PostStatus.draft)) db.posts

-- `$3 IS NULL OR EXISTS (... o.publish_job_id = id AND o.queue_job_id = $3)`
unfoldable pub queue_matches : Db → Option String → PublishJob → Bool
queue_matches db none job = true
queue_matches db (some q) job =
    any (λ (o : OutboxRow). (o.publish_job_id === job.id) && (o.queue_job_id === q)) db.outbox

-- The states from which a job is claimed, by the instants that the row carries.
unfoldable pub is_ready : ℕ → PublishJob → Bool
is_ready now job = elim job.status [
  | JobStatus.waiting ↦ true
  | JobStatus.retrying ↦ due job.next_retry_at now
  | JobStatus.claimed ↦ due job.lease_expires_at now
  | JobStatus.remote_requesting ↦ due job.next_retry_at now || due job.lease_expires_at now
  | JobStatus.remote_confirmed ↦ due_or_null job.lease_expires_at now
  | _ ↦ false
]

-- The condition of the statement that claims a job.
unfoldable pub claimable : Db → ℕ → Option String → PublishJob → Bool
claimable db now queue_job_id job =
    leb job.scheduled_at now
    && (has_approved_post db job && (queue_matches db queue_job_id job && is_ready now job))

abbrev pub claim_status : JobStatus → JobStatus
claim_status JobStatus.remote_confirmed = JobStatus.remote_confirmed
claim_status _ = JobStatus.claimed

-- The row that a claim writes.
abbrev pub claimed_job : ℕ → ℕ → PublishJob → PublishJob
claimed_job now lease_ms job = record job {
  status = claim_status job.status;
  lease_expires_at = some (now + lease_ms);
  next_retry_at = none;
}

-- `ClaimedPublishJob`
pub record ClaimedPublishJob : Type 0 where
  pub post : Post
  pub job : PublishJob

-- `claimPublishJob`
unfoldable pub claim_publish_job :
    String → ℕ → Option String → ℕ → Db → Result (Option ClaimedPublishJob) × Db
claim_publish_job job_id lease_ms queue_job_id now db =
    elim (updated_job job_id (claimable db now queue_job_id) (claimed_job now lease_ms) db) [
      | none ↦ (ok none, db)
      | some job ↦ elim (find_post job.post_id db) [
        | none ↦ (raised (Error.failed "Publish job has no post."), db)
        | some post ↦ (
          ok (some (record { post = post; job = job })),
          update_job job_id (claimable db now queue_job_id) (claimed_job now lease_ms) db,
        )
      ]
    ]

-- `remote_request_key IS NULL OR remote_request_key = $2`
abbrev pub key_matches : String → Option String → Bool
key_matches key none = true
key_matches key (some k) = k === key

unfoldable pub can_request : String → PublishJob → Bool
can_request key job =
    same_status job.status JobStatus.claimed && key_matches key job.remote_request_key

abbrev pub requesting_job : String → ℕ → ℕ → PublishJob → PublishJob
requesting_job key lease_ms now job = record job {
  status = JobStatus.remote_requesting;
  remote_request_key = some (or_else job.remote_request_key key);
  remote_request_started_at = some (or_else job.remote_request_started_at now);
  lease_expires_at = some (now + lease_ms);
  next_retry_at = none;
}

abbrev pub or_raise : Option PublishJob → String → Result PublishJob
or_raise none message = raised (Error.failed message)
or_raise (some job) message = ok job

-- `markRemoteRequesting`
unfoldable pub mark_remote_requesting : String → String → ℕ → ℕ → Db → Result PublishJob × Db
mark_remote_requesting job_id key lease_ms now db = (
  or_raise (updated_job job_id (can_request key) (requesting_job key lease_ms now) db)
      "Publish job could not enter remote_requesting.",
  update_job job_id (can_request key) (requesting_job key lease_ms now) db,
)

unfoldable pub is_requesting : PublishJob → Bool
is_requesting job = same_status job.status JobStatus.remote_requesting

abbrev pub confirmed_job : PublishJob → PublishJob → PublishJob
confirmed_job from job = record job {
  status = JobStatus.remote_confirmed;
  published_at = from.published_at;
  remote_post_id = from.remote_post_id;
  remote_post_url = from.remote_post_url;
  error_code = none;
  error_message = none;
  lease_expires_at = none;
  next_retry_at = none;
}

-- `confirmRemotePublication`
unfoldable pub confirm_remote_publication : PublishJob → Db → Result PublishJob × Db
confirm_remote_publication job db = (
  or_raise (updated_job job.id is_requesting (confirmed_job job) db)
      "Publish job could not confirm its remote publication.",
  update_job job.id is_requesting (confirmed_job job) db,
)

-- `INSERT INTO audit_logs ... SELECT owner_id ... FROM posts WHERE id = post_id`
unfoldable pub insert_audit : String → String → String → Db → Db
insert_audit action job_id post_id db = elim (find_post post_id db) [
  | none ↦ db
  | some p ↦ record db {
    audit = db.audit ++ record { user_id = p.owner_id; action = action; entity_id = job_id } ∷ [];
  }
]

-- `INSERT ... ON CONFLICT (social_publish_job_id) DO NOTHING`, of a row that the table's `CHECK (retry_count >= 1)` lets
-- through; `save_failure_checked` has that check.
unfoldable pub insert_alert : AlertRow → Db → Db
insert_alert row db =
    if is_none
      (find (λ (a : AlertRow). a.social_publish_job_id === row.social_publish_job_id) db.alerts)
    then record db { alerts = db.alerts ++ row ∷ [] }
    else db

-- `insertFinalFailureAudit`, with the row that the update returned.
unfoldable pub insert_final_failure_audit : PublishJob → Db → Db
insert_final_failure_audit row db = insert_audit "social_publish_job.failed" row.id row.post_id (
    insert_alert
      (record {
        social_publish_job_id = row.id;
        post_id = row.post_id;
        platform = row.platform;
        error_code = row.error_code;
        error_message = row.error_message;
        retry_count = row.retry_count;
      })
      db)

-- `status IN ('claimed', 'remote_requesting')`
unfoldable pub is_active : PublishJob → Bool
is_active job =
    same_status job.status JobStatus.claimed || same_status job.status JobStatus.remote_requesting

-- `if (row && !retryPending) await this.insertFinalFailureAudit(...)`
unfoldable pub audit_if_final : Bool → Option PublishJob → Db → Db
audit_if_final retry_pending none db = db
audit_if_final true (some row) db = db
audit_if_final false (some row) db = insert_final_failure_audit row db

abbrev pub ambiguous_job : PublishJob → Bool → Option ℕ → PublishJob → PublishJob
ambiguous_job from retry_pending next_retry_at job = record job {
  status = if retry_pending then JobStatus.remote_requesting else JobStatus.failed;
  error_code = some "AMBIGUOUS_REMOTE_OUTCOME";
  error_message =
      some (or_else from.error_message "Remote publish outcome could not be confirmed.");
  retry_count = from.retry_count;
  next_retry_at = next_retry_at;
  lease_expires_at = none;
}

-- `recordAmbiguousRemoteOutcome`
unfoldable pub record_ambiguous_remote_outcome : PublishJob → Bool → Option ℕ → Db → Db
record_ambiguous_remote_outcome job retry_pending next_retry_at db =
    audit_if_final retry_pending
      (updated_job job.id is_active (ambiguous_job job retry_pending next_retry_at) db)
      (update_job job.id is_active (ambiguous_job job retry_pending next_retry_at) db)
