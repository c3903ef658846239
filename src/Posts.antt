-- ===== src/Posts.antt =====
-- backend/src/posts/pg-post.repository.ts, with the trigger of backend/migrations/014_editorial_workflow.sql:
-- how a post and its jobs are read, saved and changed in one transaction.
pub mod Service
pub mod Change
use social_promotion_automat.Base.{
  ℕ, suc, String, Bool, true, false, not, ◌&&◌, ◌||◌, Option, none, some, List, [], ◌∷◌, ◌++◌, map,
  ◌===◌, ◌==◌, if◌then◌else◌, text_leb, order_by, find, select, update, any, is_none,
}
use social_promotion_automat.Entity.{SocialPlatform, JobStatus, PostStatus, Post, PublishJob}
use social_promotion_automat.Entity.Equality.{same_platform, same_status, same_post_status}
use social_promotion_automat.Result.{Error, Result, ok, raised, ◌>>=◌, ◌>>◌, raise_if}
use social_promotion_automat.Store.{OutboxRow, Db, job_is, post_is}
use social_promotion_automat.Account.{AccountRow, is_usable, missing_publishing_scopes}

pub record PostRecord : Type 0 where
  pub post : Post
  pub jobs : List PublishJob

pub record CampaignRow : Type 0 where
  pub id : String
  pub owner_id : String

-- The tables that the posts' transactions read and write.
pub record PostDb : Type 0 where
  pub db : Db
  pub accounts : List AccountRow
  pub campaigns : List CampaignRow

abbrev pub owned_post_is : String → String → Post → Bool
owned_post_is id owner_id p = (p.id === id) && (p.owner_id === owner_id)

-- `SELECT * FROM social_publish_jobs WHERE post_id=$1 ORDER BY id`
unfoldable pub jobs_of : String → List PublishJob → List PublishJob
jobs_of post_id jobs =
    order_by (λ i j. text_leb i.id j.id) (select (λ (j : PublishJob). j.post_id === post_id) jobs)

-- `read`
unfoldable pub read : String → String → PostDb → Result PostRecord
read id owner_id s = elim (find (owned_post_is id owner_id) s.db.posts) [
  | none ↦ raised (Error.not_found "Post not found.")
  | some post ↦ ok (record { post = post; jobs = jobs_of id s.db.jobs })
]

abbrev pub account_is : String → PublishJob → AccountRow → Bool
account_is owner_id job a =
    (a.id === job.account_id) && ((a.user_id === owner_id) && same_platform a.platform job.platform)

-- One job in the loop of `checkAccounts`; the message's list of scopes is left out.
unfoldable pub check_account : ℕ → String → Bool → PublishJob → List AccountRow → Result (Unit {0})
check_account now owner_id publishing job accounts =
    elim (find (λ a. account_is owner_id job a && is_usable now a) accounts) [
      | none ↦ raised (Error.conflict "Selected account is unavailable. Reconnect the account.")
      | some a ↦ elim (missing_publishing_scopes job.platform a.scope a.platform_account_id) [
        | [] ↦ ok tt
        | s ∷ ss ↦ raise_if publishing (Error.conflict "Publishing permissions are missing.")
      ]
    ]

-- `checkAccounts`
unfoldable pub check_accounts :
    ℕ → String → Bool → List PublishJob → List AccountRow → Result (Unit {0})
check_accounts now owner_id publishing [] accounts = ok tt
check_accounts now owner_id publishing (job ∷ jobs) accounts = do
  check_account now owner_id publishing job accounts
  check_accounts now owner_id publishing jobs accounts

abbrev pub fresh_row : (String → String) → PublishJob → OutboxRow
fresh_row queue_id job = record {
  publish_job_id = job.id;
  queue_job_id = queue_id job.id;
  scheduled_at = job.scheduled_at;
  enqueued_at = none;
  dispatch_lease_expires_at = none;
  dispatch_attempt_count = 0;
  last_dispatch_error = none;
}

abbrev pub outbox_is : String → OutboxRow → Bool
outbox_is k o = o.publish_job_id === k

-- `INSERT INTO social_publish_queue_outbox ... ON CONFLICT (publish_job_id) DO UPDATE SET ...`
unfoldable pub upsert_outbox : OutboxRow → List OutboxRow → List OutboxRow
upsert_outbox row [] = row ∷ []
upsert_outbox row (o ∷ os) =
    if outbox_is row.publish_job_id o then row ∷ os else o ∷ upsert_outbox row os

-- `... ON CONFLICT (publish_job_id) DO NOTHING`
unfoldable pub insert_outbox : OutboxRow → List OutboxRow → List OutboxRow
insert_outbox row os =
    if is_none (find (outbox_is row.publish_job_id) os) then os ++ row ∷ [] else os

-- `create_social_publish_queue_outbox`, for a row that was `old`; `queue_id` is the name, with a fresh UUID, that
-- the transaction gives to a job's message.
unfoldable pub enqueue_trigger : (String → String) → Option PublishJob → PublishJob → Db → Db
enqueue_trigger queue_id old new db =
    if same_status new.status JobStatus.waiting
      && any (λ p. post_is new.post_id p && same_post_status p.status PostStatus.scheduled) db.posts
    then (elim old [
      | none ↦ record db { outbox = upsert_outbox (fresh_row queue_id new) db.outbox }
      | some o ↦
          if same_status o.status new.status && (o.scheduled_at == new.scheduled_at)
          then db
          else record db { outbox = upsert_outbox (fresh_row queue_id new) db.outbox }
    ])
    else if same_status new.status JobStatus.cancelled
    then record db { outbox = select (λ o. not (outbox_is new.id o)) db.outbox }
    else db

-- `SET status=$2,scheduled_at=$3,next_retry_at=$4,error_code=$5,error_message=$6,retry_count=$7`
abbrev pub edited_job : PublishJob → PublishJob → PublishJob
edited_job from job = record job {
  status = from.status;
  scheduled_at = from.scheduled_at;
  next_retry_at = from.next_retry_at;
  error_code = from.error_code;
  error_message = from.error_message;
  retry_count = from.retry_count;
}

abbrev same_option {ℓ} : {A : Type ℓ} → (A → A → Bool) → Option A → Option A → Bool
same_option e none none = true
same_option e (some a) (some b) = e a b
same_option e _ _ = false

abbrev same_text? : Option String → Option String → Bool
same_text? = same_option (λ s t. s === t)

abbrev same_time? : Option ℕ → Option ℕ → Bool
same_time? = same_option (λ s t. s == t)

-- `JSON.stringify(old) === JSON.stringify(job)`, of two jobs with one id
unfoldable pub same_job : PublishJob → PublishJob → Bool
same_job i j =
    (i.post_id === j.post_id)
    && same_platform i.platform j.platform
    && (i.account_id === j.account_id)
    && same_status i.status j.status
    && (i.scheduled_at == j.scheduled_at)
    && same_time? i.published_at j.published_at
    && same_text? i.remote_post_id j.remote_post_id
    && same_text? i.remote_post_url j.remote_post_url
    && same_text? i.error_code j.error_code
    && same_text? i.error_message j.error_message
    && (i.retry_count == j.retry_count)
    && same_time? i.lease_expires_at j.lease_expires_at
    && same_time? i.next_retry_at j.next_retry_at
    && same_text? i.remote_request_key j.remote_request_key
    && same_time? i.remote_request_started_at j.remote_request_started_at

-- `UPDATE social_publish_jobs SET ... WHERE id=$1`, with its trigger
unfoldable pub edit_job : (String → String) → PublishJob → Db → Db
edit_job queue_id job db =
    let db' = record db { jobs = update (job_is job.id) (edited_job job) db.jobs } in
    elim (find (job_is job.id) db.jobs) [
      | none ↦ db'
      | some old ↦ enqueue_trigger queue_id (some old) (edited_job job old) db'
    ]

-- The loop over `next.jobs`.
unfoldable pub edit_jobs : (String → String) → List PublishJob → List PublishJob → Db → Db
edit_jobs queue_id current [] db = db
edit_jobs queue_id current (job ∷ jobs) db = elim (find (job_is job.id) current) [
  | none ↦ edit_jobs queue_id current jobs (edit_job queue_id job db)
  | some old ↦
      let rest = edit_jobs queue_id current jobs in
      if same_job old job then rest db else rest (edit_job queue_id job db)
]

-- The outbox rows of a draft that is scheduled.
unfoldable pub insert_outboxes :
    (String → String) → List PublishJob → List OutboxRow → List OutboxRow
insert_outboxes queue_id [] os = os
insert_outboxes queue_id (job ∷ jobs) os =
    insert_outboxes queue_id jobs (insert_outbox (fresh_row queue_id job) os)

unfoldable pub is_waiting : PublishJob → Bool
is_waiting j = same_status j.status JobStatus.waiting
