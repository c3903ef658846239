-- ===== src/Store.antt =====
-- The tables of backend/migrations that the publishing code reads and writes, and the statements that
-- go by a job's primary key.
pub mod Laws
use social_promotion_automat.Base.{
  ℕ, String, Bool, true, false, ◌&&◌, Option, none, some, List, ◌===◌, if◌then◌else◌, find, update,
  leb,
}
use social_promotion_automat.Entity.{SocialPlatform, Post, PublishJob}

-- `social_publish_queue_outbox`
pub record OutboxRow : Type 0 where
  pub publish_job_id : String
  pub queue_job_id : String
  pub scheduled_at : ℕ
  pub enqueued_at : Option ℕ
  pub dispatch_lease_expires_at : Option ℕ
  pub dispatch_attempt_count : ℕ
  pub last_dispatch_error : Option String

-- `social_posts`
pub record SocialPostRow : Type 0 where
  pub social_publish_job_id : String
  pub post_id : String
  pub social_account_id : String
  pub platform : SocialPlatform
  pub remote_post_id : Option String
  pub remote_post_url : Option String
  pub published_at : Option ℕ

-- `social_publish_failure_alerts`, as a terminal failure writes it.
pub record AlertRow : Type 0 where
  pub social_publish_job_id : String
  pub post_id : String
  pub platform : SocialPlatform
  pub error_code : Option String
  pub error_message : Option String
  pub retry_count : ℕ

-- `audit_logs`: the action and the entity's id; `user_id` is the owner of the post.
pub record AuditRow : Type 0 where
  pub user_id : String
  pub action : String
  pub entity_id : String

pub record Db : Type 0 where
  pub jobs : List PublishJob
  pub outbox : List OutboxRow
  pub posts : List Post
  pub social_posts : List SocialPostRow
  pub alerts : List AlertRow
  pub audit : List AuditRow

abbrev pub job_is : String → PublishJob → Bool
job_is k j = j.id === k

abbrev pub post_is : String → Post → Bool
post_is k p = p.id === k

-- `SELECT ... WHERE id = $1`
unfoldable pub find_job : String → Db → Option PublishJob
find_job k db = find (job_is k) db.jobs

unfoldable pub find_post : String → Db → Option Post
find_post k db = find (post_is k) db.posts

-- `UPDATE social_publish_jobs SET f WHERE id = $1 AND guard`
unfoldable pub update_job : String → (PublishJob → Bool) → (PublishJob → PublishJob) → Db → Db
update_job k guard f db = record db { jobs = update (λ j. job_is k j && guard j) f db.jobs }

-- The row that this statement returns: `id` is the primary key.
unfoldable pub updated_job :
    String → (PublishJob → Bool) → (PublishJob → PublishJob) → Db → Option PublishJob
updated_job k guard f db = elim (find_job k db) [
  | none ↦ none
  | some j ↦ if guard j then some (f j) else none
]

-- `t <= now()`, which is not true of NULL
abbrev pub due : Option ℕ → ℕ → Bool
due none now = false
due (some t) now = leb t now

-- `t IS NULL OR t <= now()`
abbrev pub due_or_null : Option ℕ → ℕ → Bool
due_or_null none now = true
due_or_null (some t) now = leb t now
