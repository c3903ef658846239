-- ===== src/Tests/Posts.antt =====
-- Examples for backend/src/posts/post.service.ts.
use social_promotion_automat.Base.{
  ℕ, String, Bool, true, false, none, some, List, [], ◌∷◌, ◌≡◌, ◌≢◌, ◌↔◌, eq_iff, Member, refl,
  arith, find, any, all, truthy?, select, order_by, insert_by,
}
use social_promotion_automat.Entity.{JobStatus, PostStatus, PublishJob}
use social_promotion_automat.Result.{ok, raised}
use social_promotion_automat.Store.{job_is, find_job}
use social_promotion_automat.Account.{
  AccountRow, AccountStatus, is_usable, missing_publishing_scopes, required_scopes,
}
use social_promotion_automat.Posts.{
  PostRecord, PostDb, read, jobs_of, check_account, check_accounts, is_waiting,
}
use social_promotion_automat.Posts.Change.{mutate, checked_change}
use social_promotion_automat.Posts.Service.{
  has_status, in_flight, failed_or_cancelled, is_empty, summarize_status, cancel, cancel_record,
  check_revision, not_cancellable, cancelled_job, schedule, retry, retry_record, retry_found,
  not_retriable,
}
use social_promotion_automat.Posts.Service.Status.{
  UnderWay, summarize-publishing_iff, summarize-failed_iff,
}
use social_promotion_automat.Posts.Service.Stale.{changed, edits_stale}
use social_promotion_automat.Posts.Service.Outcome.{retry_unambiguous}
use social_promotion_automat.Posts.Service.Stored.{Cancelled, cancel_settles}
use social_promotion_automat.Outbox.{claimable}
use social_promotion_automat.Tests.Sample.{
  sample_post, waiting_job, published_row, claimed_row, tables,
}

abbrev failed_row : PublishJob
failed_row = record waiting_job {
  status = JobStatus.failed;
  error_code = some "INVALID_REQUEST";
  retry_count = 1;
}

abbrev sample_account : AccountRow
sample_account = record {
  id = "a1";
  user_id = "u1";
  platform = waiting_job.platform;
  platform_account_id = "77";
  account_name = none;
  access_token_encrypted = some "t";
  refresh_token_encrypted = none;
  expires_at = none;
  scope = "tweet.read" ∷ "tweet.write" ∷ "users.read" ∷ [];
  token_key_version = "1";
  status = AccountStatus.active;
}

abbrev posts_with : PublishJob → PostDb
posts_with job = record {
  db = tables job;
  accounts = sample_account ∷ [];
  campaigns = record { id = "c1"; owner_id = "u1" } ∷ [];
}

abbrev record_with : PublishJob → PostRecord
record_with job = record { post = sample_post; jobs = job ∷ published_row ∷ [] }

abbrev pub blank : String → Bool
blank s = false

abbrev pub https : String → Bool
https s = true

abbrev no_issues : PostRecord → List String
no_issues r = []

abbrev pub names : ℕ → String
names n = "new"

abbrev pub queue_name : String → String
queue_name s = s

reads : read "p1" "u1" (posts_with waiting_job) ≡ ok (record_with waiting_job)
unfolding read jobs_of find select order_by insert_by
reads = refl

summarize-publishing_iff_example :
    (summarize_status (claimed_row ∷ failed_row ∷ []) ≡ PostStatus.publishing)
    ↔ ((j : PublishJob) × Member j (claimed_row ∷ failed_row ∷ []) × UnderWay j)
summarize-publishing_iff_example = summarize-publishing_iff (claimed_row ∷ failed_row ∷ [])

summarize-failed_iff_example : (summarize_status (failed_row ∷ []) ≡ PostStatus.failed) ↔ (
    (is_empty (failed_row ∷ []) ≡ false)
    × (all (λ j. failed_or_cancelled j.status) (failed_row ∷ []) ≡ true)
    × (all (has_status JobStatus.cancelled) (failed_row ∷ []) ≡ false))
summarize-failed_iff_example = summarize-failed_iff (failed_row ∷ [])

edits_stale_example :
    (social_promotion_automat.Posts.Service.update blank https no_issues queue_name names 1000 "u1"
        "p1" sample_post.content 7
        (posts_with waiting_job)
      ≡ (raised changed, posts_with waiting_job))
    × (schedule blank https no_issues queue_name names 1000 "u1" "p1"
          (some 2000)
          7
          (posts_with waiting_job)
        ≡ (raised changed, posts_with waiting_job))
    × (cancel blank https no_issues queue_name names 1000 "u1" "p1" 7 (posts_with waiting_job)
        ≡ (raised changed, posts_with waiting_job))
    × (retry blank https no_issues queue_name names 1000 "u1" "p1" "j1" 7 (posts_with waiting_job)
        ≡ (raised changed, posts_with waiting_job))
edits_stale_example =
    edits_stale blank https no_issues queue_name names 1000 2000 7 "p1" "u1" "j1"
      sample_post.content (posts_with waiting_job) (record_with waiting_job) reads (ground arith)
      (omega arith)

abbrev cancelled_record : PostRecord
cancelled_record = record {
  post = record sample_post { status = PostStatus.partially_failed; revision = 2 };
  jobs = record waiting_job { status = JobStatus.cancelled } ∷ published_row ∷ [];
}

cancels :
    (cancel blank https no_issues queue_name names 1000 "u1" "p1" 1 (posts_with waiting_job)).0
    ≡ ok cancelled_record
unfolding cancel mutate checked_change read jobs_of find select order_by insert_by cancel_record
    check_revision not_cancellable cancelled_job summarize_status any all check_accounts
cancels = refl

found_waiting : find_job "j1" (posts_with waiting_job).db ≡ some waiting_job
unfolding find_job find
found_waiting = refl

two_keys : waiting_job.id ≢ published_row.id
two_keys = ground (arith, eq_iff "j1" "j2")

cancel_settles_example :
    let s' =
      (cancel blank https no_issues queue_name names 1000 "u1" "p1" 1 (posts_with waiting_job)).1 in
    (j' : PublishJob) × (find_job "j1" s'.db ≡ some j')
    × Cancelled waiting_job j'
    × (claimable s'.db 1500 (some "q1") j' ≡ false)
cancel_settles_example =
    cancel_settles queue_name 1000 "p1" "u1" 1 blank https no_issues names (posts_with waiting_job)
      cancelled_record "j1" waiting_job 1500 (some "q1") cancels ((two_keys, tt), (tt, tt))
      found_waiting refl

abbrev pub draft_job : PublishJob
draft_job = record waiting_job { scheduled_at = 0 }

-- One post with one job.
abbrev pub single : PublishJob → PostDb
single job = record (posts_with job) { db = record (tables job) { jobs = job ∷ [] } }

abbrev pub scheduled_record : PostRecord
scheduled_record = record {
  post = record sample_post { status = PostStatus.scheduled; scheduled_at = 2000; revision = 2 };
  jobs = record draft_job { scheduled_at = 2000 } ∷ [];
}

abbrev retried_record : PostRecord
retried_record = record {
  post = record sample_post { revision = 2 };
  jobs = record waiting_job { scheduled_at = 1000 } ∷ [];
}

retries :
    (retry blank https no_issues queue_name names 1000 "u1" "p1" "j1" 1 (single failed_row)).0
    ≡ ok retried_record
unfolding retry mutate checked_change read jobs_of find select order_by insert_by retry_record
    retry_found not_retriable check_revision any check_accounts check_account is_waiting is_usable
    missing_publishing_scopes required_scopes
retries = refl

retry_unambiguous_example :
    (c : PostRecord) × (j : PublishJob) × (read "p1" "u1" (single failed_row) ≡ ok c)
    × (find (job_is "j1") c.jobs ≡ some j)
    × (j.status ≡ JobStatus.failed)
    × (truthy? j.remote_request_key ≡ false)
    × (truthy? j.remote_post_id ≡ false)
retry_unambiguous_example =
    retry_unambiguous blank https no_issues queue_name names 1000 1 "p1" "u1" "j1"
      (single failed_row) retried_record retries
