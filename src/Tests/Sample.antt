-- ===== src/Tests/Sample.antt =====
-- A small state of the tables and two providers, on which the theorems are run.
use social_promotion_automat.Base.{ℕ, ◌+◌, String, false, none, some, [], ◌∷◌}
use social_promotion_automat.Entity.{SocialPlatform, JobStatus, PostStatus, Post, PublishJob}
use social_promotion_automat.Store.{OutboxRow, Db}
use social_promotion_automat.Retry.{Thrown}
use social_promotion_automat.Publishing.{
  SocialPost, PublishReconciliation, RemoteStatus, returned, threw, SocialAdapter, World,
}

abbrev pub sample_post : Post
sample_post = record {
  id = "p1";
  campaign_id = "c1";
  owner_id = "u1";
  content = record {
    title = "Launch";
    body = "We are live.";
    url = none;
    media = [];
    platform_bodies = λ p. none;
  };
  scheduled_at = 500;
  status = PostStatus.scheduled;
  revision = 1;
}

abbrev pub waiting_job : PublishJob
waiting_job = record {
  id = "j1";
  post_id = "p1";
  platform = SocialPlatform.x;
  account_id = "a1";
  status = JobStatus.waiting;
  scheduled_at = 500;
  published_at = none;
  remote_post_id = none;
  remote_post_url = none;
  error_code = none;
  error_message = none;
  retry_count = 0;
  lease_expires_at = none;
  next_retry_at = none;
  remote_request_key = none;
  remote_request_started_at = none;
}

-- The job whose first request has an unknown outcome.
abbrev pub ambiguous_row : PublishJob
ambiguous_row = record waiting_job {
  status = JobStatus.remote_requesting;
  error_code = some "AMBIGUOUS_REMOTE_OUTCOME";
  retry_count = 1;
  next_retry_at = some 900;
  remote_request_key = some "social-publish:j1";
  remote_request_started_at = some 600;
}

abbrev pub requesting_row : PublishJob
requesting_row = record waiting_job {
  status = JobStatus.remote_requesting;
  lease_expires_at = some 5000;
  remote_request_key = some "social-publish:j1";
  remote_request_started_at = some 600;
}

abbrev pub claimed_row : PublishJob
claimed_row = record waiting_job { status = JobStatus.claimed; lease_expires_at = some 5000 }

abbrev pub confirmed_row : PublishJob
confirmed_row = record waiting_job {
  status = JobStatus.remote_confirmed;
  remote_post_id = some "r1";
  published_at = some 700;
  remote_request_key = some "social-publish:j1";
}

abbrev pub published_row : PublishJob
published_row = record confirmed_row { id = "j2"; status = JobStatus.published }

abbrev pub sample_outbox : OutboxRow
sample_outbox = record {
  publish_job_id = "j1";
  queue_job_id = "q1";
  scheduled_at = 500;
  enqueued_at = none;
  dispatch_lease_expires_at = none;
  dispatch_attempt_count = 0;
  last_dispatch_error = none;
}

-- The tables with one job in some state, and one that is published.
abbrev pub tables : PublishJob → Db
tables job = record {
  jobs = job ∷ published_row ∷ [];
  outbox = sample_outbox ∷ [];
  posts = sample_post ∷ [];
  social_posts = [];
  alerts = [];
  audit = [];
}

abbrev pub sample_clock : ℕ → ℕ
sample_clock n = 1000 + n

abbrev pub sample_format : Post → PublishJob → SocialPost
sample_format post job = record {
  local_post_id = post.id;
  social_account_id = job.account_id;
  platform = job.platform;
  title = post.content.title;
  body = post.content.body;
  destination_url = post.content.url;
  media = post.content.media;
}

abbrev pub whole : String → String
whole s = s

abbrev pub dropped : Thrown
dropped = record {
  status = none;
  is_type_error = false;
  network_code = some "ECONNRESET";
  message = some "reset";
}

-- A provider without idempotent writes, whose publish is cut off.
abbrev pub sample_adapter : SocialAdapter
sample_adapter = record {
  platform = SocialPlatform.x;
  supports_idempotent_publish = false;
  publish = λ calls p key. threw dropped;
  reconcile_publish = some (λ calls p key. returned PublishReconciliation.unknown);
  get_post = λ calls id account.
      returned
        (record { remote_post_id = id; remote_post_url = none; status = RemoteStatus.published });
}

abbrev pub sample_world : PublishJob → World
sample_world job = record { db = tables job; calls = []; ticks = 0 }
