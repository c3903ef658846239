-- ===== src/Tests/Outbox.antt =====
-- Examples for backend/src/publishing/pg-publish-outbox.repository.ts.
use social_promotion_automat.Base.{
  true, false, none, some, ◌≡◌, refl, arith, or_else, find, any, sym, ◌∙◌, subst, inl, inr, String,
  Option, [], ◌∷◌, ◌≢◌, eq_iff,
}
use social_promotion_automat.Entity.{SocialPlatform, JobStatus, PublishJob}
use social_promotion_automat.Result.{ok, some_inj}
use social_promotion_automat.Store.{Db, SocialPostRow, find_job, find_post, updated_job}
use social_promotion_automat.Outbox.{
  ClaimedPublishJob, claim_publish_job, claimable, claimed_job, has_approved_post, queue_matches,
  is_ready,
}
use social_promotion_automat.Outbox.Save.{save_success, save_success_checked, save_failure_checked}
use social_promotion_automat.Outbox.Transition.{FollowsAll}
use social_promotion_automat.Outbox.Interleaving.{
  start, then_step, succeed, WorkerStep-FollowsAll, WorkerRun-final,
}
use social_promotion_automat.Outbox.Claimed.{claim_succeeds}
use social_promotion_automat.Outbox.Written.{save_success_publishes, save_failure_alerts}
use social_promotion_automat.Outbox.Lease.{claim_exclusive}
use social_promotion_automat.Outbox.Terminal.{find_social_post, save_success_idempotent}
use social_promotion_automat.Outbox.Failure.{find_alert}
use social_promotion_automat.Tests.Sample.{
  sample_post, waiting_job, claimed_row, requesting_row, confirmed_row, published_row, tables,
  sample_outbox,
}

found_waiting : find_job "j1" (tables waiting_job) ≡ some waiting_job
unfolding find_job find
found_waiting = refl

found_post : find_post "p1" (tables waiting_job) ≡ some sample_post
unfolding find_post find
found_post = refl

found_claimed : find_job "j1" (tables claimed_row) ≡ some claimed_row
unfolding find_job find
found_claimed = refl

found_requesting : find_job "j1" (tables requesting_row) ≡ some requesting_row
unfolding find_job find
found_requesting = refl

found_confirmed : find_job "j1" (tables confirmed_row) ≡ some confirmed_row
unfolding find_job find
found_confirmed = refl

can_claim : claimable (tables waiting_job) 1000 (some "q1") waiting_job ≡ true
unfolding claimable has_approved_post queue_matches is_ready any
can_claim = refl

abbrev taken : ClaimedPublishJob
taken = record { post = sample_post; job = claimed_job 1000 60000 waiting_job }

takes : (claim_publish_job "j1" 60000 (some "q1") 1000 (tables waiting_job)).0 ≡ ok (some taken)
unfolding claim_publish_job updated_job find_job find_post find claimable has_approved_post
    queue_matches is_ready any
takes = refl

claim_succeeds_example :
    (c : ClaimedPublishJob) × ((claim_publish_job "j1" 60000
        (some "q1")
        1000
        (tables waiting_job)).0
      ≡ ok (some c))
    × (find_job "j1" (claim_publish_job "j1" 60000 (some "q1") 1000 (tables waiting_job)).1
        ≡ some c.job)
    × (c.post ≡ sample_post)
    × (c.job.lease_expires_at ≡ some 61000)
    × (c.job.next_retry_at ≡ none)
    × (c.job.status ≡ JobStatus.claimed)
    × (c.job.id ≡ "j1")
    × (c.job.post_id ≡ "p1")
    × (c.job.platform ≡ SocialPlatform.x)
    × (c.job.account_id ≡ "a1")
    × (c.job.remote_request_key ≡ none)
    × (c.job.retry_count ≡ 0)
claim_succeeds_example =
    claim_succeeds "j1" 60000 (some "q1") 1000 (tables waiting_job) waiting_job sample_post
      found_waiting found_post (λ e. cc e) (omega arith) (inr (sample_outbox, inl refl, refl, refl))
      (inl refl)

-- A message of an earlier dispatch is not answered.
stale_message :
    (j : PublishJob)
    → find_job "j1" (tables waiting_job) ≡ some j
    → claimable (tables waiting_job) 1000 (some "q0") j ≡ false
unfolding claimable has_approved_post queue_matches any
stale_message j e =
    subst (λ i. claimable (tables waiting_job) 1000 (some "q0") i ≡ false)
      (some_inj (sym found_waiting ∙ e)) refl

claim_exclusive_example :
    let db' = (claim_publish_job "j1" 60000 (some "q1") 1000 (tables waiting_job)).1 in
    claim_publish_job "j1" 60000 none 60999 db' ≡ (ok none, db')
claim_exclusive_example =
    claim_exclusive "j1" 60000 60000 (some "q1") none 1000 60999 (tables waiting_job) taken takes
      (omega arith)

WorkerStep-FollowsAll_example :
    FollowsAll (tables confirmed_row) (save_success confirmed_row (tables confirmed_row))
WorkerStep-FollowsAll_example = WorkerStep-FollowsAll (succeed confirmed_row)

found_published : find_job "j2" (tables confirmed_row) ≡ some published_row
unfolding find_job find
found_published = refl

WorkerRun-final_example :
    find_job "j2" (save_success confirmed_row (tables confirmed_row)) ≡ some published_row
WorkerRun-final_example =
    WorkerRun-final "j2" published_row (then_step start (succeed confirmed_row)) found_published
      refl

-- Another job has a post of the platform, under another id.
abbrev beside : Db
beside = record (tables confirmed_row) {
  social_posts =
      record {
        social_publish_job_id = "j2";
        post_id = "p1";
        social_account_id = "a1";
        platform = SocialPlatform.x;
        remote_post_id = some "r2";
        remote_post_url = none;
        published_at = some 400;
      }
      ∷ [];
}

other_id : ◌≢◌ {A = Option String} (some "r2") (some "r1")
other_id e = ground (arith, eq_iff "r2" "r1", some_inj e)

found_beside : find_job "j1" beside ≡ some confirmed_row
unfolding find_job find
found_beside = refl

save_success_publishes_example :
    (row : PublishJob) × (s : SocialPostRow) × ((save_success_checked confirmed_row beside).0
      ≡ ok tt)
    × (find_job "j1" (save_success_checked confirmed_row beside).1 ≡ some row)
    × (row.status ≡ JobStatus.published)
    × (row.remote_post_id ≡ some "r1")
    × (row.remote_post_url ≡ confirmed_row.remote_post_url)
    × (row.published_at ≡ some 700)
    × (row.error_code ≡ none)
    × (row.error_message ≡ none)
    × (row.lease_expires_at ≡ none)
    × (row.next_retry_at ≡ none)
    × (find_social_post "j1" (save_success_checked confirmed_row beside).1 ≡ some s)
    × (s.remote_post_id ≡ some "r1")
    × (s.remote_post_url ≡ confirmed_row.remote_post_url)
    × (s.published_at ≡ some 700)
save_success_publishes_example =
    save_success_publishes confirmed_row confirmed_row beside "r1" 700 found_beside refl refl refl
      (inr (inr other_id), tt)

save_success_idempotent_example :
    save_success confirmed_row (save_success confirmed_row (tables confirmed_row))
    ≡ save_success confirmed_row (tables confirmed_row)
save_success_idempotent_example = save_success_idempotent confirmed_row (tables confirmed_row)

-- The requesting job's third attempt has failed.
abbrev failed_request : PublishJob
failed_request = record requesting_row { retry_count = 3 }

save_failure_alerts_example :
    (row : PublishJob) × ((save_failure_checked failed_request false none (tables requesting_row)).0
      ≡ ok tt)
    × (find_job "j1" (save_failure_checked failed_request false none (tables requesting_row)).1
        ≡ some row)
    × (row.status ≡ JobStatus.failed)
    × (row.error_code ≡ some "UNKNOWN_ERROR")
    × (row.error_message ≡ some "Publishing failed.")
    × (row.retry_count ≡ 3)
    × (row.remote_request_key ≡ none)
    × (row.remote_request_started_at ≡ none)
    × (row.lease_expires_at ≡ none)
    × (find_alert "j1" (save_failure_checked failed_request false none (tables requesting_row)).1
        ≡ some (
            or_else (find_alert "j1" (tables requesting_row)) (record {
              social_publish_job_id = "j1";
              post_id = "p1";
              platform = SocialPlatform.x;
              error_code = some "UNKNOWN_ERROR";
              error_message = some "Publishing failed.";
              retry_count = 3;
            })))
save_failure_alerts_example =
    save_failure_alerts failed_request requesting_row none (tables requesting_row) found_requesting
      (inr refl) (omega arith)
