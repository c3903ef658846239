-- ===== src/Outbox/Written.antt =====
-- The rows that `saveExecution` of backend/src/publishing/pg-publish-outbox.repository.ts writes, column by column.
use social_promotion_automat.Base.{
  ℕ, ◌≤◌, String, Bool, true, false, not, ◌&&◌, Option, none, some, List, [], ◌∷◌, ◌≡◌, ◌≢◌, refl,
  ◌⊎◌, inl, inr, arith, ◌===◌, ◌==◌, any, ap, ◌∙◌, eq_iff, All, or_else, Bool-cases,
}
use social_promotion_automat.Entity.{JobStatus, PublishJob}
use social_promotion_automat.Entity.Equality.{same_platform, same_platform_iff}
use social_promotion_automat.Result.{ok}
use social_promotion_automat.Store.{Db, SocialPostRow, find_job}
use social_promotion_automat.Store.Laws.{updated_job_hit}
use social_promotion_automat.Outbox.{is_active}
use social_promotion_automat.Outbox.Save.{
  is_confirmed, published_job, social_post_of, failed_job, same_remote, refuses_social_post,
  save_success, save_failure, save_success_checked, save_failure_checked, social_post_is,
}
use social_promotion_automat.Outbox.Terminal.{find_social_post, save_success-row}
use social_promotion_automat.Outbox.Failure.{find_alert, save_failure-row}

-- A row of `social_posts` that stands in the way of no publication of a job under a remote id.
abbrev pub Apart : PublishJob → String → SocialPostRow → Type 0
Apart j remote s =
    (s.social_publish_job_id ≡ j.id)
    ⊎ ((s.platform ≢ j.platform) ⊎ (s.remote_post_id ≢ some remote))

not_same_remote :
    (o : Option String) (remote : String) → o ≢ some remote → same_remote o (some remote) ≡ false
not_same_remote none remote other = refl
not_same_remote (some a) remote other = elim (Bool-cases (a === remote)) [
  | inl same ↦ absurd (other (ap some ((eq_iff a remote).0 same)))
  | inr differs ↦ differs
]

let_through :
    (from j : PublishJob) (remote : String) (at : ℕ) (rows : List SocialPostRow)
    → from.remote_post_id ≡ some remote
    → from.published_at ≡ some at
    → All (Apart j remote) rows
    → refuses_social_post (social_post_of (published_job from j)) rows ≡ false
unfolding refuses_social_post any
let_through from j remote at rows is_remote is_at apart = rw is_remote (rw is_at (go rows apart))
  where
    taken : SocialPostRow → Bool
    taken s =
        not (social_post_is j.id s)
        && (same_platform s.platform j.platform && same_remote s.remote_post_id (some remote))

    free : (s : SocialPostRow) → Apart j remote s → taken s ≡ false
    free s (inl own) = ground (arith, eq_iff s.social_publish_job_id j.id)
    free s (inr (inl other)) = ground (arith, same_platform_iff s.platform j.platform)
    free s (inr (inr other)) = ground (arith, not_same_remote s.remote_post_id remote other)

    go : (rows : List SocialPostRow) → All (Apart j remote) rows → any taken rows ≡ false
    go [] h = refl
    go (s ∷ rows) h = ground (arith, free s h.0, go rows h.1)

-- Saving the success of a confirmed job, whose execution brings a remote id and an instant and no other job's row has that
-- platform and id, goes through. The job's row is then published, with the execution's remote id, link and instant,
-- without an error, a lease or a next attempt, and the job has a row in `social_posts` with the same id, link and instant.
pub save_success_publishes :
    (from j : PublishJob) (db : Db) (remote : String) (at : ℕ)
    → find_job from.id db ≡ some j
    → j.status ≡ JobStatus.remote_confirmed
    → from.remote_post_id ≡ some remote
    → from.published_at ≡ some at
    → All (Apart j remote) db.social_posts
    → (row : PublishJob) × (s : SocialPostRow) × ((save_success_checked from db).0 ≡ ok tt)
      × (find_job from.id (save_success_checked from db).1 ≡ some row)
      × (row.status ≡ JobStatus.published)
      × (row.remote_post_id ≡ some remote)
      × (row.remote_post_url ≡ from.remote_post_url)
      × (row.published_at ≡ some at)
      × (row.error_code ≡ none)
      × (row.error_message ≡ none)
      × (row.lease_expires_at ≡ none)
      × (row.next_retry_at ≡ none)
      × (find_social_post j.id (save_success_checked from db).1 ≡ some s)
      × (s.remote_post_id ≡ some remote)
      × (s.remote_post_url ≡ from.remote_post_url)
      × (s.published_at ≡ some at)
unfolding save_success_checked is_confirmed
save_success_publishes from j db remote at found status is_remote is_at apart =
    let (s, row, there, id, url, at') = save_success-row from j db found status in
    let hit =
      updated_job_hit from.id is_confirmed (published_job from) j db found
        (ground (arith, status)) in
    let goes : save_success_checked from db ≡ (ok tt, save_success from db) =
      rw (hit, save_success_checked)
        (rw (let_through from j remote at db.social_posts is_remote is_at apart) refl) in
    rw goes (
      published_job from j,
      s,
      refl,
      row,
      refl,
      is_remote,
      refl,
      is_at,
      refl,
      refl,
      refl,
      refl,
      there,
      id ∙ is_remote,
      url,
      at' ∙ is_at,
    )

-- Saving the final failure of a claimed or requesting job, which counts at least one attempt, goes through. The job's row is
-- then failed, with the failure's code and message or the general ones and with its count, without a request key, the
-- start of a request or a lease, and there is an alert for the job: the one that stood there, or else one of the job's post
-- and platform with that code, message and count.
pub save_failure_alerts :
    (from j : PublishJob) (next : Option ℕ) (db : Db)
    → find_job from.id db ≡ some j
    → (j.status ≡ JobStatus.claimed) ⊎ (j.status ≡ JobStatus.remote_requesting)
    → 1 ≤ from.retry_count
    → let code = or_else from.error_code "UNKNOWN_ERROR" in
      let message = or_else from.error_message "Publishing failed." in
      (row : PublishJob) × ((save_failure_checked from false next db).0 ≡ ok tt)
      × (find_job from.id (save_failure_checked from false next db).1 ≡ some row)
      × (row.status ≡ JobStatus.failed)
      × (row.error_code ≡ some code)
      × (row.error_message ≡ some message)
      × (row.retry_count ≡ from.retry_count)
      × (row.remote_request_key ≡ none)
      × (row.remote_request_started_at ≡ none)
      × (row.lease_expires_at ≡ none)
      × (find_alert j.id (save_failure_checked from false next db).1
          ≡ some (
              or_else (find_alert j.id db) (record {
                social_publish_job_id = j.id;
                post_id = j.post_id;
                platform = j.platform;
                error_code = some code;
                error_message = some message;
                retry_count = from.retry_count;
              })))
unfolding save_failure_checked is_active
save_failure_alerts from j next db found status counted =
    let active : is_active j ≡ true = ground (arith, status) in
    let (row, alert) = save_failure-row from j next db found active in
    let hit = updated_job_hit from.id is_active (failed_job from false next) j db found active in
    let counts : (from.retry_count == 0) ≡ false = ground arith in
    let goes : save_failure_checked from false next db ≡ (ok tt, save_failure from false next db) =
      rw (hit, save_failure_checked) (rw counts refl) in
    rw goes
      (failed_job from false next j, refl, row, refl, refl, refl, refl, refl, refl, refl, alert)
