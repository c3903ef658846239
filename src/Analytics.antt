-- ===== src/Analytics.antt =====
-- backend/src/analytics/pg-analytics.repository.ts, with the types of analytics.repository.ts: which publications are
-- measured next, and the snapshots of their metrics.
pub mod Service
pub mod Cursor
pub mod Laws
pub mod Dashboard
pub mod Pages
use social_promotion_automat.Base.{
  ℕ, zero, suc, ◌+◌, ◌-◌, max, String, Bool, true, false, not, ◌&&◌, ◌||◌, Option, none, some, List,
  [], ◌∷◌, ◌++◌, map, ◌===◌, ◌==◌, if◌then◌else◌, text_leb, leb, ltb, order_by, find, select,
  update, any, is_none, is_some, length, coalesce,
}
use social_promotion_automat.Entity.{SocialPlatform, JobStatus, Post, PublishJob, social_platforms}
use social_promotion_automat.Entity.Equality.{same_platform, same_status}
use social_promotion_automat.Result.{Error, Result, ok, raised}
use social_promotion_automat.Store.{Db, SocialPostRow, job_is, due_or_null}
use social_promotion_automat.Dispatch.{take}
use social_promotion_automat.Posts.{CampaignRow}

-- The counts of `PostAnalytics` and `CampaignPlatformAnalytics`.
pub record Counts : Type 0 where
  pub impressions : Option ℕ
  pub reach : Option ℕ
  pub views : Option ℕ
  pub likes : Option ℕ
  pub comments : Option ℕ
  pub shares : Option ℕ
  pub reposts : Option ℕ
  pub clicks : Option ℕ

-- A value of a provider's raw metrics: a finite number that is not negative, or something else.
pub data RawValue : Type 0 where
  count : ℕ → RawValue
  unusable : RawValue

-- `PostAnalytics`
pub record PostAnalytics : Type 0 where
  pub counts : Counts
  pub raw_metrics : List (String × RawValue)
  pub captured_at : ℕ

-- `social_metrics`, by the job of its row in `social_posts`.
pub record MetricRow : Type 0 where
  pub id : String
  pub job_id : String
  pub analytics : PostAnalytics

-- `analytics_lease_expires_at` and `analytics_last_collected_at` of a job.
pub record CollectionRow : Type 0 where
  pub job_id : String
  pub lease_expires_at : Option ℕ
  pub last_collected_at : Option ℕ

pub record AnalyticsDb : Type 0 where
  pub db : Db
  pub campaigns : List CampaignRow
  pub collections : List CollectionRow
  pub metrics : List MetricRow

-- `AnalyticsCollectionTarget`
pub record Target : Type 0 where
  pub job_id : String
  pub post_id : String
  pub platform : SocialPlatform
  pub account_id : String
  pub remote_post_id : String

-- `CampaignPlatformAnalytics`
pub record PlatformAnalytics : Type 0 where
  pub platform : SocialPlatform
  pub counts : Counts
  pub captured_at : Option ℕ

abbrev pub collection_is : String → CollectionRow → Bool
collection_is k r = r.job_id === k

-- The lease of a job; a job without a row here has the columns' default, NULL.
unfoldable pub lease_of : String → AnalyticsDb → Option ℕ
lease_of k s = elim (find (collection_is k) s.collections) [
  | none ↦ none
  | some r ↦ r.lease_expires_at
]

-- `NOT EXISTS (... metric.captured_at > now() - staleAfterMs)`
abbrev pub is_measured : AnalyticsDb → ℕ → ℕ → String → Bool
is_measured s stale_after_ms now k =
    any (λ (m : MetricRow). (m.job_id === k) && ltb now (m.analytics.captured_at + stale_after_ms))
      s.metrics

-- The condition of a candidate.
unfoldable pub is_due : AnalyticsDb → ℕ → ℕ → PublishJob → Bool
is_due s stale_after_ms now j =
    same_status j.status JobStatus.published
    && (is_some j.remote_post_id
        && (due_or_null (lease_of j.id s) now && not (is_measured s stale_after_ms now j.id)))

-- `published_at NULLS LAST, id`
abbrev pub published_before : PublishJob → PublishJob → Bool
published_before i j = elim i.published_at [
  | none ↦ is_none j.published_at && text_leb i.id j.id
  | some t ↦ elim j.published_at [
    | none ↦ true
    | some u ↦ ltb t u || (t == u && text_leb i.id j.id)
  ]
]

abbrev pub target_of : PublishJob → Target
target_of j = record {
  job_id = j.id;
  post_id = j.post_id;
  platform = j.platform;
  account_id = j.account_id;
  remote_post_id = elim j.remote_post_id [ none ↦ "" | some id ↦ id ];
}

-- `SET analytics_lease_expires_at = lease` of one job
unfoldable pub set_lease : String → Option ℕ → List CollectionRow → List CollectionRow
set_lease k lease [] =
    record { job_id = k; lease_expires_at = lease; last_collected_at = none } ∷ []
set_lease k lease (r ∷ rs) =
    if collection_is k r
    then record r { lease_expires_at = lease } ∷ rs
    else r ∷ set_lease k lease rs

unfoldable pub lease_all : Option ℕ → List PublishJob → List CollectionRow → List CollectionRow
lease_all lease [] rs = rs
lease_all lease (j ∷ js) rs = lease_all lease js (set_lease j.id lease rs)

-- `candidates`
unfoldable pub due_jobs : ℕ → ℕ → ℕ → AnalyticsDb → List PublishJob
due_jobs stale_after_ms limit now s =
    take limit (order_by published_before (select (is_due s stale_after_ms now) s.db.jobs))

-- `claimCollectionTargets`
unfoldable pub claim_collection_targets : ℕ → ℕ → ℕ → ℕ → AnalyticsDb → List Target × AnalyticsDb
claim_collection_targets stale_after_ms lease_ms limit now s =
    let jobs = due_jobs stale_after_ms limit now s in
    (
      map target_of jobs,
      record s { collections = lease_all (some (now + lease_ms)) jobs s.collections },
    )

-- `SET analytics_lease_expires_at = NULL, analytics_last_collected_at = $2`
unfoldable pub set_collected : String → ℕ → List CollectionRow → List CollectionRow
set_collected k at [] =
    record { job_id = k; lease_expires_at = none; last_collected_at = some at } ∷ []
set_collected k at (r ∷ rs) =
    if collection_is k r
    then record r { lease_expires_at = none; last_collected_at = some at } ∷ rs
    else r ∷ set_collected k at rs

abbrev pub post_of_job : String → SocialPostRow → Bool
post_of_job k p = p.social_publish_job_id === k

-- `saveSnapshot`, with the UUID of the new row; a job has at most one row in `social_posts`.
unfoldable pub save_snapshot :
    String → Target → PostAnalytics → AnalyticsDb → Result (Unit {0}) × AnalyticsDb
save_snapshot id target analytics s =
    if any (post_of_job target.job_id) s.db.social_posts
    then (
      ok tt,
      record s {
        metrics =
            s.metrics ++ record { id = id; job_id = target.job_id; analytics = analytics } ∷ [];
        collections = set_collected target.job_id analytics.captured_at s.collections;
      },
    )
    else (raised (Error.failed "Published social post is missing for analytics job."), s)

-- `releaseCollectionClaim`
unfoldable pub release_collection_claim : String → AnalyticsDb → AnalyticsDb
release_collection_claim k s = record s { collections = set_lease k none s.collections }
