-- ===== src/Analytics/Dashboard.antt =====
-- The sums and pages of backend/src/analytics/pg-analytics.repository.ts.
use social_promotion_automat.Base.{
  ℕ, suc, ◌+◌, max, String, Bool, true, not, ◌&&◌, ◌||◌, Option, none, some, List, [], ◌∷◌, ◌===◌,
  ◌==◌, if◌then◌else◌, text_leb, ltb, order_by, select, any, length,
}
use social_promotion_automat.Entity.{SocialPlatform, JobStatus, Post, PublishJob, social_platforms}
use social_promotion_automat.Entity.Equality.{same_platform, same_status}
use social_promotion_automat.Store.{SocialPostRow}
use social_promotion_automat.Dispatch.{take}
use social_promotion_automat.Posts.{CampaignRow}
use social_promotion_automat.Analytics.{
  count, unusable, Counts, RawValue, MetricRow, AnalyticsDb, PlatformAnalytics, post_of_job,
}

-- `ORDER BY captured_at DESC, id DESC`
abbrev pub newer : MetricRow → MetricRow → Bool
newer m n =
    ltb n.analytics.captured_at m.analytics.captured_at
    || (m.analytics.captured_at == n.analytics.captured_at && text_leb n.id m.id)

-- `latest_metric` of a job
unfoldable pub latest_metric : String → List MetricRow → Option MetricRow
latest_metric k rows = elim (order_by newer (select (λ (m : MetricRow). m.job_id === k) rows)) [
  | [] ↦ none
  | m ∷ ms ↦ some m
]

-- `sum(...)`, where NULL adds nothing and the sum of NULLs is NULL
abbrev pub add? : Option ℕ → Option ℕ → Option ℕ
add? none b = b
add? (some a) none = some a
add? (some a) (some b) = some (a + b)

abbrev pub max? : Option ℕ → Option ℕ → Option ℕ
max? none b = b
max? (some a) none = some a
max? (some a) (some b) = some (max a b)

abbrev pub no_counts : Counts
no_counts = record {
  impressions = none;
  reach = none;
  views = none;
  likes = none;
  comments = none;
  shares = none;
  reposts = none;
  clicks = none;
}

abbrev pub add_counts : Counts → Counts → Counts
add_counts a b = record {
  impressions = add? a.impressions b.impressions;
  reach = add? a.reach b.reach;
  views = add? a.views b.views;
  likes = add? a.likes b.likes;
  comments = add? a.comments b.comments;
  shares = add? a.shares b.shares;
  reposts = add? a.reposts b.reposts;
  clicks = add? a.clicks b.clicks;
}

-- One job in the sums of its platform.
abbrev pub add_job : List MetricRow → PublishJob → PlatformAnalytics → PlatformAnalytics
add_job rows j p = elim (latest_metric j.id rows) [
  | none ↦ p
  | some m ↦ record p {
    counts = add_counts m.analytics.counts p.counts;
    captured_at = max? (some m.analytics.captured_at) p.captured_at;
  }
]

unfoldable pub sum_jobs : List MetricRow → SocialPlatform → List PublishJob → PlatformAnalytics
sum_jobs rows platform [] = record { platform = platform; counts = no_counts; captured_at = none }
sum_jobs rows platform (j ∷ js) = add_job rows j (sum_jobs rows platform js)

-- `GROUP BY job.platform`: a platform without a published job has no group.
unfoldable pub group_jobs :
    List MetricRow → List PublishJob → List SocialPlatform → List PlatformAnalytics
group_jobs rows jobs [] = []
group_jobs rows jobs (p ∷ ps) =
    let rest = group_jobs rows jobs ps in
    let own = select (λ (j : PublishJob). same_platform j.platform p) jobs in
    elim own [ [] ↦ rest | j ∷ js ↦ sum_jobs rows p (j ∷ js) ∷ rest ]

abbrev pub published_jobs : (PublishJob → Bool) → AnalyticsDb → List PublishJob
published_jobs p s = select (λ j. same_status j.status JobStatus.published && p j) s.db.jobs

abbrev pub in_campaign : String → AnalyticsDb → PublishJob → Bool
in_campaign campaign_id s j =
    any (λ (p : Post). (p.id === j.post_id) && (p.campaign_id === campaign_id)) s.db.posts

abbrev pub owns_campaign : String → String → AnalyticsDb → Bool
owns_campaign owner_id campaign_id s =
    any (λ (c : CampaignRow). (c.id === campaign_id) && (c.owner_id === owner_id)) s.campaigns

-- `campaignDashboard` of the repository; the groups' order is not fixed there, and here it is that of `social_platforms`.
unfoldable pub campaign_groups : String → String → AnalyticsDb → Option (List PlatformAnalytics)
campaign_groups owner_id campaign_id s =
    if owns_campaign owner_id campaign_id s
    then some (group_jobs s.metrics (published_jobs (in_campaign campaign_id s) s) social_platforms)
    else none

-- `postDashboard` of the repository
unfoldable pub post_groups : String → String → AnalyticsDb → Option (List PlatformAnalytics)
post_groups owner_id post_id s =
    if any (λ (p : Post). (p.id === post_id) && (p.owner_id === owner_id)) s.db.posts
    then some (
        group_jobs s.metrics (published_jobs (λ (j : PublishJob). j.post_id === post_id) s)
          social_platforms)
    else none

-- `RawMetricsCursor`
pub record Cursor : Type 0 where
  pub captured_at : ℕ
  pub metric_id : String

-- `CampaignRawMetricsQuery`
pub record RawMetricsQuery : Type 0 where
  pub platform : Option SocialPlatform
  pub limit : ℕ
  pub cursor : Option Cursor

-- `(metric.captured_at, metric.id) < (cursor)`
abbrev pub is_after : Option Cursor → MetricRow → Bool
is_after none m = true
is_after (some c) m =
    ltb m.analytics.captured_at c.captured_at
    || (m.analytics.captured_at == c.captured_at && not (text_leb c.metric_id m.id))

abbrev pub on_platform : Option SocialPlatform → SocialPostRow → Bool
on_platform none p = true
on_platform (some q) p = same_platform p.platform q

-- The rows' posts are of the campaign and on the platform.
abbrev pub is_raw_row : String → RawMetricsQuery → AnalyticsDb → MetricRow → Bool
is_raw_row campaign_id q s m =
    any
      (λ (p : SocialPostRow).
        post_of_job m.job_id p
        && (on_platform q.platform p
            && any (λ (o : Post). (o.id === p.post_id) && (o.campaign_id === campaign_id))
                s.db.posts))
      s.db.social_posts
    && is_after q.cursor m

-- `numericRawMetrics`
unfoldable pub numeric_raw_metrics : List (String × RawValue) → List (String × ℕ)
numeric_raw_metrics [] = []
numeric_raw_metrics ((k, count n) ∷ entries) = (k, n) ∷ numeric_raw_metrics entries
numeric_raw_metrics ((k, unusable) ∷ entries) = numeric_raw_metrics entries

-- `CampaignRawMetricsPage`
pub record RawMetricsPage : Type 0 where
  pub has_more : Bool
  pub items : List MetricRow

-- `campaignRawMetrics` of the repository
unfoldable pub raw_metrics_page :
    String → String → RawMetricsQuery → AnalyticsDb → Option RawMetricsPage
raw_metrics_page owner_id campaign_id q s =
    if owns_campaign owner_id campaign_id s
    then (let rows =
          take (suc q.limit) (order_by newer (select (is_raw_row campaign_id q s) s.metrics)) in
        some (record { has_more = ltb q.limit (length rows); items = take q.limit rows }))
    else none
