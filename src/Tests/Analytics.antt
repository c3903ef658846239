-- ===== src/Tests/Analytics.antt =====
-- Examples for backend/src/analytics/analytics.service.ts.
use social_promotion_automat.Base.{
  ℕ, String, true, false, Option, none, [], ◌∷◌, map, ◌===◌, ◌≡◌, refl, arith, any, find, select,
  order_by, insert_by,
}
use social_promotion_automat.Entity.{SocialPlatform, social_platforms}
use social_promotion_automat.Result.{ok}
use social_promotion_automat.Dispatch.{take}
use social_promotion_automat.Analytics.{
  PlatformAnalytics, AnalyticsDb, Target, lease_of, is_due, due_jobs, claim_collection_targets,
}
use social_promotion_automat.Analytics.Dashboard.{
  Cursor, campaign_groups, group_jobs, sum_jobs, latest_metric, raw_metrics_page, no_counts,
}
use social_promotion_automat.Analytics.Service.{
  dashboard, campaign_dashboard, RawInput, RawMetricsResponse, parse_raw_metrics_query,
  parsed_limit, parsed_cursor, campaign_raw_metrics,
}
use social_promotion_automat.Analytics.Laws.{claim_collection_leases}
use social_promotion_automat.Tests.Sample.{waiting_job, published_row, tables}

abbrev sample_db : AnalyticsDb
sample_db = record {
  db = tables waiting_job;
  campaigns = record { id = "c1"; owner_id = "u1" } ∷ [];
  collections = [];
  metrics = [];
}

abbrev empty_row : SocialPlatform → PlatformAnalytics
empty_row p = record { platform = p; counts = no_counts; captured_at = none }

shown : campaign_dashboard "u1" "c1" sample_db ≡ ok (map empty_row social_platforms)
unfolding campaign_dashboard campaign_groups group_jobs sum_jobs latest_metric dashboard any find
    select order_by
shown = refl

claimed :
    any
      (λ (t : Target). t.job_id === "j2")
      (claim_collection_targets 3600000 300000 50 5000000 sample_db).0
    ≡ true
unfolding claim_collection_targets due_jobs is_due lease_of take any find select order_by insert_by
claimed = refl

claim_collection_leases_example :
    is_due
      (claim_collection_targets 3600000 300000 50 5000000 sample_db).1
      3600000
      5200000
      published_row
    ≡ false
claim_collection_leases_example =
    claim_collection_leases 3600000 300000 50 5000000 5200000 sample_db published_row claimed
      (omega arith)

abbrev no_number : String → Option ℕ
no_number s = none

abbrev encode : Cursor → String
encode c = "cursor"

abbrev decode : String → Option Cursor
decode s = none

abbrev no_input : RawInput
no_input = record { platform = none; limit = none; cursor = none }

abbrev empty_page : RawMetricsResponse
empty_page = record { raw_metrics = []; next_cursor = none }

pages : campaign_raw_metrics no_number encode decode "u1" "c1" no_input sample_db ≡ ok empty_page
unfolding campaign_raw_metrics parse_raw_metrics_query parsed_limit parsed_cursor raw_metrics_page
    any select order_by take
pages = refl
