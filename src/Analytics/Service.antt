-- ===== src/Analytics/Service.antt =====
-- backend/src/analytics/analytics.service.ts. `encode` and `decode` stand for its encodeCursor and decodeCursor, which are
-- in Analytics.Cursor; `Number` of a text that came with a query or stands in the environment is a parameter.
use social_promotion_automat.Base.{
  ℕ, suc, String, not, ◌||◌, Option, none, some, List, [], ◌∷◌, ◌++◌, map, if◌then◌else◌, leb, ltb,
  find, truthy?, or_else,
}
use social_promotion_automat.Entity.{SocialPlatform, social_platforms}
use social_promotion_automat.Entity.Equality.{same_platform}
use social_promotion_automat.Store.{SocialPostRow}
use social_promotion_automat.Result.{Error, Result, ok, raised, ◌>>=◌, ◌>>◌, raise_if}
use social_promotion_automat.Analytics.{
  PostAnalytics, PlatformAnalytics, AnalyticsDb, Target, MetricRow, claim_collection_targets,
  save_snapshot, release_collection_claim, post_of_job,
}
use social_promotion_automat.Analytics.Dashboard.{
  Cursor, RawMetricsQuery, RawMetricsPage, no_counts, numeric_raw_metrics, campaign_groups,
  post_groups, raw_metrics_page,
}

-- `AnalyticsCollectionResult`; the messages of the failures are left out.
pub record Collected : Type 0 where
  pub collected_job_ids : List String
  pub failed : List String

-- What `getPostAnalytics` comes to: the adapter's answer, or an exception, also where there is no such adapter.
abbrev pub Measure : Type 0
Measure = Target → Option PostAnalytics

-- `positiveIntegerEnv`; `number` is `Number` of a text, where it is an integer.
unfoldable pub positive_integer_env : (String → Option ℕ) → Option String → ℕ → ℕ → Result ℕ
positive_integer_env number raw fallback maximum =
    if not (truthy? raw) then ok fallback else elim (number (or_else raw "")) [
      | none ↦
          raised (Error.range_error "The setting must be a positive integer within its maximum.")
      | some value ↦
          raise_if (leb value 0 || ltb maximum value)
            (Error.range_error "The setting must be a positive integer within its maximum.")
          >> ok value
    ]

abbrev pub dashboard_row : List PlatformAnalytics → SocialPlatform → PlatformAnalytics
dashboard_row groups p =
    elim (find (λ (g : PlatformAnalytics). same_platform g.platform p) groups) [
      | none ↦ record { platform = p; counts = no_counts; captured_at = none }
      | some g ↦ g
    ]

-- `SOCIAL_PLATFORMS.map((platform) => byPlatform.get(platform) ?? { platform, capturedAt: null })`
unfoldable pub dashboard : List PlatformAnalytics → List PlatformAnalytics
dashboard groups = map (dashboard_row groups) social_platforms

-- `campaignDashboard`
unfoldable pub campaign_dashboard : String → String → AnalyticsDb → Result (List PlatformAnalytics)
campaign_dashboard owner_id campaign_id s = elim (campaign_groups owner_id campaign_id s) [
  | none ↦ raised (Error.not_found "Campaign not found.")
  | some groups ↦ ok (dashboard groups)
]

-- `postDashboard`
unfoldable pub post_dashboard : String → String → AnalyticsDb → Result (List PlatformAnalytics)
post_dashboard owner_id post_id s = elim (post_groups owner_id post_id s) [
  | none ↦ raised (Error.not_found "Post not found.")
  | some groups ↦ ok (dashboard groups)
]

-- What a query brings: `platform` is none where it is missing, and `some none` where it names no platform.
pub record RawInput : Type 0 where
  pub platform : Option (Option SocialPlatform)
  pub limit : Option String
  pub cursor : Option String

abbrev pub parsed_platform : Option (Option SocialPlatform) → Result (Option SocialPlatform)
parsed_platform none = ok none
parsed_platform (some none) =
    raised (Error.bad_request "platform must be a supported social platform.")
parsed_platform (some (some p)) = ok (some p)

-- The limit: 50 where none is given.
unfoldable pub parsed_limit : (String → Option ℕ) → Option String → Result ℕ
parsed_limit number raw = if not (truthy? raw) then ok 50 else elim (number (or_else raw "")) [
  | none ↦ raised (Error.bad_request "limit must be an integer between 1 and 100.")
  | some n ↦
      raise_if (ltb n 1 || ltb 100 n)
        (Error.bad_request "limit must be an integer between 1 and 100.")
      >> ok n
]

unfoldable pub parsed_cursor : (String → Option Cursor) → Option String → Result (Option Cursor)
parsed_cursor decode raw = if not (truthy? raw) then ok none else elim (decode (or_else raw "")) [
  | none ↦ raised (Error.bad_request "cursor is invalid.")
  | some c ↦ ok (some c)
]

-- `parseRawMetricsQuery`
unfoldable pub parse_raw_metrics_query :
    (String → Option ℕ) → (String → Option Cursor) → RawInput → Result RawMetricsQuery
parse_raw_metrics_query number decode input = do
  platform ← parsed_platform input.platform
  limit ← parsed_limit number input.limit
  cursor ← parsed_cursor decode input.cursor
  ok (record { platform = platform; limit = limit; cursor = cursor })

-- A member of `rawMetrics` of `CampaignRawMetricsResponse`; the platform and the remote id are those of the row of `social_posts`
-- that the page's query joins, which every row of a page has.
pub record Snapshot : Type 0 where
  pub platform : Option SocialPlatform
  pub remote_post_id : Option String
  pub captured_at : ℕ
  pub raw_metrics : List (String × ℕ)

-- `CampaignRawMetricsResponse`
pub record RawMetricsResponse : Type 0 where
  pub raw_metrics : List Snapshot
  pub next_cursor : Option String

unfoldable pub last_row : List MetricRow → Option MetricRow
last_row [] = none
last_row (m ∷ ms) = elim (last_row ms) [ none ↦ some m | some l ↦ some l ]

-- `({ metricId: _metricId, ...snapshot }) => snapshot`, of a row with its columns of `social_posts`
abbrev pub shown : List SocialPostRow → MetricRow → Snapshot
shown posts m =
    let post = find (post_of_job m.job_id) posts in
    record {
      platform = elim post [ none ↦ none | some p ↦ some p.platform ];
      remote_post_id = elim post [ none ↦ none | some p ↦ p.remote_post_id ];
      captured_at = m.analytics.captured_at;
      raw_metrics = numeric_raw_metrics m.analytics.raw_metrics;
    }

-- `page.hasMore && last ? this.encodeCursor(...) : null`
abbrev pub next_cursor_of : (Cursor → String) → RawMetricsPage → Option String
next_cursor_of encode page = if not page.has_more then none else elim (last_row page.items) [
  | none ↦ none
  | some l ↦ some (encode (record { captured_at = l.analytics.captured_at; metric_id = l.id }))
]

-- `campaignRawMetrics`
unfoldable pub campaign_raw_metrics :
    (String → Option ℕ)
    → (Cursor → String)
    → (String → Option Cursor)
    → String
    → String
    → RawInput
    → AnalyticsDb
    → Result RawMetricsResponse
campaign_raw_metrics number encode decode owner_id campaign_id input s = do
  query ← parse_raw_metrics_query number decode input
  elim (raw_metrics_page owner_id campaign_id query s) [
    | none ↦ raised (Error.not_found "Campaign not found.")
    | some page ↦ ok (record {
      raw_metrics = map (shown s.db.social_posts) page.items;
      next_cursor = next_cursor_of encode page;
    })
  ]

module _ (uuid : ℕ → String) (measure : Measure) where
  -- The failure of one target: its claim is released.
  abbrev pub collection_failed : Target → Collected × AnalyticsDb → Collected × AnalyticsDb
  collection_failed t (r, s) =
      (record r { failed = r.failed ++ t.job_id ∷ [] }, release_collection_claim t.job_id s)

  abbrev pub after_snapshot :
      Target → Collected → Result (Unit {0}) × AnalyticsDb → Collected × AnalyticsDb
  after_snapshot t r (ok u, s) =
      (record r { collected_job_ids = r.collected_job_ids ++ t.job_id ∷ [] }, s)
  after_snapshot t r (raised e, s) = collection_failed t (r, s)

  -- One target in the loop of `collectDue`; `n` numbers the UUIDs.
  unfoldable pub collect_one : ℕ → Target → Collected × AnalyticsDb → Collected × AnalyticsDb
  collect_one n t (r, s) = elim (measure t) [
    | none ↦ collection_failed t (r, s)
    | some analytics ↦ after_snapshot t r (save_snapshot (uuid n) t analytics s)
  ]

  unfoldable pub collect_all : ℕ → List Target → Collected × AnalyticsDb → Collected × AnalyticsDb
  collect_all n [] s = s
  collect_all n (t ∷ ts) s = collect_all (suc n) ts (collect_one n t s)

  -- `collectDue`, with the three settings that were read
  unfoldable pub collect_due : ℕ → ℕ → ℕ → ℕ → AnalyticsDb → Collected × AnalyticsDb
  collect_due stale_after_ms lease_ms limit now s =
      let (targets, s') = claim_collection_targets stale_after_ms lease_ms limit now s in
      collect_all 0 targets (record { collected_job_ids = []; failed = [] }, s')
