-- ===== src/Analytics/Laws.antt =====
-- What backend/src/analytics/analytics.service.ts shows, and which publications it measures.
use social_promotion_automat.Base.{
  length-map, ℕ, suc, ◌+◌, ◌≤◌, ◌<◌, String, true, false, Option, none, some, List, [], ◌∷◌, ◌++◌,
  map, ◌===◌, ◌≡◌, refl, ap, ◌∙◌, arith, if◌then◌else◌, any, find, find_holds, length, eq_iff, inl,
  inr, Bool-cases, Option-cases, truthy?, or_else,
}
use social_promotion_automat.Entity.{SocialPlatform, PublishJob, social_platforms}
use social_promotion_automat.Entity.Equality.{same_platform, same_platform_iff}
use social_promotion_automat.Result.{Result, ok, raised, ok-injective, some_inj, bind_ok}
use social_promotion_automat.Dispatch.Laws.{length-take}
use social_promotion_automat.Analytics.{
  PlatformAnalytics, AnalyticsDb, CollectionRow, Target, PostAnalytics, collection_is, lease_of,
  is_due, set_lease, lease_all, due_jobs, target_of, claim_collection_targets, save_snapshot,
}
use social_promotion_automat.Analytics.Dashboard.{
  Cursor, RawMetricsQuery, RawMetricsPage, campaign_groups, raw_metrics_page, owns_campaign,
}
use social_promotion_automat.Analytics.Service.{
  Collected, Measure, dashboard_row, dashboard, campaign_dashboard, RawInput, RawMetricsResponse,
  parse_raw_metrics_query, parsed_platform, parsed_limit, parsed_cursor, campaign_raw_metrics,
  shown, collection_failed, after_snapshot, collect_one, collect_all, collect_due,
}

row_platform :
    (groups : List PlatformAnalytics) (p : SocialPlatform) → (dashboard_row groups p).platform ≡ p
row_platform groups p =
    elim (Option-cases (find (λ (g : PlatformAnalytics). same_platform g.platform p) groups)) [
      | inl lost ↦ rw (lost, dashboard_row) refl
      | inr (g, e) ↦
          rw (e, dashboard_row) ((same_platform_iff g.platform p).0 (find_holds _ groups g e))
    ]

-- A campaign's dashboard has one row for each of the five platforms, in their fixed order, whatever was measured.
pub campaign_dashboard_platforms :
    (owner_id campaign_id : String) (s : AnalyticsDb) (rows : List PlatformAnalytics)
    → campaign_dashboard owner_id campaign_id s ≡ ok rows
    → map (λ (r : PlatformAnalytics). r.platform) rows ≡ social_platforms
unfolding campaign_dashboard dashboard
campaign_dashboard_platforms owner_id campaign_id s rows h =
    elim (Option-cases (campaign_groups owner_id campaign_id s)) [
      | inl lost ↦ absurd (ground arith)
      | inr (groups, e) ↦
          let same : dashboard groups ≡ rows = ok-injective (rw (e, campaign_dashboard) at h) in
          rw (← same) (
            simp
              (
                row_platform groups SocialPlatform.linkedin,
                row_platform groups SocialPlatform.facebook,
                row_platform groups SocialPlatform.instagram,
                row_platform groups SocialPlatform.threads,
                row_platform groups SocialPlatform.x,
              )
              refl)
    ]

-- the lease of a job among the rows
abbrev lease_in : String → List CollectionRow → Option ℕ
lease_in k rs = elim (find (collection_is k) rs) [ none ↦ none | some r ↦ r.lease_expires_at ]

lease_in-set_lease :
    (k k' : String) (lease : Option ℕ) (rs : List CollectionRow)
    → lease_in k (set_lease k' lease rs) ≡ (if k' === k then lease else lease_in k rs)
unfolding find set_lease
lease_in-set_lease k k' lease [] = ground arith
lease_in-set_lease k k' lease (r ∷ rs) =
    ground
      (arith, lease_in-set_lease k k' lease rs, eq_iff r.job_id k, eq_iff r.job_id k', eq_iff k' k)

lease_in-lease_all :
    (k : String) (lease : Option ℕ) (js : List PublishJob) (rs : List CollectionRow)
    → lease_in k (lease_all lease js rs)
      ≡ (if any (λ (t : Target). t.job_id === k) (map target_of js) then lease else lease_in k rs)
unfolding lease_all any
lease_in-lease_all k lease [] rs = refl
lease_in-lease_all k lease (j ∷ js) rs =
    lease_in-lease_all k lease js (set_lease j.id lease rs)
    ∙ ground (arith, lease_in-set_lease k j.id lease rs)

-- A publication that was claimed for a measurement is not due again before its lease ends.
pub claim_collection_leases :
    (stale_after_ms lease_ms limit now now' : ℕ) (s : AnalyticsDb) (j : PublishJob)
    → any
        (λ (t : Target). t.job_id === j.id)
        (claim_collection_targets stale_after_ms lease_ms limit now s).0
      ≡ true
    → now' < now + lease_ms
    → is_due (claim_collection_targets stale_after_ms lease_ms limit now s).1 stale_after_ms now' j
      ≡ false
unfolding claim_collection_targets is_due lease_of
claim_collection_leases stale_after_ms lease_ms limit now now' s j claimed h =
    let leased : lease_in j.id
          (lease_all (some (now + lease_ms)) (due_jobs stale_after_ms limit now s) s.collections)
        ≡ some (now + lease_ms) =
      lease_in-lease_all j.id (some (now + lease_ms)) (due_jobs stale_after_ms limit now s)
        s.collections
      ∙ rw claimed refl in
    ground (arith, leased)

-- What a query may ask for.
limit_of :
    (number : String → Option ℕ) (raw : Option String) (n : ℕ)
    → parsed_limit number raw ≡ ok n
    → n ≤ 100
unfolding parsed_limit
limit_of number raw n h = elim (Bool-cases (truthy? raw)) [
  | inr missing ↦ ground arith
  | inl given ↦ elim (Option-cases (number (or_else raw ""))) [
    | inl lost ↦ absurd (ground arith)
    | inr (m, e) ↦ ground arith
  ]
]

page_bound :
    (owner_id campaign_id : String) (q : RawMetricsQuery) (s : AnalyticsDb) (page : RawMetricsPage)
    → raw_metrics_page owner_id campaign_id q s ≡ some page
    → length page.items ≤ q.limit
unfolding raw_metrics_page
page_bound owner_id campaign_id q s page h =
    elim (Bool-cases (owns_campaign owner_id campaign_id s)) [
      | inr foreign ↦ absurd (ground arith)
      | inl own ↦
          let same = some_inj (rw (own, raw_metrics_page) at h) in
          rw (← same) (length-take q.limit _)
    ]

page_owned :
    (owner_id campaign_id : String) (q : RawMetricsQuery) (s : AnalyticsDb) (page : RawMetricsPage)
    → raw_metrics_page owner_id campaign_id q s ≡ some page
    → owns_campaign owner_id campaign_id s ≡ true
unfolding raw_metrics_page
page_owned owner_id campaign_id q s page h =
    elim (Bool-cases (owns_campaign owner_id campaign_id s)) [
      | inr foreign ↦ absurd (ground arith)
      | inl own ↦ own
    ]

-- A page of raw metrics never has more than a hundred rows, whatever limit the query names, and only the campaign's
-- owner gets one.
pub raw_metrics_bounded :
    (number : String → Option ℕ) (encode : Cursor → String) (decode : String → Option Cursor)
    (owner_id campaign_id : String) (input : RawInput) (s : AnalyticsDb) (r : RawMetricsResponse)
    → campaign_raw_metrics number encode decode owner_id campaign_id input s ≡ ok r
    → (length r.raw_metrics ≤ 100) × (owns_campaign owner_id campaign_id s ≡ true)
unfolding campaign_raw_metrics parse_raw_metrics_query
raw_metrics_bounded number encode decode owner_id campaign_id input s r h =
    let (q, asked, h1) = bind_ok (parse_raw_metrics_query number decode input) _ r h in
    let (p, _, h2) = bind_ok (parsed_platform input.platform) _ q asked in
    let (n, limited, h3) = bind_ok (parsed_limit number input.limit) _ q h2 in
    let (c, _, h4) = bind_ok (parsed_cursor decode input.cursor) _ q h3 in
    let limit : n ≡ q.limit = ap (λ (x : RawMetricsQuery). x.limit) (ok-injective h4) in
    elim (Option-cases (raw_metrics_page owner_id campaign_id q s)) [
      | inl lost ↦ absurd (ground arith)
      | inr (page, e) ↦
          let same = ok-injective (rw e at h1) in
          (
            rw (← same) (
                omega (
                  arith,
                  length-map (shown s.db.social_posts) page.items,
                  page_bound owner_id campaign_id q s page e,
                  limit_of number input.limit n limited,
                  limit,
                )),
            page_owned owner_id campaign_id q s page e,
          )
    ]

length-snoc : {A : Type 0} (xs : List A) (x : A) → length (xs ++ x ∷ []) ≡ suc (length xs)
length-snoc [] x = refl
length-snoc (y ∷ ys) x = ap suc (length-snoc ys x)

abbrev reported : Collected → ℕ
reported r = length r.collected_job_ids + length r.failed

module _ (uuid : ℕ → String) (measure : Measure) where
  collection_failed-count :
      (t : Target) (s : Collected × AnalyticsDb)
      → reported (collection_failed uuid measure t s).0 ≡ suc (reported s.0)
  collection_failed-count t (r, s) = omega (arith, length-snoc r.failed t.job_id)

  after_snapshot-count :
      (t : Target) (r : Collected) (s : Result (Unit {0}) × AnalyticsDb)
      → reported (after_snapshot uuid measure t r s).0 ≡ suc (reported r)
  after_snapshot-count t r (ok u, s) = omega (arith, length-snoc r.collected_job_ids t.job_id)
  after_snapshot-count t r (raised e, s) = collection_failed-count t (r, s)

  collect_one-count :
      (n : ℕ) (t : Target) (s : Collected × AnalyticsDb)
      → reported (collect_one uuid measure n t s).0 ≡ suc (reported s.0)
  unfolding collect_one
  collect_one-count n t (r, s) = go (measure t)
    where
      go :
          (o : Option PostAnalytics)
          → reported
              (elim o as (λ x. Collected × AnalyticsDb) [
                | none ↦ collection_failed uuid measure t (r, s)
                | some analytics ↦
                    after_snapshot uuid measure t r (save_snapshot (uuid n) t analytics s)
              ]).0
            ≡ suc (reported r)
      go none = collection_failed-count t (r, s)
      go (some analytics) = after_snapshot-count t r (save_snapshot (uuid n) t analytics s)

  collect_all-count :
      (n : ℕ) (ts : List Target) (s : Collected × AnalyticsDb)
      → reported (collect_all uuid measure n ts s).0 ≡ length ts + reported s.0
  unfolding collect_all
  collect_all-count n [] s = omega arith
  collect_all-count n (t ∷ ts) s = omega (
    arith,
    collect_all-count (suc n) ts (collect_one uuid measure n t s),
    collect_one-count n t s,
  )

  -- Every publication that is claimed for a measurement is reported once, as collected or as failed.
  pub collect_due-count :
      (stale_after_ms lease_ms limit now : ℕ) (s : AnalyticsDb)
      → let r = (collect_due uuid measure stale_after_ms lease_ms limit now s).0 in
        length r.collected_job_ids + length r.failed
        ≡ length (claim_collection_targets stale_after_ms lease_ms limit now s).0
  unfolding collect_due
  collect_due-count stale_after_ms lease_ms limit now s = omega (arith, collect_all-count 0 _ _)
