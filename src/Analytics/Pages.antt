-- ===== src/Analytics/Pages.antt =====
-- Following the cursors of backend/src/analytics/analytics.service.ts from page to page.
pub mod Cut
pub mod Rows
use social_promotion_automat.Base.{
  length-order_by, length-select, ℕ, zero, suc, ◌≤◌, ◌<◌, String, Bool, true, false, not, ◌&&◌,
  Option, none, some, List, [], ◌∷◌, ◌++◌, map, ◌≡◌, refl, sym, ap, ◌∙◌, arith, if◌then◌else◌, ltb,
  leb, select, order_by, length, All, All-select, All-weaken, All-member, All-order_by, Pairwise,
  Pairwise-select, Pairwise-order_by, order_by-IsOrdered, Bool-cases, Option-cases, or_else,
  truthy?, subst, inl, inr,
}
use social_promotion_automat.Entity.{SocialPlatform}
use social_promotion_automat.Result.{Error, Result, ok, raised}
use social_promotion_automat.Dispatch.{take}
use social_promotion_automat.Analytics.{MetricRow, AnalyticsDb}
use social_promotion_automat.Analytics.Dashboard.{
  Cursor, RawMetricsQuery, RawMetricsPage, newer, is_after, is_raw_row, raw_metrics_page,
  owns_campaign,
}
use social_promotion_automat.Analytics.Service.{
  RawInput, Snapshot, RawMetricsResponse, parse_raw_metrics_query, parsed_platform, parsed_limit,
  parsed_cursor, campaign_raw_metrics, last_row, shown, next_cursor_of,
}
use social_promotion_automat.Analytics.Pages.Cut.{
  cursor_of, Differ, drop, newer_total, newer_trans, after_trans, page_cut,
}
use social_promotion_automat.Analytics.Pages.Rows.{
  all_rows, rows_after, select_inner, select-none, take_more, has_more_iff, take_all, shown_cut,
  length-drop,
}

-- A cursor that is read back from its text.
abbrev pub ReadsBack : (Cursor → String) → (String → Option Cursor) → MetricRow → Type 0
ReadsBack encode decode m =
    (decode (encode (cursor_of m)) ≡ some (cursor_of m))
    × (truthy? (some (encode (cursor_of m))) ≡ true)

limit_pos :
    (number : String → Option ℕ) (raw : Option String) (n : ℕ)
    → parsed_limit number raw ≡ ok n
    → 1 ≤ n
unfolding parsed_limit
limit_pos number raw n h = elim (Bool-cases (truthy? raw)) [
  | inr missing ↦ ground arith
  | inl given ↦ elim (Option-cases (number (or_else raw ""))) [
    | inl wrong ↦ absurd (ground arith)
    | inr (m, read) ↦ ground arith
  ]
]

module _ (number : String → Option ℕ) (encode : Cursor → String) (decode : String → Option Cursor)
    (owner_id campaign_id : String) (s : AnalyticsDb) where
  -- What a client reads that asks for a page, and for the next one as long as the answer names a cursor.
  unfoldable pub pages : ℕ → RawInput → List Snapshot
  pages zero input = []
  pages (suc fuel) input =
      elim (campaign_raw_metrics number encode decode owner_id campaign_id input s) [
        | raised e ↦ []
        | ok r ↦ elim r.next_cursor [
          | none ↦ r.raw_metrics
          | some c ↦ r.raw_metrics ++ pages fuel (record input { cursor = some c })
        ]
      ]

  one_page :
      (input : RawInput) (p : Option SocialPlatform) (n : ℕ) (c : Option Cursor)
      → parsed_platform input.platform ≡ ok p
      → parsed_limit number input.limit ≡ ok n
      → parsed_cursor decode input.cursor ≡ ok c
      → owns_campaign owner_id campaign_id s ≡ true
      → let rows =
          select
            (is_after c)
            (all_rows campaign_id (record { platform = p; limit = n; cursor = none }) s) in
        campaign_raw_metrics number encode decode owner_id campaign_id input s
        ≡ ok (record {
          raw_metrics = map (shown s.db.social_posts) (take n rows);
          next_cursor =
              next_cursor_of encode
                (record { has_more = ltb n (length rows); items = take n rows });
        })
  unfolding campaign_raw_metrics parse_raw_metrics_query raw_metrics_page
  one_page input p n c platform limit cursor owned =
      rw (platform, campaign_raw_metrics, parse_raw_metrics_query)
        (rw (limit, campaign_raw_metrics, parse_raw_metrics_query)
          (rw (cursor, campaign_raw_metrics, parse_raw_metrics_query) (ap answer found)))
    where
      answer : Option RawMetricsPage → Result RawMetricsResponse
      answer o = elim o as (λ x. Result RawMetricsResponse) [
        | none ↦ raised (Error.not_found "Campaign not found.")
        | some page ↦ ok (record {
          raw_metrics = map (shown s.db.social_posts) page.items;
          next_cursor = next_cursor_of encode page;
        })
      ]

      q : RawMetricsQuery
      q = record { platform = p; limit = n; cursor = c }

      rows : List MetricRow
      rows = select (is_after c) (all_rows campaign_id q s)

      found :
          raw_metrics_page owner_id campaign_id q s
          ≡ some (record { has_more = ltb n (length rows); items = take n rows })
      found =
          rw (owned, raw_metrics_page)
            (rw (rows_after campaign_id q s)
              (rw (take_more n rows) (rw (has_more_iff n rows) refl)))

  cursor_read :
      (m : MetricRow)
      → ReadsBack encode decode m
      → parsed_cursor decode (some (encode (cursor_of m))) ≡ ok (some (cursor_of m))
  unfolding parsed_cursor
  cursor_read m r = rw r.1 (rw (r.0, parsed_cursor) refl)

  pages_from :
      (fuel : ℕ) (input : RawInput) (p : Option SocialPlatform) (n : ℕ) (c : Option Cursor)
      → let all = all_rows campaign_id (record { platform = p; limit = suc n; cursor = none }) s in
        parsed_platform input.platform ≡ ok p
        → parsed_limit number input.limit ≡ ok (suc n)
        → parsed_cursor decode input.cursor ≡ ok c
        → owns_campaign owner_id campaign_id s ≡ true
        → Pairwise Differ all
        → All (ReadsBack encode decode) all
        → length (select (is_after c) all) < fuel
        → pages fuel input ≡ map (shown s.db.social_posts) (select (is_after c) all)
  unfolding pages
  pages_from zero input p n c platform limit cursor owned differ reads enough = absurd (omega arith)
  pages_from (suc fuel) input p n c platform limit cursor owned differ reads enough =
      let all = all_rows campaign_id (record { platform = p; limit = suc n; cursor = none }) s in
      let rows = select (is_after c) all in
      rw (one_page input p (suc n) c platform limit cursor owned, pages)
        (elim (Bool-cases (ltb (suc n) (length rows))) [
          | inr last ↦
              rw last (ap (map (shown s.db.social_posts)) (take_all (suc n) rows (ground arith)))
          | inl more ↦
              let (l, ends, there, rest) =
                page_cut n rows (ground arith)
                  (Pairwise-select (λ l m. newer l m ≡ true) (is_after c) all
                    (order_by-IsOrdered newer newer_total newer_trans _))
                  (Pairwise-select Differ (is_after c) all differ) in
              let (read, after) =
                All-member _ l rows (All-select (ReadsBack encode decode) (is_after c) all reads)
                  there in
              let left : select (is_after (some (cursor_of l))) all ≡ drop (suc n) rows =
                sym (
                  select_inner (is_after (some (cursor_of l))) (is_after c) all
                    (λ m h. after_trans c l m after h))
                ∙ rest in
              let next : pages fuel (record input { cursor = some (encode (cursor_of l)) })
                  ≡ map (shown s.db.social_posts) (drop (suc n) rows) =
                pages_from fuel (record input { cursor = some (encode (cursor_of l)) }) p n
                  (some (cursor_of l)) platform limit (cursor_read l read) owned differ reads
                  (rw left (omega (arith, length-drop n rows (ground arith))))
                ∙ ap (map (shown s.db.social_posts)) left in
              rw more (
                rw ends (
                  ap (λ t. map (shown s.db.social_posts) (take (suc n) rows) ++ t) next
                  ∙ shown_cut s.db.social_posts (suc n) rows))
        ])

  -- A client that asks for a page and follows the answers' cursors until one names none reads every snapshot of the
  -- campaign and the platform exactly once, newest first, whatever the limit is; it has asked often enough after one
  -- request more than there are snapshots. The snapshots' ids differ, the cursors of these snapshots are read back from
  -- their texts, the owner asks, and the tables stay as they are.
  pub pages_complete :
      (fuel : ℕ) (input : RawInput) (p : Option SocialPlatform) (n : ℕ)
      → parsed_platform input.platform ≡ ok p
      → parsed_limit number input.limit ≡ ok n
      → input.cursor ≡ none
      → owns_campaign owner_id campaign_id s ≡ true
      → Pairwise Differ s.metrics
      → All (ReadsBack encode decode) s.metrics
      → length s.metrics < fuel
      → pages fuel input
        ≡ map
            (shown s.db.social_posts)
            (all_rows campaign_id (record { platform = p; limit = n; cursor = none }) s)
  unfolding parsed_cursor
  pages_complete fuel input p zero platform limit unset owned differ reads enough =
      absurd (omega (arith, limit_pos number input.limit zero limit))
  pages_complete fuel input p (suc n) platform limit unset owned differ reads enough =
      pages_from fuel input p n none platform limit (rw unset refl) owned
        (Pairwise-order_by newer Differ selected (λ l m d e. d (sym e))
          (Pairwise-select Differ chosen s.metrics differ))
        (All-order_by newer (ReadsBack encode decode) selected (
          All-weaken _ (ReadsBack encode decode) selected (λ m r. r.0)
            (All-select (ReadsBack encode decode) chosen s.metrics reads)))
        (rw (select-none all)
          (omega (arith, length-order_by newer selected, length-select chosen s.metrics)))
      ∙ ap (map (shown s.db.social_posts)) (select-none all)
    where
      q : RawMetricsQuery
      q = record { platform = p; limit = suc n; cursor = none }

      chosen : MetricRow → Bool
      chosen = is_raw_row campaign_id q s

      selected : List MetricRow
      selected = select chosen s.metrics

      all : List MetricRow
      all = all_rows campaign_id q s
