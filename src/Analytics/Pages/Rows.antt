-- ===== src/Analytics/Pages/Rows.antt =====
-- The rows of a page of backend/src/analytics/pg-analytics.repository.ts, as a part of all rows.
use social_promotion_automat.Base.{
  ℕ, zero, suc, ◌≤◌, ◌<◌, String, Bool, true, ◌&&◌, none, List, [], ◌∷◌, ◌++◌, map, ◌≡◌, refl, sym,
  ap, ◌∙◌, arith, ltb, select, order_by, length, select-order_by,
}
use social_promotion_automat.Store.{SocialPostRow}
use social_promotion_automat.Dispatch.{take}
use social_promotion_automat.Analytics.{MetricRow, AnalyticsDb}
use social_promotion_automat.Analytics.Dashboard.{RawMetricsQuery, newer, is_after, is_raw_row}
use social_promotion_automat.Analytics.Service.{shown}
use social_promotion_automat.Analytics.Pages.Cut.{drop, newer_total, newer_trans}

-- All rows of a query, newest first.
abbrev pub all_rows : String → RawMetricsQuery → AnalyticsDb → List MetricRow
all_rows campaign_id q s =
    order_by newer (select (is_raw_row campaign_id (record q { cursor = none }) s) s.metrics)

select_and :
    (p q : MetricRow → Bool) (rows : List MetricRow)
    → select (λ m. p m && q m) rows ≡ select q (select (λ m. p m && true) rows)
unfolding select
select_and p q [] = refl
select_and p q (m ∷ rows) = ground (arith, select_and p q rows)

-- The rows that the statement selects and orders, under a cursor.
pub rows_after :
    (campaign_id : String) (q : RawMetricsQuery) (s : AnalyticsDb)
    → order_by newer (select (is_raw_row campaign_id q s) s.metrics)
      ≡ select (is_after q.cursor) (all_rows campaign_id q s)
rows_after campaign_id q s =
    ap (order_by newer) (select_and _ (is_after q.cursor) s.metrics)
    ∙ sym (select-order_by newer newer_total newer_trans (is_after q.cursor) _)

pub select_inner :
    (p q : MetricRow → Bool) (rows : List MetricRow)
    → ((m : MetricRow) → p m ≡ true → q m ≡ true)
    → select p (select q rows) ≡ select p rows
unfolding select
select_inner p q [] h = refl
select_inner p q (m ∷ rows) h = ground (arith, h m, select_inner p q rows h)

pub select-none : (rows : List MetricRow) → select (is_after none) rows ≡ rows
unfolding select
select-none [] = refl
select-none (m ∷ rows) = ap (λ r. m ∷ r) (select-none rows)

pub take_more : (n : ℕ) (rows : List MetricRow) → take n (take (suc n) rows) ≡ take n rows
unfolding take
take_more zero rows = refl
take_more (suc n) [] = refl
take_more (suc n) (m ∷ rows) = ap (λ r. m ∷ r) (take_more n rows)

pub has_more_iff :
    (n : ℕ) (rows : List MetricRow) → ltb n (length (take (suc n) rows)) ≡ ltb n (length rows)
unfolding take
has_more_iff zero [] = refl
has_more_iff zero (m ∷ rows) = ground arith
has_more_iff (suc n) [] = refl
has_more_iff (suc n) (m ∷ rows) = ground (arith, has_more_iff n rows)

pub take_all : (n : ℕ) (rows : List MetricRow) → length rows ≤ n → take n rows ≡ rows
unfolding take
take_all zero [] h = refl
take_all zero (m ∷ rows) h = absurd (omega arith)
take_all (suc n) [] h = refl
take_all (suc n) (m ∷ rows) h = ap (λ r. m ∷ r) (take_all n rows (omega arith))

pub shown_cut :
    (posts : List SocialPostRow) (n : ℕ) (rows : List MetricRow)
    → map (shown posts) (take n rows) ++ map (shown posts) (drop n rows) ≡ map (shown posts) rows
unfolding take
shown_cut posts zero rows = refl
shown_cut posts (suc n) [] = refl
shown_cut posts (suc n) (m ∷ rows) = ap (λ r. shown posts m ∷ r) (shown_cut posts n rows)

pub length-drop :
    (n : ℕ) (rows : List MetricRow)
    → suc n < length rows
    → suc (length (drop (suc n) rows)) ≤ length rows
length-drop n [] h = absurd (omega arith)
length-drop zero (m ∷ rows) h = omega arith
length-drop (suc n) (m ∷ rows) h = omega (arith, length-drop n rows)
