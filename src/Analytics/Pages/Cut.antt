-- ===== src/Analytics/Pages/Cut.antt =====
-- Where a page of backend/src/analytics/pg-analytics.repository.ts ends: the rows after its last row are the rest.
use social_promotion_automat.Base.{
  All-member, ℕ, zero, suc, ◌<◌, true, false, Option, none, some, List, [], ◌∷◌, ◌≡◌, ◌≢◌, refl, ap,
  arith, select, length, All, Member, inl, inr, Pairwise, text_leb_total, text_leb_trans,
  text_leb_antisymm,
}
use social_promotion_automat.Dispatch.{take}
use social_promotion_automat.Analytics.{MetricRow}
use social_promotion_automat.Analytics.Dashboard.{Cursor, newer, is_after}
use social_promotion_automat.Analytics.Service.{last_row}

abbrev pub cursor_of : MetricRow → Cursor
cursor_of m = record { captured_at = m.analytics.captured_at; metric_id = m.id }

abbrev pub Differ : MetricRow → MetricRow → Type 0
Differ m n = m.id ≢ n.id

pub newer_total : (m n : MetricRow) → newer m n ≡ false → newer n m ≡ true
newer_total m n h = ground (arith, text_leb_total n.id m.id)

pub newer_trans : (m n o : MetricRow) → newer m n ≡ true → newer n o ≡ true → newer m o ≡ true
newer_trans m n o h k = ground (arith, text_leb_trans o.id n.id m.id)

-- Of two rows with different ids, the older comes after the newer one's cursor, and not the other way round.
newer-after :
    (m n : MetricRow) → Differ m n → newer m n ≡ true → is_after (some (cursor_of m)) n ≡ true
newer-after m n d h = ground (arith, text_leb_antisymm m.id n.id)

newer-not-after : (m n : MetricRow) → newer m n ≡ true → is_after (some (cursor_of n)) m ≡ false
newer-not-after m n h = ground arith

pub after_trans :
    (c : Option Cursor) (l m : MetricRow)
    → is_after c l ≡ true
    → is_after (some (cursor_of l)) m ≡ true
    → is_after c m ≡ true
after_trans none l m h k = refl
after_trans (some c) l m h k = ground (
  arith,
  text_leb_trans c.metric_id m.id l.id,
  text_leb_total c.metric_id m.id,
  text_leb_total l.id m.id,
  text_leb_trans c.metric_id l.id m.id,
  text_leb_trans l.id c.metric_id m.id,
)

abbrev pub drop {ℓ} : {A : Type ℓ} → ℕ → List A → List A
drop zero xs = xs
drop (suc n) [] = []
drop (suc n) (x ∷ xs) = drop n xs

abbrev Ordered : List MetricRow → Type 0
Ordered = Pairwise (λ m n. newer m n ≡ true)

after-All :
    (m : MetricRow) (rows : List MetricRow)
    → All (λ n. newer m n ≡ true) rows
    → All (Differ m) rows
    → select (is_after (some (cursor_of m))) rows ≡ rows
unfolding select
after-All m [] h d = refl
after-All m (n ∷ rows) h d =
    rw (newer-after m n d.0 h.0) (ap (λ r. n ∷ r) (after-All m rows h.1 d.1))

newer_refl : (m : MetricRow) → newer m m ≡ true
newer_refl m = ground (arith, text_leb_total m.id m.id)

-- A page that is not the last one ends with a row, after which come exactly the rows that the page leaves.
pub page_cut :
    (n : ℕ) (rows : List MetricRow)
    → suc n < length rows
    → Ordered rows
    → Pairwise Differ rows
    → (l : MetricRow) × (last_row (take (suc n) rows) ≡ some l)
      × Member l rows
      × (select (is_after (some (cursor_of l))) rows ≡ drop (suc n) rows)
unfolding last_row take select
page_cut n [] h o d = absurd (omega arith)
page_cut zero (m ∷ rows) h o d =
    (m, refl, inl refl, rw (newer-not-after m m (newer_refl m)) (after-All m rows o.0 d.0))
page_cut (suc n) (m ∷ rows) h o d =
    let (l, last, there, rest) = page_cut n rows (omega arith) o.1 d.1 in
    (
      l,
      rw last refl,
      inr there,
      rw (newer-not-after m l (All-member (λ k. newer m k ≡ true) l rows o.0 there)) rest,
    )
