-- ===== src/Formatting/Bounds.antt =====
-- The lengths of the texts of backend/src/publishing/formatters.
use Prim.Native.String
use Prim.Native.String.count
use text.Mathlib.TextLemmas
use social_promotion_automat.Base.{
  ℕ, suc, ◌+◌, ◌-◌, ◌≤◌, max, String, ◌≡◌, refl, arith, leb, Bool-cases, inl, inr,
}
use social_promotion_automat.Formatting.{
  trim, trim_end, take_characters, compact, Original, title_and_message, x_text, url_length,
}
use social_promotion_automat.Formatting.Trim.{count-trim_end, count-take_characters}

ellipsis_count : String.count "…" ≡ 1
ellipsis_count = refl

cut_count :
    (s : String) (n : ℕ) → String.count (String.◌++◌ (trim_end (take_characters n s)) "…") ≤ suc n
cut_count s n = omega (
  arith,
  TextLemmas.length-append (trim_end (take_characters n s)) "…",
  ellipsis_count,
  count-trim_end (take_characters n s),
  count-take_characters n s,
)

-- `compact` keeps to its bound of characters, the ellipsis included, from two on.
pub compact_bounded : (text : String) (n : ℕ) → 2 ≤ n → String.count (compact text n) ≤ n
unfolding compact
compact_bounded text n two = elim (Bool-cases (leb (String.count (trim text)) n)) [
  | inl fits ↦ rw fits (ground arith)
  | inr long ↦ rw long (omega (arith, two, cut_count (trim text) (max 1 (n - 1))))
]

-- The post of X with its link is of at most 280 characters, for a link of at most 277.
pub x_text_fits :
    (i : Original) → url_length i.url ≤ 278 → String.count (x_text i) + url_length i.url ≤ 280
unfolding x_text
x_text_fits i h = omega (
  arith,
  h,
  compact_bounded (title_and_message i) (max 1 (280 - url_length i.url)) (omega (arith, h)),
)
