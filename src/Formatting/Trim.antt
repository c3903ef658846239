-- ===== src/Formatting/Trim.antt =====
-- The lengths of texts that are trimmed, cut and joined as in backend/src/publishing/formatters/text-formatting.ts.
use Prim.Native.String
use Prim.Native.String.count
use social_promotion_automat.Base.{
  ℕ, zero, suc, ◌≤◌, String, Bool, true, false, not, ◌&&◌, arith, if◌then◌else◌, truthy,
}
use social_promotion_automat.Formatting.{is_white, take_characters, trim, trim_end, trim_start}

pub count-trim_end : (s : String) → String.count (trim_end s) ≤ String.count s
unfolding trim_end
count-trim_end String.[] = omega arith
count-trim_end (String.◌∷◌ c s) = go (is_white c && not (truthy (trim_end s))) (count-trim_end s)
  where
    go :
        (b : Bool)
        → String.count (trim_end s) ≤ String.count s
        → String.count (if b then String.[] else String.◌∷◌ c (trim_end s))
          ≤ String.count (String.◌∷◌ c s)
    go true h = omega (arith, count.nil)
    go false h = omega (arith, count.cons c s, count.cons c (trim_end s))

count-trim_start : (s : String) → String.count (trim_start s) ≤ String.count s
unfolding trim_start
count-trim_start String.[] = omega arith
count-trim_start (String.◌∷◌ c s) = go (is_white c) (count-trim_start s)
  where
    go :
        (b : Bool)
        → String.count (trim_start s) ≤ String.count s
        → String.count (if b then trim_start s else String.◌∷◌ c s) ≤ String.count (String.◌∷◌ c s)
    go true h = omega (arith, h, count.cons c s)
    go false h = omega arith

pub count-trim : (s : String) → String.count (trim s) ≤ String.count s
count-trim s = omega (arith, count-trim_end (trim_start s), count-trim_start s)

pub count-take_characters : (n : ℕ) (s : String) → String.count (take_characters n s) ≤ n
unfolding take_characters
count-take_characters zero s = omega (arith, count.nil)
count-take_characters (suc n) String.[] = omega (arith, count.nil)
count-take_characters (suc n) (String.◌∷◌ c s) =
    omega (arith, count.cons c (take_characters n s), count-take_characters n s)
