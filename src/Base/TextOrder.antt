-- ===== src/Base/TextOrder.antt =====
-- The order of texts by their bytes is a linear order.
use Prim.Native.Char.{Char, code}
use Prim.Native.Nat.{Ordering, compare}
use Prim.Native.String
use Prim.Native.String.{String}
use Prim.Native.String.compare as clause
use mathlib.Core.Path.{◌≡◌, refl, ap, ◌∙◌}
use mathlib.Core.Bool.{true, false, ◌&&◌, ◌||◌}
use native.Mathlib.Omega.{arith}
use text.Mathlib.Text.{is_le}
use text.Mathlib.TextEquality.{Char-path}
use social_promotion_automat.Base.Tests.{ltb, ◌==◌}
use social_promotion_automat.Base.Order.{text_leb}

first_difference :
    (o r : Ordering)
    → is_le (String.then o r)
      ≡ (elim o [ Ordering.lt ↦ true | Ordering.eq ↦ is_le r | Ordering.gt ↦ false ])
first_difference Ordering.lt r = refl
first_difference Ordering.eq r = refl
first_difference Ordering.gt r = refl

text_leb-cons :
    (c d : Char) (s t : String)
    → text_leb (String.◌∷◌ c s) (String.◌∷◌ d t)
      ≡ (ltb (code c) (code d) || (code c == code d && text_leb s t))
text_leb-cons c d s t =
    ap is_le (clause.cons-cons c d s t)
    ∙ first_difference (compare (code c) (code d)) (String.compare s t)
    ∙ ground arith

pub text_leb_total : (s t : String) → text_leb s t ≡ false → text_leb t s ≡ true
text_leb_total String.[] String.[] h = ap is_le (clause.nil-nil)
text_leb_total String.[] (String.◌∷◌ d t) h = absurd (cc (h, ap is_le (clause.nil-cons d t)))
text_leb_total (String.◌∷◌ c s) String.[] h = ap is_le (clause.nil-cons c s)
text_leb_total (String.◌∷◌ c s) (String.◌∷◌ d t) h =
    ground (arith, text_leb-cons c d s t, text_leb-cons d c t s, text_leb_total s t)

pub text_leb_trans :
    (s t u : String) → text_leb s t ≡ true → text_leb t u ≡ true → text_leb s u ≡ true
text_leb_trans String.[] t String.[] h k = ap is_le (clause.nil-nil)
text_leb_trans String.[] t (String.◌∷◌ e u) h k = ap is_le (clause.nil-cons e u)
text_leb_trans (String.◌∷◌ c s) String.[] u h k = absurd (cc (h, ap is_le (clause.cons-nil c s)))
text_leb_trans (String.◌∷◌ c s) (String.◌∷◌ d t) String.[] h k =
    absurd (cc (k, ap is_le (clause.cons-nil d t)))
text_leb_trans (String.◌∷◌ c s) (String.◌∷◌ d t) (String.◌∷◌ e u) h k = ground (
  arith,
  text_leb-cons c d s t,
  text_leb-cons d e t u,
  text_leb-cons c e s u,
  text_leb_trans s t u,
)

pub text_leb_antisymm : (s t : String) → text_leb s t ≡ true → text_leb t s ≡ true → s ≡ t
text_leb_antisymm String.[] String.[] h k = refl
text_leb_antisymm String.[] (String.◌∷◌ d t) h k = absurd (cc (k, ap is_le (clause.cons-nil d t)))
text_leb_antisymm (String.◌∷◌ c s) String.[] h k = absurd (cc (h, ap is_le (clause.cons-nil c s)))
text_leb_antisymm (String.◌∷◌ c s) (String.◌∷◌ d t) h k =
    let same : code c ≡ code d = ground (arith, text_leb-cons c d s t, text_leb-cons d c t s) in
    let rest : s ≡ t =
      text_leb_antisymm s t (ground (arith, text_leb-cons c d s t, text_leb-cons d c t s))
        (ground (arith, text_leb-cons c d s t, text_leb-cons d c t s)) in
    cc (Char-path c d same, rest)
