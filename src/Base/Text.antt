-- ===== src/Base/Text.antt =====
-- Whole texts: identifiers, keys and messages. JavaScript's truthiness of a text that may be null.
use Prim.Native.String.{String}
use mathlib.Core.Bool.{Bool, true, false, not}
use mathlib.Core.Option.{Option, none, some}
use text.Mathlib.Text.{◌==◌}
pub use text.Mathlib.TextEquality.{eq_iff}
pub use text.Mathlib.TextPositions.{eq_refl}

infix 50 ◌===◌
abbrev pub ◌===◌ : String → String → Bool
s === t = s == t

-- `Boolean(text)`: the empty text is false.
abbrev pub truthy : String → Bool
truthy s = not (s === "")

-- `Boolean(text)` where the text may be null.
abbrev pub truthy? : Option String → Bool
truthy? none = false
truthy? (some s) = truthy s

-- `o ?? d`, `COALESCE(o, d)`
abbrev pub or_else {ℓ} : {A : Type ℓ} → Option A → A → A
or_else none d = d
or_else (some a) d = a

-- `COALESCE(o, p)` where both may be null.
abbrev pub coalesce {ℓ} : {A : Type ℓ} → Option A → Option A → Option A
coalesce none p = p
coalesce (some a) p = some a

abbrev pub is_none {ℓ} : {A : Type ℓ} → Option A → Bool
is_none none = true
is_none (some a) = false

abbrev pub is_some {ℓ} : {A : Type ℓ} → Option A → Bool
is_some o = not (is_none o)
