-- ===== src/Analytics/Cursor.antt =====
-- `encodeCursor` and `decodeCursor` of backend/src/analytics/analytics.service.ts.
use Prim.Native.Char.{code}
use social_promotion_automat.Base.{
  ℕ, String, Bool, true, false, ◌&&◌, ◌||◌, Option, none, some, List, [], ◌∷◌, ◌++◌, if◌then◌else◌,
  leb, ◌==◌, ◌≡◌, refl,
}
use social_promotion_automat.Analytics.Dashboard.{Cursor}

-- What `JSON.parse` makes of a text: the members `capturedAt` and `metricId` of an object, each of them where it is a text,
-- or a value that is no object.
pub data Parsed : Type 0 where
  no_object : Parsed
  members : Option String → Option String → Parsed

-- The functions of the language and of Node.js: `toISOString`, `new Date` of a text with `none` for an invalid date,
-- `JSON.stringify` of the object with the two members, `JSON.parse` with `none` for an exception, and `base64url`.
pub record CursorRuntime : Type 0 where
  pub to_iso : ℕ → String
  pub date : String → Option ℕ
  pub stringify : String → String → String
  pub parse : String → Option Parsed
  pub to_base64url : String → String
  pub from_base64url : String → String

abbrev pub between : ℕ → ℕ → ℕ → Bool
between low high c = leb low c && leb c high

-- `[0-9a-f]` under the flag `i`
abbrev pub is_hex : ℕ → Bool
is_hex c = between 48 57 c || (between 97 102 c || between 65 70 c)

-- `[1-5]`
abbrev pub is_version : ℕ → Bool
is_version c = between 49 53 c

-- `[89ab]` under the flag `i`
abbrev pub is_variant : ℕ → Bool
is_variant c = (c == 56) || ((c == 57) || (between 97 98 c || between 65 66 c))

abbrev pub is_dash : ℕ → Bool
is_dash c = c == 45

-- A pattern that is matched to the end of a text.
unfoldable pub matches_all : List (ℕ → Bool) → String → Bool
matches_all [] String.[] = true
matches_all [] (String.◌∷◌ c s) = false
matches_all (p ∷ ps) String.[] = false
matches_all (p ∷ ps) (String.◌∷◌ c s) = let rest = matches_all ps s in p (code c) && rest

abbrev hex4 : List (ℕ → Bool)
hex4 = is_hex ∷ is_hex ∷ is_hex ∷ is_hex ∷ []

abbrev pub uuid_pattern : List (ℕ → Bool)
uuid_pattern =
    hex4
    ++ (hex4
        ++ (is_dash
            ∷ (hex4
                ++ (is_dash
                    ∷ is_version
                    ∷ is_hex
                    ∷ is_hex
                    ∷ is_hex
                    ∷ is_dash
                    ∷ is_variant
                    ∷ is_hex
                    ∷ is_hex
                    ∷ is_hex
                    ∷ is_dash
                    ∷ (hex4 ++ (hex4 ++ hex4))))))

-- `/^[0-9a-f]{8}-[0-9a-f]{4}-[1-5][0-9a-f]{3}-[89ab][0-9a-f]{3}-[0-9a-f]{12}$/i`
unfoldable pub is_uuid : String → Bool
is_uuid = matches_all uuid_pattern

module _ (rt : CursorRuntime) where
  -- `encodeCursor`
  unfoldable pub encode_cursor : Cursor → String
  encode_cursor c = rt.to_base64url (rt.stringify (rt.to_iso c.captured_at) c.metric_id)

  -- The members of a cursor that was parsed; `none` where the code throws.
  unfoldable pub cursor_of_members : Option String → Option String → Option Cursor
  cursor_of_members none metric_id = none
  cursor_of_members (some captured_at) none = none
  cursor_of_members (some captured_at) (some metric_id) = elim (rt.date captured_at) [
    | none ↦ none
    | some instant ↦
        if is_uuid metric_id
        then some (record { captured_at = instant; metric_id = metric_id })
        else none
  ]

  -- `decodeCursor`; `none` is the exception that the request is bad.
  unfoldable pub decode_cursor : String → Option Cursor
  decode_cursor value = elim (rt.parse (rt.from_base64url value)) [
    | none ↦ none
    | some no_object ↦ none
    | some (members captured_at metric_id) ↦ cursor_of_members captured_at metric_id
  ]

  -- What was encoded is decoded, where the functions of the language read back what they write of the cursor.
  pub decode-encode :
      (c : Cursor)
      → rt.from_base64url (encode_cursor c) ≡ rt.stringify (rt.to_iso c.captured_at) c.metric_id
      → rt.parse (rt.stringify (rt.to_iso c.captured_at) c.metric_id)
        ≡ some (members (some (rt.to_iso c.captured_at)) (some c.metric_id))
      → rt.date (rt.to_iso c.captured_at) ≡ some c.captured_at
      → is_uuid c.metric_id ≡ true
      → decode_cursor (encode_cursor c) ≡ some c
  unfolding decode_cursor cursor_of_members
  decode-encode c base64 json date id =
      rw (base64, decode_cursor)
        (rw (json, decode_cursor) (rw (date, cursor_of_members) (rw id refl)))
