-- ===== src/Adapters.antt =====
-- What the adapters of backend/src/publishing/adapters share: calls that may throw and change a state, the values of
-- JSON, the environment, and backend/src/publishing/adapters/analytics-metrics.ts.
pub mod Laws
pub mod Credential
pub mod X
pub mod Threads
use Prim.Native.String
use Prim.Native.Char.{code}
use package.text.Mathlib.Text.{starts_with}
use social_promotion_automat.Base.{
  ℕ, zero, suc, ◌+◌, String, Bool, true, false, not, ◌&&◌, ◌||◌, Option, none, some, List, [], ◌∷◌,
  ◌===◌, ◌==◌, if◌then◌else◌, leb, ltb, truthy, truthy?, or_else, is_some, select,
}
use social_promotion_automat.Entity.{PostMedia}
use social_promotion_automat.Retry.{Thrown}
use social_promotion_automat.Publishing.{Attempt, returned, threw, SocialPost}
use social_promotion_automat.Analytics.{Counts, RawValue, PostAnalytics}
use social_promotion_automat.Formatting.{trim, join}

-- The exceptions: NestJS's have a status.
abbrev pub type_error : String → Thrown
type_error m = record { status = none; is_type_error = true; network_code = none; message = some m }

abbrev pub http_exception : ℕ → String → Thrown
http_exception n m = record {
  status = some n;
  is_type_error = false;
  network_code = none;
  message = some m;
}

abbrev pub forbidden : String → Thrown
forbidden m = http_exception 403 m

abbrev pub not_implemented : String → Thrown
not_implemented m = http_exception 501 m

abbrev pub unavailable : String → Thrown
unavailable m = http_exception 503 m

-- What follows a call that came through.
abbrev pub and_then : {A B : Type 0} → Attempt A → (A → Attempt B) → Attempt B
and_then m f = elim m [ threw e ↦ threw e | returned a ↦ f a ]

-- A method: a state comes back after an exception too.
abbrev pub Act : Type 0 → Type 0 → Type 0
Act S A = S → Attempt A × S

module _ {S : Type 0} where
  abbrev pub lift : {A : Type 0} → Attempt A → Act S A
  lift a s = (a, s)

  infixl 5 ◌>>=◌ ◌>>◌
  unfoldable pub ◌>>=◌ : {A B : Type 0} → Act S A → (A → Act S B) → Act S B
  ◌>>=◌ m f s = let (r, s') = m s in elim r [ returned a ↦ f a s' | threw e ↦ (threw e, s') ]

  abbrev pub ◌>>◌ : {A B : Type 0} → Act S A → Act S B → Act S B
  m >> k = m >>= λ _. k

  -- `if (b) throw e;`
  abbrev pub throw_if : Bool → Thrown → Act S (Unit {0})
  throw_if b e = lift (if b then threw e else returned tt)

-- A value that `JSON.parse` gives. A number is whole and not negative, or one that is not counted.
mutual
  pub data Json : Type 0 where
    null : Json
    boolean : Bool → Json
    number : ℕ → Json
    other_number : Json
    text : String → Json
    array : Items → Json
    object : Fields → Json

  pub data Items : Type 0 where
    end_of_items : Items
    item : Json → Items → Items

  pub data Fields : Type 0 where
    no_members : Fields
    field : String → Json → Fields → Fields

-- `value.key`; none is `undefined`
unfoldable pub get : String → Fields → Option Json
get key no_members = none
get key (field k v fields) = if k === key then some v else get key fields

-- `value ?? other`
abbrev pub nullish : Option Json → Option Json → Option Json
nullish none other = other
nullish (some null) other = other
nullish (some v) other = some v

-- `object`
unfoldable pub object_of : String → Option Json → Attempt Fields
object_of platform_name (some (object fields)) = returned fields
object_of platform_name _ =
    threw (unavailable (String.◌++◌ platform_name " API returned an invalid JSON response."))

-- `string`
unfoldable pub string_of : Option Json → Option String
string_of (some (text s)) = if truthy s then some s else none
string_of _ = none

-- `number`
unfoldable pub number_of : Option Json → Option ℕ
number_of (some (number n)) = some n
number_of _ = none

-- `numericProviderMetrics`
unfoldable pub numeric_provider_metrics : Fields → List (String × RawValue)
numeric_provider_metrics no_members = []
numeric_provider_metrics (field k v fields) =
    let rest = numeric_provider_metrics fields in
    elim v [ number n ↦ (k, RawValue.count n) ∷ rest | _ ↦ rest ]

abbrev has_count : Counts → Bool
has_count c =
    is_some c.impressions
    || (is_some c.reach
        || (is_some c.views
            || (is_some c.likes
                || (is_some c.comments
                    || (is_some c.shares || (is_some c.reposts || is_some c.clicks))))))

-- `assertAnalyticsHaveValues`
unfoldable pub assert_analytics_have_values : PostAnalytics → String → Attempt PostAnalytics
assert_analytics_have_values metrics provider =
    if has_count metrics.counts || elim metrics.raw_metrics [ [] ↦ false | m ∷ ms ↦ true ]
    then returned metrics
    else threw (type_error (String.◌++◌ provider " analytics response has no numeric metrics."))

pub record Url : Type 0 where
  pub protocol : String
  pub href : String

-- The environment's variables, `new URL` (none where it throws), `encodeURIComponent`, and `Number` of a text where
-- that is a safe integer that is not negative.
pub record Runtime : Type 0 where
  pub env : String → Option String
  pub parse_url : String → Option Url
  pub encode_component : String → String
  pub safe_integer : String → Option ℕ

-- `text.replace(/\/$/, '')`
unfoldable pub drop_last_slash : String → String
drop_last_slash String.[] = String.[]
drop_last_slash (String.◌∷◌ c s) =
    let rest = drop_last_slash s in
    if code c == 47 && not (truthy s) then String.[] else String.◌∷◌ c rest

unfoldable pub drop_characters : ℕ → String → String
drop_characters zero s = s
drop_characters (suc n) String.[] = String.[]
drop_characters (suc n) (String.◌∷◌ c s) = drop_characters n s

-- `text.replace(pattern, replacement)`: the first place only.
unfoldable pub replace_first : String → String → String → String
replace_first pattern replacement String.[] = String.[]
replace_first pattern replacement (String.◌∷◌ c s) =
    let rest = replace_first pattern replacement s in
    if starts_with (String.◌∷◌ c s) pattern
    then String.◌++◌ replacement (drop_characters (String.count pattern) (String.◌∷◌ c s))
    else String.◌∷◌ c rest

abbrev invalid_url : Thrown
invalid_url = record {
  status = none;
  is_type_error = true;
  network_code = some "ERR_INVALID_URL";
  message = some "Invalid URL";
}

-- `baseUrl`, of the variable that holds it.
unfoldable pub base_url : Runtime → String → Attempt String
base_url rt variable =
    if truthy? (rt.env variable)
    then elim (rt.parse_url (or_else (rt.env variable) "")) [
      | none ↦ threw invalid_url
      | some url ↦
          if url.protocol === "https:"
          then returned (drop_last_slash url.href)
          else threw (unavailable (String.◌++◌ variable " must use HTTPS."))
    ]
    else threw (unavailable (String.◌++◌ variable " is not configured."))

-- `https`
unfoldable pub https_url : Runtime → String → String → Attempt String
https_url rt platform_name value = elim (rt.parse_url value) [
  | none ↦ threw invalid_url
  | some url ↦
      if url.protocol === "https:"
      then returned url.href
      else threw (type_error (String.◌++◌ platform_name " media URLs must use HTTPS."))
]

-- `template.replace('{postId}', encodeURIComponent(remotePostId))` of the template in a variable.
unfoldable pub analytics_url : Runtime → String → String → Attempt String
analytics_url rt variable remote_post_id =
    if truthy? (rt.env variable)
    then returned (
        replace_first "{postId}" (rt.encode_component remote_post_id)
          (or_else (rt.env variable) ""))
    else threw (not_implemented (String.◌++◌ variable " configuration is required."))

-- `[post.body.trim(), post.destinationUrl].filter(Boolean).join('\n')`
unfoldable pub body_and_link : SocialPost → String
body_and_link post =
    join "\n" (select truthy (trim post.body ∷ or_else post.destination_url "" ∷ []))
