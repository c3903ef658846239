-- ===== src/Adapters/X.antt =====
-- backend/src/publishing/x-api-usage.service.ts, with the types of adapters/x-http.client.ts and
-- x-credential.service.ts: the ledger of the requests that X bills, and the estimate of a cost.
pub mod Adapter
pub mod Reading
pub mod Accounting
pub mod Charges
pub mod Settled
pub mod Sends
pub mod Stages
pub mod Interleaving
pub mod Texts
pub mod Posting
use Prim.Native.String
use Prim.Native.Char.{code}
use social_promotion_automat.Base.{
  ℕ, suc, ◌+◌, String, Bool, true, false, not, ◌&&◌, ◌||◌, Option, none, some, List, [], ◌∷◌, ◌===◌,
  ◌==◌, if◌then◌else◌, leb, ltb, truthy, truthy?, or_else, update, select, length, find,
}
use social_promotion_automat.Entity.{SocialPlatform, MediaType, PostMedia}
use social_promotion_automat.Entity.Equality.{same_platform}
use social_promotion_automat.Retry.{Thrown}
use social_promotion_automat.Account.{includes}
use social_promotion_automat.Analytics.{Counts, PostAnalytics}
use social_promotion_automat.Publishing.{
  Attempt, returned, threw, SocialPost, PublishResult, SocialPostResult, RemoteStatus,
}
use social_promotion_automat.Formatting.{trim}
use social_promotion_automat.Adapters.{
  Act, lift, and_then, throw_if, ◌>>=◌, ◌>>◌, type_error, forbidden, not_implemented, unavailable,
  Json, boolean, Fields, get, nullish, object_of, string_of, number_of, numeric_provider_metrics,
  assert_analytics_have_values, Runtime, base_url, analytics_url, body_and_link,
}

-- `XUsageOperation`
pub data XUsageOperation : Type 0 where
  post_create post_create_with_url media_upload post_read post_delete : XUsageOperation

-- `XUsageOutcome`
pub data XUsageOutcome : Type 0 where
  reserved succeeded failed : XUsageOutcome

-- A row of `x_api_usage_ledger`.
pub record LedgerRow : Type 0 where
  pub id : String
  pub social_account_id : String
  pub operation : XUsageOperation
  pub estimated_cost_microusd : ℕ
  pub pricing_version : String
  pub outcome : XUsageOutcome
  pub external_reference : Option String
  pub settled_at : Option ℕ

-- The body of a request.
pub data XBody : Type 0 where
  no_body : XBody
  post_body : String → List String → XBody
  media_body : String → String → XBody

pub data XMethod : Type 0 where
  get_method post_method delete_method : XMethod

-- `XHttpRequest`
pub record XRequest : Type 0 where
  pub method : XMethod
  pub url : String
  pub access_token : String
  pub body : XBody
  pub parameters : List (String × String)

-- The ledger and the requests that were sent, newest first.
pub record XState : Type 0 where
  pub ledger : List LedgerRow
  pub requests : List XRequest

-- `XPublishingCredential`
pub record XCredential : Type 0 where
  pub social_account_id : String
  pub x_user_id : String
  pub access_token : String
  pub scope : List String

-- How far an upload has come: nothing was reserved for it, it is reserved, its request was sent, or it is over.
pub data Progress : Type 0 where
  not_begun reserved_only sent_only finished : Progress

-- What the adapter is given. An answer may depend on everything that was done before: the credential of an account, the
-- body of X's answer, a medium's content, whether a query throws, the id of a new row, and the two clocks;
-- and how far the upload of a medium has come when another one fails.
pub record XProvider : Type 0 where
  pub resolve : XState → String → Attempt XCredential
  pub request : XState → XRequest → Attempt Json
  pub read_media : XState → PostMedia → Attempt String
  pub query_error : XState → Option Thrown
  pub new_id : XState → String
  pub now : XState → ℕ
  pub progress : XState → PostMedia → Progress

-- `WHERE id = $1 AND outcome = 'reserved'`
unfoldable pub is_open : String → LedgerRow → Bool
is_open id row = elim row.outcome [ XUsageOutcome.reserved ↦ row.id === id | _ ↦ false ]

unfoldable pub settled_row : XUsageOutcome → Option String → ℕ → LedgerRow → LedgerRow
settled_row outcome external_reference now row = record row {
  outcome = outcome;
  external_reference = external_reference;
  settled_at = some now;
}

module _ (rt : Runtime) (provider : XProvider) where
  -- `db`, and a query that may throw.
  abbrev database_answer : XState → Attempt (Unit {0})
  database_answer s =
      if truthy? (rt.env "DATABASE_URL")
      then elim (provider.query_error s) [ none ↦ returned tt | some e ↦ threw e ]
      else threw (unavailable "X API cost ledger database persistence is not configured.")

  unfoldable pub database : Act XState (Unit {0})
  database s = (database_answer s, s)

  -- `INSERT INTO x_api_usage_ledger … RETURNING id`
  unfoldable pub insert_reservation : String → XUsageOperation → ℕ → String → Act XState String
  insert_reservation social_account_id operation cost pricing_version s =
      let id = provider.new_id s in
      let row : LedgerRow = record {
        id = id;
        social_account_id = social_account_id;
        operation = operation;
        estimated_cost_microusd = cost;
        pricing_version = pricing_version;
        outcome = XUsageOutcome.reserved;
        external_reference = none;
        settled_at = none;
      } in
      (returned id, record s { ledger = row ∷ s.ledger })

  -- `reserve`; it gives the id of the reservation.
  unfoldable pub reserve : String → XUsageOperation → ℕ → String → Act XState String
  reserve social_account_id operation cost pricing_version = do
    database
    id ← insert_reservation social_account_id operation cost pricing_version
    throw_if (not (truthy id)) (unavailable "X API usage reservation returned no ID.")
    lift (returned id)

  unfoldable pub update_reservation : String → XUsageOutcome → Option String → Act XState (Unit {0})
  update_reservation id outcome external_reference s = (
    returned tt,
    record s {
      ledger =
          update (is_open id) (settled_row outcome external_reference (provider.now s)) s.ledger;
    },
  )

  -- `settle`
  unfoldable pub settle_reservation : String → XUsageOutcome → Option String → Act XState (Unit {0})
  settle_reservation id outcome external_reference =
      database >> update_reservation id outcome external_reference

abbrev operation_text : XUsageOperation → String
operation_text XUsageOperation.post_create = "POST_CREATE"
operation_text XUsageOperation.post_create_with_url = "POST_CREATE_WITH_URL"
operation_text XUsageOperation.media_upload = "MEDIA_UPLOAD"
operation_text XUsageOperation.post_read = "POST_READ"
operation_text XUsageOperation.post_delete = "POST_DELETE"

module _ (rt : Runtime) where
  -- `positiveInteger`; `Number(undefined)` is no number.
  unfoldable pub positive_integer : String → Attempt ℕ
  positive_integer name = elim (rt.env name) [
    | none ↦
        threw (unavailable (String.◌++◌ name " must be a non-negative integer micro-USD value."))
    | some raw ↦ elim (rt.safe_integer raw) [
      | none ↦
          threw (unavailable (String.◌++◌ name " must be a non-negative integer micro-USD value."))
      | some value ↦ returned value
    ]
  ]

  -- `optionalPositiveInteger`
  unfoldable pub optional_positive_integer : String → Attempt (Option ℕ)
  optional_positive_integer name =
      if truthy? (rt.env name)
      then elim (rt.safe_integer (or_else (rt.env name) "")) [
        | none ↦
            threw
              (unavailable (String.◌++◌ name " must be a non-negative integer micro-USD value."))
        | some value ↦ returned (some value)
      ]
      else returned none

  abbrev exceeds : ℕ → Option ℕ → Bool
  exceeds amount none = false
  exceeds amount (some maximum) = ltb maximum amount

  -- The last two tests of `estimate`.
  unfoldable pub quote_of : ℕ → Option ℕ → Attempt (ℕ × String)
  quote_of amount maximum =
      if exceeds amount maximum
      then threw
          (unavailable "The estimated X API request cost exceeds the configured per-request cap.")
      else if truthy (trim (or_else (rt.env "X_API_PRICING_VERSION") ""))
      then returned (amount, or_else (rt.env "X_API_PRICING_VERSION") "")
      else threw
          (unavailable "X_API_PRICING_VERSION must identify the verified X pricing snapshot.")

  -- `estimate`: the cost and the version of the prices.
  unfoldable pub estimate : XUsageOperation → Attempt (ℕ × String)
  estimate operation =
      and_then
        (positive_integer
          (String.◌++◌ "X_API_COST_" (String.◌++◌ (operation_text operation) "_MICRO_USD")))
        (λ amount.
          and_then (optional_positive_integer "X_API_MAX_ESTIMATED_COST_MICRO_USD_PER_REQUEST")
            (λ maximum. quote_of amount maximum))
