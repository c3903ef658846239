-- ===== src/Retry.antt =====
-- backend/src/publishing/publish-retry.policy.ts and publish-failure.ts: how a failed publication
-- is classified, and how long it waits before it is tried again.
pub mod Laws
use social_promotion_automat.Base.{
  ℕ, suc, ◌-◌, min, max, String, Bool, true, false, ◌&&◌, ◌||◌, Option, none, some, List, [], ◌∷◌,
  leb, ◌==◌, ◌===◌, if◌then◌else◌, length, get_elem?,
}

pub data FailureCode : Type 0 where
  token_expired permission_denied rate_limited upstream_server_error network_error invalid_request
        unknown_error :
      FailureCode

-- The text of a code, as it is stored in `error_code`.
abbrev pub code_text : FailureCode → String
code_text FailureCode.token_expired = "TOKEN_EXPIRED"
code_text FailureCode.permission_denied = "PERMISSION_DENIED"
code_text FailureCode.rate_limited = "RATE_LIMITED"
code_text FailureCode.upstream_server_error = "UPSTREAM_SERVER_ERROR"
code_text FailureCode.network_error = "NETWORK_ERROR"
code_text FailureCode.invalid_request = "INVALID_REQUEST"
code_text FailureCode.unknown_error = "UNKNOWN_ERROR"

pub record PublishFailure : Type 0 where
  pub code : FailureCode
  pub retryable : Bool
  pub ambiguous : Bool
  pub message : String

-- What the classification reads of a thrown value: its HTTP status, whether it is a `TypeError`,
-- its `code` and its message, where it has one and is an `Error`.
pub record Thrown : Type 0 where
  pub status : Option ℕ
  pub is_type_error : Bool
  pub network_code : Option String
  pub message : Option String

-- `isNetworkCode`
unfoldable pub is_network_code : Option String → Bool
is_network_code none = false
is_network_code (some c) =
    c === "ECONNRESET"
    || c === "ECONNREFUSED"
    || c === "ETIMEDOUT"
    || c === "ENOTFOUND"
    || c === "EAI_AGAIN"

abbrev failure : FailureCode → Bool → Bool → String → PublishFailure
failure code retryable ambiguous message = record {
  code = code;
  retryable = retryable;
  ambiguous = ambiguous;
  message = message;
}

-- The two tests behind those on the status.
unfoldable pub classify_without_status : Thrown → String → PublishFailure
classify_without_status error message =
    if error.is_type_error || is_network_code error.network_code
    then failure FailureCode.network_error true true message
    else failure FailureCode.unknown_error true true message

unfoldable pub classify_status : ℕ → Thrown → String → PublishFailure
classify_status status error message =
    if status == 401
    then failure FailureCode.token_expired false false message
    else if status == 403
    then failure FailureCode.permission_denied false false message
    else if status == 429
    then failure FailureCode.rate_limited true false message
    else if leb 500 status
    then failure FailureCode.upstream_server_error true true message
    else if leb 400 status
    then failure FailureCode.invalid_request false false message
    else classify_without_status error message

-- `classifyPublishFailure`; `slice` is the first 500 characters of a message.
unfoldable pub classify_publish_failure : (String → String) → Thrown → PublishFailure
unfolding classify_status classify_without_status
classify_publish_failure slice error =
    let message : String = elim error.message [
      | none ↦ "Unknown publishing error."
      | some m ↦ slice m
    ] in
    elim error.status [
      | none ↦ classify_without_status error message
      | some status ↦ classify_status status error message
    ]

-- `PUBLISH_RETRY_DELAYS_MS`
abbrev pub publish_retry_delays_ms : List ℕ
publish_retry_delays_ms = 30000 ∷ 120000 ∷ 600000 ∷ []

abbrev pub publish_max_attempts : ℕ
publish_max_attempts = suc (length publish_retry_delays_ms)

-- `retryDelayForFailure`: an index outside the table throws, which is `none`. The index -1 of a
-- count of 0 is outside too.
unfoldable pub retry_delay_for_failure : ℕ → Option ℕ
retry_delay_for_failure failure_count =
    if failure_count == 0 then none else get_elem? publish_retry_delays_ms (failure_count - 1)

-- `retryDelayForBullMq`
unfoldable pub retry_delay_for_bull_mq : ℕ → Option ℕ
unfolding retry_delay_for_failure
retry_delay_for_bull_mq attempts_made =
    retry_delay_for_failure (min (max attempts_made 1) (length publish_retry_delays_ms))

-- `shouldRetryPublish`
unfoldable pub should_retry_publish : PublishFailure → ℕ → Bool
should_retry_publish failure failure_count =
    failure.retryable && leb failure_count (length publish_retry_delays_ms)
