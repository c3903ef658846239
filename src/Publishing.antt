-- ===== src/Publishing.antt =====
-- backend/src/publishing/publishing.service.ts, with the types of
-- backend/src/publishing/adapters/social-adapter.interface.ts. An adapter is a parameter: what it answers
-- may depend on every call that was made before.
pub mod Worker
use social_promotion_automat.Base.{
  ℕ, suc, ◌+◌, String, Bool, true, false, not, ◌&&◌, ◌||◌, Option, none, some, List, [], ◌∷◌,
  if◌then◌else◌, or_else, truthy, truthy?,
}
use social_promotion_automat.Entity.{SocialPlatform, JobStatus, PostMedia, Post, PublishJob}
use social_promotion_automat.Entity.Equality.{same_platform, same_status}
use social_promotion_automat.Retry.{
  FailureCode, code_text, PublishFailure, Thrown, classify_publish_failure,
}
use social_promotion_automat.Store.{Db}

pub record SocialPost : Type 0 where
  pub local_post_id : String
  pub social_account_id : String
  pub platform : SocialPlatform
  pub title : String
  pub body : String
  pub destination_url : Option String
  pub media : List PostMedia

pub record PublishResult : Type 0 where
  pub remote_post_id : String
  pub remote_post_url : Option String
  pub published_at : ℕ

pub data PublishReconciliation : Type 0 where
  confirmed : PublishResult → PublishReconciliation
  not_found unknown unsupported : PublishReconciliation

pub data RemoteStatus : Type 0 where
  published not_found deleted unknown : RemoteStatus

pub record SocialPostResult : Type 0 where
  pub remote_post_id : String
  pub remote_post_url : Option String
  pub status : RemoteStatus

-- What a call of code outside this process comes to.
pub data Attempt (A : Type 0) : Type 0 where
  returned : A → Attempt A
  threw : Thrown → Attempt A

-- The external calls, newest first.
pub data Call : Type 0 where
  publish_call : SocialPost → String → Call
  reconcile_call : SocialPost → String → Call
  get_post_call : String → String → Call

pub record SocialAdapter : Type 0 where
  pub platform : SocialPlatform
  pub supports_idempotent_publish : Bool
  pub publish : List Call → SocialPost → String → Attempt PublishResult
  pub reconcile_publish : Option (List Call → SocialPost → String → Attempt PublishReconciliation)
  pub get_post : List Call → String → String → Attempt SocialPostResult

-- The tables, the external calls made so far, and the number of times that the clock was read.
pub record World : Type 0 where
  pub db : Db
  pub calls : List Call
  pub ticks : ℕ

-- `adaptersByPlatform.get(platform)`: of two adapters for one platform the later is kept.
unfoldable pub adapter_for : List SocialAdapter → SocialPlatform → Option SocialAdapter
adapter_for [] p = none
adapter_for (a ∷ adapters) p = elim (adapter_for adapters p) [
  | some later ↦ some later
  | none ↦ if same_platform a.platform p then some a else none
]

-- `PublishExecution`; the `error` of a failure is its message, where it is an `Error`.
pub data PublishExecution : Type 0 where
  succeeded : PublishJob → PublishResult → PublishExecution
  failed : PublishJob → Option String → PublishFailure → PublishExecution

-- `fail`
abbrev pub fail_job : PublishJob → String → String → PublishJob
fail_job job error_code error_message = record job {
  status = JobStatus.failed;
  error_code = some error_code;
  error_message = some error_message;
  retry_count = job.retry_count + 1;
  lease_expires_at = none;
  next_retry_at = none;
}

-- The job of a successful execution.
abbrev pub succeeded_job : PublishJob → PublishResult → PublishJob
succeeded_job job result = record job {
  status = JobStatus.remote_confirmed;
  published_at = some result.published_at;
  remote_post_id = some result.remote_post_id;
  remote_post_url = result.remote_post_url;
  error_code = none;
  error_message = none;
  lease_expires_at = none;
}

abbrev invalid_request : String → PublishFailure
invalid_request message = record {
  code = FailureCode.invalid_request;
  retryable = false;
  ambiguous = false;
  message = message;
}

abbrev no_remote_post_id : Thrown
no_remote_post_id = record {
  status = none;
  is_type_error = false;
  network_code = none;
  message = some "Adapter returned no remotePostId.";
}

-- The `try` of `publish`, on what the adapter's call came to.
unfoldable pub conclude : (String → String) → PublishJob → Attempt PublishResult → PublishExecution
conclude slice job (returned result) =
    if truthy result.remote_post_id
    then succeeded (succeeded_job job result) result
    else (let f = classify_publish_failure slice no_remote_post_id in
        failed (fail_job job (code_text f.code) f.message) no_remote_post_id.message f)
conclude slice job (threw error) =
    let f = classify_publish_failure slice error in
    failed (fail_job job (code_text f.code) f.message) error.message f

-- `PublishReconciliation` of a known remote post, on what `getPost` came to.
unfoldable pub reconcile_known : PublishJob → ℕ → Attempt SocialPostResult → PublishReconciliation
reconcile_known job now (threw error) = PublishReconciliation.unknown
reconcile_known job now (returned remote) = elim remote.status [
  | RemoteStatus.published ↦ PublishReconciliation.confirmed (record {
    remote_post_id = remote.remote_post_id;
    remote_post_url = if truthy? remote.remote_post_url then remote.remote_post_url else none;
    published_at = or_else job.published_at now;
  })
  | RemoteStatus.not_found ↦ PublishReconciliation.not_found
  | RemoteStatus.deleted ↦ PublishReconciliation.not_found
  | RemoteStatus.unknown ↦ PublishReconciliation.unknown
]

unfoldable pub reconcile_answer : Attempt PublishReconciliation → PublishReconciliation
reconcile_answer (threw error) = PublishReconciliation.unknown
reconcile_answer (returned r) = r

module _ (clock : ℕ → ℕ) (adapters : List SocialAdapter) (format : Post → PublishJob → SocialPost)
    (slice : String → String) where
  -- The call of the adapter in `publish`, under the key.
  unfoldable pub call_publish :
      SocialAdapter → Post → PublishJob → String → World → PublishExecution × World
  call_publish adapter post job key w =
      let p = format post job in
      (
        conclude slice job (adapter.publish w.calls p key),
        record w { calls = publish_call p key ∷ w.calls },
      )

  unfoldable pub publish_with :
      Option SocialAdapter → Post → PublishJob → String → World → PublishExecution × World
  publish_with none post job key w =
      let message : String = "No platform adapter is registered." in
      (failed (fail_job job "INVALID_REQUEST" message) (some message) (invalid_request message), w)
  publish_with (some adapter) post job key w = call_publish adapter post job key w

  -- `publish`
  unfoldable pub publish : Post → PublishJob → World → PublishExecution × World
  publish post job w =
      let message : String =
        "Only a remote-requesting job with a stable request key may be published." in
      if not (same_status job.status JobStatus.remote_requesting)
        || not (truthy? job.remote_request_key)
      then (failed job (some message) (invalid_request message), w)
      else publish_with (adapter_for adapters job.platform) post job
          (or_else job.remote_request_key "") w

  unfoldable pub reconcile_with :
      SocialAdapter → Post → PublishJob → String → World → PublishReconciliation × World
  reconcile_with adapter post job key w =
      let p = format post job in
      let remote_id = or_else job.remote_post_id "" in
      if truthy? job.remote_post_id
      then (
        reconcile_known job (clock w.ticks) (adapter.get_post w.calls remote_id job.account_id),
        record w { calls = get_post_call remote_id job.account_id ∷ w.calls; ticks = suc w.ticks },
      )
      else elim adapter.reconcile_publish [
        | none ↦ (PublishReconciliation.unsupported, w)
        | some ask ↦ (
          reconcile_answer (ask w.calls p key),
          record w { calls = reconcile_call p key ∷ w.calls },
        )
      ]

  -- `reconcile`
  unfoldable pub reconcile : Post → PublishJob → World → PublishReconciliation × World
  reconcile post job w = elim (adapter_for adapters job.platform) [
    | none ↦ (PublishReconciliation.unsupported, w)
    | some adapter ↦
        if truthy? job.remote_request_key
        then reconcile_with adapter post job (or_else job.remote_request_key "") w
        else (PublishReconciliation.unsupported, w)
  ]

  -- `canSafelyRepeatRemoteRequest`
  unfoldable pub can_safely_repeat_remote_request : SocialPlatform → Bool
  can_safely_repeat_remote_request platform = elim (adapter_for adapters platform) [
    | none ↦ false
    | some adapter ↦ adapter.supports_idempotent_publish
  ]
