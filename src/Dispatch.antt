-- ===== src/Dispatch.antt =====
-- The outbox statements of backend/src/publishing/pg-publish-outbox.repository.ts, and
-- backend/src/publishing/publishing.queue.ts, which hands the outbox over to the queue.
pub mod Laws
use social_promotion_automat.Base.{
  ℕ, zero, suc, ◌+◌, String, Bool, true, false, not, ◌&&◌, ◌||◌, Option, none, some, List, [], ◌∷◌,
  ◌===◌, if◌then◌else◌, leb, ltb, ◌==◌, is_none, update, select, any, or_else, text_leb, order_by,
}
use social_promotion_automat.Entity.{SocialPlatform, Post, PublishJob}
use social_promotion_automat.Store.{OutboxRow, Db, find_job, find_post, due_or_null}

-- `PublishQueueRecord`
pub record QueueRecord : Type 0 where
  pub publish_job_id : String
  pub queue_job_id : String
  pub scheduled_at : ℕ
  pub campaign_id : String
  pub post_id : String
  pub platform : SocialPlatform
  pub social_account_id : String
  pub remote_post_id : Option String

-- `enqueued_at IS NULL AND (dispatch_lease_expires_at IS NULL OR dispatch_lease_expires_at <= now())`
unfoldable pub is_pending : ℕ → OutboxRow → Bool
is_pending now o = is_none o.enqueued_at && due_or_null o.dispatch_lease_expires_at now

abbrev pub leased_row : ℕ → ℕ → OutboxRow → OutboxRow
leased_row now lease_ms o = record o {
  dispatch_lease_expires_at = some (now + lease_ms);
  dispatch_attempt_count = suc o.dispatch_attempt_count;
}

unfoldable pub take {ℓ} : {A : Type ℓ} → ℕ → List A → List A
take zero xs = []
take (suc n) [] = []
take (suc n) (x ∷ xs) = x ∷ take n xs

-- The row's columns, with those of its job and its post.
unfoldable pub queue_record : Db → OutboxRow → Option QueueRecord
queue_record db o = elim (find_job o.publish_job_id db) [
  | none ↦ none
  | some job ↦ elim (find_post job.post_id db) [
    | none ↦ none
    | some post ↦ some (record {
      publish_job_id = o.publish_job_id;
      queue_job_id = o.queue_job_id;
      scheduled_at = o.scheduled_at;
      campaign_id = post.campaign_id;
      post_id = job.post_id;
      platform = job.platform;
      social_account_id = job.account_id;
      remote_post_id = job.remote_post_id;
    })
  ]
]

-- The rows that the join keeps.
unfoldable pub queue_records : Db → List OutboxRow → List QueueRecord
queue_records db [] = []
queue_records db (o ∷ os) = elim (queue_record db o) [
  | none ↦ queue_records db os
  | some r ↦ r ∷ queue_records db os
]

abbrev pub is_record_of : OutboxRow → QueueRecord → Bool
is_record_of o r = o.publish_job_id === r.publish_job_id

-- `WHERE publish_job_id = $1 AND queue_job_id = $2`
abbrev pub matches : QueueRecord → OutboxRow → Bool
matches r o = (o.publish_job_id === r.publish_job_id) && (o.queue_job_id === r.queue_job_id)

abbrev pub enqueued_row : ℕ → OutboxRow → OutboxRow
enqueued_row now o = record o {
  enqueued_at = some now;
  dispatch_lease_expires_at = none;
  last_dispatch_error = none;
}

-- `markOutboxEnqueued`
unfoldable pub mark_outbox_enqueued : QueueRecord → ℕ → Db → Db
mark_outbox_enqueued r now db = record db {
  outbox = update (matches r) (enqueued_row now) db.outbox;
}

abbrev pub released_row : String → OutboxRow → OutboxRow
released_row message o = record o {
  dispatch_lease_expires_at = none;
  last_dispatch_error = some message;
}

-- `releaseOutbox`; `slice` is the first 500 characters of a message.
unfoldable pub release_outbox : (String → String) → QueueRecord → String → Db → Db
release_outbox slice r message db = record db {
  outbox = update (matches r) (released_row (slice message)) db.outbox;
}

-- What the queue's `enqueue` comes to: it throws nothing, an `Error` with a message, or something else.
pub data Enqueue : Type 0 where
  accepted : Enqueue
  refused : Option String → Enqueue

-- `{ enqueued, failed }`
pub record Dispatched : Type 0 where
  pub enqueued : ℕ
  pub failed : ℕ

-- `ORDER BY scheduled_at, publish_job_id`
abbrev pub before : OutboxRow → OutboxRow → Bool
before o o' =
    ltb o.scheduled_at o'.scheduled_at
    || (o.scheduled_at == o'.scheduled_at && text_leb o.publish_job_id o'.publish_job_id)

-- `candidates`
unfoldable pub candidates : ℕ → ℕ → Db → List OutboxRow
candidates limit now db = take limit (order_by before (select (is_pending now) db.outbox))

-- `claimOutbox`
unfoldable pub claim_outbox : ℕ → ℕ → ℕ → Db → List QueueRecord × Db
claim_outbox limit lease_ms now db =
    let records = queue_records db (candidates limit now db) in
    (
      records,
      record db {
        outbox = update (λ o. any (is_record_of o) records) (leased_row now lease_ms) db.outbox;
      },
    )

module _ (clock : ℕ → ℕ) (slice : String → String) (enqueue : QueueRecord → Enqueue) where
  -- The `try` of one record, at the clock's reading after those of the records before it.
  unfoldable pub dispatch_one : QueueRecord → Dispatched × Db → Dispatched × Db
  dispatch_one r (n, db) = elim (enqueue r) [
    | accepted ↦ (
      record n { enqueued = suc n.enqueued },
      mark_outbox_enqueued r (clock (suc (n.enqueued + n.failed))) db,
    )
    | refused message ↦ (
      record n { failed = suc n.failed },
      release_outbox slice r (or_else message "Queue enqueue failed.") db,
    )
  ]

  unfoldable pub dispatch_all : List QueueRecord → Dispatched × Db → Dispatched × Db
  dispatch_all [] s = s
  dispatch_all (r ∷ rs) s = dispatch_all rs (dispatch_one r s)

  -- `dispatchPending`
  unfoldable pub dispatch_pending : ℕ → ℕ → Db → Dispatched × Db
  dispatch_pending limit lease_ms db =
      let (records, db') = claim_outbox limit lease_ms (clock 0) db in
      dispatch_all records (record { enqueued = 0; failed = 0 }, db')
