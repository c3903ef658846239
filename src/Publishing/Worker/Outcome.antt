-- ===== src/Publishing/Worker/Outcome.antt =====
-- How a delivery in backend/src/publishing/publish-worker.processor.ts ends, and the job's row that it leaves.
pub mod Counts
pub mod Send
pub mod Settle
pub mod Process
pub mod Retries
use social_promotion_automat.Base.{
  zero, ℕ, suc, ◌+◌, ◌≤◌, String, Bool, true, false, not, ◌&&◌, Option, none, some, List, ◌≡◌, ◌≢◌,
  refl, or_else, truthy?, is_some, if◌then◌else◌, leb, arith, Bool-cases, Option-cases, inl, inr,
  ap, ◌∙◌, sym, subst, ◌⊎◌,
}
use social_promotion_automat.Entity.{JobStatus, Post, PublishJob}
use social_promotion_automat.Entity.Equality.{same_status}
use social_promotion_automat.Store.{Db, AlertRow, find_job, update_job, updated_job}
use social_promotion_automat.Store.Laws.{find_job-update_job_hit, updated_job_hit, find_job_id}
use social_promotion_automat.Retry.{PublishFailure, retry_delay_for_failure, should_retry_publish}
use social_promotion_automat.Result.{Error, Result, ok, raised, some_inj, ok-injective}
use social_promotion_automat.Outbox.{
  ClaimedPublishJob, claim_publish_job, claimed_job, mark_remote_requesting,
  confirm_remote_publication, confirmed_job, is_requesting, is_active,
  record_ambiguous_remote_outcome, ambiguous_job, or_raise,
}
use social_promotion_automat.Outbox.Save.{save_success, save_failure, published_job, failed_job}
use social_promotion_automat.Outbox.Lease.{claim_sound, claim_taken, claim_declines, request_key}
use social_promotion_automat.Outbox.Terminal.{save_success-row}
use social_promotion_automat.Outbox.Failure.{
  find_alert, alert_of, save_failure-row, save_failure_retries, save_ambiguous_alerts,
  save_ambiguous_retries,
}
use social_promotion_automat.Retry.Laws.{should_retry-delay}
use social_promotion_automat.Publishing.{
  SocialPost, PublishReconciliation, SocialAdapter, World, PublishExecution, succeeded, failed,
  publish, reconcile, can_safely_repeat_remote_request,
}
use social_promotion_automat.Publishing.Worker.{
  LogContext, WorkError, job_failed, job_terminal, other, Done, done, stopped, Work, ◌>>=◌, ◌>>◌,
  pure, throw, lift, log_context, deferred_message, execution_message, execute, reconciled_job,
  deferred_job, persist_success, next_retry, defer_ambiguous_remote_outcome, settle_failure,
  settle_ambiguous, settle, send, resume, run_claimed, process, is_persisted, finish_persisted,
  query,
}

-- A job that waits for a time that is set, after one more failure than `n`, of which four are too many.
abbrev pub Waits : String → ℕ → Db → Type 0
Waits id n db =
    (row : PublishJob) × (find_job id db ≡ some row)
    × ((row.status ≡ JobStatus.retrying) ⊎ (row.status ≡ JobStatus.remote_requesting))
    × (is_some row.next_retry_at ≡ true)
    × (row.retry_count ≡ suc n)
    × (suc n ≤ 3)

-- A job that has failed, with an alert.
abbrev pub Fails : String → Db → Type 0
Fails id db =
    (row : PublishJob) × (find_job id db ≡ some row)
    × (row.status ≡ JobStatus.failed)
    × (is_some (find_alert id db) ≡ true)

-- How a delivery for the job `id`, which has failed `n` times before, and begun on the tables `db`, has ended; no other
-- exception is among the ends.
abbrev pub Ended : String → ℕ → Db → Done (Option LogContext) × World → Type 0
Ended id n db (done none, w) = w.db ≡ db
Ended id n db (done (some context), w) =
    (row : PublishJob) × (find_job id w.db ≡ some row) × (row.status ≡ JobStatus.published)
Ended id n db (stopped (job_failed context message), w) = Waits id n w.db
Ended id n db (stopped (job_terminal context message), w) = Fails id w.db
Ended id n db (stopped (other e), w) = ⊥

module _ {A B : Type 0} (Q : Done B × World → Type 0) (k : A → Work B) where
  -- A statement and what follows it.
  pub query-split :
      (clock : ℕ → ℕ) (adapters : List SocialAdapter) (format : Post → PublishJob → SocialPost)
      (slice : String → String) (f : ℕ → Db → Result A × Db) (w : World)
      → let w' = record w { db = (f (clock w.ticks) w.db).1; ticks = suc w.ticks } in
        ((e : Error) → (f (clock w.ticks) w.db).0 ≡ raised e → Q (stopped (other e), w'))
        → ((a : A) → (f (clock w.ticks) w.db).0 ≡ ok a → Q (k a w'))
        → Q ((query clock adapters format slice f >>= k) w)
  unfolding ◌>>=◌
  query-split clock adapters format slice f w bad good = go (f (clock w.ticks) w.db).0 refl
    where
      w1 : World
      w1 = record w { db = (f (clock w.ticks) w.db).1; ticks = suc w.ticks }

      go :
          (r : Result A)
          → (f (clock w.ticks) w.db).0 ≡ r
          → Q (elim (lift r) as (λ x. Done B × World) [
            | done a ↦ k a w1
            | stopped e ↦ (stopped e, w1)
          ])
      go (ok a) e = good a e
      go (raised x) e = bad x e

-- The time of the next attempt, and what follows it.
pub next_retry-split :
    {B : Type 0} (Q : Done B × World → Type 0) (k : Option ℕ → Work B) (clock : ℕ → ℕ)
    (adapters : List SocialAdapter) (format : Post → PublishJob → SocialPost)
    (slice : String → String) (b : Bool) (n : ℕ) (w : World)
    → (b ≡ true → (d : ℕ) × (retry_delay_for_failure n ≡ some d))
    → ((next : Option ℕ) (w' : World) → w'.db ≡ w.db → is_some next ≡ b → Q (k next w'))
    → Q ((next_retry clock adapters format slice b n >>= k) w)
unfolding ◌>>=◌ next_retry
next_retry-split Q k clock adapters format slice false n w set good = good none w refl refl
next_retry-split {B} Q k clock adapters format slice true n w set good =
    go (retry_delay_for_failure n) (set refl).1
  where
    w1 : World
    w1 = record w { ticks = suc w.ticks }

    delayed : Option ℕ → Work (Option ℕ)
    delayed o = elim o [
      | none ↦
          throw (other (Error.range_error "No retry delay exists for a terminal publish failure."))
      | some delay ↦ pure (some (clock w.ticks + delay))
    ]

    go :
        (o : Option ℕ)
        → o ≡ some (set refl).0
        → Q (
            let (r, w') = delayed o w1 in
            elim r as (λ x. Done B × World) [ done a ↦ k a w' | stopped e ↦ (stopped e, w') ])
    go none e = absurd (cc e)
    go (some d) e = good _ w1 refl refl

-- Every count of failures up to the limit has a delay.
pub delay_set : (n : ℕ) → 1 ≤ n → leb n 3 ≡ true → (d : ℕ) × (retry_delay_for_failure n ≡ some d)
unfolding retry_delay_for_failure
delay_set zero h t = absurd (omega arith)
delay_set (suc zero) h t = (30000, refl)
delay_set (suc (suc zero)) h t = (120000, refl)
delay_set (suc (suc (suc zero))) h t = (600000, refl)
delay_set (suc (suc (suc (suc n)))) h t = absurd (ground arith)

pub confirms :
    (id : String) (job row : PublishJob) (db : Db) (e : Error)
    → job.id ≡ id
    → find_job id db ≡ some row
    → row.status ≡ JobStatus.remote_requesting
    → (confirm_remote_publication job db).0 ≡ raised e
    → ⊥
unfolding confirm_remote_publication updated_job is_requesting
confirms id job row db e same found state h =
    let there : find_job job.id db ≡ some row =
      subst (λ k. find_job k db ≡ some row) (sym same) found in
    ground arith

alert_stands :
    (k : String) (o : Option AlertRow) (a : AlertRow) (db : Db)
    → find_alert k db ≡ some (or_else o a)
    → is_some (find_alert k db) ≡ true
alert_stands k o a db h = rw h refl

pub deferred-Waits :
    (id : String) (n : ℕ) (from row : PublishJob) (next : Option ℕ) (db : Db)
    → from.id ≡ id
    → find_job id db ≡ some row
    → is_active row ≡ true
    → is_some next ≡ true
    → from.retry_count ≡ suc n
    → suc n ≤ 3
    → Waits id n (record_ambiguous_remote_outcome from true next db)
deferred-Waits id n from row next db same found active timed counted few =
    let (there, _, _) =
      save_ambiguous_retries from row next db
        (subst (λ k. find_job k db ≡ some row) (sym same) found) active in
    (
      ambiguous_job from true next row,
      subst
          (λ k.
            find_job k (record_ambiguous_remote_outcome from true next db)
            ≡ some (ambiguous_job from true next row))
          same there,
      inr refl,
      timed,
      counted,
      few,
    )

pub deferred-Fails :
    (id : String) (from row : PublishJob) (next : Option ℕ) (db : Db)
    → from.id ≡ id
    → find_job id db ≡ some row
    → is_active row ≡ true
    → Fails id (record_ambiguous_remote_outcome from false next db)
deferred-Fails id from row next db same found active =
    let (there, alerted) =
      save_ambiguous_alerts from row next db
        (subst (λ k. find_job k db ≡ some row) (sym same) found) active in
    let db' = record_ambiguous_remote_outcome from false next db in
    (
      ambiguous_job from false next row,
      subst (λ k. find_job k db' ≡ some (ambiguous_job from false next row)) same there,
      refl,
      subst (λ k. is_some (find_alert k db') ≡ true) (find_job_id id row db found)
          (alert_stands row.id (find_alert row.id db) (alert_of (ambiguous_job from false next row))
            db' alerted),
    )

pub failure-Waits :
    (id : String) (n : ℕ) (from row : PublishJob) (next : Option ℕ) (db : Db)
    → from.id ≡ id
    → find_job id db ≡ some row
    → is_active row ≡ true
    → is_some next ≡ true
    → from.retry_count ≡ suc n
    → suc n ≤ 3
    → Waits id n (save_failure from true next db)
failure-Waits id n from row next db same found active timed counted few =
    let (there, _, _) =
      save_failure_retries from row next db (subst (λ k. find_job k db ≡ some row) (sym same) found)
        active in
    (
      failed_job from true next row,
      subst
          (λ k. find_job k (save_failure from true next db) ≡ some (failed_job from true next row))
          same there,
      inl refl,
      timed,
      counted,
      few,
    )

pub failure-Fails :
    (id : String) (from row : PublishJob) (next : Option ℕ) (db : Db)
    → from.id ≡ id
    → find_job id db ≡ some row
    → is_active row ≡ true
    → Fails id (save_failure from false next db)
failure-Fails id from row next db same found active =
    let (there, alerted) =
      save_failure-row from row next db (subst (λ k. find_job k db ≡ some row) (sym same) found)
        active in
    let db' = save_failure from false next db in
    (
      failed_job from false next row,
      subst (λ k. find_job k db' ≡ some (failed_job from false next row)) same there,
      refl,
      subst (λ k. is_some (find_alert k db') ≡ true) (find_job_id id row db found)
          (alert_stands row.id (find_alert row.id db) (alert_of (failed_job from false next row))
            db' alerted),
    )

-- The exception that is thrown goes with what was written.
pub Ended-subst :
    (id : String) (n : ℕ) (db : Db) (b : Bool) (context : LogContext) (message : String)
    (write : Bool → Db) (w : World)
    → (b ≡ true → Waits id n (write true))
    → (b ≡ false → Fails id (write false))
    → Ended id n db (
      stopped (if b then job_failed context message else job_terminal context message),
      record w { db = write b },
    )
Ended-subst id n db true context message write w waits fails = waits refl
Ended-subst id n db false context message write w waits fails = fails refl
