-- ===== src/Outbox/Interleaving.antt =====
-- Sequences of the statements of backend/src/publishing/pg-publish-outbox.repository.ts, by any number of workers.
use social_promotion_automat.Base.{
  ℕ, String, Bool, true, false, Option, none, some, ◌≡◌, refl, inl, inr, arith, Option-cases,
}
use social_promotion_automat.Entity.{JobStatus, PublishJob}
use social_promotion_automat.Store.{Db, find_job, find_post, updated_job}
use social_promotion_automat.Outbox.{
  claim_publish_job, claimable, claimed_job, mark_remote_requesting, can_request, requesting_job,
  confirm_remote_publication, is_requesting, confirmed_job, record_ambiguous_remote_outcome,
  is_active, ambiguous_job,
}
use social_promotion_automat.Outbox.Save.{
  save_success, is_confirmed, published_job, save_failure, failed_job,
}
use social_promotion_automat.Outbox.Transition.{
  FollowsRow, FollowsAll, FollowsAll-refl, update_job-FollowsAll, find_job-audit_if_final,
  find_job-record_publication, claimed_job-Moves, requesting_job-Moves, confirmed_job-Moves,
  ambiguous_job-Moves, published_job-Moves, failed_job-Moves,
}

-- One statement of a worker on the tables, at any time and with any arguments.
pub data WorkerStep (db : Db) : Db → Type 0 where
  claim :
      (job_id : String) (lease_ms : ℕ) (q : Option String) (now : ℕ)
      → WorkerStep db (claim_publish_job job_id lease_ms q now db).1
  request :
      (job_id key : String) (lease_ms now : ℕ)
      → WorkerStep db (mark_remote_requesting job_id key lease_ms now db).1
  confirm : (job : PublishJob) → WorkerStep db (confirm_remote_publication job db).1
  defer :
      (job : PublishJob) (pending : Bool) (next : Option ℕ)
      → WorkerStep db (record_ambiguous_remote_outcome job pending next db)
  succeed : (job : PublishJob) → WorkerStep db (save_success job db)
  fail :
      (job : PublishJob) (pending : Bool) (next : Option ℕ)
      → WorkerStep db (save_failure job pending next db)

pub claim-FollowsAll :
    (job_id : String) (lease_ms : ℕ) (q : Option String) (now : ℕ) (db : Db)
    → FollowsAll db (claim_publish_job job_id lease_ms q now db).1
unfolding claim_publish_job
claim-FollowsAll job_id lease_ms q now db =
    elim (Option-cases (updated_job job_id (claimable db now q) (claimed_job now lease_ms) db)) [
      | inl missed ↦ rw (missed, claim_publish_job) (FollowsAll-refl db)
      | inr (job, e) ↦ elim (Option-cases (find_post job.post_id db)) [
        | inl lost ↦ rw (e, claim_publish_job) (rw (lost, claim_publish_job) (FollowsAll-refl db))
        | inr (post, found) ↦
            rw (e, claim_publish_job)
              (rw (found, claim_publish_job)
                (update_job-FollowsAll job_id (claimable db now q) (claimed_job now lease_ms) db
                  (λ j. refl) (claimed_job-Moves db now lease_ms q)))
      ]
    ]

through :
    (db db' db'' : Db)
    → ((k : String) → find_job k db'' ≡ find_job k db')
    → FollowsAll db db'
    → FollowsAll db db''
through db db' db'' same h k = rw (same k) (h k)

-- Every statement of a worker leaves each job's post, platform, account and time alone, and keeps a request key that is set
-- unless it leaves the job retrying or failed. The job's row stays whole or its status makes one of these moves: waiting or
-- retrying to claimed; claimed to claimed, requesting, retrying or failed; requesting to claimed, requesting, confirmed,
-- retrying or failed; confirmed to confirmed or published.
pub WorkerStep-FollowsAll : {db db' : Db} → WorkerStep db db' → FollowsAll db db'
unfolding mark_remote_requesting confirm_remote_publication record_ambiguous_remote_outcome
    save_success save_failure
WorkerStep-FollowsAll {db} (claim job_id lease_ms q now) = claim-FollowsAll job_id lease_ms q now db
WorkerStep-FollowsAll {db} (request job_id key lease_ms now) =
    update_job-FollowsAll job_id (can_request key) (requesting_job key lease_ms now) db (λ j. refl)
      (requesting_job-Moves key lease_ms now)
WorkerStep-FollowsAll {db} (confirm job) =
    update_job-FollowsAll job.id is_requesting (confirmed_job job) db (λ j. refl)
      (confirmed_job-Moves job)
WorkerStep-FollowsAll {db} (defer job pending next) =
    through db _ _ (λ k. find_job-audit_if_final k pending _ _)
      (update_job-FollowsAll job.id is_active (ambiguous_job job pending next) db (λ j. refl)
        (ambiguous_job-Moves job pending next))
WorkerStep-FollowsAll {db} (succeed job) =
    through db _ _ (λ k. find_job-record_publication k _ _)
      (update_job-FollowsAll job.id is_confirmed (published_job job) db (λ j. refl)
        (published_job-Moves job))
WorkerStep-FollowsAll {db} (fail job pending next) =
    through db _ _ (λ k. find_job-audit_if_final k pending _ _)
      (update_job-FollowsAll job.id is_active (failed_job job pending next) db (λ j. refl)
        (failed_job-Moves job pending next))

-- Any interleaving of such statements, by any number of workers.
pub data WorkerRun (db : Db) : Db → Type 0 where
  start : WorkerRun db db
  then_step : {db' db'' : Db} → WorkerRun db db' → WorkerStep db' db'' → WorkerRun db db''

-- `published`, `failed` and `cancelled`
abbrev pub is_final : JobStatus → Bool
is_final JobStatus.published = true
is_final JobStatus.failed = true
is_final JobStatus.cancelled = true
is_final _ = false

final_stays :
    (j : PublishJob) (o : Option PublishJob)
    → is_final j.status ≡ true
    → FollowsRow (some j) o
    → o ≡ some j
final_stays j none h f = absurd f
final_stays j (some j') h f = ground (arith, f.moves)

-- A job that is published, failed or cancelled keeps its whole row through every interleaving of workers.
pub WorkerRun-final :
    {db db' : Db} (k : String) (j : PublishJob)
    → WorkerRun db db'
    → find_job k db ≡ some j
    → is_final j.status ≡ true
    → find_job k db' ≡ some j
WorkerRun-final k j start e h = e
WorkerRun-final k j (then_step r s) e h =
    let before = WorkerRun-final k j r e h in
    final_stays j _ h (rw before at (WorkerStep-FollowsAll s k))
