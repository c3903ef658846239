-- ===== src/Outbox/Isolation.antt =====
-- The rows of the other jobs under a statement of backend/src/publishing/pg-publish-outbox.repository.ts about one job.
use social_promotion_automat.Base.{String, Option, ◌≡◌, ◌≢◌, refl, ◌∙◌, inl, inr, Option-cases, ℕ}
use social_promotion_automat.Store.{Db, find_job, find_post, updated_job}
use social_promotion_automat.Store.Laws.{find_job-update_job_ne}
use social_promotion_automat.Outbox.{
  claim_publish_job, claimable, claimed_job, mark_remote_requesting, can_request, requesting_job,
  confirm_remote_publication, is_requesting, confirmed_job, record_ambiguous_remote_outcome,
  is_active, ambiguous_job,
}
use social_promotion_automat.Outbox.Save.{
  save_success, is_confirmed, published_job, save_failure, failed_job,
}
use social_promotion_automat.Outbox.Transition.{
  find_job-audit_if_final, find_job-record_publication,
}
use social_promotion_automat.Outbox.Interleaving.{
  WorkerStep, claim, request, confirm, defer, succeed, fail, WorkerRun, start, then_step,
}

-- the job that a statement names
abbrev pub acts_on : {db db' : Db} → WorkerStep db db' → String
acts_on (claim job_id lease_ms q now) = job_id
acts_on (request job_id key lease_ms now) = job_id
acts_on (confirm job) = job.id
acts_on (defer job pending next) = job.id
acts_on (succeed job) = job.id
acts_on (fail job pending next) = job.id

claim_others :
    (k job_id : String) (lease_ms : ℕ) (q : Option String) (now : ℕ) (db : Db)
    → k ≢ job_id
    → find_job k (claim_publish_job job_id lease_ms q now db).1 ≡ find_job k db
unfolding claim_publish_job
claim_others k job_id lease_ms q now db ne =
    elim (Option-cases (updated_job job_id (claimable db now q) (claimed_job now lease_ms) db)) [
      | inl missed ↦ rw (missed, claim_publish_job) refl
      | inr (job, e) ↦ elim (Option-cases (find_post job.post_id db)) [
        | inl lost ↦ rw (e, claim_publish_job) (rw (lost, claim_publish_job) refl)
        | inr (post, found) ↦
            rw (e, claim_publish_job)
              (rw (found, claim_publish_job)
                (find_job-update_job_ne job_id (claimable db now q) (claimed_job now lease_ms)
                  (λ j. refl) k db ne))
      ]
    ]

WorkerStep-others :
    {db db' : Db} (s : WorkerStep db db') (k : String)
    → k ≢ acts_on s
    → find_job k db' ≡ find_job k db
unfolding mark_remote_requesting confirm_remote_publication record_ambiguous_remote_outcome
    save_success save_failure
WorkerStep-others {db} (claim job_id lease_ms q now) k ne =
    claim_others k job_id lease_ms q now db ne
WorkerStep-others {db} (request job_id key lease_ms now) k ne =
    find_job-update_job_ne job_id (can_request key) (requesting_job key lease_ms now) (λ j. refl) k
      db ne
WorkerStep-others {db} (confirm job) k ne =
    find_job-update_job_ne job.id is_requesting (confirmed_job job) (λ j. refl) k db ne
WorkerStep-others {db} (defer job pending next) k ne =
    find_job-audit_if_final k pending _ _
    ∙ find_job-update_job_ne job.id is_active (ambiguous_job job pending next) (λ j. refl) k db ne
WorkerStep-others {db} (succeed job) k ne =
    find_job-record_publication k _ _
    ∙ find_job-update_job_ne job.id is_confirmed (published_job job) (λ j. refl) k db ne
WorkerStep-others {db} (fail job pending next) k ne =
    find_job-audit_if_final k pending _ _
    ∙ find_job-update_job_ne job.id is_active (failed_job job pending next) (λ j. refl) k db ne

-- A run of statements that all name one job.
pub data RunOn (id : String) (db : Db) : Db → Type 0 where
  rest : RunOn id db db
  go_on :
      {db' db'' : Db}
      → RunOn id db db'
      → (s : WorkerStep db' db'') → acts_on s ≡ id
      → RunOn id db db''

pub RunOn-trans : {id : String} {a b c : Db} → RunOn id a b → RunOn id b c → RunOn id a c
RunOn-trans r rest = r
RunOn-trans r (go_on q s e) = go_on (RunOn-trans r q) s e

pub RunOn-WorkerRun : {id : String} {a b : Db} → RunOn id a b → WorkerRun a b
RunOn-WorkerRun rest = start
RunOn-WorkerRun (go_on r s e) = then_step (RunOn-WorkerRun r) s

-- Statements that name one job leave every other job's row as it is.
pub RunOn-others :
    {id : String} {a b : Db} (k : String) → RunOn id a b → k ≢ id → find_job k b ≡ find_job k a
RunOn-others k rest ne = refl
RunOn-others k (go_on r s e) ne = WorkerStep-others s k (rw e ne) ∙ RunOn-others k r ne
