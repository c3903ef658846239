-- ===== src/Publishing/Worker/Outcome/Counts.antt =====
-- The keys that one delivery in backend/src/publishing/publish-worker.processor.ts passes to the repository, and the counts
-- that it looks up in the table of delays.
use social_promotion_automat.Base.{
  suc, ℕ, String, true, false, not, ◌||◌, Option, none, some, List, ◌≡◌, or_else, truthy?, truthy,
  arith, Bool-cases, Option-cases, inl, inr, ap, ◌∙◌, sym, subst, eq_iff,
}
use social_promotion_automat.Entity.{JobStatus, Post, PublishJob}
use social_promotion_automat.Entity.Equality.{same_status}
use social_promotion_automat.Store.{Db, find_job, updated_job}
use social_promotion_automat.Retry.{should_retry_publish}
use social_promotion_automat.Result.{Error, ok, raised}
use social_promotion_automat.Outbox.{
  claim_publish_job, claimable, mark_remote_requesting, can_request,
}
use social_promotion_automat.Outbox.Lease.{claim_taken, claim_declines}
use social_promotion_automat.Publishing.Worker.{deferred_job}
use social_promotion_automat.Publishing.{
  SocialPost, SocialAdapter, World, PublishExecution, PublishResult, Attempt, returned, threw,
  succeeded, failed, publish, publish_with, call_publish, conclude, adapter_for,
}

-- A claim never throws: a claimable job has a post.
pub claim_returns :
    (job_id : String) (lease_ms : ℕ) (q : Option String) (now : ℕ) (db : Db) (e : Error)
    → (claim_publish_job job_id lease_ms q now db).0 ≡ raised e
    → ⊥
claim_returns job_id lease_ms q now db e h = elim (Option-cases (find_job job_id db)) [
  | inl lost ↦ declined (claim_declines job_id lease_ms q now db (λ i f. absurd (cc (lost, f))))
  | inr (j, found) ↦ elim (Bool-cases (claimable db now q j)) [
    | inl can ↦
        let (p, _, result, _) = claim_taken job_id lease_ms q now db j found can in cc (result, h)
    | inr cannot ↦ declined (
        claim_declines job_id lease_ms q now db
          (λ i f. subst (λ o. claimable db now q (or_else o j) ≡ false) (sym found ∙ f) cannot))
  ]
]
  where
    declined : claim_publish_job job_id lease_ms q now db ≡ (ok none, db) → ⊥
    declined d = cc (h, ap (λ r. r.0) d)

-- A claimed job may enter `remote_requesting` under its own key.
pub can_request_own :
    (j : PublishJob) (fallback : String)
    → j.status ≡ JobStatus.claimed
    → can_request (or_else j.remote_request_key fallback) j ≡ true
unfolding can_request
can_request_own j fallback h = elim (Option-cases j.remote_request_key) [
  | inl fresh ↦ ground (arith, fresh, h)
  | inr (k, kept) ↦ ground (arith, kept, h, eq_iff k k)
]

pub mark_returns :
    (job_id key : String) (lease_ms now : ℕ) (j : PublishJob) (db : Db) (e : Error)
    → find_job job_id db ≡ some j
    → can_request key j ≡ true
    → (mark_remote_requesting job_id key lease_ms now db).0 ≡ raised e
    → ⊥
unfolding mark_remote_requesting updated_job
mark_returns job_id key lease_ms now j db e found can h = ground arith

pub request_count :
    (job_id key : String) (lease_ms now : ℕ) (j : PublishJob) (db : Db) (j' : PublishJob)
    → find_job job_id db ≡ some j
    → (mark_remote_requesting job_id key lease_ms now db).0 ≡ ok j'
    → j'.retry_count ≡ j.retry_count
unfolding mark_remote_requesting updated_job
request_count job_id key lease_ms now j db j' found e = ground (arith, found, e)

-- What a job that had failed `n` times counts after a failure that is deferred, or tried again.
abbrev pub Counts : ℕ → PublishExecution → Type 0
Counts n (succeeded job result) = Unit
Counts n (failed job message f) =
    (f.ambiguous ≡ true → (deferred_job job).retry_count ≡ suc n)
    × (should_retry_publish f job.retry_count ≡ true → job.retry_count ≡ suc n)

conclude-Counts :
    (slice : String → String) (job : PublishJob) (a : Attempt PublishResult)
    → Counts job.retry_count (conclude slice job a)
unfolding conclude
conclude-Counts slice job (returned result) = elim (Bool-cases (truthy result.remote_post_id)) [
  | inl given ↦ rw given tt
  | inr missing ↦ rw missing (λ h. omega arith, λ h. omega arith)
]
conclude-Counts slice job (threw error) = (λ h. omega arith, λ h. omega arith)

module _ (clock : ℕ → ℕ) (adapters : List SocialAdapter) (format : Post → PublishJob → SocialPost)
    (slice : String → String) where
  publish_with-Counts :
      (o : Option SocialAdapter) (post : Post) (job : PublishJob) (key : String) (w : World)
      → Counts job.retry_count (publish_with clock adapters format slice o post job key w).0
  unfolding publish_with call_publish
  publish_with-Counts none post job key w = (λ h. omega arith, λ h. omega arith)
  publish_with-Counts (some a) post job key w = conclude-Counts slice job _

  pub publish-Counts :
      (post : Post) (job : PublishJob) (w : World)
      → job.status ≡ JobStatus.remote_requesting
      → Counts job.retry_count (publish clock adapters format slice post job w).0
  unfolding publish should_retry_publish
  publish-Counts post job w requesting =
      elim (Bool-cases (
        not (same_status job.status JobStatus.remote_requesting)
        || not (truthy? job.remote_request_key))) [
          | inl refused ↦ rw refused (λ h. absurd (ground arith), λ h. absurd (ground arith))
          | inr allowed ↦
              rw allowed (publish_with-Counts (adapter_for adapters job.platform) post job _ w)
        ]
    where
      requesting-failed : JobStatus.remote_requesting ≡ JobStatus.failed → ⊥
      requesting-failed e = cc
