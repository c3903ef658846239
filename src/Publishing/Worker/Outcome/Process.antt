-- ===== src/Publishing/Worker/Outcome/Process.antt =====
-- How a whole delivery in backend/src/publishing/publish-worker.processor.ts ends, and the job's row.
use social_promotion_automat.Base.{
  ℕ, suc, String, Bool, true, false, Option, none, some, List, ◌≡◌, refl, truthy?, if◌then◌else◌,
  arith, Bool-cases, inl, inr, ap, ◌∙◌, sym, subst, ◌⊎◌,
}
use social_promotion_automat.Entity.{JobStatus, Post, PublishJob}
use social_promotion_automat.Store.{Db, find_job}
use social_promotion_automat.Store.Laws.{find_job_id}
use social_promotion_automat.Result.{ok}
use social_promotion_automat.Outbox.{
  ClaimedPublishJob, claim_publish_job, claimed_job, mark_remote_requesting, can_request,
}
use social_promotion_automat.Outbox.Save.{save_success, published_job}
use social_promotion_automat.Outbox.Lease.{claim_row, claim_sound, request_key}
use social_promotion_automat.Outbox.Terminal.{save_success-row}
use social_promotion_automat.Publishing.{
  SocialPost, PublishReconciliation, SocialAdapter, World, reconcile,
  can_safely_repeat_remote_request,
}
use social_promotion_automat.Publishing.Worker.{
  LogContext, Work, ◌>>=◌, pure, reconciled_job, query, persist_success,
  defer_ambiguous_remote_outcome, send, resume, run_claimed, process, is_persisted,
  finish_persisted,
}
use social_promotion_automat.Publishing.Worker.Rules.{reconcile_quiet}
use social_promotion_automat.Publishing.Worker.Outcome.Counts.{
  claim_returns, can_request_own, mark_returns,
}
use social_promotion_automat.Publishing.Worker.Outcome.{Ended, query-split}
use social_promotion_automat.Publishing.Worker.Outcome.Settle.{persist_success-Ended, defer-Ended}
use social_promotion_automat.Publishing.Worker.Outcome.Send.{active_of_status, found_by, send-Ended}

module _ (clock : ℕ → ℕ) (adapters : List SocialAdapter) (format : Post → PublishJob → SocialPost)
    (slice : String → String) (id : String) (n : ℕ) (db0 : Db) where
  resume-Ended :
      (c : ClaimedPublishJob) (key : String) (lease_ms attempt : ℕ) (w : World)
      → c.job.id ≡ id
      → find_job id w.db ≡ some c.job
      → c.job.status ≡ JobStatus.claimed
      → c.job.retry_count ≡ n
      → can_request key c.job ≡ true
      → Ended id n db0 (resume clock adapters format slice c key lease_ms attempt w)
  unfolding resume ◌>>=◌
  resume-Ended c key lease_ms attempt w same found claimed before can =
      after (reconcile clock adapters format slice c.post c.job w).0
    where
      w1 : World
      w1 = (reconcile clock adapters format slice c.post c.job w).1

      there : find_job id w1.db ≡ some c.job
      there =
          ap (find_job id) (reconcile_quiet clock adapters format slice id c.post c.job w) ∙ found

      claimed-failed : JobStatus.claimed ≡ JobStatus.failed → ⊥
      claimed-failed e = cc

      again :
          (b : Bool)
          → Ended id n db0 (
              (if b
                  then send clock adapters format slice c lease_ms attempt
                  else defer_ambiguous_remote_outcome clock adapters format slice c.post.campaign_id
                      c.job attempt)
                w1)
      again true =
          send-Ended clock adapters format slice id n db0 c lease_ms attempt w1 same there claimed
            before
      again false =
          defer-Ended clock adapters format slice id n db0 c.post.campaign_id c.job c.job attempt w1
            same there (active_of_status c.job (inl claimed)) (ground (arith, before, claimed))

      after :
          (r : PublishReconciliation)
          → Ended id n db0 (
              (elim r as (λ x. Work (Option LogContext)) [
                | PublishReconciliation.confirmed result ↦
                    query clock adapters format slice
                      (λ now. mark_remote_requesting c.job.id key lease_ms now)
                    >>= λ job.
                        persist_success clock adapters format slice c.post.campaign_id
                          (reconciled_job job result)
                          attempt
                | _ ↦
                    if can_safely_repeat_remote_request clock adapters format slice c.job.platform
                    then send clock adapters format slice c lease_ms attempt
                    else defer_ambiguous_remote_outcome clock adapters format slice
                        c.post.campaign_id c.job attempt
              ])
                w1)
      after (PublishReconciliation.confirmed result) =
          query-split (Ended id n db0)
            (λ job.
              persist_success clock adapters format slice c.post.campaign_id
                (reconciled_job job result) attempt)
            clock adapters format slice (λ now. mark_remote_requesting c.job.id key lease_ms now) w1
            (λ e h.
              mark_returns c.job.id key lease_ms (clock w1.ticks) c.job w1.db e
                (found_by clock adapters format slice id n db0 c w1 same there) can h)
            (λ job e.
              let (_, _, _, _, _, status, row) =
                request_key c.job.id key lease_ms (clock w1.ticks) w1.db job e in
              let db2 = (mark_remote_requesting c.job.id key lease_ms (clock w1.ticks) w1.db).1 in
              persist_success-Ended clock adapters format slice id n db0 c.post.campaign_id
                (reconciled_job job result) job attempt
                (record w1 { db = db2; ticks = suc w1.ticks })
                (find_job_id c.job.id job db2 row ∙ same)
                (subst (λ k. find_job k db2 ≡ some job) same row) status)
      after _ = again (can_safely_repeat_remote_request clock adapters format slice c.job.platform)

  finish_persisted-Ended :
      (c : ClaimedPublishJob) (attempt : ℕ) (w : World)
      → c.job.id ≡ id
      → find_job id w.db ≡ some c.job
      → c.job.status ≡ JobStatus.remote_confirmed
      → Ended id n db0 (finish_persisted clock adapters format slice c attempt w)
  unfolding finish_persisted ◌>>=◌
  finish_persisted-Ended c attempt w same found confirmed =
      let (_, row, _, _, _, _) =
        save_success-row c.job c.job w.db
          (subst (λ k. find_job k w.db ≡ some c.job) (sym same) found) confirmed in
      (
        published_job c.job c.job,
        subst (λ k. find_job k (save_success c.job w.db) ≡ some (published_job c.job c.job)) same
            row,
        refl,
      )

  run_claimed-Ended :
      (c : ClaimedPublishJob) (lease_ms attempt : ℕ) (w : World)
      → c.job.id ≡ id
      → find_job id w.db ≡ some c.job
      → c.job.retry_count ≡ n
      → (c.job.status ≡ JobStatus.claimed) ⊎ (is_persisted c.job ≡ true)
      → Ended id n db0 (run_claimed clock adapters format slice c lease_ms attempt w)
  unfolding run_claimed
  run_claimed-Ended c lease_ms attempt w same found before state =
      elim (Bool-cases (is_persisted c.job)) [
        | inl persisted ↦
            rw persisted
              (finish_persisted-Ended c attempt w same found (confirmed_of c.job persisted))
        | inr pending ↦ elim (Bool-cases (truthy? c.job.remote_request_key)) [
          | inl set ↦ rw pending (
              rw set (
                resume-Ended c _ lease_ms attempt w same found (claimed_of state pending) before
                  (can_request_own c.job "" (claimed_of state pending))))
          | inr unset ↦ rw pending (
              rw unset (
                send-Ended clock adapters format slice id n db0 c lease_ms attempt w same found
                  (claimed_of state pending) before))
        ]
      ]
    where
      confirmed_of :
          (j : PublishJob) → is_persisted j ≡ true → j.status ≡ JobStatus.remote_confirmed
      confirmed_of j h = ground arith

      claimed_of :
          (c.job.status ≡ JobStatus.claimed) ⊎ (is_persisted c.job ≡ true)
          → is_persisted c.job ≡ false
          → c.job.status ≡ JobStatus.claimed
      claimed_of (inl s) p = s
      claimed_of (inr e) p = absurd (ground arith)

claim_none :
    (job_id : String) (lease_ms : ℕ) (q : Option String) (now : ℕ) (db : Db)
    → (claim_publish_job job_id lease_ms q now db).0 ≡ ok none
    → (claim_publish_job job_id lease_ms q now db).1 ≡ db
unfolding claim_publish_job
claim_none job_id lease_ms q now db h = ground arith

claimed_state :
    (now lease_ms : ℕ) (j : PublishJob)
    → (j.status ≡ JobStatus.remote_confirmed → is_persisted j ≡ true)
    → ((claimed_job now lease_ms j).status ≡ JobStatus.claimed)
      ⊎ (is_persisted (claimed_job now lease_ms j) ≡ true)
claimed_state now lease_ms j h = go j.status refl
  where
    go :
        (s : JobStatus)
        → j.status ≡ s
        → ((claimed_job now lease_ms j).status ≡ JobStatus.claimed)
          ⊎ (is_persisted (claimed_job now lease_ms j) ≡ true)
    go JobStatus.remote_confirmed e = inr (ground (arith, h e, e))
    go JobStatus.waiting e = inl (ground arith)
    go JobStatus.claimed e = inl (ground arith)
    go JobStatus.remote_requesting e = inl (ground arith)
    go JobStatus.published e = inl (ground arith)
    go JobStatus.failed e = inl (ground arith)
    go JobStatus.retrying e = inl (ground arith)
    go JobStatus.cancelled e = inl (ground arith)

-- A delivery with no other statement between its own always ends in one of four ways. It returns nothing and has
-- written nothing; it returns a context and the job is published; it throws for a retry by the queue, and the job is
-- retrying or still requesting, with the time of its next attempt set, one failure more than before and at most three;
-- it throws for good, and the job is failed with an alert. No other exception is thrown. The job's row, with `n`
-- failures, may be missing or in any state, but a confirmed one carries its remote id and its time; the adapters may
-- answer anything or throw.
pub process_ends :
    (clock : ℕ → ℕ) (adapters : List SocialAdapter) (format : Post → PublishJob → SocialPost)
    (slice : String → String) (id : String) (lease_ms attempt : ℕ) (q : Option String) (w : World)
    (n : ℕ)
    → ((j : PublishJob)
        → find_job id w.db ≡ some j
        → (j.retry_count ≡ n) × (j.status ≡ JobStatus.remote_confirmed → is_persisted j ≡ true))
    → Ended id n w.db (process clock adapters format slice id lease_ms attempt q w)
unfolding process ◌>>=◌
process_ends clock adapters format slice id lease_ms attempt q w n whole =
    query-split (Ended id n w.db)
      (λ o. elim o as (λ x. Work (Option LogContext)) [
        | none ↦ pure none
        | some c ↦ run_claimed clock adapters format slice c lease_ms attempt
      ])
      clock adapters format slice (claim_publish_job id lease_ms q) w
      (claim_returns id lease_ms q (clock w.ticks) w.db) after
  where
    db1 : Db
    db1 = (claim_publish_job id lease_ms q (clock w.ticks) w.db).1

    after :
        (o : Option ClaimedPublishJob)
        → (claim_publish_job id lease_ms q (clock w.ticks) w.db).0 ≡ ok o
        → Ended id n w.db (
            (elim o as (λ x. Work (Option LogContext)) [
              | none ↦ pure none
              | some c ↦ run_claimed clock adapters format slice c lease_ms attempt
            ])
              (record w { db = db1; ticks = suc w.ticks }))
    after none e = claim_none id lease_ms q (clock w.ticks) w.db e
    after (some c) e =
        let now = clock w.ticks in
        let (j, found, _, _, _, _, is, _) = claim_sound id lease_ms q now w.db c e in
        let row = claim_row id lease_ms q now w.db c e in
        run_claimed-Ended clock adapters format slice id n w.db c lease_ms attempt
          (record w { db = db1; ticks = suc w.ticks }) (find_job_id id c.job db1 row) row
          (ap (λ (i : PublishJob). i.retry_count) is ∙ (whole j found).0)
          (subst (λ i. (i.status ≡ JobStatus.claimed) ⊎ (is_persisted i ≡ true)) (sym is)
            (claimed_state now lease_ms j (whole j found).1))
