-- ===== src/Publishing/Worker/Outcome/Settle.antt =====
-- The three ways in which backend/src/publishing/publish-worker.processor.ts records how a request has ended.
use social_promotion_automat.Base.{
  leb→le, ◌≤◌, ℕ, suc, ◌≤◌, String, true, Option, none, some, List, ◌≡◌, refl, or_else,
  if◌then◌else◌, leb, arith, Bool-cases, Option-cases, inl, inr, ap, ◌∙◌, sym, subst,
}
use social_promotion_automat.Entity.{JobStatus, Post, PublishJob}
use social_promotion_automat.Store.{Db, find_job, updated_job}
use social_promotion_automat.Store.Laws.{find_job-update_job_hit, find_job_id}
use social_promotion_automat.Retry.{PublishFailure, should_retry_publish}
use social_promotion_automat.Result.{ok, ok-injective}
use social_promotion_automat.Outbox.{
  confirm_remote_publication, confirmed_job, is_requesting, is_active,
  record_ambiguous_remote_outcome,
}
use social_promotion_automat.Outbox.Save.{save_success, save_failure, published_job}
use social_promotion_automat.Outbox.Terminal.{save_success-row}
use social_promotion_automat.Retry.Laws.{should_retry-delay}
use social_promotion_automat.Publishing.{SocialPost, SocialAdapter, World}
use social_promotion_automat.Publishing.Worker.{
  job_failed, job_terminal, ◌>>=◌, ◌>>◌, pure, throw, log_context, deferred_message,
  execution_message, execute, deferred_job, persist_success, defer_ambiguous_remote_outcome,
  settle_failure,
}
use social_promotion_automat.Publishing.Worker.Outcome.{
  query-split, Ended, next_retry-split, delay_set, confirms, deferred-Waits, deferred-Fails,
  failure-Waits, failure-Fails, Ended-subst,
}

retry_few : (f : PublishFailure) (m : ℕ) → should_retry_publish f m ≡ true → m ≤ 3
unfolding should_retry_publish
retry_few f m h = ground arith

module _ (clock : ℕ → ℕ) (adapters : List SocialAdapter) (format : Post → PublishJob → SocialPost)
    (slice : String → String) (id : String) (n : ℕ) (db0 : Db) where
  confirm_found :
      (job j : PublishJob) (db : Db)
      → (confirm_remote_publication job db).0 ≡ ok j
      → (find_job job.id (confirm_remote_publication job db).1 ≡ some j)
        × (j.status ≡ JobStatus.remote_confirmed)
        × (j.id ≡ job.id)
  unfolding confirm_remote_publication updated_job
  confirm_found job j db e = elim (Option-cases (find_job job.id db)) [
    | inl lost ↦ absurd (ground arith)
    | inr (i, found) ↦ elim (Bool-cases (is_requesting i)) [
      | inr cannot ↦ absurd (ground arith)
      | inl can ↦
          let same : confirmed_job job i ≡ j =
            ok-injective (rw can at (rw (found, updated_job) at e)) in
          let row =
            find_job-update_job_hit job.id is_requesting (confirmed_job job) (λ x. refl) i db found
              can in
          (
            row ∙ ap some same,
            rw (← same) refl,
            ap (λ (x : PublishJob). x.id) (sym same) ∙ find_job_id job.id i db found,
          )
    ]
  ]

  published_found :
      (j : PublishJob) (w : World)
      → j.id ≡ id
      → find_job j.id w.db ≡ some j
      → j.status ≡ JobStatus.remote_confirmed
      → (row : PublishJob) × (find_job id (save_success j w.db) ≡ some row)
        × (row.status ≡ JobStatus.published)
  published_found j w same found confirmed =
      let (s, row, _, _, _, _) = save_success-row j j w.db found confirmed in
      (
        published_job j j,
        subst (λ k. find_job k (save_success j w.db) ≡ some (published_job j j)) same row,
        refl,
      )

  pub persist_success-Ended :
      (campaign_id : String) (job row : PublishJob) (attempt : ℕ) (w : World)
      → job.id ≡ id
      → find_job id w.db ≡ some row
      → row.status ≡ JobStatus.remote_requesting
      → Ended id n db0 (persist_success clock adapters format slice campaign_id job attempt w)
  unfolding persist_success ◌>>=◌
  persist_success-Ended campaign_id job row attempt w same stored state =
      query-split (Ended id n db0)
        (λ j.
          execute clock adapters format slice (save_success j)
          >> pure (some (log_context campaign_id j attempt none)))
        clock adapters format slice (λ now. confirm_remote_publication job) w
        (λ e h. confirms id job row w.db e same stored state h)
        (λ j e.
          let (found, confirmed, jid) = confirm_found job j w.db e in
          published_found j
            (record w { db = (confirm_remote_publication job w.db).1; ticks = suc w.ticks })
            (jid ∙ same)
            (subst (λ k. find_job k (confirm_remote_publication job w.db).1 ≡ some j) (sym jid)
              found)
            confirmed)

  pub defer-Ended :
      (campaign_id : String) (job row : PublishJob) (attempt : ℕ) (w : World)
      → job.id ≡ id
      → find_job id w.db ≡ some row
      → is_active row ≡ true
      → (deferred_job job).retry_count ≡ suc n
      → Ended id n db0
          (defer_ambiguous_remote_outcome clock adapters format slice campaign_id job attempt w)
  unfolding defer_ambiguous_remote_outcome ◌>>=◌
  defer-Ended campaign_id job row attempt w same found active counted =
      let b = leb (deferred_job job).retry_count 3 in
      next_retry-split (Ended id n db0)
        (λ next.
          execute clock adapters format slice
            (record_ambiguous_remote_outcome (deferred_job job) b next)
          >> throw (
              if b
              then job_failed
                  (log_context campaign_id (deferred_job job) attempt
                    (some "AMBIGUOUS_REMOTE_OUTCOME"))
                  deferred_message
              else job_terminal
                  (log_context campaign_id (deferred_job job) attempt
                    (some "AMBIGUOUS_REMOTE_OUTCOME"))
                  deferred_message))
        clock adapters format slice b (deferred_job job).retry_count w
        (λ e. delay_set (deferred_job job).retry_count (omega (arith, counted)) e)
        (λ next w' quiet timed.
          let there : find_job id w'.db ≡ some row = rw quiet found in
          Ended-subst id n db0 b _ _
            (λ p. record_ambiguous_remote_outcome (deferred_job job) p next w'.db) w'
            (λ e.
              deferred-Waits id n (deferred_job job) row next w'.db same there active (timed ∙ e)
                counted (omega (arith, leb→le (deferred_job job).retry_count 3 e, counted)))
            (λ e. deferred-Fails id (deferred_job job) row next w'.db same there active))

  pub settle_failure-Ended :
      (campaign_id : String) (job row : PublishJob) (message : Option String) (f : PublishFailure)
      (attempt : ℕ) (w : World)
      → job.id ≡ id
      → find_job id w.db ≡ some row
      → is_active row ≡ true
      → (should_retry_publish f job.retry_count ≡ true → job.retry_count ≡ suc n)
      → Ended id n db0
          (settle_failure clock adapters format slice campaign_id job message f attempt w)
  unfolding settle_failure ◌>>=◌
  settle_failure-Ended campaign_id job row message f attempt w same found active counts =
      let b = should_retry_publish f job.retry_count in
      next_retry-split (Ended id n db0)
        (λ next.
          execute clock adapters format slice (save_failure job b next)
          >> throw (
              if b
              then job_failed
                  (log_context campaign_id job attempt
                    (some (or_else job.error_code "UNKNOWN_ERROR")))
                  (execution_message job message)
              else job_terminal
                  (log_context campaign_id job attempt
                    (some (or_else job.error_code "UNKNOWN_ERROR")))
                  (execution_message job message)))
        clock adapters format slice b job.retry_count w
        (λ e.
          let (d, set, _, _) = should_retry-delay f job.retry_count (omega (arith, counts e)) e in
          (d, set))
        (λ next w' quiet timed.
          let there : find_job id w'.db ≡ some row = rw quiet found in
          Ended-subst id n db0 b _ _ (λ p. save_failure job p next w'.db) w'
            (λ e.
              failure-Waits id n job row next w'.db same there active (timed ∙ e) (counts e)
                (omega (arith, retry_few f job.retry_count e, counts e)))
            (λ e. failure-Fails id job row next w'.db same there active))
