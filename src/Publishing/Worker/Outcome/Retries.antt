-- ===== src/Publishing/Worker/Outcome/Retries.antt =====
-- The deliveries of one job that backend/src/publishing/publish-worker.processor.ts asks BullMQ to repeat.
use social_promotion_automat.Base.{
  ℕ, suc, ◌+◌, ◌≤◌, String, true, Option, some, List, ◌≡◌, refl, ◌⊎◌, inl, inr, arith, sym, ◌∙◌,
  subst, ap,
}
use social_promotion_automat.Entity.{JobStatus, Post, PublishJob}
use social_promotion_automat.Result.{some_inj}
use social_promotion_automat.Store.{Db, find_job}
use social_promotion_automat.Publishing.{SocialPost, SocialAdapter, World}
use social_promotion_automat.Publishing.Worker.{
  LogContext, WorkError, job_failed, Done, done, stopped, process, is_persisted,
}
use social_promotion_automat.Publishing.Worker.Outcome.{Waits, Ended}
use social_promotion_automat.Publishing.Worker.Outcome.Process.{process_ends}

-- A confirmed row carries its remote id and its time.
abbrev pub IsWhole : PublishJob → Type 0
IsWhole j = j.status ≡ JobStatus.remote_confirmed → is_persisted j ≡ true

Waits-Ended :
    (id : String) (n : ℕ) (db : Db) (r : Done (Option LogContext) × World) (context : LogContext)
    (message : String)
    → r.0 ≡ stopped (job_failed context message)
    → Ended id n db r
    → Waits id n r.1.db
Waits-Ended id n db (done o, w) context message e h = absurd (cc e)
Waits-Ended id n db (stopped (job_failed c m), w) context message e h = h
Waits-Ended id n db (stopped (WorkError.job_terminal c m), w) context message e h = absurd (cc e)
Waits-Ended id n db (stopped (WorkError.other x), w) context message e h = absurd (h)

waiting-IsWhole :
    (row : PublishJob)
    → (row.status ≡ JobStatus.retrying) ⊎ (row.status ≡ JobStatus.remote_requesting)
    → IsWhole row
waiting-IsWhole row h e = absurd (ground (arith, h, e))

module _ (clock : ℕ → ℕ) (adapters : List SocialAdapter) (format : Post → PublishJob → SocialPost)
    (slice : String → String) (id : String) where
  -- A number of deliveries of the job, one after the other, each of which asks for another.
  pub data Redelivered (w : World) : ℕ → World → Type 0 where
    first : Redelivered w 0 w
    again :
        {n : ℕ} {v : World} (lease_ms attempt : ℕ) (q : Option String) (context : LogContext)
        (message : String)
        → Redelivered w n v
        → (process clock adapters format slice id lease_ms attempt q v).0
          ≡ stopped (job_failed context message)
        → Redelivered w (suc n) (process clock adapters format slice id lease_ms attempt q v).1

  -- Each delivery that asks for another counts one failure more, and none asks once there are more than three: of a
  -- job that has failed so often, at most that many fewer are repeated. Nothing else changes the job meanwhile, and
  -- its row, if it is confirmed, carries its remote id and its time.
  pub redeliveries_end :
      {w w' : World} {k : ℕ} (j : PublishJob)
      → Redelivered w k w'
      → find_job id w.db ≡ some j
      → IsWhole j
      → (row : PublishJob) × (find_job id w'.db ≡ some row)
        × (row.retry_count ≡ k + j.retry_count)
        × ((k ≡ 0) ⊎ (k + j.retry_count ≤ 3))
        × IsWhole row
  redeliveries_end j first found whole = (j, found, omega arith, inl refl, whole)
  redeliveries_end j (again {n} {v} lease_ms attempt q context message run e) found whole =
      let (row, there, count, _, kept) = redeliveries_end j run found whole in
      let (row', there', state, _, count', few) =
        Waits-Ended id row.retry_count v.db
          (process clock adapters format slice id lease_ms attempt q v) context message e
          (process_ends clock adapters format slice id lease_ms attempt q v row.retry_count (λ i f.
            let same : row ≡ i = some_inj (sym there ∙ f) in
            (ap (λ (x : PublishJob). x.retry_count) (sym same), subst IsWhole same kept))) in
      (
        row',
        there',
        omega (arith, count, count'),
        inr (omega (arith, count, few)),
        waiting-IsWhole row' state,
      )
