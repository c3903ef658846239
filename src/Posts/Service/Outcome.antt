-- ===== src/Posts/Service/Outcome.antt =====
-- What a schedule, a cancellation and a retry of backend/src/posts/post.service.ts find of a post and write.
use social_promotion_automat.Base.{
  ℕ, ◌<◌, String, Bool, true, false, none, some, List, [], ◌∷◌, map, ◌≡◌, refl, sym, ap, inl, inr,
  arith, leb, any, find, truthy?, Bool-cases, Option-cases,
}
use social_promotion_automat.Entity.{JobStatus, PostStatus, PublishJob}
use social_promotion_automat.Entity.Equality.{same_post_status}
use social_promotion_automat.Result.{ok, raise_if, bind_ok, raise_if_ok, ok-injective}
use social_promotion_automat.Store.{job_is}
use social_promotion_automat.Posts.{PostRecord, PostDb, read}
use social_promotion_automat.Posts.Service.{
  check_revision, cancel_record, retry_record, retry_found, schedule_record, schedule, cancel,
  retry, not_cancellable, cancelled_job, not_reschedulable, rescheduled_job, not_retriable,
}
use social_promotion_automat.Posts.Change.{write_record}
use social_promotion_automat.Posts.Service.Edit.{mutate-Changed}

cancel_record_jobs :
    (n : ℕ) (c r : PostRecord)
    → cancel_record n c ≡ ok r
    → (any not_cancellable c.jobs ≡ false) × (r.jobs ≡ map cancelled_job c.jobs)
unfolding cancel_record
cancel_record_jobs n c r h =
    let (_, _, h1) = bind_ok (check_revision c n) _ r h in
    let (u, free, h2) = bind_ok (raise_if (any not_cancellable c.jobs) _) _ r h1 in
    (raise_if_ok _ _ u free, ap (λ (x : PostRecord). x.jobs) (sym (ok-injective h2)))

-- What a cancellation that goes through has found and written.
pub cancel_made :
    (queue_id : String → String) (now : ℕ) (id owner_id : String) (n : ℕ)
    (is_blank is_https : String → Bool) (issues : PostRecord → List String) (uuid : ℕ → String)
    (s : PostDb) (r : PostRecord)
    → let done = cancel is_blank is_https issues queue_id uuid now owner_id id n s in
      done.0 ≡ ok r
      → (c next : PostRecord) × (read id owner_id s ≡ ok c)
        × (any not_cancellable c.jobs ≡ false)
        × (next.jobs ≡ map cancelled_job c.jobs)
        × (done.1 ≡ record s { db = write_record queue_id id owner_id c next s.db })
unfolding cancel
cancel_made queue_id now id owner_id n is_blank is_https issues uuid s r h =
    let (c, next, got, made, _, written) =
      mutate-Changed queue_id now id owner_id (cancel_record n) s r h in
    let (free, jobs) = cancel_record_jobs n c next made in (c, next, got, free, jobs, written)

module _ (is_blank is_https : String → Bool) (issues : PostRecord → List String) where
  schedule_record_jobs :
      (at n : ℕ) (c r : PostRecord)
      → schedule_record is_blank is_https issues at n c ≡ ok r
      → (any not_reschedulable c.jobs ≡ false)
        × (r.jobs ≡ map (rescheduled_job at) c.jobs)
        × (r.post.status ≡ PostStatus.scheduled)
        × (issues c ≡ [])
  unfolding schedule_record
  schedule_record_jobs at n c r h =
      let (_, _, h1) = bind_ok (check_revision c n) _ r h in
      let (u, free, h2) = bind_ok (raise_if (any not_reschedulable c.jobs) _) _ r h1 in
      let (_, _, h3) =
        bind_ok (raise_if (same_post_status c.post.status PostStatus.cancelled) _) _ r h2 in
      let (v, clean, h4) =
        bind_ok (raise_if (elim (issues c) [ [] ↦ false | i ∷ is ↦ true ]) _) _ r h3 in
      let same = sym (ok-injective h4) in
      (
        raise_if_ok _ _ u free,
        ap (λ (x : PostRecord). x.jobs) same,
        ap (λ (x : PostRecord). x.post.status) same,
        no_issue (issues c) (raise_if_ok _ _ v clean),
      )
    where
      no_issue :
          (is : List String)
          → elim is as (λ x. Bool) [ [] ↦ false | i ∷ is ↦ true ] ≡ false
          → is ≡ []
      no_issue [] e = refl
      no_issue (i ∷ is) e = absurd (ground arith)

  -- What a schedule that goes through has found and written.
  pub schedule_made :
      (queue_id : String → String) (uuid : ℕ → String) (now at n : ℕ) (id owner_id : String)
      (s : PostDb) (r : PostRecord)
      → let done = schedule is_blank is_https issues queue_id uuid now owner_id id (some at) n s in
        done.0 ≡ ok r
        → (now < at)
          × (r.post.status ≡ PostStatus.scheduled)
          × ((c next : PostRecord) × (read id owner_id s ≡ ok c)
              × (issues c ≡ [])
              × (any not_reschedulable c.jobs ≡ false)
              × (next.jobs ≡ map (rescheduled_job at) c.jobs)
              × (done.1 ≡ record s { db = write_record queue_id id owner_id c next s.db }))
  unfolding schedule
  schedule_made queue_id uuid now at n id owner_id s r h = elim (Bool-cases (leb at now)) [
    | inl past ↦ absurd (ground arith)
    | inr future ↦
        let (c, next, got, made, result, written) =
          mutate-Changed queue_id now id owner_id (schedule_record is_blank is_https issues at n) s
            r (rw future at h) in
        let (free, jobs, status, clean) = schedule_record_jobs at n c next made in
        (
          ground arith,
          rw result status,
          (c, next, got, clean, free, jobs, rw (future, schedule) written),
        )
  ]

retry_missing :
    (now : ℕ) (job_id : String) (c next : PostRecord) → retry_found now job_id c none ≡ ok next → ⊥
unfolding retry_found
retry_missing now job_id c next h = ground arith

retry_found_job :
    (now : ℕ) (job_id : String) (c next : PostRecord) (j : PublishJob)
    → retry_found now job_id c (some j) ≡ ok next
    → (j.status ≡ JobStatus.failed)
      × (truthy? j.remote_request_key ≡ false)
      × (truthy? j.remote_post_id ≡ false)
unfolding retry_found not_retriable
retry_found_job now job_id c next j h =
    let (u, free, _) = bind_ok (raise_if (not_retriable j) _) _ next h in
    let may : not_retriable j ≡ false = raise_if_ok _ _ u free in
    (ground arith, ground arith, ground arith)

-- A retry goes through only for a job of the post that failed without a request key and without a remote
-- post: never for an outcome that is ambiguous.
pub retry_unambiguous :
    (is_blank is_https : String → Bool) (issues : PostRecord → List String)
    (queue_id : String → String) (uuid : ℕ → String) (now n : ℕ) (id owner_id job_id : String)
    (s : PostDb) (r : PostRecord)
    → (retry is_blank is_https issues queue_id uuid now owner_id id job_id n s).0 ≡ ok r
    → (c : PostRecord) × (j : PublishJob) × (read id owner_id s ≡ ok c)
      × (find (job_is job_id) c.jobs ≡ some j)
      × (j.status ≡ JobStatus.failed)
      × (truthy? j.remote_request_key ≡ false)
      × (truthy? j.remote_post_id ≡ false)
unfolding retry retry_record
retry_unambiguous is_blank is_https issues queue_id uuid now n id owner_id job_id s r h =
    let (c, next, got, made, _, _) =
      mutate-Changed queue_id now id owner_id (retry_record now job_id n) s r h in
    let (_, _, h1) = bind_ok (check_revision c n) _ next made in
    elim (Option-cases (find (job_is job_id) c.jobs)) [
      | inl lost ↦ absurd (retry_missing now job_id c next (rw lost at h1))
      | inr (j, e) ↦
          let (status, key, remote) = retry_found_job now job_id c next j (rw e at h1) in
          (c, j, got, e, status, key, remote)
    ]
