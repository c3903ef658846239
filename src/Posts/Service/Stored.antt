-- ===== src/Posts/Service/Stored.antt =====
-- What a cancellation and a schedule of backend/src/posts/post.service.ts leave of the rows of a post's jobs.
use social_promotion_automat.Base.{
  ◌===◌, ◌==◌, ◌&&◌, ℕ, String, Bool, true, false, Option, some, List, ◌≡◌, ◌≢◌, refl, ap, ◌∙◌, ◌⊎◌,
  inl, inr, arith, truthy?, Bool-cases, Pairwise, any-false,
}
use social_promotion_automat.Entity.{JobStatus, PublishJob}
use social_promotion_automat.Entity.Equality.{same_status_iff, same_platform, same_status}
use social_promotion_automat.Result.{ok}
use social_promotion_automat.Store.{Db, find_job}
use social_promotion_automat.Outbox.{claimable, is_ready}
use social_promotion_automat.Posts.{PostRecord, PostDb, same_job, edited_job}
use social_promotion_automat.Posts.Service.{
  cancel, not_cancellable, cancelled_job, can_be_cancelled,
}
use social_promotion_automat.Posts.Service.Outcome.{cancel_made}
use social_promotion_automat.Posts.Service.Rows.{Other, left_job, mutated_row}

cancelled_job-id : (j : PublishJob) → (cancelled_job j).id ≡ j.id
unfolding cancelled_job
cancelled_job-id j = ground arith

-- What a cancellation makes of a row: a published one stays, and any other is cancelled.
abbrev pub Cancelled : PublishJob → PublishJob → Type 0
Cancelled j j' =
    ((j.status ≡ JobStatus.published) × (j' ≡ j))
    ⊎ ((j.status ≢ JobStatus.published) × (j'.status ≡ JobStatus.cancelled))

fourth_and_fifth :
    (a b c d e f g h i j k l m n o : Bool)
    → (a && b && c && d && e && f && g && h && i && j && k && l && m && n && o) ≡ true
    → (d ≡ true) × (e ≡ true)
fourth_and_fifth false b c d e f g h i j k l m n o all_true = absurd (ground arith)
fourth_and_fifth true false c d e f g h i j k l m n o all_true = absurd (ground arith)
fourth_and_fifth true true false d e f g h i j k l m n o all_true = absurd (ground arith)
fourth_and_fifth true true true false e f g h i j k l m n o all_true = absurd (ground arith)
fourth_and_fifth true true true true false f g h i j k l m n o all_true = absurd (ground arith)
fourth_and_fifth true true true true true f g h i j k l m n o all_true = (refl, refl)

same_number : (m n : ℕ) → (m == n) ≡ true → m ≡ n
same_number m n h = ground arith

same_job_columns :
    (i j : PublishJob)
    → same_job i j ≡ true
    → (i.status ≡ j.status) × (i.scheduled_at ≡ j.scheduled_at)
unfolding same_job
same_job_columns i j h =
    let (status, at) =
      fourth_and_fifth (i.post_id === j.post_id) (same_platform i.platform j.platform)
        (i.account_id === j.account_id) (same_status i.status j.status)
        (i.scheduled_at == j.scheduled_at) _ _ _ _ _ _ _ _ _ _ h in
    ((same_status_iff i.status j.status).0 status, same_number i.scheduled_at j.scheduled_at at)

-- A row that an edit leaves has the columns of the edit, or was like it before.
left_job_cases :
    (P : PublishJob → Type 0) (j job : PublishJob)
    → (j.status ≡ job.status → j.scheduled_at ≡ job.scheduled_at → P j)
    → P (edited_job job j)
    → P (left_job j job)
left_job_cases P j job kept edited = elim (Bool-cases (same_job j job)) [
  | inl same ↦ let (status, at) = same_job_columns j job same in rw same (kept status at)
  | inr other ↦ rw other edited
]

left-Cancelled :
    (j : PublishJob) → not_cancellable j ≡ false → Cancelled j (left_job j (cancelled_job j))
unfolding not_cancellable cancelled_job
left-Cancelled j h = go j.status refl
  where
    gone :
        can_be_cancelled j.status ≡ true
        → j.status ≢ JobStatus.published
        → j.status ≢ JobStatus.cancelled
        → Cancelled j (left_job j (cancelled_job j))
    gone can unpublished open_yet =
        rw (can, cancelled_job)
          (left_job_cases (Cancelled j) j _ (λ status at. absurd (open_yet status))
            (inr (unpublished, refl)))

    stays :
        can_be_cancelled j.status ≡ false
        → Cancelled j j
        → Cancelled j (left_job j (cancelled_job j))
    stays cannot settled =
        rw (cannot, cancelled_job) (left_job_cases (Cancelled j) j j (λ status at. settled) settled)

    go : (s : JobStatus) → j.status ≡ s → Cancelled j (left_job j (cancelled_job j))
    go JobStatus.waiting e = gone (rw e refl) (λ p. cc (e, p)) (λ p. cc (e, p))
    go JobStatus.claimed e = absurd (ground arith)
    go JobStatus.remote_requesting e = absurd (ground arith)
    go JobStatus.remote_confirmed e = absurd (ground arith)
    go JobStatus.published e = stays (rw e refl) (inl (e, refl))
    go JobStatus.failed e = gone (rw e refl) (λ p. cc (e, p)) (λ p. cc (e, p))
    go JobStatus.retrying e = gone (rw e refl) (λ p. cc (e, p)) (λ p. cc (e, p))
    go JobStatus.cancelled e = stays (rw e refl) (inr ((λ p. cc (e, p)), e))

Cancelled-unclaimable :
    (db : Db) (now : ℕ) (q : Option String) (j j' : PublishJob)
    → Cancelled j j'
    → claimable db now q j' ≡ false
unfolding claimable is_ready
Cancelled-unclaimable db now q j j' (inl (was, same)) = ground (arith, was, same)
Cancelled-unclaimable db now q j j' (inr (was, is_cancelled)) = ground (arith, is_cancelled)

-- What a schedule makes of a row: a cancelled one stays, and any other waits for the time without a request key.
abbrev pub Rescheduled : ℕ → PublishJob → PublishJob → Type 0
Rescheduled at j j' =
    ((j.status ≡ JobStatus.cancelled) × (j' ≡ j))
    ⊎ ((j.status ≢ JobStatus.cancelled)
        × (j'.status ≡ JobStatus.waiting)
        × (j'.scheduled_at ≡ at)
        × (truthy? j'.remote_request_key ≡ false))

-- After a cancellation that goes through, the row of each job of the post is published as it was, or cancelled, and no
-- worker can claim it at any time, whatever message it answers. The jobs' primary keys differ.
pub cancel_settles :
    (queue_id : String → String) (now : ℕ) (id owner_id : String) (n : ℕ)
    (is_blank is_https : String → Bool) (issues : PostRecord → List String) (uuid : ℕ → String)
    (s : PostDb) (r : PostRecord) (k : String) (j : PublishJob) (later : ℕ) (q : Option String)
    → (cancel is_blank is_https issues queue_id uuid now owner_id id n s).0 ≡ ok r
    → Pairwise Other s.db.jobs
    → find_job k s.db ≡ some j
    → j.post_id ≡ id
    → let s' = (cancel is_blank is_https issues queue_id uuid now owner_id id n s).1 in
      (j' : PublishJob) × (find_job k s'.db ≡ some j')
      × Cancelled j j'
      × (claimable s'.db later q j' ≡ false)
cancel_settles queue_id now id owner_id n is_blank is_https issues uuid s r k j later q h apart
      found of_post =
    let (c, next, got, free, jobs, written) =
      cancel_made queue_id now id owner_id n is_blank is_https issues uuid s r h in
    let (there, left) =
      mutated_row queue_id cancelled_job cancelled_job-id id owner_id k c next j s got jobs apart
        found of_post in
    let settled = left-Cancelled j (any-false not_cancellable j c.jobs free there) in
    (
      left_job j (cancelled_job j),
      ap (λ (x : PostDb). find_job k x.db) written ∙ left,
      settled,
      Cancelled-unclaimable _ later q j _ settled,
    )
