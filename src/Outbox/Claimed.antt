-- ===== src/Outbox/Claimed.antt =====
-- The row that a claim of backend/src/publishing/pg-publish-outbox.repository.ts writes, column by column.
use social_promotion_automat.Base.{
  ℕ, ◌+◌, ◌≤◌, String, true, not, ◌&&◌, Option, none, some, List, [], ◌∷◌, ◌≡◌, ◌≢◌, refl, ◌⊎◌, inl,
  inr, arith, ◌===◌, any, find, sym, ◌∙◌, eq_iff, eq_refl, Member, any-Member, if◌then◌else◌,
  Bool-cases,
}
use social_promotion_automat.Entity.{JobStatus, PostStatus, Post, PublishJob}
use social_promotion_automat.Entity.Equality.{same_status, same_post_status}
use social_promotion_automat.Result.{ok, some_inj}
use social_promotion_automat.Store.{Db, OutboxRow, find_job, find_post, post_is}
use social_promotion_automat.Outbox.{
  ClaimedPublishJob, claim_publish_job, claimable, claimed_job, is_ready, has_approved_post,
  queue_matches,
}
use social_promotion_automat.Outbox.Lease.{claim_taken}

-- An instant that is set and has come.
abbrev pub Past : ℕ → Option ℕ → Type 0
Past now time = (t : ℕ) × (time ≡ some t) × (t ≤ now)

-- A job that waits, one whose next attempt has come, and one whose lease has run out.
abbrev pub Ready : ℕ → PublishJob → Type 0
Ready now j =
    (j.status ≡ JobStatus.waiting)
    ⊎ ((j.status ≡ JobStatus.retrying) × Past now j.next_retry_at)
    ⊎ ((j.status ≡ JobStatus.claimed) × Past now j.lease_expires_at)
    ⊎ ((j.status ≡ JobStatus.remote_requesting)
        × (Past now j.next_retry_at ⊎ Past now j.lease_expires_at))
    ⊎ ((j.status ≡ JobStatus.remote_confirmed)
        × ((j.lease_expires_at ≡ none) ⊎ Past now j.lease_expires_at))

Ready-is_ready : (now : ℕ) (j : PublishJob) → Ready now j → is_ready now j ≡ true
unfolding is_ready
Ready-is_ready now j (inl h) = ground arith
Ready-is_ready now j (inr (inl (s, (t, e, h)))) = ground (arith, s, e, h)
Ready-is_ready now j (inr (inr (inl (s, (t, e, h))))) = ground (arith, s, e, h)
Ready-is_ready now j (inr (inr (inr (inl (s, inl (t, e, h)))))) = ground (arith, s, e, h)
Ready-is_ready now j (inr (inr (inr (inl (s, inr (t, e, h)))))) = ground (arith, s, e, h)
Ready-is_ready now j (inr (inr (inr (inr (s, inl e))))) = ground (arith, s, e)
Ready-is_ready now j (inr (inr (inr (inr (s, inr (t, e, h)))))) = ground (arith, s, e, h)

-- The message that the worker answers stands in the outbox, or it answers none.
abbrev pub Named : Db → Option String → PublishJob → Type 0
Named db q j =
    (q ≡ none)
    ⊎ ((o : OutboxRow) × Member o db.outbox × (o.publish_job_id ≡ j.id) × (q ≡ some o.queue_job_id))

Named-queue_matches :
    (db : Db) (q : Option String) (j : PublishJob) → Named db q j → queue_matches db q j ≡ true
unfolding queue_matches
Named-queue_matches db q j (inl e) = ground arith
Named-queue_matches db q j (inr (o, there, job, message)) =
    rw (message, queue_matches)
      (any-Member
        (λ (x : OutboxRow). (x.publish_job_id === j.id) && (x.queue_job_id === o.queue_job_id)) o
        db.outbox there (ground (arith, eq_iff o.publish_job_id j.id, eq_refl o.queue_job_id, job)))

approved :
    (db : Db) (p : Post) (j : PublishJob)
    → find_post j.post_id db ≡ some p
    → p.status ≢ PostStatus.draft
    → has_approved_post db j ≡ true
unfolding has_approved_post find_post find any
approved db p j found final = go db.posts found
  where
    go :
        (ps : List Post)
        → find (post_is j.post_id) ps ≡ some p
        → any (λ p. (p.id === j.post_id) && not (same_post_status p.status PostStatus.draft)) ps
          ≡ true
    go [] h = absurd (ground arith)
    go (x ∷ ps) h = elim (Bool-cases (post_is j.post_id x)) [
      | inl here ↦ ground arith
      | inr later ↦ ground (arith, go ps)
    ]

-- A due job of an approved post that the message names is claimed where it waits, where it is to be retried and the time has
-- come, where the lease of a claimed job has run out, where the lease of a requesting job has run out or the time of its next
-- look has come, and where a confirmed job has no lease or one that has run out. The call returns the post and the row that
-- is then in the table: with a lease that ends the given time after now and no next attempt, claimed, or confirmed if it
-- was, and with the same id, post, platform, account, request key and count of retries.
pub claim_succeeds :
    (job_id : String) (lease_ms : ℕ) (q : Option String) (now : ℕ) (db : Db) (j : PublishJob)
    (p : Post)
    → find_job job_id db ≡ some j
    → find_post j.post_id db ≡ some p
    → p.status ≢ PostStatus.draft
    → j.scheduled_at ≤ now
    → Named db q j
    → Ready now j
    → (c : ClaimedPublishJob) × ((claim_publish_job job_id lease_ms q now db).0 ≡ ok (some c))
      × (find_job job_id (claim_publish_job job_id lease_ms q now db).1 ≡ some c.job)
      × (c.post ≡ p)
      × (c.job.lease_expires_at ≡ some (now + lease_ms))
      × (c.job.next_retry_at ≡ none)
      × (c.job.status ≡ (
          if same_status j.status JobStatus.remote_confirmed
          then JobStatus.remote_confirmed
          else JobStatus.claimed))
      × (c.job.id ≡ j.id)
      × (c.job.post_id ≡ j.post_id)
      × (c.job.platform ≡ j.platform)
      × (c.job.account_id ≡ j.account_id)
      × (c.job.remote_request_key ≡ j.remote_request_key)
      × (c.job.retry_count ≡ j.retry_count)
unfolding claimable
claim_succeeds job_id lease_ms q now db j p found post final due_now named ready =
    let can : claimable db now q j ≡ true = ground (
      arith,
      approved db p j post final,
      Named-queue_matches db q j named,
      Ready-is_ready now j ready,
    ) in
    let (p', found', result, row) = claim_taken job_id lease_ms q now db j found can in
    (
      record { post = p'; job = claimed_job now lease_ms j },
      result,
      row,
      some_inj (sym found' ∙ post),
      refl,
      refl,
      ground arith,
      refl,
      refl,
      refl,
      refl,
      refl,
      refl,
    )
