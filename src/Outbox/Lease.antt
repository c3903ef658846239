-- ===== src/Outbox/Lease.antt =====
-- Claiming a job in backend/src/publishing/pg-publish-outbox.repository.ts: who gets it, and for how long.
use social_promotion_automat.Base.{
  ℕ, ◌+◌, ◌<◌, ◌≤◌, String, Bool, true, false, not, ◌&&◌, Option, none, some, List, [], ◌∷◌, ◌≡◌,
  ◌≢◌, refl, ◌⊎◌, inl, inr, arith, eq_iff, Option-cases, Bool-cases, ◌∙◌, ◌===◌, any, find, sym, ap,
  subst,
}
use social_promotion_automat.Entity.{JobStatus, PostStatus, Post, PublishJob}
use social_promotion_automat.Entity.Equality.{same_post_status}
use social_promotion_automat.Result.{ok, ok-injective, some_inj}
use social_promotion_automat.Store.{Db, find_job, find_post, post_is, update_job, updated_job}
use social_promotion_automat.Store.Laws.{find_job-update_job_self}
use social_promotion_automat.Outbox.{
  ClaimedPublishJob, claim_publish_job, claimable, claimed_job, is_ready, has_approved_post,
  mark_remote_requesting, can_request, requesting_job, queue_matches,
}

-- The rows of the tables that a claim reads beside the job's are those of before.
claimable-update_job :
    (db : Db) (now : ℕ) (q : Option String) (k : String) (g : PublishJob → Bool)
    (f : PublishJob → PublishJob) (j : PublishJob)
    → claimable (update_job k g f db) now q j ≡ claimable db now q j
unfolding claimable has_approved_post update_job queue_matches
claimable-update_job db now none k g f j = refl
claimable-update_job db now (some q) k g f j = refl

has_post :
    (ps : List Post) (k : String)
    → any (λ p. (p.id === k) && not (same_post_status p.status PostStatus.draft)) ps ≡ true
    → find (post_is k) ps ≢ none
unfolding any find
has_post [] k h = cc
has_post (p ∷ ps) k h = ground (arith, has_post ps k)

claimable_post :
    (db : Db) (now : ℕ) (q : Option String) (j : PublishJob)
    → claimable db now q j ≡ true
    → (p : Post) × (find_post j.post_id db ≡ some p)
unfolding claimable has_approved_post find_post
claimable_post db now q j h = elim (Option-cases (find (post_is j.post_id) db.posts)) [
  | inl lost ↦ absurd (has_post db.posts j.post_id (ground arith) lost)
  | inr found ↦ found
]

-- A claimed row is leased: no claim takes it before its lease ends.
leased :
    (db : Db) (now lease_ms now' : ℕ) (q : Option String) (j : PublishJob)
    → now' < now + lease_ms
    → claimable db now' q (claimed_job now lease_ms j) ≡ false
unfolding claimable is_ready
leased db now lease_ms now' q j h = ground arith

claim_takes :
    (job_id : String) (lease_ms : ℕ) (q : Option String) (now : ℕ) (db : Db) (j : PublishJob)
    (p : Post)
    → find_job job_id db ≡ some j
    → claimable db now q j ≡ true
    → find_post j.post_id db ≡ some p
    → claim_publish_job job_id lease_ms q now db ≡ (
      ok (some (record { post = p; job = claimed_job now lease_ms j })),
      update_job job_id (claimable db now q) (claimed_job now lease_ms) db,
    )
unfolding claim_publish_job updated_job
claim_takes job_id lease_ms q now db j p e h found =
    rw (e, claim_publish_job, updated_job) (rw h (rw found refl))

-- The row that a claim leaves of a job that meets its condition.
pub claim_taken :
    (job_id : String) (lease_ms : ℕ) (q : Option String) (now : ℕ) (db : Db) (j : PublishJob)
    → find_job job_id db ≡ some j
    → claimable db now q j ≡ true
    → (p : Post) × (find_post j.post_id db ≡ some p)
      × ((claim_publish_job job_id lease_ms q now db).0
          ≡ ok (some (record { post = p; job = claimed_job now lease_ms j })))
      × (find_job job_id (claim_publish_job job_id lease_ms q now db).1
          ≡ some (claimed_job now lease_ms j))
claim_taken job_id lease_ms q now db j e h =
    let (p, found) = claimable_post db now q j h in
    let taken = claim_takes job_id lease_ms q now db j p e h found in
    (
      p,
      found,
      ap (λ r. r.0) taken,
      rw taken (
          rw
            (find_job-update_job_self job_id (claimable db now q) (claimed_job now lease_ms)
              (λ i. refl) db)
            (rw e (rw h refl))),
    )

-- A job that is missing or does not meet the condition is not claimed, and nothing is written.
pub claim_declines :
    (job_id : String) (lease_ms : ℕ) (q : Option String) (now : ℕ) (db : Db)
    → ((j : PublishJob) → find_job job_id db ≡ some j → claimable db now q j ≡ false)
    → claim_publish_job job_id lease_ms q now db ≡ (ok none, db)
unfolding claim_publish_job updated_job
claim_declines job_id lease_ms q now db h = elim (Option-cases (find_job job_id db)) [
  | inl lost ↦ ground arith
  | inr (j, e) ↦ ground (arith, h j e)
]

-- What a successful claim has found.
claim_found :
    (job_id : String) (lease_ms : ℕ) (q : Option String) (now : ℕ) (db : Db) (c : ClaimedPublishJob)
    → (claim_publish_job job_id lease_ms q now db).0 ≡ ok (some c)
    → (j : PublishJob) × (find_job job_id db ≡ some j) × (claimable db now q j ≡ true)
claim_found job_id lease_ms q now db c h = elim (Option-cases (find_job job_id db)) [
  | inl lost ↦ absurd (
      nothing
        (claim_declines job_id lease_ms q now db (λ j e. absurd (none-ne-some j (sym lost ∙ e)))))
  | inr (j, e) ↦ elim (Bool-cases (claimable db now q j)) [
    | inl can ↦ (j, e, can)
    | inr cannot ↦ absurd (
        nothing (
          claim_declines job_id lease_ms q now db
            (λ i f. subst (λ i. claimable db now q i ≡ false) (some_inj (sym e ∙ f)) cannot)))
  ]
]
  where
    none-ne-some : (j : PublishJob) → ◌≡◌ {A = Option PublishJob} none (some j) → ⊥
    none-ne-some j e = cc

    nothing : claim_publish_job job_id lease_ms q now db ≡ (ok none, db) → ⊥
    nothing e = cc (h, ap (λ r. r.0) e)

-- The row that a claim returns is the one in the table.
pub claim_row :
    (job_id : String) (lease_ms : ℕ) (q : Option String) (now : ℕ) (db : Db) (c : ClaimedPublishJob)
    → (claim_publish_job job_id lease_ms q now db).0 ≡ ok (some c)
    → find_job job_id (claim_publish_job job_id lease_ms q now db).1 ≡ some c.job
claim_row job_id lease_ms q now db c e =
    let (j, found, can) = claim_found job_id lease_ms q now db c e in
    let (p, _, result, row) = claim_taken job_id lease_ms q now db j found can in
    let same : some (record { post = p; job = claimed_job now lease_ms j }) ≡ some c =
      ok-injective (sym result ∙ e) in
    row ∙ ap (λ d. some d.job) (some_inj same)

-- After a claim, no other claim of the job succeeds before the lease ends, whatever message it answers.
pub claim_exclusive :
    (job_id : String) (lease_ms lease_ms' : ℕ) (q q' : Option String) (now now' : ℕ) (db : Db)
    (c : ClaimedPublishJob)
    → (claim_publish_job job_id lease_ms q now db).0 ≡ ok (some c)
    → now' < now + lease_ms
    → let db' = (claim_publish_job job_id lease_ms q now db).1 in
      claim_publish_job job_id lease_ms' q' now' db' ≡ (ok none, db')
claim_exclusive job_id lease_ms lease_ms' q q' now now' db c e h =
    let (j, found, can) = claim_found job_id lease_ms q now db c e in
    let (p, _, _, row) = claim_taken job_id lease_ms q now db j found can in
    let db' = (claim_publish_job job_id lease_ms q now db).1 in
    claim_declines job_id lease_ms' q' now' db' (λ i f.
      subst (λ i. claimable db' now' q' i ≡ false) (some_inj (sym row ∙ f))
        (leased db' now lease_ms now' q' j h))

pub claim_sound :
    (job_id : String) (lease_ms : ℕ) (q : Option String) (now : ℕ) (db : Db) (c : ClaimedPublishJob)
    → (claim_publish_job job_id lease_ms q now db).0 ≡ ok (some c)
    → (j : PublishJob) × (find_job job_id db ≡ some j)
      × (j.scheduled_at ≤ now)
      × (has_approved_post db j ≡ true)
      × (queue_matches db q j ≡ true)
      × (is_ready now j ≡ true)
      × (c.job ≡ claimed_job now lease_ms j)
      × (find_post j.post_id db ≡ some c.post)
unfolding claimable
claim_sound job_id lease_ms q now db c e =
    let (j, found, can) = claim_found job_id lease_ms q now db c e in
    let (p, post, result, _) = claim_taken job_id lease_ms q now db j found can in
    let same : some (record { post = p; job = claimed_job now lease_ms j }) ≡ some c =
      ok-injective (sym result ∙ e) in
    (
      j,
      found,
      ground arith,
      ground arith,
      ground arith,
      ground arith,
      ground (arith, same),
      ground (arith, post, same),
    )

can_request_key :
    (key : String) (j : PublishJob)
    → can_request key j ≡ true
    → (j.status ≡ JobStatus.claimed)
      × ((j.remote_request_key ≡ none) ⊎ (j.remote_request_key ≡ some key))
unfolding can_request
can_request_key key j h = elim (Option-cases j.remote_request_key) [
  | inl fresh ↦ (ground arith, inl fresh)
  | inr (k, kept) ↦ (ground arith, inr (ground (arith, eq_iff k key)))
]

requesting_key :
    (key : String) (lease_ms now : ℕ) (j : PublishJob)
    → (j.remote_request_key ≡ none) ⊎ (j.remote_request_key ≡ some key)
    → (requesting_job key lease_ms now j).remote_request_key ≡ some key
requesting_key key lease_ms now j h = ground arith

-- A job enters `remote_requesting` only from `claimed`, and with the key that it already carries or, if it
-- carries none, with the one that is given; the row that is returned is in the table.
pub request_key :
    (job_id key : String) (lease_ms now : ℕ) (db : Db) (j' : PublishJob)
    → (mark_remote_requesting job_id key lease_ms now db).0 ≡ ok j'
    → (j : PublishJob) × (find_job job_id db ≡ some j)
      × (j.status ≡ JobStatus.claimed)
      × ((j.remote_request_key ≡ none) ⊎ (j.remote_request_key ≡ some key))
      × (j'.remote_request_key ≡ some key)
      × (j'.status ≡ JobStatus.remote_requesting)
      × (find_job job_id (mark_remote_requesting job_id key lease_ms now db).1 ≡ some j')
unfolding mark_remote_requesting updated_job
request_key job_id key lease_ms now db j' e = elim (Option-cases (find_job job_id db)) [
  | inl lost ↦ absurd (ground arith)
  | inr (j, found) ↦ elim (Bool-cases (can_request key j)) [
    | inr cannot ↦ absurd (ground arith)
    | inl can ↦
        let (was, keyed) = can_request_key key j can in
        let same : requesting_job key lease_ms now j ≡ j' =
          ok-injective (rw can at (rw (found, updated_job) at e)) in
        (
          j,
          found,
          was,
          keyed,
          rw (← same) (requesting_key key lease_ms now j keyed),
          rw (← same) refl,
          rw
              (find_job-update_job_self job_id (can_request key) (requesting_job key lease_ms now)
                (λ i. refl) db)
              (rw found (rw can (ap some same))),
        )
  ]
]
