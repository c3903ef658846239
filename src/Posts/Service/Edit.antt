-- ===== src/Posts/Service/Edit.antt =====
-- The edits of backend/src/posts/post.service.ts: the revision that they are made against, and what they
-- leave of a post's jobs.
use social_promotion_automat.Base.{
  ℕ, suc, String, true, Option, none, some, List, [], ◌∷◌, ◌≡◌, refl, sym, ap, ◌∙◌, inl, inr, arith,
  Bool-cases, Option-cases, if◌then◌else◌, find, find-update, find_holds, update,
}
use social_promotion_automat.Entity.{Post, PublishJob}
use social_promotion_automat.Result.{Result, ok, raised, ok-injective, bind_ok}
use social_promotion_automat.Store.{Db, job_is, post_is}
use social_promotion_automat.Posts.{
  PostRecord, PostDb, read, check_accounts, edit_jobs, same_job, edit_job, enqueue_trigger,
  owned_post_is, jobs_of,
}
use social_promotion_automat.Posts.Change.{mutate, checked_change, write_record, edited_post}

-- What a change that was made has read, computed and written.
abbrev pub Changed :
    (String → String)
    → String
    → String
    → (PostRecord → Result PostRecord)
    → PostDb
    → PostRecord
    → PostDb
    → Type 0
Changed queue_id id owner_id work s r s' =
    (current next : PostRecord) × (read id owner_id s ≡ ok current)
    × (work current ≡ ok next)
    × (r ≡ record next { post = record next.post { revision = suc next.post.revision } })
    × (s' ≡ record s { db = write_record queue_id id owner_id current next s.db })

module _ (queue_id : String → String) (now : ℕ) (id owner_id : String) where
  checked_found :
      (work : PostRecord → Result PostRecord) (s : PostDb) (c n : PostRecord)
      → checked_change now id owner_id work s ≡ ok (c, n)
      → (read id owner_id s ≡ ok c) × (work c ≡ ok n)
  unfolding checked_change
  checked_found work s c n h =
      let (c', got, h1) = bind_ok (read id owner_id s) _ (c, n) h in
      let (n', made, h2) = bind_ok (work c') _ (c, n) h1 in
      let (u, checked, h3) = bind_ok (check_accounts now owner_id true _ s.accounts) _ (c, n) h2 in
      let same : (c', n') ≡ (c, n) = ok-injective h3 in
      (got ∙ ap (λ x. ok x.0) same, rw (← ap (λ x. x.0) same) made ∙ ap (λ x. ok x.1) same)

  -- A change that goes through writes exactly its own record; one that throws writes nothing.
  pub mutate-Changed :
      (work : PostRecord → Result PostRecord) (s : PostDb) (r : PostRecord)
      → (mutate queue_id now id owner_id work s).0 ≡ ok r
      → Changed queue_id id owner_id work s r (mutate queue_id now id owner_id work s).1
  unfolding mutate
  mutate-Changed work s r h = go (checked_change now id owner_id work s) refl
    where
      go :
          (m : Result (PostRecord × PostRecord))
          → checked_change now id owner_id work s ≡ m
          → Changed queue_id id owner_id work s r (mutate queue_id now id owner_id work s).1
      go (raised e) eq = absurd (ground arith)
      go (ok (c, n)) eq =
          let (got, made) = checked_found work s c n eq in
          (c, n, got, made, sym (ok-injective (rw (eq, mutate) at h)), rw (eq, mutate) refl)

posts-enqueue_trigger :
    (queue_id : String → String) (old : Option PublishJob) (new : PublishJob) (db : Db)
    → (enqueue_trigger queue_id old new db).posts ≡ db.posts
unfolding enqueue_trigger
posts-enqueue_trigger queue_id none new db = ground arith
posts-enqueue_trigger queue_id (some o) new db = ground arith

posts-edit_job :
    (queue_id : String → String) (job : PublishJob) (db : Db)
    → (edit_job queue_id job db).posts ≡ db.posts
unfolding edit_job
posts-edit_job queue_id job db = elim (Option-cases (find (job_is job.id) db.jobs)) [
  | inl lost ↦ rw (lost, edit_job) refl
  | inr (old, e) ↦ rw (e, edit_job) (posts-enqueue_trigger queue_id (some old) _ _)
]

posts-edit_jobs :
    (queue_id : String → String) (current jobs : List PublishJob) (db : Db)
    → (edit_jobs queue_id current jobs db).posts ≡ db.posts
unfolding edit_jobs
posts-edit_jobs queue_id current [] db = refl
posts-edit_jobs queue_id current (job ∷ jobs) db =
    elim (Option-cases (find (job_is job.id) current)) [
      | inl lost ↦
          rw (lost, edit_jobs)
            (posts-edit_jobs queue_id current jobs (edit_job queue_id job db)
              ∙ posts-edit_job queue_id job db)
      | inr (old, e) ↦ elim (Bool-cases (same_job old job)) [
        | inl same ↦
            rw (e, edit_jobs) (rw (same, edit_jobs) (posts-edit_jobs queue_id current jobs db))
        | inr other ↦
            rw (e, edit_jobs)
              (rw (other, edit_jobs)
                (posts-edit_jobs queue_id current jobs (edit_job queue_id job db)
                  ∙ posts-edit_job queue_id job db))
      ]
    ]

posts-write_record :
    (queue_id : String → String) (id owner_id : String) (c n : PostRecord) (db : Db)
    → (write_record queue_id id owner_id c n db).posts
      ≡ update (post_is id) (edited_post n.post) db.posts
unfolding write_record
posts-write_record queue_id id owner_id c n db = posts-edit_jobs queue_id c.jobs n.jobs _

pub read_found :
    (id owner_id : String) (s : PostDb) (c : PostRecord)
    → read id owner_id s ≡ ok c
    → (find (owned_post_is id owner_id) s.db.posts ≡ some c.post) × (c.jobs ≡ jobs_of id s.db.jobs)
unfolding read
read_found id owner_id s c h = elim (Option-cases (find (owned_post_is id owner_id) s.db.posts)) [
  | inl lost ↦ absurd (ground arith)
  | inr (p, e) ↦
      let same : record { post = p; jobs = jobs_of id s.db.jobs } ≡ c =
        ok-injective (rw (e, read) at h) in
      (
        e ∙ ap some (ap (λ (x : PostRecord). x.post) same),
        sym (ap (λ (x : PostRecord). x.jobs) same),
      )
]

module _ (queue_id : String → String) (now : ℕ) (id owner_id : String) where
  -- An edit that goes through raises the post's revision by one.
  pub mutate-revision :
      (work : PostRecord → Result PostRecord) (s : PostDb) (r c : PostRecord)
      → (mutate queue_id now id owner_id work s).0 ≡ ok r
      → read id owner_id s ≡ ok c
      → (c' : PostRecord) × (read id owner_id (mutate queue_id now id owner_id work s).1 ≡ ok c')
        × (c'.post.revision ≡ suc c.post.revision)
  unfolding read
  mutate-revision work s r c h got =
      let (current, next, was, made, result, written) =
        mutate-Changed queue_id now id owner_id work s r h in
      let db' = write_record queue_id id owner_id current next s.db in
      let found : find (owned_post_is id owner_id) db'.posts ≡ some (edited_post next.post c.post) =
        rw (posts-write_record queue_id id owner_id current next s.db) (
          rw
            (find-update (owned_post_is id owner_id) (post_is id) (edited_post next.post) s.db.posts
              (λ x e. refl))
            (rw ((read_found id owner_id s c got).0)
              (applied next c.post (find_holds _ _ _ (read_found id owner_id s c got).0)))) in
      (
        record { post = edited_post next.post c.post; jobs = jobs_of id db'.jobs },
        rw written (rw (found, read) refl),
        refl,
      )
    where
      applied :
          (next : PostRecord) (p : Post)
          → owned_post_is id owner_id p ≡ true
          → ◌≡◌ {A = Option Post}
              (some (if post_is id p then edited_post next.post p else p))
              (some (edited_post next.post p))
      applied next p e = ground arith
