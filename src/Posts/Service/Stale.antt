-- ===== src/Posts/Service/Stale.antt =====
-- The revision that an edit of backend/src/posts/post.service.ts names, and edits that name another one.
use social_promotion_automat.Base.{
  ℕ, ◌<◌, String, Bool, false, some, List, ◌≡◌, ◌≢◌, refl, arith, leb,
}
use social_promotion_automat.Entity.{PostContent}
use social_promotion_automat.Result.{Error, Result, ok, raised}
use social_promotion_automat.Posts.{PostRecord, PostDb, read}
use social_promotion_automat.Posts.Change.{mutate, checked_change}
use social_promotion_automat.Posts.Service.{
  check_revision, cancel_record, retry_record, update_record, schedule_record, update, schedule,
  cancel, retry,
}
use social_promotion_automat.Posts.Service.Edit.{mutate-revision}

abbrev pub changed : Error
changed = Error.conflict "Content changed. Reload and review the latest version."

-- A change that refuses every revision but one.
abbrev Guarded : ℕ → (PostRecord → Result PostRecord) → Type 0
Guarded n work = (r : PostRecord) → n ≢ r.post.revision → work r ≡ raised changed

mutate_stale :
    (queue_id : String → String) (now n : ℕ) (id owner_id : String)
    (work : PostRecord → Result PostRecord) (s : PostDb) (r : PostRecord)
    → Guarded n work
    → read id owner_id s ≡ ok r
    → n ≢ r.post.revision
    → mutate queue_id now id owner_id work s ≡ (raised changed, s)
unfolding mutate checked_change
mutate_stale queue_id now n id owner_id work s r guarded got stale =
    rw (got, mutate, checked_change) (rw (guarded r stale) refl)

module _ (is_blank is_https : String → Bool) (issues : PostRecord → List String) where
  update-Guarded :
      (content : PostContent) (n : ℕ) → Guarded n (update_record is_blank is_https issues content n)
  unfolding update_record check_revision
  update-Guarded content n r h = ground arith

  schedule-Guarded : (at n : ℕ) → Guarded n (schedule_record is_blank is_https issues at n)
  unfolding schedule_record check_revision
  schedule-Guarded at n r h = ground arith

  cancel-Guarded : (n : ℕ) → Guarded n (cancel_record n)
  unfolding cancel_record check_revision
  cancel-Guarded n r h = ground arith

  retry-Guarded : (now n : ℕ) (job_id : String) → Guarded n (retry_record now job_id n)
  unfolding retry_record check_revision
  retry-Guarded now n job_id r h = ground arith

  -- An edit, a schedule at a time to come, a cancellation and a retry that name another revision than the post's
  -- are refused, and nothing is written.
  pub edits_stale :
      (queue_id : String → String) (uuid : ℕ → String) (now at n : ℕ) (id owner_id job_id : String)
      (content : PostContent) (s : PostDb) (r : PostRecord)
      → read id owner_id s ≡ ok r
      → n ≢ r.post.revision
      → now < at
      → (update is_blank is_https issues queue_id uuid now owner_id id content n s
          ≡ (raised changed, s))
        × (schedule is_blank is_https issues queue_id uuid now owner_id id (some at) n s
            ≡ (raised changed, s))
        × (cancel is_blank is_https issues queue_id uuid now owner_id id n s ≡ (raised changed, s))
        × (retry is_blank is_https issues queue_id uuid now owner_id id job_id n s
            ≡ (raised changed, s))
  unfolding update schedule cancel retry
  edits_stale queue_id uuid now at n id owner_id job_id content s r got stale later =
      let future : leb at now ≡ false = ground arith in
      (
        mutate_stale queue_id now n id owner_id _ s r (update-Guarded content n) got stale,
        rw future (mutate_stale queue_id now n id owner_id _ s r (schedule-Guarded at n) got stale),
        mutate_stale queue_id now n id owner_id _ s r (cancel-Guarded n) got stale,
        mutate_stale queue_id now n id owner_id _ s r (retry-Guarded now n job_id) got stale,
      )

  -- After a cancellation has gone through, an edit or a schedule that was prepared against the same revision is
  -- refused and writes nothing.
  pub cancel_then_stale :
      (queue_id : String → String) (uuid : ℕ → String) (now at n : ℕ) (id owner_id : String)
      (content : PostContent) (s : PostDb) (r c : PostRecord)
      → read id owner_id s ≡ ok c
      → c.post.revision ≡ n
      → (cancel is_blank is_https issues queue_id uuid now owner_id id n s).0 ≡ ok r
      → now < at
      → let s' = (cancel is_blank is_https issues queue_id uuid now owner_id id n s).1 in
        (update is_blank is_https issues queue_id uuid now owner_id id content n s'
          ≡ (raised changed, s'))
        × (schedule is_blank is_https issues queue_id uuid now owner_id id (some at) n s'
            ≡ (raised changed, s'))
  unfolding cancel
  cancel_then_stale queue_id uuid now at n id owner_id content s r c got same done later =
      let (c', got', next) =
        mutate-revision queue_id now id owner_id (cancel_record n) s r c done got in
      let stale : n ≢ c'.post.revision = λ e. omega (arith, e, next, same) in
      let (edited, scheduled, _, _) =
        edits_stale queue_id uuid now at n id owner_id id content _ c' got' stale later in
      (edited, scheduled)
