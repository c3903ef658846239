-- ===== src/Posts/Change.antt =====
-- `mutate` and `save` of backend/src/posts/pg-post.repository.ts.
use social_promotion_automat.Base.{
  ℕ, suc, String, true, false, ◌&&◌, none, List, [], ◌∷◌, ◌++◌, ◌===◌, if◌then◌else◌, find, select,
  update, is_none,
}
use social_promotion_automat.Entity.{PostStatus, Post, PublishJob}
use social_promotion_automat.Entity.Equality.{same_post_status}
use social_promotion_automat.Result.{Error, Result, ok, raised, ◌>>=◌, ◌>>◌, raise_if}
use social_promotion_automat.Store.{Db, post_is}
use social_promotion_automat.Posts.{
  PostRecord, PostRecord, CampaignRow, CampaignRow, PostDb, PostDb, read, check_accounts,
  enqueue_trigger, edit_jobs, insert_outboxes, is_waiting,
}

abbrev pub edited_post : Post → Post → Post
edited_post from p = record p {
  content = from.content;
  scheduled_at = from.scheduled_at;
  status = from.status;
  revision = suc p.revision;
}

-- What `mutate` writes for `next` in place of `current`.
unfoldable pub write_record :
    (String → String) → String → String → PostRecord → PostRecord → Db → Db
write_record queue_id id owner_id current next db =
    let edited = record db { posts = update (post_is id) (edited_post next.post) db.posts } in
    let db' = edit_jobs queue_id current.jobs next.jobs edited in
    let waiting = select (λ (j : PublishJob). (j.post_id === id) && is_waiting j) db'.jobs in
    let outbox =
      if same_post_status current.post.status PostStatus.draft
        && same_post_status next.post.status PostStatus.scheduled
      then insert_outboxes queue_id waiting db'.outbox
      else db'.outbox in
    record db' {
      outbox = outbox;
      audit =
          db'.audit ++ record { user_id = owner_id; action = "post.updated"; entity_id = id } ∷ [];
    }

-- `mutate` up to its first write.
unfoldable pub checked_change :
    ℕ
    → String
    → String
    → (PostRecord → Result PostRecord)
    → PostDb
    → Result (PostRecord × PostRecord)
checked_change now id owner_id work s = do
  current ← read id owner_id s
  next ← work current
  check_accounts now owner_id true
      (if same_post_status next.post.status PostStatus.scheduled
        then select is_waiting next.jobs
        else [])
      s.accounts
  ok (current, next)

-- `mutate`; a transaction that throws leaves the tables alone.
unfoldable pub mutate :
    (String → String)
    → ℕ
    → String
    → String
    → (PostRecord → Result PostRecord)
    → PostDb
    → Result PostRecord × PostDb
mutate queue_id now id owner_id work s = elim (checked_change now id owner_id work s) [
  | raised e ↦ (raised e, s)
  | ok (current, next) ↦ (
    ok (record next { post = record next.post { revision = suc next.post.revision } }),
    record s { db = write_record queue_id id owner_id current next s.db },
  )
]

-- The insertion of the new jobs, with its trigger.
unfoldable pub insert_jobs : (String → String) → List PublishJob → Db → Db
insert_jobs queue_id [] db = db
insert_jobs queue_id (job ∷ jobs) db =
    insert_jobs queue_id jobs
      (enqueue_trigger queue_id none job (record db { jobs = db.jobs ++ job ∷ [] }))

-- The campaign and the accounts of a new post.
unfoldable pub checked_post : ℕ → Post → List PublishJob → PostDb → Result (Unit {0})
checked_post now post jobs s = do
  raise_if
      (is_none (
        find (λ (c : CampaignRow). (c.id === post.campaign_id) && (c.owner_id === post.owner_id))
          s.campaigns))
      (Error.not_found "Campaign not found.")
  check_accounts now post.owner_id false jobs s.accounts

-- `save`
unfoldable pub save :
    (String → String) → ℕ → Post → List PublishJob → PostDb → Result (Unit {0}) × PostDb
save queue_id now post jobs s = elim (checked_post now post jobs s) [
  | raised e ↦ (raised e, s)
  | ok u ↦ (
    ok u,
    record s { db = insert_jobs queue_id jobs (record s.db { posts = s.db.posts ++ post ∷ [] }) },
  )
]
