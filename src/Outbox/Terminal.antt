-- ===== src/Outbox/Terminal.antt =====
-- What backend/src/publishing/pg-publish-outbox.repository.ts records of a success.
use mathlib.Core.Option
use social_promotion_automat.Base.{
  String, Bool, true, false, ◌&&◌, Option, none, some, List, [], ◌∷◌, ◌≡◌, refl, inl, inr, arith,
  eq_refl, Bool-cases, if◌then◌else◌, apply_if, ◌∙◌, find, update, ap,
}
use social_promotion_automat.Entity.{JobStatus, PublishJob}
use social_promotion_automat.Store.{Db, SocialPostRow, find_job, update_job, updated_job, job_is}
use social_promotion_automat.Store.Laws.{
  find_job-update_job_self, find_job-update_job_hit, updated_job_hit,
}
use social_promotion_automat.Outbox.{insert_audit}
use social_promotion_automat.Outbox.Save.{
  save_success, is_confirmed, published_job, record_publication, upsert_social_post, social_post_of,
  social_post_is,
}
use social_promotion_automat.Outbox.Transition.{find_job-record_publication}

-- the published row of a job
unfoldable pub find_social_post : String → Db → Option SocialPostRow
find_social_post k db = find (social_post_is k) db.social_posts

find-upsert_social_post :
    (row : SocialPostRow) (rows : List SocialPostRow)
    → (s : SocialPostRow) × (find
          (social_post_is row.social_publish_job_id)
          (upsert_social_post row rows)
        ≡ some s)
      × (s.remote_post_id ≡ row.remote_post_id)
      × (s.remote_post_url ≡ row.remote_post_url)
      × (s.published_at ≡ row.published_at)
unfolding find upsert_social_post
find-upsert_social_post row [] =
    (row, ground (arith, eq_refl row.social_publish_job_id), refl, refl, refl)
find-upsert_social_post row (s ∷ rows) =
    elim (Bool-cases (social_post_is row.social_publish_job_id s)) [
      | inl here ↦ (
        record s {
          remote_post_id = row.remote_post_id;
          remote_post_url = row.remote_post_url;
          published_at = row.published_at;
        },
        ground arith,
        refl,
        refl,
        refl,
      )
      | inr later ↦
          let (t, found, id, url, at') = find-upsert_social_post row rows in
          (t, ground (arith, found), id, url, at')
    ]

social_posts-insert_audit :
    (action job_id post_id : String) (db : Db)
    → (insert_audit action job_id post_id db).social_posts ≡ db.social_posts
unfolding insert_audit
social_posts-insert_audit action job_id post_id db = ground arith

none_confirmed :
    (from : PublishJob) (o : Option PublishJob)
    → ◌≡◌ {A = Option PublishJob}
        (elim (Option.map (apply_if is_confirmed (published_job from)) o) [
          | none ↦ none
          | some j ↦ if is_confirmed j then some (published_job from j) else none
        ])
        none
unfolding is_confirmed
none_confirmed from none = refl
none_confirmed from (some j) = ground arith

confirmed_of_status :
    (j : PublishJob) → j.status ≡ JobStatus.remote_confirmed → is_confirmed j ≡ true
unfolding is_confirmed
confirmed_of_status j h = ground arith

recorded_posts :
    (row : PublishJob) (db : Db)
    → (record_publication (some row) db).social_posts
      ≡ upsert_social_post (social_post_of row) db.social_posts
unfolding record_publication
recorded_posts row db = social_posts-insert_audit _ _ _ _

-- The rows that saving a success leaves of a confirmed job.
pub save_success-row :
    (from j : PublishJob) (db : Db)
    → find_job from.id db ≡ some j
    → j.status ≡ JobStatus.remote_confirmed
    → (s : SocialPostRow) × (find_job from.id (save_success from db) ≡ some (published_job from j))
      × (find_social_post j.id (save_success from db) ≡ some s)
      × (s.remote_post_id ≡ from.remote_post_id)
      × (s.remote_post_url ≡ from.remote_post_url)
      × (s.published_at ≡ from.published_at)
unfolding save_success find_social_post
save_success-row from j db found status =
    let confirmed : is_confirmed j ≡ true = confirmed_of_status j status in
    let db' = update_job from.id is_confirmed (published_job from) db in
    let (s, row, id, url, at') =
      find-upsert_social_post (social_post_of (published_job from j)) db'.social_posts in
    let hit = updated_job_hit from.id is_confirmed (published_job from) j db found confirmed in
    (
      s,
      find_job-record_publication from.id _ db'
          ∙ find_job-update_job_hit from.id is_confirmed (published_job from) (λ i. refl) j db found
              confirmed,
      rw hit (ap (find (social_post_is j.id)) (recorded_posts (published_job from j) db') ∙ row),
      id,
      url,
      at',
    )

update_idempotent :
    (p : PublishJob → Bool) (f : PublishJob → PublishJob) (js : List PublishJob)
    → ((j : PublishJob) → p j ≡ true → p (f j) ≡ false)
    → update p f (update p f js) ≡ update p f js
unfolding update
update_idempotent p f [] out = refl
update_idempotent p f (j ∷ js) out = ground (arith, out j, update_idempotent p f js out)

jobs-record_publication :
    (o : Option PublishJob) (db : Db) → (record_publication o db).jobs ≡ db.jobs
unfolding record_publication insert_audit
jobs-record_publication o db = ground arith

jobs-save_success :
    (from : PublishJob) (db : Db)
    → (save_success from db).jobs
      ≡ update (λ j. job_is from.id j && is_confirmed j) (published_job from) db.jobs
unfolding save_success update_job
jobs-save_success from db = jobs-record_publication _ _

published-is_confirmed :
    (from j : PublishJob)
    → (job_is from.id (published_job from j) && is_confirmed (published_job from j)) ≡ false
unfolding is_confirmed
published-is_confirmed from j = ground arith

not_confirmed_after :
    (from : PublishJob) (db : Db)
    → updated_job from.id is_confirmed (published_job from) (save_success from db) ≡ none
unfolding save_success updated_job
not_confirmed_after from db =
    rw (find_job-record_publication from.id _ _, updated_job)
      (rw (find_job-update_job_self from.id is_confirmed (published_job from) (λ i. refl) db)
        (none_confirmed from (find_job from.id db)))

-- Saving a success again changes nothing: no second row, no second audit entry.
pub save_success_idempotent :
    (from : PublishJob) (db : Db) → save_success from (save_success from db) ≡ save_success from db
unfolding save_success record_publication update_job updated_job
save_success_idempotent from db =
    let p = λ (j : PublishJob). job_is from.id j && is_confirmed j in
    let once = save_success from db in
    let same : update p (published_job from) once.jobs ≡ once.jobs =
      rw (jobs-save_success from db)
        (update_idempotent p (published_job from) db.jobs (λ j h. published-is_confirmed from j)) in
    rw (not_confirmed_after from db) (ap (λ js. record once { jobs = js }) same)
