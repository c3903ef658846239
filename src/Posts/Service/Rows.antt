-- ===== src/Posts/Service/Rows.antt =====
-- The rows of a post's jobs that `mutate` of backend/src/posts/pg-post.repository.ts leaves in the table.
use social_promotion_automat.Base.{
  All-member, String, false, Option, none, some, List, [], ◌∷◌, map, ◌===◌, ◌≡◌, ◌≢◌, refl, sym, ap,
  ◌∙◌, subst, inl, inr, arith, All, Pairwise, Pairwise-select, Pairwise-order_by, Member,
  Member-find, Member-select, Member-order_by, find, find_holds, find-update, update, select,
  eq_iff, eq_refl, if◌then◌else◌, Bool-cases, Option-cases, text_leb,
}
use social_promotion_automat.Entity.{PublishJob}
use social_promotion_automat.Result.{ok}
use social_promotion_automat.Store.{Db, job_is, post_is, find_job}
use social_promotion_automat.Posts.{
  PostRecord, PostDb, read, edit_jobs, same_job, edit_job, edited_job, enqueue_trigger, jobs_of,
}
use social_promotion_automat.Posts.Change.{write_record, edited_post}
use social_promotion_automat.Posts.Service.Edit.{read_found}

-- Rows with different primary keys.
abbrev pub Other : PublishJob → PublishJob → Type 0
Other i j = i.id ≢ j.id

-- A row is the one that its key finds.
find-Member :
    (j : PublishJob) (jobs : List PublishJob)
    → Pairwise Other jobs
    → Member j jobs
    → find (job_is j.id) jobs ≡ some j
unfolding find
find-Member j [] h m = elim m [ ]
find-Member j (i ∷ jobs) h (inl here) =
    ground (arith, here, eq_iff i.id j.id, ap (λ (x : PublishJob). x.id) here)
find-Member j (i ∷ jobs) h (inr later) =
    let apart : i.id ≢ j.id = All-member (Other i) j jobs h.0 later in
    ground (arith, apart, eq_iff i.id j.id, find-Member j jobs h.1 later)

jobs-enqueue_trigger :
    (queue_id : String → String) (old : Option PublishJob) (new : PublishJob) (db : Db)
    → (enqueue_trigger queue_id old new db).jobs ≡ db.jobs
unfolding enqueue_trigger
jobs-enqueue_trigger queue_id none new db = ground arith
jobs-enqueue_trigger queue_id (some o) new db = ground arith

module _ (queue_id : String → String) (k : String) where
  find_job-edit_job :
      (job : PublishJob) (db : Db)
      → find_job k (edit_job queue_id job db)
        ≡ find (job_is k) (update (job_is job.id) (edited_job job) db.jobs)
  unfolding find_job edit_job
  find_job-edit_job job db = go (find (job_is job.id) db.jobs)
    where
      db' : Db
      db' = record db { jobs = update (job_is job.id) (edited_job job) db.jobs }

      go :
          (o : Option PublishJob)
          → find
              (job_is k)
              (elim o as (λ x. Db) [
                | none ↦ db'
                | some old ↦ enqueue_trigger queue_id (some old) (edited_job job old) db'
              ]).jobs
            ≡ find (job_is k) db'.jobs
      go none = refl
      go (some old) = ap (find (job_is k)) (jobs-enqueue_trigger queue_id (some old) _ db')

  edit_job_self :
      (job j : PublishJob) (db : Db)
      → job.id ≡ k
      → find_job k db ≡ some j
      → find_job k (edit_job queue_id job db) ≡ some (edited_job job j)
  unfolding find_job
  edit_job_self job j db same found =
      let its : j.id ≡ k = (eq_iff j.id k).0 (find_holds (job_is k) db.jobs j found) in
      find_job-edit_job job db
      ∙ find-update (job_is k) (job_is job.id) (edited_job job) db.jobs (λ x h. refl)
      ∙ rw found (rw (its, same) (rw (eq_refl k) refl))

  edit_job_other :
      (job j : PublishJob) (db : Db)
      → job.id ≢ k
      → find_job k db ≡ some j
      → find_job k (edit_job queue_id job db) ≡ some j
  unfolding find_job
  edit_job_other job j db other found =
      let its : j.id ≡ k = (eq_iff j.id k).0 (find_holds (job_is k) db.jobs j found) in
      let differs : (j.id === job.id) ≡ false = ground (arith, eq_iff j.id job.id) in
      find_job-edit_job job db
      ∙ find-update (job_is k) (job_is job.id) (edited_job job) db.jobs (λ x h. refl)
      ∙ rw found (rw differs refl)

  edit_jobs_other :
      (current jobs : List PublishJob) (j : PublishJob) (db : Db)
      → All (λ (i : PublishJob). i.id ≢ k) jobs
      → find_job k db ≡ some j
      → find_job k (edit_jobs queue_id current jobs db) ≡ some j
  unfolding edit_jobs
  edit_jobs_other current [] j db others found = found
  edit_jobs_other current (i ∷ jobs) j db others found =
      let edited =
        edit_jobs_other current jobs j (edit_job queue_id i db) others.1
          (edit_job_other i j db others.0 found) in
      let kept = edit_jobs_other current jobs j db others.1 found in
      elim (Option-cases (find (job_is i.id) current)) [
        | inl lost ↦ rw (lost, edit_jobs) edited
        | inr (old, e) ↦ elim (Bool-cases (same_job old i)) [
          | inl same ↦ rw (e, edit_jobs) (rw (same, edit_jobs) kept)
          | inr other ↦ rw (e, edit_jobs) (rw (other, edit_jobs) edited)
        ]
      ]

-- The row that an edit leaves of a job `j` that it makes `job`.
abbrev pub left_job : PublishJob → PublishJob → PublishJob
left_job j job = if same_job j job then j else edited_job job j

module _ (queue_id : String → String) (f : PublishJob → PublishJob)
    (keeps : (j : PublishJob) → (f j).id ≡ j.id) where
  others :
      (j : PublishJob) (jobs : List PublishJob)
      → All (Other j) jobs
      → All (λ (i : PublishJob). i.id ≢ j.id) (map f jobs)
  others j [] h = tt
  others j (i ∷ jobs) h = ((λ e. h.0 (sym e ∙ keeps i)), others j jobs h.1)

  edit_jobs_first :
      (current jobs : List PublishJob) (j : PublishJob) (db : Db)
      → All (Other j) jobs
      → find (job_is j.id) current ≡ some j
      → find_job j.id db ≡ some j
      → find_job j.id (edit_jobs queue_id current (f j ∷ map f jobs) db) ≡ some (left_job j (f j))
  unfolding edit_jobs
  edit_jobs_first current jobs j db apart read' found =
      let own : find (job_is (f j).id) current ≡ some j = rw (keeps j) read' in
      elim (Bool-cases (same_job j (f j))) [
        | inl same ↦
            rw (own, edit_jobs)
              (rw (same, edit_jobs)
                (edit_jobs_other queue_id j.id current (map f jobs) j db (others j jobs apart)
                  found))
        | inr other ↦
            rw (own, edit_jobs)
              (rw (other, edit_jobs)
                (edit_jobs_other queue_id j.id current (map f jobs) (edited_job (f j) j)
                  (edit_job queue_id (f j) db) (others j jobs apart)
                  (edit_job_self queue_id j.id (f j) j db (keeps j) found)))
      ]

  edit_jobs_left :
      (current jobs : List PublishJob) (j : PublishJob) (db : Db)
      → Pairwise Other jobs
      → Member j jobs
      → find (job_is j.id) current ≡ some j
      → find_job j.id db ≡ some j
      → find_job j.id (edit_jobs queue_id current (map f jobs) db) ≡ some (left_job j (f j))
  unfolding edit_jobs
  edit_jobs_left current [] j db apart m read' found = elim m [ ]
  edit_jobs_left current (i ∷ jobs) j db apart (inl here) read' found =
      subst
        (λ x.
          find_job j.id (edit_jobs queue_id current (f x ∷ map f jobs) db)
          ≡ some (left_job j (f j)))
        (sym here)
        (edit_jobs_first current jobs j db (subst (λ x. All (Other x) jobs) here apart.0) read'
          found)
  edit_jobs_left current (i ∷ jobs) j db apart (inr later) read' found =
      let differs : (f i).id ≢ j.id =
        λ e. (All-member (Other i) j jobs apart.0 later) (sym (keeps i) ∙ e) in
      let edited =
        edit_jobs_left current jobs j (edit_job queue_id (f i) db) apart.1 later read'
          (edit_job_other queue_id j.id (f i) j db differs found) in
      let kept = edit_jobs_left current jobs j db apart.1 later read' found in
      elim (Option-cases (find (job_is (f i).id) current)) [
        | inl lost ↦ rw (lost, edit_jobs) edited
        | inr (old, e) ↦ elim (Bool-cases (same_job old (f i))) [
          | inl same ↦ rw (e, edit_jobs) (rw (same, edit_jobs) kept)
          | inr other ↦ rw (e, edit_jobs) (rw (other, edit_jobs) edited)
        ]
      ]

  -- What an edit that makes each job of the post `f` of it leaves of the row of one of them, where the primary keys differ.
  pub mutated_row :
      (id owner_id k : String) (c next : PostRecord) (j : PublishJob) (s : PostDb)
      → read id owner_id s ≡ ok c
      → next.jobs ≡ map f c.jobs
      → Pairwise Other s.db.jobs
      → find_job k s.db ≡ some j
      → j.post_id ≡ id
      → Member j c.jobs
        × (find_job k (write_record queue_id id owner_id c next s.db) ≡ some (left_job j (f j)))
  unfolding write_record find_job jobs_of
  mutated_row id owner_id k c next j s got made apart found of_post =
      let is_jobs = (read_found id owner_id s c got).1 in
      let its : j.id ≡ k = (eq_iff j.id k).0 (find_holds (job_is k) s.db.jobs j found) in
      let of_id = λ (x : PublishJob). x.post_id === id in
      let edited = record s.db { posts = update (post_is id) (edited_post next.post) s.db.posts } in
      let earlier = λ (x y : PublishJob). text_leb x.id y.id in
      let there : Member j c.jobs = subst (Member j) (sym is_jobs) (
        Member-order_by earlier j (select of_id s.db.jobs) (
          Member-select of_id j s.db.jobs (ground (arith, eq_iff j.post_id id))
            (Member-find (job_is k) j s.db.jobs found))) in
      let distinct : Pairwise Other c.jobs = subst (Pairwise Other) (sym is_jobs) (
        Pairwise-order_by earlier Other (select of_id s.db.jobs) (λ x y d e. d (sym e))
          (Pairwise-select Other of_id s.db.jobs apart)) in
      (
        there,
        rw made (
            subst
              (λ i.
                find (job_is i) (edit_jobs queue_id c.jobs (map f c.jobs) edited).jobs
                ≡ some (left_job j (f j)))
              its
              (edit_jobs_left c.jobs c.jobs j edited distinct there
                (find-Member j c.jobs distinct there)
                (subst (λ i. find (job_is i) s.db.jobs ≡ some j) (sym its) found))),
      )
