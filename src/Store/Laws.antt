-- ===== src/Store/Laws.antt =====
-- Reads after an update of the jobs table.
use mathlib.Core.Option
use social_promotion_automat.Base.{
  String, Bool, true, false, ◌&&◌, none, some, List, [], ◌∷◌, find, update, ◌≡◌, ◌≢◌, refl, arith,
  eq_iff, find_holds, apply_if, Option-cases, Bool-cases, inl, inr,
}
use social_promotion_automat.Entity.{PublishJob}
use social_promotion_automat.Store.{Db, find_job, update_job, updated_job, job_is}

-- A change of a row that keeps its primary key.
abbrev pub KeepsId : (PublishJob → PublishJob) → Type 0
KeepsId f = (j : PublishJob) → (f j).id ≡ j.id

module _ (k : String) (guard : PublishJob → Bool) (f : PublishJob → PublishJob)
    (keeps : KeepsId f) where
  find-update_self :
      (js : List PublishJob)
      → find (job_is k) (update (λ j. job_is k j && guard j) f js)
        ≡ Option.map (apply_if guard f) (find (job_is k) js)
  unfolding find update
  find-update_self [] = refl
  find-update_self (j ∷ js) =
      ground (arith, keeps j, eq_iff j.id k, eq_iff (f j).id k, find-update_self js)

  find-update_ne :
      (i : String) (js : List PublishJob)
      → i ≢ k
      → find (job_is i) (update (λ j. job_is k j && guard j) f js) ≡ find (job_is i) js
  unfolding find update
  find-update_ne i [] ne = refl
  find-update_ne i (j ∷ js) ne =
      ground
        (arith, keeps j, eq_iff j.id k, eq_iff j.id i, eq_iff (f j).id i, find-update_ne i js ne)

  -- The row under the key is changed where the guard holds.
  pub find_job-update_job_self :
      (db : Db)
      → find_job k (update_job k guard f db) ≡ Option.map (apply_if guard f) (find_job k db)
  unfolding find_job update_job
  find_job-update_job_self db = find-update_self db.jobs

  -- Every other row stays.
  pub find_job-update_job_ne :
      (i : String) (db : Db) → i ≢ k → find_job i (update_job k guard f db) ≡ find_job i db
  unfolding find_job update_job
  find_job-update_job_ne i db ne = find-update_ne i db.jobs ne

  pub find_job-update_job_hit :
      (j : PublishJob) (db : Db)
      → find_job k db ≡ some j
      → guard j ≡ true
      → find_job k (update_job k guard f db) ≡ some (f j)
  find_job-update_job_hit j db e h = rw (find_job-update_job_self db) (rw e (rw h refl))

-- The row that an update returns is the one that it writes.
pub updated_job_hit :
    (k : String) (guard : PublishJob → Bool) (f : PublishJob → PublishJob) (j : PublishJob)
    (db : Db)
    → find_job k db ≡ some j
    → guard j ≡ true
    → updated_job k guard f db ≡ some (f j)
unfolding updated_job
updated_job_hit k guard f j db e h = rw (e, updated_job) (rw h refl)

pub updated_job_miss :
    (k : String) (guard : PublishJob → Bool) (f : PublishJob → PublishJob) (j : PublishJob)
    (db : Db)
    → find_job k db ≡ some j
    → guard j ≡ false
    → updated_job k guard f db ≡ none
unfolding updated_job
updated_job_miss k guard f j db e h = rw (e, updated_job) (rw h refl)

-- The row that an update returns is the one under the key.
pub updated_job_id :
    (k : String) (guard : PublishJob → Bool) (f : PublishJob → PublishJob) (j : PublishJob)
    (db : Db)
    → KeepsId f
    → updated_job k guard f db ≡ some j
    → j.id ≡ k
unfolding updated_job find_job
updated_job_id k guard f j db keeps e = elim (Option-cases (find (job_is k) db.jobs)) [
  | inl lost ↦ absurd (ground arith)
  | inr (i, found) ↦ elim (Bool-cases (guard i)) [
    | inl can ↦ ground (arith, keeps i, eq_iff i.id k, find_holds (job_is k) db.jobs i found)
    | inr cannot ↦ absurd (ground arith)
  ]
]

-- The row that is found under a key carries it.
pub find_job_id : (k : String) (j : PublishJob) (db : Db) → find_job k db ≡ some j → j.id ≡ k
unfolding find_job
find_job_id k j db e = (eq_iff j.id k).0 (find_holds (job_is k) db.jobs j e)
