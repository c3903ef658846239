-- ===== src/Outbox/Transition.antt =====
-- The moves of a job's row under the statements of backend/src/publishing/pg-publish-outbox.repository.ts.
use mathlib.Core.Option
use social_promotion_automat.Base.{
  ℕ, String, Bool, true, false, Option, none, some, ◌≡◌, refl, ◌⊎◌, inl, inr, arith, eq_iff,
  Bool-cases, apply_if, ◌∙◌, ◌===◌,
}
use social_promotion_automat.Entity.{JobStatus, PublishJob}
use social_promotion_automat.Store.{Db, AlertRow, find_job, update_job}
use social_promotion_automat.Store.Laws.{KeepsId, find_job-update_job_self, find_job-update_job_ne}
use social_promotion_automat.Outbox.{
  claimable, claimed_job, is_ready, can_request, requesting_job, is_requesting, confirmed_job,
  is_active, ambiguous_job, audit_if_final, insert_final_failure_audit, insert_audit, insert_alert,
}
use social_promotion_automat.Outbox.Save.{
  is_confirmed, published_job, failed_job, record_publication,
}

-- The changes of status that the worker's statements may make: those that docs/publish-idempotency.md draws (waiting or
-- retrying to claimed to remote_requesting to remote_confirmed to published), and beside them a new claim after a lost
-- lease, a retry or a failure of a claimed or requesting job, and a status that stands.
abbrev pub may_move : JobStatus → JobStatus → Bool
may_move JobStatus.waiting JobStatus.claimed = true
may_move JobStatus.retrying JobStatus.claimed = true
may_move JobStatus.claimed JobStatus.claimed = true
may_move JobStatus.claimed JobStatus.remote_requesting = true
may_move JobStatus.claimed JobStatus.retrying = true
may_move JobStatus.claimed JobStatus.failed = true
may_move JobStatus.remote_requesting JobStatus.claimed = true
may_move JobStatus.remote_requesting JobStatus.remote_requesting = true
may_move JobStatus.remote_requesting JobStatus.remote_confirmed = true
may_move JobStatus.remote_requesting JobStatus.retrying = true
may_move JobStatus.remote_requesting JobStatus.failed = true
may_move JobStatus.remote_confirmed JobStatus.remote_confirmed = true
may_move JobStatus.remote_confirmed JobStatus.published = true
may_move _ _ = false

-- The states in which a definite refusal leaves a job, whose request key it clears.
abbrev pub is_refused : JobStatus → Bool
is_refused JobStatus.retrying = true
is_refused JobStatus.failed = true
is_refused _ = false

-- One change of a job row: what it is about stays, its status makes a move or the row stays whole, and its
-- request key stays once it is set, until a refusal clears it.
pub record Follows (j : PublishJob) (j' : PublishJob) : Type 0 where
  pub same_id : j'.id ≡ j.id
  pub same_post : j'.post_id ≡ j.post_id
  pub same_platform : j'.platform ≡ j.platform
  pub same_account : j'.account_id ≡ j.account_id
  pub same_schedule : j'.scheduled_at ≡ j.scheduled_at
  pub moves : (j' ≡ j) ⊎ (may_move j.status j'.status ≡ true)
  pub keeps_key :
      (j'.remote_request_key ≡ j.remote_request_key)
      ⊎ ((j.remote_request_key ≡ none)
          ⊎ ((j'.remote_request_key ≡ none) × (is_refused j'.status ≡ true)))

abbrev pub FollowsRow : Option PublishJob → Option PublishJob → Type 0
FollowsRow none none = Unit
FollowsRow (some j) (some j') = Follows j j'
FollowsRow _ _ = ⊥

-- No job appears or vanishes, and each makes at most one move.
abbrev pub FollowsAll : Db → Db → Type 0
FollowsAll db db' = (k : String) → FollowsRow (find_job k db) (find_job k db')

Follows-refl : (j : PublishJob) → Follows j j
Follows-refl j = record {
  same_id = refl;
  same_post = refl;
  same_platform = refl;
  same_account = refl;
  same_schedule = refl;
  moves = inl refl;
  keeps_key = inl refl;
}

FollowsRow-refl : (o : Option PublishJob) → FollowsRow o o
FollowsRow-refl none = tt
FollowsRow-refl (some j) = Follows-refl j

pub FollowsAll-refl : (db : Db) → FollowsAll db db
FollowsAll-refl db k = FollowsRow-refl (find_job k db)

-- A move of an updated row.
abbrev pub Moves : (PublishJob → Bool) → (PublishJob → PublishJob) → Type 0
Moves guard f = (j : PublishJob) → guard j ≡ true → Follows j (f j)

FollowsRow-map :
    (guard : PublishJob → Bool) (f : PublishJob → PublishJob)
    → Moves guard f
    → (o : Option PublishJob) → FollowsRow o (Option.map (apply_if guard f) o)
FollowsRow-map guard f m none = tt
FollowsRow-map guard f m (some j) = elim (Bool-cases (guard j)) [
  | inl yes' ↦ rw yes' (m j yes')
  | inr no' ↦ rw no' (Follows-refl j)
]

pub update_job-FollowsAll :
    (key : String) (guard : PublishJob → Bool) (f : PublishJob → PublishJob) (db : Db)
    → KeepsId f
    → Moves guard f
    → FollowsAll db (update_job key guard f db)
update_job-FollowsAll key guard f db keeps m k = elim (Bool-cases (k === key)) [
  | inl same ↦ rw ((eq_iff k key).0 same) (
      rw (find_job-update_job_self key guard f keeps db)
        (FollowsRow-map guard f m (find_job key db)))
  | inr other ↦
      rw (find_job-update_job_ne key guard f keeps k db (λ e. ground (arith, eq_iff k key)))
        (FollowsRow-refl (find_job k db))
]

-- What is written beside the jobs leaves them alone.
find_job-insert_audit :
    (k action job_id post_id : String) (db : Db)
    → find_job k (insert_audit action job_id post_id db) ≡ find_job k db
unfolding insert_audit find_job
find_job-insert_audit k action job_id post_id db = ground arith

find_job-insert_alert :
    (k : String) (row : AlertRow) (db : Db) → find_job k (insert_alert row db) ≡ find_job k db
unfolding insert_alert find_job
find_job-insert_alert k row db = ground arith

pub find_job-audit_if_final :
    (k : String) (b : Bool) (o : Option PublishJob) (db : Db)
    → find_job k (audit_if_final b o db) ≡ find_job k db
unfolding audit_if_final insert_final_failure_audit
find_job-audit_if_final k b none db = refl
find_job-audit_if_final k true (some row) db = refl
find_job-audit_if_final k false (some row) db =
    find_job-insert_audit k _ _ _ _ ∙ find_job-insert_alert k _ db

pub find_job-record_publication :
    (k : String) (o : Option PublishJob) (db : Db)
    → find_job k (record_publication o db) ≡ find_job k db
unfolding record_publication
find_job-record_publication k none db = refl
find_job-record_publication k (some row) db =
    find_job-insert_audit k _ _ _ _ ∙ (unfold find_job in refl)

pub claimed_job-Moves :
    (db : Db) (now lease_ms : ℕ) (q : Option String)
    → Moves (claimable db now q) (claimed_job now lease_ms)
unfolding claimable is_ready
claimed_job-Moves db now lease_ms q j h = record {
  same_id = refl;
  same_post = refl;
  same_platform = refl;
  same_account = refl;
  same_schedule = refl;
  moves = inr (ground arith);
  keeps_key = ground arith;
}

pub requesting_job-Moves :
    (key : String) (lease_ms now : ℕ) → Moves (can_request key) (requesting_job key lease_ms now)
unfolding can_request
requesting_job-Moves key lease_ms now j h = record {
  same_id = refl;
  same_post = refl;
  same_platform = refl;
  same_account = refl;
  same_schedule = refl;
  moves = inr (ground arith);
  keeps_key = ground arith;
}

pub confirmed_job-Moves : (from : PublishJob) → Moves is_requesting (confirmed_job from)
unfolding is_requesting
confirmed_job-Moves from j h = record {
  same_id = refl;
  same_post = refl;
  same_platform = refl;
  same_account = refl;
  same_schedule = refl;
  moves = inr (ground arith);
  keeps_key = ground arith;
}

pub ambiguous_job-Moves :
    (from : PublishJob) (pending : Bool) (next : Option ℕ)
    → Moves is_active (ambiguous_job from pending next)
unfolding is_active
ambiguous_job-Moves from pending next j h = record {
  same_id = refl;
  same_post = refl;
  same_platform = refl;
  same_account = refl;
  same_schedule = refl;
  moves = inr (ground arith);
  keeps_key = ground arith;
}

pub published_job-Moves : (from : PublishJob) → Moves is_confirmed (published_job from)
unfolding is_confirmed
published_job-Moves from j h = record {
  same_id = refl;
  same_post = refl;
  same_platform = refl;
  same_account = refl;
  same_schedule = refl;
  moves = inr (ground arith);
  keeps_key = ground arith;
}

pub failed_job-Moves :
    (from : PublishJob) (pending : Bool) (next : Option ℕ)
    → Moves is_active (failed_job from pending next)
unfolding is_active
failed_job-Moves from pending next j h = record {
  same_id = refl;
  same_post = refl;
  same_platform = refl;
  same_account = refl;
  same_schedule = refl;
  moves = inr (ground arith);
  keeps_key = ground arith;
}
