-- ===== src/Publishing/Worker/Rules.antt =====
-- A logic for the worker's code, backend/src/publishing/publish-worker.processor.ts: which job's statements it
-- runs, and what holds of its answer.
use social_promotion_automat.Base.{
  ℕ, String, Bool, true, false, Option, none, some, List, ◌≡◌, refl, ap, ◌∙◌, if◌then◌else◌,
  find_holds, eq_iff, arith,
}
use social_promotion_automat.Entity.{Post, PublishJob}
use social_promotion_automat.Result.{Result, ok, raised, ok-injective}
use social_promotion_automat.Store.{Db, find_job, job_is}
use social_promotion_automat.Store.Laws.{updated_job_id}
use social_promotion_automat.Outbox.{
  is_requesting, confirmed_job, or_raise, ClaimedPublishJob, claim_publish_job,
  mark_remote_requesting, confirm_remote_publication, record_ambiguous_remote_outcome,
}
use social_promotion_automat.Outbox.Save.{save_success, save_failure}
use social_promotion_automat.Outbox.Interleaving.{claim, request, confirm, defer, succeed, fail}
use social_promotion_automat.Outbox.Isolation.{RunOn, rest, go_on, RunOn-trans}
use social_promotion_automat.Outbox.Lease.{claim_sound, request_key}
use social_promotion_automat.Publishing.{
  SocialPost, SocialAdapter, World, publish, publish_with, call_publish, reconcile, reconcile_with,
}
use social_promotion_automat.Publishing.Worker.{
  WorkError, Done, done, stopped, Work, ◌>>=◌, pure, throw, lift, query, execute, read_clock, ask,
}

abbrev pub After : {A : Type 0} → (A → Type 0) → Done A → Type 0
After P (done a) = P a
After P (stopped e) = Unit

-- Code that runs only statements about the job `id`, and whose answer meets `P`.
pub record Keeps (id : String) {A : Type 0} (P : A → Type 0) (m : Work A) : Type 0 where
  pub runs : (w : World) → RunOn id w.db (m w).1.db
  pub gives : (w : World) → After P (m w).0

abbrev pub Anything : {A : Type 0} → A → Type 0
Anything a = Unit

module _ {A B : Type 0} (id : String) (P : A → Type 0) (Q : B → Type 0) (f : A → Work B)
    (hf : (a : A) → P a → Keeps id Q (f a)) where
  pub bind_runs :
      (db : Db) (r : Done A) (w : World)
      → RunOn id db w.db
      → After P r
      → RunOn id db
          (elim r as (λ x. Done B × World) [ done a ↦ f a w | stopped e ↦ (stopped e, w) ]).1.db
  bind_runs db (done a) w r p = RunOn-trans r ((hf a p).runs w)
  bind_runs db (stopped e) w r p = r

  pub bind_gives :
      (r : Done A) (w : World)
      → After P r
      → After Q (elim r as (λ x. Done B × World) [ done a ↦ f a w | stopped e ↦ (stopped e, w) ]).0
  bind_gives (done a) w p = (hf a p).gives w
  bind_gives (stopped e) w p = tt

  pub Keeps-bind : {m : Work A} → Keeps id P m → Keeps id Q (m >>= f)
  unfolding ◌>>=◌
  Keeps-bind {m} hm = record {
    runs = λ w. bind_runs w.db (m w).0 (m w).1 (hm.runs w) (hm.gives w);
    gives = λ w. bind_gives (m w).0 (m w).1 (hm.gives w);
  }

pub Keeps-pure : {A : Type 0} (id : String) (P : A → Type 0) (a : A) → P a → Keeps id P (pure a)
Keeps-pure id P a p = record { runs = λ w. rest; gives = λ w. p }

pub Keeps-throw : {A : Type 0} (id : String) (P : A → Type 0) (e : WorkError) → Keeps id P (throw e)
Keeps-throw id P e = record { runs = λ w. rest; gives = λ w. tt }

pub Keeps-if :
    {A : Type 0} (id : String) (P : A → Type 0) (b : Bool) {m n : Work A}
    → Keeps id P m
    → Keeps id P n
    → Keeps id P (if b then m else n)
Keeps-if id P true hm hn = hm
Keeps-if id P false hm hn = hn

-- The job of a claim is the job that was asked for.
pub claimed_id :
    (id : String) (lease_ms : ℕ) (q : Option String) (now : ℕ) (db : Db) (c : ClaimedPublishJob)
    → (claim_publish_job id lease_ms q now db).0 ≡ ok (some c)
    → c.job.id ≡ id
unfolding find_job
claimed_id id lease_ms q now db c e =
    let (j, found, _, _, _, _, same, _) = claim_sound id lease_ms q now db c e in
    ap (λ (i : PublishJob). i.id) same ∙ (eq_iff j.id id).0 (find_holds (job_is id) db.jobs j found)

pub requested_id :
    (id key : String) (lease_ms now : ℕ) (db : Db) (j : PublishJob)
    → (mark_remote_requesting id key lease_ms now db).0 ≡ ok j
    → j.id ≡ id
unfolding find_job
requested_id id key lease_ms now db j e =
    let (_, _, _, _, _, _, row) = request_key id key lease_ms now db j e in
    let db' = (mark_remote_requesting id key lease_ms now db).1 in
    (eq_iff j.id id).0 (find_holds (job_is id) db'.jobs j row)

pub confirmed_id :
    (job j : PublishJob) (db : Db) → (confirm_remote_publication job db).0 ≡ ok j → j.id ≡ job.id
unfolding confirm_remote_publication
confirmed_id job j db e =
    updated_job_id job.id is_requesting (confirmed_job job) j db (λ i. refl) (of_raised _ e)
  where
    of_raised :
        (o : Option PublishJob)
        → or_raise o "Publish job could not confirm its remote publication." ≡ ok j
        → o ≡ some j
    of_raised none h = cc
    of_raised (some i) h = ap some (ok-injective h)

pub After-lift :
    {A : Type 0} (P : A → Type 0) (r : Result A) → ((a : A) → r ≡ ok a → P a) → After P (lift r)
After-lift P (ok a) h = h a refl
After-lift P (raised e) h = tt

abbrev pub HasId : String → PublishJob → Type 0
HasId id job = job.id ≡ id

abbrev pub ClaimsId : String → Option ClaimedPublishJob → Type 0
ClaimsId id none = Unit
ClaimsId id (some c) = c.job.id ≡ id

module _ (clock : ℕ → ℕ) (adapters : List SocialAdapter) (format : Post → PublishJob → SocialPost)
    (slice : String → String) (id : String) where
  pub claim-Keeps :
      (lease_ms : ℕ) (q : Option String)
      → Keeps id (ClaimsId id) (query clock adapters format slice (claim_publish_job id lease_ms q))
  claim-Keeps lease_ms q = record {
    runs = λ w. go_on rest (claim id lease_ms q (clock w.ticks)) refl;
    gives = λ w. After-lift (ClaimsId id) _ (λ o e. claims w o e);
  }
    where
      claims :
          (w : World) (o : Option ClaimedPublishJob)
          → (claim_publish_job id lease_ms q (clock w.ticks) w.db).0 ≡ ok o
          → ClaimsId id o
      claims w none e = tt
      claims w (some c) e = claimed_id id lease_ms q (clock w.ticks) w.db c e

  pub mark-Keeps :
      (key : String) (lease_ms : ℕ) (job_id : String)
      → job_id ≡ id
      → Keeps id (HasId id) (
          query clock adapters format slice (λ now. mark_remote_requesting job_id key lease_ms now))
  mark-Keeps key lease_ms job_id same = record {
    runs = λ w. go_on rest (request job_id key lease_ms (clock w.ticks)) same;
    gives = λ w.
        After-lift (HasId id) _
          (λ j e. requested_id job_id key lease_ms (clock w.ticks) w.db j e ∙ same);
  }

  pub confirm-Keeps :
      (job : PublishJob)
      → job.id ≡ id
      → Keeps id
          (HasId id)
          (query clock adapters format slice (λ now. confirm_remote_publication job))
  confirm-Keeps job same = record {
    runs = λ w. go_on rest (confirm job) same;
    gives = λ w. After-lift (HasId id) _ (λ j e. confirmed_id job j w.db e ∙ same);
  }

  pub succeed-Keeps :
      (job : PublishJob)
      → job.id ≡ id
      → Keeps id Anything (execute clock adapters format slice (save_success job))
  succeed-Keeps job same = record { runs = λ w. go_on rest (succeed job) same; gives = λ w. tt }

  pub record-Keeps :
      (job : PublishJob) (pending : Bool) (next : Option ℕ)
      → job.id ≡ id
      → Keeps id Anything
          (execute clock adapters format slice (record_ambiguous_remote_outcome job pending next))
  record-Keeps job pending next same = record {
    runs = λ w. go_on rest (defer job pending next) same;
    gives = λ w. tt;
  }

  pub fail-Keeps :
      (job : PublishJob) (pending : Bool) (next : Option ℕ)
      → job.id ≡ id
      → Keeps id Anything (execute clock adapters format slice (save_failure job pending next))
  fail-Keeps job pending next same = record {
    runs = λ w. go_on rest (fail job pending next) same;
    gives = λ w. tt;
  }

  pub clock-Keeps : Keeps id Anything (read_clock clock adapters format slice)
  clock-Keeps = record { runs = λ w. rest; gives = λ w. tt }

  pub publish_quiet :
      (post : Post) (job : PublishJob) (w : World)
      → (publish clock adapters format slice post job w).1.db ≡ w.db
  unfolding publish publish_with call_publish
  publish_quiet post job w = ground arith

  pub reconcile_quiet :
      (post : Post) (job : PublishJob) (w : World)
      → (reconcile clock adapters format slice post job w).1.db ≡ w.db
  unfolding reconcile reconcile_with
  reconcile_quiet post job w = ground arith

  pub ask-Keeps :
      {A : Type 0} (P : A → Type 0) (f : World → A × World)
      → ((w : World) → (f w).1.db ≡ w.db)
      → ((w : World) → P (f w).0)
      → Keeps id P (ask clock adapters format slice f)
  ask-Keeps P f quiet holds = record { runs = λ w. rw (quiet w) rest; gives = holds }
