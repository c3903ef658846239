-- ===== src/Publishing/Worker/Calls.antt =====
-- The external writes of one delivery in backend/src/publishing/publish-worker.processor.ts: how many there are,
-- and under which key.
pub mod Steps
pub mod Bound
use social_promotion_automat.Base.{
  ℕ, zero, suc, ◌+◌, ◌≤◌, String, Bool, true, false, Option, none, some, List, [], ◌∷◌, ◌≡◌, refl,
  or_else, truthy?, if◌then◌else◌, arith, ◌||◌, not, Bool-cases, Option-cases, inl, inr,
}
use social_promotion_automat.Entity.{JobStatus, Post, PublishJob}
use social_promotion_automat.Entity.Equality.{same_status}
use social_promotion_automat.Store.{Db}
use social_promotion_automat.Result.{Result}
use social_promotion_automat.Publishing.{
  SocialPost, Call, publish_call, reconcile_call, get_post_call, SocialAdapter, World,
  PublishExecution, adapter_for, publish, publish_with, call_publish, reconcile, reconcile_with,
}
use social_promotion_automat.Publishing.Worker.{
  WorkError, Done, done, stopped, Work, ◌>>=◌, pure, throw, query, execute, read_clock, ask,
}
use social_promotion_automat.Publishing.Worker.Rules.{After, Anything}

-- the calls of `publish` among the external calls
abbrev pub publish_count : List Call → ℕ
publish_count [] = 0
publish_count (publish_call p key ∷ calls) = suc (publish_count calls)
publish_count (reconcile_call p key ∷ calls) = publish_count calls
publish_count (get_post_call id account ∷ calls) = publish_count calls

-- what holds of the key of every call of `publish`
abbrev pub Keyed : (String → Type 0) → List Call → Type 0
Keyed K [] = Unit
Keyed K (publish_call p key ∷ calls) = K key × Keyed K calls
Keyed K (reconcile_call p key ∷ calls) = Keyed K calls
Keyed K (get_post_call id account ∷ calls) = Keyed K calls

After-Anything : {A : Type 0} (r : Done A) → After Anything r
After-Anything (done a) = tt
After-Anything (stopped e) = tt

-- Code that makes at most `n` calls of `publish`, under keys that meet `K`, and whose answer meets `P`.
pub record Writes (n : ℕ) (K : String → Type 0) {A : Type 0} (P : A → Type 0) (m : Work A)
    : Type 0 where
  pub bound : (w : World) → publish_count (m w).1.calls ≤ n + publish_count w.calls
  pub keyed : (w : World) → Keyed K w.calls → Keyed K (m w).1.calls
  pub gives : (w : World) → After P (m w).0

module _ {A B : Type 0} (n k : ℕ) (K : String → Type 0) (P : A → Type 0) (Q : B → Type 0)
    (f : A → Work B) (hf : (a : A) → P a → Writes k K Q (f a)) where
  bind_bound :
      (calls : List Call) (r : Done A) (w : World)
      → publish_count w.calls ≤ n + publish_count calls
      → After P r
      → publish_count
          (elim r as (λ x. Done B × World) [ done a ↦ f a w | stopped e ↦ (stopped e, w) ]).1.calls
        ≤ n + k + publish_count calls
  bind_bound calls (done a) w h p = omega (arith, (hf a p).bound w)
  bind_bound calls (stopped e) w h p = omega arith

  bind-Keyed :
      (r : Done A) (w : World)
      → Keyed K w.calls
      → After P r
      → Keyed K
          (elim r as (λ x. Done B × World) [ done a ↦ f a w | stopped e ↦ (stopped e, w) ]).1.calls
  bind-Keyed (done a) w h p = (hf a p).keyed w h
  bind-Keyed (stopped e) w h p = h

  bind_gives :
      (r : Done A) (w : World)
      → After P r
      → After Q (elim r as (λ x. Done B × World) [ done a ↦ f a w | stopped e ↦ (stopped e, w) ]).0
  bind_gives (done a) w p = (hf a p).gives w
  bind_gives (stopped e) w p = tt

  pub Writes-bind : {m : Work A} → Writes n K P m → Writes (n + k) K Q (m >>= f)
  unfolding ◌>>=◌
  Writes-bind {m} hm = record {
    bound = λ w. bind_bound w.calls (m w).0 (m w).1 (hm.bound w) (hm.gives w);
    keyed = λ w h. bind-Keyed (m w).0 (m w).1 (hm.keyed w h) (hm.gives w);
    gives = λ w. bind_gives (m w).0 (m w).1 (hm.gives w);
  }

-- Code that writes nothing, and then code that makes at most `k` calls.
pub Writes-then :
    {A B : Type 0} (k : ℕ) (K : String → Type 0) (P : A → Type 0) (Q : B → Type 0) (f : A → Work B)
    {m : Work A}
    → ((a : A) → P a → Writes k K Q (f a))
    → Writes 0 K P m
    → Writes k K Q (m >>= f)
Writes-then k K P Q f hf hm =
    let h = Writes-bind 0 k K P Q f hf hm in
    record { bound = λ w. omega (arith, h.bound w); keyed = h.keyed; gives = h.gives }

module _ (K : String → Type 0) where
  pub Writes-pure : {A : Type 0} (P : A → Type 0) (a : A) → P a → Writes 0 K P (pure a)
  Writes-pure P a p = record { bound = λ w. omega arith; keyed = λ w h. h; gives = λ w. p }

  pub Writes-throw : {A : Type 0} (P : A → Type 0) (e : WorkError) → Writes 0 K P (throw e)
  Writes-throw P e = record { bound = λ w. omega arith; keyed = λ w h. h; gives = λ w. tt }

  pub Writes-if :
      {A : Type 0} (n : ℕ) (P : A → Type 0) (b : Bool) {m m' : Work A}
      → Writes n K P m
      → Writes n K P m'
      → Writes n K P (if b then m else m')
  Writes-if n P true h h' = h
  Writes-if n P false h h' = h'

  pub Writes-if_true :
      {A : Type 0} (n : ℕ) (P : A → Type 0) (b : Bool) (m m' : Work A)
      → b ≡ true
      → Writes n K P m
      → Writes n K P (if b then m else m')
  Writes-if_true n P true m m' e h = h
  Writes-if_true n P false m m' e h = cc

  -- A bound that is larger holds too.
  pub Writes-more :
      {A : Type 0} (n : ℕ) (P : A → Type 0) {m : Work A} → Writes 0 K P m → Writes n K P m
  Writes-more n P h = record {
    bound = λ w. omega (arith, h.bound w);
    keyed = h.keyed;
    gives = h.gives;
  }

  module _ (clock : ℕ → ℕ) (adapters : List SocialAdapter) (format : Post → PublishJob → SocialPost)
      (slice : String → String) where
    pub Writes-query :
        {A : Type 0} (P : A → Type 0) (f : ℕ → Db → Result A × Db)
        → ((w : World) → After P (query clock adapters format slice f w).0)
        → Writes 0 K P (query clock adapters format slice f)
    Writes-query P f h = record { bound = λ w. omega arith; keyed = λ w k. k; gives = h }

    pub Writes-query_any :
        {A : Type 0} (f : ℕ → Db → Result A × Db)
        → Writes 0 K Anything (query clock adapters format slice f)
    Writes-query_any f =
        Writes-query Anything f (λ w. After-Anything (query clock adapters format slice f w).0)

    pub Writes-execute :
        (P : Unit {0} → Type 0) (f : Db → Db)
        → P tt
        → Writes 0 K P (execute clock adapters format slice f)
    Writes-execute P f p = record { bound = λ w. omega arith; keyed = λ w k. k; gives = λ w. p }

    pub Writes-clock :
        (P : ℕ → Type 0) → ((n : ℕ) → P n) → Writes 0 K P (read_clock clock adapters format slice)
    Writes-clock P h = record { bound = λ w. omega arith; keyed = λ w k. k; gives = λ w. h _ }

    reconcile_count :
        (post : Post) (job : PublishJob) (w : World)
        → publish_count (reconcile clock adapters format slice post job w).1.calls
          ≡ publish_count w.calls
    unfolding reconcile reconcile_with
    reconcile_count post job w = ground arith

    reconcile_with-Keyed :
        (adapter : SocialAdapter) (post : Post) (job : PublishJob) (key : String) (w : World)
        → Keyed K w.calls
        → Keyed K (reconcile_with clock adapters format slice adapter post job key w).1.calls
    unfolding reconcile_with
    reconcile_with-Keyed adapter post job key w h = elim (Bool-cases (truthy? job.remote_post_id)) [
      | inl known ↦ rw known h
      | inr lost ↦ rw lost (elim (Option-cases adapter.reconcile_publish) [
        | inl missing ↦ rw missing h
        | inr (f, there) ↦ rw there h
      ])
    ]

    reconcile-Keyed :
        (post : Post) (job : PublishJob) (w : World)
        → Keyed K w.calls
        → Keyed K (reconcile clock adapters format slice post job w).1.calls
    unfolding reconcile
    reconcile-Keyed post job w h = elim (Option-cases (adapter_for adapters job.platform)) [
      | inl missing ↦ rw (missing, reconcile) h
      | inr (adapter, there) ↦
          rw (there, reconcile)
            (elim (Bool-cases (truthy? job.remote_request_key)) [
              | inl set ↦ rw set (reconcile_with-Keyed adapter post job _ w h)
              | inr unset ↦ rw unset h
            ])
    ]

    pub Writes-reconcile :
        (post : Post) (job : PublishJob)
        → Writes 0 K
            (λ r. Unit)
            (ask clock adapters format slice (reconcile clock adapters format slice post job))
    Writes-reconcile post job = record {
      bound = λ w. omega (arith, reconcile_count post job w);
      keyed = reconcile-Keyed post job;
      gives = λ w. tt;
    }

    publish_bound :
        (post : Post) (job : PublishJob) (w : World)
        → publish_count (publish clock adapters format slice post job w).1.calls
          ≤ 1 + publish_count w.calls
    unfolding publish publish_with call_publish
    publish_bound post job w = ground arith

    publish-Keyed :
        (post : Post) (job : PublishJob) (w : World)
        → K (or_else job.remote_request_key "")
        → Keyed K w.calls
        → Keyed K (publish clock adapters format slice post job w).1.calls
    unfolding publish publish_with call_publish
    publish-Keyed post job w k h =
        elim (Bool-cases (
          not (same_status job.status JobStatus.remote_requesting)
          || not (truthy? job.remote_request_key))) [
            | inl refused ↦ rw refused h
            | inr allowed ↦ rw allowed (elim (Option-cases (adapter_for adapters job.platform)) [
              | inl missing ↦ rw (missing, publish_with) h
              | inr (adapter, there) ↦ rw (there, publish_with) (k, h)
            ])
          ]

    pub Writes-publish :
        (post : Post) (job : PublishJob)
        → K (or_else job.remote_request_key "")
        → Writes 1 K
            (λ r. Unit)
            (ask clock adapters format slice (publish clock adapters format slice post job))
    Writes-publish post job k = record {
      bound = publish_bound post job;
      keyed = λ w h. publish-Keyed post job w k h;
      gives = λ w. tt;
    }
