-- ===== src/Posts/Service/Status.antt =====
-- The status that `summarizeStatus` of backend/src/posts/post.service.ts gives a post.
use social_promotion_automat.Base.{
  Bool, true, false, List, [], ◌∷◌, ◌≡◌, ◌↔◌, arith, any, all, Bool-cases, inl, inr, refl, ◌⊎◌,
  Member, Member-any, any-Member,
}
use social_promotion_automat.Entity.{JobStatus, PostStatus, PublishJob}
use social_promotion_automat.Posts.Service.{
  has_status, in_flight, failed_or_cancelled, is_empty, summarize_status,
}

any_not_all :
    (p q : PublishJob → Bool) (jobs : List PublishJob)
    → ((j : PublishJob) → p j ≡ true → q j ≡ false)
    → any p jobs ≡ true
    → all q jobs ≡ false
unfolding any all
any_not_all p q [] apart h = ground arith
any_not_all p q (j ∷ jobs) apart h = ground (arith, apart j, any_not_all p q jobs apart)

any_not_empty :
    (p : PublishJob → Bool) (jobs : List PublishJob) → any p jobs ≡ true → is_empty jobs ≡ false
unfolding any
any_not_empty p [] h = ground arith
any_not_empty p (j ∷ jobs) h = ground arith

all_first :
    (p q : PublishJob → Bool) (jobs : List PublishJob)
    → ((j : PublishJob) → p j ≡ true → q j ≡ false)
    → is_empty jobs ≡ false
    → all p jobs ≡ true
    → all q jobs ≡ false
unfolding all
all_first p q [] apart e h = ground arith
all_first p q (j ∷ jobs) apart e h = ground (arith, apart j)

-- A worker has the job, has asked the provider for its publication, or has that confirmed.
abbrev pub UnderWay : PublishJob → Type 0
UnderWay j =
    (j.status ≡ JobStatus.claimed)
    ⊎ ((j.status ≡ JobStatus.remote_requesting) ⊎ (j.status ≡ JobStatus.remote_confirmed))

UnderWay-iff : (j : PublishJob) → (in_flight j.status ≡ true) ↔ UnderWay j
UnderWay-iff j = (λ h. to j.status h, λ h. ground (arith, h))
  where
    to :
        (s : JobStatus)
        → in_flight s ≡ true
        → (s ≡ JobStatus.claimed)
          ⊎ ((s ≡ JobStatus.remote_requesting) ⊎ (s ≡ JobStatus.remote_confirmed))
    to JobStatus.waiting h = absurd (cc h)
    to JobStatus.claimed h = inl refl
    to JobStatus.remote_requesting h = inr (inl refl)
    to JobStatus.remote_confirmed h = inr (inr refl)
    to JobStatus.published h = absurd (cc h)
    to JobStatus.failed h = absurd (cc h)
    to JobStatus.retrying h = absurd (cc h)
    to JobStatus.cancelled h = absurd (cc h)

in_flight-publishing :
    (jobs : List PublishJob)
    → (summarize_status jobs ≡ PostStatus.publishing) ↔ (any (λ j. in_flight j.status) jobs ≡ true)
unfolding summarize_status
in_flight-publishing jobs = (
  λ h. ground arith,
  λ h. ground (
    arith,
    any_not_empty (λ j. in_flight j.status) jobs h,
    any_not_all (λ j. in_flight j.status) (has_status JobStatus.cancelled) jobs
        (λ j e. ground arith) h,
    any_not_all (λ j. in_flight j.status) (has_status JobStatus.published) jobs
        (λ j e. ground arith) h,
  ),
)

-- The jobs of a post give it the status publishing exactly when one of them is claimed, requesting or confirmed, whatever
-- has become of the others, failures included.
pub summarize-publishing_iff :
    (jobs : List PublishJob)
    → (summarize_status jobs ≡ PostStatus.publishing)
      ↔ ((j : PublishJob) × Member j jobs × UnderWay j)
summarize-publishing_iff jobs = (
  λ h.
      (let (j, there, flies) =
          Member-any (λ j. in_flight j.status) jobs ((in_flight-publishing jobs).0 h) in
        (j, there, (UnderWay-iff j).0 flies)),
  λ h.
      (let (j, there, under_way) = h in
        (in_flight-publishing jobs).1
          (any-Member (λ j. in_flight j.status) j jobs there ((UnderWay-iff j).1 under_way))),
)

-- A post counts as completed exactly when it has jobs and all of them are published.
pub summarize-completed_iff :
    (jobs : List PublishJob)
    → (summarize_status jobs ≡ PostStatus.completed)
      ↔ ((is_empty jobs ≡ false) × (all (has_status JobStatus.published) jobs ≡ true))
unfolding summarize_status
summarize-completed_iff jobs = (
  λ h. ground arith,
  λ h. ground (
    arith,
    all_first (has_status JobStatus.published) (has_status JobStatus.cancelled) jobs
        (λ j e. ground arith) h.0 h.1,
  ),
)

-- A post counts as failed exactly when all of its jobs are failed or cancelled, and they are not all cancelled.
pub summarize-failed_iff :
    (jobs : List PublishJob)
    → (summarize_status jobs ≡ PostStatus.failed) ↔ (
        (is_empty jobs ≡ false)
        × (all (λ j. failed_or_cancelled j.status) jobs ≡ true)
        × (all (has_status JobStatus.cancelled) jobs ≡ false))
unfolding summarize_status
summarize-failed_iff jobs = (
  λ h. ground arith,
  λ h. ground (
    arith,
    all_first (λ j. failed_or_cancelled j.status) (has_status JobStatus.published) jobs
        (λ j e. ground arith) h.0 h.1,
    none_in_flight h.1,
  ),
)
  where
    none_in_flight :
        all (λ j. failed_or_cancelled j.status) jobs ≡ true
        → any (λ j. in_flight j.status) jobs ≡ false
    none_in_flight e = elim (Bool-cases (any (λ j. in_flight j.status) jobs)) [
      | inr none_is ↦ none_is
      | inl one_is ↦ absurd (
          ground (
            arith,
            any_not_all (λ j. in_flight j.status) (λ j. failed_or_cancelled j.status) jobs
                (λ j e. ground arith) one_is,
          ))
    ]
