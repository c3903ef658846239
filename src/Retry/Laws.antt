-- ===== src/Retry/Laws.antt =====
-- The retry policy of backend/src/publishing/publish-retry.policy.ts: which failures are tried again, and their delays.
use social_promotion_automat.Base.{
  ℕ, zero, suc, ◌≤◌, ◌<◌, String, true, false, ◌≡◌, refl, ◌↔◌, ◌⊎◌, inl, inr, some, arith,
  Option-cases, max, min,
}
use social_promotion_automat.Retry.{
  PublishFailure, Thrown, classify_publish_failure, retry_delay_for_failure,
  retry_delay_for_bull_mq, should_retry_publish,
}

-- A definite provider rejection: an HTTP status from 400 to 499.
abbrev pub IsRejection : Thrown → Type 0
IsRejection error = (s : ℕ) × (error.status ≡ some s) × (400 ≤ s) × (s < 500)

-- A failure counts as unambiguous exactly when the provider answered with a status from 400 to 499.
pub classify-unambiguous_iff :
    (slice : String → String) (error : Thrown)
    → ((classify_publish_failure slice error).ambiguous ≡ false) ↔ IsRejection error
unfolding classify_publish_failure
classify-unambiguous_iff slice error = elim (Option-cases error.status) [
  | inl missing ↦ (λ h. ground arith, λ r. ground arith)
  | inr (s, found) ↦ (λ h. (s, found, ground arith, ground arith), λ r. ground arith)
]

-- A failure is tried again exactly when it is ambiguous or its status is 429, and its count is at most 3.
pub should_retry_iff :
    (slice : String → String) (error : Thrown) (n : ℕ)
    → (should_retry_publish (classify_publish_failure slice error) n ≡ true) ↔ (
        (((classify_publish_failure slice error).ambiguous ≡ true) ⊎ (error.status ≡ some 429))
        × (n ≤ 3))
unfolding classify_publish_failure should_retry_publish
should_retry_iff slice error n = elim (Option-cases error.status) [
  | inl missing ↦ (λ h. ground arith, λ r. ground arith)
  | inr (s, found) ↦ (λ h. ground arith, λ r. ground arith)
]

-- A failure with a count of at least one that is tried again has a delay.
pub should_retry-delay :
    (f : PublishFailure) (n : ℕ)
    → 1 ≤ n
    → should_retry_publish f n ≡ true
    → (d : ℕ) × (retry_delay_for_failure n ≡ some d) × (30000 ≤ d) × (d ≤ 600000)
unfolding retry_delay_for_failure should_retry_publish
should_retry-delay f zero h t = absurd (omega arith)
should_retry-delay f (suc zero) h t = (30000, refl, omega arith, omega arith)
should_retry-delay f (suc (suc zero)) h t = (120000, refl, omega arith, omega arith)
should_retry-delay f (suc (suc (suc zero))) h t = (600000, refl, omega arith, omega arith)
should_retry-delay f (suc (suc (suc (suc n)))) h t = absurd (ground arith)

abbrev bull_mq_delay : ℕ → ℕ
bull_mq_delay zero = 30000
bull_mq_delay (suc zero) = 30000
bull_mq_delay (suc (suc zero)) = 120000
bull_mq_delay (suc (suc (suc n))) = 600000

retry_delay_for_bull_mq_lem : (n : ℕ) → retry_delay_for_bull_mq n ≡ some (bull_mq_delay n)
unfolding retry_delay_for_bull_mq
retry_delay_for_bull_mq_lem zero = refl
retry_delay_for_bull_mq_lem (suc zero) = refl
retry_delay_for_bull_mq_lem (suc (suc zero)) = refl
retry_delay_for_bull_mq_lem (suc (suc (suc n))) =
    let e : min (max (suc (suc (suc n))) 1) 3 ≡ 3 = omega arith in rw e refl

bull_mq_delay_mono : (n m : ℕ) → n ≤ m → bull_mq_delay n ≤ bull_mq_delay m
bull_mq_delay_mono zero m h = ground arith
bull_mq_delay_mono (suc zero) m h = ground arith
bull_mq_delay_mono (suc (suc zero)) m h = ground arith
bull_mq_delay_mono (suc (suc (suc n))) m h = ground arith

-- BullMQ's delay is defined for every number of attempts, and does not fall as they grow.
pub retry_delay_for_bull_mq_mono :
    (n m : ℕ)
    → n ≤ m
    → (d : ℕ) × (e : ℕ) × (retry_delay_for_bull_mq n ≡ some d)
      × (retry_delay_for_bull_mq m ≡ some e)
      × (d ≤ e)
retry_delay_for_bull_mq_mono n m h = (
  bull_mq_delay n,
  bull_mq_delay m,
  retry_delay_for_bull_mq_lem n,
  retry_delay_for_bull_mq_lem m,
  bull_mq_delay_mono n m h,
)
