-- ===== src/Entity/Equality.antt =====
-- `===` on the enumerations of backend/src/posts/post.entity.ts.
use social_promotion_automat.Base.{◌≡◌, Bool, true, ℕ, ◌==◌, arith, ◌↔◌}
use social_promotion_automat.Entity.{SocialPlatform, JobStatus, PostStatus}

abbrev pub platform_index : SocialPlatform → ℕ
platform_index SocialPlatform.linkedin = 0
platform_index SocialPlatform.facebook = 1
platform_index SocialPlatform.instagram = 2
platform_index SocialPlatform.threads = 3
platform_index SocialPlatform.x = 4

abbrev pub job_status_index : JobStatus → ℕ
job_status_index JobStatus.waiting = 0
job_status_index JobStatus.claimed = 1
job_status_index JobStatus.remote_requesting = 2
job_status_index JobStatus.remote_confirmed = 3
job_status_index JobStatus.published = 4
job_status_index JobStatus.failed = 5
job_status_index JobStatus.retrying = 6
job_status_index JobStatus.cancelled = 7

abbrev pub post_status_index : PostStatus → ℕ
post_status_index PostStatus.draft = 0
post_status_index PostStatus.scheduled = 1
post_status_index PostStatus.publishing = 2
post_status_index PostStatus.completed = 3
post_status_index PostStatus.partially_failed = 4
post_status_index PostStatus.failed = 5
post_status_index PostStatus.cancelled = 6

abbrev pub same_platform : SocialPlatform → SocialPlatform → Bool
same_platform p q = platform_index p == platform_index q

abbrev pub same_status : JobStatus → JobStatus → Bool
same_status s t = job_status_index s == job_status_index t

abbrev pub same_post_status : PostStatus → PostStatus → Bool
same_post_status s t = post_status_index s == post_status_index t

pub same_status_iff : (s t : JobStatus) → (same_status s t ≡ true) ↔ (s ≡ t)
same_status_iff s t = ground arith

pub same_platform_iff : (p q : SocialPlatform) → (same_platform p q ≡ true) ↔ (p ≡ q)
same_platform_iff p q = ground arith
