-- ===== src/Entity.antt =====
-- The data of backend/src/posts/post.entity.ts. Identifiers and messages are texts, instants are
-- milliseconds since the epoch, and `null` is `none`.
pub mod Equality
use social_promotion_automat.Base.{ℕ, String, Option, List, [], ◌∷◌}

pub data SocialPlatform : Type 0 where
  linkedin facebook instagram threads x : SocialPlatform

pub data JobStatus : Type 0 where
  waiting claimed remote_requesting remote_confirmed published failed retrying cancelled : JobStatus

pub data PostStatus : Type 0 where
  draft scheduled publishing completed partially_failed failed cancelled : PostStatus

pub data MediaType : Type 0 where
  image video : MediaType

pub record PostMedia : Type 0 where
  pub media_type : MediaType
  pub url : String

-- `Partial<Record<SocialPlatform, string>>`
abbrev pub PlatformBodies : Type 0
PlatformBodies = SocialPlatform → Option String

pub record PostContent : Type 0 where
  pub title : String
  pub body : String
  pub url : Option String
  pub media : List PostMedia
  pub platform_bodies : PlatformBodies

pub record Post : Type 0 where
  pub id : String
  pub campaign_id : String
  pub owner_id : String
  pub content : PostContent
  pub scheduled_at : ℕ
  pub status : PostStatus
  pub revision : ℕ

pub record PublishJob : Type 0 where
  pub id : String
  pub post_id : String
  pub platform : SocialPlatform
  pub account_id : String
  pub status : JobStatus
  pub scheduled_at : ℕ
  pub published_at : Option ℕ
  pub remote_post_id : Option String
  pub remote_post_url : Option String
  pub error_code : Option String
  pub error_message : Option String
  pub retry_count : ℕ
  pub lease_expires_at : Option ℕ
  pub next_retry_at : Option ℕ
  pub remote_request_key : Option String
  pub remote_request_started_at : Option ℕ

-- `SOCIAL_PLATFORMS`
abbrev pub social_platforms : List SocialPlatform
social_platforms =
    SocialPlatform.linkedin ∷ SocialPlatform.facebook ∷ SocialPlatform.instagram
    ∷ SocialPlatform.threads ∷ SocialPlatform.x ∷ []
