-- ===== src/Posts/Service/Create.antt =====
-- `create` and `duplicate` of backend/src/posts/post.service.ts.
use social_promotion_automat.Base.{
  ℕ, suc, ◌+◌, String, Bool, true, false, ◌&&◌, ◌||◌, none, List, [], ◌∷◌, map, ◌===◌, any,
}
use social_promotion_automat.Entity.{
  SocialPlatform, JobStatus, PostStatus, PostMedia, PostContent, Post, PublishJob,
}
use social_promotion_automat.Entity.Equality.{same_platform}
use social_promotion_automat.Result.{Error, Result, ok, raised, ◌>>◌, raise_if}
use social_promotion_automat.Posts.{PostRecord, PostDb}
use social_promotion_automat.Posts.Change.{save}
use social_promotion_automat.Posts.Service.{validate_media, find_owned}

-- `SocialTarget`
pub record SocialTarget : Type 0 where
  pub platform : SocialPlatform
  pub account_id : String

-- `CreatePostDto`, with the instant that `scheduledAt` names.
pub record CreatePostDto : Type 0 where
  pub campaign_id : String
  pub content : PostContent
  pub targets : List SocialTarget
  pub scheduled_at : ℕ

module _ (is_blank is_https : String → Bool) (issues : PostRecord → List String) where
  -- `Date.now()`, the UUIDs of new rows, and the names of the messages that the transaction writes.
  module _ (queue_id : String → String) (uuid : ℕ → String) (now : ℕ) where
    abbrev pub new_job : String → ℕ → ℕ → SocialTarget → PublishJob
    new_job post_id at n t = record {
      id = uuid n;
      post_id = post_id;
      platform = t.platform;
      account_id = t.account_id;
      status = JobStatus.waiting;
      scheduled_at = at;
      published_at = none;
      remote_post_id = none;
      remote_post_url = none;
      error_code = none;
      error_message = none;
      retry_count = 0;
      lease_expires_at = none;
      next_retry_at = none;
      remote_request_key = none;
      remote_request_started_at = none;
    }

    unfoldable pub new_jobs : String → ℕ → ℕ → List SocialTarget → List PublishJob
    new_jobs post_id at n [] = []
    new_jobs post_id at n (t ∷ ts) = new_job post_id at n t ∷ new_jobs post_id at (suc n) ts

    abbrev pub same_target : SocialTarget → SocialTarget → Bool
    same_target t u = same_platform t.platform u.platform && (t.account_id === u.account_id)

    -- `new Set(keys).size !== keys.length`
    unfoldable pub has_duplicates : List SocialTarget → Bool
    has_duplicates [] = false
    has_duplicates (t ∷ ts) = any (same_target t) ts || has_duplicates ts

    -- The checks of `create`.
    unfoldable pub checked_create : CreatePostDto → Result (List PostMedia)
    checked_create dto = do
      raise_if (is_blank dto.content.body || elim dto.targets [ [] ↦ true | t ∷ ts ↦ false ])
          (Error.bad_request "Content and targets are required.")
      raise_if (has_duplicates dto.targets) (Error.bad_request "Duplicate social target.")
      validate_media is_blank is_https issues dto.content.media

    abbrev pub new_post : String → CreatePostDto → List PostMedia → Post
    new_post owner_id dto media = record {
      id = uuid 0;
      campaign_id = dto.campaign_id;
      owner_id = owner_id;
      content = record dto.content { media = media };
      scheduled_at = dto.scheduled_at;
      status = PostStatus.draft;
      revision = 1;
    }

    -- `create`
    unfoldable pub create : String → CreatePostDto → PostDb → Result PostRecord × PostDb
    create owner_id dto s = elim (checked_create dto) [
      | raised e ↦ (raised e, s)
      | ok media ↦
          let post = new_post owner_id dto media in
          let jobs = new_jobs (uuid 0) dto.scheduled_at 1 dto.targets in
          let (saved, s') = save queue_id now post jobs s in
          (saved >> ok (record { post = post; jobs = jobs }), s')
    ]

    -- `duplicate`
    unfoldable pub duplicate : String → String → PostDb → Result PostRecord × PostDb
    duplicate owner_id id s =
        elim (find_owned is_blank is_https issues queue_id uuid now id owner_id s) [
          | raised e ↦ (raised e, s)
          | ok r ↦
              create owner_id
                (record {
                  campaign_id = r.post.campaign_id;
                  content = r.post.content;
                  targets =
                      map
                        (λ (j : PublishJob). record {
                          platform = j.platform;
                          account_id = j.account_id;
                        })
                        r.jobs;
                  scheduled_at = now + 86400000;
                })
                s
        ]
