-- ===== src/Formatting/Issues/Clear.antt =====
-- What a post that has no issues keeps to on each platform, and so every post that is scheduled
-- (`schedule` and `issues` of backend/src/posts/post.service.ts).
use social_promotion_automat.Base.{
  ℕ, ◌+◌, ◌≤◌, String, Bool, true, false, not, ◌&&◌, some, List, [], ◌∷◌, ◌++◌, ◌==◌, ◌≡◌, refl,
  arith, ltb, length, any, All,
}
use social_promotion_automat.Entity.{SocialPlatform, MediaType, PostMedia, Post, PublishJob}
use social_promotion_automat.Entity.Equality.{same_platform}
use social_promotion_automat.Publishing.{SocialPost}
use social_promotion_automat.Posts.{PostRecord, PostDb, read}
use social_promotion_automat.Posts.Service.{schedule}
use social_promotion_automat.Posts.Service.Outcome.{schedule_made}
use social_promotion_automat.Result.{ok}
use social_promotion_automat.Formatting.{
  format_post, format_all, format_for, formatter_of, default_formatters,
}
use social_promotion_automat.Formatting.Issues.{
  text_limit, body_length, link_length, when, is_image, unique, formatted_issues, job_issues,
  all_issues, issues_of,
}

when-nil : (b : Bool) (s : String) → when b s ≡ [] → b ≡ false
when-nil true s h = absurd (ground arith)
when-nil false s h = refl

append-nil : (xs ys : List String) → xs ++ ys ≡ [] → (xs ≡ []) × (ys ≡ [])
append-nil [] ys h = (refl, h)
append-nil (x ∷ xs) ys h = absurd (ground arith)

unique-nil : (xs : List String) → unique xs ≡ [] → xs ≡ []
unfolding unique
unique-nil [] h = refl
unique-nil (x ∷ xs) h = absurd (ground arith)

-- The media that a platform's adapter takes.
abbrev pub MediaFits : (String → Bool) → SocialPlatform → List PostMedia → Type 0
MediaFits is_png SocialPlatform.instagram media =
    (length media ≡ 1)
    × All (λ (m : PostMedia). m.media_type ≡ MediaType.image → is_png m.url ≡ false) media
MediaFits is_png SocialPlatform.linkedin media = length media ≡ 0
MediaFits is_png SocialPlatform.facebook media = length media ≤ 1
MediaFits is_png SocialPlatform.threads media = length media ≤ 1
MediaFits is_png SocialPlatform.x media = Unit

no_png :
    (is_png : String → Bool) (media : List PostMedia)
    → any (λ (m : PostMedia). is_image m && is_png m.url) media ≡ false
    → All (λ (m : PostMedia). m.media_type ≡ MediaType.image → is_png m.url ≡ false) media
unfolding any
no_png is_png [] h = tt
no_png is_png (m ∷ media) h = (go m.media_type refl, no_png is_png media (ground arith))
  where
    go : (t : MediaType) → m.media_type ≡ t → m.media_type ≡ MediaType.image → is_png m.url ≡ false
    go MediaType.image e i = ground arith
    go MediaType.video e i = absurd (ground arith)

module _ (extract_hashtags : String → List String) (remove_hashtags : String → String)
    (is_png : String → Bool) where
  -- The text of a job with its link is within the platform's limit, and its media are ones that the platform takes.
  abbrev pub Fits : Post → PublishJob → Type 0
  Fits post job =
      (f : SocialPost) × (format_post (default_formatters extract_hashtags remove_hashtags) post job
        ≡ some f)
      × (body_length job.platform f.body + link_length job.platform post.content.url
          ≤ text_limit job.platform)
      × MediaFits is_png job.platform post.content.media

  formatted_issues-Fits :
      (post : Post) (p : SocialPlatform) (f : SocialPost)
      → formatted_issues extract_hashtags remove_hashtags is_png post p f ≡ []
      → (body_length p f.body + link_length p post.content.url ≤ text_limit p)
        × MediaFits is_png p post.content.media
  unfolding formatted_issues
  formatted_issues-Fits post p f h =
      let (long, h1) = append-nil (when _ _) _ h in
      let (count, h2) = append-nil (when _ _) _ h1 in
      let (png, h3) = append-nil (when _ _) _ h2 in
      let (linkedin, single) = append-nil (when _ _) _ h3 in
      (
        within (when-nil _ _ long),
        media_fit p (when-nil _ _ count) (when-nil _ _ png) (when-nil _ _ linkedin)
            (when-nil _ _ single),
      )
    where
      within :
          ltb (text_limit p) (body_length p f.body + link_length p post.content.url) ≡ false
          → body_length p f.body + link_length p post.content.url ≤ text_limit p
      within e = ground arith

      media_fit :
          (p : SocialPlatform)
          → same_platform p SocialPlatform.instagram && not (length post.content.media == 1) ≡ false
          → same_platform p SocialPlatform.instagram
              && any (λ (m : PostMedia). is_image m && is_png m.url) post.content.media
            ≡ false
          → same_platform p SocialPlatform.linkedin && not (length post.content.media == 0) ≡ false
          → not (same_platform p SocialPlatform.x) && ltb 1 (length post.content.media) ≡ false
          → MediaFits is_png p post.content.media
      media_fit SocialPlatform.instagram c i l m =
          (ground arith, no_png is_png post.content.media i)
      media_fit SocialPlatform.linkedin c i l m = ground arith
      media_fit SocialPlatform.facebook c i l m = ground arith
      media_fit SocialPlatform.threads c i l m = ground arith
      media_fit SocialPlatform.x c i l m = tt

  job_issues-Fits :
      (post : Post) (job : PublishJob)
      → job_issues extract_hashtags remove_hashtags is_png post job ≡ []
      → Fits post job
  unfolding job_issues format_post format_all format_for formatter_of
  job_issues-Fits post job h =
      let (within, media) = formatted_issues-Fits post job.platform _ h in (_, refl, within, media)

  all_issues-Fits :
      (post : Post) (jobs : List PublishJob)
      → all_issues extract_hashtags remove_hashtags is_png post jobs ≡ []
      → All (Fits post) jobs
  unfolding all_issues
  all_issues-Fits post [] h = tt
  all_issues-Fits post (j ∷ jobs) h =
      let (here, rest) =
        append-nil (job_issues extract_hashtags remove_hashtags is_png post j) _ h in
      (job_issues-Fits post j here, all_issues-Fits post jobs rest)

  -- A schedule goes through only for a post that `read` gives, each of whose jobs has a text that is with its link
  -- within the platform's limit, and media that the platform takes.
  pub schedule-Fits :
      (is_blank is_https : String → Bool) (queue_id : String → String) (uuid : ℕ → String)
      (now at n : ℕ) (id owner_id : String) (s : PostDb) (r : PostRecord)
      → (schedule is_blank is_https
          (issues_of extract_hashtags remove_hashtags is_png)
          queue_id
          uuid
          now
          owner_id
          id
          (some at)
          n
          s).0
        ≡ ok r
      → (c : PostRecord) × (read id owner_id s ≡ ok c) × All (Fits c.post) c.jobs
  unfolding issues_of
  schedule-Fits is_blank is_https queue_id uuid now at n id owner_id s r h =
      let (_, _, (c, _, got, clean, _, _, _)) =
        schedule_made is_blank is_https (issues_of extract_hashtags remove_hashtags is_png) queue_id
          uuid now at n id owner_id s r h in
      (c, got, all_issues-Fits c.post c.jobs (unique-nil _ clean))
