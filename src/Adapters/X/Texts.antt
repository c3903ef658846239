-- ===== src/Adapters/X/Texts.antt =====
-- The texts that reach X: the formatter of backend/src/publishing/formatters/x-content.formatter.ts and `postText` of
-- backend/src/publishing/adapters/x.adapter.ts together, and what becomes of a blank one.
use Prim.Native.String
use Prim.Native.String.count
use package.text.Mathlib.TextLemmas
use social_promotion_automat.Base.{
  ◌+◌, ◌≤◌, String, Bool, true, false, not, ◌&&◌, Option, none, some, List, [], ◌∷◌, ◌≡◌, refl, sym,
  ap, ◌∙◌, arith, length, ◌==◌, select, truthy, or_else, if◌then◌else◌,
}
use social_promotion_automat.Entity.{SocialPlatform, Post, PublishJob}
use social_promotion_automat.Retry.{FailureCode, Thrown, classify_publish_failure}
use social_promotion_automat.Result.{some_inj}
use social_promotion_automat.Publishing.{returned, threw, SocialPost}
use social_promotion_automat.Formatting.{
  trim, trim_start, trim_end, join, format_post, format_all, format_for, formatter_of,
  default_formatters, Original, original_for, x_text, compact, title_and_message, url_length,
}
use social_promotion_automat.Formatting.Trim.{count-trim}
use social_promotion_automat.Formatting.Bounds.{x_text_fits}
use social_promotion_automat.Formatting.Issues.{
  job_issues, formatted_issues, body_length, link_length, weighted_length,
}
use social_promotion_automat.Adapters.{body_and_link, type_error, ◌>>=◌, Runtime}
use social_promotion_automat.Adapters.Laws.{returned_injective}
use social_promotion_automat.Adapters.X.{XState, XProvider}
use social_promotion_automat.Adapters.X.Adapter.{post_text, x_publish}

break_count : String.count "\n" ≡ 1
break_count = refl

join_count :
    (s : String) (url : Option String)
    → String.count (join "\n" (select truthy (s ∷ or_else url "" ∷ [])))
      ≤ String.count s + url_length url
unfolding join select
join_count s none = go (truthy s)
  where
    go : (b : Bool) → String.count (join "\n" (if b then s ∷ [] else [])) ≤ String.count s + 0
    go true = omega arith
    go false = omega (arith, count.nil)
join_count s (some u) = go (truthy s) (truthy u)
  where
    go :
        (b c : Bool)
        → String.count
            (join "\n" (if b then s ∷ (if c then u ∷ [] else []) else (if c then u ∷ [] else [])))
          ≤ String.count s + (if c then String.count u + 1 else 0)
    go true true = omega (
      arith,
      TextLemmas.length-append s (String.◌++◌ "\n" u),
      TextLemmas.length-append "\n" u,
      break_count,
    )
    go true false = omega arith
    go false true = omega arith
    go false false = omega (arith, count.nil)

body_and_link_count :
    (f : SocialPost)
    → String.count (body_and_link f) ≤ String.count f.body + url_length f.destination_url
unfolding body_and_link
body_and_link_count f = omega (arith, join_count (trim f.body) f.destination_url, count-trim f.body)

post_text_returned :
    (f : SocialPost) (text : String) → post_text f ≡ returned text → text ≡ body_and_link f
unfolding post_text
post_text_returned f text h = go (not (truthy (body_and_link f)) && length f.media == 0) h
  where
    go :
        (b : Bool)
        → (if b
            then threw (type_error "X publishing requires text or media.")
            else returned (body_and_link f))
          ≡ returned text
        → text ≡ body_and_link f
    go true h = absurd (cc h)
    go false h = sym (returned_injective h)

-- `original_for`, by what was written for the platform.
abbrev original_by : Post → Option String → Original
original_by post own = elim own [
  | none ↦ record {
    title = post.content.title;
    message = post.content.body;
    url = post.content.url;
  }
  | some message ↦ record { title = ""; message = message; url = post.content.url }
]

original_url : (post : Post) (p : SocialPlatform) → (original_for post p).url ≡ post.content.url
original_url post p = go (post.content.platform_bodies p)
  where
    go : (own : Option String) → (original_by post own).url ≡ post.content.url
    go none = refl
    go (some message) = refl

-- The text for X is blank where what was written for it is.
blank_x_text :
    (post : Post) (message : String)
    → post.content.platform_bodies SocialPlatform.x ≡ some message
    → trim message ≡ ""
    → post.content.url ≡ none
    → x_text (original_for post SocialPlatform.x) ≡ ""
unfolding x_text title_and_message compact join select trim_start trim_end
blank_x_text post message own blank no_url =
    ap (λ x. x_text (original_by post x)) own ∙ rw (no_url, blank) refl

module _ (extract_hashtags : String → List String) (remove_hashtags : String → String) where
  format_post-x :
      (post : Post) (job : PublishJob)
      → job.platform ≡ SocialPlatform.x
      → format_post (default_formatters extract_hashtags remove_hashtags) post job
        ≡ some (record {
          local_post_id = post.id;
          social_account_id = job.account_id;
          platform = SocialPlatform.x;
          title = post.content.title;
          body = x_text (original_for post SocialPlatform.x);
          destination_url = post.content.url;
          media = post.content.media;
        })
  unfolding format_post format_all format_for formatter_of
  format_post-x post job e = rw e refl

  issues-x :
      (is_png : String → Bool) (post : Post) (job : PublishJob)
      → job.platform ≡ SocialPlatform.x
      → x_text (original_for post SocialPlatform.x) ≡ ""
      → post.content.url ≡ none
      → job_issues extract_hashtags remove_hashtags is_png post job ≡ []
  unfolding job_issues formatted_issues body_length link_length weighted_length format_post
      format_all format_for formatter_of
  issues-x is_png post job e blank no_url = rw e (rw (blank, no_url) refl)

  -- The text that the adapter makes of a post that was formatted for X, its link included, is of at most 280 characters,
  -- for a link of at most 277.
  pub x_post_text_fits :
      (post : Post) (job : PublishJob) (f : SocialPost) (text : String)
      → job.platform ≡ SocialPlatform.x
      → url_length post.content.url ≤ 278
      → format_post (default_formatters extract_hashtags remove_hashtags) post job ≡ some f
      → post_text f ≡ returned text
      → String.count text ≤ 280
  x_post_text_fits post job f text is_x short formatted h =
      let same = some_inj (sym (format_post-x post job is_x) ∙ formatted) in
      let body : f.body ≡ x_text (original_for post SocialPlatform.x) =
        ap (λ (g : SocialPost). g.body) (sym same) in
      let link : f.destination_url ≡ post.content.url =
        ap (λ (g : SocialPost). g.destination_url) (sym same) in
      omega (
        arith,
        ap String.count (post_text_returned f text h),
        body_and_link_count f,
        ap String.count body,
        ap url_length link,
        ap url_length (original_url post SocialPlatform.x),
        short,
        x_text_fits (original_for post SocialPlatform.x),
      )

module _ (extract_hashtags : String → List String) (remove_hashtags : String → String)
    (is_png : String → Bool) where
  -- A post for X whose own text is blank, without a link and without media, has no issues; its publication throws before
  -- anything is reserved or sent, and yet the failure counts as a lost connection, after which the post may exist.
  pub blank_text_ambiguous :
      (rt : Runtime) (provider : XProvider) (slice : String → String) (post : Post)
      (job : PublishJob) (message : String) (s : XState)
      → job.platform ≡ SocialPlatform.x
      → post.content.platform_bodies SocialPlatform.x ≡ some message
      → trim message ≡ ""
      → post.content.url ≡ none
      → post.content.media ≡ []
      → (f : SocialPost) × (e : Thrown) × (format_post
            (default_formatters extract_hashtags remove_hashtags)
            post
            job
          ≡ some f)
        × (job_issues extract_hashtags remove_hashtags is_png post job ≡ [])
        × (x_publish rt provider f s ≡ (threw e, s))
        × ((classify_publish_failure slice e).code ≡ FailureCode.network_error)
        × ((classify_publish_failure slice e).retryable ≡ true)
        × ((classify_publish_failure slice e).ambiguous ≡ true)
  unfolding x_publish post_text body_and_link classify_publish_failure ◌>>=◌ select join trim_start
      trim_end
  blank_text_ambiguous rt provider slice post job message s is_x own blank no_url no_media = (
    record {
      local_post_id = post.id;
      social_account_id = job.account_id;
      platform = SocialPlatform.x;
      title = post.content.title;
      body = "";
      destination_url = none;
      media = [];
    },
    type_error "X publishing requires text or media.",
    format_post-x extract_hashtags remove_hashtags post job is_x
        ∙ rw (blank_x_text post message own blank no_url, no_url, no_media) refl,
    issues-x extract_hashtags remove_hashtags is_png post job is_x
        (blank_x_text post message own blank no_url) no_url,
    refl,
    refl,
    refl,
    refl,
  )
