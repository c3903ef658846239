-- ===== src/Formatting/Issues.antt =====
-- `issues` of backend/src/posts/post.service.ts: what the formatted posts of a record violate.
pub mod Clear
use Prim.Native.Char.{code}
use Prim.Native.String
use social_promotion_automat.Base.{
  ℕ, zero, suc, ◌+◌, String, Bool, true, false, not, ◌&&◌, ◌||◌, Option, none, some, List, [], ◌∷◌,
  ◌++◌, ◌===◌, ◌==◌, if◌then◌else◌, leb, ltb, truthy?, or_else, select, any, length,
}
use social_promotion_automat.Entity.{SocialPlatform, MediaType, PostMedia, Post, PublishJob}
use social_promotion_automat.Entity.Equality.{same_platform}
use social_promotion_automat.Publishing.{SocialPost}
use social_promotion_automat.Posts.{PostRecord}
use social_promotion_automat.Formatting.{format_post, default_formatters, url_length}

abbrev pub platform_text : SocialPlatform → String
platform_text SocialPlatform.linkedin = "linkedin"
platform_text SocialPlatform.facebook = "facebook"
platform_text SocialPlatform.instagram = "instagram"
platform_text SocialPlatform.threads = "threads"
platform_text SocialPlatform.x = "x"

-- `limit`
abbrev pub text_limit : SocialPlatform → ℕ
text_limit SocialPlatform.linkedin = 3000
text_limit SocialPlatform.instagram = 2200
text_limit SocialPlatform.facebook = 10000
text_limit SocialPlatform.threads = 500
text_limit SocialPlatform.x = 280

-- `c.codePointAt(0) > 127 ? 2 : 1`
unfoldable pub weighted_length : String → ℕ
weighted_length String.[] = 0
weighted_length (String.◌∷◌ c s) = (if ltb 127 (code c) then 2 else 1) + weighted_length s

-- `bodyLength`
unfoldable pub body_length : SocialPlatform → String → ℕ
body_length p s = if same_platform p SocialPlatform.x then weighted_length s else String.count s

-- `linkLength`
unfoldable pub link_length : SocialPlatform → Option String → ℕ
link_length SocialPlatform.threads url = url_length url
link_length SocialPlatform.x url = if truthy? url then 24 else 0
link_length _ url = 0

abbrev pub when : Bool → String → List String
when b s = if b then s ∷ [] else []

abbrev pub is_image : PostMedia → Bool
is_image m = elim m.media_type [ MediaType.image ↦ true | MediaType.video ↦ false ]

-- `[...new Set(issues)]`
unfoldable pub unique : List String → List String
unique [] = []
unique (s ∷ texts) = s ∷ select (λ t. not (s === t)) (unique texts)

-- The language's part: the hashtags' patterns, and whether the path of a URL ends in `.png`.
module _ (extract_hashtags : String → List String) (remove_hashtags : String → String)
    (is_png : String → Bool) where
  -- The body of the loop of `issues` for a formatted job.
  unfoldable pub formatted_issues : Post → SocialPlatform → SocialPost → List String
  formatted_issues post p formatted =
      when (ltb (text_limit p) (body_length p formatted.body + link_length p post.content.url))
        (String.◌++◌ (platform_text p) ": 링크를 포함한 최종 문구가 너무 깁니다. SNS별 문구를 줄여주세요.")
      ++ (when (same_platform p SocialPlatform.instagram && not (length post.content.media == 1))
            "Instagram: 이미지 또는 동영상 1개가 필요합니다."
          ++ (when
                (same_platform p SocialPlatform.instagram
                  && any (λ (m : PostMedia). is_image m && is_png m.url) post.content.media)
                "Instagram: PNG 대신 JPEG 이미지를 사용하세요. 정사각형 업로드는 JPEG로 변환합니다."
              ++ (when
                    (same_platform p SocialPlatform.linkedin
                      && not (length post.content.media == 0))
                    "LinkedIn: 현재 텍스트·링크 게시만 지원합니다. 미디어를 제거하거나 별도 초안으로 작성하세요."
                  ++ when
                      (not (same_platform p SocialPlatform.x) && ltb 1 (length post.content.media))
                      (String.◌++◌ (platform_text p) ": 현재 미디어 1개까지만 지원합니다."))))

  -- No formatter is missing, so that `format` does not throw here.
  unfoldable pub job_issues : Post → PublishJob → List String
  job_issues post job =
      elim (format_post (default_formatters extract_hashtags remove_hashtags) post job) [
        | none ↦ []
        | some formatted ↦ formatted_issues post job.platform formatted
      ]

  unfoldable pub all_issues : Post → List PublishJob → List String
  all_issues post [] = []
  all_issues post (j ∷ jobs) = job_issues post j ++ all_issues post jobs

  -- `issues`
  unfoldable pub issues_of : PostRecord → List String
  issues_of r = unique (all_issues r.post r.jobs)
