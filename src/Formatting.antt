-- ===== src/Formatting.antt =====
-- backend/src/publishing/formatters and formatter.service.ts: the text that a post has on each platform. The matches of the
-- two patterns of hashtags, which are over Unicode's classes, are parameters.
pub mod Trim
pub mod Bounds
pub mod Issues
use Prim.Native.Char.{Char, code}
use Prim.Native.String
use social_promotion_automat.Base.{
  ℕ, zero, suc, ◌+◌, ◌-◌, max, String, Bool, true, false, not, ◌&&◌, ◌||◌, Option, none, some, List,
  [], ◌∷◌, ◌==◌, if◌then◌else◌, leb, truthy, truthy?, or_else, select,
}
use social_promotion_automat.Entity.{SocialPlatform, Post, PublishJob}
use social_promotion_automat.Entity.Equality.{same_platform}
use social_promotion_automat.Publishing.{SocialPost}

-- The white space of `String.prototype.trim`: Unicode's space separators, tab, line breaks and the byte order mark.
abbrev pub is_white : Char → Bool
is_white c =
    let n = code c in
    (leb 9 n && leb n 13)
    || (n == 32
        || (n == 160
            || (n == 5760
                || ((leb 8192 n && leb n 8202)
                    || (n == 8232
                        || (n == 8233
                            || (n == 8239 || (n == 8287 || (n == 12288 || n == 65279)))))))))

unfoldable pub trim_start : String → String
trim_start String.[] = String.[]
trim_start (String.◌∷◌ c s) = if is_white c then trim_start s else String.◌∷◌ c s

-- `text.trimEnd()`
unfoldable pub trim_end : String → String
trim_end String.[] = String.[]
trim_end (String.◌∷◌ c s) =
    let rest = trim_end s in
    if is_white c && not (truthy rest) then String.[] else String.◌∷◌ c rest

-- `text.trim()`
abbrev pub trim : String → String
trim s = trim_end (trim_start s)

-- `characters.slice(0, n).join('')`
unfoldable pub take_characters : ℕ → String → String
take_characters zero s = String.[]
take_characters (suc n) String.[] = String.[]
take_characters (suc n) (String.◌∷◌ c s) = String.◌∷◌ c (take_characters n s)

-- `parts.join(separator)`
unfoldable pub join : String → List String → String
join separator [] = ""
join separator (s ∷ []) = s
join separator (s ∷ t ∷ parts) = String.◌++◌ s (String.◌++◌ separator (join separator (t ∷ parts)))

-- `OriginalCampaignContent`
pub record Original : Type 0 where
  pub title : String
  pub message : String
  pub url : Option String

-- `titleAndMessage`
unfoldable pub title_and_message : Original → String
title_and_message input = join "\n\n" (select truthy (trim input.title ∷ trim input.message ∷ []))

-- `compact`
unfoldable pub compact : String → ℕ → String
compact text maximum_characters =
    let characters = trim text in
    if leb (String.count characters) maximum_characters
    then characters
    else String.◌++◌ (trim_end (take_characters (max 1 (maximum_characters - 1)) characters)) "…"

-- The text of a `PlatformContent`, and Instagram's hashtags.
pub record PlatformContent : Type 0 where
  pub text : String
  pub hashtags : List String

-- `PlatformContentFormatter`
pub record ContentFormatter : Type 0 where
  pub platform : SocialPlatform
  pub format : Original → PlatformContent

abbrev plain : String → PlatformContent
plain text = record { text = text; hashtags = [] }

-- `LinkedInContentFormatter`, `FacebookContentFormatter`
abbrev pub linkedin_formatter : ContentFormatter
linkedin_formatter = record {
  platform = SocialPlatform.linkedin;
  format = λ input. plain (title_and_message input);
}

abbrev pub facebook_formatter : ContentFormatter
facebook_formatter = record {
  platform = SocialPlatform.facebook;
  format = λ input. plain (title_and_message input);
}

-- `ThreadsContentFormatter`
abbrev pub threads_formatter : ContentFormatter
threads_formatter = record {
  platform = SocialPlatform.threads;
  format = λ input. plain (compact input.message 500);
}

-- `input.url ? [...input.url].length + 1 : 0`
abbrev pub url_length : Option String → ℕ
url_length url = if truthy? url then String.count (or_else url "") + 1 else 0

-- `XContentFormatter`
unfoldable pub x_text : Original → String
x_text input = compact (title_and_message input) (max 1 (280 - url_length input.url))

abbrev pub x_formatter : ContentFormatter
x_formatter = record { platform = SocialPlatform.x; format = λ input. plain (x_text input) }

-- `formattersByPlatform.get(platform)`: of two for one platform the later is kept.
unfoldable pub formatter_of : List ContentFormatter → SocialPlatform → Option ContentFormatter
formatter_of [] p = none
formatter_of (f ∷ formatters) p = elim (formatter_of formatters p) [
  | some later ↦ some later
  | none ↦ if same_platform f.platform p then some f else none
]

-- `override === undefined ? original : {...original,title:'',message:override}`
abbrev pub original_for : Post → SocialPlatform → Original
original_for post p = elim (post.content.platform_bodies p) [
  | none ↦ record {
    title = post.content.title;
    message = post.content.body;
    url = post.content.url;
  }
  | some message ↦ record { title = ""; message = message; url = post.content.url }
]

-- One platform of `formatAll`; none where no formatter is registered, which throws.
unfoldable pub format_for : List ContentFormatter → Post → SocialPlatform → Option PlatformContent
format_for formatters post p = elim (formatter_of formatters p) [
  | none ↦ none
  | some f ↦ some (f.format (original_for post p))
]

-- `formatAll`: every platform is formatted, and one that has no formatter makes it throw.
unfoldable pub format_all : List ContentFormatter → Post → Option (SocialPlatform → PlatformContent)
format_all formatters post = elim (format_for formatters post SocialPlatform.linkedin) [
  | none ↦ none
  | some linkedin ↦ elim (format_for formatters post SocialPlatform.instagram) [
    | none ↦ none
    | some instagram ↦ elim (format_for formatters post SocialPlatform.facebook) [
      | none ↦ none
      | some facebook ↦ elim (format_for formatters post SocialPlatform.threads) [
        | none ↦ none
        | some threads ↦ elim (format_for formatters post SocialPlatform.x) [
          | none ↦ none
          | some x ↦ some (λ p. elim p [
            | SocialPlatform.linkedin ↦ linkedin
            | SocialPlatform.instagram ↦ instagram
            | SocialPlatform.facebook ↦ facebook
            | SocialPlatform.threads ↦ threads
            | SocialPlatform.x ↦ x
          ])
        ]
      ]
    ]
  ]
]

-- `format`
unfoldable pub format_post : List ContentFormatter → Post → PublishJob → Option SocialPost
format_post formatters post job = elim (format_all formatters post) [
  | none ↦ none
  | some contents ↦ some (record {
    local_post_id = post.id;
    social_account_id = job.account_id;
    platform = job.platform;
    title = post.content.title;
    body = (contents job.platform).text;
    destination_url = post.content.url;
    media = post.content.media;
  })
]

-- `extractHashtags` and `removeHashtags`
module _ (extract_hashtags : String → List String) (remove_hashtags : String → String) where
  -- `InstagramContentFormatter`
  unfoldable pub instagram_content : Original → PlatformContent
  instagram_content input =
      let hashtags = extract_hashtags input.message in
      let message = title_and_message (record input { message = remove_hashtags input.message }) in
      record {
        text =
            join "\n\n" (select truthy (message ∷ or_else input.url "" ∷ join " " hashtags ∷ []));
        hashtags = hashtags;
      }

  -- `DEFAULT_FORMATTERS`
  abbrev pub default_formatters : List ContentFormatter
  default_formatters =
      linkedin_formatter
      ∷ record { platform = SocialPlatform.instagram; format = instagram_content }
      ∷ facebook_formatter
      ∷ threads_formatter
      ∷ x_formatter
      ∷ []
