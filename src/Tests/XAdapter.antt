-- ===== src/Tests/XAdapter.antt =====
-- Examples for backend/src/publishing/adapters/x.adapter.ts and x-api-usage.service.ts.
use Prim.Native.String
use social_promotion_automat.Base.{
  ◌+◌, All, length, ◌≤◌, String, true, Option, none, some, [], ◌∷◌, ◌≡◌, refl, arith, if◌then◌else◌,
  ◌===◌, select,
}
use social_promotion_automat.Entity.{SocialPlatform, Post, MediaType}
use social_promotion_automat.Retry.{FailureCode, Thrown, classify_publish_failure}
use social_promotion_automat.Publishing.{returned, threw, SocialPost, PublishResult}
use social_promotion_automat.Formatting.{
  default_formatters, format_post, format_all, format_for, formatter_of, x_text, compact,
  title_and_message, trim, trim_start, trim_end, join,
}
use social_promotion_automat.Formatting.Issues.{job_issues}
use social_promotion_automat.Adapters.{
  Json, text, object, field, no_members, Runtime, body_and_link,
}
use social_promotion_automat.Adapters.X.{
  sent_only, no_body, XUsageOperation, XMethod, XState, XProvider,
}
use social_promotion_automat.Adapters.X.Adapter.{post_text, resolve, x_publish}
use social_promotion_automat.Adapters.X.Reading.{x_delete_post, x_get_post, x_get_analytics}
use social_promotion_automat.Adapters.X.Accounting.{Accounted}
use social_promotion_automat.Adapters.X.Charges.{operations-Accounted}
use social_promotion_automat.Adapters.X.Settled.{AllSettled, operations-AllSettled}
use social_promotion_automat.Adapters.X.Accounting.{reservations}
use social_promotion_automat.Adapters.X.Stages.{Stage, waiting, advance}
use social_promotion_automat.Adapters.X.Settled.{Owed}
use social_promotion_automat.Adapters.X.Interleaving.{
  here, later, stop, step, HeldBy, requests_interleave,
}
use social_promotion_automat.Adapters.X.Texts.{x_post_text_fits, blank_text_ambiguous}
use social_promotion_automat.Tests.Sample.{sample_post, waiting_job}
use social_promotion_automat.Tests.Formatting.{no_hashtags, same_text, no_pngs}

abbrev variables : String → Option String
variables name =
    if name === "DATABASE_URL"
    then some "postgres://db"
    else if name === "X_API_BASE_URL"
    then some "https://api.x.com/"
    else if name === "X_API_PRICING_VERSION"
    then some "2026-01"
    else if name === "X_API_MAX_ESTIMATED_COST_MICRO_USD_PER_REQUEST"
    then some "50"
    else some "10"

abbrev pub runtime : Runtime
runtime = record {
  env = variables;
  parse_url = λ s. some (record { protocol = "https:"; href = s });
  encode_component = λ s. s;
  safe_integer = λ s. some (if s === "50" then 50 else 10);
}

abbrev answer : Json
answer = object (field "data" (object (field "id" (text "77") no_members)) no_members)

abbrev provider : XProvider
provider = record {
  resolve = λ s id. returned (record {
    social_account_id = id;
    x_user_id = "5";
    access_token = "token";
    scope = "tweet.read" ∷ "tweet.write" ∷ "users.read" ∷ [];
  });
  request = λ s r. returned answer;
  read_media = λ s m. returned "AA==";
  query_error = λ s. none;
  new_id = λ s. "u1";
  now = λ s. 1000;
  progress = λ s m. sent_only;
}

abbrev nothing : XState
nothing = record { ledger = []; requests = [] }

abbrev pub launch_post : SocialPost
launch_post = record {
  local_post_id = "p1";
  social_account_id = "a1";
  platform = SocialPlatform.x;
  title = "Launch";
  body = "today";
  destination_url = none;
  media = record { media_type = MediaType.image; url = "https://m.co/1.jpg" } ∷ [];
}

operations-Accounted_example :
    Accounted runtime nothing (x_publish runtime provider launch_post nothing).1
    × Accounted runtime nothing (x_delete_post runtime provider "77" "a1" nothing).1
    × Accounted runtime nothing (x_get_post runtime provider "77" "a1" nothing).1
    × Accounted runtime nothing (x_get_analytics runtime provider "77" "a1" nothing).1
operations-Accounted_example = operations-Accounted runtime provider launch_post "77" "a1" nothing

operations-AllSettled_example :
    AllSettled (x_publish runtime provider launch_post nothing).1
    × AllSettled (x_delete_post runtime provider "77" "a1" nothing).1
    × AllSettled (x_get_post runtime provider "77" "a1" nothing).1
    × AllSettled (x_get_analytics runtime provider "77" "a1" nothing).1
operations-AllSettled_example =
    operations-AllSettled runtime provider
      (record { configured = refl; answers = λ s. refl; named = λ s. refl }) launch_post "77" "a1"
      nothing (omega arith) tt

-- Two uploads, the second of which is reserved before the first is sent.
abbrev upload : Stage
upload =
    waiting
      (record { social_account_id = "a1"; x_user_id = "5"; access_token = "token"; scope = [] })
      XUsageOperation.media_upload (returned "https://api.x.com/2/media/upload")
      (λ url. record {
        method = XMethod.post_method;
        url = url;
        access_token = "token";
        body = no_body;
        parameters = [];
      })

abbrev one : Stage × XState
one = advance runtime provider upload nothing

abbrev two : Stage × XState
two = advance runtime provider upload one.1

abbrev three : Stage × XState
three = advance runtime provider one.0 two.1

requests_interleave_example :
    (length three.1.requests + 0 ≤ length (reservations three.1) + 0)
    × All (Owed (HeldBy (three.0 ∷ two.0 ∷ []))) three.1.ledger
requests_interleave_example =
    requests_interleave runtime provider
      (record { configured = refl; answers = λ s. refl; named = λ s. refl }) (upload ∷ upload ∷ [])
      (three.0 ∷ two.0 ∷ []) nothing three.1 (tt, (tt, tt)) tt
      (step here (step (later here) (step here stop)))

abbrev published : PublishResult
published = record { remote_post_id = "77"; remote_post_url = none; published_at = 1000 }

abbrev launch_text : String
launch_text = "Launch\n\nWe are live."

abbrev formatted_post : SocialPost
formatted_post = record launch_post { title = "Launch"; body = launch_text; media = [] }

formatted :
    format_post (default_formatters no_hashtags same_text) sample_post waiting_job
    ≡ some formatted_post
unfolding format_post format_all format_for formatter_of x_text compact title_and_message join
    select trim_start trim_end
formatted = refl

text_made : post_text formatted_post ≡ returned launch_text
unfolding post_text body_and_link join select trim_start trim_end
text_made = refl

blank_is_trimmed : trim " " ≡ ""
unfolding trim_start trim_end
blank_is_trimmed = refl

x_post_text_fits_example : String.count launch_text ≤ 280
x_post_text_fits_example =
    x_post_text_fits no_hashtags same_text sample_post waiting_job formatted_post launch_text refl
      (omega arith) formatted text_made

-- The post with a text of its own for X, of one space.
abbrev blank_post : Post
blank_post = record sample_post {
  content = record (sample_post.content) { platform_bodies = λ p. some " " };
}

blank_text_ambiguous_example :
    (f : SocialPost) × (e : Thrown) × (format_post
        (default_formatters no_hashtags same_text)
        blank_post
        waiting_job
      ≡ some f)
    × (job_issues no_hashtags same_text no_pngs blank_post waiting_job ≡ [])
    × (x_publish runtime provider f nothing ≡ (threw e, nothing))
    × ((classify_publish_failure same_text e).code ≡ FailureCode.network_error)
    × ((classify_publish_failure same_text e).retryable ≡ true)
    × ((classify_publish_failure same_text e).ambiguous ≡ true)
blank_text_ambiguous_example =
    blank_text_ambiguous no_hashtags same_text no_pngs runtime provider same_text blank_post
      waiting_job " " nothing refl refl blank_is_trimmed refl refl
