-- ===== src/Adapters/Threads.antt =====
-- backend/src/publishing/adapters/threads.adapter.ts, with the types of threads-http.client.ts and
-- threads-credential.service.ts. A publication is a container and then its publication.
pub mod Posting
pub mod Reading
use Prim.Native.String
use social_promotion_automat.Base.{
  ℕ, String, Bool, true, false, not, Option, none, some, List, [], ◌∷◌, if◌then◌else◌, ltb, length,
  truthy, or_else,
}
use social_promotion_automat.Entity.{SocialPlatform, MediaType, PostMedia}
use social_promotion_automat.Entity.Equality.{same_platform}
use social_promotion_automat.Account.{includes}
use social_promotion_automat.Analytics.{Counts, PostAnalytics}
use social_promotion_automat.Publishing.{
  Attempt, returned, threw, SocialPost, PublishResult, SocialPostResult, RemoteStatus,
}
use social_promotion_automat.Oauth.{OauthDb}
use social_promotion_automat.Adapters.Credential.{usable_account}
use social_promotion_automat.Adapters.{
  Act, lift, and_then, throw_if, ◌>>=◌, ◌>>◌, type_error, forbidden, not_implemented, unavailable,
  Json, Items, end_of_items, item, array, Fields, get, nullish, object_of, string_of, number_of,
  numeric_provider_metrics, assert_analytics_have_values, Runtime, base_url, https_url,
  analytics_url, body_and_link,
}

-- `ThreadsPublishingCredential`
pub record ThreadsCredential : Type 0 where
  pub social_account_id : String
  pub threads_user_id : String
  pub access_token : String
  pub scope : List String

pub data ThreadsMethod : Type 0 where
  get_method post_method : ThreadsMethod

-- `ThreadsHttpRequest`
pub record ThreadsRequest : Type 0 where
  pub method : ThreadsMethod
  pub url : String
  pub access_token : String
  pub parameters : List (String × String)

-- The requests that were sent, newest first.
abbrev pub Sent : Type 0
Sent = List ThreadsRequest

-- What the adapter is given. An answer may depend on all requests that were sent.
pub record ThreadsProvider : Type 0 where
  pub resolve : Sent → String → Attempt ThreadsCredential
  pub request : Sent → ThreadsRequest → Attempt Json
  pub now : Sent → ℕ

-- `resolve` of `ThreadsCredentialService`
unfoldable pub resolve_threads_credential :
    (String → Bool)
    → (Option String → Attempt String)
    → ℕ
    → OauthDb
    → String
    → Attempt ThreadsCredential
resolve_threads_credential is_numeric decrypt now db id =
    and_then
      (usable_account SocialPlatform.threads "Threads"
        "Threads publishing requires a verified Threads user ID." is_numeric decrypt now db id)
      (λ u. returned (record {
        social_account_id = u.0.id;
        threads_user_id = u.0.platform_account_id;
        access_token = u.1;
        scope = u.0.scope;
      }))

-- `requireScope`
unfoldable pub require_scope : String → ThreadsCredential → Attempt ThreadsCredential
require_scope scope credential =
    if includes credential.scope scope
    then returned credential
    else threw (
        forbidden
          (String.◌++◌ "Threads account is missing required scope: " (String.◌++◌ scope ".")))

-- `postText`
unfoldable pub threads_text : SocialPost → Attempt String
threads_text post =
    let text = body_and_link post in
    if truthy text
    then returned text
    else threw (type_error "Threads publishing requires post text or a destination URL.")

-- An `id` of an answer that must be there.
unfoldable pub answered_id : String → Json → Attempt String
answered_id message body = and_then (object_of "Threads" (some body)) (λ o.
    elim (string_of (get "id" o)) [ none ↦ threw (unavailable message) | some id ↦ returned id ])

module _ (rt : Runtime) where
  -- The last test of `containerParameters`.
  unfoldable pub media_parameters : String → PostMedia → Attempt (List (String × String))
  media_parameters text media = elim media.media_type [
    | MediaType.image ↦
        and_then (https_url rt "Threads" media.url)
          (λ url. returned (("media_type", "IMAGE") ∷ ("image_url", url) ∷ ("text", text) ∷ []))
    | MediaType.video ↦
        and_then (https_url rt "Threads" media.url)
          (λ url. returned (("media_type", "VIDEO") ∷ ("video_url", url) ∷ ("text", text) ∷ []))
  ]

  -- `containerParameters`
  unfoldable pub container_parameters : String → List PostMedia → Attempt (List (String × String))
  container_parameters text [] = returned (("media_type", "TEXT") ∷ ("text", text) ∷ [])
  container_parameters text (m ∷ []) = media_parameters text m
  container_parameters text (m ∷ n ∷ media) =
      threw (not_implemented "Threads carousel publishing is not implemented.")

  -- `objectUrl` and `edgeUrl`
  unfoldable pub object_url : String → Attempt String
  object_url id =
      and_then (base_url rt "THREADS_GRAPH_API_BASE_URL")
        (λ base. returned (String.◌++◌ base (String.◌++◌ "/" (rt.encode_component id))))

  unfoldable pub edge_url : String → String → Attempt String
  edge_url id edge =
      and_then (object_url id) (λ url. returned (String.◌++◌ url (String.◌++◌ "/" edge)))

module _ (rt : Runtime) (provider : ThreadsProvider) where
  -- `resolve`
  unfoldable pub threads_resolve : String → Act Sent ThreadsCredential
  threads_resolve id s = (
    if truthy id
        then provider.resolve s id
        else threw (forbidden "Threads account context is required."),
    s,
  )

  -- `writeCredential`, `readCredential`
  unfoldable pub threads_credential : String → String → Act Sent ThreadsCredential
  threads_credential scope id =
      threads_resolve id >>= λ credential. lift (require_scope scope credential)

  abbrev pub send_parameters :
      ThreadsMethod → String → ThreadsCredential → List (String × String) → Act Sent Json
  send_parameters method url credential parameters s =
      let q : ThreadsRequest = record {
        method = method;
        url = url;
        access_token = credential.access_token;
        parameters = parameters;
      } in
      (provider.request s q, q ∷ s)

  -- `this.http.request({...})`
  unfoldable pub threads_request :
      ThreadsMethod
      → Attempt String
      → ThreadsCredential
      → Attempt (List (String × String))
      → Act Sent Json
  threads_request method url credential parameters = do
    u ← lift url
    p ← lift parameters
    send_parameters method u credential p

  -- `createContainer`
  unfoldable pub create_container : String → String → List PostMedia → Act Sent String
  create_container account_id text media = do
    credential ← threads_credential "threads_content_publish" account_id
    body ←
        threads_request ThreadsMethod.post_method (edge_url rt credential.threads_user_id "threads")
          credential (container_parameters rt text media)
    lift (answered_id "Threads did not return a content container ID." body)

  -- `publishContainer`
  unfoldable pub publish_container : String → String → Act Sent PublishResult
  publish_container account_id container_id = do
    credential ← threads_credential "threads_content_publish" account_id
    body ←
        threads_request ThreadsMethod.post_method
          (edge_url rt credential.threads_user_id "threads_publish") credential
          (returned (("creation_id", container_id) ∷ []))
    remote_post_id ← lift (answered_id "Threads did not return a published post ID." body)
    λ s. (
      returned (record {
        remote_post_id = remote_post_id;
        remote_post_url = none;
        published_at = provider.now s;
      }),
      s,
    )

  -- `publish`
  unfoldable pub threads_publish : SocialPost → Act Sent PublishResult
  threads_publish post = do
    throw_if (not (same_platform post.platform SocialPlatform.threads))
        (type_error "Threads adapter can publish only Threads posts.")
    text ← lift (threads_text post)
    container_id ← create_container post.social_account_id text post.media
    publish_container post.social_account_id container_id
