-- ===== src/Adapters/X/Reading.antt =====
-- The other calls of backend/src/publishing/adapters/x.adapter.ts, and x-credential.service.ts.
use social_promotion_automat.Base.{
  ℕ, String, Bool, false, not, Option, none, some, List, [], ◌∷◌, or_else,
}
use social_promotion_automat.Entity.{SocialPlatform}
use social_promotion_automat.Analytics.{Counts, PostAnalytics}
use social_promotion_automat.Publishing.{Attempt, returned, SocialPostResult, RemoteStatus}
use social_promotion_automat.Oauth.{OauthDb}
use social_promotion_automat.Adapters.{
  Act, lift, and_then, throw_if, ◌>>=◌, unavailable, boolean, object, Fields, get, nullish,
  object_of, string_of, number_of, numeric_provider_metrics, assert_analytics_have_values, Runtime,
  analytics_url,
}
use social_promotion_automat.Adapters.Credential.{usable_account}
use social_promotion_automat.Adapters.X.{
  XUsageOperation, no_body, XMethod, XRequest, XState, XCredential, XProvider,
}
use social_promotion_automat.Adapters.X.Adapter.{
  write_credential, read_credential, billed, send_request, post_url, data_of,
}

-- `resolve` of `XCredentialService`, at the time `now`; `is_numeric` is `/^\d+$/.test`, and `decrypt` is the cipher's.
unfoldable pub resolve_credential :
    (String → Bool) → (Option String → Attempt String) → ℕ → OauthDb → String → Attempt XCredential
resolve_credential is_numeric decrypt now db id =
    and_then
      (usable_account SocialPlatform.x "X" "X publishing requires a verified numeric user ID."
        is_numeric decrypt now db id)
      (λ u. returned (record {
        social_account_id = u.0.id;
        x_user_id = u.0.platform_account_id;
        access_token = u.1;
        scope = u.0.scope;
      }))

-- `data.deleted !== true`
abbrev confirms_deletion : Fields → Bool
confirms_deletion fields = elim (get "deleted" fields) [
  | none ↦ false
  | some v ↦ elim v [ boolean b ↦ b | _ ↦ false ]
]

-- `payload.metrics ?? payload.public_metrics ?? payload.organic_metrics ?? payload`
abbrev metrics_of : Fields → Attempt Fields
metrics_of payload = object_of "X" (
    nullish (get "metrics" payload) (
      nullish (get "public_metrics" payload)
        (nullish (get "organic_metrics" payload) (some (object payload)))))

abbrev counts_of : Fields → Counts
counts_of metrics = record {
  impressions = number_of (nullish (get "impressions" metrics) (get "impression_count" metrics));
  reach = number_of (get "reach" metrics);
  views = number_of (get "views" metrics);
  likes = number_of (nullish (get "likes" metrics) (get "like_count" metrics));
  comments = number_of (nullish (get "comments" metrics) (get "reply_count" metrics));
  shares = number_of (get "shares" metrics);
  reposts = number_of (
      nullish (get "reposts" metrics)
        (nullish (get "repost_count" metrics) (get "retweet_count" metrics)));
  clicks = number_of (nullish (get "clicks" metrics) (get "url_link_clicks" metrics));
}

module _ (rt : Runtime) (provider : XProvider) where
  abbrev bare_request : XMethod → XCredential → List (String × String) → String → XRequest
  bare_request method credential parameters url = record {
    method = method;
    url = url;
    access_token = credential.access_token;
    body = no_body;
    parameters = parameters;
  }

  -- `deletePost`
  unfoldable pub x_delete_post : String → String → Act XState (Unit {0})
  x_delete_post remote_post_id social_account_id = do
    credential ← write_credential rt provider social_account_id
    body ← billed rt provider credential XUsageOperation.post_delete (
        send_request rt provider (post_url rt provider remote_post_id)
          (bare_request XMethod.delete_method credential []))
    fields ← lift (data_of body)
    throw_if (not (confirms_deletion fields))
        (unavailable "X did not confirm deletion of the post.")

  -- `getPost`
  unfoldable pub x_get_post : String → String → Act XState SocialPostResult
  x_get_post remote_post_id social_account_id = do
    credential ← read_credential rt provider social_account_id
    body ← billed rt provider credential XUsageOperation.post_read (
        send_request rt provider (post_url rt provider remote_post_id)
          (bare_request XMethod.get_method credential (("tweet.fields", "id,text") ∷ [])))
    fields ← lift (data_of body)
    lift (
        returned (record {
          remote_post_id = or_else (string_of (get "id" fields)) remote_post_id;
          remote_post_url = none;
          status = RemoteStatus.published;
        }))

  -- `getAnalytics`
  unfoldable pub x_get_analytics : String → String → Act XState PostAnalytics
  x_get_analytics remote_post_id social_account_id = do
    credential ← read_credential rt provider social_account_id
    url ← lift (analytics_url rt "X_ANALYTICS_URL" remote_post_id)
    body ←
        billed rt provider credential XUsageOperation.post_read
          (send_request rt provider (returned url) (bare_request XMethod.get_method credential []))
    payload ← lift (data_of body)
    metrics ← lift (metrics_of payload)
    captured_at ← λ s. (returned (provider.now s), s)
    lift (
        assert_analytics_have_values
          (record {
            counts = counts_of metrics;
            raw_metrics = numeric_provider_metrics metrics;
            captured_at = captured_at;
          })
          "X")
