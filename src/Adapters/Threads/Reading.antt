-- ===== src/Adapters/Threads/Reading.antt =====
-- The calls of backend/src/publishing/adapters/threads.adapter.ts that only read.
use social_promotion_automat.Base.{String, Option, none, some, List, [], ◌∷◌, or_else}
use social_promotion_automat.Analytics.{Counts, PostAnalytics}
use social_promotion_automat.Publishing.{Attempt, returned, threw, SocialPostResult, RemoteStatus}
use social_promotion_automat.Adapters.{
  Act, lift, and_then, ◌>>=◌, unavailable, Json, Items, end_of_items, item, array, Fields, get,
  nullish, object_of, string_of, number_of, numeric_provider_metrics, assert_analytics_have_values,
  Runtime, analytics_url,
}
use social_promotion_automat.Adapters.Threads.{
  ThreadsMethod, Sent, object_url, edge_url, threads_credential, threads_request, ThreadsProvider,
}

-- `ThreadsReply`
pub record ThreadsReply : Type 0 where
  pub id : String
  pub text : Option String
  pub username : Option String
  pub permalink : Option String
  pub timestamp : Option String

abbrev pub fields_parameter : List (String × String)
fields_parameter = ("fields", "id,permalink,text,timestamp,username") ∷ []

-- One entry of `getReplies`.
unfoldable pub reply_of : Json → Attempt ThreadsReply
reply_of entry = and_then (object_of "Threads" (some entry)) (λ o. elim (string_of (get "id" o)) [
  | none ↦ threw (unavailable "Threads reply omitted an ID.")
  | some id ↦ returned (record {
    id = id;
    text = string_of (get "text" o);
    username = string_of (get "username" o);
    permalink = string_of (get "permalink" o);
    timestamp = string_of (get "timestamp" o);
  })
])

-- `payload.data.map(...)`
unfoldable pub replies_of : Items → Attempt (List ThreadsReply)
replies_of end_of_items = returned []
replies_of (item entry items) =
    let rest = replies_of items in
    and_then (reply_of entry) (λ r. and_then rest (λ rs. returned (r ∷ rs)))

-- `Array.isArray(payload.data)`
unfoldable pub reply_items : Fields → Attempt Items
reply_items payload = elim (get "data" payload) [
  | none ↦ threw (unavailable "Threads replies response omitted data.")
  | some v ↦ elim v [
    | array items ↦ returned items
    | _ ↦ threw (unavailable "Threads replies response omitted data.")
  ]
]

abbrev pub threads_counts : Fields → Counts
threads_counts payload = record {
  impressions = number_of (get "impressions" payload);
  reach = number_of (get "reach" payload);
  views = number_of (get "views" payload);
  likes = number_of (get "likes" payload);
  comments = number_of (nullish (get "comments" payload) (get "replies" payload));
  shares = number_of (get "shares" payload);
  reposts = number_of (get "reposts" payload);
  clicks = number_of (get "clicks" payload);
}

module _ (rt : Runtime) (provider : ThreadsProvider) where
  -- `getPost`
  unfoldable pub threads_get_post : String → String → Act Sent SocialPostResult
  threads_get_post remote_post_id account_id = do
    credential ← threads_credential rt provider "threads_basic" account_id
    body ←
        threads_request rt provider ThreadsMethod.get_method (object_url rt remote_post_id)
          credential (returned fields_parameter)
    payload ← lift (object_of "Threads" (some body))
    lift (
        returned (record {
          remote_post_id = or_else (string_of (get "id" payload)) remote_post_id;
          remote_post_url = string_of (get "permalink" payload);
          status = RemoteStatus.published;
        }))

  -- `getReplies`
  unfoldable pub threads_get_replies : String → String → Act Sent (List ThreadsReply)
  threads_get_replies remote_post_id account_id = do
    credential ← threads_credential rt provider "threads_basic" account_id
    body ←
        threads_request rt provider ThreadsMethod.get_method (edge_url rt remote_post_id "replies")
          credential (returned fields_parameter)
    payload ← lift (object_of "Threads" (some body))
    items ← lift (reply_items payload)
    lift (replies_of items)

  -- `getAnalytics`
  unfoldable pub threads_get_analytics : String → String → Act Sent PostAnalytics
  threads_get_analytics remote_post_id account_id = do
    credential ← threads_credential rt provider "threads_basic" account_id
    url ← lift (analytics_url rt "THREADS_ANALYTICS_URL" remote_post_id)
    body ←
        threads_request rt provider ThreadsMethod.get_method (returned url) credential (returned [])
    payload ← lift (object_of "Threads" (some body))
    captured_at ← λ s. (returned (provider.now s), s)
    lift (
        assert_analytics_have_values
          (record {
            counts = threads_counts payload;
            raw_metrics = numeric_provider_metrics payload;
            captured_at = captured_at;
          })
          "Threads")
