-- ===== src/Adapters/X/Adapter.antt =====
-- backend/src/publishing/adapters/x.adapter.ts
use Prim.Native.String
use Prim.Native.Char.{code}
use social_promotion_automat.Base.{
  ◌+◌, String, Bool, true, false, not, ◌&&◌, ◌||◌, Option, none, some, List, [], ◌∷◌, ◌==◌,
  if◌then◌else◌, leb, ltb, truthy, length, find,
}
use social_promotion_automat.Entity.{SocialPlatform, MediaType, PostMedia}
use social_promotion_automat.Entity.Equality.{same_platform}
use social_promotion_automat.Retry.{Thrown}
use social_promotion_automat.Account.{includes}
use social_promotion_automat.Publishing.{Attempt, returned, threw, SocialPost, PublishResult}
use social_promotion_automat.Formatting.{trim}
use social_promotion_automat.Adapters.{
  Act, lift, and_then, throw_if, ◌>>=◌, ◌>>◌, type_error, forbidden, not_implemented, unavailable,
  Json, Fields, get, object_of, string_of, Runtime, base_url, body_and_link,
}
use social_promotion_automat.Adapters.X.{
  XUsageOperation, XUsageOutcome, post_body, media_body, XMethod, XRequest, XState, XCredential,
  XProvider, reserve, settle_reservation, estimate, Progress, not_begun, reserved_only, sent_only,
  finished,
}

-- `data`
unfoldable pub data_of : Json → Attempt Fields
data_of body = and_then (object_of "X" (some body)) (λ fields. object_of "X" (get "data" fields))

-- `externalReference`
unfoldable pub external_reference : Json → Attempt (Option String)
external_reference body = and_then (data_of body) (λ fields. returned (string_of (get "id" fields)))

-- Whether the characters of a pattern in small letters come first, whatever their case in the text.
unfoldable pub begins_with : String → String → Bool
begins_with String.[] s = true
begins_with (String.◌∷◌ p pattern) String.[] = false
begins_with (String.◌∷◌ p pattern) (String.◌∷◌ c s) =
    let n = code c in
    let rest = begins_with pattern s in
    (n == code p || (leb 65 n && (leb n 90 && (n + 32 == code p)))) && rest

-- `containsUrl`
unfoldable pub contains_url : String → Bool
contains_url String.[] = false
contains_url (String.◌∷◌ c s) =
    let rest = contains_url s in
    begins_with "http://" (String.◌∷◌ c s) || (begins_with "https://" (String.◌∷◌ c s) || rest)

-- `requireScopes`
unfoldable pub require_scopes : List String → XCredential → Attempt XCredential
require_scopes scopes credential = elim (find (λ s. not (includes credential.scope s)) scopes) [
  | none ↦ returned credential
  | some missing ↦
      threw
        (forbidden (String.◌++◌ "X account is missing required scope: " (String.◌++◌ missing ".")))
]

-- `postText`
unfoldable pub post_text : SocialPost → Attempt String
post_text post =
    let text = body_and_link post in
    if not (truthy text) && length post.media == 0
    then threw (type_error "X publishing requires text or media.")
    else returned text

-- An `id` of an answer that must be there.
unfoldable pub required_id : String → Json → Attempt String
required_id message body = and_then (data_of body) (λ fields. elim (string_of (get "id" fields)) [
  | none ↦ threw (unavailable message)
  | some id ↦ returned id
])

abbrev pub create_request : XCredential → String → List String → String → XRequest
create_request credential text media_ids url = record {
  method = XMethod.post_method;
  url = url;
  access_token = credential.access_token;
  body = post_body text media_ids;
  parameters = [];
}

abbrev pub upload_request : XCredential → PostMedia → String → String → XRequest
upload_request credential media base64 url = record {
  method = XMethod.post_method;
  url = url;
  access_token = credential.access_token;
  body =
      media_body base64 (elim media.media_type [
        | MediaType.image ↦ "tweet_image"
        | MediaType.video ↦ "tweet_video"
      ]);
  parameters = [];
}

abbrev pub collect : Attempt String → Attempt (List String) → Attempt (List String)
collect (threw e) ids = threw e
collect (returned id) (threw e) = threw e
collect (returned id) (returned ids) = returned (id ∷ ids)

module _ (rt : Runtime) (provider : XProvider) where
  -- `resolve`
  unfoldable pub resolve : String → Act XState XCredential
  resolve social_account_id s = (
    if truthy social_account_id
        then provider.resolve s social_account_id
        else threw (forbidden "X account context is required."),
    s,
  )

  -- `writeCredential`
  unfoldable pub write_credential : String → Act XState XCredential
  write_credential id = do
    credential ← resolve id
    lift (require_scopes ("tweet.read" ∷ "tweet.write" ∷ "users.read" ∷ []) credential)

  -- `readCredential`
  unfoldable pub read_credential : String → Act XState XCredential
  read_credential id = do
    credential ← resolve id
    lift (require_scopes ("tweet.read" ∷ "users.read" ∷ []) credential)

  abbrev pub request_with : (String → XRequest) → String → Act XState Json
  request_with make url s =
      let sent = record s { requests = make url ∷ s.requests } in
      (provider.request s (make url), sent)

  -- `this.http.request({...})` of a request whose URL may throw.
  unfoldable pub send_request : Attempt String → (String → XRequest) → Act XState Json
  send_request url make = lift url >>= request_with make

  -- `settleWithoutBreakingPublication`
  unfoldable pub settle_quietly : String → XUsageOutcome → Option String → Act XState (Unit {0})
  settle_quietly id outcome reference s =
      (returned tt, (settle_reservation rt provider id outcome reference s).1)

  -- The `catch` of `billed`.
  unfoldable pub settle_failed : {A : Type 0} → String → Thrown → Act XState A
  settle_failed id error = settle_quietly id XUsageOutcome.failed none >> lift (threw error)

  -- The `try` of `billed`, on what the request came to.
  unfoldable pub settle_answer : String → Attempt Json → Act XState Json
  settle_answer id (threw error) = settle_failed id error
  settle_answer id (returned body) = elim (external_reference body) [
    | threw error ↦ settle_failed id error
    | returned reference ↦
        settle_quietly id XUsageOutcome.succeeded reference >> lift (returned body)
  ]

  unfoldable pub request_reserved : Act XState Json → String → Act XState Json
  request_reserved request id s = let (answer, s') = request s in settle_answer id answer s'

  -- `billed`
  unfoldable pub billed : XCredential → XUsageOperation → Act XState Json → Act XState Json
  billed credential operation request = do
    quote ← lift (estimate rt operation)
    id ← reserve rt provider credential.social_account_id operation quote.0 quote.1
    request_reserved request id

  abbrev api_url : String → Attempt String
  api_url path = and_then (base_url rt "X_API_BASE_URL") (λ base. returned (String.◌++◌ base path))

  abbrev posts_url : Attempt String
  posts_url = api_url "/2/tweets"

  abbrev pub post_url : String → Attempt String
  post_url post_id = api_url (String.◌++◌ "/2/tweets/" (rt.encode_component post_id))

  abbrev media_upload_url : Attempt String
  media_upload_url = api_url "/2/media/upload"

  -- `createPost`
  unfoldable pub create_post : String → String → List String → Act XState PublishResult
  create_post social_account_id text media_ids = do
    credential ← write_credential social_account_id
    body ←
        billed credential
          (if contains_url text
            then XUsageOperation.post_create_with_url
            else XUsageOperation.post_create)
          (send_request posts_url (create_request credential text media_ids))
    remote_post_id ← lift (required_id "X API did not return a created post ID." body)
    λ s. (
      returned (record {
        remote_post_id = remote_post_id;
        remote_post_url = none;
        published_at = provider.now s;
      }),
      s,
    )

  -- `uploadMedia`
  unfoldable pub upload_media : String → PostMedia → Act XState String
  upload_media social_account_id media = do
    credential ← write_credential social_account_id
    base64 ← λ s. (provider.read_media s media, s)
    body ←
        billed credential XUsageOperation.media_upload
          (send_request media_upload_url (upload_request credential media base64))
    lift (required_id "X Media Upload did not return a media ID." body)

  -- `billed` up to its reservation, or up to its request.
  unfoldable pub billed_begun :
      Bool → XCredential → XUsageOperation → Act XState Json → Act XState (Unit {0})
  billed_begun is_sent credential operation request = do
    quote ← lift (estimate rt operation)
    id ← reserve rt provider credential.social_account_id operation quote.0 quote.1
    λ s. (returned tt, if is_sent then (request s).1 else s)

  -- `uploadMedia` up to there.
  unfoldable pub upload_begun : Bool → String → PostMedia → Act XState (Unit {0})
  upload_begun is_sent social_account_id media = do
    credential ← write_credential social_account_id
    base64 ← λ s. (provider.read_media s media, s)
    billed_begun is_sent credential XUsageOperation.media_upload
        (send_request media_upload_url (upload_request credential media base64))

  -- What an upload has done when another one fails.
  unfoldable pub upload_part : Progress → String → PostMedia → XState → XState
  upload_part not_begun account m s = s
  upload_part reserved_only account m s = (upload_begun false account m s).1
  upload_part sent_only account m s = (upload_begun true account m s).1
  upload_part finished account m s = (upload_media account m s).1

  unfoldable pub upload_parts : String → List PostMedia → XState → XState
  upload_parts account [] s = s
  upload_parts account (m ∷ media) s =
      upload_parts account media (upload_part (provider.progress s m) account m s)

  abbrev pub joined :
      Attempt String → XState → Attempt (List String) × XState → Attempt (List String) × XState
  joined (threw e) left rest = (threw e, left)
  joined (returned id) left (ids, s) = (collect (returned id) ids, s)

  -- `Promise.all` over the uploads, in the runs in which an upload that comes through is over before the next one: the first
  -- failure is thrown at once, when each upload behind it has come as far as `progress` says. Adapters.X.Stages and
  -- Adapters.X.Interleaving have the uploads' stages in any order.
  unfoldable pub upload_all : String → List PostMedia → Act XState (List String)
  upload_all social_account_id [] s = (returned [], s)
  upload_all social_account_id (m ∷ media) s =
      let (id, s') = upload_media social_account_id m s in
      joined id (upload_parts social_account_id media s') (upload_all social_account_id media s')

  -- `publishText`
  unfoldable pub publish_text : String → String → Act XState PublishResult
  publish_text social_account_id text = do
    throw_if (not (truthy (trim text)))
        (type_error "X post text is required when no media is attached.")
    create_post social_account_id text []

  -- `publishMedia`
  unfoldable pub publish_media : String → String → List PostMedia → Act XState PublishResult
  publish_media social_account_id text media = do
    throw_if (length media == 0) (type_error "X media publishing requires at least one media item.")
    throw_if (ltb 4 (length media))
        (not_implemented "X publishing supports at most four attached media items in this adapter.")
    media_ids ← upload_all social_account_id media
    create_post social_account_id text media_ids

  -- `publish`
  unfoldable pub x_publish : SocialPost → Act XState PublishResult
  x_publish post = do
    throw_if (not (same_platform post.platform SocialPlatform.x))
        (type_error "X adapter can publish only X posts.")
    text ← lift (post_text post)
    if length post.media == 0
        then publish_text post.social_account_id text
        else publish_media post.social_account_id text post.media
