-- ===== src/Oauth/Service.antt =====
-- backend/src/auth/oauth.service.ts. A provider, the hash, the cipher, the random values and Meta's Graph API are
-- parameters; `is_blank` says that `trim` leaves nothing of a text.
pub mod Callback
pub mod Selection
use social_promotion_automat.Base.{
  ℕ, ◌+◌, String, Bool, true, false, not, ◌||◌, Option, none, some, List, [], ◌∷◌, map,
  if◌then◌else◌, truthy, truthy?, or_else,
}
use social_promotion_automat.Entity.{SocialPlatform}
use social_promotion_automat.Result.{Error, Result, ok, raised, ◌>>=◌, ◌>>◌, raise_if}
use social_promotion_automat.Account.{AccountRow}
use social_promotion_automat.Oauth.{
  OauthPlatform, social_platform, CallbackRoute, AuthorizationState, SocialAccountCredential,
  PageSelectionRecord, SelectionRow, PageRow, OauthDb, create_state, consume_state,
  upsert_social_account, create_facebook_page_selection, consume_facebook_page_selection,
}

-- `OAuthTokenSet`
pub record TokenSet : Type 0 where
  pub access_token : String
  pub refresh_token : Option String
  pub expires_at : Option ℕ
  pub scopes : List String

-- `OAuthIdentity`
pub record Identity : Type 0 where
  pub platform_account_id : String
  pub account_name : Option String

-- `FacebookManagedPage`
pub record ManagedPage : Type 0 where
  pub page_id : String
  pub page_name : String
  pub page_access_token : String

-- `OAuthProvider`: each call of the provider may throw.
pub record Provider : Type 0 where
  pub platform : OauthPlatform
  pub callback_route : CallbackRoute
  pub authorization_url : String → String → Result String
  pub exchange_code : String → String → Result TokenSet
  pub list_managed_pages : Option (String → Result (List ManagedPage))
  pub fetch_identity : String → Result Identity

-- `ConnectedSocialAccount | FacebookPageSelection`
pub data Connection : Type 0 where
  connected : AccountRow → Connection
  choice : String → List (String × String) → Connection

-- The query of a callback.
pub record CallbackQuery : Type 0 where
  pub state : Option String
  pub code : Option String
  pub error : Option String

abbrev pub same_oauth_platform : OauthPlatform → OauthPlatform → Bool
same_oauth_platform OauthPlatform.linkedin OauthPlatform.linkedin = true
same_oauth_platform OauthPlatform.facebook OauthPlatform.facebook = true
same_oauth_platform OauthPlatform.threads OauthPlatform.threads = true
same_oauth_platform OauthPlatform.x OauthPlatform.x = true
same_oauth_platform _ _ = false

abbrev pub same_route : CallbackRoute → CallbackRoute → Bool
same_route CallbackRoute.linkedin CallbackRoute.linkedin = true
same_route CallbackRoute.meta CallbackRoute.meta = true
same_route CallbackRoute.threads CallbackRoute.threads = true
same_route CallbackRoute.x CallbackRoute.x = true
same_route _ _ = false

-- `STATE_TTL_MS`
abbrev pub state_ttl_ms : ℕ
state_ttl_ms = 600000

abbrev pub state_missing : Error
state_missing = Error.unauthorized "OAuth state is missing."

abbrev pub state_invalid : Error
state_invalid = Error.unauthorized "OAuth state is invalid, expired, or already used."

-- `providersByPlatform.get(platform)`: of two for one platform the later is kept.
unfoldable pub find_provider : List Provider → OauthPlatform → Option Provider
find_provider [] p = none
find_provider (a ∷ providers) p = elim (find_provider providers p) [
  | some later ↦ some later
  | none ↦ if same_oauth_platform a.platform p then some a else none
]

-- `provider`
unfoldable pub provider_for : List Provider → OauthPlatform → Result Provider
provider_for providers p = elim (find_provider providers p) [
  | none ↦ raised (Error.bad_request "Unsupported OAuth platform.")
  | some a ↦ ok a
]

module _ (providers : List Provider) (hash encrypt decrypt : String → String) (key_version : String)
    (is_blank : String → Bool) where
  -- `beginAuthorization`, with the random state and verifier, and `challenge` for the verifier's digest.
  unfoldable pub begin_authorization :
      (challenge : String → String)
      → String
      → OauthPlatform
      → String
      → String
      → ℕ
      → OauthDb
      → Result String × OauthDb
  begin_authorization challenge user_id platform state verifier now s =
      elim (raise_if (is_blank user_id)
          (Error.unauthorized "An authenticated user context is required.")
        >> provider_for providers platform) [
          | raised e ↦ (raised e, s)
          | ok provider ↦ (
            provider.authorization_url state (challenge verifier),
            create_state
                (record {
                  state_hash = hash state;
                  user_id = user_id;
                  platform = platform;
                  callback_route = provider.callback_route;
                  code_verifier_encrypted = encrypt verifier;
                  expires_at = now + state_ttl_ms;
                })
                s,
          )
        ]

  abbrev pub page_row : String → ManagedPage → PageRow
  page_row selection_id page = record {
    selection_hash = hash selection_id;
    page_id = page.page_id;
    page_name = page.page_name;
    page_access_token_encrypted = encrypt page.page_access_token;
  }

  -- The pages that Facebook offers.
  unfoldable pub managed_pages : Provider → TokenSet → Result (List ManagedPage)
  managed_pages provider tokens = elim provider.list_managed_pages [
    | none ↦
        raised
          (Error.bad_request "Facebook Page selection is not supported by the configured provider.")
    | some list ↦ do
      pages ← list tokens.access_token
      raise_if (elim pages [ [] ↦ true | p ∷ ps ↦ false ])
          (Error.bad_request "No manageable Facebook Pages were returned.")
      ok pages
  ]

  -- The branch of `completeCallback` for Facebook.
  unfoldable pub offer_pages :
      Provider → TokenSet → AuthorizationState → String → ℕ → OauthDb → Result Connection × OauthDb
  offer_pages provider tokens state selection_id now s = elim (managed_pages provider tokens) [
    | raised e ↦ (raised e, s)
    | ok pages ↦ (
      ok (choice selection_id (map (λ (p : ManagedPage). (p.page_id, p.page_name)) pages)),
      create_facebook_page_selection
          (record {
            selection_hash = hash selection_id;
            user_id = state.user_id;
            scope = tokens.scopes;
            expires_at = now + state_ttl_ms;
            consumed_at = none;
          })
          (map (page_row selection_id) pages) s,
    )
  ]

  -- `tokenSet.refreshToken ? this.tokens.encrypt(tokenSet.refreshToken) : null`
  abbrev pub encrypted_refresh : Option String → Option String
  encrypted_refresh none = none
  encrypted_refresh (some t) = if truthy t then some (encrypt t) else none

  -- The rest of `completeCallback`; `new_id` is the UUID of a new account.
  unfoldable pub connect_account :
      Provider → TokenSet → AuthorizationState → String → OauthDb → Result Connection × OauthDb
  connect_account provider tokens state new_id s =
      elim (provider.fetch_identity tokens.access_token) [
        | raised e ↦ (raised e, s)
        | ok identity ↦
            let (row, s') =
              upsert_social_account new_id
                (record {
                  user_id = state.user_id;
                  platform = social_platform state.platform;
                  platform_account_id = identity.platform_account_id;
                  account_name = identity.account_name;
                  access_token_encrypted = encrypt tokens.access_token;
                  refresh_token_encrypted = encrypted_refresh tokens.refresh_token;
                  expires_at = tokens.expires_at;
                  scope = tokens.scopes;
                  token_key_version = key_version;
                })
                s in
            (ok (connected row), s')
      ]

  -- `completeCallback` up to the tokens, on the state that was consumed.
  unfoldable pub exchanged : CallbackQuery → AuthorizationState → Result (Provider × TokenSet)
  exchanged query state = do
    raise_if (truthy? query.error)
        (Error.bad_request "The social account authorization was not approved.")
    raise_if (not (truthy? query.code)) (Error.bad_request "OAuth authorization code is missing.")
    provider ← provider_for providers state.platform
    tokens ← provider.exchange_code (or_else query.code "") (decrypt state.code_verifier_encrypted)
    ok (provider, tokens)

  unfoldable pub finish_callback :
      String
      → String
      → ℕ
      → CallbackQuery
      → AuthorizationState
      → OauthDb
      → Result Connection × OauthDb
  finish_callback selection_id new_id now query state s = elim (exchanged query state) [
    | raised e ↦ (raised e, s)
    | ok (provider, tokens) ↦
        if same_oauth_platform state.platform OauthPlatform.facebook
        then offer_pages provider tokens state selection_id now s
        else connect_account provider tokens state new_id s
  ]

  -- What follows the consumption of the state.
  unfoldable pub continue_callback :
      String
      → String
      → ℕ
      → CallbackRoute
      → CallbackQuery
      → Option AuthorizationState
      → OauthDb
      → Result Connection × OauthDb
  continue_callback selection_id new_id now route query none s = (raised state_invalid, s)
  continue_callback selection_id new_id now route query (some state) s =
      if same_route state.callback_route route
      then finish_callback selection_id new_id now query state s
      else (raised state_invalid, s)

  -- `completeCallback`
  unfoldable pub complete_callback :
      String → String → ℕ → CallbackRoute → CallbackQuery → OauthDb → Result Connection × OauthDb
  complete_callback selection_id new_id now route query s =
      if not (truthy? query.state)
      then (raised state_missing, s)
      else (let (state, s') = consume_state (hash (or_else query.state "")) now s in
          continue_callback selection_id new_id now route query state s')
