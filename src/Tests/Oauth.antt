-- ===== src/Tests/Oauth.antt =====
-- Examples for backend/src/auth/oauth.service.ts and pg-oauth-account.repository.ts.
use social_promotion_automat.Base.{
  ℕ, String, Bool, false, none, some, [], ◌∷◌, ◌≡◌, ◌≢◌, refl, arith, All, find, eq_iff,
}
use social_promotion_automat.Entity.{SocialPlatform}
use social_promotion_automat.Result.{Result, ok, raised}
use social_promotion_automat.Account.{AccountRow, AccountStatus}
use social_promotion_automat.Oauth.{
  OauthPlatform, CallbackRoute, AuthorizationState, SocialAccountCredential, PageSelectionRecord,
  OauthDb, consume_state, is_account_of, find_active_social_account, disconnect_social_account,
  consume_facebook_page_selection,
}
use social_promotion_automat.Oauth.Once.{consume_state_once, consume_selection_once}
use social_promotion_automat.Oauth.Credential.{disconnect_hides}
use social_promotion_automat.Oauth.Service.{
  Provider, TokenSet, Connection, CallbackQuery, state_invalid, provider_for, find_provider,
  begin_authorization, finish_callback, complete_callback,
}
use social_promotion_automat.Oauth.Service.Callback.{callback_once, begin_then_callback}

abbrev sample_account : AccountRow
sample_account = record {
  id = "a1";
  user_id = "u1";
  platform = SocialPlatform.x;
  platform_account_id = "77";
  account_name = none;
  access_token_encrypted = some "t";
  refresh_token_encrypted = some "r";
  expires_at = none;
  scope = [];
  token_key_version = "1";
  status = AccountStatus.active;
}

abbrev sample_state : AuthorizationState
sample_state = record {
  state_hash = "h1";
  user_id = "u1";
  platform = OauthPlatform.x;
  callback_route = CallbackRoute.x;
  code_verifier_encrypted = "v1";
  expires_at = 2000;
}

abbrev sample_db : OauthDb
sample_db = record {
  users = "u1" ∷ [];
  states = record { state = sample_state; consumed_at = none } ∷ [];
  selections =
      record {
        selection_hash = "f1";
        user_id = "u1";
        scope = [];
        expires_at = 2000;
        consumed_at = none;
      }
      ∷ [];
  pages =
      record {
        selection_hash = "f1";
        page_id = "pg";
        page_name = "Shop";
        page_access_token_encrypted = "pt";
      }
      ∷ [];
  accounts = sample_account ∷ [];
  audit = [];
}

consume_state_once_example :
    consume_state "h1" 1500 (consume_state "h1" 1000 sample_db).1
    ≡ (none, (consume_state "h1" 1000 sample_db).1)
consume_state_once_example =
    consume_state_once "h1" 1000 1500 sample_db (consume_state "h1" 1000 sample_db).1 (omega arith)
      refl

abbrev selected : PageSelectionRecord
selected = record {
  user_id = "u1";
  scope = [];
  page_id = "pg";
  page_name = "Shop";
  page_access_token_encrypted = "pt";
}

selects : (consume_facebook_page_selection "f1" "u1" "pg" 1000 sample_db).0 ≡ some selected
unfolding consume_facebook_page_selection find
selects = refl

consume_selection_once_example :
    let s' = (consume_facebook_page_selection "f1" "u1" "pg" 1000 sample_db).1 in
    consume_facebook_page_selection "f1" "u1" "other" 1500 s' ≡ (none, s')
consume_selection_once_example =
    consume_selection_once "f1" "u1" "pg" "other" 1000 1500 sample_db selected selects (omega arith)

wrong_page : (consume_facebook_page_selection "f1" "u1" "other" 1000 sample_db).0 ≡ none
unfolding consume_facebook_page_selection find
wrong_page = refl

abbrev renewed : SocialAccountCredential
renewed = record {
  user_id = "u1";
  platform = SocialPlatform.x;
  platform_account_id = "77";
  account_name = some "Shop";
  access_token_encrypted = "t2";
  refresh_token_encrypted = none;
  expires_at = none;
  scope = [];
  token_key_version = "1";
}

stored : find (is_account_of renewed) sample_db.accounts ≡ some sample_account
unfolding find
stored = refl

owned : All (λ (a : AccountRow). a.id ≡ "a1" → a.user_id ≡ "u1") sample_db.accounts
owned = (λ e. refl, tt)

disconnect_hides_example :
    find_active_social_account "a1" SocialPlatform.x
      (disconnect_social_account "u1" "a1" sample_db).1
    ≡ none
disconnect_hides_example = disconnect_hides "u1" "a1" SocialPlatform.x sample_db owned

not_the_owner : ◌≢◌ {A = String} "u1" "u2"
not_the_owner e = ground (arith, eq_iff "u1" "u2")

foreign : All (λ (a : AccountRow). a.id ≡ "a1" → a.user_id ≢ "u2") sample_db.accounts
foreign = (λ e. not_the_owner, tt)

abbrev tokens : TokenSet
tokens = record { access_token = "at"; refresh_token = none; expires_at = none; scopes = [] }

abbrev sample_provider : Provider
sample_provider = record {
  platform = OauthPlatform.x;
  callback_route = CallbackRoute.x;
  authorization_url = λ state challenge. ok state;
  exchange_code = λ code verifier. ok tokens;
  list_managed_pages = none;
  fetch_identity = λ token. ok (record { platform_account_id = "77"; account_name = none });
}

abbrev same_text : String → String
same_text s = s

abbrev blank : String → Bool
blank s = false

abbrev sample_query : CallbackQuery
sample_query = record { state = some "h1"; code = some "c"; error = none }

abbrev callback : ℕ → OauthDb → Result Connection × OauthDb
callback now s =
    complete_callback (sample_provider ∷ []) same_text same_text same_text "1" blank "sel" "new" now
      CallbackRoute.x sample_query s

callback_once_example :
    callback 1500 (callback 1000 sample_db).1 ≡ (raised state_invalid, (callback 1000 sample_db).1)
callback_once_example =
    callback_once (sample_provider ∷ []) same_text same_text same_text "1" blank "sel" "new" "sel"
      "new" 1000 1500 CallbackRoute.x CallbackRoute.x sample_query sample_query sample_db
      (callback 1000 sample_db).1 refl refl (omega arith) refl

registered : provider_for (sample_provider ∷ []) OauthPlatform.x ≡ ok sample_provider
unfolding provider_for find_provider
registered = refl

abbrev second_query : CallbackQuery
second_query = record { state = some "h2"; code = some "c"; error = none }

begin_then_callback_example :
    let s1 =
      (begin_authorization
        (sample_provider ∷ [])
        same_text
        same_text
        same_text
        "1"
        blank
        same_text
        "u1"
        OauthPlatform.x
        "h2"
        "secret"
        1000
        sample_db).1 in
    (st : AuthorizationState) × (st.user_id ≡ "u1")
    × (st.platform ≡ OauthPlatform.x)
    × (st.code_verifier_encrypted ≡ "secret")
    × (complete_callback
          (sample_provider ∷ [])
          same_text
          same_text
          same_text
          "1"
          blank
          "sel"
          "new"
          1200
          CallbackRoute.x
          second_query
          s1
        ≡ finish_callback
            (sample_provider ∷ [])
            same_text
            same_text
            same_text
            "1"
            blank
            "sel"
            "new"
            1200
            second_query
            st
            (consume_state "h2" 1200 s1).1)
begin_then_callback_example =
    begin_then_callback (sample_provider ∷ []) same_text same_text same_text "1" blank same_text
      "u1" "h2" "secret" "sel" "new" OauthPlatform.x sample_provider 1000 1200 second_query
      sample_db (λ t. refl) refl registered (refl, tt) refl refl (omega arith)
