-- ===== src/Oauth/Service/Selection.antt =====
-- `selectFacebookPage` of backend/src/auth/oauth.service.ts.
use social_promotion_automat.Base.{
  ℕ, String, Bool, not, ◌||◌, Option, none, some, List, if◌then◌else◌, truthy,
}
use social_promotion_automat.Entity.{SocialPlatform}
use social_promotion_automat.Result.{Error, Result, ok, raised}
use social_promotion_automat.Account.{AccountRow}
use social_promotion_automat.Oauth.{
  PageSelectionRecord, OauthDb, upsert_social_account, consume_facebook_page_selection,
}
use social_promotion_automat.Oauth.Service.{Identity, Provider}

module _ (providers : List Provider) (hash encrypt decrypt : String → String) (key_version : String)
    (is_blank : String → Bool) where
  -- The account that a page stands for: the page, or the professional account that `instagram` finds for it.
  unfoldable pub chosen_account :
      (String → String → Result Identity) → Bool → PageSelectionRecord → Result Identity
  chosen_account instagram is_instagram selected =
      if is_instagram
      then instagram selected.page_id (decrypt selected.page_access_token_encrypted)
      else ok (record {
        platform_account_id = selected.page_id;
        account_name = some selected.page_name;
      })

  unfoldable pub connect_page :
      (String → String → Result Identity)
      → Bool
      → String
      → Option PageSelectionRecord
      → OauthDb
      → Result AccountRow × OauthDb
  connect_page instagram is_instagram new_id none s = (
    raised (Error.unauthorized "Facebook Page selection is invalid, expired, or already used."),
    s,
  )
  connect_page instagram is_instagram new_id (some selected) s =
      elim (chosen_account instagram is_instagram selected) [
        | raised e ↦ (raised e, s)
        | ok identity ↦
            let (row, s') =
              upsert_social_account new_id
                (record {
                  user_id = selected.user_id;
                  platform =
                      if is_instagram then SocialPlatform.instagram else SocialPlatform.facebook;
                  platform_account_id = identity.platform_account_id;
                  account_name = identity.account_name;
                  access_token_encrypted = selected.page_access_token_encrypted;
                  refresh_token_encrypted = none;
                  expires_at = none;
                  scope = selected.scope;
                  token_key_version = key_version;
                })
                s in
            (ok row, s')
      ]

  -- `selectFacebookPage`
  unfoldable pub select_facebook_page :
      (String → String → Result Identity)
      → Bool
      → String
      → ℕ
      → String
      → String
      → String
      → OauthDb
      → Result AccountRow × OauthDb
  select_facebook_page instagram is_instagram new_id now user_id selection_id page_id s =
      if is_blank user_id
      then (raised (Error.unauthorized "An authenticated user context is required."), s)
      else if not (truthy selection_id) || not (truthy page_id)
      then (raised (Error.bad_request "Facebook Page selection is incomplete."), s)
      else (let (selected, s') =
            consume_facebook_page_selection (hash selection_id) user_id page_id now s in
          connect_page instagram is_instagram new_id selected s')
