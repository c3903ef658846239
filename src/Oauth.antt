-- ===== src/Oauth.antt =====
-- backend/src/auth/pg-oauth-account.repository.ts, with the types of backend/src/auth/oauth.types.ts: the
-- states of authorizations, the choices of Facebook pages, and the accounts with their encrypted tokens.
pub mod Once
pub mod Credential
pub mod Service
use social_promotion_automat.Base.{
  ℕ, String, Bool, true, false, not, ◌&&◌, ◌||◌, Option, none, some, List, [], ◌∷◌, ◌++◌, map,
  ◌===◌, if◌then◌else◌, leb, find, update, select, is_none, is_some, coalesce, any,
}
use social_promotion_automat.Entity.{SocialPlatform}
use social_promotion_automat.Entity.Equality.{same_platform}
use social_promotion_automat.Store.{AuditRow}
use social_promotion_automat.Account.{AccountRow, AccountStatus, is_active_account, is_revoked}

-- `OAuthPlatform`
pub data OauthPlatform : Type 0 where
  linkedin facebook threads x : OauthPlatform

abbrev pub social_platform : OauthPlatform → SocialPlatform
social_platform OauthPlatform.linkedin = SocialPlatform.linkedin
social_platform OauthPlatform.facebook = SocialPlatform.facebook
social_platform OauthPlatform.threads = SocialPlatform.threads
social_platform OauthPlatform.x = SocialPlatform.x

-- `OAuthCallbackRoute`
pub data CallbackRoute : Type 0 where
  linkedin meta threads x : CallbackRoute

-- `OAuthAuthorizationState`
pub record AuthorizationState : Type 0 where
  pub state_hash : String
  pub user_id : String
  pub platform : OauthPlatform
  pub callback_route : CallbackRoute
  pub code_verifier_encrypted : String
  pub expires_at : ℕ

-- `oauth_states`
pub record StateRow : Type 0 where
  pub state : AuthorizationState
  pub consumed_at : Option ℕ

-- `SocialAccountCredential`
pub record SocialAccountCredential : Type 0 where
  pub user_id : String
  pub platform : SocialPlatform
  pub platform_account_id : String
  pub account_name : Option String
  pub access_token_encrypted : String
  pub refresh_token_encrypted : Option String
  pub expires_at : Option ℕ
  pub scope : List String
  pub token_key_version : String

-- `facebook_page_selections`
pub record SelectionRow : Type 0 where
  pub selection_hash : String
  pub user_id : String
  pub scope : List String
  pub expires_at : ℕ
  pub consumed_at : Option ℕ

-- `facebook_page_selection_items`
pub record PageRow : Type 0 where
  pub selection_hash : String
  pub page_id : String
  pub page_name : String
  pub page_access_token_encrypted : String

-- `FacebookPageSelectionRecord`
pub record PageSelectionRecord : Type 0 where
  pub user_id : String
  pub scope : List String
  pub page_id : String
  pub page_name : String
  pub page_access_token_encrypted : String

pub record OauthDb : Type 0 where
  pub users : List String
  pub states : List StateRow
  pub selections : List SelectionRow
  pub pages : List PageRow
  pub accounts : List AccountRow
  pub audit : List AuditRow

-- `createState`
unfoldable pub create_state : AuthorizationState → OauthDb → OauthDb
create_state state s = record s {
  users = if any (λ u. u === state.user_id) s.users then s.users else s.users ++ state.user_id ∷ [];
  states = s.states ++ record { state = state; consumed_at = none } ∷ [];
}

-- `state_hash = $1 AND consumed_at IS NULL AND expires_at > now()`
abbrev pub is_consumable : String → ℕ → StateRow → Bool
is_consumable hash now r =
    (r.state.state_hash === hash) && (is_none r.consumed_at && not (leb r.state.expires_at now))

abbrev pub consumed_row : ℕ → StateRow → StateRow
consumed_row now r = record r { consumed_at = some now }

-- `consumeState`
unfoldable pub consume_state : String → ℕ → OauthDb → Option AuthorizationState × OauthDb
consume_state hash now s = (
  (elim (find (is_consumable hash now) s.states) [ none ↦ none | some r ↦ some r.state ]),
  record s { states = update (is_consumable hash now) (consumed_row now) s.states },
)

-- The conflict target `(user_id, platform, platform_account_id)`.
abbrev pub is_account_of : SocialAccountCredential → AccountRow → Bool
is_account_of c a =
    (a.user_id === c.user_id)
    && (same_platform a.platform c.platform && (a.platform_account_id === c.platform_account_id))

abbrev pub inserted_account : String → SocialAccountCredential → AccountRow
inserted_account id c = record {
  id = id;
  user_id = c.user_id;
  platform = c.platform;
  platform_account_id = c.platform_account_id;
  account_name = c.account_name;
  access_token_encrypted = some c.access_token_encrypted;
  refresh_token_encrypted = c.refresh_token_encrypted;
  expires_at = c.expires_at;
  scope = c.scope;
  token_key_version = c.token_key_version;
  status = AccountStatus.active;
}

abbrev pub replaced_account : SocialAccountCredential → AccountRow → AccountRow
replaced_account c a = record a {
  account_name = c.account_name;
  access_token_encrypted = some c.access_token_encrypted;
  refresh_token_encrypted = coalesce c.refresh_token_encrypted a.refresh_token_encrypted;
  expires_at = c.expires_at;
  scope = c.scope;
  token_key_version = c.token_key_version;
  status = AccountStatus.active;
}

-- `writeAudit`
unfoldable pub write_audit : String → String → String → OauthDb → OauthDb
write_audit user_id action entity_id s = record s {
  audit = s.audit ++ record { user_id = user_id; action = action; entity_id = entity_id } ∷ [];
}

-- `upsertSocialAccount`; `id` is the UUID of a new row. The row itself stands for `ConnectedSocialAccount`.
unfoldable pub upsert_social_account :
    String → SocialAccountCredential → OauthDb → AccountRow × OauthDb
upsert_social_account id c s = elim (find (is_account_of c) s.accounts) [
  | none ↦ (
    inserted_account id c,
    write_audit c.user_id "social_account.connected" id
        (record s { accounts = s.accounts ++ inserted_account id c ∷ [] }),
  )
  | some a ↦ (
    replaced_account c a,
    write_audit a.user_id "social_account.connected" a.id
        (record s { accounts = update (is_account_of c) (replaced_account c) s.accounts }),
  )
]

-- `findActiveSocialAccount`
unfoldable pub find_active_social_account : String → SocialPlatform → OauthDb → Option AccountRow
find_active_social_account id platform s =
    find
      (λ a.
        (a.id === id)
        && (same_platform a.platform platform
            && (is_active_account a.status && is_some a.access_token_encrypted)))
      s.accounts

-- `id = $1 AND user_id = $2 AND status <> 'revoked'`
abbrev pub can_disconnect : String → String → AccountRow → Bool
can_disconnect user_id account_id a =
    (a.id === account_id) && ((a.user_id === user_id) && not (is_revoked a.status))

abbrev pub revoked_account : AccountRow → AccountRow
revoked_account a = record a {
  status = AccountStatus.revoked;
  access_token_encrypted = none;
  refresh_token_encrypted = none;
}

-- `disconnectSocialAccount`; `id` is the primary key, so that the update has one row or none.
unfoldable pub disconnect_social_account : String → String → OauthDb → Bool × OauthDb
disconnect_social_account user_id account_id s =
    let disconnected = is_some (find (can_disconnect user_id account_id) s.accounts) in
    let s' = record s {
      accounts = update (can_disconnect user_id account_id) revoked_account s.accounts;
    } in
    (
      disconnected,
      if disconnected then write_audit user_id "social_account.disconnected" account_id s' else s',
    )

-- `createFacebookPageSelection`
unfoldable pub create_facebook_page_selection : SelectionRow → List PageRow → OauthDb → OauthDb
create_facebook_page_selection selection pages s = record s {
  selections = s.selections ++ selection ∷ [];
  pages = s.pages ++ pages;
}

-- `selection_hash = $1 AND user_id = $2 AND consumed_at IS NULL AND expires_at > now()`
abbrev pub is_selectable : String → String → ℕ → SelectionRow → Bool
is_selectable hash user_id now r =
    (r.selection_hash === hash)
    && ((r.user_id === user_id) && (is_none r.consumed_at && not (leb r.expires_at now)))

abbrev pub consumed_selection : ℕ → SelectionRow → SelectionRow
consumed_selection now r = record r { consumed_at = some now }

abbrev pub is_page : String → String → PageRow → Bool
is_page hash page_id p = (p.selection_hash === hash) && (p.page_id === page_id)

-- `consumeFacebookPageSelection`: a page that is not offered rolls the consumption back.
unfoldable pub consume_facebook_page_selection :
    String → String → String → ℕ → OauthDb → Option PageSelectionRecord × OauthDb
consume_facebook_page_selection hash user_id page_id now s =
    elim (find (is_selectable hash user_id now) s.selections) [
      | none ↦ (none, s)
      | some selection ↦ elim (find (is_page hash page_id) s.pages) [
        | none ↦ (none, s)
        | some page ↦ (
          some (record {
            user_id = user_id;
            scope = selection.scope;
            page_id = page.page_id;
            page_name = page.page_name;
            page_access_token_encrypted = page.page_access_token_encrypted;
          }),
          record s {
            selections =
                update (is_selectable hash user_id now) (consumed_selection now) s.selections;
          },
        )
      ]
    ]
