-- ===== src/Account.antt =====
-- The rows of `social_accounts`, with the types of backend/src/auth/oauth.types.ts, and what
-- backend/src/publishing/publishing-permissions.ts requires of an account.
use social_promotion_automat.Base.{
  ℕ, String, Bool, true, false, not, ◌&&◌, Option, none, some, List, [], ◌∷◌, ◌===◌, if◌then◌else◌,
  leb, select, any, is_some,
}
use social_promotion_automat.Entity.{SocialPlatform}
use text.Mathlib.Text.{starts_with}

pub data AccountStatus : Type 0 where
  active expired revoked disabled : AccountStatus

-- `social_accounts`
pub record AccountRow : Type 0 where
  pub id : String
  pub user_id : String
  pub platform : SocialPlatform
  pub platform_account_id : String
  pub account_name : Option String
  pub access_token_encrypted : Option String
  pub refresh_token_encrypted : Option String
  pub expires_at : Option ℕ
  pub scope : List String
  pub token_key_version : String
  pub status : AccountStatus

abbrev pub is_active_account : AccountStatus → Bool
is_active_account AccountStatus.active = true
is_active_account _ = false

abbrev pub is_revoked : AccountStatus → Bool
is_revoked AccountStatus.revoked = true
is_revoked _ = false

abbrev pub includes : List String → String → Bool
includes scope s = any (λ t. t === s) scope

-- `required` of `missingPublishingScopes`
unfoldable pub required_scopes : SocialPlatform → String → List String
required_scopes SocialPlatform.facebook external_id = "pages_manage_posts" ∷ []
required_scopes SocialPlatform.instagram external_id = "instagram_content_publish" ∷ []
required_scopes SocialPlatform.threads external_id = "threads_content_publish" ∷ []
required_scopes SocialPlatform.linkedin external_id =
    (if starts_with external_id "urn:li:organization:"
      then "w_organization_social"
      else "w_member_social")
    ∷ []
required_scopes SocialPlatform.x external_id = "tweet.read" ∷ "tweet.write" ∷ "users.read" ∷ []

-- `missingPublishingScopes`
unfoldable pub missing_publishing_scopes : SocialPlatform → List String → String → List String
missing_publishing_scopes platform scope external_id =
    select (λ s. not (includes scope s)) (required_scopes platform external_id)

-- `status = 'active' AND access_token_encrypted IS NOT NULL AND (expires_at IS NULL OR expires_at > now())`
unfoldable pub is_usable : ℕ → AccountRow → Bool
is_usable now a =
    is_active_account a.status
    && (is_some a.access_token_encrypted
        && elim a.expires_at [ none ↦ true | some t ↦ not (leb t now) ])
