-- ===== src/Adapters/Credential.antt =====
-- What x-credential.service.ts and threads-credential.service.ts of backend/src/publishing/adapters share.
use Prim.Native.String
use social_promotion_automat.Base.{ℕ, String, Bool, false, Option, none, some, if◌then◌else◌, leb}
use social_promotion_automat.Entity.{SocialPlatform}
use social_promotion_automat.Account.{AccountRow}
use social_promotion_automat.Publishing.{Attempt, returned, threw}
use social_promotion_automat.Oauth.{OauthDb, find_active_social_account}
use social_promotion_automat.Adapters.{and_then, forbidden, http_exception}

-- The active account of the platform, unless its token has expired, with the token in clear.
unfoldable pub usable_account :
    SocialPlatform
    → String
    → String
    → (String → Bool)
    → (Option String → Attempt String)
    → ℕ
    → OauthDb
    → String
    → Attempt (AccountRow × String)
usable_account platform platform_name id_message is_numeric decrypt now db id =
    elim (find_active_social_account id platform db) [
      | none ↦ threw (
          http_exception 404
            (String.◌++◌ "An active " (String.◌++◌ platform_name " account was not found.")))
      | some account ↦
          if elim account.expires_at [ none ↦ false | some t ↦ leb t now ]
          then threw (
              forbidden (
                String.◌++◌ "The "
                  (String.◌++◌ platform_name " access token has expired and must be reconnected.")))
          else if is_numeric account.platform_account_id
          then and_then (decrypt account.access_token_encrypted)
              (λ token. returned (account, token))
          else threw (forbidden id_message)
    ]
