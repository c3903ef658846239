-- ===== src/Oauth/Credential.antt =====
-- What backend/src/auth/pg-oauth-account.repository.ts keeps and drops of an account's tokens.
use social_promotion_automat.Base.{
  String, Bool, true, false, ◌&&◌, none, some, List, [], ◌∷◌, ◌===◌, ◌≡◌, ◌≢◌, refl, arith, inl,
  inr, if◌then◌else◌, find, find-update, find_holds, update, is_some, coalesce, eq_iff, eq_refl,
  All, All-weaken, Bool-cases,
}
use social_promotion_automat.Entity.{SocialPlatform}
use social_promotion_automat.Entity.Equality.{same_platform}
use social_promotion_automat.Account.{AccountRow, AccountStatus, is_active_account}
use social_promotion_automat.Oauth.{
  SocialAccountCredential, OauthDb, is_account_of, replaced_account, write_audit,
  upsert_social_account, find_active_social_account, can_disconnect, revoked_account,
  disconnect_social_account,
}

-- Connecting an account again keeps its row's id, puts the new access token in place, makes it active and, where
-- the provider sent no refresh token, keeps the old one; what is returned is the row that is stored.
pub reconnect_keeps_refresh :
    (id : String) (c : SocialAccountCredential) (s : OauthDb) (a : AccountRow)
    → find (is_account_of c) s.accounts ≡ some a
    → let (row, s') = upsert_social_account id c s in
      (find (is_account_of c) s'.accounts ≡ some row)
      × (row.id ≡ a.id)
      × (row.access_token_encrypted ≡ some c.access_token_encrypted)
      × (row.refresh_token_encrypted ≡ coalesce c.refresh_token_encrypted a.refresh_token_encrypted)
      × (row.status ≡ AccountStatus.active)
unfolding upsert_social_account write_audit
reconnect_keeps_refresh id c s a found =
    let fits : is_account_of c a ≡ true = find_holds (is_account_of c) s.accounts a found in
    rw (found, upsert_social_account)
      (
        rw
            (find-update (is_account_of c) (is_account_of c) (replaced_account c) s.accounts
              (λ x e. refl))
            (rw found (rw fits refl)),
        refl,
        refl,
        refl,
        refl,
      )

none_after :
    {A : Type 0} (p q : A → Bool) (f : A → A) (xs : List A)
    → All (λ x. q (if p x then f x else x) ≡ false) xs
    → find q (update p f xs) ≡ none
unfolding find update
none_after p q f [] h = refl
none_after p q f (x ∷ xs) h = ground (arith, h.0, none_after p q f xs h.1)

unchanged :
    {A : Type 0} (p : A → Bool) (f : A → A) (xs : List A)
    → All (λ x. p x ≡ false) xs
    → (update p f xs ≡ xs) × (find p xs ≡ none)
unfolding find update
unchanged p f [] h = (refl, refl)
unchanged p f (x ∷ xs) h =
    let (same, none_found) = unchanged p f xs h.1 in
    (ground (arith, h.0, same), ground (arith, h.0, none_found))

accounts-disconnect :
    (user_id account_id : String) (s : OauthDb)
    → (disconnect_social_account user_id account_id s).1.accounts
      ≡ update (can_disconnect user_id account_id) revoked_account s.accounts
unfolding disconnect_social_account write_audit
accounts-disconnect user_id account_id s = ground arith

-- Once its owner has disconnected an account, no credential of it is found for publishing, on any platform.
pub disconnect_hides :
    (user_id account_id : String) (platform : SocialPlatform) (s : OauthDb)
    → All (λ (a : AccountRow). a.id ≡ account_id → a.user_id ≡ user_id) s.accounts
    → find_active_social_account account_id platform
        (disconnect_social_account user_id account_id s).1
      ≡ none
unfolding find_active_social_account
disconnect_hides user_id account_id platform s owned =
    rw (accounts-disconnect user_id account_id s) (
      none_after (can_disconnect user_id account_id) _ revoked_account s.accounts
        (All-weaken _ _ s.accounts hidden owned))
  where
    hidden :
        (a : AccountRow)
        → (a.id ≡ account_id → a.user_id ≡ user_id)
        → ((if can_disconnect user_id account_id a then revoked_account a else a).id === account_id
            && (same_platform
                  (if can_disconnect user_id account_id a then revoked_account a else a).platform
                  platform
                && (is_active_account
                      (if can_disconnect user_id account_id a then revoked_account a else a).status
                    && is_some
                        (if can_disconnect user_id account_id a
                          then revoked_account a
                          else a).access_token_encrypted)))
          ≡ false
    hidden a own = elim (Bool-cases (can_disconnect user_id account_id a)) [
      | inl can ↦ rw can (ground arith)
      | inr cannot ↦ rw cannot (ground (arith, own, eq_iff a.id account_id, eq_refl user_id))
    ]

-- A user who does not own an account cannot disconnect it: the answer is no, and nothing is written.
pub disconnect_foreign :
    (user_id account_id : String) (s : OauthDb)
    → All (λ (a : AccountRow). a.id ≡ account_id → a.user_id ≢ user_id) s.accounts
    → disconnect_social_account user_id account_id s ≡ (false, s)
unfolding disconnect_social_account
disconnect_foreign user_id account_id s foreign =
    let (same, nothing) = unchanged (can_disconnect user_id account_id) revoked_account s.accounts (
      All-weaken _ _ s.accounts
        (λ a f. ground (arith, f, eq_iff a.id account_id, eq_iff a.user_id user_id)) foreign) in
    rw (nothing, disconnect_social_account) (rw same refl)
