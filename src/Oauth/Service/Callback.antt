-- ===== src/Oauth/Service/Callback.antt =====
-- What backend/src/auth/oauth.service.ts accepts of a callback: a state is good for one callback, whatever becomes
-- of it, and it carries the verifier from the beginning of the authorization to the exchange of the code.
use social_promotion_automat.Base.{
  ℕ, ◌+◌, ◌≤◌, ◌<◌, String, Bool, true, false, Option, none, some, List, [], ◌∷◌, ◌++◌, map, ◌===◌,
  ◌≡◌, refl, ◌∙◌, arith, truthy?, or_else, find, All, All-weaken, inl, inr, Bool-cases,
  Option-cases, eq_refl,
}
use social_promotion_automat.Result.{Result, ok, raised}
use social_promotion_automat.Oauth.{
  OauthPlatform, CallbackRoute, AuthorizationState, StateRow, SocialAccountCredential, OauthDb,
  create_state, is_consumable, consume_state, is_account_of, upsert_social_account, write_audit,
  create_facebook_page_selection,
}
use social_promotion_automat.Oauth.Once.{consume_state_once}
use social_promotion_automat.Oauth.Service.{
  Provider, TokenSet, Connection, CallbackQuery, same_route, state_ttl_ms, state_invalid,
  provider_for, begin_authorization, managed_pages, ManagedPage, Identity, choice, page_row,
  same_oauth_platform, offer_pages, connect_account, exchanged, finish_callback, continue_callback,
  complete_callback,
}

states-upsert :
    (id : String) (c : SocialAccountCredential) (s : OauthDb)
    → (upsert_social_account id c s).1.states ≡ s.states
unfolding upsert_social_account write_audit
states-upsert id c s = elim (Option-cases (find (is_account_of c) s.accounts)) [
  | inl fresh ↦ rw (fresh, upsert_social_account) refl
  | inr (a, e) ↦ rw (e, upsert_social_account) refl
]

find_append :
    {A : Type 0} (p : A → Bool) (xs : List A) (a : A)
    → All (λ x. p x ≡ false) xs
    → p a ≡ true
    → find p (xs ++ a ∷ []) ≡ some a
unfolding find
find_append p [] a h e = ground arith
find_append p (x ∷ xs) a h e = ground (arith, h.0, find_append p xs a h.1 e)

same_route_refl : (r : CallbackRoute) → same_route r r ≡ true
same_route_refl CallbackRoute.linkedin = refl
same_route_refl CallbackRoute.meta = refl
same_route_refl CallbackRoute.threads = refl
same_route_refl CallbackRoute.x = refl

module _ (providers : List Provider) (hash encrypt decrypt : String → String) (key_version : String)
    (is_blank : String → Bool) where
  states-offer :
      (provider : Provider) (tokens : TokenSet) (state : AuthorizationState) (selection_id : String)
      (now : ℕ) (s : OauthDb)
      → (offer_pages providers hash encrypt decrypt key_version is_blank provider tokens state
          selection_id now s).1.states
        ≡ s.states
  unfolding offer_pages create_facebook_page_selection
  states-offer provider tokens state selection_id now s =
      go (managed_pages providers hash encrypt decrypt key_version is_blank provider tokens)
    where
      go :
          (m : Result (List ManagedPage))
          → (elim m as (λ x. Result Connection × OauthDb) [
            | raised e ↦ (raised e, s)
            | ok pages ↦ (
              ok (choice selection_id (map (λ (p : ManagedPage). (p.page_id, p.page_name)) pages)),
              create_facebook_page_selection
                  (record {
                    selection_hash = hash selection_id;
                    user_id = state.user_id;
                    scope = tokens.scopes;
                    expires_at = now + state_ttl_ms;
                    consumed_at = none;
                  })
                  (map
                    (page_row providers hash encrypt decrypt key_version is_blank selection_id)
                    pages)
                  s,
            )
          ]).1.states
            ≡ s.states
      go (raised e) = refl
      go (ok pages) = refl

  states-connect :
      (provider : Provider) (tokens : TokenSet) (state : AuthorizationState) (new_id : String)
      (s : OauthDb)
      → (connect_account providers hash encrypt decrypt key_version is_blank provider tokens state
          new_id s).1.states
        ≡ s.states
  unfolding connect_account
  states-connect provider tokens state new_id s =
      go (provider.fetch_identity tokens.access_token) refl
    where
      go :
          (m : Result Identity)
          → provider.fetch_identity tokens.access_token ≡ m
          → (connect_account providers hash encrypt decrypt key_version is_blank provider tokens
              state new_id s).1.states
            ≡ s.states
      go (raised e) eq = rw (eq, connect_account) refl
      go (ok identity) eq = rw (eq, connect_account) (states-upsert new_id _ s)

  states-finish :
      (selection_id new_id : String) (now : ℕ) (query : CallbackQuery) (state : AuthorizationState)
      (s : OauthDb)
      → (finish_callback providers hash encrypt decrypt key_version is_blank selection_id new_id now
          query state s).1.states
        ≡ s.states
  unfolding finish_callback
  states-finish selection_id new_id now query state s =
      go (exchanged providers hash encrypt decrypt key_version is_blank query state) refl
    where
      go :
          (m : Result (Provider × TokenSet))
          → exchanged providers hash encrypt decrypt key_version is_blank query state ≡ m
          → (finish_callback providers hash encrypt decrypt key_version is_blank selection_id new_id
              now query state s).1.states
            ≡ s.states
      go (raised e) eq = rw (eq, finish_callback) refl
      go (ok (provider, tokens)) eq =
          elim (Bool-cases (same_oauth_platform state.platform OauthPlatform.facebook)) [
            | inl is_facebook ↦
                rw (eq, finish_callback)
                  (rw is_facebook (states-offer provider tokens state selection_id now s))
            | inr other ↦
                rw (eq, finish_callback) (rw other (states-connect provider tokens state new_id s))
          ]

  states-continue :
      (selection_id new_id : String) (now : ℕ) (route : CallbackRoute) (query : CallbackQuery)
      (o : Option AuthorizationState) (s : OauthDb)
      → (continue_callback providers hash encrypt decrypt key_version is_blank selection_id new_id
          now route query o s).1.states
        ≡ s.states
  unfolding continue_callback
  states-continue selection_id new_id now route query none s = refl
  states-continue selection_id new_id now route query (some state) s =
      elim (Bool-cases (same_route state.callback_route route)) [
        | inl right ↦ rw right (states-finish selection_id new_id now query state s)
        | inr wrong ↦ rw wrong refl
      ]

  -- A state is good for one callback: whatever the first callback with it came to, even an error of the provider
  -- or a wrong route, every later callback with it is refused and writes nothing.
  pub callback_once :
      (selection_id new_id selection_id' new_id' : String) (now now' : ℕ)
      (route route' : CallbackRoute) (query query' : CallbackQuery) (s s' : OauthDb)
      → truthy? query.state ≡ true
      → query'.state ≡ query.state
      → now ≤ now'
      → s'.states
        ≡ (complete_callback providers hash encrypt decrypt key_version is_blank selection_id new_id
            now route query s).1.states
      → complete_callback providers hash encrypt decrypt key_version is_blank selection_id' new_id'
          now' route' query' s'
        ≡ (raised state_invalid, s')
  unfolding complete_callback continue_callback
  callback_once selection_id new_id selection_id' new_id' now now' route route' query query' s s'
        given same later e =
      let k = hash (or_else query.state "") in
      let first : s'.states ≡ (consume_state k now s).1.states =
        (rw given at e)
        ∙ states-continue selection_id new_id now route query (consume_state k now s).0
            (consume_state k now s).1 in
      let nothing : consume_state k now' s' ≡ (none, s') =
        consume_state_once k now now' s s' later first in
      rw same (rw given (rw nothing refl))

  abbrev begun_state : String → OauthPlatform → Provider → String → String → ℕ → AuthorizationState
  begun_state user_id platform provider state verifier now = record {
    state_hash = hash state;
    user_id = user_id;
    platform = platform;
    callback_route = provider.callback_route;
    code_verifier_encrypted = encrypt verifier;
    expires_at = now + state_ttl_ms;
  }

  begun_states :
      (challenge : String → String) (user_id state verifier : String) (platform : OauthPlatform)
      (provider : Provider) (now : ℕ) (s : OauthDb)
      → is_blank user_id ≡ false
      → provider_for providers platform ≡ ok provider
      → (begin_authorization providers hash encrypt decrypt key_version is_blank challenge user_id
          platform state verifier now s).1.states
        ≡ s.states
          ++ record {
            state = begun_state user_id platform provider state verifier now;
            consumed_at = none;
          }
            ∷ []
  unfolding begin_authorization create_state
  begun_states challenge user_id state verifier platform provider now s known registered =
      rw (known, begin_authorization) (rw (registered, begin_authorization) refl)

  begun_found :
      (state : String) (now' : ℕ) (st : AuthorizationState) (s : OauthDb)
      → All (λ (r : StateRow). (r.state.state_hash === hash state) ≡ false) s.states
      → st.state_hash ≡ hash state
      → now' < st.expires_at
      → find
          (is_consumable (hash state) now')
          (s.states ++ record { state = st; consumed_at = none } ∷ [])
        ≡ some (record { state = st; consumed_at = none })
  begun_found state now' st s fresh own early =
      find_append (is_consumable (hash state) now') s.states _
        (All-weaken _ _ s.states (λ r e. ground arith) fresh)
        (rw own (ground (arith, eq_refl (hash state))))

  -- A callback within ten minutes of the beginning of an authorization, on the provider's own route and with the
  -- same state, goes on with that user and platform, and with the verifier that was made at the beginning.
  pub begin_then_callback :
      (challenge : String → String) (user_id state verifier selection_id new_id : String)
      (platform : OauthPlatform) (provider : Provider) (now now' : ℕ) (query : CallbackQuery)
      (s : OauthDb)
      → ((t : String) → decrypt (encrypt t) ≡ t)
      → is_blank user_id ≡ false
      → provider_for providers platform ≡ ok provider
      → All (λ (r : StateRow). (r.state.state_hash === hash state) ≡ false) s.states
      → query.state ≡ some state
      → truthy? (some state) ≡ true
      → now' < now + state_ttl_ms
      → let s1 =
          (begin_authorization providers hash encrypt decrypt key_version is_blank challenge user_id
            platform state verifier now s).1 in
        (st : AuthorizationState) × (st.user_id ≡ user_id)
        × (st.platform ≡ platform)
        × (decrypt st.code_verifier_encrypted ≡ verifier)
        × (complete_callback providers hash encrypt decrypt key_version is_blank selection_id new_id
              now' provider.callback_route query s1
            ≡ finish_callback providers hash encrypt decrypt key_version is_blank selection_id
                new_id now' query st
                (consume_state (hash state) now' s1).1)
  unfolding complete_callback continue_callback consume_state
  begin_then_callback challenge user_id state verifier selection_id new_id platform provider now
        now' query s cipher known registered fresh asked given early =
      let st = begun_state user_id platform provider state verifier now in
      let s1 =
        (begin_authorization providers hash encrypt decrypt key_version is_blank challenge user_id
          platform state verifier now s).1 in
      let found : find (is_consumable (hash state) now') s1.states
          ≡ some (record { state = st; consumed_at = none }) =
        rw (begun_states challenge user_id state verifier platform provider now s known registered)
          (begun_found state now' st s fresh refl early) in
      (
        st,
        refl,
        refl,
        cipher verifier,
        rw asked (
            rw given (
              rw (found, continue_callback)
                (rw (same_route_refl provider.callback_route, continue_callback) refl))),
      )
