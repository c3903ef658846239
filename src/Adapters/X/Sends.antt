-- ===== src/Adapters/X/Sends.antt =====
-- What each call of backend/src/publishing/adapters/x.adapter.ts that comes through has sent.
use social_promotion_automat.Base.{
  ℕ, String, true, Option, none, some, List, [], ◌∷◌, ◌≡◌, refl, sym, ap, ◌∙◌, subst, inl, inr,
  arith, truthy,
}
use social_promotion_automat.Entity.{PostMedia, MediaType}
use social_promotion_automat.Publishing.{Attempt, returned, threw, PublishResult}
use social_promotion_automat.Adapters.{
  Act, lift, ◌>>=◌, ◌>>◌, Json, Runtime, Fields, unavailable, string_of, get,
}
use social_promotion_automat.Adapters.Laws.{
  returned_injective, string_of-truthy, bind_returned, and_then-returned,
}
use social_promotion_automat.Adapters.X.{
  XUsageOperation, XUsageOutcome, post_body, media_body, XRequest, XState, XCredential, XProvider,
  reserve, estimate,
}
use social_promotion_automat.Adapters.X.Adapter.{
  send_request, settle_quietly, settle_failed, settle_answer, request_reserved, billed,
  external_reference, resolve, write_credential, create_post, upload_media, joined, upload_all,
  data_of, required_id, create_request, upload_request,
}
use social_promotion_automat.Adapters.X.Accounting.{Outcome, reserve-Outcome, settle_answer-Same}

abbrev pub media_category : MediaType → String
media_category MediaType.image = "tweet_image"
media_category MediaType.video = "tweet_video"

abbrev pub requests_of : XState → List XRequest
requests_of s = s.requests

pub required_id-truthy :
    (message : String) (body : Json) (id : String)
    → required_id message body ≡ returned id
    → truthy id ≡ true
unfolding required_id
required_id-truthy message body id h =
    let (fields, _, h1) = and_then-returned (data_of body) _ id h in
    go fields (string_of (get "id" fields)) refl h1
  where
    go :
        (fields : Fields) (v : Option String)
        → string_of (get "id" fields) ≡ v
        → elim v as (λ x. Attempt String) [
          | none ↦ threw (unavailable message)
          | some id ↦ returned id
        ]
          ≡ returned id
        → truthy id ≡ true
    go o none e h = absurd (cc h)
    go o (some x) e h = string_of-truthy (get "id" o) id (e ∙ ap some (returned_injective h))

module _ (rt : Runtime) (provider : XProvider) where
  -- X's answer to a request, at a moment at which `earlier` had been sent.
  abbrev pub Answered : List XRequest → XRequest → Json → Type 0
  Answered earlier q body =
      (s : XState) × (s.requests ≡ earlier) × (provider.request s q ≡ returned body)

  -- The upload of a medium: its request carries the content that was read of the medium and the medium's category, and its
  -- answer the id `media_id`.
  pub record Upload (m : PostMedia) (media_id : String) (earlier : List XRequest) (q : XRequest)
      : Type 0 where
    pub read_at : XState
    pub base64 : String
    pub is_read : provider.read_media read_at m ≡ returned base64
    pub is_body : q.body ≡ media_body base64 (media_category m.media_type)
    pub body : Json
    pub is_answer : Answered earlier q body
    pub is_id : required_id "X Media Upload did not return a media ID." body ≡ returned media_id

  -- One upload for each medium, in their order, with the ids that the answers carry: from the requests `earlier` to `later`,
  -- newest first.
  abbrev pub Uploads : List PostMedia → List String → List XRequest → List XRequest → Type 0
  Uploads [] [] earlier later = later ≡ earlier
  Uploads (m ∷ media) (media_id ∷ ids) earlier later =
      (q : XRequest) × Upload m media_id earlier q × Uploads media ids (q ∷ earlier) later
  Uploads _ _ earlier later = ⊥

  settle_answer_returned :
      (id : String) (answer : Attempt Json) (s : XState) (body : Json)
      → (settle_answer rt provider id answer s).0 ≡ returned body
      → answer ≡ returned body
  unfolding settle_answer settle_failed settle_quietly ◌>>=◌
  settle_answer_returned id (threw e) s body h = absurd (cc h)
  settle_answer_returned id (returned a) s body h = go (external_reference a) h
    where
      go :
          (r : Attempt (Option String))
          → (elim r as (λ x. Act XState Json) [
            | threw error ↦ settle_failed rt provider id error
            | returned reference ↦
                settle_quietly rt provider id XUsageOutcome.succeeded reference >> lift (returned a)
          ]
              s).0
            ≡ returned body
          → returned a ≡ returned body
      go (threw e) h = absurd (cc h)
      go (returned reference) h = h

  send_returned :
      (url : Attempt String) (make : String → XRequest) (s : XState) (body : Json)
      → (send_request rt provider url make s).0 ≡ returned body
      → (u : String) × ((send_request rt provider url make s).1.requests ≡ make u ∷ s.requests)
        × (provider.request s (make u) ≡ returned body)
  unfolding send_request ◌>>=◌
  send_returned (threw e) make s body h = absurd (cc h)
  send_returned (returned u) make s body h = (u, refl, h)

  reserve_quiet :
      (account : String) (operation : XUsageOperation) (cost : ℕ) (version : String) (s : XState)
      → (reserve rt provider account operation cost version s).1.requests ≡ s.requests
  reserve_quiet account operation cost version s =
      go (reserve rt provider account operation cost version s)
        (reserve-Outcome rt provider account operation cost version s)
    where
      go :
          (r : Attempt String × XState)
          → Outcome provider (account, operation, cost, version) s r
          → r.1.requests ≡ s.requests
      go r (inl (same, _)) = ap (λ (x : XState). x.requests) same
      go r (inr (_, _, _, _, same, _)) = ap (λ (x : XState). x.requests) same

  -- A request that comes through was sent once, after the requests that had been sent, and has got the answer.
  billed_sends :
      (credential : XCredential) (operation : XUsageOperation) (url : Attempt String)
      (make : String → XRequest) (s : XState) (body : Json)
      → (billed rt provider credential operation (send_request rt provider url make) s).0
        ≡ returned body
      → (u : String) × ((billed rt provider credential operation
            (send_request rt provider url make)
            s).1.requests
          ≡ make u ∷ s.requests)
        × Answered s.requests (make u) body
  unfolding billed request_reserved
  billed_sends credential operation url make s body h =
      let (quote, _, h1, e1) = bind_returned (lift (estimate rt operation)) _ s body h in
      let (id, _, h2, e2) =
        bind_returned (reserve rt provider credential.social_account_id operation quote.0 quote.1) _
          s body h1 in
      let t = (reserve rt provider credential.social_account_id operation quote.0 quote.1 s).1 in
      let sent = send_request rt provider url make t in
      let quiet = reserve_quiet credential.social_account_id operation quote.0 quote.1 s in
      let (u, once, answered) =
        send_returned url make t body (settle_answer_returned id sent.0 sent.1 body h2) in
      (
        u,
        ap (λ (x : XState). x.requests) (e1 ∙ e2)
            ∙ (settle_answer-Same rt provider id sent.0 sent.1).1
            ∙ once
            ∙ ap (λ x. make u ∷ x) quiet,
        (t, quiet, answered),
      )

  write_credential_still : (id : String) (s : XState) → (write_credential rt provider id s).1 ≡ s
  unfolding write_credential resolve ◌>>=◌
  write_credential_still id s = ground arith

  joined_returned :
      (one : Attempt String) (left : XState) (rest : Attempt (List String) × XState)
      (ids : List String)
      → (joined rt provider one left rest).0 ≡ returned ids
      → (x : String) × (xs : List String) × (one ≡ returned x)
        × (rest.0 ≡ returned xs)
        × (ids ≡ x ∷ xs)
        × ((joined rt provider one left rest).1 ≡ rest.1)
  joined_returned (threw e) left rest ids h = absurd (cc h)
  joined_returned (returned x) left (threw e, t) ids h = absurd (cc h)
  joined_returned (returned x) left (returned xs, t) ids h =
      (x, xs, refl, refl, sym (returned_injective h), refl)

  upload_media_sends :
      (account : String) (m : PostMedia) (s : XState) (media_id : String)
      → (upload_media rt provider account m s).0 ≡ returned media_id
      → (q : XRequest) × Upload m media_id s.requests q
        × ((upload_media rt provider account m s).1.requests ≡ q ∷ s.requests)
  unfolding upload_media
  upload_media_sends account m s media_id h =
      let (c, _, h1, e1) = bind_returned (write_credential rt provider account) _ s media_id h in
      let t = (write_credential rt provider account s).1 in
      let still = ap requests_of (write_credential_still account s) in
      let (base64, is_read, h2, e2) =
        bind_returned (λ s. (provider.read_media s m, s)) _ t media_id h1 in
      let (body, h3, is_id, e3) =
        bind_returned (billed rt provider c _ (send_request rt provider _ _)) _ t media_id h2 in
      let (u, sent, (at, so_far, answered)) = billed_sends c _ _ _ t body h3 in
      (
        upload_request c m base64 u,
        record {
          read_at = t;
          base64 = base64;
          is_read = is_read;
          is_body = ap (media_body base64) (category m.media_type);
          body = body;
          is_answer = (at, so_far ∙ still, answered);
          is_id = is_id;
        },
        ap requests_of (e1 ∙ e2 ∙ e3) ∙ sent ∙ ap (λ x. upload_request c m base64 u ∷ x) still,
      )
    where
      category :
          (t : MediaType)
          → (elim t as (λ x. String) [
            | MediaType.image ↦ "tweet_image"
            | MediaType.video ↦ "tweet_video"
          ])
            ≡ media_category t
      category MediaType.image = refl
      category MediaType.video = refl

  pub upload_all_sends :
      (account : String) (media : List PostMedia) (s : XState) (ids : List String)
      → (upload_all rt provider account media s).0 ≡ returned ids
      → Uploads media ids s.requests (upload_all rt provider account media s).1.requests
  unfolding upload_all
  upload_all_sends account [] s ids h = rw⁻¹ (returned_injective h) refl
  upload_all_sends account (m ∷ media) s ids h =
      let t = (upload_media rt provider account m s).1 in
      let (media_id, rest, one, all, is_ids, left) =
        joined_returned (upload_media rt provider account m s).0 _
          (upload_all rt provider account media t) ids h in
      let (q, is_upload, sent) = upload_media_sends account m s media_id one in
      rw (is_ids, left)
        (
          q,
          is_upload,
          subst (λ x. Uploads media rest x (upload_all rt provider account media t).1.requests) sent
              (upload_all_sends account media t rest all),
        )

  -- A post that is created was sent once, and its id is the one that the answer carries.
  pub create_post_sends :
      (account text : String) (ids : List String) (s : XState) (r : PublishResult)
      → (create_post rt provider account text ids s).0 ≡ returned r
      → (q : XRequest) × (q.body ≡ post_body text ids)
        × ((create_post rt provider account text ids s).1.requests ≡ q ∷ s.requests)
        × ((body : Json) × Answered s.requests q body
            × (required_id "X API did not return a created post ID." body
                ≡ returned r.remote_post_id))
  unfolding create_post
  create_post_sends account text ids s r h =
      let (c, _, h1, e1) = bind_returned (write_credential rt provider account) _ s r h in
      let t = (write_credential rt provider account s).1 in
      let still = ap requests_of (write_credential_still account s) in
      let (body, h2, h3, e2) =
        bind_returned (billed rt provider c _ (send_request rt provider _ _)) _ t r h1 in
      let (id, h4, h5, e3) = bind_returned (lift _) _ _ r h3 in
      let (u, sent, (at, so_far, answered)) = billed_sends c _ _ _ t body h2 in
      (
        create_request c text ids u,
        refl,
        ap requests_of (e1 ∙ e2 ∙ e3) ∙ sent ∙ ap (λ x. create_request c text ids u ∷ x) still,
        (
          body,
          (at, so_far ∙ still, answered),
          h4 ∙ ap (λ (x : PublishResult). returned x.remote_post_id) (returned_injective h5),
        ),
      )
