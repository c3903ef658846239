-- ===== src/Adapters/X/Charges.antt =====
-- What the operations of backend/src/publishing/adapters/x.adapter.ts reserve for the requests that they send.
use social_promotion_automat.Base.{
  String, Bool, true, false, List, [], ◌∷◌, if◌then◌else◌, length, ◌==◌, ◌≤◌, arith,
}
use social_promotion_automat.Entity.{PostMedia}
use social_promotion_automat.Publishing.{Attempt, returned, threw, SocialPost}
use social_promotion_automat.Adapters.{Act, lift, ◌>>=◌, Runtime}
use social_promotion_automat.Adapters.Laws.{Keeps, Keeps-lift, Keeps-read, Keeps-bind}
use social_promotion_automat.Adapters.X.{
  Progress, not_begun, reserved_only, sent_only, finished, XUsageOperation, XState, XRequest,
  XCredential, XProvider,
}
use social_promotion_automat.Adapters.X.Adapter.{
  billed, send_request, resolve, write_credential, read_credential, create_post, upload_media,
  billed_begun, upload_begun, upload_part, upload_parts, joined, upload_all, publish_text,
  publish_media, x_publish,
}
use social_promotion_automat.Adapters.X.Accounting.{Accounted, Accounted-refl, Accounted-trans}
use social_promotion_automat.Adapters.X.Accounting.Billed.{billed-Accounted, billed_begun-Accounted}
use social_promotion_automat.Adapters.X.Reading.{x_delete_post, x_get_post, x_get_analytics}

-- What the operations keep, where a request that is billed keeps it.
module _ (rt : Runtime) (provider : XProvider) (R : XState → XState → Type 0)
    (same : (s : XState) → R s s) (trans : (s t u : XState) → R s t → R t u → R s u) where
  abbrev Pays : {A : Type 0} → Act XState A → Type 0
  Pays m = Keeps R same trans m

  pure : {A : Type 0} {a : Attempt A} → Pays (lift a)
  pure = Keeps-lift R same trans

  look : {A : Type 0} {f : XState → Attempt A} → Pays (λ s. (f s, s))
  look = Keeps-read R same trans

  then_ :
      {A B : Type 0} {m : Act XState A} {f : A → Act XState B}
      → Pays m
      → ((a : A) → Pays (f a))
      → Pays (m >>= f)
  then_ = Keeps-bind R same trans

  write_credential-Keeps : (id : String) → Pays (write_credential rt provider id)
  unfolding write_credential resolve
  write_credential-Keeps id = then_ look (λ c. pure)

  read_credential-Keeps : (id : String) → Pays (read_credential rt provider id)
  unfolding read_credential resolve
  read_credential-Keeps id = then_ look (λ c. pure)

  module _
      (billed-Keeps : (credential : XCredential) (operation : XUsageOperation)
          (url : Attempt String) (make : String → XRequest)
        → Pays (billed rt provider credential operation (send_request rt provider url make))) where
    create_post-Keeps :
        (id text : String) (media_ids : List String)
        → Pays (create_post rt provider id text media_ids)
    unfolding create_post
    create_post-Keeps id text media_ids =
        then_ (write_credential-Keeps id)
          (λ c. then_ (billed-Keeps c _ _ _) (λ body. then_ pure (λ id. look)))

    upload_media-Keeps : (id : String) (m : PostMedia) → Pays (upload_media rt provider id m)
    unfolding upload_media
    upload_media-Keeps id m =
        then_ (write_credential-Keeps id)
          (λ c. then_ look (λ base64. then_ (billed-Keeps c _ _ _) (λ body. pure)))

    -- The uploads, where the parts of a request that is billed keep it too.
    pub upload_part-Keeps :
        ((is_sent : Bool) (c : XCredential) (operation : XUsageOperation) (url : Attempt String)
            (make : String → XRequest)
          → Pays (billed_begun rt provider is_sent c operation (send_request rt provider url make)))
        → (id : String) (m : PostMedia) (p : Progress) (s : XState)
        → R s (upload_part rt provider p id m s)
    unfolding upload_part upload_begun
    upload_part-Keeps begun id m not_begun s = same s
    upload_part-Keeps begun id m reserved_only s =
        (then_ (write_credential-Keeps id) (λ c. then_ look (λ base64. begun false c _ _ _))).along
          s
    upload_part-Keeps begun id m sent_only s =
        (then_ (write_credential-Keeps id) (λ c. then_ look (λ base64. begun true c _ _ _))).along s
    upload_part-Keeps begun id m finished s = (upload_media-Keeps id m).along s

    pub upload_all-Keeps :
        (id : String)
        → ((m : PostMedia) (p : Progress) (s : XState) → R s (upload_part rt provider p id m s))
        → (media : List PostMedia) → Pays (upload_all rt provider id media)
    unfolding upload_all upload_parts
    upload_all-Keeps id part [] = record { along = λ s. same s }
    upload_all-Keeps id part (m ∷ media) = record {
      along = λ s. trans s _ _ ((upload_media-Keeps id m).along s) (
          either (upload_media rt provider id m s).0 (upload_media rt provider id m s).1
            (parts media) ((upload_all-Keeps id part media).along));
    }
      where
        parts : (media : List PostMedia) (s : XState) → R s (upload_parts rt provider id media s)
        parts [] s = same s
        parts (n ∷ ns) s =
            trans s _ _ (part n (provider.progress s n) s)
              (parts ns (upload_part rt provider (provider.progress s n) id n s))

        either :
            (one : Attempt String) (s : XState)
            → ((s : XState) → R s (upload_parts rt provider id media s))
            → ((s : XState) → R s (upload_all rt provider id media s).1)
            → R s
                (joined rt provider one
                  (upload_parts rt provider id media s)
                  (upload_all rt provider id media s)).1
        either (threw e) s left rest = left s
        either (returned x) s left rest = rest s

    pub single-Keeps :
        (id : String) (media : List PostMedia)
        → length media ≤ 1
        → Pays (upload_all rt provider id media)
    unfolding upload_all upload_parts
    single-Keeps id [] few = record { along = λ s. same s }
    single-Keeps id (m ∷ []) few = record {
      along = λ s.
          only (upload_media rt provider id m s).0 (upload_media rt provider id m s).1 s
            ((upload_media-Keeps id m).along s);
    }
      where
        only :
            (one : Attempt String) (t s : XState)
            → R s t
            → R s (joined rt provider one t (returned [], t)).1
        only (threw e) t s h = h
        only (returned x) t s h = h
    single-Keeps id (m ∷ n ∷ media) few = absurd (omega arith)

    publish-Keeps :
        (post : SocialPost)
        → Pays (upload_all rt provider post.social_account_id post.media)
        → Pays (x_publish rt provider post)
    unfolding x_publish publish_text publish_media
    publish-Keeps post uploads =
        then_ pure (λ _. then_ pure (λ text. branch text (length post.media == 0)))
      where
        branch :
            (text : String) (b : Bool)
            → Pays (
                if b
                then publish_text rt provider post.social_account_id text
                else publish_media rt provider post.social_account_id text post.media)
        branch text true = then_ pure (λ _. create_post-Keeps post.social_account_id text [])
        branch text false = then_ pure (λ _.
            then_ pure
              (λ _. then_ uploads (λ ids. create_post-Keeps post.social_account_id text ids)))

    -- Whatever becomes of a publication, of a deletion, of a look at a post and of a look at its metrics.
    pub operations-Keeps :
        (post : SocialPost) (remote_post_id account_id : String) (s : XState)
        → Pays (upload_all rt provider post.social_account_id post.media)
        → R s (x_publish rt provider post s).1
          × R s (x_delete_post rt provider remote_post_id account_id s).1
          × R s (x_get_post rt provider remote_post_id account_id s).1
          × R s (x_get_analytics rt provider remote_post_id account_id s).1
    unfolding x_delete_post x_get_post x_get_analytics
    operations-Keeps post remote_post_id account_id s uploads =
        ((publish-Keeps post uploads).along s, deletes.along s, gets.along s, measures.along s)
      where
        deletes : Pays (x_delete_post rt provider remote_post_id account_id)
        deletes =
            then_ (write_credential-Keeps account_id)
              (λ c. then_ (billed-Keeps c _ _ _) (λ body. then_ pure (λ fields. pure)))

        gets : Pays (x_get_post rt provider remote_post_id account_id)
        gets =
            then_ (read_credential-Keeps account_id)
              (λ c. then_ (billed-Keeps c _ _ _) (λ body. then_ pure (λ fields. pure)))

        measures : Pays (x_get_analytics rt provider remote_post_id account_id)
        measures = then_ (read_credential-Keeps account_id) (λ c. then_ pure (λ url.
            then_ (billed-Keeps c _ _ _)
              (λ body. then_ pure (λ payload. then_ pure (λ metrics. then_ look (λ at. pure))))))

module _ (rt : Runtime) (provider : XProvider) where
  -- Whatever a publication, a deletion, a look at a post or one at its metrics comes to, the requests that it sends to X
  -- are no more than the reservations that it adds to the ledger, whose costs are within the cap, where one is set; the
  -- reservations made before stay as they were, and no request is taken back.
  pub operations-Accounted :
      (post : SocialPost) (remote_post_id account_id : String) (s : XState)
      → Accounted rt s (x_publish rt provider post s).1
        × Accounted rt s (x_delete_post rt provider remote_post_id account_id s).1
        × Accounted rt s (x_get_post rt provider remote_post_id account_id s).1
        × Accounted rt s (x_get_analytics rt provider remote_post_id account_id s).1
  operations-Accounted post remote_post_id account_id s =
      operations-Keeps rt provider (Accounted rt) (Accounted-refl rt) (Accounted-trans rt)
        billed-Keeps post remote_post_id account_id s
        (upload_all-Keeps rt provider (Accounted rt) (Accounted-refl rt) (Accounted-trans rt)
          billed-Keeps post.social_account_id
          (upload_part-Keeps rt provider (Accounted rt) (Accounted-refl rt) (Accounted-trans rt)
            billed-Keeps
            (λ is_sent c operation url make. record {
              along = billed_begun-Accounted rt provider is_sent c operation url make;
            })
            post.social_account_id)
          post.media)
    where
      billed-Keeps :
          (credential : XCredential) (operation : XUsageOperation) (url : Attempt String)
          (make : String → XRequest)
          → Keeps
              (Accounted rt)
              (Accounted-refl rt)
              (Accounted-trans rt)
              (billed rt provider credential operation (send_request rt provider url make))
      billed-Keeps credential operation url make = record {
        along = billed-Accounted rt provider credential operation url make;
      }
