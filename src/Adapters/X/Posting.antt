-- ===== src/Adapters/X/Posting.antt =====
-- What a publication of backend/src/publishing/adapters/x.adapter.ts that comes through has sent.
use social_promotion_automat.Base.{◌≤◌, String, List, ◌∷◌, ◌≡◌, length}
use social_promotion_automat.Publishing.{returned, SocialPost}
use social_promotion_automat.Adapters.{Runtime, Json}
use social_promotion_automat.Adapters.X.{post_body, XRequest, XState, XProvider}
use social_promotion_automat.Adapters.X.Adapter.{post_text, required_id}
use social_promotion_automat.Adapters.X.Sends.{Answered, Uploads}

module _ (rt : Runtime) (provider : XProvider) where
  -- What a publication that came through has sent: one upload for each medium, and then the post, whose text is that of
  -- `postText`, which carries the ids that the uploads' answers gave and whose own answer carries `remote_post_id`.
  pub record Posted (post : SocialPost) (remote_post_id : String) (s t : XState) : Type 0 where
    pub text : String
    pub media_ids : List String
    pub uploaded : List XRequest
    pub creation : XRequest
    pub answer : Json
    pub is_text : post_text post ≡ returned text
    pub uploads : Uploads rt provider post.media media_ids s.requests uploaded
    pub is_creation : creation.body ≡ post_body text media_ids
    pub sent : t.requests ≡ creation ∷ uploaded
    pub is_answer : Answered rt provider uploaded creation answer
    pub is_result :
        required_id "X API did not return a created post ID." answer ≡ returned remote_post_id
    pub few : length post.media ≤ 4
