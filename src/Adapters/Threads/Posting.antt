-- ===== src/Adapters/Threads/Posting.antt =====
-- What a publication of backend/src/publishing/adapters/threads.adapter.ts that comes through has sent.
use social_promotion_automat.Base.{String, List, [], ◌∷◌, ◌≡◌}
use social_promotion_automat.Publishing.{Attempt, returned, SocialPost}
use social_promotion_automat.Adapters.{Json, Runtime}
use social_promotion_automat.Adapters.Threads.{
  ThreadsRequest, Sent, ThreadsProvider, threads_text, answered_id, container_parameters,
}

module _ (rt : Runtime) (provider : ThreadsProvider) where
  -- A request that comes through was sent once, with the parameters that were made for it.
  pub record Asked (parameters : Attempt (List (String × String))) (s t : Sent) (body : Json)
      : Type 0 where
    pub asked : ThreadsRequest
    pub sent : t ≡ asked ∷ s
    pub with_parameters : parameters ≡ returned asked.parameters
    pub answered : provider.request s asked ≡ returned body

  -- What a publication that came through has sent: a container with the text and the media of the post, and the publication
  -- of the container that the answer named, whose own answer names the post `remote_post_id`.
  pub record Published (post : SocialPost) (remote_post_id : String) (s t : Sent) : Type 0 where
    pub text : String
    pub body : Json
    pub container_id : String
    pub container : ThreadsRequest
    pub publication : ThreadsRequest
    pub is_text : threads_text post ≡ returned text
    pub sent : t ≡ publication ∷ container ∷ s
    pub is_container : container_parameters rt text post.media ≡ returned container.parameters
    pub answered : provider.request s container ≡ returned body
    pub named :
        answered_id "Threads did not return a content container ID." body ≡ returned container_id
    pub is_publication : publication.parameters ≡ ("creation_id", container_id) ∷ []
    pub confirmation : Json
    pub confirmed : provider.request (container ∷ s) publication ≡ returned confirmation
    pub is_result :
        answered_id "Threads did not return a published post ID." confirmation
        ≡ returned remote_post_id
