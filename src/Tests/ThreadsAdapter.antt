-- ===== src/Tests/ThreadsAdapter.antt =====
-- Examples for backend/src/publishing/adapters/threads.adapter.ts.
use social_promotion_automat.Base.{none, [], ◌∷◌, ◌≡◌, refl}
use social_promotion_automat.Entity.{SocialPlatform}
use social_promotion_automat.Publishing.{returned, threw, SocialPost, PublishResult}
use social_promotion_automat.Adapters.{
  unavailable, Json, text, object, field, no_members, item, end_of_items, get, object_of, string_of,
}
use social_promotion_automat.Adapters.Threads.{ThreadsProvider}
use social_promotion_automat.Adapters.Threads.Reading.{replies_of, reply_of}
use social_promotion_automat.Tests.XAdapter.{launch_post}

abbrev named : Json
named = object (field "id" (text "c1") no_members)

abbrev threads : ThreadsProvider
threads = record {
  resolve = λ s id. returned (record {
    social_account_id = id;
    threads_user_id = "9";
    access_token = "token";
    scope = "threads_content_publish" ∷ [];
  });
  request = λ s r. returned named;
  now = λ s. 1000;
}

abbrev thread : SocialPost
thread = record launch_post { platform = SocialPlatform.threads }

abbrev published : PublishResult
published = record { remote_post_id = "c1"; remote_post_url = none; published_at = 1000 }

-- A reply without an id makes the whole list throw.
omitted :
    replies_of (item named (item (object no_members) end_of_items))
    ≡ threw (unavailable "Threads reply omitted an ID.")
unfolding replies_of reply_of object_of get string_of
omitted = refl
