-- ===== src/Tests/Retry.antt =====
-- Examples for backend/src/publishing/publish-failure.ts and publish-retry.ts.
use social_promotion_automat.Base.{false, ◌≡◌, ◌↔◌}
use social_promotion_automat.Retry.{classify_publish_failure}
use social_promotion_automat.Retry.Laws.{IsRejection, classify-unambiguous_iff}
use social_promotion_automat.Tests.Sample.{whole, dropped}

classify-unambiguous_iff_example :
    ((classify_publish_failure whole dropped).ambiguous ≡ false) ↔ IsRejection dropped
classify-unambiguous_iff_example = classify-unambiguous_iff whole dropped
