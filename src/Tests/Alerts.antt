-- ===== src/Tests/Alerts.antt =====
-- Examples for backend/src/publishing/failure-alert.service.ts.
use social_promotion_automat.Base.{
  ℕ, ◌+◌, String, Option, false, none, some, List, [], ◌∷◌, ◌≡◌, refl, select, order_by, insert_by,
  if◌then◌else◌, ◌===◌,
}
use social_promotion_automat.Entity.{SocialPlatform}
use social_promotion_automat.Result.{ok}
use social_promotion_automat.Dispatch.{take}
use social_promotion_automat.Alerts.{
  AlertStatus, FailureAlert, Report, due_alerts, is_deliverable, deliver_pending, deliver_all,
  claim_alerts,
}

abbrev first_alert : FailureAlert
first_alert = record {
  id = "f1";
  job_id = "j1";
  post_id = "p1";
  platform = SocialPlatform.x;
  error_code = "TOKEN_EXPIRED";
  retry_count = 1;
  created_at = 700;
  status = AlertStatus.pending;
  next_delivery_at = 700;
  delivery_attempts = 0;
  lease_expires_at = none;
  delivered_at = none;
  last_delivery_error = none;
}

abbrev second_alert : FailureAlert
second_alert = record first_alert { id = "f2"; created_at = 800 }

-- A webhook that refuses one of the alerts.
abbrev refusing : ℕ → FailureAlert → Option String
refusing n a = if a.id === "f2" then some "Webhook returned HTTP 500." else none

abbrev secure : String → Option String
secure text = some "https:"

abbrev same_text : String → String
same_text text = text

abbrev both : Report
both = record { delivered = 1; failed = 1; disabled = false }

abbrev rows : List FailureAlert
rows = first_alert ∷ second_alert ∷ []

reported :
    (deliver_pending secure refusing
      (λ n. 1000 + n)
      same_text
      (some "https://alerts.example")
      20
      1000
      rows).0
    ≡ ok both
unfolding deliver_pending deliver_all claim_alerts due_alerts is_deliverable take order_by insert_by
    select
reported = refl
