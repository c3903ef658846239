-- ===== src/Alerts.antt =====
-- backend/src/publishing/failure-alert.service.ts: the delivery of the alerts of failed jobs to a webhook. What a
-- webhook answers, and what `URL` reads of its address, are parameters.
pub mod Laws
use social_promotion_automat.Base.{
  ℕ, zero, suc, ◌+◌, min, max, String, Bool, true, false, not, ◌&&◌, ◌||◌, Option, none, some, List,
  [], ◌∷◌, map, ◌===◌, if◌then◌else◌, leb, ltb, ◌==◌, find, any, update, select, order_by, text_leb,
  truthy?, or_else,
}
use social_promotion_automat.Entity.{SocialPlatform}
use social_promotion_automat.Dispatch.{take}
use social_promotion_automat.Result.{Error, Result, ok, raised}

pub data AlertStatus : Type 0 where
  pending processing delivered failed : AlertStatus

-- A row of `social_publish_failure_alerts`, with the columns of `FailureAlert`.
pub record FailureAlert : Type 0 where
  pub id : String
  pub job_id : String
  pub post_id : String
  pub platform : SocialPlatform
  pub error_code : String
  pub retry_count : ℕ
  pub created_at : ℕ
  pub status : AlertStatus
  pub next_delivery_at : ℕ
  pub delivery_attempts : ℕ
  pub lease_expires_at : Option ℕ
  pub delivered_at : Option ℕ
  pub last_delivery_error : Option String

-- What `dispatchPending` reports.
pub record Report : Type 0 where
  pub delivered : ℕ
  pub failed : ℕ
  pub disabled : Bool

-- `lease_expires_at < now()`, which is not true of NULL
abbrev pub lease_is_over : Option ℕ → ℕ → Bool
lease_is_over none now = false
lease_is_over (some t) now = ltb t now

-- The condition of a candidate.
unfoldable pub is_deliverable : ℕ → FailureAlert → Bool
is_deliverable now a = elim a.status [
  | AlertStatus.pending ↦ leb a.next_delivery_at now
  | AlertStatus.failed ↦ leb a.next_delivery_at now
  | AlertStatus.processing ↦ lease_is_over a.lease_expires_at now
  | AlertStatus.delivered ↦ false
]

-- `ORDER BY next_delivery_at,created_at,id`
abbrev pub alert_before : FailureAlert → FailureAlert → Bool
alert_before a b =
    if a.next_delivery_at == b.next_delivery_at
    then (if a.created_at == b.created_at
        then text_leb a.id b.id
        else ltb a.created_at b.created_at)
    else ltb a.next_delivery_at b.next_delivery_at

abbrev pub alert_is : String → FailureAlert → Bool
alert_is k a = a.id === k

-- `Math.max(1,Math.min(100,Math.trunc(limit)))` of a whole number
abbrev pub bounded_limit : ℕ → ℕ
bounded_limit limit = max 1 (min 100 limit)

abbrev pub processing_row : ℕ → FailureAlert → FailureAlert
processing_row now a = record a {
  status = AlertStatus.processing;
  delivery_attempts = suc a.delivery_attempts;
  lease_expires_at = some (now + 30000);
  last_delivery_error = none;
}

unfoldable pub due_alerts : ℕ → ℕ → List FailureAlert → List FailureAlert
due_alerts limit now rows =
    take (bounded_limit limit) (order_by alert_before (select (is_deliverable now) rows))

-- The update of the candidates' rows, by their primary key.
unfoldable pub start_all : ℕ → List FailureAlert → List FailureAlert → List FailureAlert
start_all now alerts rows = update (λ a. any (alert_is a.id) alerts) (processing_row now) rows

-- `claim`
unfoldable pub claim_alerts : ℕ → ℕ → List FailureAlert → List FailureAlert × List FailureAlert
claim_alerts limit now rows =
    let alerts = due_alerts limit now rows in
    (map (processing_row now) alerts, start_all now alerts rows)

abbrev pub is_in_process : String → FailureAlert → Bool
is_in_process k a = alert_is k a && (elim a.status [ AlertStatus.processing ↦ true | _ ↦ false ])

-- `markDelivered`
unfoldable pub mark_delivered : String → ℕ → List FailureAlert → List FailureAlert
mark_delivered k now rows =
    update (is_in_process k)
      (λ a. record a {
        status = AlertStatus.delivered;
        delivered_at = some now;
        lease_expires_at = none;
      })
      rows

-- `markFailed`
unfoldable pub mark_failed : String → String → ℕ → List FailureAlert → List FailureAlert
mark_failed k error now rows =
    update (is_in_process k)
      (λ a. record a {
        status = AlertStatus.failed;
        next_delivery_at = now + 300000;
        lease_expires_at = none;
        last_delivery_error = some error;
      })
      rows

-- The protocol of an address that `URL` accepts, the answer of the webhook to the n-th request of the call, which is
-- the text of an error where it is refused or lost, the database's clock at the n-th request, and `safeError`.
module _ (protocol_of : String → Option String) (send : ℕ → FailureAlert → Option String)
    (clock : ℕ → ℕ) (safe_error : String → String) where
  -- The loop of `dispatchPending`, from the n-th request on, with the numbers that were delivered and failed.
  unfoldable pub deliver_all :
      ℕ → List FailureAlert → ℕ → ℕ → List FailureAlert → Report × List FailureAlert
  deliver_all n [] sent lost rows =
      (record { delivered = sent; failed = lost; disabled = false }, rows)
  deliver_all n (a ∷ alerts) sent lost rows = elim (send n a) [
    | none ↦ deliver_all (suc n) alerts (suc sent) lost (mark_delivered a.id (clock n) rows)
    | some error ↦
        deliver_all (suc n) alerts sent (suc lost)
          (mark_failed a.id (safe_error error) (clock n) rows)
  ]

  -- `dispatchPending`; `endpoint` is `FAILURE_ALERT_WEBHOOK_URL`.
  unfoldable pub deliver_pending :
      Option String → ℕ → ℕ → List FailureAlert → Result Report × List FailureAlert
  deliver_pending endpoint limit now rows =
      if not (truthy? endpoint)
      then (ok (record { delivered = 0; failed = 0; disabled = true }), rows)
      else elim (protocol_of (or_else endpoint "")) [
        | none ↦ (raised (Error.failed "FAILURE_ALERT_WEBHOOK_URL must be a valid URL."), rows)
        | some protocol ↦
            if not (protocol === "https:")
            then (raised (Error.failed "FAILURE_ALERT_WEBHOOK_URL must use HTTPS."), rows)
            else (let (alerts, rows') = claim_alerts limit now rows in
                let (report, rows'') = deliver_all 0 alerts 0 0 rows' in (ok report, rows''))
      ]
