-- ===== src/Alerts/Laws.antt =====
-- What backend/src/publishing/failure-alert.service.ts reports of the alerts that it has claimed.
use social_promotion_automat.Base.{
  subst, length-map, ◌⊎◌, ℕ, suc, ◌+◌, ◌≤◌, String, true, Option, List, [], ◌∷◌, ◌≡◌, refl, arith,
  Option-cases, Bool-cases, inl, inr, truthy?, or_else, ◌===◌, length, select, order_by,
}
use social_promotion_automat.Dispatch.Laws.{length-take}
use social_promotion_automat.Result.{ok, ok-injective}
use social_promotion_automat.Alerts.{
  FailureAlert, Report, due_alerts, bounded_limit, alert_before, is_deliverable, claim_alerts,
  processing_row, mark_delivered, mark_failed, deliver_all, deliver_pending,
}

due_alerts_bounded :
    (limit now : ℕ) (rows : List FailureAlert) → length (due_alerts limit now rows) ≤ 100
unfolding due_alerts
due_alerts_bounded limit now rows = omega (
  arith,
  length-take (bounded_limit limit) (order_by alert_before (select (is_deliverable now) rows)),
)

module _ (protocol_of : String → Option String) (send : ℕ → FailureAlert → Option String)
    (clock : ℕ → ℕ) (safe_error : String → String) where
  deliver_all_total :
      (n : ℕ) (alerts : List FailureAlert) (sent lost : ℕ) (rows : List FailureAlert)
      → let report = (deliver_all protocol_of send clock safe_error n alerts sent lost rows).0 in
        report.delivered + report.failed ≡ sent + lost + length alerts
  unfolding deliver_all
  deliver_all_total n [] sent lost rows = omega arith
  deliver_all_total n (a ∷ alerts) sent lost rows = elim (Option-cases (send n a)) [
    | inl fine ↦
        rw (fine, deliver_all)
          (omega (
            arith,
            deliver_all_total (suc n) alerts (suc sent) lost (mark_delivered a.id (clock n) rows),
          ))
    | inr (error, bad) ↦
        rw (bad, deliver_all)
          (omega (
            arith,
            deliver_all_total (suc n) alerts sent (suc lost)
                (mark_failed a.id (safe_error error) (clock n) rows),
          ))
  ]

  -- A call that returns is either disabled, where it reports no alert and changes none, or reports each alert that
  -- was due within the limit exactly once, as delivered or failed, and these are at most 100.
  pub deliver_pending_counts :
      (endpoint : Option String) (limit now : ℕ) (rows : List FailureAlert) (report : Report)
      → (deliver_pending protocol_of send clock safe_error endpoint limit now rows).0 ≡ ok report
      → ((report.disabled ≡ true)
          × (report.delivered + report.failed ≡ 0)
          × ((deliver_pending protocol_of send clock safe_error endpoint limit now rows).1 ≡ rows))
        ⊎ ((report.delivered + report.failed ≡ length (due_alerts limit now rows))
            × (report.delivered + report.failed ≤ 100))
  unfolding deliver_pending claim_alerts
  deliver_pending_counts endpoint limit now rows report h = elim (Bool-cases (truthy? endpoint)) [
    | inr off ↦
        let same : record { delivered = 0; failed = 0; disabled = true } ≡ report =
          ok-injective (rw off at h) in
        inl (ground (arith, same), ground (arith, same), rw off refl)
    | inl on ↦ elim (Option-cases (protocol_of (or_else endpoint ""))) [
      | inl wrong ↦ absurd (ground arith)
      | inr (protocol, right) ↦ elim (Bool-cases (protocol === "https:")) [
        | inr plain ↦ absurd (ground arith)
        | inl secure ↦
            let (alerts, rows') = claim_alerts limit now rows in
            let same : (deliver_all protocol_of send clock safe_error 0 alerts 0 0 rows').0
                ≡ report =
              ok-injective (rw secure at (rw right at (rw on at h))) in
            let total : report.delivered + report.failed ≡ length (due_alerts limit now rows) =
              subst (λ r. r.delivered + r.failed ≡ length (due_alerts limit now rows)) same
                (omega (
                  arith,
                  deliver_all_total 0 alerts 0 0 rows',
                  length-map (processing_row now) (due_alerts limit now rows),
                )) in
            inr (total, omega (arith, total, due_alerts_bounded limit now rows))
      ]
    ]
  ]
