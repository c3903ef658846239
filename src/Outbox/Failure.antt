-- ===== src/Outbox/Failure.antt =====
-- How a failure is recorded in backend/src/publishing/pg-publish-outbox.repository.ts: retries, final failures and
-- their alerts.
use social_promotion_automat.Base.{
  ℕ, String, Bool, true, false, Option, none, some, List, [], ◌∷◌, ◌++◌, ◌≡◌, refl, inl, inr, arith,
  eq_refl, Option-cases, if◌then◌else◌, ◌∙◌, ◌===◌, find, ap, or_else,
}
use social_promotion_automat.Entity.{PublishJob}
use social_promotion_automat.Store.{Db, AlertRow, find_job, update_job}
use social_promotion_automat.Store.Laws.{find_job-update_job_hit, updated_job_hit}
use social_promotion_automat.Outbox.{
  record_ambiguous_remote_outcome, ambiguous_job, is_active, audit_if_final,
  insert_final_failure_audit, insert_alert, insert_audit,
}
use social_promotion_automat.Outbox.Save.{save_failure, failed_job}
use social_promotion_automat.Outbox.Transition.{find_job-audit_if_final}

alerts-insert_audit :
    (action job_id post_id : String) (db : Db)
    → (insert_audit action job_id post_id db).alerts ≡ db.alerts
unfolding insert_audit
alerts-insert_audit action job_id post_id db = ground arith

abbrev pub alert_is : String → AlertRow → Bool
alert_is k a = a.social_publish_job_id === k

unfoldable pub find_alert : String → Db → Option AlertRow
find_alert k db = find (alert_is k) db.alerts

find_append :
    (p : AlertRow → Bool) (xs : List AlertRow) (a : AlertRow)
    → find p xs ≡ none
    → find p (xs ++ a ∷ []) ≡ (if p a then some a else none)
unfolding find
find_append p [] a h = refl
find_append p (x ∷ xs) a h = ground (arith, find_append p xs a)

find-insert_alert :
    (row : AlertRow) (db : Db)
    → find_alert row.social_publish_job_id (insert_alert row db)
      ≡ some (or_else (find_alert row.social_publish_job_id db) row)
unfolding insert_alert find_alert
find-insert_alert row db =
    elim (Option-cases (find (alert_is row.social_publish_job_id) db.alerts)) [
      | inl fresh ↦ ground (
        arith,
        find_append (alert_is row.social_publish_job_id) db.alerts row fresh,
        eq_refl row.social_publish_job_id,
      )
      | inr (old, e) ↦ ground arith
    ]

abbrev pub alert_of : PublishJob → AlertRow
alert_of row = record {
  social_publish_job_id = row.id;
  post_id = row.post_id;
  platform = row.platform;
  error_code = row.error_code;
  error_message = row.error_message;
  retry_count = row.retry_count;
}

-- The rows that saving a final failure leaves of a claimed or requesting job.
pub save_failure-row :
    (from j : PublishJob) (next : Option ℕ) (db : Db)
    → find_job from.id db ≡ some j
    → is_active j ≡ true
    → (find_job from.id (save_failure from false next db) ≡ some (failed_job from false next j))
      × (find_alert j.id (save_failure from false next db)
          ≡ some (or_else (find_alert j.id db) (alert_of (failed_job from false next j))))
unfolding save_failure audit_if_final insert_final_failure_audit find_alert
save_failure-row from j next db found active =
    let db' = update_job from.id is_active (failed_job from false next) db in
    let hit = updated_job_hit from.id is_active (failed_job from false next) j db found active in
    (
      find_job-audit_if_final from.id false _ db'
          ∙ find_job-update_job_hit from.id is_active (failed_job from false next) (λ i. refl) j db
              found active,
      rw hit (
          ap (find (alert_is j.id)) (alerts-insert_audit _ _ _ _)
          ∙ (find-insert_alert (alert_of (failed_job from false next j)) db'
              ∙ (unfold update_job in refl))),
    )

-- Saving a failure that is tried again leaves a claimed or requesting job retrying, due at the time that is
-- given and with its request key cleared; no alert and no audit entry is written.
pub save_failure_retries :
    (from j : PublishJob) (next : Option ℕ) (db : Db)
    → find_job from.id db ≡ some j
    → is_active j ≡ true
    → let db' = save_failure from true next db in
      (find_job from.id db' ≡ some (failed_job from true next j))
      × (db'.alerts ≡ db.alerts)
      × (db'.audit ≡ db.audit)
unfolding save_failure audit_if_final update_job
save_failure_retries from j next db found active =
    let hit = updated_job_hit from.id is_active (failed_job from true next) j db found active in
    (
      find_job-audit_if_final from.id true _ _
          ∙ find_job-update_job_hit from.id is_active (failed_job from true next) (λ i. refl) j db
              found active,
      rw hit refl,
      rw hit refl,
    )

-- Recording an ambiguous outcome that is looked into again leaves a claimed or requesting job in
-- `remote_requesting`, with its request key and the time of the next look; no alert and no audit entry is written.
pub save_ambiguous_retries :
    (from j : PublishJob) (next : Option ℕ) (db : Db)
    → find_job from.id db ≡ some j
    → is_active j ≡ true
    → let db' = record_ambiguous_remote_outcome from true next db in
      (find_job from.id db' ≡ some (ambiguous_job from true next j))
      × (db'.alerts ≡ db.alerts)
      × (db'.audit ≡ db.audit)
unfolding record_ambiguous_remote_outcome audit_if_final update_job
save_ambiguous_retries from j next db found active =
    let hit = updated_job_hit from.id is_active (ambiguous_job from true next) j db found active in
    (
      find_job-audit_if_final from.id true _ _
          ∙ find_job-update_job_hit from.id is_active (ambiguous_job from true next) (λ i. refl) j
              db found active,
      rw hit refl,
      rw hit refl,
    )

-- Recording an ambiguous outcome for the last time leaves a claimed or requesting job failed, keeps its request
-- key, and leaves an alert for it: the one that stood there, or else one with the code of an ambiguous outcome.
pub save_ambiguous_alerts :
    (from j : PublishJob) (next : Option ℕ) (db : Db)
    → find_job from.id db ≡ some j
    → is_active j ≡ true
    → (find_job from.id (record_ambiguous_remote_outcome from false next db)
        ≡ some (ambiguous_job from false next j))
      × (find_alert j.id (record_ambiguous_remote_outcome from false next db)
          ≡ some (or_else (find_alert j.id db) (alert_of (ambiguous_job from false next j))))
unfolding record_ambiguous_remote_outcome audit_if_final insert_final_failure_audit find_alert
save_ambiguous_alerts from j next db found active =
    let db' = update_job from.id is_active (ambiguous_job from false next) db in
    let hit = updated_job_hit from.id is_active (ambiguous_job from false next) j db found active in
    (
      find_job-audit_if_final from.id false _ db'
          ∙ find_job-update_job_hit from.id is_active (ambiguous_job from false next) (λ i. refl) j
              db found active,
      rw hit (
          ap (find (alert_is j.id)) (alerts-insert_audit _ _ _ _)
          ∙ (find-insert_alert (alert_of (ambiguous_job from false next j)) db'
              ∙ (unfold update_job in refl))),
    )
