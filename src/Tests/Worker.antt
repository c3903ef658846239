-- ===== src/Tests/Worker.antt =====
-- Examples for backend/src/publishing/publish-worker.processor.ts.
use social_promotion_automat.Base.{
  any, update, ℕ, ◌+◌, ◌⊎◌, none, subst, ◌≤◌, String, false, ◌∙◌, sym, some, [], ◌∷◌, ◌≡◌, ◌≢◌,
  refl, arith, find, eq_iff,
}
use social_promotion_automat.Entity.{SocialPlatform, JobStatus, PublishJob}
use social_promotion_automat.Result.{some_inj}
use social_promotion_automat.Store.{find_job, find_post, update_job, updated_job}
use social_promotion_automat.Outbox.{
  audit_if_final, can_request, claim_publish_job, claimable, has_approved_post, insert_audit,
  insert_alert, insert_final_failure_audit, is_active, is_ready, mark_remote_requesting,
  queue_matches, record_ambiguous_remote_outcome,
}
use social_promotion_automat.Retry.{
  classify_publish_failure, classify_status, classify_without_status, is_network_code,
  retry_delay_for_failure,
}
use social_promotion_automat.Publishing.{
  call_publish, conclude, publish, publish_with, reconcile, reconcile_answer, reconcile_with, World,
  can_safely_repeat_remote_request, adapter_for,
}
use social_promotion_automat.Publishing.Worker.{
  process, ◌>>=◌, run_claimed, send, next_retry, settle, settle_ambiguous,
  defer_ambiguous_remote_outcome, LogContext, WorkError, stopped, deferred_message,
}
use social_promotion_automat.Publishing.Worker.Single.{process_isolated}
use social_promotion_automat.Publishing.Worker.Outcome.{Ended}
use social_promotion_automat.Publishing.Worker.Outcome.Process.{process_ends}
use social_promotion_automat.Publishing.Worker.Outcome.Retries.{
  IsWhole, redeliveries_end, first, again,
}
use social_promotion_automat.Publishing.Worker.Calls.{publish_count, Keyed}
use social_promotion_automat.Publishing.Worker.Calls.Bound.{
  process_writes_once, process_never_repeats, process_key,
}
use social_promotion_automat.Tests.Sample.{
  waiting_job, ambiguous_row, published_row, tables, sample_clock, sample_adapter, sample_format,
  whole, sample_world,
}

-- One delivery for the job `id`.
abbrev deliver : String → PublishJob → World
deliver id job =
    (process sample_clock (sample_adapter ∷ []) sample_format whole id 60000 1 (some "q1")
      (sample_world job)).1

found : (j : PublishJob) → j.id ≡ "j1" → find_job "j1" (tables j) ≡ some j
unfolding find_job find
found j e = rw e refl

waiting-confirmed : JobStatus.waiting ≡ JobStatus.remote_confirmed → ⊥
waiting-confirmed e = cc

fresh :
    (j : PublishJob) → find_job "j1" (tables waiting_job) ≡ some j → (j.retry_count ≡ 0) × IsWhole j
fresh j e =
    let same : waiting_job ≡ j = some_inj (sym (found waiting_job refl) ∙ e) in
    subst (λ (i : PublishJob). (i.retry_count ≡ 0) × IsWhole i) same
      (refl, λ h. absurd (waiting-confirmed h))

process_ends_example : Ended "j1" 0 (tables waiting_job) (
    process sample_clock
      (sample_adapter ∷ [])
      sample_format
      whole
      "j1"
      60000
      1
      (some "q1")
      (sample_world waiting_job))
process_ends_example =
    process_ends sample_clock (sample_adapter ∷ []) sample_format whole "j1" 60000 1 (some "q1")
      (sample_world waiting_job) 0 fresh

-- The first delivery of a job on a platform that answers nothing asks for another.
abbrev unknown_context : LogContext
unknown_context = record {
  campaign_id = "c1";
  post_id = "p1";
  publish_job_id = "j1";
  platform = SocialPlatform.x;
  social_account_id = "a1";
  remote_post_id = none;
  attempt = 1;
  error_code = some "AMBIGUOUS_REMOTE_OUTCOME";
}

unknown_outcome :
    (process sample_clock
      (sample_adapter ∷ [])
      sample_format
      whole
      "j1"
      60000
      1
      (some "q1")
      (sample_world waiting_job)).0
    ≡ stopped (WorkError.job_failed unknown_context deferred_message)
unfolding process find_job find adapter_for audit_if_final can_request claim_publish_job claimable
    has_approved_post insert_audit insert_alert insert_final_failure_audit is_active is_ready
    mark_remote_requesting queue_matches record_ambiguous_remote_outcome ◌>>=◌ run_claimed send
    next_retry settle settle_ambiguous defer_ambiguous_remote_outcome call_publish conclude publish
    publish_with reconcile reconcile_answer reconcile_with classify_publish_failure classify_status
    classify_without_status is_network_code retry_delay_for_failure find_post update_job updated_job
    any update
unknown_outcome = refl

redeliveries_end_example :
    let w =
      (process sample_clock
        (sample_adapter ∷ [])
        sample_format
        whole
        "j1"
        60000
        1
        (some "q1")
        (sample_world waiting_job)).1 in
    (row : PublishJob) × (find_job "j1" w.db ≡ some row)
    × (row.retry_count ≡ 1 + 0)
    × ((◌≡◌ {A = ℕ} 1 0) ⊎ (1 + 0 ≤ 3))
    × IsWhole row
redeliveries_end_example =
    redeliveries_end sample_clock (sample_adapter ∷ []) sample_format whole "j1" waiting_job
      (again 60000 1 (some "q1") unknown_context deferred_message first unknown_outcome)
      (found waiting_job refl) (λ h. absurd (waiting-confirmed h))

found_published : find_job "j2" (tables waiting_job) ≡ some published_row
unfolding find_job find
found_published = refl

other_job : ◌≢◌ {A = String} "j2" "j1"
other_job e = ground (arith, eq_iff "j2" "j1")

process_isolated_example :
    find_job "j2" (deliver "j1" waiting_job).db ≡ find_job "j2" (tables waiting_job)
process_isolated_example =
    process_isolated sample_clock (sample_adapter ∷ []) sample_format whole "j1" 60000 1 (some "q1")
      (sample_world waiting_job) "j2" other_job

process_writes_once_example : publish_count (deliver "j1" waiting_job).calls ≤ 1
process_writes_once_example =
    process_writes_once sample_clock (sample_adapter ∷ []) sample_format whole "j1" 60000 1
      (some "q1") (sample_world waiting_job)

not_safe :
    can_safely_repeat_remote_request sample_clock
      (sample_adapter ∷ [])
      sample_format
      whole
      SocialPlatform.x
    ≡ false
unfolding can_safely_repeat_remote_request adapter_for
not_safe = refl

process_never_repeats_example : publish_count (deliver "j1" ambiguous_row).calls ≤ 0
process_never_repeats_example =
    process_never_repeats sample_clock (sample_adapter ∷ []) sample_format whole "j1" 60000 1
      (some "q1") (sample_world ambiguous_row) ambiguous_row (found ambiguous_row refl) refl
      not_safe

process_key_example : Keyed (λ k. k ≡ "social-publish:j1") (deliver "j1" waiting_job).calls
process_key_example =
    process_key sample_clock (sample_adapter ∷ []) sample_format whole "j1" 60000 1 (some "q1")
      (sample_world waiting_job) waiting_job (found waiting_job refl) tt
