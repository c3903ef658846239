-- ===== src/Tests/Dispatch.antt =====
-- Examples for backend/src/publishing/publishing.queue.ts.
use social_promotion_automat.Base.{
  true, false, none, some, ◌≡◌, refl, arith, find, any, select, order_by, insert_by, if◌then◌else◌,
}
use social_promotion_automat.Store.{OutboxRow, find_job, find_post}
use social_promotion_automat.Dispatch.{
  QueueRecord, Enqueue, refused, is_pending, leased_row, matches, claim_outbox, candidates, take,
  queue_records, queue_record, is_record_of, dispatch_one,
}
use social_promotion_automat.Dispatch.Laws.{
  find_outbox, Handed, dispatch_one-settles, claim_outbox-leased,
}
use social_promotion_automat.Tests.Sample.{waiting_job, tables, sample_outbox, sample_clock, whole}

abbrev no_queue : QueueRecord → Enqueue
no_queue r = refused (some "ECONNREFUSED")

abbrev sample_record : QueueRecord
sample_record = record {
  publish_job_id = "j1";
  queue_job_id = "q1";
  scheduled_at = 500;
  campaign_id = "c1";
  post_id = "p1";
  platform = waiting_job.platform;
  social_account_id = "a1";
  remote_post_id = none;
}

found : find_outbox "j1" (tables waiting_job) ≡ some sample_outbox
unfolding find_outbox find
found = refl

taken : any (is_record_of sample_outbox) (claim_outbox 10 60000 1000 (tables waiting_job)).0 ≡ true
unfolding claim_outbox candidates take queue_records queue_record is_pending find_job find_post find
    any select order_by insert_by
taken = refl

dispatch_one-settles_example :
    (o' : OutboxRow) × (find_outbox "j1"
        (dispatch_one sample_clock whole no_queue sample_record
          (record { enqueued = 0; failed = 0 }, tables waiting_job)).1
      ≡ some o')
    × (if matches sample_record sample_outbox
        then Handed whole (sample_clock 1) (no_queue sample_record) sample_outbox o'
        else o' ≡ sample_outbox)
dispatch_one-settles_example =
    dispatch_one-settles sample_clock whole no_queue sample_record
      (record { enqueued = 0; failed = 0 }) (tables waiting_job) "j1" sample_outbox found

claim_outbox-leased_example :
    (find_outbox "j1" (claim_outbox 10 60000 1000 (tables waiting_job)).1
      ≡ some (leased_row 1000 60000 sample_outbox))
    × (is_pending 60999 (leased_row 1000 60000 sample_outbox) ≡ false)
claim_outbox-leased_example =
    claim_outbox-leased 10 60000 1000 60999 (tables waiting_job) "j1" sample_outbox found taken
      (omega arith)
