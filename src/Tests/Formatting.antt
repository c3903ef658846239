-- ===== src/Tests/Formatting.antt =====
-- Examples for backend/src/publishing/formatters and for `issues` of backend/src/posts/post.service.ts.
use social_promotion_automat.Base.{
  find, String, Bool, false, some, List, [], ◌≡◌, refl, All, any, select, order_by, insert_by,
}
use social_promotion_automat.Result.{ok}
use social_promotion_automat.Account.{is_usable, missing_publishing_scopes, required_scopes}
use social_promotion_automat.Posts.{
  PostRecord, read, jobs_of, check_account, check_accounts, is_waiting,
}
use social_promotion_automat.Posts.Change.{mutate, checked_change}
use social_promotion_automat.Posts.Service.{
  schedule, schedule_record, check_revision, not_reschedulable,
}
use social_promotion_automat.Formatting.{
  Original, format_post, format_all, format_for, formatter_of, trim_start, trim_end,
  title_and_message, compact, x_text, join, take_characters,
}
use social_promotion_automat.Formatting.Issues.{
  issues_of, unique, all_issues, job_issues, formatted_issues, body_length, link_length,
  weighted_length,
}
use social_promotion_automat.Formatting.Issues.Clear.{Fits, schedule-Fits}
use social_promotion_automat.Tests.Posts.{
  blank, https, names, queue_name, single, draft_job, scheduled_record,
}

abbrev pub no_hashtags : String → List String
no_hashtags s = []

abbrev pub same_text : String → String
same_text s = s

abbrev pub no_pngs : String → Bool
no_pngs s = false

schedules_formatted :
    (schedule blank https
      (issues_of no_hashtags same_text no_pngs)
      queue_name
      names
      1000
      "u1"
      "p1"
      (some 2000)
      1
      (single draft_job)).0
    ≡ ok scheduled_record
unfolding schedule mutate checked_change read jobs_of find select order_by insert_by schedule_record
    check_revision not_reschedulable any check_accounts check_account is_waiting is_usable
    missing_publishing_scopes required_scopes issues_of unique all_issues job_issues
    formatted_issues body_length link_length weighted_length format_post format_all format_for
    formatter_of trim_start trim_end title_and_message compact x_text join
schedules_formatted = refl

schedule-Fits_example :
    (c : PostRecord) × (read "p1" "u1" (single draft_job) ≡ ok c)
    × All (Fits no_hashtags same_text no_pngs c.post) c.jobs
schedule-Fits_example =
    schedule-Fits no_hashtags same_text no_pngs blank https queue_name names 1000 2000 1 "p1" "u1"
      (single draft_job) scheduled_record schedules_formatted

abbrev launch : Original
launch = record { title = " Launch "; message = "today"; url = some "https://e.co/1" }

launch_text : x_text launch ≡ "Launch\n\ntoday"
unfolding x_text compact title_and_message trim_start trim_end join select
launch_text = refl

cut : compact "  a long text " 5 ≡ "a lo…"
unfolding compact trim_start trim_end take_characters
cut = refl
