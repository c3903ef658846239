-- ===== src/Tests/Pages.antt =====
-- An example of pages of backend/src/analytics/analytics.service.ts.
use Prim.Native.String
use social_promotion_automat.Base.{
  ◌==◌, ℕ, String, true, Option, none, some, [], ◌∷◌, map, ◌===◌, ◌≡◌, ◌≢◌, refl, arith,
  if◌then◌else◌, any, eq_iff,
}
use social_promotion_automat.Entity.{SocialPlatform}
use social_promotion_automat.Result.{ok}
use social_promotion_automat.Analytics.{MetricRow, AnalyticsDb}
use social_promotion_automat.Analytics.Dashboard.{Cursor, owns_campaign, no_counts}
use social_promotion_automat.Analytics.Cursor.{
  Parsed, members, CursorRuntime, encode_cursor, decode_cursor, cursor_of_members, is_uuid,
  matches_all,
}
use social_promotion_automat.Analytics.Service.{RawInput, parsed_limit, shown}
use social_promotion_automat.Analytics.Pages.{ReadsBack, pages, pages_complete}
use social_promotion_automat.Analytics.Pages.Rows.{all_rows}
use social_promotion_automat.Tests.Sample.{waiting_job, tables}

abbrev first : String
first = "00000000-0000-4000-8000-000000000001"

abbrev second : String
second = "00000000-0000-4000-8000-000000000002"

abbrev third : String
third = "00000000-0000-4000-8000-00000000000a"

abbrev metric : String → ℕ → MetricRow
metric id at = record {
  id = id;
  job_id = "j2";
  analytics = record { counts = no_counts; raw_metrics = []; captured_at = at };
}

abbrev measured : AnalyticsDb
measured = record {
  db = record (tables waiting_job) {
    social_posts =
        record {
          social_publish_job_id = "j2";
          post_id = "p1";
          social_account_id = "a1";
          platform = SocialPlatform.x;
          remote_post_id = some "r1";
          remote_post_url = none;
          published_at = some 400;
        }
        ∷ [];
  };
  campaigns = record { id = "c1"; owner_id = "u1" } ∷ [];
  collections = [];
  metrics = metric first 500 ∷ metric second 700 ∷ metric third 700 ∷ [];
}

abbrev one_per_page : RawInput
one_per_page = record { platform = none; limit = some "1"; cursor = none }

abbrev number : String → Option ℕ
number text = if text === "1" then some 1 else none

abbrev parsed : String → Option Parsed
parsed String.[] = none
parsed (String.◌∷◌ c s) = some (members (some (String.◌∷◌ c String.[])) (some s))

-- An instant is a digit, and an object the instant with the id behind it.
abbrev runtime : CursorRuntime
runtime = record {
  to_iso = λ n. if n == 500 then "5" else "7";
  date = λ text. some (if text === "5" then 500 else 700);
  stringify = λ iso id. String.◌++◌ iso id;
  parse = parsed;
  to_base64url = λ text. text;
  from_base64url = λ text. text;
}

abbrev encode : Cursor → String
encode = encode_cursor runtime

abbrev decode : String → Option Cursor
decode = decode_cursor runtime

first_read : ReadsBack encode decode (metric first 500)
unfolding encode_cursor decode_cursor cursor_of_members is_uuid matches_all
first_read = (refl, refl)

second_read : ReadsBack encode decode (metric second 700)
unfolding encode_cursor decode_cursor cursor_of_members is_uuid matches_all
second_read = (refl, refl)

third_read : ReadsBack encode decode (metric third 700)
unfolding encode_cursor decode_cursor cursor_of_members is_uuid matches_all
third_read = (refl, refl)

first-second : ◌≢◌ {A = String} first second
first-second = ground (arith, eq_iff first second)

first-third : ◌≢◌ {A = String} first third
first-third = ground (arith, eq_iff first third)

second-third : ◌≢◌ {A = String} second third
second-third = ground (arith, eq_iff second third)

single : parsed_limit number (some "1") ≡ ok 1
unfolding parsed_limit
single = refl

owned : owns_campaign "u1" "c1" measured ≡ true
unfolding any
owned = refl

pages_complete_example :
    pages number encode decode "u1" "c1" measured 4 one_per_page
    ≡ map
        (shown measured.db.social_posts)
        (all_rows "c1" (record { platform = none; limit = 1; cursor = none }) measured)
pages_complete_example =
    pages_complete number encode decode "u1" "c1" measured 4 one_per_page none 1 refl single refl
      owned ((first-second, (first-third, tt)), ((second-third, tt), (tt, tt)))
      (first_read, (second_read, (third_read, tt))) (omega arith)
