-- ===== src/Tests/Kakao.antt =====
-- Examples for backend/src/kakao-channel/kakao-channel.service.ts.
use social_promotion_automat.Base.{
  String, true, none, some, [], ◌∷◌, ◌≡◌, ◌≢◌, inr, refl, arith, find, select, eq_iff,
}
use social_promotion_automat.Result.{Error, ok, raised}
use social_promotion_automat.Kakao.{
  InboundSource, ConsultationStatus, KakaoChannel, EntryRow, KakaoDb, Funnel, find_owned_channel,
  get_funnel,
}
use social_promotion_automat.Kakao.Service.{KakaoEnv, record_consultation, funnel}
use social_promotion_automat.Kakao.Laws.{record_consultation_keyed}

abbrev sample_env : KakaoEnv
sample_env = record {
  trim = λ s. s;
  text_length = λ s. 5;
  parse_url = λ s. none;
  is_public_id = λ s. true;
  is_uuid = λ s. true;
  entry_url = λ s. ok s;
  integration_key = some "secret";
}

abbrev sample_channel : KakaoChannel
sample_channel = record {
  id = "ch";
  owner_id = "u1";
  public_id = "_shop";
  name = "Shop";
  consultation_url = "https://pf.kakao.com/_shop/chat";
  is_active = true;
}

abbrev sample_entry : EntryRow
sample_entry = record {
  channel_id = "ch";
  campaign_id = none;
  source = InboundSource.direct;
  tracking_code = "t1";
  opened_at = none;
}

abbrev sample_db : KakaoDb
sample_db = record {
  channels = sample_channel ∷ [];
  entries = sample_entry ∷ [];
  consultations =
      record {
        channel_id = "ch";
        inbound = none;
        external_conversation_ref = "c1";
        status = ConsultationStatus.closed;
        started_at = 1;
        resolved_at = some 2;
      }
      ∷ [];
}

abbrev sample_funnel : Funnel
sample_funnel = record {
  issued_entries = 1;
  opened_entries = 0;
  consultations_started = 1;
  consultations_resolved = 1;
}

counted : funnel sample_env "u1" "ch" sample_db ≡ ok sample_funnel
unfolding funnel get_funnel find_owned_channel find select
counted = refl

wrong_key : ◌≢◌ {A = String} "secret" "guess"
wrong_key e = ground (arith, eq_iff "secret" "guess")

record_consultation_keyed_example :
    (e : Error) × (record_consultation sample_env
        (some "guess")
        "ch"
        none
        "c2"
        ConsultationStatus.started
        30
        sample_db
      ≡ (raised e, sample_db))
record_consultation_keyed_example =
    record_consultation_keyed sample_env (some "guess") "ch" "c2" none ConsultationStatus.started 30
      sample_db (inr wrong_key)
