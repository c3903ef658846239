-- ===== src/Kakao/Service.antt =====
-- backend/src/kakao-channel/kakao-channel.service.ts
use social_promotion_automat.Base.{
  ℕ, String, Bool, true, not, ◌&&◌, ◌||◌, Option, none, some, ◌===◌, if◌then◌else◌, truthy, truthy?,
  or_else, ltb,
}
use social_promotion_automat.Result.{Error, Result, ok, raised, ◌>>=◌, ◌>>◌, raise_if}
use social_promotion_automat.Kakao.{
  InboundSource, InboundSource, ConsultationStatus, ConsultationStatus, KakaoChannel, KakaoChannel,
  EntryRow, EntryRow, KakaoDb, KakaoDb, Funnel, Funnel, insert_channel, find_owned_channel,
  insert_entry, mark_opened, upsert_consultation, get_funnel,
}

-- What `new URL(value)` reads of a text.
pub record ParsedUrl : Type 0 where
  pub protocol : String
  pub hostname : String
  pub is_chat : Bool
  pub text : String

-- The language and the environment: `trim`, the length of a text, `URL` (with whether its path ends in `/chat`), the
-- patterns of a public id and of a UUID, and `KAKAO_CHANNEL_INTEGRATION_KEY`.
pub record KakaoEnv : Type 0 where
  pub trim : String → String
  pub text_length : String → ℕ
  pub parse_url : String → Option ParsedUrl
  pub is_public_id : String → Bool
  pub is_uuid : String → Bool
  pub entry_url : String → Result String
  pub integration_key : Option String

module _ (env : KakaoEnv) where
  -- `consultationUrl`
  unfoldable pub check_consultation_url : String → Result String
  check_consultation_url value = elim (env.parse_url value) [
    | none ↦ raised (Error.type_error "Kakao consultation URL is invalid.")
    | some url ↦ do
      raise_if
          (not (url.protocol === "https:")
            || (not (url.hostname === "pf.kakao.com") || not url.is_chat))
          (Error.type_error
            "Kakao consultation URL must be an HTTPS pf.kakao.com channel chat URL.")
      ok url.text
  ]

  -- `assertIntegrationKey`: the comparison of the bytes is that of the texts.
  unfoldable pub assert_integration_key : Option String → Result (Unit {0})
  assert_integration_key actual = do
    raise_if (not (truthy? env.integration_key))
        (Error.unavailable "KAKAO_CHANNEL_INTEGRATION_KEY is not configured.")
    raise_if (not (or_else env.integration_key "" === or_else actual ""))
        (Error.forbidden "Kakao Channel integration authentication failed.")

  -- The row that `createChannel` inserts under the UUID `id`.
  unfoldable pub checked_channel : String → String → String → String → String → Result KakaoChannel
  checked_channel id owner_id public_id name url = do
    raise_if (not (truthy (env.trim owner_id)))
        (Error.forbidden "An authenticated owner context is required.")
    raise_if (not (env.is_public_id public_id))
        (Error.type_error "Kakao Channel public ID is invalid.")
    raise_if (not (truthy (env.trim name)) || ltb 100 (env.text_length (env.trim name)))
        (Error.type_error "Kakao Channel name must be 1-100 characters.")
    checked ← check_consultation_url url
    ok (record {
      id = id;
      owner_id = owner_id;
      public_id = public_id;
      name = env.trim name;
      consultation_url = checked;
      is_active = true;
    })

  -- `createChannel`
  unfoldable pub create_channel :
      String → String → String → String → String → KakaoDb → Result KakaoChannel × KakaoDb
  create_channel id owner_id public_id name url s =
      elim (checked_channel id owner_id public_id name url) [
        | raised e ↦ (raised e, s)
        | ok c ↦ let (row, s') = insert_channel c s in (ok row, s')
      ]

  abbrev pub campaign_of : Option String → Option String
  campaign_of none = none
  campaign_of (some c) = if truthy (env.trim c) then some (env.trim c) else none

  -- The channel that `createEntry` finds.
  unfoldable pub entry_channel : String → String → KakaoDb → Result KakaoChannel
  entry_channel owner_id channel_id s = do
    raise_if (not (truthy (env.trim owner_id)))
        (Error.forbidden "An authenticated owner context is required.")
    elim (find_owned_channel owner_id channel_id s) [
      | none ↦ raised (Error.not_found "Kakao Channel not found.")
      | some c ↦ ok c
    ]

  -- `createEntry`, with the UUID `code`; the row is inserted before the URL is made.
  unfoldable pub create_entry :
      String
      → String
      → String
      → Option String
      → InboundSource
      → KakaoDb
      → Result (EntryRow × String) × KakaoDb
  create_entry code owner_id channel_id campaign_id source s =
      elim (entry_channel owner_id channel_id s) [
        | raised e ↦ (raised e, s)
        | ok c ↦
            let row : EntryRow = record {
              channel_id = c.id;
              campaign_id = campaign_of campaign_id;
              source = source;
              tracking_code = code;
              opened_at = none;
            } in
            (env.entry_url code >>= λ url. ok (row, url), insert_entry row s)
      ]

  -- `openEntry`
  unfoldable pub open_entry : String → ℕ → KakaoDb → Result String × KakaoDb
  open_entry code now s =
      if not (env.is_uuid code)
      then (raised (Error.not_found "Kakao Channel entry was not found."), s)
      else (let (url, s') = mark_opened code now s in
          (
            (elim url [
              | none ↦ raised (Error.not_found "Kakao Channel entry was not found.")
              | some u ↦ check_consultation_url u
            ]),
            s',
          ))

  -- The checks of `recordConsultation`.
  unfoldable pub checked_consultation :
      Option String → String → Option String → String → Result (Unit {0})
  checked_consultation key channel_id code ref = do
    assert_integration_key key
    raise_if (not (env.is_uuid channel_id)) (Error.type_error "Kakao Channel ID is invalid.")
    raise_if (truthy? code && not (env.is_uuid (or_else code "")))
        (Error.type_error "Kakao inbound tracking code is invalid.")
    raise_if (not (truthy (env.trim ref)) || ltb 200 (env.text_length ref))
        (Error.type_error "External consultation reference must be 1-200 characters.")

  -- `recordConsultation`
  unfoldable pub record_consultation :
      Option String
      → String
      → Option String
      → String
      → ConsultationStatus
      → ℕ
      → KakaoDb
      → Result (Unit {0}) × KakaoDb
  record_consultation key channel_id code ref status now s =
      elim (checked_consultation key channel_id code ref) [
        | raised e ↦ (raised e, s)
        | ok u ↦ (ok u, upsert_consultation channel_id code (env.trim ref) status now s)
      ]

  -- `funnel`
  unfoldable pub funnel : String → String → KakaoDb → Result Funnel
  funnel owner_id channel_id s = do
    raise_if (not (truthy (env.trim owner_id)))
        (Error.forbidden "An authenticated owner context is required.")
    elim (get_funnel owner_id channel_id s) [
      | none ↦ raised (Error.not_found "Kakao Channel not found.")
      | some f ↦ ok f
    ]
