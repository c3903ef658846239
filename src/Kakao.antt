-- ===== src/Kakao.antt =====
-- backend/src/kakao-channel/pg-kakao-channel.repository.ts, with the types of kakao-channel.entity.ts: channels, the entries that lead to them, and the consultations that follow.
pub mod Laws
pub mod Service
use social_promotion_automat.Base.{
  ℕ, zero, suc, String, Bool, true, false, not, ◌&&◌, ◌||◌, Option, none, some, List, [], ◌∷◌, ◌++◌,
  ◌===◌, if◌then◌else◌, find, update, select, length, truthy, truthy?, or_else, is_none, is_some,
  ltb,
}
use social_promotion_automat.Result.{Error, Result, ok, raised, ◌>>=◌, ◌>>◌, raise_if}

-- `KakaoChannelInboundSource`
pub data InboundSource : Type 0 where
  linkedin facebook instagram threads x direct : InboundSource

-- `KakaoConsultationStatus`
pub data ConsultationStatus : Type 0 where
  started assigned resolved closed : ConsultationStatus

-- `KakaoChannel`
pub record KakaoChannel : Type 0 where
  pub id : String
  pub owner_id : String
  pub public_id : String
  pub name : String
  pub consultation_url : String
  pub is_active : Bool

-- `kakao_channel_inbound_events`
pub record EntryRow : Type 0 where
  pub channel_id : String
  pub campaign_id : Option String
  pub source : InboundSource
  pub tracking_code : String
  pub opened_at : Option ℕ

-- `kakao_channel_consultations`; `inbound` is the tracking code of the event that it refers to.
pub record ConsultationRow : Type 0 where
  pub channel_id : String
  pub inbound : Option String
  pub external_conversation_ref : String
  pub status : ConsultationStatus
  pub started_at : ℕ
  pub resolved_at : Option ℕ

pub record KakaoDb : Type 0 where
  pub channels : List KakaoChannel
  pub entries : List EntryRow
  pub consultations : List ConsultationRow

-- `KakaoChannelFunnel`
pub record Funnel : Type 0 where
  pub issued_entries : ℕ
  pub opened_entries : ℕ
  pub consultations_started : ℕ
  pub consultations_resolved : ℕ

-- `createChannel` of the repository
unfoldable pub insert_channel : KakaoChannel → KakaoDb → KakaoChannel × KakaoDb
insert_channel c s = (c, record s { channels = s.channels ++ c ∷ [] })

-- `findOwnedChannel`
unfoldable pub find_owned_channel : String → String → KakaoDb → Option KakaoChannel
find_owned_channel owner_id channel_id s =
    find (λ (c : KakaoChannel). (c.id === channel_id) && ((c.owner_id === owner_id) && c.is_active))
      s.channels

-- `createEntry` of the repository
unfoldable pub insert_entry : EntryRow → KakaoDb → KakaoDb
insert_entry e s = record s { entries = s.entries ++ e ∷ [] }

-- The active channel of an entry.
unfoldable pub channel_of : EntryRow → KakaoDb → Option KakaoChannel
channel_of e s = find (λ (c : KakaoChannel). (c.id === e.channel_id) && c.is_active) s.channels

abbrev pub code_is : String → EntryRow → Bool
code_is code e = e.tracking_code === code

-- `COALESCE(event.opened_at, now())`
abbrev pub opened_row : ℕ → EntryRow → EntryRow
opened_row now e = record e { opened_at = some (or_else e.opened_at now) }

-- `openEntry` of the repository; `tracking_code` is unique.
unfoldable pub mark_opened : String → ℕ → KakaoDb → Option String × KakaoDb
mark_opened code now s = elim (find (code_is code) s.entries) [
  | none ↦ (none, s)
  | some e ↦ elim (channel_of e s) [
    | none ↦ (none, s)
    | some c ↦ (
      some c.consultation_url,
      record s { entries = update (code_is code) (opened_row now) s.entries },
    )
  ]
]

-- `EXCLUDED.status IN ('resolved', 'closed')`
abbrev pub is_over : ConsultationStatus → Bool
is_over ConsultationStatus.resolved = true
is_over ConsultationStatus.closed = true
is_over _ = false

abbrev pub is_consultation : String → String → ConsultationRow → Bool
is_consultation channel_id ref r =
    (r.channel_id === channel_id) && (r.external_conversation_ref === ref)

abbrev pub moved_row : ConsultationStatus → ℕ → ConsultationRow → ConsultationRow
moved_row status now r = record r {
  status = status;
  resolved_at = if is_over status then some now else r.resolved_at;
}

-- `(SELECT id FROM kakao_channel_inbound_events WHERE tracking_code = $2 AND channel_id = $1)`
unfoldable pub inbound_of : String → Option String → KakaoDb → Option String
inbound_of channel_id none s = none
inbound_of channel_id (some code) s =
    elim (find (λ (e : EntryRow). code_is code e && (e.channel_id === channel_id)) s.entries) [
      | none ↦ none
      | some e ↦ some e.tracking_code
    ]

-- `recordConsultation` of the repository
unfoldable pub upsert_consultation :
    String → Option String → String → ConsultationStatus → ℕ → KakaoDb → KakaoDb
upsert_consultation channel_id code ref status now s =
    elim (find (is_consultation channel_id ref) s.consultations) [
      | some r ↦ record s {
        consultations =
            update (is_consultation channel_id ref) (moved_row status now) s.consultations;
      }
      | none ↦ record s {
        consultations =
            s.consultations
            ++ record {
              channel_id = channel_id;
              inbound = inbound_of channel_id code s;
              external_conversation_ref = ref;
              status = status;
              started_at = now;
              resolved_at = none;
            }
              ∷ [];
      }
    ]

-- `getFunnel`
unfoldable pub get_funnel : String → String → KakaoDb → Option Funnel
get_funnel owner_id channel_id s = elim (find_owned_channel owner_id channel_id s) [
  | none ↦ none
  | some c ↦ some (record {
    issued_entries = length (select (λ (e : EntryRow). e.channel_id === c.id) s.entries);
    opened_entries =
        length
          (select (λ (e : EntryRow). (e.channel_id === c.id) && is_some e.opened_at) s.entries);
    consultations_started =
        length (select (λ (r : ConsultationRow). r.channel_id === c.id) s.consultations);
    consultations_resolved = length (
        select (λ (r : ConsultationRow). (r.channel_id === c.id) && is_over r.status)
          s.consultations);
  })
]
