-- ===== src/Kakao/Laws.antt =====
-- What backend/src/kakao-channel/kakao-channel.service.ts lets in, counts and keeps.
use social_promotion_automat.Base.{
  ℕ, ◌≤◌, String, Bool, true, false, ◌&&◌, Option, none, some, List, [], ◌∷◌, ◌===◌, ◌≡◌, ◌≢◌, refl,
  sym, ap, ◌∙◌, arith, find, find-update, find_holds, update, select, length, truthy?, truthy, ◌⊎◌,
  subst, or_else, is_some, inl, inr, Option-cases, Bool-cases, eq_iff,
}
use social_promotion_automat.Result.{Error, ok, raised, some_inj}
use social_promotion_automat.Kakao.{
  EntryRow, ConsultationRow, ConsultationStatus, KakaoDb, Funnel, KakaoChannel, code_is, opened_row,
  channel_of, mark_opened, is_over, find_owned_channel, get_funnel,
}
use social_promotion_automat.Kakao.Service.{
  KakaoEnv, funnel, assert_integration_key, checked_consultation, record_consultation,
}

select_fewer :
    {A : Type 0} (p q : A → Bool) (xs : List A)
    → length (select (λ x. p x && q x) xs) ≤ length (select p xs)
unfolding select
select_fewer p q [] = omega arith
select_fewer p q (x ∷ xs) = ground (arith, select_fewer p q xs)

get_funnel_counts :
    (owner_id channel_id : String) (s : KakaoDb) (g : Funnel)
    → get_funnel owner_id channel_id s ≡ some g
    → (g.opened_entries ≤ g.issued_entries) × (g.consultations_resolved ≤ g.consultations_started)
unfolding get_funnel
get_funnel_counts owner_id channel_id s g h =
    elim (Option-cases (find_owned_channel owner_id channel_id s)) [
      | inl lost ↦ absurd (ground arith)
      | inr (c, e) ↦
          let same = some_inj (rw (e, get_funnel) at h) in
          rw (← same) (
            select_fewer (λ (x : EntryRow). x.channel_id === c.id) (λ x. is_some x.opened_at)
                s.entries,
            select_fewer (λ (x : ConsultationRow). x.channel_id === c.id) (λ x. is_over x.status)
                s.consultations,
          )
    ]

-- A funnel never counts more opened entries than issued ones, nor more resolved consultations than started ones.
pub funnel_shrinks :
    (env : KakaoEnv) (owner_id channel_id : String) (s : KakaoDb) (f : Funnel)
    → funnel env owner_id channel_id s ≡ ok f
    → (f.opened_entries ≤ f.issued_entries) × (f.consultations_resolved ≤ f.consultations_started)
unfolding funnel
funnel_shrinks env owner_id channel_id s f h = elim (Bool-cases (truthy (env.trim owner_id))) [
  | inr blank ↦ absurd (ground arith)
  | inl given ↦ elim (Option-cases (get_funnel owner_id channel_id s)) [
    | inl lost ↦ absurd (ground arith)
    | inr (g, e) ↦ get_funnel_counts owner_id channel_id s f (ground arith)
  ]
]

update_twice :
    {A : Type 0} (p : A → Bool) (f g : A → A) (xs : List A)
    → ((x : A) → p (f x) ≡ p x)
    → ((x : A) → g (f x) ≡ f x)
    → update p g (update p f xs) ≡ update p f xs
unfolding update
update_twice p f g [] same stays = refl
update_twice p f g (x ∷ xs) same stays = elim (Bool-cases (p x)) [
  | inl hit ↦
      rw hit
        (rw (same x ∙ hit) (rw (stays x) (ap (λ ys. f x ∷ ys) (update_twice p f g xs same stays))))
  | inr miss ↦ rw miss (rw miss (ap (λ ys. x ∷ ys) (update_twice p f g xs same stays)))
]

opened_again :
    (code : String) (now now' : ℕ) (e : EntryRow) (c : KakaoChannel) (s : KakaoDb)
    → find (code_is code) s.entries ≡ some e
    → channel_of e s ≡ some c
    → let s' = record s { entries = update (code_is code) (opened_row now) s.entries } in
      mark_opened code now' s' ≡ (some c.consultation_url, s')
unfolding mark_opened channel_of
opened_again code now now' e c s found offered =
    let fits : code_is code e ≡ true = find_holds (code_is code) s.entries e found in
    let row : find (code_is code) (update (code_is code) (opened_row now) s.entries)
        ≡ some (opened_row now e) =
      rw (find-update (code_is code) (code_is code) (opened_row now) s.entries (λ x h. refl))
        (rw found (rw fits refl)) in
    rw (row, mark_opened)
      (rw offered (
        ap (λ es. (some c.consultation_url, record s { entries = es }))
          (update_twice (code_is code) (opened_row now) (opened_row now') s.entries (λ x. refl)
            (λ x. refl))))

opens :
    (code : String) (now : ℕ) (e : EntryRow) (c : KakaoChannel) (s : KakaoDb)
    → find (code_is code) s.entries ≡ some e
    → channel_of e s ≡ some c
    → mark_opened code now s ≡ (
      some c.consultation_url,
      record s { entries = update (code_is code) (opened_row now) s.entries },
    )
unfolding mark_opened
opens code now e c s found offered = rw (found, mark_opened) (rw (offered, mark_opened) refl)

fails_again :
    (code : String) (now now' : ℕ) (s : KakaoDb)
    → mark_opened code now s ≡ (none, s)
    → mark_opened code now' s ≡ (none, s)
    → let (url, s') = mark_opened code now s in mark_opened code now' s' ≡ (url, s')
fails_again code now now' s first second =
    subst (λ r. mark_opened code now' r.1 ≡ r) (sym first) second

-- Opening an entry again gives the same answer and keeps the time of the first opening: nothing changes.
pub mark_opened_idempotent :
    (code : String) (now now' : ℕ) (s : KakaoDb)
    → let (url, s') = mark_opened code now s in mark_opened code now' s' ≡ (url, s')
mark_opened_idempotent code now now' s = elim (Option-cases (find (code_is code) s.entries)) [
  | inl lost ↦ fails_again code now now' s (unknown now lost) (unknown now' lost)
  | inr (e, found) ↦ elim (Option-cases (channel_of e s)) [
    | inl closed ↦
        fails_again code now now' s (disabled now e found closed) (disabled now' e found closed)
    | inr (c, offered) ↦
        subst (λ r. mark_opened code now' r.1 ≡ r) (sym (opens code now e c s found offered))
          (opened_again code now now' e c s found offered)
  ]
]
  where
    unknown : (t : ℕ) → find (code_is code) s.entries ≡ none → mark_opened code t s ≡ (none, s)
    unknown t h = unfold mark_opened in rw (h, mark_opened) refl

    disabled :
        (t : ℕ) (e : EntryRow)
        → find (code_is code) s.entries ≡ some e
        → channel_of e s ≡ none
        → mark_opened code t s ≡ (none, s)
    disabled t e found h = unfold mark_opened in rw (found, mark_opened) (rw (h, mark_opened) refl)

-- A consultation is recorded only under the configured integration key: with any other key, or where none is
-- configured, the call is refused and nothing is written.
pub record_consultation_keyed :
    (env : KakaoEnv) (key : Option String) (channel_id ref : String) (code : Option String)
    (status : ConsultationStatus) (now : ℕ) (s : KakaoDb)
    → (truthy? env.integration_key ≡ false) ⊎ (or_else env.integration_key "" ≢ or_else key "")
    → (e : Error) × (record_consultation env key channel_id code ref status now s ≡ (raised e, s))
unfolding record_consultation checked_consultation assert_integration_key
record_consultation_keyed env key channel_id ref code status now s refused =
    elim (Bool-cases (truthy? env.integration_key)) [
      | inr missing ↦ (
        Error.unavailable "KAKAO_CHANNEL_INTEGRATION_KEY is not configured.",
        rw (missing, record_consultation, checked_consultation, assert_integration_key) refl,
      )
      | inl configured ↦ elim (Bool-cases (or_else env.integration_key "" === or_else key "")) [
        | inl same ↦
            absurd
              (ground (arith, refused, eq_iff (or_else env.integration_key "") (or_else key "")))
        | inr differ ↦ (
          Error.forbidden "Kakao Channel integration authentication failed.",
          rw (configured, record_consultation, checked_consultation, assert_integration_key)
              (rw (differ, record_consultation, checked_consultation, assert_integration_key) refl),
        )
      ]
    ]
