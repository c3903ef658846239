-- ===== src/Adapters/X/Accounting/Billed.antt =====
-- A request of backend/src/publishing/adapters/x.adapter.ts that is billed, and its reservation.
use social_promotion_automat.Base.{
  ℕ, String, Bool, true, false, if◌then◌else◌, [], ◌∷◌, ◌≡◌, refl, sym, ap, ◌∙◌, subst, ◌⊎◌, inl,
  inr, arith,
}
use social_promotion_automat.Publishing.{Attempt, returned, threw}
use social_promotion_automat.Adapters.{Json, Runtime, lift, ◌>>=◌}
use social_promotion_automat.Adapters.X.{
  XUsageOperation, XRequest, XState, XCredential, XProvider, reserve, estimate,
}
use social_promotion_automat.Adapters.X.Adapter.{
  send_request, settle_answer, request_reserved, billed, billed_begun,
}
use social_promotion_automat.Adapters.X.Accounting.{
  Reservation, Capped, Accounted, Accounted-refl, Outcome, reservations, reservation_of,
  settle_answer-Same, reserve-Outcome, estimate-Capped, send_request-Sends,
}

module _ (rt : Runtime) (provider : XProvider) where
  -- A request under a reservation that was just made sends at most one request and adds nothing to the ledger.
  request_reserved-Accounted :
      (url : Attempt String) (make : String → XRequest) (id : String) (r : Reservation)
      (s t : XState)
      → Capped rt r
      → reservations t ≡ r ∷ reservations s
      → t.requests ≡ s.requests
      → Accounted rt s (request_reserved rt provider (send_request rt provider url make) id t).1
  unfolding request_reserved
  request_reserved-Accounted url make id r s t within grown sent =
      settled (send_request rt provider url make t).1 (send_request-Sends rt provider url make t)
    where
      settled :
          (u : XState)
          → (u ≡ t) ⊎ ((q : XRequest) × (u ≡ record t { requests = q ∷ t.requests }))
          → Accounted rt s
              (settle_answer rt provider id (send_request rt provider url make t).0 u).1
      settled u (inl same) =
          let (kept, quiet) =
            settle_answer-Same rt provider id (send_request rt provider url make t).0 u in
          record {
            added = r ∷ [];
            made = [];
            grown = kept ∙ ap reservations same ∙ grown;
            sent = quiet ∙ ap (λ (x : XState). x.requests) same ∙ sent;
            covered = omega arith;
            capped = (within, tt);
          }
      settled u (inr (q, same)) =
          let (kept, quiet) =
            settle_answer-Same rt provider id (send_request rt provider url make t).0 u in
          record {
            added = r ∷ [];
            made = q ∷ [];
            grown = kept ∙ ap reservations same ∙ grown;
            sent = quiet ∙ ap (λ (x : XState). x.requests) same ∙ ap (λ x. q ∷ x) sent;
            covered = omega arith;
            capped = (within, tt);
          }

  pub billed-Accounted :
      (credential : XCredential) (operation : XUsageOperation) (url : Attempt String)
      (make : String → XRequest) (s : XState)
      → Accounted rt s
          (billed rt provider credential operation (send_request rt provider url make) s).1
  unfolding billed ◌>>=◌
  billed-Accounted credential operation url make s = quoted (estimate rt operation) refl
    where
      reserved_by :
          (quote : ℕ × String)
          → Capped rt (credential.social_account_id, operation, quote.0, quote.1)
          → (r : Attempt String) (t : XState)
          → Outcome provider (credential.social_account_id, operation, quote.0, quote.1) s (r, t)
          → Accounted rt s
              (elim r as (λ x. Attempt Json × XState) [
                | returned id ↦
                    request_reserved rt provider (send_request rt provider url make) id t
                | threw e ↦ (threw e, t)
              ]).1
      reserved_by quote within (threw e) t (inl (same, _)) = rw same (Accounted-refl rt s)
      reserved_by quote within (threw e) t (inr (row, is_row, _, _, same, _)) = record {
        added = reservation_of row ∷ [];
        made = [];
        grown = ap reservations same;
        sent = ap (λ (x : XState). x.requests) same;
        covered = omega arith;
        capped = (subst (Capped rt) (sym is_row) within, tt);
      }
      reserved_by quote within (returned id) t (inl (_, thrown)) = absurd thrown
      reserved_by quote within (returned id) t (inr (row, is_row, _, _, same, _)) =
          request_reserved-Accounted url make id (reservation_of row) s t
            (subst (Capped rt) (sym is_row) within) (ap reservations same)
            (ap (λ (x : XState). x.requests) same)

      quoted :
          (q : Attempt (ℕ × String))
          → estimate rt operation ≡ q
          → Accounted rt s
              ((lift q >>= λ quote.
                  reserve rt provider credential.social_account_id operation quote.0 quote.1
                  >>= request_reserved rt provider (send_request rt provider url make))
                s).1
      quoted (threw e) h = Accounted-refl rt s
      quoted (returned quote) h =
          let r = reserve rt provider credential.social_account_id operation quote.0 quote.1 s in
          reserved_by quote
            (estimate-Capped rt provider operation credential.social_account_id quote h) r.0 r.1
            (reserve-Outcome rt provider credential.social_account_id operation quote.0 quote.1 s)

  begun-Accounted :
      (is_sent : Bool) (url : Attempt String) (make : String → XRequest) (r : Reservation)
      (s t : XState)
      → Capped rt r
      → reservations t ≡ r ∷ reservations s
      → t.requests ≡ s.requests
      → Accounted rt s (if is_sent then (send_request rt provider url make t).1 else t)
  begun-Accounted false url make r s t within grown sent = record {
    added = r ∷ [];
    made = [];
    grown = grown;
    sent = sent;
    covered = omega arith;
    capped = (within, tt);
  }
  begun-Accounted true url make r s t within grown sent =
      asked (send_request rt provider url make t).1 (send_request-Sends rt provider url make t)
    where
      asked :
          (u : XState)
          → (u ≡ t) ⊎ ((q : XRequest) × (u ≡ record t { requests = q ∷ t.requests }))
          → Accounted rt s u
      asked u (inl same) = record {
        added = r ∷ [];
        made = [];
        grown = ap reservations same ∙ grown;
        sent = ap (λ (x : XState). x.requests) same ∙ sent;
        covered = omega arith;
        capped = (within, tt);
      }
      asked u (inr (q, same)) = record {
        added = r ∷ [];
        made = q ∷ [];
        grown = ap reservations same ∙ grown;
        sent = ap (λ (x : XState). x.requests) same ∙ ap (λ x. q ∷ x) sent;
        covered = omega arith;
        capped = (within, tt);
      }

  -- A part of a request that is billed is accounted for as the whole is.
  pub billed_begun-Accounted :
      (is_sent : Bool) (credential : XCredential) (operation : XUsageOperation)
      (url : Attempt String) (make : String → XRequest) (s : XState)
      → Accounted rt s
          (billed_begun rt provider is_sent credential operation
            (send_request rt provider url make)
            s).1
  unfolding billed_begun ◌>>=◌
  billed_begun-Accounted is_sent credential operation url make s =
      quoted (estimate rt operation) refl
    where
      reserved_by :
          (quote : ℕ × String)
          → Capped rt (credential.social_account_id, operation, quote.0, quote.1)
          → (r : Attempt String) (t : XState)
          → Outcome provider (credential.social_account_id, operation, quote.0, quote.1) s (r, t)
          → Accounted rt s
              (elim r as (λ x. Attempt (Unit {0}) × XState) [
                | returned id ↦
                    (returned tt, if is_sent then (send_request rt provider url make t).1 else t)
                | threw e ↦ (threw e, t)
              ]).1
      reserved_by quote within (threw e) t (inl (same, _)) = rw same (Accounted-refl rt s)
      reserved_by quote within (threw e) t (inr (row, is_row, _, _, same, _)) = record {
        added = reservation_of row ∷ [];
        made = [];
        grown = ap reservations same;
        sent = ap (λ (x : XState). x.requests) same;
        covered = omega arith;
        capped = (subst (Capped rt) (sym is_row) within, tt);
      }
      reserved_by quote within (returned id) t (inl (_, thrown)) = absurd thrown
      reserved_by quote within (returned id) t (inr (row, is_row, _, _, same, _)) =
          begun-Accounted is_sent url make (reservation_of row) s t
            (subst (Capped rt) (sym is_row) within) (ap reservations same)
            (ap (λ (x : XState). x.requests) same)

      quoted :
          (q : Attempt (ℕ × String))
          → estimate rt operation ≡ q
          → Accounted rt s
              ((lift q >>= λ quote.
                  reserve rt provider credential.social_account_id operation quote.0 quote.1
                  >>= λ id s.
                      (returned tt, if is_sent then (send_request rt provider url make s).1 else s))
                s).1
      quoted (threw e) h = Accounted-refl rt s
      quoted (returned quote) h =
          let r = reserve rt provider credential.social_account_id operation quote.0 quote.1 s in
          reserved_by quote
            (estimate-Capped rt provider operation credential.social_account_id quote h) r.0 r.1
            (reserve-Outcome rt provider credential.social_account_id operation quote.0 quote.1 s)
