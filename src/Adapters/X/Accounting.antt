-- ===== src/Adapters/X/Accounting.antt =====
-- What the requests of backend/src/publishing/adapters/x.adapter.ts leave in the ledger.
pub mod Billed
use mathlib.Core.List.{append_assoc}
use social_promotion_automat.Base.{
  ℕ, suc, ◌+◌, ◌≤◌, String, Bool, true, false, not, Option, none, some, List, [], ◌∷◌, ◌++◌, map,
  ◌≡◌, refl, sym, ap, ◌∙◌, subst, ◌⊎◌, inl, inr, arith, update, length, All, All-append, truthy,
  truthy?, or_else, ltb, Bool-cases, Option-cases, if◌then◌else◌,
}
use social_promotion_automat.Retry.{Thrown}
use social_promotion_automat.Publishing.{Attempt, returned, threw}
use social_promotion_automat.Adapters.{Act, Json, Runtime, lift, throw_if, unavailable, ◌>>=◌, ◌>>◌}
use social_promotion_automat.Adapters.Laws.{
  returned_injective, string_of-truthy, Attempt-cases, and_then-returned,
}
use social_promotion_automat.Adapters.X.{
  XUsageOperation, XUsageOutcome, LedgerRow, XRequest, XState, XCredential, XProvider, database,
  insert_reservation, reserve, is_open, settled_row, update_reservation, settle_reservation,
  optional_positive_integer, positive_integer, quote_of, estimate,
}
use social_promotion_automat.Adapters.X.Adapter.{
  send_request, settle_quietly, settle_failed, settle_answer, request_reserved, billed,
  external_reference,
}

-- What a row says of its request: the account, the operation, the estimated cost and the version of the prices.
abbrev pub Reservation : Type 0
Reservation = String × XUsageOperation × ℕ × String

abbrev pub reservation_of : LedgerRow → Reservation
reservation_of row =
    (row.social_account_id, row.operation, row.estimated_cost_microusd, row.pricing_version)

abbrev pub reservations : XState → List Reservation
reservations s = map reservation_of s.ledger

pub length-append : {A : Type 0} (xs ys : List A) → length (xs ++ ys) ≡ length xs + length ys
length-append [] ys = omega arith
length-append (x ∷ xs) ys = omega (arith, length-append xs ys)

-- The cost is within the cap, where one is set.
abbrev pub Capped : Runtime → Reservation → Type 0
Capped rt r =
    (m : ℕ)
    → optional_positive_integer rt "X_API_MAX_ESTIMATED_COST_MICRO_USD_PER_REQUEST"
      ≡ returned (some m)
    → r.2 ≤ m

module _ (rt : Runtime) where
  -- From `s` to `t` reservations within the cap were added, and no more requests were sent than those.
  pub record Accounted (s t : XState) : Type 0 where
    pub added : List Reservation
    pub made : List XRequest
    pub grown : reservations t ≡ added ++ reservations s
    pub sent : t.requests ≡ made ++ s.requests
    pub covered : length made ≤ length added
    pub capped : All (Capped rt) added

  pub Accounted-refl : (s : XState) → Accounted s s
  Accounted-refl s = record {
    added = [];
    made = [];
    grown = refl;
    sent = refl;
    covered = omega arith;
    capped = tt;
  }

  pub Accounted-trans : (s t u : XState) → Accounted s t → Accounted t u → Accounted s u
  Accounted-trans s t u h k = record {
    added = k.added ++ h.added;
    made = k.made ++ h.made;
    grown =
        k.grown
        ∙ ap (λ x. k.added ++ x) h.grown
        ∙ sym (append_assoc k.added h.added (reservations s));
    sent = k.sent ∙ ap (λ x. k.made ++ x) h.sent ∙ sym (append_assoc k.made h.made s.requests);
    covered =
        omega
          (arith, h.covered, k.covered, length-append k.added h.added, length-append k.made h.made);
    capped = All-append (Capped rt) k.added h.added k.capped h.capped;
  }

reservations-update :
    (id : String) (outcome : XUsageOutcome) (reference : Option String) (now : ℕ)
    (rows : List LedgerRow)
    → map reservation_of (update (is_open id) (settled_row outcome reference now) rows)
      ≡ map reservation_of rows
unfolding update settled_row
reservations-update id outcome reference now [] = refl
reservations-update id outcome reference now (row ∷ rows) =
    ground (arith, reservations-update id outcome reference now rows)

abbrev pub IsThrown : {A : Type 0} → Attempt A → Type 0
IsThrown (threw e) = Unit
IsThrown (returned a) = ⊥

-- What comes of a reservation: an exception without a row, or a new row whose id is given, where it is not empty.
abbrev pub Outcome : XProvider → Reservation → XState → Attempt String × XState → Type 0
Outcome provider reservation s r =
    ((r.1 ≡ s) × IsThrown r.0)
    ⊎ ((row : LedgerRow) × (reservation_of row ≡ reservation)
        × (row.id ≡ provider.new_id s)
        × (row.outcome ≡ XUsageOutcome.reserved)
        × (r.1 ≡ record s { ledger = row ∷ s.ledger })
        × ((r.0 ≡ returned row.id) ⊎ (truthy (provider.new_id s) ≡ false)))

module _ (rt : Runtime) (provider : XProvider) where
  -- No reservation was added and no request sent.
  abbrev pub Same : XState → XState → Type 0
  Same s t = (reservations t ≡ reservations s) × (t.requests ≡ s.requests)

  settle_quietly-Same :
      (id : String) (outcome : XUsageOutcome) (reference : Option String) (s : XState)
      → Same s (settle_quietly rt provider id outcome reference s).1
  unfolding settle_quietly settle_reservation update_reservation database ◌>>=◌
  settle_quietly-Same id outcome reference s = go (database rt provider s).0
    where
      go :
          (r : Attempt (Unit {0}))
          → Same s
              (elim r as (λ x. Attempt (Unit {0}) × XState) [
                | returned u ↦ update_reservation rt provider id outcome reference s
                | threw e ↦ (threw e, s)
              ]).1
      go (threw e) = (refl, refl)
      go (returned u) = (reservations-update id outcome reference (provider.now s) s.ledger, refl)

  pub settle_answer-Same :
      (id : String) (answer : Attempt Json) (s : XState)
      → Same s (settle_answer rt provider id answer s).1
  unfolding settle_answer settle_failed settle_quietly ◌>>=◌
  settle_answer-Same id (threw e) s = settle_quietly-Same id XUsageOutcome.failed none s
  settle_answer-Same id (returned body) s = go (external_reference body)
    where
      go :
          (r : Attempt (Option String))
          → Same s
              (elim r as (λ x. Act XState Json) [
                | threw error ↦ settle_failed rt provider id error
                | returned reference ↦
                    settle_quietly rt provider id XUsageOutcome.succeeded reference
                    >> lift (returned body)
              ]
                s).1
      go (threw e) = settle_quietly-Same id XUsageOutcome.failed none s
      go (returned reference) = settle_quietly-Same id XUsageOutcome.succeeded reference s

  pub reserve-Outcome :
      (account : String) (operation : XUsageOperation) (cost : ℕ) (version : String) (s : XState)
      → Outcome provider
          (account, operation, cost, version)
          s
          (reserve rt provider account operation cost version s)
  unfolding reserve database insert_reservation ◌>>=◌
  reserve-Outcome account operation cost version s = go (database rt provider s).0
    where
      named :
          (b : Bool)
          → truthy (provider.new_id s) ≡ b
          → Outcome provider
              (account, operation, cost, version)
              s
              ((throw_if (not b) (unavailable "X API usage reservation returned no ID.")
                  >> lift (returned (provider.new_id s)))
                (insert_reservation rt provider account operation cost version s).1)
      named true e = inr (_, refl, refl, refl, refl, inl refl)
      named false e = inr (_, refl, refl, refl, refl, inr e)

      go :
          (r : Attempt (Unit {0}))
          → Outcome provider
              (account, operation, cost, version)
              s
              (elim r as (λ x. Attempt String × XState) [
                | returned u ↦
                    (insert_reservation rt provider account operation cost version >>= λ id.
                    throw_if
                      (not (truthy id))
                      (unavailable "X API usage reservation returned no ID.")
                    >> lift (returned id))
                      s
                | threw e ↦ (threw e, s)
              ])
      go (threw e) = inl (refl, tt)
      go (returned u) = named (truthy (provider.new_id s)) refl

  quoted_within :
      (amount m : ℕ) (quote : ℕ × String)
      → quote_of rt amount (some m) ≡ returned quote
      → quote.0 ≤ m
  unfolding quote_of
  quoted_within amount m quote h = ground arith

  pub estimate-Capped :
      (operation : XUsageOperation) (account : String) (quote : ℕ × String)
      → estimate rt operation ≡ returned quote
      → Capped rt (account, operation, quote.0, quote.1)
  unfolding estimate
  estimate-Capped operation account quote h m e =
      let (amount, _, h1) = and_then-returned (positive_integer rt _) _ quote h in
      let (maximum, found, h2) = and_then-returned (optional_positive_integer rt _) _ quote h1 in
      quoted_within amount m quote
        (subst (λ x. quote_of rt amount x ≡ returned quote) (returned_injective (sym found ∙ e)) h2)

  pub send_request-Sends :
      (url : Attempt String) (make : String → XRequest) (s : XState)
      → let t = (send_request rt provider url make s).1 in
        (t ≡ s) ⊎ ((r : XRequest) × (t ≡ record s { requests = r ∷ s.requests }))
  unfolding send_request ◌>>=◌
  send_request-Sends (threw e) make s = inl refl
  send_request-Sends (returned url) make s = inr (make url, refl)
