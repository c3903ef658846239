-- ===== src/Adapters/X/Settled.antt =====
-- The reservations of backend/src/publishing/adapters/x.adapter.ts that are open after its operations.
use social_promotion_automat.Base.{
  ◌≤◌, length, subst, ℕ, String, Bool, true, false, Option, none, List, [], ◌∷◌, ◌≡◌, ◌≢◌, refl,
  sym, ◌⊎◌, inl, inr, update, All, All-weaken, truthy, truthy?, eq_refl, if◌then◌else◌,
}
use social_promotion_automat.Publishing.{Attempt, returned, threw, SocialPost}
use social_promotion_automat.Adapters.{Act, lift, ◌>>=◌, ◌>>◌, Json, Runtime}
use social_promotion_automat.Adapters.Laws.{returned_injective, Keeps}
use social_promotion_automat.Adapters.X.{
  XUsageOperation, XUsageOutcome, LedgerRow, XRequest, XState, XCredential, XProvider, database,
  reserve, is_open, settled_row, update_reservation, settle_reservation, estimate,
}
use social_promotion_automat.Adapters.X.Adapter.{
  send_request, settle_quietly, settle_failed, settle_answer, billed, external_reference, x_publish,
}
use social_promotion_automat.Adapters.X.Reading.{x_delete_post, x_get_post, x_get_analytics}
use social_promotion_automat.Adapters.X.Accounting.{Outcome, reserve-Outcome, send_request-Sends}
use social_promotion_automat.Adapters.X.Stages.{
  Stage, waiting, holding, answered, over, begun, advance, advanced, billed_advances,
}
use social_promotion_automat.Adapters.X.Charges.{single-Keeps, operations-Keeps}

abbrev pub IsSettled : LedgerRow → Type 0
IsSettled row = row.outcome ≢ XUsageOutcome.reserved

-- No reservation of the ledger is open.
abbrev pub AllSettled : XState → Type 0
AllSettled s = All IsSettled s.ledger

-- Settled, or an open reservation whose id meets `Q`.
abbrev pub Owed : (String → Type 0) → LedgerRow → Type 0
Owed Q row = IsSettled row ⊎ Q row.id

abbrev pub With : String → (String → Type 0) → String → Type 0
With id Q k = (k ≡ id) ⊎ Q k

open_own :
    (id : String) (row : LedgerRow)
    → row.outcome ≡ XUsageOutcome.reserved
    → row.id ≡ id
    → is_open id row ≡ true
unfolding is_open
open_own id row reserved same = rw (reserved, same) (eq_refl id)

row-Owed :
    (id : String) (outcome : XUsageOutcome) (reference : Option String) (now : ℕ)
    → outcome ≢ XUsageOutcome.reserved
    → (Q : String → Type 0) (row : LedgerRow) → Owed (With id Q) row
    → Owed Q (if is_open id row then settled_row outcome reference now row else row)
unfolding settled_row
row-Owed id outcome reference now final Q row = go (is_open id row) refl
  where
    go :
        (b : Bool)
        → is_open id row ≡ b
        → Owed (With id Q) row
        → Owed Q (if b then settled_row outcome reference now row else row)
    go true e h = inl final
    go false e (inl settled) = inl settled
    go false e (inr (inl same)) = inl (λ reserved. absurd (cc (e, open_own id row reserved same)))
    go false e (inr (inr q)) = inr q

update-Owed :
    (id : String) (outcome : XUsageOutcome) (reference : Option String) (now : ℕ)
    → outcome ≢ XUsageOutcome.reserved
    → (Q : String → Type 0) (rows : List LedgerRow) → All (Owed (With id Q)) rows
    → All (Owed Q) (update (is_open id) (settled_row outcome reference now) rows)
unfolding update
update-Owed id outcome reference now final Q [] h = tt
update-Owed id outcome reference now final Q (row ∷ rows) h = (
  row-Owed id outcome reference now final Q row h.0,
  update-Owed id outcome reference now final Q rows h.1,
)

-- What a stage of a request holds open.
abbrev pub Holds : Stage → String → Type 0
Holds (holding id url make) k = k ≡ id
Holds (answered id answer) k = k ≡ id
Holds _ k = ⊥

-- The database is configured and answers, and gives each new row an id.
pub record Answers (rt : Runtime) (provider : XProvider) : Type 0 where
  pub configured : truthy? (rt.env "DATABASE_URL") ≡ true
  pub answers : (s : XState) → provider.query_error s ≡ none
  pub named : (s : XState) → truthy (provider.new_id s) ≡ true

module _ (rt : Runtime) (provider : XProvider) (up : Answers rt provider) where
  database_up : (s : XState) → (database rt provider s).0 ≡ returned tt
  unfolding database
  database_up s = rw (up.configured, up.answers s) refl

  settle_quietly-Owed :
      (id : String) (outcome : XUsageOutcome) (reference : Option String)
      → outcome ≢ XUsageOutcome.reserved
      → (Q : String → Type 0) (s : XState) → All (Owed (With id Q)) s.ledger
      → All (Owed Q) (settle_quietly rt provider id outcome reference s).1.ledger
  unfolding settle_quietly settle_reservation database update_reservation ◌>>=◌
  settle_quietly-Owed id outcome reference final Q s h =
      go (database rt provider s).0 (database_up s)
    where
      go :
          (r : Attempt (Unit {0}))
          → r ≡ returned tt
          → All
              (Owed Q)
              (elim r as (λ x. Attempt (Unit {0}) × XState) [
                | returned u ↦ update_reservation rt provider id outcome reference s
                | threw e ↦ (threw e, s)
              ]).1.ledger
      go (returned u) e = update-Owed id outcome reference (provider.now s) final Q s.ledger h
      go (threw error) e = absurd (cc e)

  settle_answer-Owed :
      (id : String) (answer : Attempt Json) (Q : String → Type 0) (s : XState)
      → All (Owed (With id Q)) s.ledger
      → All (Owed Q) (settle_answer rt provider id answer s).1.ledger
  unfolding settle_answer settle_failed settle_quietly ◌>>=◌
  settle_answer-Owed id (threw e) Q s h =
      settle_quietly-Owed id XUsageOutcome.failed none (λ e. cc e) Q s h
  settle_answer-Owed id (returned body) Q s h = go (external_reference body)
    where
      go :
          (r : Attempt (Option String))
          → All
              (Owed Q)
              (elim r as (λ x. Act XState Json) [
                | threw error ↦ settle_failed rt provider id error
                | returned reference ↦
                    settle_quietly rt provider id XUsageOutcome.succeeded reference
                    >> lift (returned body)
              ]
                s).1.ledger
      go (threw e) = settle_quietly-Owed id XUsageOutcome.failed none (λ e. cc e) Q s h
      go (returned reference) =
          settle_quietly-Owed id XUsageOutcome.succeeded reference (λ e. cc e) Q s h

  -- A stage leaves no reservation open but those that it holds then, and those that others hold.
  pub advance-Owed :
      (a : Stage) (Q : String → Type 0) (s : XState)
      → All (Owed (λ k. Holds a k ⊎ Q k)) s.ledger
      → All
          (Owed (λ k. Holds (advance rt provider a s).0 k ⊎ Q k))
          (advance rt provider a s).1.ledger
  unfolding advance
  advance-Owed (waiting c operation url make) Q s h = started (estimate rt operation)
    where
      reserved_by :
          (quote : ℕ × String) (r : Attempt String × XState)
          → Outcome provider (c.social_account_id, operation, quote.0, quote.1) s r
          → All (Owed (λ k. Holds (begun url make r).0 k ⊎ Q k)) (begun url make r).1.ledger
      reserved_by quote (threw e, t) (inl (same, _)) = rw same h
      reserved_by quote (returned id, t) (inl (_, thrown)) = absurd thrown
      reserved_by quote (threw e, t) (inr (_, _, _, _, _, inl given)) = absurd (cc given)
      reserved_by quote (threw e, t) (inr (_, _, _, _, _, inr empty)) =
          absurd (cc (empty, up.named s))
      reserved_by quote (returned id, t) (inr (_, _, _, _, _, inr empty)) =
          absurd (cc (empty, up.named s))
      reserved_by quote (returned id, t) (inr (row, _, _, _, same, inl given)) = rw same (
        inr (inl (sym (returned_injective given))),
        All-weaken _ (Owed (λ k. (k ≡ id) ⊎ Q k)) s.ledger kept h,
      )
        where
          kept : (row : LedgerRow) → Owed (λ k. ⊥ ⊎ Q k) row → Owed (λ k. (k ≡ id) ⊎ Q k) row
          kept row (inl settled) = inl settled
          kept row (inr (inl none_held)) = absurd none_held
          kept row (inr (inr q)) = inr (inr q)

      started :
          (q : Attempt (ℕ × String))
          → let x = elim q as (λ x. Stage × XState) [
            | threw e ↦ (over (threw e), s)
            | returned quote ↦
                begun url make (reserve rt provider c.social_account_id operation quote.0 quote.1 s)
          ] in
            All (Owed (λ k. Holds x.0 k ⊎ Q k)) x.1.ledger
      started (threw e) = h
      started (returned quote) =
          reserved_by quote (reserve rt provider c.social_account_id operation quote.0 quote.1 s)
            (reserve-Outcome rt provider c.social_account_id operation quote.0 quote.1 s)
  advance-Owed (holding id url make) Q s h =
      sent (send_request rt provider url make s).1 (send_request-Sends rt provider url make s)
    where
      sent :
          (t : XState)
          → (t ≡ s) ⊎ ((q : XRequest) × (t ≡ record s { requests = q ∷ s.requests }))
          → All (Owed (With id Q)) t.ledger
      sent t (inl same) = rw same h
      sent t (inr (q, same)) = rw same h
  advance-Owed (answered id answer) Q s h =
      All-weaken (Owed Q) (Owed (λ k. ⊥ ⊎ Q k)) (settle_answer rt provider id answer s).1.ledger
        others (settle_answer-Owed id answer Q s h)
    where
      others : (row : LedgerRow) → Owed Q row → Owed (λ k. ⊥ ⊎ Q k) row
      others row (inl settled) = inl settled
      others row (inr q) = inr (inr q)
  advance-Owed (over body) Q s h = h

  pub Unheld-AllSettled : (s : XState) → All (Owed (λ k. ⊥ ⊎ ⊥)) s.ledger → AllSettled s
  Unheld-AllSettled s h = All-weaken (Owed (λ k. ⊥ ⊎ ⊥)) IsSettled s.ledger settled h
    where
      settled : (row : LedgerRow) → Owed (λ k. ⊥ ⊎ ⊥) row → IsSettled row
      settled row (inl x) = x
      settled row (inr (inl x)) = absurd x
      settled row (inr (inr x)) = absurd x

  billed-AllSettled :
      (credential : XCredential) (operation : XUsageOperation) (url : Attempt String)
      (make : String → XRequest) (s : XState)
      → AllSettled s
      → AllSettled (billed rt provider credential operation (send_request rt provider url make) s).1
  billed-AllSettled credential operation url make s h =
      let start = waiting credential operation url make in
      let one = advance rt provider start s in
      let two = advanced rt provider one in
      let unheld = All-weaken IsSettled (Owed (λ k. ⊥ ⊎ ⊥)) s.ledger (λ row x. inl x) h in
      let end =
        advance-Owed two.0 (λ k. ⊥) two.1
          (advance-Owed one.0 (λ k. ⊥) one.1 (advance-Owed start (λ k. ⊥) s unheld)) in
      Unheld-AllSettled
        (billed rt provider credential operation (send_request rt provider url make) s).1
        (subst (λ (x : Stage × XState). All (Owed (λ k. Holds x.0 k ⊎ ⊥)) x.1.ledger)
          (billed_advances rt provider credential operation url make s) end)

  -- Where the database answers and no reservation is open, none is open after a publication of a post with at most one
  -- medium, a deletion, a look at a post or one at its metrics, whatever it comes to.
  pub operations-AllSettled :
      (post : SocialPost) (remote_post_id account_id : String) (s : XState)
      → length post.media ≤ 1
      → AllSettled s
      → AllSettled (x_publish rt provider post s).1
        × AllSettled (x_delete_post rt provider remote_post_id account_id s).1
        × AllSettled (x_get_post rt provider remote_post_id account_id s).1
        × AllSettled (x_get_analytics rt provider remote_post_id account_id s).1
  operations-AllSettled post remote_post_id account_id s single h =
      let (publishes, deletes, gets, measures) =
        operations-Keeps rt provider Kept Kept-refl Kept-trans billed-Keeps post remote_post_id
          account_id s
          (single-Keeps rt provider Kept Kept-refl Kept-trans billed-Keeps post.social_account_id
            post.media single) in
      (publishes h, deletes h, gets h, measures h)
    where
      Kept : XState → XState → Type 0
      Kept s t = AllSettled s → AllSettled t

      Kept-refl : (s : XState) → Kept s s
      Kept-refl s h = h

      Kept-trans : (s t u : XState) → Kept s t → Kept t u → Kept s u
      Kept-trans s t u f g h = g (f h)

      billed-Keeps :
          (credential : XCredential) (operation : XUsageOperation) (url : Attempt String)
          (make : String → XRequest)
          → Keeps Kept Kept-refl Kept-trans
              (billed rt provider credential operation (send_request rt provider url make))
      billed-Keeps credential operation url make = record {
        along = billed-AllSettled credential operation url make;
      }
