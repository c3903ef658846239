-- ===== src/Adapters/X/Interleaving.antt =====
-- The requests of `Promise.all` in backend/src/publishing/adapters/x.adapter.ts, whose stages may come in any order.
use social_promotion_automat.Base.{
  ℕ, ◌+◌, ◌≤◌, String, List, [], ◌∷◌, ◌≡◌, refl, ap, ◌⊎◌, inl, inr, arith, length, All, All-weaken,
}
use social_promotion_automat.Publishing.{Attempt, returned, threw}
use social_promotion_automat.Adapters.{Runtime}
use social_promotion_automat.Adapters.X.{LedgerRow, XRequest, XState, XProvider, reserve, estimate}
use social_promotion_automat.Adapters.X.Adapter.{send_request}
use social_promotion_automat.Adapters.X.Accounting.{
  reservations, Outcome, reserve-Outcome, send_request-Sends, settle_answer-Same,
}
use social_promotion_automat.Adapters.X.Stages.{
  Stage, waiting, holding, answered, over, begun, advance,
}
use social_promotion_automat.Adapters.X.Settled.{
  IsSettled, AllSettled, Owed, Holds, Answers, advance-Owed,
}

-- A reservation that was made for a request that is yet to be sent.
abbrev pub pending : Stage → ℕ
pending (holding id url make) = 1
pending _ = 0

abbrev pub all_pending : List Stage → ℕ
all_pending [] = 0
all_pending (a ∷ stages) = pending a + all_pending stages

abbrev pub IsWaiting : Stage → Type 0
IsWaiting (waiting c operation url make) = Unit
IsWaiting _ = ⊥

module _ (rt : Runtime) (provider : XProvider) where
  -- One of the requests moves on by a stage.
  pub data XStep : List Stage → XState → List Stage → XState → Type 0 where
    here :
        {a : Stage} {stages : List Stage} {s : XState}
        → XStep (a ∷ stages) s ((advance rt provider a s).0 ∷ stages) (advance rt provider a s).1
    later :
        {a : Stage} {before after : List Stage} {s t : XState}
        → XStep before s after t
        → XStep (a ∷ before) s (a ∷ after) t

  pub data XRun : List Stage → XState → List Stage → XState → Type 0 where
    stop : {stages : List Stage} {s : XState} → XRun stages s stages s
    step :
        {before between after : List Stage} {s t u : XState}
        → XStep before s between t
        → XRun between t after u
        → XRun before s after u

  abbrev reserved_count : XState → ℕ
  reserved_count s = length (reservations s)

  advance_counts :
      (a : Stage) (s : XState)
      → let (b, t) = advance rt provider a s in
        length t.requests + pending b + reserved_count s
        ≤ reserved_count t + (length s.requests + pending a)
  unfolding advance
  advance_counts (waiting c operation url make) s = started (estimate rt operation)
    where
      counted :
          (r : Attempt String × XState) (quote : ℕ × String)
          → Outcome provider (c.social_account_id, operation, quote.0, quote.1) s r
          → let (b, t) = begun url make r in
            length t.requests + pending b + reserved_count s
            ≤ reserved_count t + (length s.requests + 0)
      counted (threw e, t) quote (inl (same, _)) = rw same (omega arith)
      counted (threw e, t) quote (inr (row, _, _, _, same, _)) = rw same (omega arith)
      counted (returned id, t) quote (inl (_, thrown)) = absurd thrown
      counted (returned id, t) quote (inr (row, _, _, _, same, _)) = rw same (omega arith)

      started :
          (q : Attempt (ℕ × String))
          → let (b, t) = elim q as (λ x. Stage × XState) [
            | threw e ↦ (over (threw e), s)
            | returned quote ↦
                begun url make (reserve rt provider c.social_account_id operation quote.0 quote.1 s)
          ] in
            length t.requests + pending b + reserved_count s
            ≤ reserved_count t + (length s.requests + 0)
      started (threw e) = omega arith
      started (returned quote) =
          counted (reserve rt provider c.social_account_id operation quote.0 quote.1 s) quote
            (reserve-Outcome rt provider c.social_account_id operation quote.0 quote.1 s)
  advance_counts (holding id url make) s =
      sent (send_request rt provider url make s).1 (send_request-Sends rt provider url make s)
    where
      sent :
          (t : XState)
          → (t ≡ s) ⊎ ((q : XRequest) × (t ≡ record s { requests = q ∷ s.requests }))
          → length t.requests + 0 + reserved_count s ≤ reserved_count t + (length s.requests + 1)
      sent t (inl same) = rw same (omega arith)
      sent t (inr (q, same)) = rw same (omega arith)
  advance_counts (answered id answer) s =
      let (kept, quiet) = settle_answer-Same rt provider id answer s in
      omega (arith, ap length kept, ap length quiet)
  advance_counts (over body) s = omega arith

  step_counts :
      {before after : List Stage} {s t : XState}
      → XStep before s after t
      → length t.requests + all_pending after + reserved_count s
        ≤ reserved_count t + (length s.requests + all_pending before)
  step_counts (here {a} {stages} {s}) = omega (arith, advance_counts a s)
  step_counts (later h) = omega (arith, step_counts h)

  run_counts :
      {before after : List Stage} {s t : XState}
      → XRun before s after t
      → length t.requests + all_pending after + reserved_count s
        ≤ reserved_count t + (length s.requests + all_pending before)
  run_counts stop = omega arith
  run_counts (step h rest) = omega (arith, step_counts h, run_counts rest)

-- What the stages hold open between them.
abbrev pub HeldBy : List Stage → String → Type 0
HeldBy [] k = ⊥
HeldBy (a ∷ stages) k = Holds a k ⊎ HeldBy stages k

Owed-weaken :
    (P Q : String → Type 0) (rows : List LedgerRow)
    → ((k : String) → P k → Q k)
    → All (Owed P) rows
    → All (Owed Q) rows
Owed-weaken P Q rows w h = All-weaken (Owed P) (Owed Q) rows go h
  where
    go : (row : LedgerRow) → Owed P row → Owed Q row
    go row (inl settled) = inl settled
    go row (inr p) = inr (w row.id p)

assoc : {A B C : Type 0} → (A ⊎ B) ⊎ C → A ⊎ (B ⊎ C)
assoc (inl (inl a)) = inl a
assoc (inl (inr b)) = inr (inl b)
assoc (inr c) = inr (inr c)

unassoc : {A B C : Type 0} → A ⊎ (B ⊎ C) → (A ⊎ B) ⊎ C
unassoc (inl a) = inl (inl a)
unassoc (inr (inl b)) = inl (inr b)
unassoc (inr (inr c)) = inr c

swap : {A B C : Type 0} → (A ⊎ B) ⊎ C → B ⊎ (A ⊎ C)
swap (inl (inl a)) = inr (inl a)
swap (inl (inr b)) = inl b
swap (inr c) = inr (inr c)

unswap : {A B C : Type 0} → B ⊎ (A ⊎ C) → (A ⊎ B) ⊎ C
unswap (inl b) = inl (inr b)
unswap (inr (inl a)) = inl (inl a)
unswap (inr (inr c)) = inr c

module _ (rt : Runtime) (provider : XProvider) (up : Answers rt provider) where
  step-Owed :
      {before after : List Stage} {s t : XState} (Q : String → Type 0)
      → XStep rt provider before s after t
      → All (Owed (λ k. HeldBy before k ⊎ Q k)) s.ledger
      → All (Owed (λ k. HeldBy after k ⊎ Q k)) t.ledger
  step-Owed Q (here {a} {stages} {s}) h =
      Owed-weaken _ _ _ (λ k. unassoc)
        (advance-Owed rt provider up a (λ k. HeldBy stages k ⊎ Q k) s
          (Owed-weaken _ _ _ (λ k. assoc) h))
  step-Owed Q (later {a} x) h =
      Owed-weaken _ _ _ (λ k. unswap)
        (step-Owed (λ k. Holds a k ⊎ Q k) x (Owed-weaken _ _ _ (λ k. swap) h))

  run-Owed :
      {before after : List Stage} {s t : XState}
      → XRun rt provider before s after t
      → All (Owed (λ k. HeldBy before k ⊎ ⊥)) s.ledger
      → All (Owed (λ k. HeldBy after k ⊎ ⊥)) t.ledger
  run-Owed stop h = h
  run-Owed (step x rest) h = run-Owed rest (step-Owed (λ k. ⊥) x h)

  -- However the stages of several requests that X bills come between one another, where the database answers and no
  -- reservation was open before: at every moment no more requests were sent than reservations were made, and a reservation
  -- that is open is held by a request under way, one that is reserved or answered and not yet over.
  pub requests_interleave :
      (before after : List Stage) (s t : XState)
      → All IsWaiting before
      → AllSettled s
      → XRun rt provider before s after t
      → (length t.requests + length (reservations s) ≤ length (reservations t) + length s.requests)
        × All (Owed (HeldBy after)) t.ledger
  requests_interleave before after s t fresh settled run = (
    omega (arith, run_counts rt provider run, none_pending before fresh),
    Owed-weaken (λ k. HeldBy after k ⊎ ⊥) (HeldBy after) t.ledger (λ k. held)
        (run-Owed run (
          All-weaken IsSettled (Owed (λ k. HeldBy before k ⊎ ⊥)) s.ledger (λ row x. inl x)
            settled)),
  )
    where
      none_pending : (stages : List Stage) → All IsWaiting stages → all_pending stages ≡ 0
      none_pending [] h = refl
      none_pending (waiting c operation url make ∷ stages) h =
          omega (arith, none_pending stages h.1)
      none_pending (holding id url make ∷ stages) h = absurd h.0
      none_pending (answered id answer ∷ stages) h = absurd h.0
      none_pending (over body ∷ stages) h = absurd h.0

      held : {A : Type 0} → A ⊎ ⊥ → A
      held (inl a) = a
      held (inr x) = absurd x
