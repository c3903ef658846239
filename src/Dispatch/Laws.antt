-- ===== src/Dispatch/Laws.antt =====
-- What the dispatch of backend/src/publishing/publishing.queue.ts hands over, and the rows that it leaves.
use social_promotion_automat.Base.{
  ℕ, zero, suc, ◌+◌, ◌≤◌, String, Bool, true, false, Option, none, some, List, [], ◌∷◌, ◌===◌, ◌≡◌,
  refl, if◌then◌else◌, arith, length, any, All, All-select, All-order_by, order_by, All-intro,
  Member, ◌<◌, find-update, select, find, or_else,
}
use social_promotion_automat.Store.{OutboxRow, Db}
use social_promotion_automat.Dispatch.{
  QueueRecord, is_pending, leased_row, take, queue_record, queue_records, matches, is_record_of,
  enqueued_row, mark_outbox_enqueued, released_row, release_outbox, Enqueue, accepted, refused,
  Dispatched, candidates, claim_outbox, dispatch_one, dispatch_all, dispatch_pending, before,
}

abbrev pub total : Dispatched → ℕ
total d = d.enqueued + d.failed

abbrev pub row_is : String → OutboxRow → Bool
row_is k o = o.publish_job_id === k

unfoldable pub find_outbox : String → Db → Option OutboxRow
find_outbox k db = find (row_is k) db.outbox

-- What the queue's answer makes of the row of a record: `o` before it and `o'` after it.
abbrev pub Handed : (String → String) → ℕ → Enqueue → OutboxRow → OutboxRow → Type 0
Handed slice now accepted o o' =
    (o'.enqueued_at ≡ some now)
    × (o'.dispatch_lease_expires_at ≡ none)
    × (o'.last_dispatch_error ≡ none)
    × (o'.publish_job_id ≡ o.publish_job_id)
    × (o'.queue_job_id ≡ o.queue_job_id)
    × (o'.scheduled_at ≡ o.scheduled_at)
    × (o'.dispatch_attempt_count ≡ o.dispatch_attempt_count)
Handed slice now (refused message) o o' =
    (o'.enqueued_at ≡ o.enqueued_at)
    × (o'.dispatch_lease_expires_at ≡ none)
    × (o'.last_dispatch_error ≡ some (slice (or_else message "Queue enqueue failed.")))
    × (o'.publish_job_id ≡ o.publish_job_id)
    × (o'.queue_job_id ≡ o.queue_job_id)
    × (o'.scheduled_at ≡ o.scheduled_at)
    × (o'.dispatch_attempt_count ≡ o.dispatch_attempt_count)

settled_row : (String → String) → ℕ → Enqueue → OutboxRow → OutboxRow
settled_row slice now accepted o = enqueued_row now o
settled_row slice now (refused m) o = released_row (slice (or_else m "Queue enqueue failed.")) o

settled_row-Handed :
    (slice : String → String) (now : ℕ) (e : Enqueue) (o : OutboxRow)
    → Handed slice now e o (settled_row slice now e o)
unfolding settled_row
settled_row-Handed slice now accepted o = (refl, refl, refl, refl, refl, refl, refl)
settled_row-Handed slice now (refused m) o = (refl, refl, refl, refl, refl, refl, refl)

module _ (clock : ℕ → ℕ) (slice : String → String) (enqueue : QueueRecord → Enqueue) where
  dispatch_one-count :
      (r : QueueRecord) (s : Dispatched × Db)
      → total (dispatch_one clock slice enqueue r s).0 ≡ suc (total s.0)
  unfolding dispatch_one
  dispatch_one-count r (n, db) = go (enqueue r) refl
    where
      go :
          (e : Enqueue)
          → enqueue r ≡ e
          → total (dispatch_one clock slice enqueue r (n, db)).0 ≡ suc (total n)
      go accepted e = rw (e, dispatch_one) (omega arith)
      go (refused m) e = rw (e, dispatch_one) (omega arith)

  dispatch_all-count :
      (rs : List QueueRecord) (s : Dispatched × Db)
      → total (dispatch_all clock slice enqueue rs s).0 ≡ length rs + total s.0
  unfolding dispatch_all
  dispatch_all-count [] s = omega arith
  dispatch_all-count (r ∷ rs) s =
      omega (
        arith,
        dispatch_all-count rs (dispatch_one clock slice enqueue r s),
        dispatch_one-count r s,
      )

  -- Every record that a dispatch claims is counted once, as enqueued or as failed.
  pub dispatch_pending-count :
      (limit lease_ms : ℕ) (db : Db)
      → let d = (dispatch_pending clock slice enqueue limit lease_ms db).0 in
        d.enqueued + d.failed ≡ length (claim_outbox limit lease_ms (clock 0) db).0
  unfolding dispatch_pending
  dispatch_pending-count limit lease_ms db = omega (arith, dispatch_all-count _ _)

  dispatch_one-row :
      (r : QueueRecord) (n : Dispatched) (db : Db) (k : String) (o : OutboxRow)
      → find_outbox k db ≡ some o
      → find_outbox k (dispatch_one clock slice enqueue r (n, db)).1
        ≡ some (
            if matches r o
            then settled_row slice (clock (suc (n.enqueued + n.failed))) (enqueue r) o
            else o)
  unfolding find_outbox dispatch_one mark_outbox_enqueued release_outbox settled_row
  dispatch_one-row r n db k o found = go (enqueue r) refl
    where
      go :
          (e : Enqueue)
          → enqueue r ≡ e
          → find_outbox k (dispatch_one clock slice enqueue r (n, db)).1
            ≡ some (
                if matches r o
                then settled_row slice (clock (suc (n.enqueued + n.failed))) e o
                else o)
      go accepted e =
          rw (e, dispatch_one)
            (rw (find-update (row_is k) (matches r) (enqueued_row _) db.outbox (λ x h. refl))
              (rw found refl))
      go (refused m) e =
          rw (e, dispatch_one)
            (rw (find-update (row_is k) (matches r) (released_row _) db.outbox (λ x h. refl))
              (rw found refl))

  -- A record that the queue accepts leaves its row enqueued at the clock's time, without a dispatch lease and without an
  -- error; one that it refuses leaves its row as far enqueued as it was, without a dispatch lease and with the message of the
  -- refusal. The rest of the row stays; the row of another job, and a row whose message was replaced since the claim, stay as
  -- they are.
  pub dispatch_one-settles :
      (r : QueueRecord) (n : Dispatched) (db : Db) (k : String) (o : OutboxRow)
      → find_outbox k db ≡ some o
      → (o' : OutboxRow) × (find_outbox k (dispatch_one clock slice enqueue r (n, db)).1 ≡ some o')
        × (if matches r o
            then Handed slice (clock (suc (n.enqueued + n.failed))) (enqueue r) o o'
            else o' ≡ o)
  dispatch_one-settles r n db k o found = go (matches r o) (dispatch_one-row r n db k o found)
    where
      now : ℕ
      now = clock (suc (n.enqueued + n.failed))

      go :
          (b : Bool)
          → find_outbox k (dispatch_one clock slice enqueue r (n, db)).1
            ≡ some (if b then settled_row slice now (enqueue r) o else o)
          → (o' : OutboxRow) × (find_outbox k (dispatch_one clock slice enqueue r (n, db)).1
              ≡ some o')
            × (if b then Handed slice now (enqueue r) o o' else o' ≡ o)
      go true row = (_, row, settled_row-Handed slice now (enqueue r) o)
      go false row = (o, row, refl)

-- A claimed record comes from a pending row.
abbrev pub FromPending : ℕ → Db → QueueRecord → Type 0
FromPending now db r =
    (o : OutboxRow) × (Member o db.outbox)
    × (is_pending now o ≡ true)
    × (queue_record db o ≡ some r)

module _ {ℓ} {A : Type ℓ} where
  All-take {κ} : (P : A → Type κ) (n : ℕ) (xs : List A) → All P xs → All P (take n xs)
  unfolding take
  All-take P zero xs h = tt
  All-take P (suc n) [] h = tt
  All-take P (suc n) (x ∷ xs) h = (h.0, All-take P n xs h.1)

  pub length-take : (n : ℕ) (xs : List A) → length (take n xs) ≤ n
  unfolding take
  length-take zero xs = omega arith
  length-take (suc n) [] = omega arith
  length-take (suc n) (x ∷ xs) = omega (arith, length-take n xs)

queue_records-All :
    (now : ℕ) (db : Db) (os : List OutboxRow)
    → All (λ o. Member o db.outbox × (is_pending now o ≡ true)) os
    → All (FromPending now db) (queue_records db os) × (length (queue_records db os) ≤ length os)
unfolding queue_records
queue_records-All now db [] h = (tt, omega arith)
queue_records-All now db (o ∷ os) h = go (queue_record db o) refl (queue_records-All now db os h.1)
  where
    go :
        (m : Option QueueRecord)
        → queue_record db o ≡ m
        → All (FromPending now db) (queue_records db os)
          × (length (queue_records db os) ≤ length os)
        → All (FromPending now db) (elim m as (λ x. List QueueRecord) [
          | none ↦ queue_records db os
          | some r ↦ r ∷ queue_records db os
        ])
          × (length (elim m as (λ x. List QueueRecord) [
            | none ↦ queue_records db os
            | some r ↦ r ∷ queue_records db os
          ])
              ≤ suc (length os))
    go none e (rest, bound) = (rest, omega arith)
    go (some r) e (rest, bound) = (((o, h.0.0, h.0.1, e), rest), omega arith)

-- A claim of the outbox returns at most `limit` records, each the record of a row that was not enqueued and
-- under no live lease.
pub claim_outbox-pending :
    (limit lease_ms now : ℕ) (db : Db)
    → let records = (claim_outbox limit lease_ms now db).0 in
      All (FromPending now db) records × (length records ≤ limit)
unfolding claim_outbox candidates
claim_outbox-pending limit lease_ms now db =
    let rows = select (is_pending now) db.outbox in
    let (each, bound) = queue_records-All now db (candidates limit now db) (
      All-take _ limit _ (
        All-order_by before _ rows (
          All-select (λ o. Member o db.outbox) (is_pending now) db.outbox
            (All-intro _ db.outbox (λ o m. m))))) in
    (each, omega (arith, bound, length-take limit (order_by before rows)))

-- The row of a record that was claimed is not pending before the lease ends.
pub claim_outbox-leased :
    (limit lease_ms now now' : ℕ) (db : Db) (k : String) (o : OutboxRow)
    → find_outbox k db ≡ some o
    → any (is_record_of o) (claim_outbox limit lease_ms now db).0 ≡ true
    → now' < now + lease_ms
    → (find_outbox k (claim_outbox limit lease_ms now db).1 ≡ some (leased_row now lease_ms o))
      × (is_pending now' (leased_row now lease_ms o) ≡ false)
unfolding claim_outbox find_outbox is_pending
claim_outbox-leased limit lease_ms now now' db k o found claimed h =
    let records = (claim_outbox limit lease_ms now db).0 in
    (
      rw
          (find-update (row_is k) (λ x. any (is_record_of x) records) (leased_row now lease_ms)
            db.outbox (λ x m. refl))
          (rw found (rw claimed refl)),
      ground arith,
    )
