-- ===== src/Store/Outbox/Intents.antt =====
-- One row for each delivery intent, that is for each event, destination and kind.
use ai_ops.Prelude.{
  ℕ, ◌+◌, ◌≡◌, refl, String, Bool, true, false, none, some, List, [], ◌∷◌, ◌++◌, arith,
  Option-cases, inl, inr, find_first, count_if, eq_refl, is_blank,
}
use ai_ops.Result.{ok}
use ai_ops.Store.Payload.{Payload}
use ai_ops.Store.Rows.{OutboxRow, Db}
use ai_ops.Store.Outbox.{is_intent, queued, enqueue_notification}

find_first-append :
    (p : OutboxRow → Bool) (rows : List OutboxRow) (r : OutboxRow)
    → find_first p rows ≡ none
    → p r ≡ true
    → find_first p (rows ++ r ∷ []) ≡ some r
find_first-append p [] r h k = ground arith
find_first-append p (x ∷ xs) r h k = ground (arith, find_first-append p xs r)

find_first-holds :
    (p : OutboxRow → Bool) (rows : List OutboxRow) {r : OutboxRow}
    → find_first p rows ≡ some r
    → p r ≡ true
find_first-holds p [] h = absurd (ground arith)
find_first-holds p (x ∷ xs) {r} h = ground (arith, find_first-holds p xs {r = r})

count_if_of_find_first :
    (p : OutboxRow → Bool) (rows : List OutboxRow) → find_first p rows ≡ none → count_if p rows ≡ 0
count_if_of_find_first p [] h = refl
count_if_of_find_first p (x ∷ xs) h = ground (arith, count_if_of_find_first p xs)

queued-is_intent :
    (id now : ℕ) (e d k : String) (payload : Payload)
    → is_intent e d k (queued id now e d k payload) ≡ true
unfolding is_intent queued
queued-is_intent id now e d k payload = simp eq_refl

module _ (now : ℕ) (e d k : String) (payload : Payload) (db : Db) {r : OutboxRow} {made : Bool}
    {db' : Db} where
  enqueue_found :
      {row : OutboxRow}
      → find_first (is_intent e d k) db.outbox ≡ some row
      → enqueue_notification now e d k payload db ≡ ok ((r, made), db')
      → db' ≡ db
  unfolding enqueue_notification
  enqueue_found f h = ground arith

  enqueue_new_row :
      find_first (is_intent e d k) db.outbox ≡ none
      → enqueue_notification now e d k payload db ≡ ok ((r, made), db')
      → db'.outbox ≡ db.outbox ++ queued (db.outbox_seq + 1) now e d k payload ∷ []
  unfolding enqueue_notification
  enqueue_new_row f h = ground arith

  enqueue_names :
      enqueue_notification now e d k payload db ≡ ok ((r, made), db')
      → (is_blank d ≡ false) × (is_blank k ≡ false)
  unfolding enqueue_notification
  enqueue_names h = ground arith

enqueue_again :
    (now : ℕ) (e d k : String) (payload : Payload) (db : Db) {row : OutboxRow}
    → is_blank d ≡ false
    → is_blank k ≡ false
    → find_first (is_intent e d k) db.outbox ≡ some row
    → enqueue_notification now e d k payload db ≡ ok ((row, false), db)
unfolding enqueue_notification
enqueue_again now e d k payload db a b f = ground arith

intent_present :
    (now : ℕ) (e d k : String) (payload : Payload) (db : Db) {r : OutboxRow} {made : Bool}
    {db' : Db}
    → enqueue_notification now e d k payload db ≡ ok ((r, made), db')
    → (row : OutboxRow) × (find_first (is_intent e d k) db'.outbox ≡ some row)
intent_present now e d k payload db {r} {made} {db'} h =
    elim (Option-cases (find_first (is_intent e d k) db.outbox)) [
      | inl missing ↦ (
        queued (db.outbox_seq + 1) now e d k payload,
        rw (enqueue_new_row now e d k payload db {r = r} {made = made} missing h) (
            find_first-append _ db.outbox _ missing
              (queued-is_intent (db.outbox_seq + 1) now e d k payload)),
      )
      | inr (row, found) ↦
          (row, rw (enqueue_found now e d k payload db {r = r} {made = made} found h) found)
    ]

-- Enqueueing is idempotent: once `enqueue_notification` succeeded for an event, a destination and a
-- kind, a second call for the same three, with any payload at any time, returns a row of this intent
-- with `False` and changes nothing.
enqueue_notification_idempotent :
    (now : ℕ) (e d k : String) (payload : Payload) (db : Db) {r : OutboxRow} {made : Bool}
    {db' : Db} (now' : ℕ) (payload' : Payload)
    → enqueue_notification now e d k payload db ≡ ok ((r, made), db')
    → (row : OutboxRow) × (enqueue_notification now' e d k payload' db' ≡ ok ((row, false), db'))
      × (is_intent e d k row ≡ true)
enqueue_notification_idempotent now e d k payload db {r} {made} {db'} now' payload' h =
    let (row, found) = intent_present now e d k payload db {r = r} {made = made} {db' = db'} h in
    let (dest, kind) = enqueue_names now e d k payload db {r = r} {made = made} {db' = db'} h in
    (
      row,
      enqueue_again now' e d k payload' db' dest kind found,
      find_first-holds (is_intent e d k) db'.outbox found,
    )
