-- ===== src/Store/Outbox/Delivery.antt =====
-- One delivery intent, its claims and its outcomes.
use ai_ops.Prelude.{
  ℕ, ◌+◌, ◌<◌, ◌≡◌, refl, String, Bool, true, false, Option, some, arith, leb, is_blank,
  if◌then◌else◌,
}
use ai_ops.Result.{ok, Moment, aware, require_aware}
use ai_ops.Store.Rows.{OutboxState, OutboxRow, Db}
use ai_ops.Store.Table.{nat_key, find_row-update, nat_beq_iff}
use ai_ops.Store.Lease.Exclusion.{is_ok}
use ai_ops.Store.Lease.Fencing.{not_ok}
use ai_ops.Store.Outbox.{
  find_outbox, set_outbox, is_finished, is_waiting, is_taken, claimed, claim_notification, outcome,
  finished, finish_notification, delay_of,
}

find_outbox-set_outbox :
    (id : ℕ) (f : OutboxRow → OutboxRow) (db : Db) {row : OutboxRow}
    → ((r : OutboxRow) → (f r).outbox_id ≡ r.outbox_id)
    → find_outbox id db ≡ some row
    → find_outbox id (set_outbox id f db) ≡ some (f row)
find_outbox-set_outbox id f db {row} keeps found =
    rw (find_row-update (λ (r : OutboxRow). r.outbox_id) id id f db.outbox keeps)
      (ground (arith, found, nat_beq_iff id id))

module _ (clock : ℕ) (now : Option Moment) (id : ℕ) (owner : String) (duration : ℕ) (db : Db)
    {r : OutboxRow} {db' : Db} where
  claim_notification_inv :
      claim_notification clock now id owner duration db ≡ ok (r, db')
      → (t : ℕ) × (row : OutboxRow) × (require_aware clock now ≡ ok t)
        × (find_outbox id db ≡ some row)
        × (db' ≡ set_outbox id (claimed owner t (t + duration)) db)
        × (find_outbox id db' ≡ some r)
  unfolding claim_notification
  claim_notification_inv h = ground arith

-- Whether a claim succeeds depends on the row alone.
claim_notification-row :
    (clock t : ℕ) (id : ℕ) (owner : String) (duration : ℕ) (db : Db) {row : OutboxRow}
    → is_blank owner ≡ false
    → 0 < duration
    → find_outbox id db ≡ some row
    → is_ok (claim_notification clock (some (aware t)) id owner duration db) ≡ (
        if is_finished row.state
        then false
        else if is_waiting row.state row.retry_at t
        then false
        else if is_taken row.state row.lease_expires_at t
        then false
        else true)
unfolding claim_notification require_aware
claim_notification-row clock t id owner duration db {row} nonblank pos found = ground (
  arith,
  find_outbox-set_outbox id (claimed owner t (t + duration)) db {row = row}
      (λ r. unfold claimed in refl) found,
)

-- After a worker claimed a notification for `duration`, any worker that next claims it, with a name
-- that is not blank and a positive duration, succeeds exactly from the moment at which the claim has
-- run out.
pub claim_notification_exclusive :
    (clock t : ℕ) (id : ℕ) (owner : String) (duration : ℕ) (db : Db) {r : OutboxRow} {db' : Db}
    (clock' t' : ℕ) (owner' : String) (duration' : ℕ)
    → claim_notification clock (some (aware t)) id owner duration db ≡ ok (r, db')
    → is_blank owner' ≡ false
    → 0 < duration'
    → is_ok (claim_notification clock' (some (aware t')) id owner' duration' db')
      ≡ leb (t + duration) t'
claim_notification_exclusive clock t id owner duration db {r} {db'} clock' t' owner' duration' h nb
      pos =
    let (u, row, is_t, found, written, last) =
      claim_notification_inv clock (some (aware t)) id owner duration db {r = r} {db' = db'} h in
    let now_is : t ≡ u = unfold require_aware in ground arith in
    let after : find_outbox id db' ≡ some (claimed owner u (u + duration) row) = rw written (
      find_outbox-set_outbox id (claimed owner u (u + duration)) db {row = row}
        (λ r. unfold claimed in refl) found) in
    let taken = claim_notification-row clock' t' id owner' duration' db' nb pos after in
    unfold claimed in ground (arith, taken, now_is)

module _ (clock : ℕ) (now : Option Moment) (id : ℕ) (sent : Bool) (error : Option String)
    (retry_after : Option ℕ) (base max_attempts : ℕ) (owner : Option String) (epoch : Option ℕ)
    (db : Db) {r : OutboxRow} {db' : Db} where
  finish_notification_inv :
      finish_notification clock now id sent error retry_after base max_attempts owner epoch db
        ≡ ok (r, db')
      → (t : ℕ) × (row : OutboxRow) × (require_aware clock now ≡ ok t)
        × (find_outbox id db ≡ some row)
        × (row.state ≡ OutboxState.sending)
        × (epoch ≡ some row.lease_epoch)
        × (let (state, retry_at) = outcome sent row.attempts max_attempts retry_after base t in
            db' ≡ set_outbox id (finished state retry_at t error) db)
  unfolding finish_notification
  finish_notification_inv h = ground arith

-- What a recorded outcome means for the next claim: a notification that was sent, or that failed
-- in its `max_attempts`th claim or later, is never claimed by the next worker; one that failed
-- earlier is claimed exactly from its retry deadline on, which is the provider's delay, or
-- base * 2 ^ (claims - 1), after the failure. (The worker's name is not blank, its duration positive.)
pub finish_notification-claim_notification :
    (clock t : ℕ) (id : ℕ) (sent : Bool) (error : Option String) (retry_after : Option ℕ)
    (base max_attempts : ℕ) (owner : Option String) (epoch : Option ℕ) (db : Db) {row r : OutboxRow}
    {db' : Db} (clock' t' : ℕ) (owner' : String) (duration' : ℕ)
    → find_outbox id db ≡ some row
    → finish_notification clock
        (some (aware t))
        id
        sent
        error
        retry_after
        base
        max_attempts
        owner
        epoch
        db
      ≡ ok (r, db')
    → is_blank owner' ≡ false
    → 0 < duration'
    → is_ok (claim_notification clock' (some (aware t')) id owner' duration' db') ≡ (
        if sent
        then false
        else if leb max_attempts row.attempts
        then false
        else leb (t + delay_of retry_after base row.attempts) t')
finish_notification-claim_notification clock t id sent error retry_after base max owner epoch db
      {row} {r} {db'} clock' t' owner' duration' here h nb pos =
    let (u, row', is_t, found, sending, fenced, written) =
      finish_notification_inv clock (some (aware t)) id sent error retry_after base max owner epoch
        db {r = r} {db' = db'} h in
    let now_is : t ≡ u = unfold require_aware in ground arith in
    let same_row : row ≡ row' = same_some row row' (ground (arith, here, found)) in
    let next : OutboxState × Option ℕ = outcome sent row'.attempts max retry_after base u in
    let after : find_outbox id db' ≡ some (finished next.0 next.1 u error row') = rw written (
      find_outbox-set_outbox id (finished next.0 next.1 u error) db {row = row'}
        (λ r. unfold finished in refl) found) in
    let claim = claim_notification-row clock' t' id owner' duration' db' nb pos after in
    rw same_row (unfold finished outcome in ground (arith, claim, now_is))
  where
    same_some : (a b : OutboxRow) → some a ≡ some b → a ≡ b
    same_some a b e = cc

-- A worker whose claim another worker took over cannot record an outcome any more: with the first
-- worker's epoch `finish_notification` fails, whatever outcome, time and policy it reports.
pub stale_finish_refused :
    (clock clock' : ℕ) (now now' : Option Moment) (id : ℕ) (owner owner' : String)
    (duration duration' : ℕ) (db : Db) {r r' : OutboxRow} {db1 db2 : Db} (c : ℕ) (n : Option Moment)
    (sent : Bool) (error : Option String) (retry_after : Option ℕ) (base max_attempts : ℕ)
    (name : Option String)
    → claim_notification clock now id owner duration db ≡ ok (r, db1)
    → claim_notification clock' now' id owner' duration' db1 ≡ ok (r', db2)
    → is_ok (
        finish_notification c n id sent error retry_after base max_attempts name
          (some r.lease_epoch)
          db2)
      ≡ false
stale_finish_refused clock clock' now now' id owner owner' duration duration' db {r} {r'} {db1}
      {db2} c n sent error retry_after base max name first second =
    let (u, row, is_t, found, written, last) =
      claim_notification_inv clock now id owner duration db {r = r} {db' = db1} first in
    let (u', row', is_t', found', written', last') =
      claim_notification_inv clock' now' id owner' duration' db1 {r = r'} {db' = db2} second in
    let after : find_outbox id db2 ≡ some (claimed owner' u' (u' + duration') row') = rw written' (
      find_outbox-set_outbox id (claimed owner' u' (u' + duration')) db1 {row = row'}
        (λ r. unfold claimed in refl) found') in
    not_ok _ (λ a h.
      let (v, row'', is_v, found'', sending, fenced, w) =
        finish_notification_inv c n id sent error retry_after base max name (some r.lease_epoch) db2
          {r = a.0} {db' = a.1} h in
      unfold claimed in ground (arith, after, found', found'', last, fenced))
