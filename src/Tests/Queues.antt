-- ===== src/Tests/Queues.antt =====
-- Notifications, incidents and approvals at concrete tables.
use ai_ops.Store.Table.{update_row, find_row}
use ai_ops.Prelude.{
  is_blank, ◌+◌, ◌≡◌, refl, true, false, none, some, List, [], ◌∷◌, arith, leb, if◌then◌else◌,
}
use ai_ops.Result.{require_aware, ok, aware}
use ai_ops.Store.Rows.{
  OutboxState, OutboxRow, Db, received, resolved, IncidentIdentity, ApprovalRow,
}
use ai_ops.Store.Outbox.{
  outcome, queued, enqueue_notification, set_outbox, find_outbox, claimed, claim_notification,
  finished, finish_notification, delay_of,
}
use ai_ops.Store.Lease.Exclusion.{is_ok}
use ai_ops.Store.Outbox.Delivery.{
  claim_notification_exclusive, finish_notification-claim_notification, stale_finish_refused,
}
use ai_ops.Store.Incidents.{IncidentOp, report, advance, incident_run}
use ai_ops.Store.Incidents.Linked.{IsUnique}
use ai_ops.Store.Incidents.Unique.{incident_run-IsUnique}
use ai_ops.Store.Approvals.{recorded, consumed, consume_procedure_approval, approve, approval_run}
use ai_ops.Store.Approvals.SingleUse.{consume_procedure_approval_once}
use ai_ops.Tests.Data.{alarm, db_in}

abbrev event_db : Db
event_db = db_in received

abbrev page : OutboxRow
page = queued 1 5 "e1" "noc" "page" alarm

abbrev one_page : Db
one_page = record event_db { outbox = page ∷ []; outbox_seq = 1 }

enqueued : enqueue_notification 5 "e1" "noc" "page" alarm event_db ≡ ok ((page, true), one_page)
unfolding enqueue_notification is_blank find_row queued
enqueued = refl

abbrev sending : Db
sending = set_outbox 1 (claimed "n1" 20 70) one_page

claimed_once :
    claim_notification 0 (some (aware 20)) 1 "n1" 50 one_page
    ≡ ok (claimed "n1" 20 70 page, sending)
unfolding claim_notification is_blank require_aware find_row queued update_row claimed
claimed_once = refl

claim_notification_exclusive_example :
    is_ok (claim_notification 0 (some (aware 60)) 1 "n2" 10 sending) ≡ leb (20 + 50) 60
unfolding is_blank
claim_notification_exclusive_example =
    claim_notification_exclusive 0 20 1 "n1" 50 one_page 0 60 "n2" 10 claimed_once refl
      (omega arith)

abbrev bounced : Db
bounced = set_outbox 1 (finished OutboxState.pending (some 34) 30 (some "timeout")) sending

sending_row : find_outbox 1 sending ≡ some (claimed "n1" 20 70 page)
unfolding find_row update_row queued claimed
sending_row = refl

finished_once :
    finish_notification 0
      (some (aware 30))
      1
      false
      (some "timeout")
      none
      4
      3
      (some "n1")
      (some 1)
      sending
    ≡ ok (
      finished OutboxState.pending (some 34) 30 (some "timeout") (claimed "n1" 20 70 page),
      bounced,
    )
unfolding finish_notification require_aware find_row update_row queued claimed finished outcome
finished_once = refl

finish_notification-claim_notification_example :
    is_ok (claim_notification 0 (some (aware 40)) 1 "n2" 10 bounced) ≡ (
      if false
      then false
      else if leb 3 (claimed "n1" 20 70 page).attempts
      then false
      else leb (30 + delay_of none 4 (claimed "n1" 20 70 page).attempts) 40)
unfolding is_blank
finish_notification-claim_notification_example =
    finish_notification-claim_notification 0 30 1 false (some "timeout") none 4 3 (some "n1")
      (some 1) sending {row = claimed "n1" 20 70 page} 0 40 "n2" 10 sending_row finished_once refl
      (omega arith)

abbrev reclaimed : Db
reclaimed = set_outbox 1 (claimed "n2" 80 100) sending

claimed_again :
    claim_notification 0 (some (aware 80)) 1 "n2" 20 sending
    ≡ ok (claimed "n2" 80 100 (claimed "n1" 20 70 page), reclaimed)
unfolding claim_notification is_blank require_aware find_row update_row queued claimed
claimed_again = refl

stale_finish_refused_example :
    is_ok (
      finish_notification 0
        (some (aware 90))
        1
        true
        none
        none
        4
        3
        (some "n1")
        (some (claimed "n1" 20 70 page).lease_epoch)
        reclaimed)
    ≡ false
stale_finish_refused_example =
    stale_finish_refused 0 0 (some (aware 20)) (some (aware 80)) 1 "n1" "n2" 50 20 one_page
      {r = claimed "n1" 20 70 page} 0 (some (aware 90)) true none none 4 3 (some "n1") claimed_once
      claimed_again

abbrev root_cause : IncidentIdentity
root_cause = record { device = "PE1"; cause_rung = "interface"; cause_subject = "Gi0" }

abbrev reports : List IncidentOp
reports =
    report 5 none "i1" root_cause "e1"
    ∷ report 6 none "i2" root_cause "e2"
    ∷ advance 7 none "i1" resolved none
    ∷ report 8 none "i3" root_cause "e3"
    ∷ []

empty-IsUnique : IsUnique event_db
empty-IsUnique = record {
  cases = λ i. omega arith;
  ids = λ k. omega arith;
  links = λ e. omega arith;
}

incident_run-IsUnique_example : IsUnique (incident_run reports event_db)
incident_run-IsUnique_example = incident_run-IsUnique reports event_db empty-IsUnique

abbrev approval : ApprovalRow
approval = recorded "d1" "clear_bgp" 1 [] "n1" 90 "sig" 10

abbrev approved : Db
approved = record event_db { approvals = approval ∷ [] }

abbrev used : Db
used = record event_db { approvals = consumed 20 approval ∷ [] }

consumed_once :
    consume_procedure_approval 0 (some (aware 20)) "d1" "n1" approved
    ≡ ok (consumed 20 approval, used)
unfolding consume_procedure_approval require_aware recorded find_row update_row consumed
consumed_once = refl

consume_procedure_approval_once_example :
    is_ok (
      consume_procedure_approval 0 (some (aware 30)) "d1" "n2" (
        approval_run
          (approve 0 (some (aware 25)) "d1" "clear_bgp" 1 [] "n2" (aware 99) "sig" ∷ [])
          used))
    ≡ false
consume_procedure_approval_once_example =
    consume_procedure_approval_once 0 (some (aware 20)) "d1" "n1" approved
      {r = consumed 20 approval} {db' = used}
      (approve 0 (some (aware 25)) "d1" "clear_bgp" 1 [] "n2" (aware 99) "sig" ∷ []) 0
      (some (aware 30)) "n2" consumed_once
