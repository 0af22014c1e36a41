-- ===== src/Tests/Retention.antt =====
-- A completed event is compacted after a week by the text of its time, one with a card is not.
use Prim.Native.Char.{code}
use ai_ops.Prelude.{
  ◌≡◌, refl, String, Bool, true, false, List, Option, none, some, [], ◌∷◌, ◌==◌, ltb, if◌then◌else◌,
}
use ai_ops.Result.{Result, ok, err, aware, require_aware}
use ai_ops.Store.Rows.{EventRow, Attempt, Db, admitted, completed}
use ai_ops.Store.Table.{find_row}
use ai_ops.Store.Run.{create, move, acquire}
use ai_ops.Store.Trail.{HasTrail}
use ai_ops.Store.Compaction.{Tables, Receipt, Compacted, IsoTimes, no_violations, compact}
use ai_ops.Store.Compaction.Holds.{IsCompacted, compact-IsCompacted}
use ai_ops.Store.Compaction.History.{TableOp, event, compaction, table_run, table_run-compact}
use ai_ops.Tests.Data.{alarm, row_in, db_with, empty_db}

abbrev carded : EventRow
carded = record (row_in completed) { event_id = "e2" }

abbrev card : Receipt
card = record {
  event_id = "e2";
  chat_id = "noc";
  message_id = 1;
  render_hash = "h";
  updated_at = 10;
}

abbrev attempt_of : EventRow → Attempt
attempt_of r = record {
  event_id = r.event_id;
  state = r.state;
  recorded_at = r.updated_at;
  reason = none;
}

abbrev tables : Tables
tables = record {
  db =
      db_with (row_in completed ∷ carded ∷ [])
        (attempt_of (row_in completed) ∷ attempt_of carded ∷ []);
  receipts = card ∷ [];
  cards = [];
  callbacks = [];
  shadows = [];
  narrowing = [];
  sweeps = [];
}

-- the order of texts in SQLite, which is that of their code points
abbrev text_ltb : String → String → Bool
text_ltb String.[] String.[] = false
text_ltb String.[] (String.◌∷◌ d t) = true
text_ltb (String.◌∷◌ c s) String.[] = false
text_ltb (String.◌∷◌ c s) (String.◌∷◌ d t) =
    let rest = text_ltb s t in if code c == code d then rest else ltb (code c) (code d)

-- seven days and thirty before 15 July, all rows being of one time
abbrev iso : String → String → IsoTimes
iso written before = record {
  event_text = λ r. written;
  outbox_text = λ o. written;
  sweep_text = λ x. written;
  cutoff = λ current days. if days == 7 then some before else some "2026-06-15T00:00:00+00:00";
  text_ltb = text_ltb;
}

abbrev utc : IsoTimes
utc = iso "2026-07-01T00:00:10+00:00" "2026-07-08T00:00:00+00:00"

compact-IsCompacted_example :
    (c : Compacted) × (after : Tables) × (compact utc 4096 0 (some (aware 800)) 7 30 tables
      ≡ ok (c, after))
    × IsCompacted utc "2026-07-08T00:00:00+00:00" "2026-06-15T00:00:00+00:00" tables after
unfolding no_violations
compact-IsCompacted_example =
    compact-IsCompacted utc 4096 0 800 7 30 "2026-07-08T00:00:00+00:00" "2026-06-15T00:00:00+00:00"
      tables refl refl refl refl

abbrev kept : Result (Compacted × Tables) → Option Db
kept (err e) = none
kept (ok (c, after)) = some after.db

card_keeps_its_event :
    kept (compact utc 4096 0 (some (aware 800)) 7 30 tables)
    ≡ some (db_with (carded ∷ []) (attempt_of carded ∷ []))
unfolding compact require_aware
card_keeps_its_event = refl

-- at 00:00 in a zone five hours behind UTC, an event three hours older than the cutoff stays
offset_keeps_an_old_event :
    kept (
      compact
        (iso "2026-07-08T02:00:00+00:00" "2026-07-08T00:00:00-05:00")
        4096
        0
        (some (aware 800))
        7
        30
        tables)
    ≡ some tables.db
unfolding compact require_aware
offset_keeps_an_old_event = refl

abbrev no_rows : Tables
no_rows = record {
  db = empty_db;
  receipts = [];
  cards = [];
  callbacks = [];
  shadows = [];
  narrowing = [];
  sweeps = [];
}

abbrev week : List TableOp
week =
    event (create 10 "e1" "PE1" alarm true)
    ∷ event (move 11 none "e1" admitted none none none none)
    ∷ compaction utc 4096 0 (some (aware 100)) 7 30
    ∷ event (acquire 20 none "e1" "w1" 50)
    ∷ event (move 30 none "e1" completed none none (some "w1") (some 1))
    ∷ []

no_trail : HasTrail "e1" empty_db
unfolding find_row
no_trail = record { ends = refl; edges = refl }

table_run-compact_example :
    (c : Compacted) × (after : Tables) × (compact utc 4096 0
        (some (aware 800))
        7
        30
        (table_run week no_rows)
      ≡ ok (c, after))
    × IsCompacted utc "2026-07-08T00:00:00+00:00" "2026-06-15T00:00:00+00:00"
        (table_run week no_rows)
        after
    × HasTrail "e1" after.db
unfolding no_violations
table_run-compact_example =
    table_run-compact week no_rows "e1" utc 4096 0 800 7 30 "2026-07-08T00:00:00+00:00"
      "2026-06-15T00:00:00+00:00" refl no_trail refl refl refl
