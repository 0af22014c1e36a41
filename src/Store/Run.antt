-- ===== src/Store/Run.antt =====
-- Histories of the event tables: every operation runs in a transaction of its own (`BEGIN
-- IMMEDIATE`), so what several workers do is one sequence of operations.
use ai_ops.Prelude.{ℕ, String, Bool, Option, List, [], ◌∷◌}
use ai_ops.Result.{Result, ok, err, Moment}
use ai_ops.Store.Payload.{Payload}
use ai_ops.Store.Rows.{EventState, Db}
use ai_ops.Store.Events.{transition, schedule_retry, acquire_lease, renew_lease}
use ai_ops.Store.Create.{create_or_get, create_or_update}

pub data Op : Type 0 where
  create : (now : ℕ) (event_id device : String) (payload : Payload) (strict : Bool) → Op
  refresh : (now : ℕ) (event_id device : String) (payload : Payload) → Op
  move :
      (clock : ℕ) (now : Option Moment) (event_id : String) (state : EventState)
      (reason ticket owner : Option String) (epoch : Option ℕ)
      → Op
  retry :
      (clock : ℕ) (now : Option Moment) (event_id reason : String) (ticket : Option String)
      (base max_attempts : ℕ) (owner : Option String) (epoch : Option ℕ)
      → Op
  acquire : (clock : ℕ) (now : Option Moment) (event_id owner : String) (duration : ℕ) → Op
  renew : (clock : ℕ) (now : Option Moment) (event_id owner : String) (epoch duration : ℕ) → Op

-- COMMIT or ROLLBACK
abbrev pub settle {ℓ} : {A : Type ℓ} → Result (A × Db) → Db → Db
settle (ok (a, db')) db = db'
settle (err e) db = db

unfoldable pub step : Op → Db → Db
step (create now id device payload strict) db =
    settle (create_or_get now id device payload strict db) db
step (refresh now id device payload) db = settle (create_or_update now id device payload db) db
step (move clock now id state reason ticket owner epoch) db =
    settle (transition clock now id state reason ticket owner epoch db) db
step (retry clock now id reason ticket base max_attempts owner epoch) db =
    settle (schedule_retry clock now id reason ticket base max_attempts owner epoch db) db
step (acquire clock now id owner duration) db =
    settle (acquire_lease clock now id owner duration db) db
step (renew clock now id owner epoch duration) db =
    settle (renew_lease clock now id owner epoch duration db) db

unfoldable pub run : List Op → Db → Db
run [] db = db
run (op ∷ ops) db = run ops (step op db)
