-- ===== src/Store/Create/Inversion.antt =====
-- What a successful creation or refresh of an event found and wrote.
use ai_ops.Prelude.{ℕ, ◌≡◌, String, Bool, true, false, none, some, arith, str_eq}
use ai_ops.Result.{ok}
use ai_ops.Store.Payload.{Payload, validate_payload_update}
use ai_ops.Store.Rows.{EventRow, Db, received}
use ai_ops.Store.Events.{find_event, set_event}
use ai_ops.Store.Create.{create_or_get, create_or_update, insert_event, check_reuse, refreshed}

module _ (now : ℕ) (id device : String) (payload : Payload) (db : Db) {r : EventRow} {made : Bool}
    {db' : Db} where
  module _ (strict : Bool) where
    pub create_or_get_new :
        find_event id db ≡ none
        → create_or_get now id device payload strict db ≡ ok ((r, made), db')
        → (db' ≡ insert_event now id device payload db) × (made ≡ true)
    unfolding create_or_get
    create_or_get_new missing h = ground arith

    pub create_or_get_old :
        {row : EventRow}
        → find_event id db ≡ some row
        → create_or_get now id device payload strict db ≡ ok ((r, made), db')
        → (db' ≡ db) × (made ≡ false) × (r ≡ row) × (check_reuse strict row device payload ≡ ok tt)
    unfolding create_or_get
    create_or_get_old found h = ground arith

  pub create_or_update_new :
      find_event id db ≡ none
      → create_or_update now id device payload db ≡ ok ((r, made), db')
      → (db' ≡ insert_event now id device payload db) × (made ≡ true)
  unfolding create_or_update
  create_or_update_new missing h = ground arith

  pub create_or_update_old :
      {row : EventRow}
      → find_event id db ≡ some row
      → create_or_update now id device payload db ≡ ok ((r, made), db')
      → (db' ≡ set_event id (refreshed now payload) db)
        × (made ≡ false)
        × (str_eq row.device device ≡ true)
        × (validate_payload_update row.payload payload ≡ ok tt)
        × (row.state ≡ received)
  unfolding create_or_update
  create_or_update_old found h = ground arith
