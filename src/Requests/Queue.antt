-- ===== src/Requests/Queue.antt =====
-- The operations of cirrinad/requests/requests.go on the table of requests.
-- The database is a `Store` of requests. Of the package uuid the model takes whether a text parses
-- (`parses`), whether it is an ID in the spelling that `BeforeCreate` keeps (`id_ok`), and the new ID of a created row (`none` where none could be made) as arguments.
use cirrina.Prelude.{
  ℕ, String, Bool, true, false, not, ◌||◌, Option, none, some, List, [], ◌==◌, str_eq,
  if◌then◌else◌, Result, ok, err,
}
use cirrina.Store.{Store, Write, failed, affected}
use cirrina.Util.Json.{text, end, entry}
use cirrina.Util.Name.{valid_nic_name}
use cirrina.Requests.{
  ReqType, nicclone, Payload, json, Request, zero_request, RequestError, invalid_request,
  create_failure, request_not_found, database_error, valid_vm_req_type, valid_disk_req_type,
  updates, before_create, first_where, unstarted, pending_ids,
}

abbrev pub or_zero : Option Request → Request
or_zero none = zero_request
or_zero (some r) = r

abbrev pub new_request : ReqType → Payload → Request
new_request t body = record zero_request { req_type = t; payload = body }

abbrev checked_row : Write → Request → Result RequestError Request
checked_row failed r = err database_error
checked_row (affected n) r = if n == 1 then ok r else err create_failure

-- The NIC request looks at the number of rows alone.
abbrev counted_row : Write → Request → Result RequestError Request
counted_row failed r = err create_failure
counted_row (affected n) r = if n == 1 then ok r else err create_failure

module _ (store : Store Request) where
  open store use {Db, rows, query_fails, create, update}

  insert_row : (String → Bool) → Option String → Request → Db → Write × Request × Db
  insert_row id_ok new_id r db = elim (before_create id_ok new_id r) [
    | none ↦ (failed, r, db)
    | some row ↦ let (written, db') = create row db in (written, row, db')
  ]

  unfoldable pub create_nic_clone_req :
      (String → Bool)
      → (String → Bool)
      → Option String
      → String
      → String
      → Db
      → Result RequestError Request × Db
  unfolding insert_row
  create_nic_clone_req parses id_ok new_id nic_id new_name db =
      if str_eq nic_id ""
      then (err invalid_request, db)
      else if not (parses nic_id)
      then (err invalid_request, db)
      else if str_eq new_name "" || not (valid_nic_name new_name)
      then (err invalid_request, db)
      else let fields = entry "nic_id" (text nic_id) (entry "new_nic_name" (text new_name) end) in
        let (written, r, db') = insert_row id_ok new_id (new_request nicclone (json fields)) db in
        (counted_row written r, db')

  unfoldable pub create_vm_req :
      (String → Bool)
      → (String → Bool)
      → Option String
      → ReqType
      → String
      → Db
      → Result RequestError Request × Db
  unfolding insert_row
  create_vm_req parses id_ok new_id request_type vm_id db =
      if str_eq vm_id ""
      then (err invalid_request, db)
      else if not (parses vm_id)
      then (err invalid_request, db)
      else if not (valid_vm_req_type request_type)
      then (err invalid_request, db)
      else let body = json (entry "vm_id" (text vm_id) end) in
        let (written, r, db') = insert_row id_ok new_id (new_request request_type body) db in
        (checked_row written r, db')

  unfoldable pub create_disk_req :
      (String → Bool)
      → (String → Bool)
      → Option String
      → ReqType
      → String
      → Db
      → Result RequestError Request × Db
  unfolding insert_row
  create_disk_req parses id_ok new_id request_type disk_id db =
      if str_eq disk_id ""
      then (err invalid_request, db)
      else if not (parses disk_id)
      then (err invalid_request, db)
      else if not (valid_disk_req_type request_type)
      then (err invalid_request, db)
      else let body = json (entry "disk_id" (text disk_id) end) in
        let (written, r, db') = insert_row id_ok new_id (new_request request_type body) db in
        (checked_row written r, db')

  unfoldable pub get_by_id : String → Db → Result RequestError Request
  get_by_id request_id db =
      if str_eq request_id ""
      then err request_not_found
      else if query_fails db
      then err database_error
      else elim (first_where (λ r. str_eq r.id request_id) (rows db)) [
        | none ↦ err request_not_found
        | some r ↦ ok r
      ]

  -- A failed query leaves the zero value, as no row does.
  unfoldable pub get_un_started : Db → Request
  get_un_started db =
      if query_fails db then zero_request else or_zero (first_where unstarted (rows db))

  -- A failed query leaves no rows to walk.
  unfoldable pub pending_req_exists : String → Db → List String
  pending_req_exists obj_id db = if query_fails db then [] else pending_ids obj_id (rows db)

  unfoldable pub fail_all_pending : Db → Write × Db
  fail_all_pending db =
      update (λ r. not r.complete) (updates (record zero_request { complete = true })) db

  -- The row of a request: gorm's `Model(&r)` selects it by its primary key.
  unfoldable pub start : ℕ → Request → Db → Request × Db
  start now r db =
      let r' = record r { started_at = some now } in
      (r', (update (λ row. str_eq row.id r.id) (updates r') db).1)

  unfoldable pub succeeded : Request → Db → Db
  succeeded r db =
      let change = record zero_request { successful = true; complete = true } in
      (update (λ row. str_eq row.id r.id) (updates change) db).1

  unfoldable pub failed_request : Request → Db → Db
  failed_request r db =
      let change = record zero_request { successful = false; complete = true } in
      (update (λ row. str_eq row.id r.id) (updates change) db).1
