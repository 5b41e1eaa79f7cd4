-- ===== src/Vmnic/Table.antt =====
-- The operations of cirrinad/vmnic/vm_nics.go on the table of NICs, and `BeforeCreate` of
-- cirrinad/vmnic/db.go. `id_ok` is the test of an ID there, `new_id` the ID that package uuid makes.
use cirrina.Prelude.{
  ℕ, String, Bool, true, false, Option, none, some, List, [], ◌∷◌, ◌==◌, str_eq, if◌then◌else◌,
  Result, ok, err,
}
use cirrina.Store.{Store, Write, failed, affected}
use cirrina.Requests.{first_where}
use cirrina.Vmnic.{
  VmNic, NicError, nic_exists, nic_not_found, nic_in_use, invalid_nic_name, internal_db,
  database_error, validate, with_defaults, in_use,
}

abbrev pub found_nic : Option VmNic → Result NicError VmNic
found_nic none = err nic_not_found
found_nic (some nic) = ok nic

-- `nicExists`: any error but "not found" is passed on.
abbrev pub exists_of : Result NicError VmNic → Result NicError Bool
exists_of (ok nic) = ok true
exists_of (err nic_not_found) = ok false
exists_of (err e) = err e

unfoldable pub with_new_id : (String → Bool) → String → VmNic → VmNic
with_new_id id_ok new_id nic = if id_ok nic.id then nic else record nic { id = new_id }

abbrev pub inserted : Write → VmNic → Result NicError VmNic
inserted failed nic = err database_error
inserted (affected n) nic = if n == 1 then ok nic else err database_error

abbrev saved : Write → Result NicError (Unit {0})
saved failed = err internal_db
saved (affected n) = ok tt

abbrev pub deleted : Write → Result NicError (Unit {0})
deleted failed = err internal_db
deleted (affected n) = if n == 1 then ok tt else err internal_db

module _ (store : Store VmNic) where
  open store use {Db, rows, query_fails, create as insert, update, delete as remove}

  unfoldable pub get_by_name : String → Db → Result NicError VmNic
  get_by_name name db =
      if str_eq name ""
      then err nic_not_found
      else if query_fails db
      then err database_error
      else found_nic (first_where (λ nic. str_eq nic.name name) (rows db))

  unfoldable pub get_by_id : String → Db → Result NicError VmNic
  get_by_id nic_id db =
      if str_eq nic_id ""
      then err nic_not_found
      else if query_fails db
      then err database_error
      else found_nic (first_where (λ nic. str_eq nic.id nic_id) (rows db))

  unfoldable pub select_nics : ℕ → List VmNic → List VmNic
  select_nics vm_config_id [] = []
  select_nics vm_config_id (nic ∷ nics) =
      let rest = select_nics vm_config_id nics in
      if nic.config_id == vm_config_id then nic ∷ rest else rest

  unfoldable pub get_nics : ℕ → Db → Result NicError (List VmNic)
  unfolding select_nics
  get_nics vm_config_id db =
      if query_fails db then err database_error else ok (select_nics vm_config_id (rows db))

  -- A failed query leaves no rows.
  unfoldable pub get_all : Db → List VmNic
  get_all db = if query_fails db then [] else rows db

  unfoldable pub insert_nic : (String → Bool) → String → VmNic → Db → Result NicError VmNic × Db
  unfolding with_new_id
  insert_nic id_ok new_id nic db =
      if str_eq nic.name ""
      then (err invalid_nic_name, db)
      else let row = with_new_id id_ok new_id nic in
        let (written, db') = insert row db in (inserted written row, db')

  unfoldable pub insert_if_new :
      (String → Bool) → String → VmNic → Result NicError Bool → Db → Result NicError VmNic × Db
  unfolding insert_nic
  insert_if_new id_ok new_id nic (err e) db = (err e, db)
  insert_if_new id_ok new_id nic (ok true) db = (err nic_exists, db)
  insert_if_new id_ok new_id nic (ok false) db = insert_nic id_ok new_id nic db

  unfoldable pub create : (String → Bool) → String → VmNic → Db → Result NicError VmNic × Db
  unfolding insert_if_new get_by_name
  create id_ok new_id nic db = elim (validate (with_defaults nic)) [
    | err e ↦ (err e, db)
    | ok valid ↦ insert_if_new id_ok new_id valid (exists_of (get_by_name valid.name db)) db
  ]

  -- `Save` writes every column of the row of the NIC.
  unfoldable pub save : VmNic → Db → Result NicError (Unit {0}) × Db
  save nic db =
      let (written, db') = update (λ row. str_eq row.id nic.id) (λ row. nic) db in
      (saved written, db')

  unfoldable pub delete_nic : VmNic → Db → Result NicError (Unit {0}) × Db
  delete_nic nic db =
      if in_use nic
      then (err nic_in_use, db)
      else let (written, db') = remove (λ row. str_eq row.id nic.id) db in (deleted written, db')

  unfoldable pub set_switch : VmNic → String → Db → VmNic × Result NicError (Unit {0}) × Db
  unfolding save
  set_switch nic switch_id db =
      let nic' = record nic { switch_id = switch_id } in
      let (r, db') = save nic' db in (nic', r, db')
