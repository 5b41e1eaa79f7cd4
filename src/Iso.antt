-- ===== src/Iso.antt =====
-- cirrinad/iso/iso.go: the table of ISOs, and `BeforeCreate` of cirrinad/iso/db.go.
-- `id_ok` is the test of an ID there, `new_id` the ID that package uuid makes, `like` the database's
-- LIKE.
pub mod Created
use cirrina.Prelude.{
  ℕ, String, Bool, true, false, not, Option, none, some, List, [], ◌∷◌, ◌==◌, str_eq, if◌then◌else◌,
  Result, ok, err,
}
use cirrina.Store.{Store, Write, failed, affected}
use cirrina.Requests.{first_where}
use cirrina.Util.Name.{valid_iso_name}
use cirrina.Vm.{Iso, Settings, Host, PathCheck}

pub data IsoError : Type 0 where
  invalid_iso_name iso_exists internal_db id_empty_or_invalid iso_not_found iso_in_use : IsoError
  database_error path_error : IsoError

abbrev pub found_iso : Option Iso → Result IsoError Iso
found_iso none = err iso_not_found
found_iso (some i) = ok i

-- `isoExistsDB`: any error but "not found" is passed on.
abbrev pub exists_of : Result IsoError Iso → Result IsoError Bool
exists_of (ok i) = ok true
exists_of (err iso_not_found) = ok false
exists_of (err e) = err e

-- `isoExistsFS`
abbrev pub path_taken : PathCheck → Result IsoError Bool
path_taken check = if check.failed then err path_error else ok check.exists

unfoldable pub get_path : Settings → Host → Iso → String
get_path settings host i = host.join settings.iso_path i.name

unfoldable pub with_new_id : (String → Bool) → String → Iso → Iso
with_new_id id_ok new_id i = if id_ok i.id then i else record i { id = new_id }

-- The loop over the rows of vm_isos; `none` is a query that failed.
unfoldable pub in_use : (String → String → Bool) → Option (List String) → Iso → Bool
in_use like none i = true
in_use like (some []) i = false
in_use like (some (x ∷ xs)) i =
    let rest = in_use like (some xs) i in if like x i.id then true else rest

abbrev pub inserted : Write → Iso → Result IsoError Iso
inserted failed row = err database_error
inserted (affected n) row = if n == 1 then ok row else err database_error

module _ (store : Store Iso) where
  open store use {Db, rows, query_fails, create as insert, update, delete as remove}

  unfoldable pub get_all : Db → List Iso
  get_all db = if query_fails db then [] else rows db

  unfoldable pub get_by_id : String → Db → Result IsoError Iso
  get_by_id iso_id db =
      if str_eq iso_id ""
      then err id_empty_or_invalid
      else if query_fails db
      then err database_error
      else found_iso (first_where (λ i. str_eq i.id iso_id) (rows db))

  unfoldable pub get_by_name : String → Db → Result IsoError Iso
  get_by_name name db =
      if query_fails db
      then err database_error
      else found_iso (first_where (λ i. str_eq i.name name) (rows db))

  unfoldable pub insert_iso : (String → Bool) → String → Iso → Db → Result IsoError Iso × Db
  unfolding with_new_id
  insert_iso id_ok new_id i db =
      if str_eq i.name ""
      then (err invalid_iso_name, db)
      else let row = with_new_id id_ok new_id i in
        let (written, db') = insert row db in (inserted written row, db')

  -- The rest of `Create`, with what the test of the path answers.
  unfoldable pub create_unless_there :
      (String → Bool) → String → Iso → Result IsoError Bool → Db → Result IsoError Iso × Db
  unfolding insert_iso
  create_unless_there id_ok new_id i (err e) db = (err e, db)
  create_unless_there id_ok new_id i (ok true) db = (err iso_exists, db)
  create_unless_there id_ok new_id i (ok false) db =
      if not (valid_iso_name i.name)
      then (err invalid_iso_name, db)
      else insert_iso id_ok new_id i db

  -- The rest of `Create`, with what the test of the table answers.
  unfoldable pub create_if_new :
      (String → Bool)
      → String
      → Settings
      → Host
      → Iso
      → Result IsoError Bool
      → Db
      → Result IsoError Iso × Db
  unfolding create_unless_there get_path
  create_if_new id_ok new_id settings host i (err e) db = (err e, db)
  create_if_new id_ok new_id settings host i (ok true) db = (err iso_exists, db)
  create_if_new id_ok new_id settings host i (ok false) db =
      create_unless_there id_ok new_id i (path_taken (host.path_exists (get_path settings host i)))
        db

  unfoldable pub create :
      (String → Bool) → String → Settings → Host → Iso → Db → Result IsoError Iso × Db
  unfolding get_by_name create_if_new
  create id_ok new_id settings host i db =
      create_if_new id_ok new_id settings host i (exists_of (get_by_name i.name db)) db

  abbrev deleted : Write → Result IsoError (Unit {0})
  deleted failed = err internal_db
  deleted (affected n) = if n == 1 then ok tt else err internal_db

  unfoldable pub delete_iso :
      (String → String → Bool) → Option (List String) → Iso → Db → Result IsoError (Unit {0}) × Db
  unfolding in_use
  delete_iso like vm_isos i db =
      if in_use like vm_isos i
      then (err iso_in_use, db)
      else let (written, db') = remove (λ row. str_eq row.id i.id) db in (deleted written, db')

  abbrev saved : Write → Result IsoError (Unit {0})
  saved failed = err internal_db
  saved (affected n) = ok tt

  unfoldable pub save : Iso → Db → Result IsoError (Unit {0}) × Db
  save i db =
      let (written, db') = update (λ row. str_eq row.id i.id) (λ row. i) db in (saved written, db')
