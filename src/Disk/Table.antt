-- ===== src/Disk/Table.antt =====
-- The operations of cirrinad/disk/disk.go on the table, on the list in memory and on the backings.
-- `id_ok` is the test of an ID in `BeforeCreate`, `new_id` the ID that package uuid makes, and `like`
-- is the database's LIKE.
use cirrina.Prelude.{
  ℕ, String, Bool, true, false, not, Option, none, some, List, [], ◌∷◌, ◌==◌, str_eq, if◌then◌else◌,
  Result, ok, err,
}
use cirrina.Store.{Store, Write, failed, affected}
use cirrina.Strconv.{codes}
use cirrina.Util.Size.{SizeError, parse_disk_size}
use cirrina.Vm.{Disk, Settings, Host}
use cirrina.Vm.Args.Slots.{get_path}
use cirrina.Disk.{
  DiskError, disk_exists, disk_in_use, invalid_dev_type, internal_db, database_error, backing_error,
  size_error, validate, DiskList, get_by_name, drop_id, init_one_disk, InfoService, Backings,
  service_of,
}

abbrev has_name : List Disk → String → Bool
has_name [] name = false
has_name (d ∷ ds) name = if str_eq d.name name then true else has_name ds name

-- `memDiskInst != nil && memDiskInst.Name != ""`
abbrev in_memory : Result DiskError Disk → Bool
in_memory (ok d) = not (str_eq d.name "")
in_memory (err e) = false

unfoldable pub with_new_id : (String → Bool) → String → Disk → Disk
with_new_id id_ok new_id d = if id_ok d.id then d else record d { id = new_id }

-- The loop over the rows of vm_disks; `none` is a query that failed.
unfoldable pub in_use : (String → String → Bool) → Option (List String) → Disk → Bool
in_use like none d = true
in_use like (some []) d = false
in_use like (some (i ∷ ids)) d =
    let rest = in_use like (some ids) d in if like i d.id then true else rest

module _ (store : Store Disk) (backings : Backings) where
  open store use {Db, rows, query_fails, create as insert, update, delete as remove}

  -- The table, the list in memory and what the backings stand on.
  pub record Disks : Type 0 where
    pub db : Db
    pub list : DiskList
    pub world : backings.World

  -- A failed query leaves no rows.
  unfoldable pub get_all_db : Db → List Disk
  get_all_db db = if query_fails db then [] else rows db

  unfoldable pub disk_exists_cache_db : Disk → Disks → Bool
  unfolding get_all_db get_by_name
  disk_exists_cache_db d s =
      if in_memory (get_by_name d.name s.list) then true else has_name (get_all_db s.db) d.name

  abbrev inserted : Write × Db → Disk → Disks → Result DiskError Disk × Disks
  inserted (failed, db) row s = (err database_error, record s { db = db })
  inserted (affected n, db) row s =
      if n == 1
      then (ok row, record s { db = db; list = init_one_disk row s.list })
      else (err internal_db, record s { db = db })

  -- `db.Create` with the hook before it, and the entry in the list.
  unfoldable pub insert_disk :
      (String → Bool) → String → Disk → Disks → Result DiskError Disk × Disks
  unfolding with_new_id
  insert_disk id_ok new_id d s =
      if str_eq d.name ""
      then (err database_error, s)
      else let row = with_new_id id_ok new_id d in inserted (insert row s.db) row s

  -- The rest of `Create`, with the parsed size.
  unfoldable pub create_backed :
      (String → Bool)
      → String
      → InfoService backings.World
      → String
      → Disk
      → Result SizeError ℕ
      → Disks
      → Result DiskError Disk × Disks
  unfolding insert_disk
  create_backed id_ok new_id service path d (err e) s = (err size_error, s)
  create_backed id_ok new_id service path d (ok size) s =
      let (made, world) = service.create path size s.world in
      if made
      then insert_disk id_ok new_id d (record s { world = world })
      else (err backing_error, record s { world = world })

  -- The rest of `Create`, with what the service answers to whether the backing exists.
  unfoldable pub create_checked :
      (String → Bool)
      → String
      → Settings
      → InfoService backings.World
      → String
      → Disk
      → String
      → Option Bool
      → Disks
      → Result DiskError Disk × Disks
  unfolding create_backed validate
  create_checked id_ok new_id settings service path d size none s = (err backing_error, s)
  create_checked id_ok new_id settings service path d size (some true) s = (err disk_exists, s)
  create_checked id_ok new_id settings service path d size (some false) s =
      elim (validate settings d) [
        | some e ↦ (err e, s)
        | none ↦ create_backed id_ok new_id service path d (parse_disk_size (codes size)) s
      ]

  unfoldable pub create :
      (String → Bool)
      → String
      → Settings
      → Host
      → Disk
      → String
      → Disks
      → Result DiskError Disk × Disks
  unfolding service_of disk_exists_cache_db create_checked get_path
  create id_ok new_id settings host d size s = elim (service_of backings d.dev_type) [
    | none ↦ (err invalid_dev_type, s)
    | some service ↦
        if disk_exists_cache_db d s
        then (err disk_exists, s)
        else let path = get_path settings host d in
          create_checked id_ok new_id settings service path d size (service.exists path s.world) s
  ]

  abbrev deleted : Write × Db → Disk → Disks → Result DiskError (Unit {0}) × Disks
  deleted (failed, db) d s = (err internal_db, record s { db = db })
  deleted (affected n, db) d s =
      if n == 1
      then (ok tt, record s { db = db; list = drop_id d.id s.list })
      else (err internal_db, record s { db = db })

  -- `vm_disks` is the column of the disks' IDs that the query in `InUse` reads.
  unfoldable pub delete_disk :
      (String → String → Bool)
      → Option (List String)
      → Disk
      → Disks
      → Result DiskError (Unit {0}) × Disks
  unfolding in_use
  delete_disk like vm_disks d s =
      if in_use like vm_disks d
      then (err disk_in_use, s)
      else deleted (remove (λ row. str_eq row.id d.id) s.db) d s

  abbrev saved : Write × Db → Disks → Result DiskError (Unit {0}) × Disks
  saved (failed, db) s = (err internal_db, record s { db = db })
  saved (affected n, db) s = (ok tt, record s { db = db })

  -- `Save` of a disk whose fields were changed in the list before, through the pointer in it.
  unfoldable pub save : Disk → Disks → Result DiskError (Unit {0}) × Disks
  save d s = saved (update (λ row. str_eq row.id d.id) (λ row. d) s.db) s
